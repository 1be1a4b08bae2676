-- ===== src/Api/Document.antt =====
-- internal/api/docs/docs.go: the API document, as data.
pub mod Operations
pub mod Definitions
pub mod Conform
pub mod Answers
use exchange_rate_quote_serv.Prelude.{
  ℕ, Text, codes, Bool, true, false, List, [], ◌∷◌, Option, none, some,
}

-- The HTTP methods of the document.
pub data Verb : Type 0 where
  get post : Verb

-- A schema: a string, or a reference to one of the definitions.
pub data Schema : Type 0 where
  string : Schema
  ref : Text → Schema

pub data Place : Type 0 where
  body path query : Place

pub record Parameter : Type 0 where
  pub name : Text
  pub place : Place
  pub required : Bool
  pub description : Text
  pub schema : Schema
  pub length : Option (ℕ × ℕ)
  pub format : Option Text

-- An entry of `responses`.
pub record Answer : Type 0 where
  pub status : ℕ
  pub description : Text
  pub schema : Schema

pub record Operation : Type 0 where
  pub path : Text
  pub verb : Verb
  pub description : Text
  pub consumes : List Text
  pub produces : List Text
  pub tags : List Text
  pub summary : Text
  pub parameters : List Parameter
  pub responses : List Answer

-- A property of a definition; each is a string.
pub record Property : Type 0 where
  pub name : Text
  pub example : Text

-- An entry of `definitions`, an object.
pub record Definition : Type 0 where
  pub name : Text
  pub properties : List Property
