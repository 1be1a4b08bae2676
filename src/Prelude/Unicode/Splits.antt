-- ===== src/Prelude/Unicode/Splits.antt =====
-- `strings.Split` on a separator of one code point, both ways.
use mathlib.Core.List.{List, [], ◌∷◌, ◌++◌, reverse, reverse-cons, append_assoc, append-nil}
use mathlib.Core.Path.{◌≡◌, refl, ap, ◌∙◌}
use mathlib.Core.Bool.{false}
use mathlib.Core.Logic.{inl, inr}
use native.Mathlib.Omega.{arith}
use Prim.Native.Nat.{ℕ}
use exchange_rate_quote_serv.Prelude.Tests.{◌==◌, Bool-cases}
use exchange_rate_quote_serv.Prelude.Lists.{All}
use exchange_rate_quote_serv.Prelude.Texts.{Text}
use exchange_rate_quote_serv.Prelude.Unicode.{cut_at, split}

-- The text of a list of parts, each with a separator in front of it.
rejoin : ℕ → List Text → Text
rejoin sep [] = []
rejoin sep (t ∷ ts) = sep ∷ (t ++ rejoin sep ts)

rejoin-cut_at : (sep : ℕ) (cur s : Text) → rejoin sep (cut_at sep cur s) ≡ sep ∷ (reverse cur ++ s)
unfolding rejoin cut_at
rejoin-cut_at sep cur [] = refl
rejoin-cut_at sep cur (c ∷ s) = elim (Bool-cases (c == sep)) [
  | inl same ↦ rw same (ground (arith, rejoin-cut_at sep [] s))
  | inr other ↦ rw other (rejoin-cut_at sep (c ∷ cur) s ∙ simp (reverse-cons, append_assoc))
]

abbrev pub Lacks : ℕ → Text → Type 0
Lacks sep s = All (λ c. (c == sep) ≡ false) s

cut_at-last : (sep : ℕ) (cur s : Text) → Lacks sep s → cut_at sep cur s ≡ (reverse cur ++ s) ∷ []
unfolding cut_at
cut_at-last sep cur [] h = rw append-nil
cut_at-last sep cur (c ∷ s) (h, hs) =
    rw h (cut_at-last sep (c ∷ cur) s hs ∙ simp (reverse-cons, append_assoc))

cut_at-append :
    (sep : ℕ) (cur s t : Text)
    → Lacks sep s
    → cut_at sep cur (s ++ sep ∷ t) ≡ (reverse cur ++ s) ∷ cut_at sep [] t
unfolding cut_at
cut_at-append sep cur [] t h = ground (arith, append-nil (reverse cur))
cut_at-append sep cur (c ∷ s) t (h, hs) =
    rw h (cut_at-append sep (c ∷ cur) s t hs ∙ simp (reverse-cons, append_assoc))

pub split_two :
    (sep : ℕ) (s t : Text) → Lacks sep s → Lacks sep t → split sep (s ++ sep ∷ t) ≡ s ∷ t ∷ []
unfolding split
split_two sep s t h k = rw (cut_at-append sep [] s t h, cut_at-last sep [] t k)

pub split_inverse : (sep : ℕ) (p s t : Text) → split sep p ≡ s ∷ t ∷ [] → p ≡ s ++ sep ∷ t
unfolding split rejoin
split_inverse sep p s t e =
    let back = ap (rejoin sep) e in
    let there = rejoin-cut_at sep [] p in ground (arith, append-nil t)
