-- ===== src/Repository/Refinement/Methods.antt =====
-- The methods of `PostgresQuoteRepository`, and the map that is seen of the table.
use exchange_rate_quote_serv.Prelude.{Text, Bool, Option, ◌≡◌, refl, ◌∙◌, ap}
use exchange_rate_quote_serv.Errors.{Result}
use exchange_rate_quote_serv.Repository.Table.{Time, Quote, Table, Postgres, select_by_id}
use exchange_rate_quote_serv.Repository.Methods.{
  Link, created, some_row, check_rows_affected, not_startable_error, create_update, mark_running,
  mark_success, mark_failed, get_by_id, run_statement,
}
use exchange_rate_quote_serv.Repository.Invariant.{IsValid}
use exchange_rate_quote_serv.Repository.View.{View, view}
use exchange_rate_quote_serv.Repository.Spec.{
  seen, through, spec_mark_success, spec_mark_failed, spec_mark_running, spec_create_update,
  spec_get_by_id, IsFlying, IsClash,
}
use exchange_rate_quote_serv.Repository.Refinement.Statements.{
  seen-through, success_seen, failed_seen, running_seen, insert_seen, flying,
}
use exchange_rate_quote_serv.Repository.Refinement.Index.{clash, flying-IsFlying, clash-IsClash}

module _ (pg : Postgres) where
  method_seen :
      {A B : Type 0} (f : Result A → Result B) (link : Link) (done : Result A × Table)
      (did : Result A × View) (t : Table)
      → seen done ≡ did
      → let (r, t') = run_statement link done t in
        let (r', m') = through link did (view t) in
        ◌≡◌ {A = Result B × View} (f r, view t') (f r', m')
  method_seen f link done did t same =
      ap (λ p. (f p.0, p.1)) (seen-through link done t)
      ∙ ap (λ d. let (r', m') = through link d (view t) in (f r', m')) same

  pub mark_running-seen :
      (link : Link) (now : Time) (t : Table) (id : Text)
      → IsValid t
      → seen (mark_running pg link now id t) ≡ spec_mark_running pg now link (clash t) id (view t)
  unfolding mark_running spec_mark_running
  mark_running-seen link now t id valid =
      method_seen (some_row (not_startable_error id)) link _ _ t (running_seen pg now id t valid)

  pub create_update-seen :
      (link : Link) (now : Time) (t : Table) (base quote id : Text)
      → IsValid t
      → seen (create_update pg link now base quote id t)
        ≡ spec_create_update pg now link (flying pg now t) base quote id (view t)
  unfolding create_update spec_create_update
  create_update-seen link now t base quote id valid =
      method_seen created link _ _ t (insert_seen pg now base quote id t)

  -- What the methods are to the map that is seen of the table `t`.
  pub record Refines (link : Link) (now : Time) (t : Table) : Type 0 where
    pub index : Text → Text → Option Quote
    pub is_index : (b q : Text) → IsFlying b q (view t) (index b q)
    pub rivals : Text → Bool
    pub are_rivals : (u : Text) → IsClash u (view t) (rivals u)
    pub success :
        (id price : Text)
        → seen (mark_success pg link now id price t)
          ≡ spec_mark_success pg now link id price (view t)
    pub failure :
        (id msg : Text)
        → seen (mark_failed pg link now id msg t) ≡ spec_mark_failed pg now link id msg (view t)
    pub running :
        (id : Text)
        → seen (mark_running pg link now id t) ≡ spec_mark_running pg now link rivals id (view t)
    pub create :
        (base quote id : Text)
        → seen (create_update pg link now base quote id t)
          ≡ spec_create_update pg now link index base quote id (view t)
    pub by_id : (id : Text) → get_by_id pg link id t ≡ spec_get_by_id pg link id (view t)

  -- Over a valid table and any link to the database, the methods of `PostgresQuoteRepository` are
  -- those of a map from ids to rows. `MarkSuccess`, `MarkFailed` and `MarkRunning` change the row
  -- of the id in the map if its status is one they ask for, and return an error otherwise;
  -- `CreateUpdate` returns the id of a row of the pair that is PENDING or RUNNING if the map has
  -- one, and otherwise puts a new row; `GetByID` reads the map. Whether the index finds such a
  -- row, and whether it refuses `MarkRunning`, is determined by the rows of the map.
  pub methods-Refines : (link : Link) (now : Time) (t : Table) → IsValid t → Refines link now t
  unfolding mark_success mark_failed get_by_id spec_mark_success spec_mark_failed spec_get_by_id
      select_by_id
  methods-Refines link now t valid = record {
    index = flying pg now t;
    is_index = λ b q. flying-IsFlying pg now b q t valid;
    rivals = clash t;
    are_rivals = λ u. clash-IsClash u t valid;
    success = λ id price.
        method_seen (check_rows_affected id) link _ _ t (success_seen pg now id price t valid);
    failure = λ id msg.
        method_seen (check_rows_affected id) link _ _ t (failed_seen pg now id msg t valid);
    running = λ id. mark_running-seen link now t id valid;
    create = λ base quote id. create_update-seen link now t base quote id valid;
    by_id = λ id. refl;
  }
