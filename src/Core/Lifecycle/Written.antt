-- ===== src/Core/Lifecycle/Written.antt =====
-- What the repository's `update_ticket` does to the table of tickets.
use support_agent_platform.Shared.{
  ℕ, String, ◌≡◌, refl, sym, ap, ◌∙◌, ◌≢◌, ◌⊎◌, inl, inr, true, false, Option, none, some, List, [],
  ◌∷◌, arith, ◌==◌, eq_iff, Bool-cases, ne_of_test,
}
use support_agent_platform.Storage.Models.{Status, status_text}
use support_agent_platform.Storage.World.{World, Row}
use support_agent_platform.Storage.Columns.{Update, set_columns, unknown_fields}
use support_agent_platform.Storage.Repository
use support_agent_platform.Storage.Repository.{
  find_row, update_rows, row_to_ticket, found_ticket, get_ticket, reload_ticket, write_columns,
  reject_unknown,
}
use support_agent_platform.Storage.Rows.{
  find_row-update_self, find_row-update_ne, ticket_id-set_columns,
}
use support_agent_platform.Core.Lifecycle.{
  Lifecycle, RowEvolves, RowEvolves-refl, Evolves, Evolves-same,
}

-- An event is no change of a ticket.
-- The columns that an update of the row with a time writes.
abbrev pub written : List Update → ℕ → Row → Row
written updates time r = record (set_columns updates r) { updated_at = time }

ticket_id-written :
    (updates : List Update) (time : ℕ) (r : Row) → (written updates time r).ticket_id ≡ r.ticket_id
ticket_id-written updates time r = ticket_id-set_columns updates r

-- The table after an update: as it was, or with the columns written in the row that was found.
pub data Written (id : String) (updates : List Update) (v w : World) : Type 0 where
  unchanged : w.tickets ≡ v.tickets → Written id updates v w
  changed :
      (r : Row) (time : ℕ)
      → find_row id v.tickets ≡ some r
      → w.tickets ≡ update_rows id (written updates time) v.tickets
      → Written id updates v w

pub update_ticket-Written :
    (id : String) (updates : List Update) (w : World)
    → Written id updates w (Repository.update_ticket id updates w).1
unfolding Repository.update_ticket reject_unknown write_columns reload_ticket
update_ticket-Written id updates w = by_fields (unknown_fields updates) refl
  where
    by_row :
        (o : Option Row)
        → find_row id w.tickets ≡ o
        → unknown_fields updates ≡ []
        → Written id updates w (Repository.update_ticket id updates w).1
    by_row none e h = unchanged (ground arith)
    by_row (some r) e h = changed r (w.clock w.reads) e (ground arith)

    by_fields :
        (keys : List String)
        → unknown_fields updates ≡ keys
        → Written id updates w (Repository.update_ticket id updates w).1
    by_fields [] h = by_row (find_row id w.tickets) refl h
    by_fields (k ∷ keys) h = unchanged (ground arith)

-- The row of the identifier, if there is one, is not closed.
abbrev pub IsOpen : String → World → Type 0
IsOpen id w = (r : Row) → find_row id w.tickets ≡ some r → r.status ≢ status_text Status.closed

module _ (id : String) (updates : List Update) (v w : World) where
  find_row-changed :
      (time : ℕ) (r : Row)
      → find_row id v.tickets ≡ some r
      → w.tickets ≡ update_rows id (written updates time) v.tickets
      → find_row id w.tickets ≡ some (written updates time r)
  find_row-changed time r h e = rw e (
      find_row-update_self (written updates time) (ticket_id-written updates time) id v.tickets r h)

  -- A row that is not closed may be written, if its new status is reached from the old one.
  pub Evolves-Written :
      ((r : Row)
        → find_row id v.tickets ≡ some r
        → Lifecycle (set_columns updates r).status r.status)
      → IsOpen id v
      → Written id updates v w
      → Evolves v w
  Evolves-Written moves open_row (unchanged e) = Evolves-same e
  Evolves-Written moves open_row (changed r time h e) = record {
    at = λ j. evolves j (Bool-cases (j == id));
  }
    where
      evolves :
          (j : String)
          → ((j == id) ≡ true) ⊎ ((j == id) ≡ false)
          → RowEvolves (find_row j v.tickets) (find_row j w.tickets)
      evolves j (inl same) =
          let found = find_row-changed time r h e in
          rw ((eq_iff j id).0 same, h, found) (moves r h, λ closed. absurd (open_row r h closed))
      evolves j (inr other) =
          rw
            (
              e,
              find_row-update_ne (written updates time) (ticket_id-written updates time) id j
                  v.tickets (ne_of_test j id other),
            )
            (RowEvolves-refl (find_row j v.tickets))

  pub IsOpen-Written :
      ((r : Row) → (set_columns updates r).status ≢ status_text Status.closed)
      → IsOpen id v
      → Written id updates v w
      → IsOpen id w
  IsOpen-Written stays open_row (unchanged e) = λ r h. open_row r (ap (find_row id) (sym e) ∙ h)
  IsOpen-Written stays open_row (changed q time found e) =
      λ r h closed. stays q (ap (λ (x : Row). x.status) (same_row q r found h) ∙ closed)
    where
      same_row :
          (q r : Row)
          → find_row id v.tickets ≡ some q
          → find_row id w.tickets ≡ some r
          → written updates time q ≡ r
      same_row q r k h = cc (sym (find_row-changed time q k e) ∙ h)
