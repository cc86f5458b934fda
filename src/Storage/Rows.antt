-- ===== src/Storage/Rows.antt =====
-- storage/ticket_repository.py: reads of the ticket table after its statements.
use support_agent_platform.Shared.{
  String, ◌≡◌, refl, ◌∙◌, ◌≢◌, none, some, List, [], ◌∷◌, ◌++◌, arith, ◌==◌, eq_iff, if◌then◌else◌,
}
use support_agent_platform.Storage.World.{Row}
use support_agent_platform.Storage.Columns.{
  Update, set_column, set_columns, status_update, without_status,
}
use support_agent_platform.Storage.Repository.{find_row, update_rows}

pub ticket_id-find_row :
    (id : String) (rows : List Row) (r : Row) → find_row id rows ≡ some r → r.ticket_id ≡ id
unfolding find_row
ticket_id-find_row id [] r h = cc
ticket_id-find_row id (q ∷ rows) r h =
    ground (arith, eq_iff q.ticket_id id, ticket_id-find_row id rows r)

module _ (f : Row → Row) (keeps : (r : Row) → (f r).ticket_id ≡ r.ticket_id) where
  pub find_row-update_self :
      (id : String) (rows : List Row) (r : Row)
      → find_row id rows ≡ some r
      → find_row id (update_rows id f rows) ≡ some (f r)
  unfolding find_row update_rows
  find_row-update_self id [] r h = cc
  find_row-update_self id (q ∷ rows) r h = ground (arith, keeps q, find_row-update_self id rows r)

  pub find_row-update_ne :
      (id j : String) (rows : List Row)
      → j ≢ id
      → find_row j (update_rows id f rows) ≡ find_row j rows
  unfolding find_row update_rows
  find_row-update_ne id j [] h = refl
  find_row-update_ne id j (q ∷ rows) h =
      ground
        (arith, keeps q, eq_iff q.ticket_id id, eq_iff q.ticket_id j, find_row-update_ne id j rows)

-- A row that the primary key lets in is read back, and hides no other.
pub find_row-append :
    (j : String) (rows : List Row) (r : Row)
    → find_row j (rows ++ r ∷ []) ≡ elim (find_row j rows) [
      | none ↦ if r.ticket_id == j then some r else none
      | some q ↦ some q
    ]
unfolding find_row
find_row-append j [] r = ground arith
find_row-append j (q ∷ rows) r = ground (arith, find_row-append j rows r)

ticket_id-set_column : (u : Update) (r : Row) → (set_column u r).ticket_id ≡ r.ticket_id
unfolding set_column
ticket_id-set_column (Update.title v) r = refl
ticket_id-set_column _ r = refl

pub ticket_id-set_columns :
    (updates : List Update) (r : Row) → (set_columns updates r).ticket_id ≡ r.ticket_id
unfolding set_columns
ticket_id-set_columns [] r = refl
ticket_id-set_columns (u ∷ updates) r =
    ticket_id-set_columns updates (set_column u r) ∙ ticket_id-set_column u r

pub set_columns-append :
    (us vs : List Update) (r : Row) → set_columns (us ++ vs) r ≡ set_columns vs (set_columns us r)
unfolding set_columns
set_columns-append [] vs r = refl
set_columns-append (u ∷ us) vs r = set_columns-append us vs (set_column u r)

-- Updates that do not name the status leave it.
pub status-set_columns :
    (updates : List Update) (r : Row)
    → status_update updates ≡ none
    → (set_columns updates r).status ≡ r.status
unfolding set_columns status_update
status-set_columns [] r h = refl
status-set_columns (Update.status s ∷ updates) r h = cc
status-set_columns (u ∷ updates) r h = status-set_columns updates (set_column u r) h

pub status_update-without_status :
    (updates : List Update) → status_update (without_status updates) ≡ none
unfolding status_update without_status
status_update-without_status [] = refl
status_update-without_status (Update.status s ∷ updates) = status_update-without_status updates
status_update-without_status (_ ∷ updates) = status_update-without_status updates
