-- ===== src/Core/Lifecycle/Guards.antt =====
-- The two guards of every method of core/ticket_api.py that writes.
use support_agent_platform.Shared.{
  String, ◌≡◌, refl, sym, subst, ◌∙◌, Bool, true, false, Option, none, some, arith, ◌==◌,
  ne_of_test, Result, ok, err, Exec, ◌>>=◌,
}
use support_agent_platform.Storage.Models.{Ticket, Status, status_text}
use support_agent_platform.Storage.World.{World, Row}
use support_agent_platform.Storage.Repository.{find_row, row_to_ticket, get_ticket}
use support_agent_platform.Storage.Literals.{status-row_to_ticket}
use support_agent_platform.Core.TicketApi.{same_status, require_ticket, ensure_not_closed}
use support_agent_platform.Core.Lifecycle.Written.{IsOpen}

different :
    (t : Ticket)
    → same_status t.status Status.closed ≡ false
    → (status_text t.status == status_text Status.closed) ≡ false
unfolding same_status
different t h = h

-- What follows the two guards runs only on a row that is not closed. `P` relates the world before
-- and after, and holds where no ticket changes.
module _ (P : World → World → Type 0) (frame : (w v : World) → v.tickets ≡ w.tickets → P w v) where
  pub guarded :
      {A : Type 0} (id : String) (k : Ticket → Exec World A)
      → ((t : Ticket) (w : World) → IsOpen id w → P w (k t w).1)
      → (w : World) → P w ((require_ticket id >>= λ t. ensure_not_closed t >>= λ _. k t) w).1
  unfolding require_ticket ensure_not_closed get_ticket
  guarded {A} id k keeps w = by_row (find_row id w.tickets) refl
    where
      after : World
      after = ((require_ticket id >>= λ t. ensure_not_closed t >>= λ _. k t) w).1

      is_open :
          (r : Row) (t : Ticket)
          → find_row id w.tickets ≡ some r
          → row_to_ticket r ≡ ok t
          → same_status t.status Status.closed ≡ false
          → IsOpen id w
      is_open r t found read test q h closed =
          ne_of_test (status_text t.status) (status_text Status.closed) (different t test)
            (sym (status-row_to_ticket r t read) ∙ cc (found, h, closed))

      by_test :
          (r : Row) (t : Ticket)
          → find_row id w.tickets ≡ some r
          → row_to_ticket r ≡ ok t
          → (b : Bool) → same_status t.status Status.closed ≡ b
          → P w after
      by_test r t found read true test = frame w after (ground arith)
      by_test r t found read false test =
          let same : (k t w).1 ≡ after = ground arith in
          subst (λ v. P w v) same (keeps t w (is_open r t found read test))

      by_ticket :
          (r : Row)
          → find_row id w.tickets ≡ some r
          → (t : Result Ticket) → row_to_ticket r ≡ t
          → P w after
      by_ticket r found (ok t) read =
          by_test r t found read (same_status t.status Status.closed) refl
      by_ticket r found (err e) read = frame w after (ground arith)

      by_row : (o : Option Row) → find_row id w.tickets ≡ o → P w after
      by_row none found = frame w after (ground arith)
      by_row (some r) found = by_ticket r found (row_to_ticket r) refl
