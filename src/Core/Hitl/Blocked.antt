-- ===== src/Core/Hitl/Blocked.antt =====
-- core/hitl/approval_runtime.py: an approval that runs out on a closed ticket.
use support_agent_platform.Shared.{suc, ◌<>◌, ◌≡◌, some, List, ◌∷◌, Error, ok, runtime_error}
use support_agent_platform.Storage.Models.{Status, Priority, Stage}
use support_agent_platform.Storage.World.{World, Row}
use support_agent_platform.Storage.Repository.{typed_row, find_row}
use support_agent_platform.Storage.Literals.{IsReadable}
use support_agent_platform.Core.Hitl.PendingActions.{PendingAction, load_pending_actions}
use support_agent_platform.Core.Hitl.Timeouts.{last_expired}

module _ (r : Row) (p : Priority) (l : Stage) (a : PendingAction) (actions : List PendingAction)
    (latest : PendingAction) (w : World) (found : find_row r.ticket_id w.tickets ≡ some r)
    (readable : IsReadable r p Status.closed l)
    (loaded : load_pending_actions (typed_row r p Status.closed l) w ≡ (ok (a ∷ actions), w))
    (expired : last_expired (record w { reads = suc w.reads }) (w.clock w.reads) (a ∷ actions)
      ≡ some latest) where
  abbrev later : World
  later = record w { reads = suc w.reads }

  abbrev refusal : Error
  refusal = runtime_error ("Ticket " <> r.ticket_id <> " is already closed")
