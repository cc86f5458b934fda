-- ===== src/Openclaw/Replays.antt =====
-- openclaw_adapter/session_mapper.py: the list of replays over all sessions.
use support_agent_platform.Shared.{
  ℕ, String, Option, none, some, List, [], ◌∷◌, ◌++◌, take, Value, Dict, null, text, arr, obj, end,
  entry, get, of_items, Exec, pure, ◌>>=◌,
}
use support_agent_platform.Shared.Sort.{sort_in}
use support_agent_platform.Shared.Text.{text_leb}
use support_agent_platform.Shared.Str.{str_or, of_option}
use support_agent_platform.Storage.Models.{SessionBinding}
use support_agent_platform.Storage.World.{World}
use support_agent_platform.Openclaw.SessionMapper.{list_bindings}

-- `item.get(key)`, as a value.
abbrev or_null : Option Value → Value
or_null none = null
or_null (some v) = v

-- A replay that the metadata of a binding holds, for the list.
unfoldable pub replay_row : SessionBinding → Dict → Dict
unfolding str_or
replay_row b item = entry "session_id" (text b.session_id) (
    entry "ticket_id" (of_option b.ticket_id) (
      entry "thread_id" (text b.thread_id) (
        entry "timestamp" (text (str_or (get "timestamp" item) "")) (
          entry "channel" (or_null (get "channel" item)) (
            entry "idempotency_key" (or_null (get "idempotency_key" item))
              (entry "trace_id" (or_null (get "trace_id" item)) end))))))

unfoldable pub replay_rows : SessionBinding → List Value → List Dict
unfolding replay_row
replay_rows b [] = []
replay_rows b (obj item ∷ values) = replay_row b item ∷ replay_rows b values
replay_rows b (_ ∷ values) = replay_rows b values

-- The replays of some bindings; metadata that holds no list has none.
unfoldable pub collect_replays : List SessionBinding → List Dict
unfolding replay_rows
collect_replays [] = []
collect_replays (b ∷ bindings) =
    let rest = collect_replays bindings in
    elim (get "replay_events" b.metadata) [
      | some (arr items) ↦ replay_rows b (of_items items) ++ rest
      | _ ↦ rest
    ]

timestamp_of : Dict → String
unfolding str_or
timestamp_of d = str_or (get "timestamp" d) ""

-- `events.sort(key=timestamp, reverse=True)`, which is stable.
unfoldable pub sort_newest : List Dict → List Dict
unfolding timestamp_of sort_in
sort_newest = sort_in (λ d e. text_leb (timestamp_of e) (timestamp_of d))

unfoldable pub list_replay_events : ℕ → Exec World (List Dict)
unfolding list_bindings collect_replays sort_newest
list_replay_events limit = do
  bindings ← list_bindings 500 0
  pure (take limit (sort_newest (collect_replays bindings)))
