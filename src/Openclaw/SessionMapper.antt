-- ===== src/Openclaw/SessionMapper.antt =====
-- openclaw_adapter/session_mapper.py: `SessionMapper` over the table of session bindings.
use support_agent_platform.Shared.{
  ℕ, String, ◌<>◌, Bool, true, false, Option, none, some, List, [], ◌∷◌, ◌++◌, map, ◌==◌,
  if◌then◌else◌, length, take, drop, take_last, contains, ℤ, pos, Value, Dict, int, text, arr, obj,
  end, entry, get, merge, of_items, to_items, Result, ok, err, runtime_error, type_error, Exec,
  pure, gets, lift, ◌>>=◌, ◌>>◌,
}
use support_agent_platform.Shared.Sort.{sort_desc, sort_in}
use support_agent_platform.Shared.Str.{int_of, nonblank_texts, dicts, of_option}
use support_agent_platform.Shared.Int.{successor}
use support_agent_platform.Shared.Same.{same_dict}
use support_agent_platform.Storage.Models.{SessionBinding}
use support_agent_platform.Storage.World.{World, now}

-- `SELECT ... WHERE session_id = ?`.
unfoldable pub find_binding : String → List SessionBinding → Option SessionBinding
find_binding id [] = none
find_binding id (b ∷ bindings) = if b.session_id == id then some b else find_binding id bindings

unfoldable pub get_binding : String → Exec World (Option SessionBinding)
get_binding id w = (ok (find_binding id w.sessions), w)

-- `INSERT ... ON CONFLICT(session_id) DO UPDATE`.
unfoldable pub upsert_binding : SessionBinding → List SessionBinding → List SessionBinding
upsert_binding b [] = b ∷ []
upsert_binding b (c ∷ bindings) =
    if c.session_id == b.session_id then b ∷ bindings else c ∷ upsert_binding b bindings

unfoldable pub upsert : String → String → Option String → Dict → Exec World Unit
unfolding upsert_binding
upsert session_id thread_id ticket_id metadata = do
  time ← now
  λ w. (
    ok tt,
    record w {
      sessions =
          upsert_binding
            (record {
              session_id = session_id;
              thread_id = thread_id;
              ticket_id = ticket_id;
              metadata = metadata;
              updated_at = time;
            })
            w.sessions;
    },
  )

-- `_build_thread_id`.
unfoldable pub build_thread_id : World → String → String
build_thread_id w session_id = w.uuid5 ("support-agent-platform/" <> session_id)

-- The read after a write.
unfoldable pub reload_binding : String → String → Exec World SessionBinding
reload_binding message session_id w = elim (find_binding session_id w.sessions) [
  | none ↦ (err (runtime_error (message <> "'" <> session_id <> "'")), w)
  | some b ↦ (ok b, w)
]

-- `self.get(session_id) or existing`.
unfoldable pub reload_or : SessionBinding → String → Exec World SessionBinding
reload_or existing session_id w =
    (ok (elim (find_binding session_id w.sessions) [ none ↦ existing | some b ↦ b ]), w)

unfoldable pub create_binding : String → Dict → Exec World SessionBinding
unfolding upsert build_thread_id reload_binding
create_binding session_id metadata = do
  thread_id ← gets (λ w. build_thread_id w session_id)
  upsert session_id thread_id none metadata
  reload_binding "Failed to create session binding for " session_id

unfoldable pub refresh_binding : String → Dict → SessionBinding → Exec World SessionBinding
unfolding upsert reload_or
refresh_binding session_id metadata existing =
    let merged = merge existing.metadata metadata in
    if same_dict merged existing.metadata then pure existing else (do
      upsert session_id existing.thread_id existing.ticket_id merged
      reload_or existing session_id)

-- `get_or_create`; metadata that is None is an empty dict.
unfoldable pub get_or_create : String → Dict → Exec World SessionBinding
unfolding create_binding refresh_binding
get_or_create session_id metadata w = elim (find_binding session_id w.sessions) [
  | none ↦ create_binding session_id metadata w
  | some existing ↦ refresh_binding session_id metadata existing w
]

unfoldable pub set_ticket_id : String → String → Dict → Exec World SessionBinding
unfolding get_or_create upsert reload_binding
set_ticket_id session_id ticket_id metadata = do
  binding ← get_or_create session_id metadata
  upsert session_id binding.thread_id (some ticket_id) (merge binding.metadata metadata)
  reload_binding "Failed to update session binding for " session_id

unfoldable pub count : Exec World ℕ
count w = (ok (length w.sessions), w)

-- `list_bindings`: an empty ticket id reads as none.
unfoldable pub list_bindings : ℕ → ℕ → Exec World (List SessionBinding)
unfolding sort_in
list_bindings limit offset w = (
  ok (
      map
        (λ (b : SessionBinding). record b {
          ticket_id = elim b.ticket_id [ none ↦ none | some t ↦ if t == "" then none else some t ];
        })
        (take limit (drop offset (sort_desc (λ (b : SessionBinding). b.updated_at) w.sessions)))),
  w,
)

characters : String → List Value
characters String.[] = []
characters (String.◌∷◌ c s) = text (String.◌∷◌ c String.[]) ∷ characters s

keys : Dict → List Value
keys end = []
keys (entry k v d) = text k ∷ keys d

-- `for item in d.get(key, [])`.
unfoldable pub iterate : Option Value → Result (List Value)
unfolding characters keys
iterate none = ok []
iterate (some (arr items)) = ok (of_items items)
iterate (some (text s)) = ok (characters s)
iterate (some (obj d)) = ok (keys d)
iterate (some _) = err (type_error "object is not iterable")

-- `int(d.get("replay_count", 0))`.
unfoldable pub replay_count_of : Dict → Result ℤ
unfolding int_of
replay_count_of d = elim (get "replay_count" d) [ none ↦ ok (pos 0) | some v ↦ int_of v ]

-- The metadata that a first delivery writes, for the identifiers that were known.
unfoldable pub accepted_updates : String → Option String → ℕ → List String → Dict
accepted_updates key trace_id history_limit processed = entry "last_message_id" (text key) (
    entry "last_trace_id" (of_option trace_id) (
      entry "processed_message_ids"
        (arr (to_items (map text (take_last history_limit (processed ++ key ∷ []))))) end))

unfoldable pub replay_event : String → Option String → String → Option String → Value
replay_event timestamp channel key trace_id = obj (
    entry "timestamp" (text timestamp) (
      entry "channel" (of_option channel)
        (entry "idempotency_key" (text key) (entry "trace_id" (of_option trace_id) end))))

-- The metadata that a repeated delivery writes.
unfoldable pub replayed_updates :
    String → Option String → Option String → ℕ → String → ℤ → List Value → Dict
unfolding replay_event
replayed_updates key trace_id channel history_limit timestamp replays events =
    entry "last_message_id" (text key) (
      entry "last_trace_id" (of_option trace_id) (
        entry "replay_count" (int (successor replays)) (
          entry "last_replay_at" (text timestamp) (
            entry "replay_events"
              (arr (
                to_items (
                  take_last history_limit
                    (events ++ replay_event timestamp channel key trace_id ∷ []))))
              end))))

abbrev pub channel_metadata : Option String → Dict
channel_metadata none = end
channel_metadata (some c) = if c == "" then end else entry "channel" (text c) end

-- `record_idempotency_key`: whether the key is new, and the binding after it.
unfoldable pub record_idempotency_key :
    String → String → Option String → Option String → ℕ → Exec World (Bool × SessionBinding)
unfolding get_or_create iterate nonblank_texts dicts accepted_updates replayed_updates
    replay_count_of
record_idempotency_key session_id key trace_id channel history_limit = do
  binding ← get_or_create session_id (channel_metadata channel)
  items ← lift (iterate (get "processed_message_ids" binding.metadata))
  let processed = nonblank_texts items
  if contains processed key
      then (do
        raw ← lift (iterate (get "replay_events" binding.metadata))
        time ← now
        timestamp ← gets (λ (w : World). w.isoformat time)
        replays ← lift (replay_count_of binding.metadata)
        updated ←
            get_or_create session_id
              (replayed_updates key trace_id channel history_limit timestamp replays (dicts raw))
        pure (false, updated))
      else (do
        updated ← get_or_create session_id (accepted_updates key trace_id history_limit processed)
        pure (true, updated))
