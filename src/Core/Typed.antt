-- ===== src/Core/Typed.antt =====
-- storage/ticket_repository.py: a table whose priorities, statuses and stages are literals, and the
-- writes that leave it so.
pub mod Operations
pub mod Actions
pub mod Listing
pub mod Closable
use support_agent_platform.Shared.{
  true, ℕ, String, ◌≡◌, refl, inl, inr, Option, none, some, List, [], ◌∷◌, arith, ◌==◌, Bool-cases,
  Option-cases, Result, ok, err, Exec, proceed, ◌>>=◌, ◌>>◌,
}
use support_agent_platform.Shared.Elements.{All, All-append}
use support_agent_platform.Storage.Models.{
  Priority, Status, Stage, parse_priority, parse_status, parse_stage,
}
use support_agent_platform.Storage.World.{World, Row, now}
use support_agent_platform.Storage.Columns.{Update, set_column, set_columns}
use support_agent_platform.Storage.Repository
use support_agent_platform.Storage.Times.{reads_times, is_read}
use support_agent_platform.Storage.Repository.{
  find_row, update_rows, reject_unknown, write_columns, reload_ticket, insert_ticket, choose_id,
  Draft, source_or,
}

pub record IsTyped (r : Row) : Type 0 where
  pub priority : (p : Priority) × (parse_priority r.priority ≡ some p)
  pub status : (s : Status) × (parse_status r.status ≡ some s)
  pub stage : (l : Stage) × (parse_stage r.lifecycle_stage ≡ some l)
  pub times : reads_times r ≡ true

abbrev pub IsLiteral : Update → Type 0
IsLiteral (Update.priority v) = (p : Priority) × (parse_priority v ≡ some p)
IsLiteral (Update.status v) = (s : Status) × (parse_status v ≡ some s)
IsLiteral (Update.lifecycle_stage v) = (l : Stage) × (parse_stage v ≡ some l)
IsLiteral (Update.first_response_due_at v) = is_read v ≡ true
IsLiteral (Update.resolution_due_at v) = is_read v ≡ true
IsLiteral (Update.escalated_at v) = is_read v ≡ true
IsLiteral (Update.resolved_at v) = is_read v ≡ true
IsLiteral (Update.closed_at v) = is_read v ≡ true
IsLiteral _ = Unit

-- `m` leaves the table typed, whether it returns or raises.
pub record KeepsTyped {A : Type 0} (m : Exec World A) : Type 0 where
  pub at : (w : World) → All IsTyped w.tickets → All IsTyped (m w).1.tickets

pub KeepsTyped-bind :
    {A B : Type 0} (m : Exec World A) (f : A → Exec World B)
    → KeepsTyped m
    → ((a : A) → KeepsTyped (f a))
    → KeepsTyped (m >>= f)
KeepsTyped-bind {A} {B} m f km kf = record { at = λ w h. go (m w).0 (m w).1 (km.at w h) }
  where
    go : (r : Result A) (v : World) → All IsTyped v.tickets → All IsTyped (proceed r f v).1.tickets
    go (ok a) v h = (kf a).at v h
    go (err e) v h = h

pub KeepsTyped-then :
    {A B : Type 0} (m : Exec World A) (n : Exec World B)
    → KeepsTyped m
    → KeepsTyped n
    → KeepsTyped (m >> n)
KeepsTyped-then m n km kn = KeepsTyped-bind m (λ _. n) km (λ _. kn)

pub KeepsTyped-frame :
    {A : Type 0} (m : Exec World A) → ((w : World) → (m w).1.tickets ≡ w.tickets) → KeepsTyped m
KeepsTyped-frame m same = record { at = λ w h. rw (same w) h }

set_column-IsTyped : (u : Update) (r : Row) → IsLiteral u → IsTyped r → IsTyped (set_column u r)
unfolding set_column
set_column-IsTyped (Update.priority v) r h k = record {
  priority = h;
  status = k.status;
  stage = k.stage;
  times = k.times;
}
set_column-IsTyped (Update.status v) r h k = record {
  priority = k.priority;
  status = h;
  stage = k.stage;
  times = k.times;
}
set_column-IsTyped (Update.lifecycle_stage v) r h k = record {
  priority = k.priority;
  status = k.status;
  stage = h;
  times = k.times;
}
set_column-IsTyped (Update.first_response_due_at v) r h k = record {
  priority = k.priority;
  status = k.status;
  stage = k.stage;
  times = let known = k.times in ground arith;
}
set_column-IsTyped (Update.resolution_due_at v) r h k = record {
  priority = k.priority;
  status = k.status;
  stage = k.stage;
  times = let known = k.times in ground arith;
}
set_column-IsTyped (Update.escalated_at v) r h k = record {
  priority = k.priority;
  status = k.status;
  stage = k.stage;
  times = let known = k.times in ground arith;
}
set_column-IsTyped (Update.resolved_at v) r h k = record {
  priority = k.priority;
  status = k.status;
  stage = k.stage;
  times = let known = k.times in ground arith;
}
set_column-IsTyped (Update.closed_at v) r h k = record {
  priority = k.priority;
  status = k.status;
  stage = k.stage;
  times = let known = k.times in ground arith;
}
set_column-IsTyped _ r h k = record {
  priority = k.priority;
  status = k.status;
  stage = k.stage;
  times = k.times;
}

set_columns-IsTyped :
    (us : List Update) (r : Row) → All IsLiteral us → IsTyped r → IsTyped (set_columns us r)
unfolding set_columns
set_columns-IsTyped [] r h k = k
set_columns-IsTyped (u ∷ us) r h k =
    set_columns-IsTyped us (set_column u r) h.1 (set_column-IsTyped u r h.0 k)

update_rows-IsTyped :
    (id : String) (f : Row → Row) (rows : List Row)
    → ((r : Row) → IsTyped r → IsTyped (f r))
    → All IsTyped rows
    → All IsTyped (update_rows id f rows)
unfolding update_rows
update_rows-IsTyped id f [] kf h = tt
update_rows-IsTyped id f (r ∷ rows) kf h = elim (Bool-cases (r.ticket_id == id)) [
  | inl e ↦ rw e (kf r h.0, update_rows-IsTyped id f rows kf h.1)
  | inr e ↦ rw e (h.0, update_rows-IsTyped id f rows kf h.1)
]

write_columns-KeepsTyped :
    (id : String) (us : List Update) (time : ℕ)
    → All IsLiteral us
    → KeepsTyped (write_columns id us time)
unfolding write_columns
write_columns-KeepsTyped id us time literal = record {
  at = λ w h. elim (Option-cases (find_row id w.tickets)) [
    | inl e ↦ rw (write_columns, e) h
    | inr (r, e) ↦
        rw (write_columns, e)
          (update_rows-IsTyped id _ w.tickets
            (λ q k.
              let c = set_columns-IsTyped us q literal k in
              record { priority = c.priority; status = c.status; stage = c.stage; times = c.times })
            h)
  ];
}

reload_ticket-KeepsTyped : (message id : String) → KeepsTyped (reload_ticket message id)
unfolding reload_ticket
reload_ticket-KeepsTyped message id = KeepsTyped-frame _ (λ w. ground arith)

reject_unknown-KeepsTyped : (keys : List String) → KeepsTyped (reject_unknown keys)
unfolding reject_unknown
reject_unknown-KeepsTyped [] = KeepsTyped-frame _ (λ w. refl)
reject_unknown-KeepsTyped (k ∷ keys) = KeepsTyped-frame _ (λ w. refl)

pub now-KeepsTyped : KeepsTyped now
now-KeepsTyped = KeepsTyped-frame now (λ w. refl)

pub update_ticket-literal :
    (id : String) (us : List Update)
    → All IsLiteral us
    → KeepsTyped (Repository.update_ticket id us)
unfolding Repository.update_ticket
update_ticket-literal id us literal = KeepsTyped-then _ _ (reject_unknown-KeepsTyped _) (
    KeepsTyped-bind now _ now-KeepsTyped λ time.
      KeepsTyped-then _ _ (write_columns-KeepsTyped id us time literal)
        (reload_ticket-KeepsTyped "Failed to load updated ticket " id))

insert_ticket-KeepsTyped : (r : Row) → IsTyped r → KeepsTyped (insert_ticket r)
unfolding insert_ticket
insert_ticket-KeepsTyped r typed = record {
  at = λ w h. elim (Option-cases (find_row r.ticket_id w.tickets)) [
    | inl e ↦ rw (insert_ticket, e) (All-append IsTyped w.tickets (r ∷ []) h (typed, tt))
    | inr (q, e) ↦ rw (insert_ticket, e) h
  ];
}

choose_id-KeepsTyped : (o : Option String) → KeepsTyped (choose_id o)
unfolding choose_id
choose_id-KeepsTyped none = KeepsTyped-frame _ (λ w. refl)
choose_id-KeepsTyped (some id) = KeepsTyped-frame _ (λ w. ground arith)

pub create_ticket-typed : (d : Draft) → IsTyped d.row → KeepsTyped (Repository.create_ticket d)
unfolding Repository.create_ticket
create_ticket-typed d typed = KeepsTyped-bind now _ now-KeepsTyped λ time.
    KeepsTyped-bind (choose_id d.draft_id) _ (choose_id-KeepsTyped d.draft_id) λ id.
      KeepsTyped-then _ _
        (insert_ticket-KeepsTyped (stamped time id) (record {
          priority = typed.priority;
          status = typed.status;
          stage = typed.stage;
          times = typed.times;
        }))
        (reload_ticket-KeepsTyped "Failed to load created ticket " id)
  where
    stamped : ℕ → String → Row
    stamped time id = record d.row {
      ticket_id = id;
      source_channel = source_or d.draft_source d.row.channel;
      created_at = time;
      updated_at = time;
    }
