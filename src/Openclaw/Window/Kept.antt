-- ===== src/Openclaw/Window/Kept.antt =====
-- openclaw_adapter/session_mapper.py: reading back what was stored, and updates that leave the window.
use support_agent_platform.Shared.{
  String, ◌≡◌, refl, sym, ap, subst, inl, inr, false, Option, none, some, List, ◌==◌, Bool-cases, ℤ,
  pos, Dict, end, get, has, Result, ok,
}
use support_agent_platform.Shared.Str.{int_of}
use support_agent_platform.Storage.Models.{SessionBinding}
use support_agent_platform.Storage.World.{World}
use support_agent_platform.Openclaw.SessionMapper.{find_binding, replay_count_of, channel_metadata}
use support_agent_platform.Openclaw.Bindings.{metadata_of, Updated, Opens}
use support_agent_platform.Openclaw.Window.{Tracks}
use support_agent_platform.Openclaw.Window.Entries.{get-Updated_absent}

pub same_count :
    (old new : Dict) {z : ℤ}
    → get "replay_count" new ≡ get "replay_count" old
    → replay_count_of old ≡ ok z
    → replay_count_of new ≡ ok z
unfolding replay_count_of
same_count old new {z} e =
    subst (λ o. elim o [ none ↦ ok (pos 0) | some v ↦ int_of v ] ≡ ok z) (sym e)

pub opened :
    {id : String} {md : Dict} {w : World} {out : Result SessionBinding × World}
    (p : Opens id md w out)
    → out ≡ (ok p.binding, out.1)
opened {out = out} p = ap (λ r. (r, out.1)) p.returned

pub read_stored :
    (id : String) (w : World) (b : SessionBinding)
    → find_binding id w.sessions ≡ some b
    → metadata_of id w ≡ b.metadata
read_stored id w b stored =
    ap (λ (o : Option SessionBinding). elim o [ none ↦ end | some b ↦ b.metadata ]) stored

-- An update of none of the window's three entries keeps the window.
pub keeps_window :
    (seen : List String) (old upd new : Dict)
    → has "processed_message_ids" upd ≡ false
    → has "replay_events" upd ≡ false
    → has "replay_count" upd ≡ false
    → Tracks seen old
    → Updated old upd new
    → Tracks seen new
keeps_window seen old upd new ids events count t u = record {
  ids = rw (get-Updated_absent "processed_message_ids" ids u) t.ids;
  nonblank = t.nonblank;
  events = t.events;
  events_read = rw (get-Updated_absent "replay_events" events u) t.events_read;
  replays = t.replays;
  replays_read = same_count old new (get-Updated_absent "replay_count" count u) t.replays_read;
}

-- The channel of a delivery is not part of the window.
pub keeps_channel :
    (channel : Option String) (key : String)
    → ("channel" == key) ≡ false
    → has key (channel_metadata channel) ≡ false
unfolding has
keeps_channel none key h = refl
keeps_channel (some c) key h = elim (Bool-cases (c == "")) [
  | inl e ↦ rw e refl
  | inr e ↦ rw (e, h) refl
]
