-- ===== src/Sqlite/Events/Replay.antt =====
-- What `SQLiteEventLog` answers after any writes and restarts on a file, against the in-memory log of
-- the same writes (src/trading/persistence/event_log).
use claude_trade_teams.Base.{
  ◌≡◌, refl, ap, sym, ◌∙◌, leb, ltb, Bool, true, false, not, ◌&&◌, Option, some, List, [], ◌∷◌,
  ◌>>=◌, arith, Bool-cases, inl, inr,
}
use claude_trade_teams.Domain.{Time, Event}
use claude_trade_teams.Journal.EventLog
use claude_trade_teams.Journal.EventLog.{EventType, is_instance, timestamp}
use claude_trade_teams.Serde.Events.{
  class_of, encode_dataclass, decode_dataclass, decode_dataclass-encode_dataclass,
}
use claude_trade_teams.Sqlite.Iso.{isoformat, iso_ltb}
use claude_trade_teams.Sqlite.Iso.Order.{iso_ltb-isoformat}
use claude_trade_teams.Sqlite.Table.{insert_row}
use claude_trade_teams.Sqlite.Table.Transfer.{Holds, insert_row-Holds}
use claude_trade_teams.Sqlite.Table.Sort.{by_time}
use claude_trade_teams.Sqlite.Table.Answers.{order_by-passing}
use claude_trade_teams.Sqlite.Events.{
  EventStore, new, start, stop, event_to_row, write, same_type, read_since,
}

-- What is done to a log while it is connected to a file.
pub data Op : Type 0 where
  event : Event → Op
  restart : Op

unfoldable pub run : List Op → EventStore → Option EventStore
run [] s = some s
run (event x ∷ ops) s = write x s >>= run ops
run (restart ∷ ops) s = run ops (start (stop s))

-- the in-memory log after the same writes
unfoldable pub log : List Op → List Event → List Event
log [] events = events
log (event x ∷ ops) events = log ops (EventLog.write x events)
log (restart ∷ ops) events = log ops events

record Stores (s : EventStore) (events : List Event) : Type 0 where
  on_file : s.in_memory ≡ false
  connected : s.connected ≡ true
  held : Holds event_to_row s.database events

start-Stores : Stores (start (new false)) []
start-Stores = record { on_file = refl; connected = refl; held = (refl, refl) }

write-Stores :
    (x : Event) (s : EventStore) (events : List Event)
    → Stores s events
    → (s' : EventStore) × (write x s ≡ some s') × Stores s' (EventLog.write x events)
unfolding write
write-Stores x s events h = (
  record s { database = insert_row (event_to_row x) s.database },
  rw h.connected refl,
  record {
    on_file = h.on_file;
    connected = h.connected;
    held = insert_row-Holds event_to_row x s.database events h.held;
  },
)

run-Stores :
    (ops : List Op) (s : EventStore) (events : List Event)
    → Stores s events
    → (s' : EventStore) × (run ops s ≡ some s') × Stores s' (log ops events)
unfolding run log
run-Stores [] s events h = (s, refl, h)
run-Stores (event x ∷ ops) s events h =
    let (s1, e, h1) = write-Stores x s events h in
    let (s', e', h') = run-Stores ops s1 (EventLog.write x events) h1 in (s', rw e e', h')
run-Stores (restart ∷ ops) s events h =
    run-Stores ops (start (stop s)) events
      (record { on_file = h.on_file; connected = refl; held = rw h.on_file h.held })

-- The name of its class tells an event as `isinstance` does.
same_type-class_of : (e : Event) (ty : EventType) → same_type (class_of e) ty ≡ is_instance e ty
same_type-class_of (Event.state_changed e) EventType.state_changed = refl
same_type-class_of (Event.state_changed e) EventType.breaker_tripped = refl
same_type-class_of (Event.state_changed e) EventType.heartbeat = refl
same_type-class_of (Event.state_changed e) EventType.reconciliation_completed = refl
same_type-class_of (Event.state_changed e) EventType.error_occurred = refl
same_type-class_of (Event.breaker_tripped e) EventType.state_changed = refl
same_type-class_of (Event.breaker_tripped e) EventType.breaker_tripped = refl
same_type-class_of (Event.breaker_tripped e) EventType.heartbeat = refl
same_type-class_of (Event.breaker_tripped e) EventType.reconciliation_completed = refl
same_type-class_of (Event.breaker_tripped e) EventType.error_occurred = refl
same_type-class_of (Event.heartbeat e) EventType.state_changed = refl
same_type-class_of (Event.heartbeat e) EventType.breaker_tripped = refl
same_type-class_of (Event.heartbeat e) EventType.heartbeat = refl
same_type-class_of (Event.heartbeat e) EventType.reconciliation_completed = refl
same_type-class_of (Event.heartbeat e) EventType.error_occurred = refl
same_type-class_of (Event.reconciliation_completed e) EventType.state_changed = refl
same_type-class_of (Event.reconciliation_completed e) EventType.breaker_tripped = refl
same_type-class_of (Event.reconciliation_completed e) EventType.heartbeat = refl
same_type-class_of (Event.reconciliation_completed e) EventType.reconciliation_completed = refl
same_type-class_of (Event.reconciliation_completed e) EventType.error_occurred = refl
same_type-class_of (Event.error_occurred e) EventType.state_changed = refl
same_type-class_of (Event.error_occurred e) EventType.breaker_tripped = refl
same_type-class_of (Event.error_occurred e) EventType.heartbeat = refl
same_type-class_of (Event.error_occurred e) EventType.reconciliation_completed = refl
same_type-class_of (Event.error_occurred e) EventType.error_occurred = refl

class_of_instance : (e : Event) (ty : EventType) → is_instance e ty ≡ true → class_of e ≡ ty
class_of_instance (Event.state_changed e) EventType.state_changed h = refl
class_of_instance (Event.state_changed e) EventType.breaker_tripped h = cc
class_of_instance (Event.state_changed e) EventType.heartbeat h = cc
class_of_instance (Event.state_changed e) EventType.reconciliation_completed h = cc
class_of_instance (Event.state_changed e) EventType.error_occurred h = cc
class_of_instance (Event.breaker_tripped e) EventType.state_changed h = cc
class_of_instance (Event.breaker_tripped e) EventType.breaker_tripped h = refl
class_of_instance (Event.breaker_tripped e) EventType.heartbeat h = cc
class_of_instance (Event.breaker_tripped e) EventType.reconciliation_completed h = cc
class_of_instance (Event.breaker_tripped e) EventType.error_occurred h = cc
class_of_instance (Event.heartbeat e) EventType.state_changed h = cc
class_of_instance (Event.heartbeat e) EventType.breaker_tripped h = cc
class_of_instance (Event.heartbeat e) EventType.heartbeat h = refl
class_of_instance (Event.heartbeat e) EventType.reconciliation_completed h = cc
class_of_instance (Event.heartbeat e) EventType.error_occurred h = cc
class_of_instance (Event.reconciliation_completed e) EventType.state_changed h = cc
class_of_instance (Event.reconciliation_completed e) EventType.breaker_tripped h = cc
class_of_instance (Event.reconciliation_completed e) EventType.heartbeat h = cc
class_of_instance (Event.reconciliation_completed e) EventType.reconciliation_completed h = refl
class_of_instance (Event.reconciliation_completed e) EventType.error_occurred h = cc
class_of_instance (Event.error_occurred e) EventType.state_changed h = cc
class_of_instance (Event.error_occurred e) EventType.breaker_tripped h = cc
class_of_instance (Event.error_occurred e) EventType.heartbeat h = cc
class_of_instance (Event.error_occurred e) EventType.reconciliation_completed h = cc
class_of_instance (Event.error_occurred e) EventType.error_occurred h = refl

abbrev is_asked : EventType → Time → Event → Bool
is_asked ty since e = is_instance e ty && leb since (timestamp e)

clauses-is_asked :
    (ty : EventType) (since : Time) (e : Event)
    → (same_type (event_to_row e).event_type ty
        && not (iso_ltb (event_to_row e).timestamp (isoformat since)))
      ≡ is_asked ty since e
unfolding event_to_row
clauses-is_asked ty since e =
    rw (same_type-class_of e ty, iso_ltb-isoformat (timestamp e) since) (ground arith)

same_time :
    (a b : Event)
    → iso_ltb (event_to_row a).timestamp (event_to_row b).timestamp
      ≡ ltb (timestamp a) (timestamp b)
unfolding event_to_row
same_time a b = iso_ltb-isoformat (timestamp a) (timestamp b)

decoded :
    (ty : EventType) (since : Time) (e : Event)
    → is_asked ty since e ≡ true
    → decode_dataclass ty (event_to_row e).payload ≡ some e
unfolding event_to_row
decoded ty since e h = elim (Bool-cases (is_instance e ty)) [
  | inl i ↦
      ap (λ c. decode_dataclass c (encode_dataclass e)) (sym (class_of_instance e ty i))
      ∙ decode_dataclass-encode_dataclass e
  | inr n ↦ let g = rw n at h in cc
]

-- Whatever is written to a log on a file, and however often it is restarted in between, it answers
-- the events of a class since a time, each in full, that the in-memory log of the same writes answers,
-- sorted by their time; what was written later stands later where the times are equal.
pub run-read_since :
    (ops : List Op) (ty : EventType) (since : Time)
    → (run ops (start (new false)) >>= read_since ty since)
      ≡ some (by_time timestamp (EventLog.read_since ty since (log ops [])))
unfolding read_since EventLog.read_since
run-read_since ops ty since =
    let (s, e, h) = run-Stores ops (start (new false)) [] start-Stores in
    rw (e, read_since, h.connected)
      (order_by-passing event_to_row timestamp (λ a b. iso_ltb a.timestamp b.timestamp)
        (λ a b. same_time a b) _ (is_asked ty since) (clauses-is_asked ty since) s.database
        (log ops []) h.held (λ row. decode_dataclass ty row.payload) (decoded ty since))
