-- ===== src/Serde/Events.antt =====
-- The classes of src/trading/runtime/events.py as `_serde.py` sees them: their fields and type hints.
use Prim.Native.String.{String}
use claude_trade_teams.Base.{◌≡◌, refl, ap, ◌∙◌, true, Option, none, some, List, [], ◌∷◌, ◌>>=◌}
use claude_trade_teams.Domain.{SystemState, TriggerAction, Event}
use claude_trade_teams.Values.{
  state_value, state_of, state_of-state_value, action_value, action_of, action_of-action_value,
}
use claude_trade_teams.Journal.EventLog.{EventType}
use claude_trade_teams.Serde.{
  name, message, codes, Json, Value, str, int, datetime, member, object, Fields, end, field, plain,
  enumeration, dataclass, Hints, done, hint, to_jsonable, to_entries, from_jsonable, is_in,
}
use claude_trade_teams.Serde.RoundTrip.{
  Typed, TypedFields, of_plain, of_enumeration, of_dataclass, of_done, of_hint, is_str, is_int,
  is_datetime, from_jsonable-to_jsonable,
}

-- `type(event)`
abbrev pub class_of : Event → EventType
class_of (Event.state_changed _) = EventType.state_changed
class_of (Event.breaker_tripped _) = EventType.breaker_tripped
class_of (Event.heartbeat _) = EventType.heartbeat
class_of (Event.reconciliation_completed _) = EventType.reconciliation_completed
class_of (Event.error_occurred _) = EventType.error_occurred

-- the fields of an event, by `dataclasses.fields`
abbrev pub fields_of_event : Event → Fields
fields_of_event (Event.state_changed e) = field "old_state" (member (state_value e.old_state)) (
    field "new_state" (member (state_value e.new_state))
      (field "reason" (str (message e.reason)) (field "timestamp" (datetime e.timestamp) end)))
fields_of_event (Event.breaker_tripped e) = field "breaker_name" (str (name e.breaker_name)) (
    field "action" (member (action_value e.action))
      (field "reason" (str (message e.reason)) (field "timestamp" (datetime e.timestamp) end)))
fields_of_event (Event.heartbeat e) =
    field "component" (str (name e.component)) (field "timestamp" (datetime e.timestamp) end)
fields_of_event (Event.reconciliation_completed e) =
    field "component" (str (name e.component))
      (field "drift_count" (int e.drift_count) (field "timestamp" (datetime e.timestamp) end))
fields_of_event (Event.error_occurred e) = field "component" (str (name e.component)) (
    field "message" (str (name e.message)) (
      field "exception_type" (str (codes e.exception_type))
        (field "timestamp" (datetime e.timestamp) end)))

abbrev pub state_values : List String
state_values = "booting" ∷ "reconciling" ∷ "running" ∷ "quarantine" ∷ "draining" ∷ "stopped" ∷ []

abbrev pub action_values : List String
action_values = "reject_new" ∷ "cancel_all" ∷ "quarantine" ∷ "flatten" ∷ []

-- the type hints of a class, by `typing.get_type_hints`
abbrev pub hints_of : EventType → Hints
hints_of EventType.state_changed = hint "old_state" (enumeration state_values) (
    hint "new_state" (enumeration state_values) (hint "reason" plain (hint "timestamp" plain done)))
hints_of EventType.breaker_tripped =
    hint "breaker_name" plain (
      hint "action" (enumeration action_values) (hint "reason" plain (hint "timestamp" plain done)))
hints_of EventType.heartbeat = hint "component" plain (hint "timestamp" plain done)
hints_of EventType.reconciliation_completed =
    hint "component" plain (hint "drift_count" plain (hint "timestamp" plain done))
hints_of EventType.error_occurred =
    hint "component" plain
      (hint "message" plain (hint "exception_type" plain (hint "timestamp" plain done)))

-- The event that an instance of a class is; the fields come in the order of the class.
unfoldable pub event_of : EventType → Value → Option Event
event_of EventType.state_changed
      (object (
        field _
          (member a)
          (field _ (member b) (field _ (str (message r)) (field _ (datetime t) end))))) =
    do
      old_state ← state_of a
      new_state ← state_of b
      some (
          Event.state_changed
            (record { old_state = old_state; new_state = new_state; reason = r; timestamp = t }))
event_of EventType.breaker_tripped
      (object (
        field _
          (str (name n))
          (field _ (member a) (field _ (str (message r)) (field _ (datetime t) end))))) =
    do
      action ← action_of a
      some (
          Event.breaker_tripped
            (record { breaker_name = n; action = action; reason = r; timestamp = t }))
event_of EventType.heartbeat (object (field _ (str (name n)) (field _ (datetime t) end))) =
    some (Event.heartbeat (record { component = n; timestamp = t }))
event_of EventType.reconciliation_completed
      (object (field _ (str (name n)) (field _ (int k) (field _ (datetime t) end)))) =
    some (Event.reconciliation_completed (record { component = n; drift_count = k; timestamp = t }))
event_of EventType.error_occurred
      (object (
        field _
          (str (name n))
          (field _ (str (name m)) (field _ (str (codes c)) (field _ (datetime t) end))))) =
    some (
      Event.error_occurred
        (record { component = n; message = m; exception_type = c; timestamp = t }))
event_of _ _ = none

-- `encode_dataclass`
abbrev pub encode_dataclass : Event → Json
encode_dataclass e = to_jsonable (object (fields_of_event e))

-- `decode_dataclass`
abbrev pub decode_dataclass : EventType → Json → Option Event
decode_dataclass target payload =
    from_jsonable (dataclass (hints_of target)) payload >>= event_of target

is_in-state_value : (x : SystemState) → is_in (state_value x) state_values ≡ true
is_in-state_value SystemState.booting = refl
is_in-state_value SystemState.reconciling = refl
is_in-state_value SystemState.running = refl
is_in-state_value SystemState.quarantine = refl
is_in-state_value SystemState.draining = refl
is_in-state_value SystemState.stopped = refl

is_in-action_value : (x : TriggerAction) → is_in (action_value x) action_values ≡ true
is_in-action_value TriggerAction.reject_new = refl
is_in-action_value TriggerAction.cancel_all = refl
is_in-action_value TriggerAction.quarantine = refl
is_in-action_value TriggerAction.flatten = refl

ruleset typing = (
  of_hint, of_done, of_plain, of_enumeration, is_str, is_int, is_datetime, is_in-state_value,
  is_in-action_value,
)

typed_fields : (e : Event) → TypedFields (hints_of (class_of e)) (fields_of_event e)
typed_fields (Event.state_changed e) = search typing depth 12
typed_fields (Event.breaker_tripped e) = search typing depth 12
typed_fields (Event.heartbeat e) = search typing depth 12
typed_fields (Event.reconciliation_completed e) = search typing depth 12
typed_fields (Event.error_occurred e) = search typing depth 12

Typed-event : (e : Event) → Typed (dataclass (hints_of (class_of e))) (object (fields_of_event e))
unfolding to_entries
Typed-event (Event.state_changed e) =
    of_dataclass _ _ refl refl (refl, (refl, (refl, (refl, tt))))
      (typed_fields (Event.state_changed e))
Typed-event (Event.breaker_tripped e) =
    of_dataclass _ _ refl refl (refl, (refl, (refl, (refl, tt))))
      (typed_fields (Event.breaker_tripped e))
Typed-event (Event.heartbeat e) =
    of_dataclass _ _ refl refl (refl, (refl, tt)) (typed_fields (Event.heartbeat e))
Typed-event (Event.reconciliation_completed e) =
    of_dataclass _ _ refl refl (refl, (refl, (refl, tt)))
      (typed_fields (Event.reconciliation_completed e))
Typed-event (Event.error_occurred e) =
    of_dataclass _ _ refl refl (refl, (refl, (refl, (refl, tt))))
      (typed_fields (Event.error_occurred e))

event_of-fields : (e : Event) → event_of (class_of e) (object (fields_of_event e)) ≡ some e
unfolding event_of
event_of-fields (Event.state_changed e) =
    rw (state_of-state_value e.old_state, state_of-state_value e.new_state) refl
event_of-fields (Event.breaker_tripped e) = rw (action_of-action_value e.action) refl
event_of-fields (Event.heartbeat e) = refl
event_of-fields (Event.reconciliation_completed e) = refl
event_of-fields (Event.error_occurred e) = refl

-- Every event of the bus is decoded from its payload, under its own class, as it was.
pub decode_dataclass-encode_dataclass :
    (e : Event) → decode_dataclass (class_of e) (encode_dataclass e) ≡ some e
decode_dataclass-encode_dataclass e =
    ap (λ o. o >>= event_of (class_of e))
      (from_jsonable-to_jsonable (dataclass (hints_of (class_of e))) (object (fields_of_event e))
        (Typed-event e))
    ∙ event_of-fields e
