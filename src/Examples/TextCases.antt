-- ===== src/Examples/TextCases.antt =====
-- The theorems on the texts of src/trading/persistence and src/trading/bybit at concrete inputs.
use claude_trade_teams.Base.{◌≡◌, ◌↔◌, refl, false, some, List, [], ◌∷◌, ◌>>=◌}
use claude_trade_teams.Base.Decimal.{pos}
use claude_trade_teams.Domain.{
  Event, Reason, SystemState, TriggerAction, OrderSide, OrderType, TimeInForce,
}
use claude_trade_teams.Journal.EventLog
use claude_trade_teams.Journal.EventLog.{EventType, timestamp}
use claude_trade_teams.Serde.{
  Value, absent, member, object, end, field, Hint, plain, enumeration, dataclass, union, arm,
  no_arm, done, hint, to_jsonable, from_jsonable,
}
use claude_trade_teams.Serde.RoundTrip.{
  Typed, of_plain, of_enumeration, of_dataclass, missing, present, of_done, of_hint, is_decimal,
  from_jsonable-to_jsonable,
}
use claude_trade_teams.Sqlite.Table.Sort.{by_time}
use claude_trade_teams.Sqlite.Events.{new, start, read_since}
use claude_trade_teams.Sqlite.Events.Replay.{Op, run, log, run-read_since}
use claude_trade_teams.Bybit.Wire.{side_from_bybit, side_to_bybit}
use claude_trade_teams.Bybit.Adapters.{
  order_type_from_bybit, order_type_to_bybit, time_in_force_from_bybit, time_in_force_to_bybit,
}
use claude_trade_teams.Bybit.Tables.{from_bybit-to_bybit}

abbrev a_change : Event
a_change = Event.state_changed (record {
  old_state = SystemState.booting;
  new_state = SystemState.reconciling;
  reason = Reason.free_text 3;
  timestamp = 63000000000000500;
})

abbrev a_trip : Event
a_trip = Event.breaker_tripped (record {
  breaker_name = 2;
  action = TriggerAction.quarantine;
  reason = Reason.free_text 4;
  timestamp = 62000000000000000;
})

abbrev lines : List Op
lines = Op.event a_change ∷ Op.restart ∷ Op.event a_trip ∷ Op.event a_change ∷ []

run-read_since_example :
    (run lines (start (new false)) >>= read_since EventType.state_changed 100)
    ≡ some (by_time timestamp (EventLog.read_since EventType.state_changed 100 (log lines [])))
run-read_since_example = run-read_since lines EventType.state_changed 100

-- a class with an optional decimal and an enumeration
abbrev a_class : Hint
a_class = dataclass (
    hint "price" (union (arm plain no_arm)) (
      hint "stop" (union (arm plain no_arm))
        (hint "side" (enumeration ("buy" ∷ "sell" ∷ [])) done)))

abbrev an_instance : Value
an_instance =
    object (
      field "price" (Value.decimal (pos 5))
        (field "stop" absent (field "side" (member "sell") end)))

an_instance-Typed : Typed a_class an_instance
unfolding to_jsonable
an_instance-Typed =
    of_dataclass _ _ refl refl (refl, (refl, (refl, tt)))
      (of_hint _ _ _ _ _ (present plain (Value.decimal (pos 5)) (of_plain (is_decimal (pos 5)))) (
        of_hint _ _ _ _ _ (missing plain)
          (of_hint _ _ _ _ _ (of_enumeration ("buy" ∷ "sell" ∷ []) "sell" refl) of_done)))

from_jsonable-to_jsonable_example :
    from_jsonable a_class (to_jsonable an_instance) ≡ some an_instance
from_jsonable-to_jsonable_example = from_jsonable-to_jsonable a_class an_instance an_instance-Typed

from_bybit-to_bybit_example :
    ((s : OrderSide) → (side_from_bybit "Buy" ≡ some s) ↔ (side_to_bybit s ≡ "Buy"))
    × ((t : OrderType)
        → (order_type_from_bybit "Buy" ≡ some t) ↔ (order_type_to_bybit t ≡ some "Buy"))
    × ((f : TimeInForce)
        → (time_in_force_from_bybit "Buy" ≡ some f) ↔ (time_in_force_to_bybit f ≡ "Buy"))
from_bybit-to_bybit_example = from_bybit-to_bybit "Buy"
