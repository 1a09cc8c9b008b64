-- ===== src/Bybit/Tables.antt =====
-- The tables of src/trading/bybit/wire.py and src/trading/venues/bybit/adapters.py in both directions.
use Prim.Native.String.{String}
use text.Mathlib.Text.{◌==◌}
use text.Mathlib.TextEquality.{eq_iff}
use claude_trade_teams.Base.{◌≡◌, refl, sym, ◌↔◌, some, some-injective, arith, ◌||◌, ◌≢◌}
use claude_trade_teams.Domain.{OrderSide, OrderType, TimeInForce, OrderStatus, is_open}
use claude_trade_teams.Bybit.Wire.{side_to_bybit, side_from_bybit}
use claude_trade_teams.Bybit.Adapters.{
  order_type_to_bybit, order_type_from_bybit, time_in_force_to_bybit, time_in_force_from_bybit,
  order_status_from_bybit,
}

side_from : (v : String) (s : OrderSide) → (side_from_bybit v ≡ some s) ↔ (side_to_bybit s ≡ v)
unfolding side_from_bybit
side_from v OrderSide.buy =
    (λ h. ground (arith, eq_iff v "Buy", eq_iff v "Sell", h), λ h. rw (sym h) refl)
side_from v OrderSide.sell =
    (λ h. ground (arith, eq_iff v "Buy", eq_iff v "Sell", h), λ h. rw (sym h) refl)

type_from :
    (v : String) (t : OrderType)
    → (order_type_from_bybit v ≡ some t) ↔ (order_type_to_bybit t ≡ some v)
unfolding order_type_from_bybit
type_from v OrderType.market = (
  λ h. ground (arith, eq_iff v "Market", eq_iff v "Limit", h),
  λ h. rw (sym (some-injective _ _ h)) refl,
)
type_from v OrderType.limit = (
  λ h. ground (arith, eq_iff v "Market", eq_iff v "Limit", h),
  λ h. rw (sym (some-injective _ _ h)) refl,
)
type_from v OrderType.stop_market =
    (λ h. ground (arith, eq_iff v "Market", eq_iff v "Limit", h), λ h. cc)
type_from v OrderType.stop_limit =
    (λ h. ground (arith, eq_iff v "Market", eq_iff v "Limit", h), λ h. cc)

time_in_force_from :
    (v : String) (t : TimeInForce)
    → (time_in_force_from_bybit v ≡ some t) ↔ (time_in_force_to_bybit t ≡ v)
unfolding time_in_force_from_bybit
time_in_force_from v TimeInForce.gtc = (
  λ h. ground (arith, eq_iff v "GTC", eq_iff v "IOC", eq_iff v "FOK", eq_iff v "PostOnly", h),
  λ h. rw (sym h) refl,
)
time_in_force_from v TimeInForce.ioc = (
  λ h. ground (arith, eq_iff v "GTC", eq_iff v "IOC", eq_iff v "FOK", eq_iff v "PostOnly", h),
  λ h. rw (sym h) refl,
)
time_in_force_from v TimeInForce.fok = (
  λ h. ground (arith, eq_iff v "GTC", eq_iff v "IOC", eq_iff v "FOK", eq_iff v "PostOnly", h),
  λ h. rw (sym h) refl,
)
time_in_force_from v TimeInForce.post_only = (
  λ h. ground (arith, eq_iff v "GTC", eq_iff v "IOC", eq_iff v "FOK", eq_iff v "PostOnly", h),
  λ h. rw (sym h) refl,
)

-- A text is read as a side, an order type or a time in force exactly where that is written as the
-- text; an order type that is not written, a stop, is not read from any text.
pub from_bybit-to_bybit :
    (v : String)
    → ((s : OrderSide) → (side_from_bybit v ≡ some s) ↔ (side_to_bybit s ≡ v))
      × ((t : OrderType) → (order_type_from_bybit v ≡ some t) ↔ (order_type_to_bybit t ≡ some v))
      × ((f : TimeInForce) → (time_in_force_from_bybit v ≡ some f) ↔ (time_in_force_to_bybit f ≡ v))
from_bybit-to_bybit v = (side_from v, type_from v, time_in_force_from v)

status_tests :
    (v : String) (s : OrderStatus)
    → order_status_from_bybit v ≡ some s
    → is_open s ≡ (v == "Created" || (v == "New" || v == "PartiallyFilled"))
unfolding order_status_from_bybit
status_tests v OrderStatus.submitted h = ground (
  arith,
  h,
  eq_iff v "Created",
  eq_iff v "New",
  eq_iff v "PartiallyFilled",
  eq_iff v "Filled",
  eq_iff v "Cancelled",
  eq_iff v "PartiallyFilledCanceled",
  eq_iff v "Rejected",
)
status_tests v OrderStatus.acked h = ground (
  arith,
  h,
  eq_iff v "Created",
  eq_iff v "New",
  eq_iff v "PartiallyFilled",
  eq_iff v "Filled",
  eq_iff v "Cancelled",
  eq_iff v "PartiallyFilledCanceled",
  eq_iff v "Rejected",
)
status_tests v OrderStatus.partially_filled h = ground (
  arith,
  h,
  eq_iff v "Created",
  eq_iff v "New",
  eq_iff v "PartiallyFilled",
  eq_iff v "Filled",
  eq_iff v "Cancelled",
  eq_iff v "PartiallyFilledCanceled",
  eq_iff v "Rejected",
)
status_tests v OrderStatus.filled h = ground (
  arith,
  h,
  eq_iff v "Created",
  eq_iff v "New",
  eq_iff v "PartiallyFilled",
  eq_iff v "Filled",
  eq_iff v "Cancelled",
  eq_iff v "PartiallyFilledCanceled",
  eq_iff v "Rejected",
)
status_tests v OrderStatus.cancelled h = ground (
  arith,
  h,
  eq_iff v "Created",
  eq_iff v "New",
  eq_iff v "PartiallyFilled",
  eq_iff v "Filled",
  eq_iff v "Cancelled",
  eq_iff v "PartiallyFilledCanceled",
  eq_iff v "Rejected",
)
status_tests v OrderStatus.rejected h = ground (
  arith,
  h,
  eq_iff v "Created",
  eq_iff v "New",
  eq_iff v "PartiallyFilled",
  eq_iff v "Filled",
  eq_iff v "Cancelled",
  eq_iff v "PartiallyFilledCanceled",
  eq_iff v "Rejected",
)
status_tests v OrderStatus.expired h = ground (
  arith,
  h,
  eq_iff v "Created",
  eq_iff v "New",
  eq_iff v "PartiallyFilled",
  eq_iff v "Filled",
  eq_iff v "Cancelled",
  eq_iff v "PartiallyFilledCanceled",
  eq_iff v "Rejected",
)
status_tests v OrderStatus.failed h = ground (
  arith,
  h,
  eq_iff v "Created",
  eq_iff v "New",
  eq_iff v "PartiallyFilled",
  eq_iff v "Filled",
  eq_iff v "Cancelled",
  eq_iff v "PartiallyFilledCanceled",
  eq_iff v "Rejected",
)

-- A status that is read is open exactly where the text is `Created`, `New` or `PartiallyFilled`, and
-- it is never EXPIRED or FAILED.
pub status_from_bybit_open :
    (v : String) (s : OrderStatus)
    → order_status_from_bybit v ≡ some s
    → (is_open s ≡ (v == "Created" || (v == "New" || v == "PartiallyFilled")))
      × (s ≢ OrderStatus.expired)
      × (s ≢ OrderStatus.failed)
unfolding order_status_from_bybit
status_from_bybit_open v OrderStatus.submitted h =
    (status_tests v OrderStatus.submitted h, ground (arith, h), ground (arith, h))
status_from_bybit_open v OrderStatus.acked h =
    (status_tests v OrderStatus.acked h, ground (arith, h), ground (arith, h))
status_from_bybit_open v OrderStatus.partially_filled h =
    (status_tests v OrderStatus.partially_filled h, ground (arith, h), ground (arith, h))
status_from_bybit_open v OrderStatus.filled h =
    (status_tests v OrderStatus.filled h, ground (arith, h), ground (arith, h))
status_from_bybit_open v OrderStatus.cancelled h =
    (status_tests v OrderStatus.cancelled h, ground (arith, h), ground (arith, h))
status_from_bybit_open v OrderStatus.rejected h =
    (status_tests v OrderStatus.rejected h, ground (arith, h), ground (arith, h))
status_from_bybit_open v OrderStatus.expired h =
    (status_tests v OrderStatus.expired h, ground (arith, h), ground (arith, h))
status_from_bybit_open v OrderStatus.failed h =
    (status_tests v OrderStatus.failed h, ground (arith, h), ground (arith, h))
