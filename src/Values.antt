-- ===== src/Values.antt =====
-- The values of the string enumerations in src/trading/domain and
-- src/trading/runtime/system_state.py: `member.value`, and the call of the class with a value, which
-- raises (`none`) for any other text.
use Prim.Native.String.{String}
use text.Mathlib.Text.{◌==◌}
use claude_trade_teams.Base.{◌≡◌, refl, Option, none, some, if◌then◌else◌}
use claude_trade_teams.Domain.{
  OrderSide, OrderType, TimeInForce, OrderStatus, PositionSide, AlertLevel, TriggerAction,
  SystemState,
}

abbrev pub side_value : OrderSide → String
side_value OrderSide.buy = "buy"
side_value OrderSide.sell = "sell"

unfoldable pub side_of : String → Option OrderSide
side_of v =
    if v == "buy" then some OrderSide.buy else if v == "sell" then some OrderSide.sell else none

pub side_of-side_value : (x : OrderSide) → side_of (side_value x) ≡ some x
unfolding side_of
side_of-side_value OrderSide.buy = refl
side_of-side_value OrderSide.sell = refl

abbrev pub type_value : OrderType → String
type_value OrderType.market = "market"
type_value OrderType.limit = "limit"
type_value OrderType.stop_market = "stop_market"
type_value OrderType.stop_limit = "stop_limit"

unfoldable pub type_of : String → Option OrderType
type_of v =
    if v == "market"
    then some OrderType.market
    else if v == "limit"
    then some OrderType.limit
    else if v == "stop_market"
    then some OrderType.stop_market
    else if v == "stop_limit"
    then some OrderType.stop_limit
    else none

pub type_of-type_value : (x : OrderType) → type_of (type_value x) ≡ some x
unfolding type_of
type_of-type_value OrderType.market = refl
type_of-type_value OrderType.limit = refl
type_of-type_value OrderType.stop_market = refl
type_of-type_value OrderType.stop_limit = refl

abbrev pub time_in_force_value : TimeInForce → String
time_in_force_value TimeInForce.gtc = "GTC"
time_in_force_value TimeInForce.ioc = "IOC"
time_in_force_value TimeInForce.fok = "FOK"
time_in_force_value TimeInForce.post_only = "POST_ONLY"

unfoldable pub time_in_force_of : String → Option TimeInForce
time_in_force_of v =
    if v == "GTC"
    then some TimeInForce.gtc
    else if v == "IOC"
    then some TimeInForce.ioc
    else if v == "FOK"
    then some TimeInForce.fok
    else if v == "POST_ONLY"
    then some TimeInForce.post_only
    else none

pub time_in_force_of-time_in_force_value :
    (x : TimeInForce) → time_in_force_of (time_in_force_value x) ≡ some x
unfolding time_in_force_of
time_in_force_of-time_in_force_value TimeInForce.gtc = refl
time_in_force_of-time_in_force_value TimeInForce.ioc = refl
time_in_force_of-time_in_force_value TimeInForce.fok = refl
time_in_force_of-time_in_force_value TimeInForce.post_only = refl

abbrev pub status_value : OrderStatus → String
status_value OrderStatus.submitted = "submitted"
status_value OrderStatus.acked = "acked"
status_value OrderStatus.partially_filled = "partially_filled"
status_value OrderStatus.filled = "filled"
status_value OrderStatus.cancelled = "cancelled"
status_value OrderStatus.rejected = "rejected"
status_value OrderStatus.expired = "expired"
status_value OrderStatus.failed = "failed"

unfoldable pub status_of : String → Option OrderStatus
status_of v =
    if v == "submitted"
    then some OrderStatus.submitted
    else if v == "acked"
    then some OrderStatus.acked
    else if v == "partially_filled"
    then some OrderStatus.partially_filled
    else if v == "filled"
    then some OrderStatus.filled
    else if v == "cancelled"
    then some OrderStatus.cancelled
    else if v == "rejected"
    then some OrderStatus.rejected
    else if v == "expired"
    then some OrderStatus.expired
    else if v == "failed"
    then some OrderStatus.failed
    else none

pub status_of-status_value : (x : OrderStatus) → status_of (status_value x) ≡ some x
unfolding status_of
status_of-status_value OrderStatus.submitted = refl
status_of-status_value OrderStatus.acked = refl
status_of-status_value OrderStatus.partially_filled = refl
status_of-status_value OrderStatus.filled = refl
status_of-status_value OrderStatus.cancelled = refl
status_of-status_value OrderStatus.rejected = refl
status_of-status_value OrderStatus.expired = refl
status_of-status_value OrderStatus.failed = refl

abbrev pub position_side_value : PositionSide → String
position_side_value PositionSide.long = "long"
position_side_value PositionSide.short = "short"
position_side_value PositionSide.flat = "flat"

unfoldable pub position_side_of : String → Option PositionSide
position_side_of v =
    if v == "long"
    then some PositionSide.long
    else if v == "short"
    then some PositionSide.short
    else if v == "flat"
    then some PositionSide.flat
    else none

pub position_side_of-position_side_value :
    (x : PositionSide) → position_side_of (position_side_value x) ≡ some x
unfolding position_side_of
position_side_of-position_side_value PositionSide.long = refl
position_side_of-position_side_value PositionSide.short = refl
position_side_of-position_side_value PositionSide.flat = refl

abbrev pub level_value : AlertLevel → String
level_value AlertLevel.info = "info"
level_value AlertLevel.warn = "warn"
level_value AlertLevel.alert = "alert"
level_value AlertLevel.critical = "critical"

unfoldable pub level_of : String → Option AlertLevel
level_of v =
    if v == "info"
    then some AlertLevel.info
    else if v == "warn"
    then some AlertLevel.warn
    else if v == "alert"
    then some AlertLevel.alert
    else if v == "critical"
    then some AlertLevel.critical
    else none

pub level_of-level_value : (x : AlertLevel) → level_of (level_value x) ≡ some x
unfolding level_of
level_of-level_value AlertLevel.info = refl
level_of-level_value AlertLevel.warn = refl
level_of-level_value AlertLevel.alert = refl
level_of-level_value AlertLevel.critical = refl

abbrev pub action_value : TriggerAction → String
action_value TriggerAction.reject_new = "reject_new"
action_value TriggerAction.cancel_all = "cancel_all"
action_value TriggerAction.quarantine = "quarantine"
action_value TriggerAction.flatten = "flatten"

unfoldable pub action_of : String → Option TriggerAction
action_of v =
    if v == "reject_new"
    then some TriggerAction.reject_new
    else if v == "cancel_all"
    then some TriggerAction.cancel_all
    else if v == "quarantine"
    then some TriggerAction.quarantine
    else if v == "flatten"
    then some TriggerAction.flatten
    else none

pub action_of-action_value : (x : TriggerAction) → action_of (action_value x) ≡ some x
unfolding action_of
action_of-action_value TriggerAction.reject_new = refl
action_of-action_value TriggerAction.cancel_all = refl
action_of-action_value TriggerAction.quarantine = refl
action_of-action_value TriggerAction.flatten = refl

abbrev pub state_value : SystemState → String
state_value SystemState.booting = "booting"
state_value SystemState.reconciling = "reconciling"
state_value SystemState.running = "running"
state_value SystemState.quarantine = "quarantine"
state_value SystemState.draining = "draining"
state_value SystemState.stopped = "stopped"

unfoldable pub state_of : String → Option SystemState
state_of v =
    if v == "booting"
    then some SystemState.booting
    else if v == "reconciling"
    then some SystemState.reconciling
    else if v == "running"
    then some SystemState.running
    else if v == "quarantine"
    then some SystemState.quarantine
    else if v == "draining"
    then some SystemState.draining
    else if v == "stopped"
    then some SystemState.stopped
    else none

pub state_of-state_value : (x : SystemState) → state_of (state_value x) ≡ some x
unfolding state_of
state_of-state_value SystemState.booting = refl
state_of-state_value SystemState.reconciling = refl
state_of-state_value SystemState.running = refl
state_of-state_value SystemState.quarantine = refl
state_of-state_value SystemState.draining = refl
state_of-state_value SystemState.stopped = refl
