-- ===== src/Bybit/Adapters.antt =====
-- src/trading/venues/bybit/adapters.py: the vocabulary of orders. What raises is `none`.
use Prim.Native.String.{String}
use text.Mathlib.Text.{◌==◌}
use claude_trade_teams.Base.{Bool, if◌then◌else◌, Option, none, some}
use claude_trade_teams.Base.Decimal.{Decimal}
use claude_trade_teams.Domain.{OrderType, TimeInForce, OrderStatus}
use claude_trade_teams.Bybit.Wire.{NumberText, empty, zero, other, numeral, parse}

-- `to_liquidation_price`: it raises, or it returns None or a number.
unfoldable pub to_liquidation_price : NumberText → Option (Option Decimal)
to_liquidation_price empty = some none
to_liquidation_price zero = some none
to_liquidation_price other = none
to_liquidation_price (numeral d) = some (parse (numeral d))

-- `order_type_to_bybit`
abbrev pub order_type_to_bybit : OrderType → Option String
order_type_to_bybit OrderType.market = some "Market"
order_type_to_bybit OrderType.limit = some "Limit"
order_type_to_bybit OrderType.stop_market = none
order_type_to_bybit OrderType.stop_limit = none

-- `order_type_from_bybit`
unfoldable pub order_type_from_bybit : String → Option OrderType
order_type_from_bybit v =
    if v == "Market"
    then some OrderType.market
    else if v == "Limit"
    then some OrderType.limit
    else none

-- `time_in_force_to_bybit`
abbrev pub time_in_force_to_bybit : TimeInForce → String
time_in_force_to_bybit TimeInForce.gtc = "GTC"
time_in_force_to_bybit TimeInForce.ioc = "IOC"
time_in_force_to_bybit TimeInForce.fok = "FOK"
time_in_force_to_bybit TimeInForce.post_only = "PostOnly"

-- `time_in_force_from_bybit`
unfoldable pub time_in_force_from_bybit : String → Option TimeInForce
time_in_force_from_bybit v =
    if v == "GTC"
    then some TimeInForce.gtc
    else if v == "IOC"
    then some TimeInForce.ioc
    else if v == "FOK"
    then some TimeInForce.fok
    else if v == "PostOnly"
    then some TimeInForce.post_only
    else none

-- `order_status_from_bybit`
unfoldable pub order_status_from_bybit : String → Option OrderStatus
order_status_from_bybit v =
    if v == "Created"
    then some OrderStatus.submitted
    else if v == "New"
    then some OrderStatus.acked
    else if v == "PartiallyFilled"
    then some OrderStatus.partially_filled
    else if v == "Filled"
    then some OrderStatus.filled
    else if v == "Cancelled"
    then some OrderStatus.cancelled
    else if v == "PartiallyFilledCanceled"
    then some OrderStatus.cancelled
    else if v == "Rejected"
    then some OrderStatus.rejected
    else none

-- `is_trade_execution`
abbrev pub is_trade_execution : String → Bool
is_trade_execution exec_type = exec_type == "Trade"
