-- ===== src/Bybit/Wire.antt =====
-- src/trading/bybit/wire.py: numbers, times and sides as Bybit writes them. What raises is `none`.
use Prim.Native.String.{String}
use text.Mathlib.Text.{◌==◌}
use claude_trade_teams.Base.{ℕ, ◌+◌, ◌*◌, if◌then◌else◌, Option, none, some}
use claude_trade_teams.Base.Decimal.{Decimal, pos}
use claude_trade_teams.Domain.{Time, OrderSide, PositionSide}

-- A text of a numeric field: the empty one, `0`, another one that `Decimal` reads, and one that
-- `Decimal` refuses.
pub data NumberText : Type 0 where
  empty zero other : NumberText
  numeral : Decimal → NumberText

-- `Decimal(value)`
abbrev pub parse : NumberText → Option Decimal
parse empty = none
parse zero = some (pos 0)
parse other = none
parse (numeral d) = some d

-- `to_decimal`
unfoldable pub to_decimal : NumberText → Option Decimal
to_decimal empty = none
to_decimal zero = parse zero
to_decimal other = parse other
to_decimal (numeral d) = parse (numeral d)

-- `to_optional_decimal`: it raises, or it returns None or a number.
unfoldable pub to_optional_decimal : NumberText → Option (Option Decimal)
to_optional_decimal empty = some none
to_optional_decimal zero = some (parse zero)
to_optional_decimal other = none
to_optional_decimal (numeral d) = some (parse (numeral d))

-- 1970-01-01 in UTC, in microseconds after the first `datetime`
abbrev pub epoch : Time
epoch = 62135596800000000

-- `to_datetime` of a count of milliseconds, or of what `int` refuses. The quotient by 1000 is a
-- float, which is close enough to be rounded to the exact microsecond until 2106.
unfoldable pub to_datetime : Option ℕ → Option Time
to_datetime none = none
to_datetime (some ms) = some (epoch + ms * 1000)

-- `side_to_bybit`
abbrev pub side_to_bybit : OrderSide → String
side_to_bybit OrderSide.buy = "Buy"
side_to_bybit OrderSide.sell = "Sell"

-- `side_from_bybit`
unfoldable pub side_from_bybit : String → Option OrderSide
side_from_bybit v =
    if v == "Buy" then some OrderSide.buy else if v == "Sell" then some OrderSide.sell else none

-- `position_side_from_bybit`
unfoldable pub position_side_from_bybit : String → Option PositionSide
position_side_from_bybit v =
    if v == ""
    then some PositionSide.flat
    else if v == "Buy"
    then some PositionSide.long
    else if v == "Sell"
    then some PositionSide.short
    else none
