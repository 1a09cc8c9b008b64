-- ===== src/Market/Book.antt =====
-- src/trading/market_data/live.py: `_OrderbookState`, the book that snapshots and deltas build. A
-- price is not negative, so that it is a number here.
use claude_trade_teams.Base.{
  ℕ, ltb, leb, Bool, false, if◌then◌else◌, Option, none, some, List, [], ◌∷◌, map,
}
use claude_trade_teams.Base.Decimal.{Decimal, pos, eqb_ℤ}
use claude_trade_teams.Base.Dict.{Dict, insert, erase}
use claude_trade_teams.Domain.{Symbol, Time, Level, OrderbookSnapshot}

pub record OrderbookState : Type 0 where
  pub symbol : Symbol
  pub bids : Dict Decimal
  pub asks : Dict Decimal
  pub last_update_id : Option ℕ

-- A message of the stream: its type, its update id, where that is an integer, and the levels of
-- both sides.
pub record BookMessage : Type 0 where
  pub is_snapshot : Bool
  pub update_id : Option ℕ
  pub bid_levels : List (ℕ × Decimal)
  pub ask_levels : List (ℕ × Decimal)

abbrev pub new : Symbol → OrderbookState
new symbol = record { symbol = symbol; bids = []; asks = []; last_update_id = none }

-- one round of the loop of `_apply_side`
unfoldable pub apply_level : ℕ → Decimal → Dict Decimal → Dict Decimal
apply_level price size side =
    if eqb_ℤ size (pos 0) then erase price side else insert price size side

-- `_apply_side`
unfoldable pub apply_side : Dict Decimal → List (ℕ × Decimal) → Dict Decimal
apply_side side [] = side
apply_side side ((price, size) ∷ levels) = apply_side (apply_level price size side) levels

-- `if isinstance(update_id, int): self._last_update_id = update_id`
abbrev pub next_id : Option ℕ → Option ℕ → Option ℕ
next_id last none = last
next_id last (some n) = some n

-- whether `apply` logs that a delta's update id does not increase; it applies the delta all the same
unfoldable pub warns : BookMessage → OrderbookState → Bool
warns message s = if message.is_snapshot then false else elim s.last_update_id [
  | none ↦ false
  | some last ↦ elim message.update_id [ none ↦ false | some n ↦ leb n last ]
]

-- `apply`
unfoldable pub apply : BookMessage → OrderbookState → OrderbookState
apply message s = record s {
  bids = apply_side (if message.is_snapshot then [] else s.bids) message.bid_levels;
  asks = apply_side (if message.is_snapshot then [] else s.asks) message.ask_levels;
  last_update_id = next_id s.last_update_id message.update_id;
}

-- an entry put at its place among sorted ones
unfoldable pub insert_sorted : (ℕ → ℕ → Bool) → ℕ × Decimal → Dict Decimal → Dict Decimal
insert_sorted before e [] = e ∷ []
insert_sorted before e (x ∷ xs) =
    let rest = insert_sorted before e xs in if before e.0 x.0 then e ∷ x ∷ xs else x ∷ rest

-- the entries of a dict in the order of `sorted` over its keys
unfoldable pub sort : (ℕ → ℕ → Bool) → Dict Decimal → Dict Decimal
sort before [] = []
sort before (e ∷ d) = insert_sorted before e (sort before d)

-- `sorted(d)` and `sorted(d, reverse=True)`
abbrev pub ascending : ℕ → ℕ → Bool
ascending a b = ltb a b

abbrev pub descending : ℕ → ℕ → Bool
descending a b = ltb b a

-- `Level(p, d[p])`
abbrev pub level_of : ℕ × Decimal → Level
level_of e = record { price = pos e.0; quantity = e.1 }

-- `self._last_update_id or 0`
abbrev pub sequence_of : Option ℕ → ℕ
sequence_of none = 0
sequence_of (some n) = n

-- `to_snapshot`
unfoldable pub to_snapshot : Time → OrderbookState → OrderbookSnapshot
to_snapshot timestamp s = record {
  symbol = s.symbol;
  bids = map level_of (sort descending s.bids);
  asks = map level_of (sort ascending s.asks);
  sequence = sequence_of s.last_update_id;
  timestamp = timestamp;
}

-- the book after some messages
unfoldable pub replay : List BookMessage → OrderbookState → OrderbookState
replay [] s = s
replay (message ∷ messages) s = replay messages (apply message s)
