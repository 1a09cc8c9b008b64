-- ===== src/Paper/Invariant.antt =====
-- What holds of `PaperVenue` (src/trading/venues/paper.py) between two calls.
pub mod Fills
pub mod Calls
pub mod Place
pub mod Reach
use claude_trade_teams.Base.{
  ℕ, suc, ◌+◌, ◌≤◌, ◌≡◌, refl, ap, sym, ◌∙◌, ◌==◌, Bool, true, false, if◌then◌else◌, Option, none,
  some, List, [], ◌∷◌, ◌++◌, arith, All, Bool-cases, Option-cases, inl, inr,
}
use claude_trade_teams.Base.Decimal.{Decimal, Context, pos, ◌+ℤ◌, ◌≤ℤ◌, leb_ℤ, int_laws}
use claude_trade_teams.Base.Dict.{Dict, lookup, insert, erase, lookup-insert, lookup-erase}
use claude_trade_teams.Clock.{Clock, now}
use claude_trade_teams.Domain.{
  OrderId, OrderStatus, OrderRequest, Order, Fill, OrderbookSnapshot, is_open, VenueEvent, Symbol,
}
use claude_trade_teams.Fill.Engine.{FillEngine, IsFillOf, IsSound}
use claude_trade_teams.Paper.Netting.{PositionState, apply_fill, signed_qty, opened, added, reduced}
use claude_trade_teams.Paper.Venue.{
  PaperConfig, PaperVenue, new, emit, rejects, placed_order, updated_order, apply_fill_to_order,
  try_fill_order, place_order, fill_each, on_orderbook, cancel_order, position_of,
}

-- An order as the table of open orders has it: only while its status is not terminal.
abbrev pub if_open : Option Order → Option Order
if_open none = none
if_open (some order) = if is_open order.status then some order else none

-- The quantity that the reported fills of one order add up to.
abbrev pub filled_by : OrderId → List VenueEvent → Decimal
filled_by oid [] = pos 0
filled_by oid (VenueEvent.order_update _ ∷ es) = filled_by oid es
filled_by oid (VenueEvent.fill f ∷ es) =
    let rest = filled_by oid es in if f.order_id == oid then f.quantity +ℤ rest else rest

-- The signed quantity that the reported fills of one symbol add up to.
abbrev pub traded : Symbol → List VenueEvent → Decimal
traded symbol [] = pos 0
traded symbol (VenueEvent.order_update _ ∷ es) = traded symbol es
traded symbol (VenueEvent.fill f ∷ es) =
    let rest = traded symbol es in if f.symbol == symbol then signed_qty f +ℤ rest else rest

-- What the venue has on record for one order id.
abbrev pub IsRecorded : OrderId → Option Order → List VenueEvent → Type 0
IsRecorded oid none outbox = filled_by oid outbox ≡ pos 0
IsRecorded oid (some order) outbox =
    (order.order_id ≡ oid)
    × (order.filled_quantity ≡ filled_by oid outbox)
    × (order.filled_quantity ≤ℤ order.quantity)

pub record IsValid (v : PaperVenue) : Type 0 where
  pub consistent : (oid : OrderId) → lookup oid v.open_orders ≡ if_open (lookup oid v.all_orders)
  pub recorded : (oid : OrderId) → IsRecorded oid (lookup oid v.all_orders) v.outbox
  pub fresh : (oid : OrderId) → suc v.next_oid ≤ oid → lookup oid v.all_orders ≡ none
  pub netted : (symbol : Symbol) → (position_of symbol v.positions).net_qty ≡ traded symbol v.outbox

filled_by-append :
    (oid : OrderId) (xs ys : List VenueEvent)
    → filled_by oid (xs ++ ys) ≡ filled_by oid xs +ℤ filled_by oid ys
filled_by-append oid [] ys = omega int_laws
filled_by-append oid (VenueEvent.order_update _ ∷ es) ys = filled_by-append oid es ys
filled_by-append oid (VenueEvent.fill f ∷ es) ys = elim (Bool-cases (f.order_id == oid)) [
  | inl same ↦ rw (same, filled_by-append oid es ys) (omega int_laws)
  | inr other ↦ rw other (filled_by-append oid es ys)
]

traded-append :
    (symbol : Symbol) (xs ys : List VenueEvent)
    → traded symbol (xs ++ ys) ≡ traded symbol xs +ℤ traded symbol ys
traded-append symbol [] ys = omega int_laws
traded-append symbol (VenueEvent.order_update _ ∷ es) ys = traded-append symbol es ys
traded-append symbol (VenueEvent.fill f ∷ es) ys = elim (Bool-cases (f.symbol == symbol)) [
  | inl same ↦ rw (same, traded-append symbol es ys) (omega int_laws)
  | inr other ↦ rw other (traded-append symbol es ys)
]

-- A venue that has done nothing.
pub new-IsValid : (clock : Clock) → IsValid (new clock)
unfolding new
new-IsValid clock = record {
  consistent = λ oid. refl;
  recorded = λ oid. refl;
  fresh = λ oid h. refl;
  netted = λ symbol. refl;
}

module _ (c : Context) where
  net-apply_fill :
      (s : PositionState) (f : Fill)
      → (apply_fill c s f).new_state.net_qty ≡ s.net_qty +ℤ signed_qty f
  unfolding apply_fill opened added reduced
  net-apply_fill s f = ground arith

if_open-some :
    (o : Option Order) {x : Order} → if_open o ≡ some x → (o ≡ some x) × (is_open x.status ≡ true)
if_open-some none h = cc
if_open-some (some y) {x} h = elim (Bool-cases (is_open y.status)) [
  | inl open_ ↦ let e : y ≡ x = ground arith in (ap some e, rw (← e) open_)
  | inr closed ↦ ground arith
]

IsRecorded-same :
    (oid : OrderId) (o : Option Order) (xs ys : List VenueEvent)
    → filled_by oid ys ≡ filled_by oid xs
    → IsRecorded oid o xs
    → IsRecorded oid o ys
IsRecorded-same oid none xs ys e r = e ∙ r
IsRecorded-same oid (some x) xs ys e r = (r.0, r.1 ∙ sym e, r.2)

plus_zero : (a : Decimal) → a ≡ a +ℤ pos 0
plus_zero a = omega int_laws

to_true : (a b : ℕ) → a ≡ b → (a == b) ≡ true
to_true a b h = ground arith

position_of-insert :
    (j k : Symbol) (state : PositionState) (d : Dict PositionState)
    → position_of j (insert k state d) ≡ (if j == k then state else position_of j d)
position_of-insert j k state d = ground (arith, lookup-insert j k state d)
