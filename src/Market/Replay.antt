-- ===== src/Market/Replay.antt =====
-- What a snapshot of src/trading/market_data/live.py shows after any messages.
use claude_trade_teams.Base.{
  ℕ, ◌≡◌, refl, ap, ◌∙◌, ltb, ◌==◌, Bool, true, false, if◌then◌else◌, Option, none, some, List, [],
  ◌∷◌, map, All, arith, Bool-cases, inl, inr,
}
use claude_trade_teams.Base.Decimal.{Decimal, pos, eqb_ℤ, ◌<ℤ◌}
use claude_trade_teams.Base.Dict.{Dict, lookup, lookup-insert, lookup-erase}
use claude_trade_teams.Domain.{Symbol, Time, Level}
use claude_trade_teams.Market.Book.{
  OrderbookState, BookMessage, new, apply_level, apply_side, apply, sort, ascending, descending,
  level_of, to_snapshot, replay,
}
use claude_trade_teams.Market.Ladder.{
  IsDistinct, IsSorted, apply_side-IsDistinct, sort-IsSorted, sort-lookup, ascending-IsOrder,
  descending-IsOrder,
}

-- Each level is cheaper than all that follow it.
abbrev pub IsRising : List Level → Type 0
IsRising [] = Unit
IsRising (l ∷ ls) = All (λ m. l.price <ℤ m.price) ls × IsRising ls

-- Each level is dearer than all that follow it.
abbrev pub IsFalling : List Level → Type 0
IsFalling [] = Unit
IsFalling (l ∷ ls) = All (λ m. m.price <ℤ l.price) ls × IsFalling ls

-- the size at a price, in a list of levels
abbrev pub size_at : ℕ → List Level → Option Decimal
size_at price [] = none
size_at price (l ∷ ls) = if eqb_ℤ (pos price) l.price then some l.quantity else size_at price ls

-- the size at a price after some updates of a side, from what it was before: the last update of the
-- price counts, and a size of 0 removes it
abbrev pub updated : ℕ → Option Decimal → List (ℕ × Decimal) → Option Decimal
updated price before [] = before
updated price before ((p, size) ∷ levels) =
    updated price (if price == p then (if eqb_ℤ size (pos 0) then none else some size) else before)
      levels

-- the size at a price after some messages, of which a snapshot forgets what was before
abbrev pub told :
    (BookMessage → List (ℕ × Decimal)) → ℕ → Option Decimal → List BookMessage → Option Decimal
told side price before [] = before
told side price before (message ∷ messages) =
    told side price (updated price (if message.is_snapshot then none else before) (side message))
      messages

Rising-map : (d : Dict Decimal) → IsSorted ascending d → IsRising (map level_of d)
Rising-map [] h = tt
Rising-map (e ∷ d) h = (all_of e d h.0, Rising-map d h.1)
  where
    all_of :
        (e : ℕ × Decimal) (d : Dict Decimal)
        → All (λ x. ltb e.0 x.0 ≡ true) d
        → All (λ m. pos e.0 <ℤ m.price) (map level_of d)
    all_of e [] h = tt
    all_of e (x ∷ d) h = (ground (arith, h.0), all_of e d h.1)

Falling-map : (d : Dict Decimal) → IsSorted descending d → IsFalling (map level_of d)
Falling-map [] h = tt
Falling-map (e ∷ d) h = (all_of e d h.0, Falling-map d h.1)
  where
    all_of :
        (e : ℕ × Decimal) (d : Dict Decimal)
        → All (λ x. ltb x.0 e.0 ≡ true) d
        → All (λ m. m.price <ℤ pos e.0) (map level_of d)
    all_of e [] h = tt
    all_of e (x ∷ d) h = (ground (arith, h.0), all_of e d h.1)

size_at-map : (price : ℕ) (d : Dict Decimal) → size_at price (map level_of d) ≡ lookup price d
size_at-map price [] = refl
size_at-map price (e ∷ d) = ground (arith, size_at-map price d)

lookup-apply_level :
    (price p : ℕ) (size : Decimal) (side : Dict Decimal)
    → lookup price (apply_level p size side)
      ≡ (if price == p then (if eqb_ℤ size (pos 0) then none else some size) else lookup price side)
unfolding apply_level
lookup-apply_level price p size side = elim (Bool-cases (eqb_ℤ size (pos 0))) [
  | inl t ↦ rw (apply_level, t) (lookup-erase price p side)
  | inr t ↦ rw (apply_level, t) (lookup-insert price p size side)
]

lookup-apply_side :
    (price : ℕ) (side : Dict Decimal) (levels : List (ℕ × Decimal))
    → lookup price (apply_side side levels) ≡ updated price (lookup price side) levels
unfolding apply_side
lookup-apply_side price side [] = refl
lookup-apply_side price side ((p, size) ∷ levels) =
    lookup-apply_side price (apply_level p size side) levels
    ∙ ap (λ o. updated price o levels) (lookup-apply_level price p size side)

-- Neither side of the book has a price twice.
abbrev pub IsBook : OrderbookState → Type 0
IsBook s = IsDistinct s.bids × IsDistinct s.asks

emptied : (b : Bool) (d : Dict Decimal) → IsDistinct d → IsDistinct (if b then [] else d)
emptied true d h = tt
emptied false d h = h

apply-IsBook : (message : BookMessage) (s : OrderbookState) → IsBook s → IsBook (apply message s)
unfolding apply
apply-IsBook message s h = (
  apply_side-IsDistinct (if message.is_snapshot then [] else s.bids) message.bid_levels
      (emptied message.is_snapshot s.bids h.0),
  apply_side-IsDistinct (if message.is_snapshot then [] else s.asks) message.ask_levels
      (emptied message.is_snapshot s.asks h.1),
)

replay-IsBook :
    (messages : List BookMessage) (s : OrderbookState) → IsBook s → IsBook (replay messages s)
unfolding replay
replay-IsBook [] s h = h
replay-IsBook (message ∷ messages) s h =
    replay-IsBook messages (apply message s) (apply-IsBook message s h)

-- After any messages the bids of a snapshot fall strictly from level to level and its asks rise
-- strictly, so that the best of each side stands first and no price stands twice.
pub to_snapshot-ordered :
    (symbol : Symbol) (messages : List BookMessage) (timestamp : Time)
    → IsFalling (to_snapshot timestamp (replay messages (new symbol))).bids
      × IsRising (to_snapshot timestamp (replay messages (new symbol))).asks
unfolding to_snapshot
to_snapshot-ordered symbol messages timestamp =
    let s : OrderbookState = replay messages (new symbol) in
    let h = replay-IsBook messages (new symbol) (tt, tt) in
    (
      Falling-map (sort descending s.bids) (sort-IsSorted descending descending-IsOrder s.bids h.0),
      Rising-map (sort ascending s.asks) (sort-IsSorted ascending ascending-IsOrder s.asks h.1),
    )

lookup-emptied :
    (price : ℕ) (b : Bool) (d : Dict Decimal)
    → lookup price (if b then [] else d) ≡ (if b then none else lookup price d)
lookup-emptied price true d = refl
lookup-emptied price false d = refl

replay-bids :
    (price : ℕ) (messages : List BookMessage) (s : OrderbookState)
    → lookup price (replay messages s).bids
      ≡ told (λ m. m.bid_levels) price (lookup price s.bids) messages
unfolding replay apply
replay-bids price [] s = refl
replay-bids price (message ∷ messages) s =
    replay-bids price messages (apply message s)
    ∙ ap (λ o. told (λ m. m.bid_levels) price o messages)
        (lookup-apply_side price (if message.is_snapshot then [] else s.bids) message.bid_levels
          ∙ ap (λ o. updated price o message.bid_levels)
              (lookup-emptied price message.is_snapshot s.bids))

replay-asks :
    (price : ℕ) (messages : List BookMessage) (s : OrderbookState)
    → lookup price (replay messages s).asks
      ≡ told (λ m. m.ask_levels) price (lookup price s.asks) messages
unfolding replay apply
replay-asks price [] s = refl
replay-asks price (message ∷ messages) s =
    replay-asks price messages (apply message s)
    ∙ ap (λ o. told (λ m. m.ask_levels) price o messages)
        (lookup-apply_side price (if message.is_snapshot then [] else s.asks) message.ask_levels
          ∙ ap (λ o. updated price o message.ask_levels)
              (lookup-emptied price message.is_snapshot s.asks))

-- After any messages a snapshot shows at each price of either side the size that the last update of
-- it told since the last message of type snapshot, and no level where that was 0 or there was none.
pub to_snapshot-told :
    (symbol : Symbol) (messages : List BookMessage) (timestamp : Time) (price : ℕ)
    → (size_at price (to_snapshot timestamp (replay messages (new symbol))).bids
        ≡ told (λ m. m.bid_levels) price none messages)
      × (size_at price (to_snapshot timestamp (replay messages (new symbol))).asks
          ≡ told (λ m. m.ask_levels) price none messages)
unfolding to_snapshot
to_snapshot-told symbol messages timestamp price =
    let s : OrderbookState = replay messages (new symbol) in
    let h = replay-IsBook messages (new symbol) (tt, tt) in
    (
      size_at-map price (sort descending s.bids)
          ∙ sort-lookup descending price s.bids h.0
          ∙ replay-bids price messages (new symbol),
      size_at-map price (sort ascending s.asks)
          ∙ sort-lookup ascending price s.asks h.1
          ∙ replay-asks price messages (new symbol),
    )
