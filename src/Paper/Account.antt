-- ===== src/Paper/Account.antt =====
-- src/trading/venues/paper.py: the account that the venue reports, at the last book of each symbol.
use claude_trade_teams.Base.{
  ◌≡◌, refl, true, if◌then◌else◌, Option, none, some, List, [], ◌∷◌, arith, Bool-cases, inl, inr,
}
use claude_trade_teams.Base.Decimal.{
  Decimal, ℤ, Context, pos, ◌+ℤ◌, ◌-ℤ◌, ltb_ℤ, eqb_ℤ, abs, number,
}
use claude_trade_teams.Base.Dict.{Dict, lookup, values}
use claude_trade_teams.Clock.{Clock, now}
use claude_trade_teams.Domain.{
  Symbol, Level, OrderbookSnapshot, best_bid, best_ask, PositionSide, Position, Balance,
}
use claude_trade_teams.Paper.Netting.{PositionState}
use claude_trade_teams.Paper.Venue.{PaperConfig, PaperVenue}

module _ (c : Context) where
  -- the choice that `_mark_price` makes between the two best levels
  abbrev pub mark_of : Option Level → Option Level → Decimal → Decimal
  mark_of none none fallback = fallback
  mark_of none (some ask) fallback = ask.price
  mark_of (some bid) none fallback = bid.price
  mark_of (some bid) (some ask) fallback = c.over (bid.price +ℤ ask.price) (number c 2)

  -- `_mark_price`
  unfoldable pub mark_price : Dict OrderbookSnapshot → Symbol → Decimal → Decimal
  mark_price books symbol fallback = elim (lookup symbol books) [
    | none ↦ fallback
    | some book ↦ mark_of (best_bid book) (best_ask book) fallback
  ]

  -- `_unrealized_pnl`
  unfoldable pub unrealized_pnl : Dict OrderbookSnapshot → Symbol → PositionState → Decimal
  unrealized_pnl books symbol state =
      let mark = mark_price books symbol state.entry_price in
      if ltb_ℤ (pos 0) state.net_qty
      then c.times (mark -ℤ state.entry_price) state.net_qty
      else c.times (state.entry_price -ℤ mark) (abs state.net_qty)

  -- `_build_position`
  unfoldable pub build_position :
      Dict OrderbookSnapshot → Symbol → PositionState → Clock → Position × Clock
  build_position books symbol state clock =
      let mark = mark_price books symbol state.entry_price in
      let long = ltb_ℤ (pos 0) state.net_qty in
      let qty = abs state.net_qty in
      let (at, clock') = now clock in
      (
        record {
          symbol = symbol;
          side = if long then PositionSide.long else PositionSide.short;
          quantity = qty;
          entry_price = state.entry_price;
          mark_price = mark;
          unrealized_pnl =
              if long
              then c.times (mark -ℤ state.entry_price) qty
              else c.times (state.entry_price -ℤ mark) qty;
          realized_pnl = state.realized_pnl;
          leverage = number c 1;
          liquidation_price = none;
          updated_at = at;
        },
        clock',
      )

  -- the loop of `get_positions`
  unfoldable pub build_positions :
      Dict OrderbookSnapshot → Dict PositionState → Clock → List Position × Clock
  build_positions books [] clock = ([], clock)
  build_positions books ((symbol, state) ∷ d) clock =
      let built = build_position books symbol state clock in
      let kept = build_positions books d built.1 in
      let skipped = build_positions books d clock in
      if eqb_ℤ state.net_qty (pos 0) then skipped else (built.0 ∷ kept.0, kept.1)

  -- `get_positions`
  unfoldable pub get_positions : PaperVenue → List Position × PaperVenue
  get_positions v =
      let (positions, clock') = build_positions v.latest_book v.positions v.clock in
      (positions, record v { clock = clock' })

  -- `sum((s.realized_pnl for s in ...), start=Decimal("0"))`
  unfoldable pub total_realized : List PositionState → Decimal → Decimal
  total_realized [] total = total
  total_realized (s ∷ states) total = total_realized states (total +ℤ s.realized_pnl)

  -- the loop of `get_balance`
  unfoldable pub total_unrealized : Dict OrderbookSnapshot → Dict PositionState → Decimal → Decimal
  total_unrealized books [] total = total
  total_unrealized books ((symbol, state) ∷ d) total =
      total_unrealized books d
        (if eqb_ℤ state.net_qty (pos 0) then total else total +ℤ unrealized_pnl books symbol state)

  -- `get_balance`
  unfoldable pub get_balance : PaperConfig → PaperVenue → Balance × PaperVenue
  get_balance cfg v =
      let total =
        cfg.initial_balance
        +ℤ total_realized (values v.positions) (pos 0)
        +ℤ total_unrealized v.latest_book v.positions (pos 0) in
      let (at, clock') = now v.clock in
      (
        record {
          currency = cfg.currency;
          total = total;
          available = total;
          margin_used = pos 0;
          updated_at = at;
        },
        record v { clock = clock' },
      )

  -- the unrealised profits of some positions, added up
  abbrev pub add_unrealized : List Position → Decimal → Decimal
  add_unrealized [] total = total
  add_unrealized (p ∷ positions) total = add_unrealized positions (total +ℤ p.unrealized_pnl)

  built_unrealized :
      (books : Dict OrderbookSnapshot) (symbol : Symbol) (state : PositionState) (clock : Clock)
      → (build_position books symbol state clock).0.unrealized_pnl
        ≡ unrealized_pnl books symbol state
  unfolding build_position unrealized_pnl
  built_unrealized books symbol state clock = elim (Bool-cases (ltb_ℤ (pos 0) state.net_qty)) [
    | inl l ↦
        let a : abs state.net_qty ≡ state.net_qty = positive_abs state.net_qty l in rw (l, a) refl
    | inr l ↦ rw l refl
  ]
    where
      positive_abs : (a : ℤ) → ltb_ℤ (pos 0) a ≡ true → abs a ≡ a
      positive_abs a h = ground arith

  add_built :
      (books : Dict OrderbookSnapshot) (d : Dict PositionState) (clock : Clock) (total : Decimal)
      → add_unrealized (build_positions books d clock).0 total ≡ total_unrealized books d total
  unfolding build_positions total_unrealized build_position ◌+ℤ◌
  add_built books [] clock total = refl
  add_built books ((symbol, state) ∷ d) clock total =
      elim (Bool-cases (eqb_ℤ state.net_qty (pos 0))) [
        | inl e ↦ rw (build_positions, total_unrealized, e) (add_built books d clock total)
        | inr e ↦
            rw (build_positions, total_unrealized, e, built_unrealized books symbol state clock)
              (add_built books d (build_position books symbol state clock).1
                (total +ℤ unrealized_pnl books symbol state))
      ]

  -- The balance is the initial balance, with the realised profit of every symbol and the unrealised
  -- profits of the positions that the venue reports, and all of it is available.
  pub get_balance-get_positions :
      (cfg : PaperConfig) (v : PaperVenue)
      → ((get_balance cfg v).0.total
          ≡ cfg.initial_balance
            +ℤ total_realized (values v.positions) (pos 0)
            +ℤ add_unrealized (get_positions v).0 (pos 0))
        × ((get_balance cfg v).0.available ≡ (get_balance cfg v).0.total)
  unfolding get_balance get_positions
  get_balance-get_positions cfg v =
      (rw (add_built v.latest_book v.positions v.clock (pos 0)) refl, refl)
