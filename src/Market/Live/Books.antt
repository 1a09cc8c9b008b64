-- ===== src/Market/Live/Books.antt =====
-- What the subscribers of `LiveMarketDataSource` (src/trading/market_data/live.py) are shown: the
-- messages of their own symbol, replayed.
use claude_trade_teams.Base.{
  ℕ, ◌≡◌, refl, ap, ◌∙◌, ◌==◌, true, if◌then◌else◌, Option, none, some, List, [], ◌∷◌, map, arith,
  Bool-cases, Option-cases, inl, inr,
}
use claude_trade_teams.Base.Dict.{Dict, lookup, insert, lookup-insert}
use claude_trade_teams.Domain.{Symbol, Time}
use claude_trade_teams.Bybit.Wire.{to_datetime}
use claude_trade_teams.Market.Book.{OrderbookState, BookMessage, apply, to_snapshot, replay}
use claude_trade_teams.Market.Book
use claude_trade_teams.Market.Live.{
  Callback, LiveSource, subscribers, start, fresh_books, book, on_orderbook, dispatch,
  subscribe_orderbook, subscribe_trades, subscribe_funding,
}

-- A message as it comes from the socket: the symbol of its stream, the message and its time.
abbrev pub Received : Type 0
Received = Symbol × BookMessage × Option ℕ

-- the source after some messages
unfoldable pub receive : List Received → LiveSource → LiveSource
receive [] l = l
receive ((symbol, message, ts) ∷ ms) l = receive ms (on_orderbook symbol message ts l).source

-- the messages of one symbol
abbrev pub of_symbol : Symbol → List Received → List BookMessage
of_symbol symbol [] = []
of_symbol symbol ((s, message, _) ∷ ms) =
    let rest = of_symbol symbol ms in if symbol == s then message ∷ rest else rest

-- One message: what it leaves alone, and what it does to the book of a symbol.
module _ (symbol : Symbol) (message : BookMessage) (ts : Option ℕ) (l : LiveSource) where
  source_lem :
      ((on_orderbook symbol message ts l).source.ob_subs ≡ l.ob_subs)
      × ((on_orderbook symbol message ts l).source.has_loop ≡ l.has_loop)
  unfolding on_orderbook
  source_lem = elim (Option-cases (lookup symbol l.books)) [
    | inl e ↦ rw (on_orderbook, e) (refl, refl)
    | inr (b, e) ↦ elim (Option-cases (to_datetime ts)) [
      | inl g ↦ rw (on_orderbook, e, g) (refl, refl)
      | inr (t, g) ↦ rw (on_orderbook, e, g) (refl, refl)
    ]
  ]

  book_lem :
      (k : Symbol) (b : OrderbookState)
      → lookup k l.books ≡ some b
      → lookup k (on_orderbook symbol message ts l).source.books
        ≡ some (if k == symbol then apply message b else b)
  unfolding on_orderbook
  book_lem k b h = elim (Option-cases (lookup symbol l.books)) [
    | inl e ↦ rw (on_orderbook, e) (ground (arith, e, h))
    | inr (b', e) ↦
        let put = lookup-insert k symbol (apply message b') l.books in
        elim (Option-cases (to_datetime ts)) [
          | inl g ↦ rw (on_orderbook, e, g) (ground (arith, e, h, put))
          | inr (t, g) ↦ rw (on_orderbook, e, g) (ground (arith, e, h, put))
        ]
  ]

receive_lem :
    (ms : List Received) (l : LiveSource) (symbol : Symbol) (b : OrderbookState)
    → lookup symbol l.books ≡ some b
    → (lookup symbol (receive ms l).books ≡ some (replay (of_symbol symbol ms) b))
      × ((receive ms l).ob_subs ≡ l.ob_subs)
      × ((receive ms l).has_loop ≡ l.has_loop)
unfolding receive replay
receive_lem [] l symbol b h = (h, refl, refl)
receive_lem ((s, message, ts) ∷ ms) l symbol b h =
    let l' = (on_orderbook s message ts l).source in
    let (same_subs, same_loop) = source_lem s message ts l in
    let kept = book_lem s message ts l symbol b h in
    elim (Bool-cases (symbol == s)) [
      | inl e ↦
          let (x, y, z) = receive_lem ms l' symbol (apply message b) (rw e at kept) in
          rw e (x, y ∙ same_subs, z ∙ same_loop)
      | inr e ↦
          let (x, y, z) = receive_lem ms l' symbol b (rw e at kept) in
          rw e (x, y ∙ same_subs, z ∙ same_loop)
    ]

fresh_lem :
    (subs : Dict (List Callback)) (books : Dict OrderbookState) (symbol : Symbol)
    → lookup symbol books ≡ some (Book.new symbol)
    → lookup symbol (fresh_books subs books) ≡ some (Book.new symbol)
unfolding fresh_books
fresh_lem [] books symbol h = h
fresh_lem ((s, cs) ∷ subs) books symbol h =
    fresh_lem subs (insert s (Book.new s) books) symbol
      (ground (arith, h, lookup-insert symbol s (Book.new s) books))

start_lem :
    (subs : Dict (List Callback)) (books : Dict OrderbookState) (symbol : Symbol)
    (callbacks : List Callback)
    → lookup symbol subs ≡ some callbacks
    → lookup symbol (fresh_books subs books) ≡ some (Book.new symbol)
unfolding fresh_books
start_lem [] books symbol callbacks h = ground (arith, h)
start_lem ((s, cs) ∷ subs) books symbol callbacks h = elim (Bool-cases (symbol == s)) [
  | inl e ↦
      fresh_lem subs (insert s (Book.new s) books) symbol
        (ground (arith, e, lookup-insert symbol s (Book.new s) books))
  | inr e ↦ start_lem subs (insert s (Book.new s) books) symbol callbacks (rw e at h)
]

calls_lem :
    (l : LiveSource) (symbol : Symbol) (callbacks : List Callback) (message : BookMessage)
    (ts : Option ℕ) (t : Time) (b : OrderbookState)
    → lookup symbol l.books ≡ some b
    → lookup symbol l.ob_subs ≡ some callbacks
    → l.has_loop ≡ true
    → to_datetime ts ≡ some t
    → (on_orderbook symbol message ts l).calls
      ≡ map (λ c. (c, book (to_snapshot t (apply message b)))) callbacks
unfolding on_orderbook dispatch
calls_lem l symbol callbacks message ts t b h g k e =
    rw (on_orderbook, h, e) (rw (dispatch, k, subscribers, g) refl)

-- After `start` and any messages of any symbols, an order book message of a subscribed symbol, with a
-- time that can be read, is handed to the subscribers of the symbol, each once and in the order in
-- which they subscribed: as the snapshot of the messages of that symbol alone, the new one last.
pub on_orderbook-receive :
    (l : LiveSource) (ms : List Received) (symbol : Symbol) (callbacks : List Callback)
    (message : BookMessage) (ts : Option ℕ) (t : Time)
    → lookup symbol l.ob_subs ≡ some callbacks
    → to_datetime ts ≡ some t
    → (on_orderbook symbol message ts (receive ms (start l).1)).calls
      ≡ map
          (λ c. (
            c,
            book (to_snapshot t (apply message (replay (of_symbol symbol ms) (Book.new symbol)))),
          ))
          callbacks
unfolding start
on_orderbook-receive l ms symbol callbacks message ts t h e =
    let known = start_lem l.ob_subs l.books symbol callbacks h in
    let (x, y, z) = receive_lem ms (start l).1 symbol (Book.new symbol) known in
    calls_lem (receive ms (start l).1) symbol callbacks message ts t
      (replay (of_symbol symbol ms) (Book.new symbol)) x (ap (lookup symbol) y ∙ h) z e

-- A started source takes no subscription of any kind.
pub subscribe-started :
    (l : LiveSource) (symbol : Symbol) (callback : Callback)
    → (subscribe_orderbook symbol callback (start l).1 ≡ none)
      × (subscribe_trades symbol callback (start l).1 ≡ none)
      × (subscribe_funding symbol callback (start l).1 ≡ none)
unfolding start subscribe_orderbook subscribe_trades subscribe_funding
subscribe-started l symbol callback = (refl, refl, refl)
