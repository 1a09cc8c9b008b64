-- ===== src/Market/Live.antt =====
-- src/trading/market_data/live.py: `LiveMarketDataSource`, its subscriptions, its streams and the
-- handlers that run on the receiver's thread. What a handler hands to the event loop is listed in
-- order; each entry runs there as a task of its own.
pub mod Books
pub mod Calls
use Prim.Native.String.{String}
use claude_trade_teams.Base.{
  ℕ, Bool, true, false, if◌then◌else◌, Option, none, some, List, [], ◌∷◌, ◌++◌, map, ◌>>=◌,
}
use claude_trade_teams.Base.Dict.{Dict, lookup, insert}
use claude_trade_teams.Domain.{
  Symbol, OrderbookSnapshot, Trade, FundingRate, Alert, AlertLevel, Reason,
}
use claude_trade_teams.Clock.{Clock, now}
use claude_trade_teams.Bybit.Wire.{NumberText, empty, to_decimal, to_datetime, side_from_bybit}
use claude_trade_teams.Market.Book.{OrderbookState, BookMessage, apply, to_snapshot}
use claude_trade_teams.Market.Book

-- a callback, by a number
abbrev pub Callback : Type 0
Callback = ℕ

pub record LiveSource : Type 0 where
  pub depth : ℕ
  pub connected : Bool
  pub has_loop : Bool
  pub ob_subs : Dict (List Callback)
  pub trade_subs : Dict (List Callback)
  pub funding_subs : Dict (List Callback)
  pub books : Dict OrderbookState
  pub started : Bool

abbrev pub new : ℕ → LiveSource
new depth = record {
  depth = depth;
  connected = false;
  has_loop = false;
  ob_subs = [];
  trade_subs = [];
  funding_subs = [];
  books = [];
  started = false;
}

-- `d[symbol]` of a `defaultdict(list)`
abbrev pub subscribers : Symbol → Dict (List Callback) → List Callback
subscribers symbol d = elim (lookup symbol d) [ none ↦ [] | some callbacks ↦ callbacks ]

-- `d[symbol].append(callback)`
abbrev pub append : Symbol → Callback → Dict (List Callback) → Dict (List Callback)
append symbol callback d = insert symbol (subscribers symbol d ++ callback ∷ []) d

-- `_require_not_started`, before a change of the subscriptions
abbrev pub unless_started : LiveSource → LiveSource → Option LiveSource
unless_started l l' = if l.started then none else some l'

-- `subscribe_orderbook`
unfoldable pub subscribe_orderbook : Symbol → Callback → LiveSource → Option LiveSource
subscribe_orderbook symbol callback l =
    unless_started l (record l { ob_subs = append symbol callback l.ob_subs })

-- `subscribe_trades`
unfoldable pub subscribe_trades : Symbol → Callback → LiveSource → Option LiveSource
subscribe_trades symbol callback l =
    unless_started l (record l { trade_subs = append symbol callback l.trade_subs })

-- `subscribe_funding`
unfoldable pub subscribe_funding : Symbol → Callback → LiveSource → Option LiveSource
subscribe_funding symbol callback l =
    unless_started l (record l { funding_subs = append symbol callback l.funding_subs })

-- what `start` asks the socket for
pub data Stream : Type 0 where
  orderbook_stream : ℕ → Symbol → Stream
  trade_stream : Symbol → Stream
  ticker_stream : Symbol → Stream

-- the loop of `start` over the subscribed books
unfoldable pub fresh_books : Dict (List Callback) → Dict OrderbookState → Dict OrderbookState
fresh_books [] books = books
fresh_books ((symbol, _) ∷ subs) books = fresh_books subs (insert symbol (Book.new symbol) books)

-- `start`
unfoldable pub start : LiveSource → List Stream × LiveSource
start l = (
  map (λ e. orderbook_stream l.depth e.0) l.ob_subs
      ++ (map (λ e. trade_stream e.0) l.trade_subs ++ map (λ e. ticker_stream e.0) l.funding_subs),
  record l {
    started = true;
    has_loop = true;
    connected = true;
    books = fresh_books l.ob_subs l.books;
  },
)

-- `stop`
abbrev pub stop : LiveSource → LiveSource
stop l = record l { connected = false }

pub data MarketEvent : Type 0 where
  book : OrderbookSnapshot → MarketEvent
  trade : Trade → MarketEvent
  funding : FundingRate → MarketEvent

-- `_dispatch`
unfoldable pub dispatch : LiveSource → List Callback → MarketEvent → List (Callback × MarketEvent)
dispatch l callbacks event = if l.has_loop then map (λ c. (c, event)) callbacks else []

-- What a handler did: what it handed to the loop, whether it raised, and the source after it.
pub record Handled : Type 0 where
  pub calls : List (Callback × MarketEvent)
  pub raised : Bool
  pub source : LiveSource

-- the handler of `_orderbook_handler`, with `ts` as `int` reads it
unfoldable pub on_orderbook : Symbol → BookMessage → Option ℕ → LiveSource → Handled
on_orderbook symbol message ts l = elim (lookup symbol l.books) [
  | none ↦ record { calls = []; raised = true; source = l }
  | some state ↦
      let state' = apply message state in
      let l' = record l { books = insert symbol state' l.books } in
      elim (to_datetime ts) [
        | none ↦ record { calls = []; raised = true; source = l' }
        | some t ↦ record {
          calls = dispatch l' (subscribers symbol l'.ob_subs) (book (to_snapshot t state'));
          raised = false;
          source = l';
        }
      ]
]

-- an entry of a trade message
pub record TradeEntry : Type 0 where
  pub symbol : Symbol
  pub price : NumberText
  pub quantity : NumberText
  pub side : String
  pub time : Option ℕ

-- the `Trade` that `_trade_handler` builds
unfoldable pub to_trade : TradeEntry → Option Trade
to_trade entry = do
  price ← to_decimal entry.price
  quantity ← to_decimal entry.quantity
  side ← side_from_bybit entry.side
  timestamp ← to_datetime entry.time
  some (record {
    symbol = entry.symbol;
    price = price;
    quantity = quantity;
    side = side;
    timestamp = timestamp;
  })

-- the handler of `_trade_handler`: an entry that does not decode ends the loop, after the ones before
-- it have been handed over
unfoldable pub on_trades : Symbol → List TradeEntry → LiveSource → Handled
on_trades symbol [] l = record { calls = []; raised = false; source = l }
on_trades symbol (entry ∷ entries) l =
    let rest = on_trades symbol entries l in
    elim (to_trade entry) [
      | none ↦ record { calls = []; raised = true; source = l }
      | some t ↦ record rest {
        calls = dispatch l (subscribers symbol l.trade_subs) (trade t) ++ rest.calls;
      }
    ]

-- a ticker message; a field that is missing or does not parse is `none`
pub record TickerMessage : Type 0 where
  pub symbol : Symbol
  pub rate : Option NumberText
  pub next_funding_time : Option ℕ
  pub ts : Option ℕ

-- `not rate`
abbrev pub has_no_rate : Option NumberText → Bool
has_no_rate none = true
has_no_rate (some empty) = true
has_no_rate (some NumberText.zero) = false
has_no_rate (some NumberText.other) = false
has_no_rate (some (NumberText.numeral _)) = false

-- the `FundingRate` that `_funding_handler` builds
unfoldable pub to_funding : TickerMessage → Option FundingRate
to_funding message = do
  text ← message.rate
  rate ← to_decimal text
  next_funding_time ← to_datetime message.next_funding_time
  timestamp ← to_datetime message.ts
  some (record {
    symbol = message.symbol;
    rate = rate;
    predicted_rate = none;
    next_funding_time = next_funding_time;
    timestamp = timestamp;
  })

-- the handler of `_funding_handler`
unfoldable pub on_ticker : Symbol → TickerMessage → LiveSource → Handled
on_ticker symbol message l =
    if has_no_rate message.rate
    then record { calls = []; raised = false; source = l }
    else elim (to_funding message) [
      | none ↦ record { calls = []; raised = true; source = l }
      | some f ↦ record {
        calls = dispatch l (subscribers symbol l.funding_subs) (funding f);
        raised = false;
        source = l;
      }
    ]
