-- ===== src/Sqlite/Orders/Answers.antt =====
-- What `SQLiteOrderJournal` answers after any writes and restarts on a file, against the in-memory
-- journal of the same writes (src/trading/persistence/order_journal).
use claude_trade_teams.Base.{
  ◌≡◌, refl, ap, sym, ◌∙◌, ◌==◌, leb, Bool, true, false, not, ◌&&◌, Option, none, some, List, [],
  ◌∷◌, keep, ◌>>=◌, arith,
}
use claude_trade_teams.Base.Dict.{lookup, collect, values}
use claude_trade_teams.Domain.{Symbol, OrderId, Time, Order, is_open}
use claude_trade_teams.Journal.OrderLog
use claude_trade_teams.Journal.OrderLog.{OrderJournal, empty_journal, latest, for_symbol}
use claude_trade_teams.Journal.Restore.{passing, lookup-collect-values, collect-IsKeyed}
use claude_trade_teams.Sqlite.Iso.{iso_ltb}
use claude_trade_teams.Sqlite.Iso.Order.{iso_ltb-isoformat}
use claude_trade_teams.Sqlite.Table.Answers.{order_by_lem, latest_answer}
use claude_trade_teams.Sqlite.Table.Sort.{by_time}
use claude_trade_teams.Sqlite.Table.Latest.{newest, IsTimely, lookup-collect-newest}
use claude_trade_teams.Sqlite.Orders.{
  OrderStore, new, symbol_clause, is_in, terminal_status_values, start, order_to_row, fill_to_row,
  row_to_order, row_to_fill, read_open_orders, read_order_history, read_fills_since,
}
use claude_trade_teams.Sqlite.Orders.Rows.{
  row_to_order-order_to_row, row_to_fill-fill_to_row, is_in-terminal,
}
use claude_trade_teams.Sqlite.Orders.Replay.{Op, run, log, Stores, run-Stores, start-Stores}

-- An order that is open, and of the symbol, if there is one.
abbrev pub of_symbol : Option Symbol → Order → Bool
of_symbol none order = true
of_symbol (some symbol) order = order.symbol == symbol

abbrev pub is_wanted : Option Symbol → Order → Bool
is_wanted symbol order = is_open order.status && of_symbol symbol order

clause-of_symbol :
    (symbol : Option Symbol) (x : Order)
    → symbol_clause symbol (order_to_row x) ≡ of_symbol symbol x
unfolding order_to_row
clause-of_symbol none x = refl
clause-of_symbol (some symbol) x = refl

clauses-is_wanted :
    (symbol : Option Symbol) (x : Order)
    → (not (is_in (order_to_row x).status terminal_status_values)
        && symbol_clause symbol (order_to_row x))
      ≡ is_wanted symbol x
unfolding order_to_row
clauses-is_wanted symbol x = rw (is_in-terminal x.status, clause-of_symbol symbol x) refl

-- The newest record of an order, by its update, and of the same update the one written last.
abbrev pub newest_order : OrderId → List Order → Option Order
newest_order = newest (λ o. o.updated_at) (λ o. o.order_id)

module _ (s : OrderStore) (j : OrderJournal) (h : Stores s j) where
  read_order_history_lem :
      (oid : OrderId)
      → read_order_history oid s
        ≡ some (by_time (λ x. x.updated_at) (OrderLog.read_order_history oid j))
  unfolding read_order_history OrderLog.read_order_history order_to_row
  read_order_history_lem oid = rw h.connected (
      order_by_lem order_to_row row_to_order (λ x. x.updated_at) _ row_to_order-order_to_row
        (λ a b. iso_ltb-isoformat a.updated_at b.updated_at) _ (λ x. x.order_id == oid) (λ x. refl)
        s.database.order_events j.orders h.orders)

  read_fills_since_lem :
      (since : Time)
      → read_fills_since since s
        ≡ some (by_time (λ x. x.timestamp) (OrderLog.read_fills_since since j))
  unfolding read_fills_since OrderLog.read_fills_since fill_to_row
  read_fills_since_lem since = rw h.connected (
      order_by_lem fill_to_row row_to_fill (λ x. x.timestamp) _ row_to_fill-fill_to_row
        (λ a b. iso_ltb-isoformat a.timestamp b.timestamp) _ (λ x. leb since x.timestamp)
        (λ x. ap not (iso_ltb-isoformat x.timestamp since) ∙ ground arith) s.database.fills j.fills
        h.fills)

  pub read_open_orders_lem :
      (symbol : Option Symbol)
      → (xs : List Order) × (read_open_orders symbol s ≡ some xs)
        × ((oid : OrderId)
            → lookup oid (collect (λ o. o.order_id) [] xs)
              ≡ passing (λ o. o.order_id) (is_wanted symbol) (newest_order oid j.orders))
  unfolding read_open_orders order_to_row
  read_open_orders_lem symbol =
      let (xs, e, g) =
        latest_answer order_to_row row_to_order (λ x. x.updated_at)
          (λ a b. iso_ltb a.updated_at b.updated_at) row_to_order-order_to_row
          (λ a b. iso_ltb-isoformat a.updated_at b.updated_at)
          (λ row. not (is_in row.status terminal_status_values) && symbol_clause symbol row)
          (is_wanted symbol) (clauses-is_wanted symbol) s.database.order_events j.orders h.orders
          (λ row. row.order_id) (λ x. x.order_id) (λ x. refl) in
      (xs, rw h.connected e, g)

for_symbol-keep :
    (symbol : Option Symbol) (xs : List Order)
    → for_symbol symbol (keep (λ o. is_open o.status) xs) ≡ keep (is_wanted symbol) xs
for_symbol-keep none [] = refl
for_symbol-keep (some symbol) [] = refl
for_symbol-keep none (x ∷ xs) = ground (arith, for_symbol-keep none xs)
for_symbol-keep (some symbol) (x ∷ xs) = ground (arith, for_symbol-keep (some symbol) xs)

-- The in-memory journal answers the last record of each order, if it is wanted.
in_memory_lem :
    (symbol : Option Symbol) (j : OrderJournal) (oid : OrderId)
    → lookup oid (collect (λ o. o.order_id) [] (OrderLog.read_open_orders symbol j))
      ≡ passing (λ o. o.order_id) (is_wanted symbol) (lookup oid (latest j.orders))
unfolding OrderLog.read_open_orders
in_memory_lem symbol j oid =
    ap (λ xs. lookup oid (collect (λ o. o.order_id) [] xs))
      (for_symbol-keep symbol (values (latest j.orders)))
    ∙ lookup-collect-values (λ o. o.order_id) (is_wanted symbol) oid (latest j.orders)
        (collect-IsKeyed (λ o. o.order_id) [] j.orders tt)

-- the journal on a file, started, with these writes and restarts done
abbrev pub journal_after : List Op → Option OrderStore
journal_after ops = run ops (start (new false))

-- Whatever is written to a journal on a file, and however often it is restarted in between, it
-- answers the records of an order as they were written, sorted by their update, and the fills since
-- a time as they were written, sorted by theirs; what was written later stands later where the times
-- are equal.
pub run-read_order_history :
    (ops : List Op) (oid : OrderId) (since : Time)
    → ((journal_after ops >>= read_order_history oid)
        ≡ some
            (by_time (λ x. x.updated_at) (OrderLog.read_order_history oid (log ops empty_journal))))
      × ((journal_after ops >>= read_fills_since since)
          ≡ some (
              by_time (λ x. x.timestamp) (OrderLog.read_fills_since since (log ops empty_journal))))
run-read_order_history ops oid since =
    let (s, e, h) = run-Stores ops (start (new false)) empty_journal start-Stores in
    (
      rw e (read_order_history_lem s (log ops empty_journal) h oid),
      rw e (read_fills_since_lem s (log ops empty_journal) h since),
    )

-- Whatever is written to a journal on a file, and however often it is restarted in between, the open
-- orders that it answers are, under each id, the newest record of the order by its update, and of
-- the same update the one written last, where this is open and of the symbol asked for.
pub run-read_open_orders :
    (ops : List Op) (symbol : Option Symbol)
    → (xs : List Order) × ((journal_after ops >>= read_open_orders symbol) ≡ some xs)
      × ((oid : OrderId)
          → lookup oid (collect (λ o. o.order_id) [] xs)
            ≡ passing
                (λ o. o.order_id)
                (is_wanted symbol)
                (newest_order oid (log ops empty_journal).orders))
run-read_open_orders ops symbol =
    let (s, e, h) = run-Stores ops (start (new false)) empty_journal start-Stores in
    let (xs, f, g) = read_open_orders_lem s (log ops empty_journal) h symbol in (xs, rw e f, g)

-- Where the updates of each order are written in the order of their times, a journal on a file and
-- the in-memory journal answer the same open orders under each id.
pub run-read_open_orders-agrees :
    (ops : List Op) (symbol : Option Symbol)
    → IsTimely (λ o. o.updated_at) (λ o. o.order_id) (log ops empty_journal).orders
    → (xs : List Order) × ((journal_after ops >>= read_open_orders symbol) ≡ some xs)
      × ((oid : OrderId)
          → lookup oid (collect (λ o. o.order_id) [] xs)
            ≡ lookup oid (
                collect
                  (λ o. o.order_id)
                  []
                  (OrderLog.read_open_orders symbol (log ops empty_journal))))
run-read_open_orders-agrees ops symbol timely =
    let (xs, e, g) = run-read_open_orders ops symbol in
    let j = log ops empty_journal in
    let same = λ (oid : OrderId).
      lookup-collect-newest (λ o. o.updated_at) (λ o. o.order_id) oid j.orders timely in
    (
      xs,
      e,
      λ oid.
          g oid
          ∙ ap (passing (λ o. o.order_id) (is_wanted symbol)) (sym (same oid))
          ∙ sym (in_memory_lem symbol j oid),
    )
