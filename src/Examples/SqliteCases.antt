-- ===== src/Examples/SqliteCases.antt =====
-- The theorems on the SQLite classes of src/trading/persistence at concrete inputs.
use claude_trade_teams.Base.{ℕ, suc, ◌≡◌, arith, refl, false, none, some, List, [], ◌∷◌, ◌>>=◌, map}
use claude_trade_teams.Base.Decimal.{whole, pos}
use claude_trade_teams.Base.Dict.{lookup, collect}
use claude_trade_teams.Domain.{Symbol, OrderId, Order, OrderStatus, Position, VenueEvent}
use claude_trade_teams.Journal.OrderLog
use claude_trade_teams.Journal.OrderLog.{in_memory, empty_journal}
use claude_trade_teams.Journal.AccountLog
use claude_trade_teams.Journal.Restore.{passing}
use claude_trade_teams.Oms.Cache.{new, deliver, on_fill, on_order_update}
use claude_trade_teams.Oms.Submit.{Venue, placed, submitted_order, record_submission, submit}
use claude_trade_teams.Sqlite.Table.Sort.{by_time}
use claude_trade_teams.Sqlite.Table.Latest.{later, IsTimely}
use claude_trade_teams.Sqlite.Orders.{read_open_orders, read_order_history, read_fills_since}
use claude_trade_teams.Sqlite.Orders.Replay.{Op, log}
use claude_trade_teams.Sqlite.Orders.Answers.{
  is_wanted, newest_order, journal_after, run-read_order_history, run-read_open_orders-agrees,
}
use claude_trade_teams.Sqlite.Orders.Restart.{reported, read_open_orders-submit}
use claude_trade_teams.Sqlite.Accounts.{
  read_latest_position, read_latest_balance, read_all_latest_positions,
}
use claude_trade_teams.Sqlite.Accounts.Replay
use claude_trade_teams.Sqlite.Accounts.Answers
use claude_trade_teams.Sqlite.Accounts.Answers.{newest_position, newest_balance, run-read_latest}
use claude_trade_teams.Examples.Data.{market_order, a_fill, an_intent, a_position, balance_of}

-- an order that is filled, and the journal restarted in between
abbrev writes : List Op
writes =
    Op.order market_order
    ∷ Op.fill a_fill
    ∷ Op.restart
    ∷ Op.order (record market_order { status = OrderStatus.filled })
    ∷ []

run-read_order_history_example :
    ((journal_after writes >>= read_order_history 1)
      ≡ some
          (by_time (λ x. x.updated_at) (OrderLog.read_order_history 1 (log writes empty_journal))))
    × ((journal_after writes >>= read_fills_since 0)
        ≡ some
            (by_time (λ x. x.timestamp) (OrderLog.read_fills_since 0 (log writes empty_journal))))
run-read_order_history_example = run-read_order_history writes 1 0

writes-IsTimely : IsTimely (λ o. o.updated_at) (λ o. o.order_id) (log writes empty_journal).orders
unfolding log
writes-IsTimely = ((λ e. omega arith, tt), (tt, tt))

run-read_open_orders-agrees_example :
    (xs : List Order) × ((journal_after writes >>= read_open_orders none) ≡ some xs)
    × ((oid : OrderId)
        → lookup oid (collect (λ o. o.order_id) [] xs)
          ≡ lookup oid (
              collect
                (λ o. o.order_id)
                []
                (OrderLog.read_open_orders none (log writes empty_journal))))
run-read_open_orders-agrees_example = run-read_open_orders-agrees writes none writes-IsTimely

-- a venue that fills every order at once
abbrev prompt : Venue ℕ
prompt = record {
  place_order = λ request n.
      (placed 1, VenueEvent.order_update market_order ∷ VenueEvent.fill a_fill ∷ [], suc n);
  cancel_order = λ oid n. (some false, [], n);
}

abbrev records : List Op
records = map Op.order (submit whole prompt 1 50 an_intent (new empty_journal, 0)).1.journal.orders

read_open_orders-submit_example :
    (xs : List Order) × ((journal_after records >>= read_open_orders none) ≡ some xs)
    × (lookup 1 (collect (λ o. o.order_id) [] xs)
        ≡ passing
            (λ o. o.order_id)
            (is_wanted none)
            (some (
              later
                (λ o. o.updated_at)
                (λ o. o.order_id)
                (submitted_order 1 1 50 an_intent)
                (newest_order 1
                  (reported whole prompt 1 50 an_intent
                    (new empty_journal)
                    0
                    1
                    refl).journal.orders))))
unfolding submit record_submission log deliver on_fill on_order_update
read_open_orders-submit_example =
    read_open_orders-submit whole prompt 1 50 an_intent (new empty_journal) 0 1 refl records refl

abbrev snapshots : List Replay.Op
snapshots =
    Replay.Op.position a_position
    ∷ Replay.Op.balance (balance_of 5)
    ∷ Replay.Op.restart
    ∷ Replay.Op.position (record a_position { quantity = pos 1; updated_at = 200 })
    ∷ []

run-read_latest_example :
    ((symbol : Symbol)
      → (Answers.journal_after snapshots >>= read_latest_position symbol)
        ≡ some (newest_position symbol (Replay.log snapshots AccountLog.empty_journal).positions))
    × ((ps : List Position) × ((Answers.journal_after snapshots >>= read_all_latest_positions)
          ≡ some ps)
        × ((symbol : Symbol)
            → lookup symbol (collect (λ p. p.symbol) [] ps)
              ≡ newest_position symbol (Replay.log snapshots AccountLog.empty_journal).positions))
    × ((Answers.journal_after snapshots >>= read_latest_balance)
        ≡ some (newest_balance (Replay.log snapshots AccountLog.empty_journal).balances))
run-read_latest_example = run-read_latest snapshots
