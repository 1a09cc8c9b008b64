-- ===== src/Sqlite/Orders/Replay.antt =====
-- What `SQLiteOrderJournal` answers after any writes and restarts on a file, by what an in-memory
-- journal would hold after the same writes.
use claude_trade_teams.Base.{◌≡◌, refl, true, false, Option, some, List, [], ◌∷◌, ◌>>=◌}
use claude_trade_teams.Domain.{Order, Fill}
use claude_trade_teams.Journal.OrderLog
use claude_trade_teams.Journal.OrderLog.{OrderJournal, empty_journal}
use claude_trade_teams.Sqlite.Table.{insert_row}
use claude_trade_teams.Sqlite.Table.Transfer.{Holds, insert_row-Holds}
use claude_trade_teams.Sqlite.Orders.{
  OrderStore, new, start, stop, order_to_row, fill_to_row, write_order, write_fill,
}

-- What is done to a journal while it is connected to a file.
pub data Op : Type 0 where
  order : Order → Op
  fill : Fill → Op
  restart : Op

unfoldable pub run : List Op → OrderStore → Option OrderStore
run [] s = some s
run (order x ∷ ops) s = write_order x s >>= run ops
run (fill x ∷ ops) s = write_fill x s >>= run ops
run (restart ∷ ops) s = run ops (start (stop s))

-- the in-memory journal after the same writes
unfoldable pub log : List Op → OrderJournal → OrderJournal
log [] j = j
log (order x ∷ ops) j = log ops (OrderLog.write_order x j)
log (fill x ∷ ops) j = log ops (OrderLog.write_fill x j)
log (restart ∷ ops) j = log ops j

-- The file holds the records of the journal, in their order, and is connected.
pub record Stores (s : OrderStore) (j : OrderJournal) : Type 0 where
  pub on_file : s.in_memory ≡ false
  pub connected : s.connected ≡ true
  pub orders : Holds order_to_row s.database.order_events j.orders
  pub fills : Holds fill_to_row s.database.fills j.fills

pub start-Stores : Stores (start (new false)) empty_journal
start-Stores = record {
  on_file = refl;
  connected = refl;
  orders = (refl, refl);
  fills = (refl, refl);
}

pub write_order-Stores :
    (x : Order) (s : OrderStore) (j : OrderJournal)
    → Stores s j
    → (s' : OrderStore) × (write_order x s ≡ some s') × Stores s' (OrderLog.write_order x j)
unfolding write_order
write_order-Stores x s j h =
    let d = record s.database {
      order_events = insert_row (order_to_row x) s.database.order_events;
    } in
    (
      record s { database = d },
      rw h.connected refl,
      record {
        on_file = h.on_file;
        connected = h.connected;
        orders = insert_row-Holds order_to_row x s.database.order_events j.orders h.orders;
        fills = h.fills;
      },
    )

pub write_fill-Stores :
    (x : Fill) (s : OrderStore) (j : OrderJournal)
    → Stores s j
    → (s' : OrderStore) × (write_fill x s ≡ some s') × Stores s' (OrderLog.write_fill x j)
unfolding write_fill
write_fill-Stores x s j h =
    let d = record s.database { fills = insert_row (fill_to_row x) s.database.fills } in
    (
      record s { database = d },
      rw h.connected refl,
      record {
        on_file = h.on_file;
        connected = h.connected;
        orders = h.orders;
        fills = insert_row-Holds fill_to_row x s.database.fills j.fills h.fills;
      },
    )

restart-Stores : (s : OrderStore) (j : OrderJournal) → Stores s j → Stores (start (stop s)) j
restart-Stores s j h = record {
  on_file = h.on_file;
  connected = refl;
  orders = rw h.on_file h.orders;
  fills = rw h.on_file h.fills;
}

pub run-Stores :
    (ops : List Op) (s : OrderStore) (j : OrderJournal)
    → Stores s j
    → (s' : OrderStore) × (run ops s ≡ some s') × Stores s' (log ops j)
unfolding run log
run-Stores [] s j h = (s, refl, h)
run-Stores (order x ∷ ops) s j h =
    let (s1, e, h1) = write_order-Stores x s j h in
    let (s', e', h') = run-Stores ops s1 (OrderLog.write_order x j) h1 in (s', rw e e', h')
run-Stores (fill x ∷ ops) s j h =
    let (s1, e, h1) = write_fill-Stores x s j h in
    let (s', e', h') = run-Stores ops s1 (OrderLog.write_fill x j) h1 in (s', rw e e', h')
run-Stores (restart ∷ ops) s j h = run-Stores ops (start (stop s)) j (restart-Stores s j h)
