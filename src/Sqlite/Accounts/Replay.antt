-- ===== src/Sqlite/Accounts/Replay.antt =====
-- What a `SQLiteAccountJournal` on a file holds after any writes and restarts, by what an in-memory
-- journal would hold after the same writes.
use claude_trade_teams.Base.{◌≡◌, refl, true, false, Option, some, List, [], ◌∷◌, ◌>>=◌}
use claude_trade_teams.Domain.{Position, Balance}
use claude_trade_teams.Journal.AccountLog
use claude_trade_teams.Journal.AccountLog.{AccountJournal, empty_journal}
use claude_trade_teams.Sqlite.Table.{insert_row}
use claude_trade_teams.Sqlite.Table.Transfer.{Holds, insert_row-Holds}
use claude_trade_teams.Sqlite.Accounts.{
  AccountStore, new, start, stop, position_to_row, balance_to_row, write_position_snapshot,
  write_balance_snapshot,
}

-- What is done to a journal while it is connected to a file.
pub data Op : Type 0 where
  position : Position → Op
  balance : Balance → Op
  restart : Op

unfoldable pub run : List Op → AccountStore → Option AccountStore
run [] s = some s
run (position x ∷ ops) s = write_position_snapshot x s >>= run ops
run (balance x ∷ ops) s = write_balance_snapshot x s >>= run ops
run (restart ∷ ops) s = run ops (start (stop s))

-- the in-memory journal after the same writes
unfoldable pub log : List Op → AccountJournal → AccountJournal
log [] j = j
log (position x ∷ ops) j = log ops (AccountLog.write_position_snapshot x j)
log (balance x ∷ ops) j = log ops (AccountLog.write_balance_snapshot x j)
log (restart ∷ ops) j = log ops j

-- The file holds the records of the journal, in their order, and is connected.
pub record Stores (s : AccountStore) (j : AccountJournal) : Type 0 where
  pub on_file : s.in_memory ≡ false
  pub connected : s.connected ≡ true
  pub positions : Holds position_to_row s.database.position_snapshots j.positions
  pub balances : Holds balance_to_row s.database.balance_snapshots j.balances

pub start-Stores : Stores (start (new false)) empty_journal
start-Stores = record {
  on_file = refl;
  connected = refl;
  positions = (refl, refl);
  balances = (refl, refl);
}

write_position_snapshot-Stores :
    (x : Position) (s : AccountStore) (j : AccountJournal)
    → Stores s j
    → (s' : AccountStore) × (write_position_snapshot x s ≡ some s')
      × Stores s' (AccountLog.write_position_snapshot x j)
unfolding write_position_snapshot
write_position_snapshot-Stores x s j h =
    let d = record s.database {
      position_snapshots = insert_row (position_to_row x) s.database.position_snapshots;
    } in
    (
      record s { database = d },
      rw h.connected refl,
      record {
        on_file = h.on_file;
        connected = h.connected;
        positions =
            insert_row-Holds position_to_row x s.database.position_snapshots j.positions
              h.positions;
        balances = h.balances;
      },
    )

write_balance_snapshot-Stores :
    (x : Balance) (s : AccountStore) (j : AccountJournal)
    → Stores s j
    → (s' : AccountStore) × (write_balance_snapshot x s ≡ some s')
      × Stores s' (AccountLog.write_balance_snapshot x j)
unfolding write_balance_snapshot
write_balance_snapshot-Stores x s j h =
    let d = record s.database {
      balance_snapshots = insert_row (balance_to_row x) s.database.balance_snapshots;
    } in
    (
      record s { database = d },
      rw h.connected refl,
      record {
        on_file = h.on_file;
        connected = h.connected;
        positions = h.positions;
        balances =
            insert_row-Holds balance_to_row x s.database.balance_snapshots j.balances h.balances;
      },
    )

restart-Stores : (s : AccountStore) (j : AccountJournal) → Stores s j → Stores (start (stop s)) j
restart-Stores s j h = record {
  on_file = h.on_file;
  connected = refl;
  positions = rw h.on_file h.positions;
  balances = rw h.on_file h.balances;
}

pub run-Stores :
    (ops : List Op) (s : AccountStore) (j : AccountJournal)
    → Stores s j
    → (s' : AccountStore) × (run ops s ≡ some s') × Stores s' (log ops j)
unfolding run log
run-Stores [] s j h = (s, refl, h)
run-Stores (position x ∷ ops) s j h =
    let (s1, e, h1) = write_position_snapshot-Stores x s j h in
    let (s', e', h') = run-Stores ops s1 (AccountLog.write_position_snapshot x j) h1 in
    (s', rw e e', h')
run-Stores (balance x ∷ ops) s j h =
    let (s1, e, h1) = write_balance_snapshot-Stores x s j h in
    let (s', e', h') = run-Stores ops s1 (AccountLog.write_balance_snapshot x j) h1 in
    (s', rw e e', h')
run-Stores (restart ∷ ops) s j h = run-Stores ops (start (stop s)) j (restart-Stores s j h)
