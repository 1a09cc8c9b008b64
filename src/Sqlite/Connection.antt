-- ===== src/Sqlite/Connection.antt =====
-- What the four SQLite classes of src/trading/persistence have in common: a connection that is open
-- between `start` and `stop`, and a database that outlives it unless its path is `:memory:`.
use claude_trade_teams.Base.{Bool, true, false, if◌then◌else◌, Option, none, some}

-- `database` is the class's own tables; no other class writes to them.
pub record Store (D : Type 0) : Type 0 where
  pub in_memory : Bool
  pub connected : Bool
  pub database : D

module _ {D : Type 0} where
  abbrev pub new : Bool → D → Store D
  new in_memory empty = record { in_memory = in_memory; connected = false; database = empty }

  -- `connect` and `CREATE TABLE IF NOT EXISTS`: a file keeps its rows, and each connection to
  -- `:memory:` has a database of its own.
  abbrev pub start : D → Store D → Store D
  start empty s = record s {
    connected = true;
    database = if s.in_memory then empty else s.database;
  }

  abbrev pub stop : Store D → Store D
  stop s = record s { connected = false }

  -- a statement that reads; without a connection it raises
  abbrev pub query : {A : Type 0} → (D → Option A) → Store D → Option A
  query f s = if s.connected then f s.database else none

  -- a statement that writes
  abbrev pub execute : (D → D) → Store D → Option (Store D)
  execute f s = if s.connected then some (record s { database = f s.database }) else none
