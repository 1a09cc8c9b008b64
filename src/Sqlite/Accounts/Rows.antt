-- ===== src/Sqlite/Accounts/Rows.antt =====
-- The rows of `SQLiteAccountJournal` read back as the snapshots that were written
-- (src/trading/persistence/account_journal/sqlite.py).
use claude_trade_teams.Base.{◌≡◌, refl, some}
use claude_trade_teams.Domain.{Position, Balance}
use claude_trade_teams.Values.{position_side_of-position_side_value}
use claude_trade_teams.Sqlite.Iso.Order.{fromisoformat-isoformat}
use claude_trade_teams.Sqlite.Accounts.{
  position_to_row, balance_to_row, row_to_position, row_to_balance,
}

-- A position reads back as it was written, in every field.
pub row_to_position-position_to_row :
    (position : Position) → row_to_position (position_to_row position) ≡ some position
unfolding row_to_position position_to_row
row_to_position-position_to_row position =
    rw
      (
        row_to_position,
        position_to_row,
        position_side_of-position_side_value position.side,
        fromisoformat-isoformat position.updated_at,
      )
      refl

-- A balance reads back as it was written, in every field.
pub row_to_balance-balance_to_row :
    (balance : Balance) → row_to_balance (balance_to_row balance) ≡ some balance
unfolding row_to_balance balance_to_row
row_to_balance-balance_to_row balance =
    rw (row_to_balance, balance_to_row, fromisoformat-isoformat balance.updated_at) refl
