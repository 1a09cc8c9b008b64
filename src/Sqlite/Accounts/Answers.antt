-- ===== src/Sqlite/Accounts/Answers.antt =====
-- What `SQLiteAccountJournal` answers after any writes and restarts on a file
-- (src/trading/persistence/account_journal/sqlite.py).
use claude_trade_teams.Base.{
  ◌≡◌, refl, ap, sym, ◌∙◌, ◌==◌, leb, Bool, true, false, not, ◌&&◌, Option, none, some, List, [],
  ◌>>=◌, arith,
}
use claude_trade_teams.Base.Dict.{lookup, collect}
use claude_trade_teams.Domain.{Symbol, Time, Position, Balance}
use claude_trade_teams.Journal.AccountLog
use claude_trade_teams.Journal.AccountLog.{AccountJournal, empty_journal}
use claude_trade_teams.Journal.Restore.{passing}
use claude_trade_teams.Sqlite.Iso.{iso_ltb, isoformat}
use claude_trade_teams.Sqlite.Iso.Order.{iso_ltb-isoformat}
use claude_trade_teams.Sqlite.Table.{entries, last_row, latest_rows, decode_all, decode_row}
use claude_trade_teams.Sqlite.Table.Answers.{order_by_lem, last_row_lem, latest_answer}
use claude_trade_teams.Sqlite.Table.Sort.{by_time}
use claude_trade_teams.Sqlite.Table.Latest.{newest}
use claude_trade_teams.Sqlite.Table.Last.{last-by_time, keep-true}
use claude_trade_teams.Sqlite.Accounts.{
  BalanceRow, AccountStore, new, start, position_to_row, balance_to_row, row_to_position,
  row_to_balance, position_before, read_latest_position, read_latest_balance,
  read_all_latest_positions, read_position_history,
}
use claude_trade_teams.Sqlite.Accounts.Rows.{
  row_to_position-position_to_row, row_to_balance-balance_to_row,
}
use claude_trade_teams.Sqlite.Accounts.Replay.{Op, run, log, Stores, run-Stores, start-Stores}

-- The newest snapshot of a symbol, by its update, and of the same update the one written last.
abbrev pub newest_position : Symbol → List Position → Option Position
newest_position = newest (λ p. p.updated_at) (λ p. p.symbol)

-- The newest balance, in the same order; all balances have one key.
abbrev pub newest_balance : List Balance → Option Balance
newest_balance = newest (λ b. b.updated_at) (λ b. 0) 0

passing-true : (o : Option Position) → passing (λ p. p.symbol) (λ p. true) o ≡ o
passing-true none = refl
passing-true (some p) = refl

module _ (s : AccountStore) (j : AccountJournal) (h : Stores s j) where
  read_latest_position_lem :
      (symbol : Symbol) → read_latest_position symbol s ≡ some (newest_position symbol j.positions)
  unfolding read_latest_position position_to_row
  read_latest_position_lem symbol = rw h.connected (
      last_row_lem position_to_row row_to_position (λ p. p.updated_at) position_before
        row_to_position-position_to_row (λ a b. iso_ltb-isoformat a.updated_at b.updated_at)
        (λ row. row.symbol == symbol) (λ p. p.symbol == symbol) (λ p. refl)
        s.database.position_snapshots j.positions h.positions
      ∙ ap some (last-by_time (λ p. p.updated_at) (λ p. p.symbol) symbol j.positions))

  read_latest_balance_lem : read_latest_balance s ≡ some (newest_balance j.balances)
  unfolding read_latest_balance balance_to_row
  read_latest_balance_lem =
      let before : BalanceRow → BalanceRow → Bool = λ a b. iso_ltb a.updated_at b.updated_at in
      rw h.connected (
        ap (λ rows. decode_row row_to_balance (last_row before rows))
          (sym (keep-true s.database.balance_snapshots.rows))
        ∙ last_row_lem balance_to_row row_to_balance (λ b. b.updated_at) before
            row_to_balance-balance_to_row (λ a b. iso_ltb-isoformat a.updated_at b.updated_at)
            (λ row. true) (λ b. true) (λ b. refl) s.database.balance_snapshots j.balances h.balances
        ∙ ap some (last-by_time (λ b. b.updated_at) (λ b. 0) 0 j.balances))

  read_all_latest_positions_lem :
      (ps : List Position) × (read_all_latest_positions s ≡ some ps)
      × ((symbol : Symbol)
          → lookup symbol (collect (λ p. p.symbol) [] ps) ≡ newest_position symbol j.positions)
  unfolding read_all_latest_positions position_to_row
  read_all_latest_positions_lem =
      let (ps, e, g) =
        latest_answer position_to_row row_to_position (λ p. p.updated_at) position_before
          row_to_position-position_to_row (λ a b. iso_ltb-isoformat a.updated_at b.updated_at)
          (λ row. true) (λ p. true) (λ p. refl) s.database.position_snapshots j.positions
          h.positions (λ row. row.symbol) (λ p. p.symbol) (λ p. refl) in
      (
        ps,
        rw h.connected (
            ap (λ rows. decode_all row_to_position (entries rows))
              (sym (
                keep-true (
                  latest_rows position_before (λ row. row.symbol)
                    s.database.position_snapshots.rows)))
            ∙ e),
        λ symbol. g symbol ∙ passing-true (newest_position symbol j.positions),
      )

  read_position_history_lem :
      (symbol : Symbol) (since : Time)
      → read_position_history symbol since s
        ≡ some (by_time (λ p. p.updated_at) (AccountLog.read_position_history symbol since j))
  unfolding read_position_history AccountLog.read_position_history position_to_row
  read_position_history_lem symbol since = rw h.connected (
      order_by_lem position_to_row row_to_position (λ p. p.updated_at) position_before
        row_to_position-position_to_row (λ a b. iso_ltb-isoformat a.updated_at b.updated_at)
        (λ row. row.symbol == symbol && not (iso_ltb row.updated_at (isoformat since)))
        (λ p. p.symbol == symbol && leb since p.updated_at)
        (λ p.
          ap (λ b. p.symbol == symbol && not b) (iso_ltb-isoformat p.updated_at since)
          ∙ ground arith)
        s.database.position_snapshots j.positions h.positions)

-- the journal on a file, started, with these writes and restarts done
abbrev pub journal_after : List Op → Option AccountStore
journal_after ops = run ops (start (new false))

-- Whatever is written to a journal on a file, and however often it is restarted in between, the
-- latest position of a symbol is its newest snapshot by the update, and of the same update the one
-- written last; the latest positions of all symbols hold just that under each symbol, and the latest
-- balance is the newest one in the same sense.
pub run-read_latest :
    (ops : List Op)
    → ((symbol : Symbol)
        → (journal_after ops >>= read_latest_position symbol)
          ≡ some (newest_position symbol (log ops empty_journal).positions))
      × ((ps : List Position) × ((journal_after ops >>= read_all_latest_positions) ≡ some ps)
          × ((symbol : Symbol)
              → lookup symbol (collect (λ p. p.symbol) [] ps)
                ≡ newest_position symbol (log ops empty_journal).positions))
      × ((journal_after ops >>= read_latest_balance)
          ≡ some (newest_balance (log ops empty_journal).balances))
run-read_latest ops =
    let j = log ops empty_journal in
    let (s, e, h) = run-Stores ops (start (new false)) empty_journal start-Stores in
    let (ps, f, g) = read_all_latest_positions_lem s j h in
    (
      λ symbol. rw e (read_latest_position_lem s j h symbol),
      (ps, rw e f, g),
      rw e (read_latest_balance_lem s j h),
    )

-- The history of a symbol since a time is that of the in-memory journal, sorted by the update.
pub run-read_position_history :
    (ops : List Op) (symbol : Symbol) (since : Time)
    → (journal_after ops >>= read_position_history symbol since)
      ≡ some (
          by_time
            (λ p. p.updated_at)
            (AccountLog.read_position_history symbol since (log ops empty_journal)))
run-read_position_history ops symbol since =
    let (s, e, h) = run-Stores ops (start (new false)) empty_journal start-Stores in
    rw e (read_position_history_lem s (log ops empty_journal) h symbol since)
