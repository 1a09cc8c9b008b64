-- ===== src/Journal/AccountLog.antt =====
-- src/trading/persistence/account_journal/in_memory.py: snapshots of positions and balances.
use claude_trade_teams.Base.{
  ◌==◌, ltb, leb, ◌&&◌, if◌then◌else◌, Option, none, some, List, [], ◌∷◌, ◌++◌, keep, get_last?,
}
use claude_trade_teams.Base.Dict.{Dict, lookup, insert, values}
use claude_trade_teams.Domain.{Symbol, Time, Position, Balance}

pub record AccountJournal : Type 0 where
  pub positions : List Position
  pub balances : List Balance

abbrev pub empty_journal : AccountJournal
empty_journal = record { positions = []; balances = [] }

-- `write_position_snapshot`
abbrev pub write_position_snapshot : Position → AccountJournal → AccountJournal
write_position_snapshot position j = record j { positions = j.positions ++ position ∷ [] }

-- `write_balance_snapshot`
abbrev pub write_balance_snapshot : Balance → AccountJournal → AccountJournal
write_balance_snapshot balance j = record j { balances = j.balances ++ balance ∷ [] }

-- `read_latest_position`: the last snapshot of the symbol, found from the end
unfoldable pub read_latest_position : Symbol → AccountJournal → Option Position
read_latest_position symbol j = get_last? (keep (λ p. p.symbol == symbol) j.positions)

-- `read_latest_balance`
unfoldable pub read_latest_balance : AccountJournal → Option Balance
read_latest_balance j = get_last? j.balances

-- one round of the loop of `read_all_latest_positions`
unfoldable pub note_position : Position → Dict Position → Dict Position
note_position p d = elim (lookup p.symbol d) [
  | none ↦ insert p.symbol p d
  | some existing ↦ if ltb existing.updated_at p.updated_at then insert p.symbol p d else d
]

unfoldable pub latest_per_symbol : Dict Position → List Position → Dict Position
latest_per_symbol d [] = d
latest_per_symbol d (p ∷ ps) = latest_per_symbol (note_position p d) ps

-- `read_all_latest_positions`
unfoldable pub read_all_latest_positions : AccountJournal → List Position
read_all_latest_positions j = values (latest_per_symbol [] j.positions)

-- `read_position_history`
unfoldable pub read_position_history : Symbol → Time → AccountJournal → List Position
read_position_history symbol since j =
    keep (λ p. p.symbol == symbol && leb since p.updated_at) j.positions
