-- ===== src/Pms.antt =====
-- src/trading/pms/default.py: the cache of positions and balance, refreshed from the venue. An
-- answer of the venue is an argument: `none` where the call raises.
pub mod Restart
use claude_trade_teams.Base.{
  ◌≡◌, ◌==◌, refl, ap, Bool, true, false, if◌then◌else◌, Option, none, some, List, [], ◌∷◌, ◌++◌,
  arith,
}
use claude_trade_teams.Base.Dict.{Dict, lookup, values, collect}
use claude_trade_teams.Domain.{Symbol, Position, Balance}
use claude_trade_teams.Journal.AccountLog.{
  AccountJournal, write_position_snapshot, write_balance_snapshot, read_latest_balance,
  read_all_latest_positions,
}

pub record Pms : Type 0 where
  pub positions : Dict Position
  pub balance : Option Balance
  pub journal : Option AccountJournal

abbrev pub new : Option AccountJournal → Pms
new journal = record { positions = []; balance = none; journal = journal }

-- `{p.symbol: p for p in positions}`
abbrev pub by_symbol : List Position → Dict Position
by_symbol positions = collect (λ p. p.symbol) [] positions

-- `start`
unfoldable pub start : Pms → Pms
start s = elim s.journal [
  | none ↦ s
  | some j ↦ record s {
    balance = read_latest_balance j;
    positions = by_symbol (read_all_latest_positions j);
  }
]

-- `positions`
abbrev pub get_positions : Pms → List Position
get_positions s = values s.positions

-- `position`
abbrev pub get_position : Symbol → Pms → Option Position
get_position symbol s = lookup symbol s.positions

-- `balance`, which asks the venue once, if it has none
unfoldable pub get_balance : Option Balance → Pms → Option Balance × Pms
get_balance answer s = elim s.balance [
  | none ↦ elim answer [ none ↦ (none, s) | some b ↦ (some b, record s { balance = some b }) ]
  | some b ↦ (some b, s)
]

-- the loop of `reconcile` over the snapshots
unfoldable pub write_positions : List Position → AccountJournal → AccountJournal
write_positions [] j = j
write_positions (p ∷ positions) j = write_positions positions (write_position_snapshot p j)

-- the last lines of `reconcile`
unfoldable pub persist : List Position → Balance → Option AccountJournal → Option AccountJournal
persist positions balance none = none
persist positions balance (some j) =
    some (write_balance_snapshot balance (write_positions positions j))

-- `reconcile`, and whether it returns
unfoldable pub reconcile : Option (List Position) → Option Balance → Pms → Bool × Pms
reconcile positions balance s = elim positions [
  | none ↦ (false, s)
  | some ps ↦ elim balance [
    | none ↦ (false, record s { positions = by_symbol ps })
    | some b ↦ (
      true,
      record {
        positions = by_symbol ps;
        balance = some b;
        journal = persist (values (by_symbol ps)) b s.journal;
      },
    )
  ]
]
