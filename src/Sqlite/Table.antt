-- ===== src/Sqlite/Table.antt =====
-- What the statements of the SQLite journals (src/trading/persistence) do with a table: an insert
-- that numbers its rows, a filter, an order by a time and the row number, and a window function.
pub mod Transfer
pub mod Sort
pub mod Latest
pub mod Last
pub mod Answers
use claude_trade_teams.Base.{
  ℕ, suc, ◌==◌, ltb, Bool, not, ◌&&◌, ◌||◌, if◌then◌else◌, Option, none, some, List, [], ◌∷◌, ◌++◌,
  map, keep, length, get_last?,
}

pub record Row (E : Type 0) : Type 0 where
  pub id : ℕ
  pub entry : E

-- `id INTEGER PRIMARY KEY AUTOINCREMENT`: no statement deletes a row, so the ids run from 1.
pub record Table (E : Type 0) : Type 0 where
  pub next_id : ℕ
  pub rows : List (Row E)

module _ {E : Type 0} where
  abbrev pub empty_table : Table E
  empty_table = record { next_id = 1; rows = [] }

  -- `INSERT INTO … VALUES …`
  abbrev pub insert_row : E → Table E → Table E
  insert_row e t = record {
    next_id = suc t.next_id;
    rows = t.rows ++ record { id = t.next_id; entry = e } ∷ [];
  }

  -- `SELECT … WHERE …`
  abbrev pub where_entry : (E → Bool) → List (Row E) → List (Row E)
  where_entry p rows = keep (λ r. p r.entry) rows

  -- the columns that the program reads
  abbrev pub entries : List (Row E) → List E
  entries rows = map (λ r. r.entry) rows

  module _ (before : E → E → Bool) where
    -- the order by a time and then by the id
    unfoldable pub row_ltb : Row E → Row E → Bool
    row_ltb r s = before r.entry s.entry || (not (before s.entry r.entry) && ltb r.id s.id)

    unfoldable pub put_row : Row E → List (Row E) → List (Row E)
    put_row r [] = r ∷ []
    put_row r (s ∷ rows) = if row_ltb s r then s ∷ put_row r rows else r ∷ s ∷ rows

    -- `ORDER BY … ASC, id ASC`
    unfoldable pub order_by : List (Row E) → List (Row E)
    order_by [] = []
    order_by (r ∷ rows) = put_row r (order_by rows)

    -- `ORDER BY … DESC, id DESC LIMIT 1`
    abbrev pub last_row : List (Row E) → Option (Row E)
    last_row rows = get_last? (order_by rows)

    -- `ROW_NUMBER() OVER (PARTITION BY key ORDER BY … DESC, id DESC)`
    abbrev pub row_number : (E → ℕ) → List (Row E) → Row E → ℕ
    row_number key rows r =
        suc (length (keep (λ s. key s.entry == key r.entry && row_ltb r s) rows))

    -- the rows of which `rn = 1`
    unfoldable pub latest_rows : (E → ℕ) → List (Row E) → List (Row E)
    latest_rows key rows = keep (λ r. row_number key rows r == 1) rows

-- `[decode(row) for row in rows]`, where a `decode` may raise
abbrev pub decode_all : {E A : Type 0} → (E → Option A) → List E → Option (List A)
decode_all decode [] = some []
decode_all decode (e ∷ es) = elim (decode e) [
  | none ↦ none
  | some a ↦ elim (decode_all decode es) [ none ↦ none | some rest ↦ some (a ∷ rest) ]
]

-- `decode(row) if row is not None else None`
abbrev pub decode_row : {E A : Type 0} → (E → Option A) → Option (Row E) → Option (Option A)
decode_row decode none = some none
decode_row decode (some row) = elim (decode row.entry) [ none ↦ none | some a ↦ some (some a) ]
