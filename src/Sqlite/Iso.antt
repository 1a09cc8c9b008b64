-- ===== src/Sqlite/Iso.antt =====
-- `datetime.isoformat` and `datetime.fromisoformat` for the UTC times of the journals
-- (src/trading/persistence), and the order in which SQLite compares such texts.
pub mod Order
use Prim.Native.Nat.{◌/◌, ◌%◌}
use claude_trade_teams.Base.{
  ℕ, zero, suc, ◌+◌, ◌-◌, ◌*◌, ◌==◌, leb, ltb, Bool, true, false, ◌&&◌, ◌||◌, if◌then◌else◌, Option,
  none, some, List, [], ◌∷◌, ◌++◌,
}
use claude_trade_teams.Domain.{Time}

-- A text such as `2024-01-31T09:30:00.250000+00:00`. The date and the time of day stand first, with
-- fixed width and the largest unit first, so that they are one number, their count of seconds;
-- `rest` holds the code points behind them.
pub record IsoText : Type 0 where
  pub second : ℕ
  pub rest : List ℕ

abbrev pub pow10 : ℕ → ℕ
pow10 zero = 1
pow10 (suc k) = 10 * pow10 k

-- the last `k` decimal digits of `n`, before `after`
unfoldable pub digits : ℕ → ℕ → List ℕ → List ℕ
digits zero n after = after
digits (suc k) n after = digits k (n / 10) ((n % 10 + b'0') ∷ after)

-- `+00:00`
abbrev pub utc : List ℕ
utc = b'+' ∷ b'0' ∷ b'0' ∷ b':' ∷ b'0' ∷ b'0' ∷ []

-- `.ffffff`, which is left out where it would be `.000000`
unfoldable pub fraction : ℕ → List ℕ
fraction micros = if micros == 0 then utc else b'.' ∷ digits 6 micros utc

-- `isoformat`
unfoldable pub isoformat : Time → IsoText
unfolding fraction
isoformat t = record { second = t / 1000000; rest = fraction (t % 1000000) }

abbrev is_digit : ℕ → Bool
is_digit c = leb b'0' c && leb c b'9'

-- `k` digits, to the number that they write behind `n`, and what follows them
unfoldable pub read_digits : ℕ → ℕ → List ℕ → Option (ℕ × List ℕ)
read_digits zero n cs = some (n, cs)
read_digits (suc k) n [] = none
read_digits (suc k) n (c ∷ cs) =
    let more = read_digits k (10 * n + (c - b'0')) cs in if is_digit c then more else none

abbrev pub same_codes : List ℕ → List ℕ → Bool
same_codes [] [] = true
same_codes [] (_ ∷ _) = false
same_codes (_ ∷ _) [] = false
same_codes (a ∷ as') (b ∷ bs) = a == b && same_codes as' bs

-- `fromisoformat`, for the texts in UTC; `none` where it raises
unfoldable pub read_fraction : List ℕ → Option ℕ
read_fraction [] = none
read_fraction (c ∷ cs) =
    if c == b'.'
    then (elim (read_digits 6 0 cs) [
      | none ↦ none
      | some (micros, after) ↦ if same_codes after utc then some micros else none
    ])
    else if same_codes (c ∷ cs) utc
    then some 0
    else none

unfoldable pub fromisoformat : IsoText → Option Time
unfolding read_fraction
fromisoformat text = elim (read_fraction text.rest) [
  | none ↦ none
  | some micros ↦ some (text.second * 1000000 + micros)
]

-- `a < b` and `a <= b` of two code sequences, by the first place where they differ
abbrev pub codes_ltb : List ℕ → List ℕ → Bool
codes_ltb [] [] = false
codes_ltb [] (_ ∷ _) = true
codes_ltb (_ ∷ _) [] = false
codes_ltb (a ∷ as') (b ∷ bs) = ltb a b || (a == b && codes_ltb as' bs)

-- SQLite's `a < b` on two such texts; the order of the dates decides first
unfoldable pub iso_ltb : IsoText → IsoText → Bool
iso_ltb a b = ltb a.second b.second || (a.second == b.second && codes_ltb a.rest b.rest)
