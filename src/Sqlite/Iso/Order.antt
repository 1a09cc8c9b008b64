-- ===== src/Sqlite/Iso/Order.antt =====
-- ISO texts in UTC read back as they were and are ordered as the times are, though the fraction of a
-- second is left out where it is zero.
use Prim.Native.Nat.{◌/◌, ◌%◌}
use claude_trade_teams.Base.{
  ℕ, zero, suc, ◌+◌, ◌-◌, ◌*◌, ◌<◌, ◌≡◌, refl, ◌∙◌, ◌==◌, ltb, ◌&&◌, ◌||◌, some, List, ◌∷◌, arith,
  Bool-cases, inl, inr,
}
use claude_trade_teams.Domain.{Time}
use claude_trade_teams.Sqlite.Iso.{
  pow10, digits, utc, fraction, isoformat, read_digits, read_fraction, fromisoformat, codes_ltb,
  iso_ltb,
}

-- Numbers written with as many digits are ordered as the texts are.
codes_ltb-digits :
    (k a b : ℕ) (as' bs : List ℕ)
    → a < pow10 k
    → b < pow10 k
    → codes_ltb (digits k a as') (digits k b bs) ≡ (ltb a b || (a == b && codes_ltb as' bs))
unfolding digits
codes_ltb-digits zero a b as' bs h k = ground arith
codes_ltb-digits (suc k) a b as' bs h g =
    codes_ltb-digits k (a / 10) (b / 10) _ _ (omega arith) (omega arith) ∙ ground arith

fraction-ltb : (a b : ℕ) → a < 1000000 → b < 1000000 → codes_ltb (fraction a) (fraction b) ≡ ltb a b
unfolding fraction
fraction-ltb a b h g = ground (arith, codes_ltb-digits 6 a b utc utc h g)

-- SQLite orders the texts of two times as the times are.
pub iso_ltb-isoformat : (a b : Time) → iso_ltb (isoformat a) (isoformat b) ≡ ltb a b
unfolding iso_ltb isoformat
iso_ltb-isoformat a b =
    ground (arith, fraction-ltb (a % 1000000) (b % 1000000) (omega arith) (omega arith))

one_more :
    (j n : ℕ) (cs : List ℕ)
    → read_digits (suc j) (n / 10) ((n % 10 + b'0') ∷ cs) ≡ read_digits j n cs
unfolding read_digits
one_more j n cs =
    let back : 10 * (n / 10) + (n % 10 + b'0' - b'0') ≡ n = omega arith in
    let range : n % 10 < 10 = omega arith in rw back (ground (arith, range))

-- What the digits of a number write is read back.
read_digits-digits :
    (k i j n : ℕ) (cs : List ℕ)
    → i ≡ k + j
    → n < pow10 k
    → read_digits i 0 (digits k n cs) ≡ read_digits j n cs
unfolding digits
read_digits-digits zero i j n cs e h =
    let z : n ≡ 0 = omega arith in let same : i ≡ j = omega arith in rw (z, same)
read_digits-digits (suc k) i j n cs e h =
    read_digits-digits k i (suc j) (n / 10) ((n % 10 + b'0') ∷ cs) (omega arith) (omega arith)
    ∙ one_more j n cs

read_fraction-fraction : (n : ℕ) → n < 1000000 → read_fraction (fraction n) ≡ some n
unfolding fraction read_fraction read_digits
read_fraction-fraction n h = elim (Bool-cases (n == 0)) [
  | inl z ↦ rw z (ground arith)
  | inr w ↦ rw (w, read_digits-digits 6 6 0 n utc refl h) refl
]

-- A text reads back as the time that it was written for.
pub fromisoformat-isoformat : (t : Time) → fromisoformat (isoformat t) ≡ some t
unfolding fromisoformat isoformat
fromisoformat-isoformat t =
    rw (fromisoformat, isoformat, read_fraction-fraction (t % 1000000) (omega arith)) (ground arith)
