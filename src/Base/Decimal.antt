-- ===== src/Base/Decimal.antt =====
-- Python's `Decimal`, as an integer count of one small unit, and the decimal context.
use Prim.Native.Nat.{ℕ, suc, ◌+◌, ◌-◌, ◌*◌, ◌/◌, ◌≤◌}
use mathlib.Core.Path.{◌≡◌, ◌∙◌, ap, sym}
use mathlib.Core.Bool.{Bool, true, false}
use mathlib.Core.Logic.{◌⊎◌}
use native.Mathlib.Omega.{arith}
use claude_trade_teams.Base.Tests.{ltb, leb, ◌==◌, if◌then◌else◌}

-- `negsuc n` is -(n + 1).
pub data ℤ : Type 0 where
  pos : ℕ → ℤ
  negsuc : ℕ → ℤ

-- A value whose exact decimal expansion ends no later than the chosen unit.
abbrev pub Decimal : Type 0
Decimal = ℤ

abbrev pub pos_part : ℤ → ℕ
pos_part (pos n) = n
pos_part (negsuc _) = 0

abbrev pub neg_part : ℤ → ℕ
neg_part (pos _) = 0
neg_part (negsuc n) = suc n

-- a - b, as an integer.
abbrev pub sub_ℕ : ℕ → ℕ → ℤ
sub_ℕ a b = if leb b a then pos (a - b) else negsuc (b - a - 1)

infixl 65 ◌+ℤ◌ ◌-ℤ◌
infixl 70 ◌*ℤ◌
infix 50 ◌≤ℤ◌ ◌<ℤ◌
unfoldable pub ◌+ℤ◌ : ℤ → ℤ → ℤ
a +ℤ b = sub_ℕ (pos_part a + pos_part b) (neg_part a + neg_part b)

unfoldable pub ◌-ℤ◌ : ℤ → ℤ → ℤ
a -ℤ b = sub_ℕ (pos_part a + neg_part b) (neg_part a + pos_part b)

unfoldable pub ◌*ℤ◌ : ℤ → ℤ → ℤ
a *ℤ b =
    sub_ℕ (pos_part a * pos_part b + neg_part a * neg_part b)
      (pos_part a * neg_part b + neg_part a * pos_part b)

abbrev pub ◌≤ℤ◌ : ℤ → ℤ → Type 0
a ≤ℤ b = pos_part a + neg_part b ≤ pos_part b + neg_part a

abbrev pub ◌<ℤ◌ : ℤ → ℤ → Type 0
a <ℤ b = suc (pos_part a + neg_part b) ≤ pos_part b + neg_part a

abbrev pub ltb_ℤ : ℤ → ℤ → Bool
ltb_ℤ a b = ltb (pos_part a + neg_part b) (pos_part b + neg_part a)

abbrev pub leb_ℤ : ℤ → ℤ → Bool
leb_ℤ a b = leb (pos_part a + neg_part b) (pos_part b + neg_part a)

abbrev pub eqb_ℤ : ℤ → ℤ → Bool
eqb_ℤ a b = pos_part a + neg_part b == pos_part b + neg_part a

-- `abs(a)`
abbrev pub abs : ℤ → ℤ
abs (pos n) = pos n
abs (negsuc n) = pos (suc n)

-- `-a`
unfoldable pub neg : ℤ → ℤ
neg a = sub_ℕ (neg_part a) (pos_part a)

-- the quotient rounded towards 0, of two integers
unfoldable pub over_ℤ : ℤ → ℤ → ℤ
unfolding neg
over_ℤ (pos a) (pos b) = pos (a / b)
over_ℤ (pos a) (negsuc b) = neg (pos (a / suc b))
over_ℤ (negsuc a) (pos b) = neg (pos (suc a / b))
over_ℤ (negsuc a) (negsuc b) = pos (suc a / suc b)

-- `min(a, b)`, which is `a` where they are equal
unfoldable pub min_ℤ : ℤ → ℤ → ℤ
min_ℤ a b = if ltb_ℤ b a then b else a

-- With one lemma for each operation `omega` works while the operations stay shut.
pub +ℤ_parts :
    (a b : ℤ)
    → pos_part (a +ℤ b) + neg_part a + neg_part b ≡ neg_part (a +ℤ b) + pos_part a + pos_part b
unfolding ◌+ℤ◌
+ℤ_parts a b = ground arith

pub -ℤ_parts :
    (a b : ℤ)
    → pos_part (a -ℤ b) + neg_part a + pos_part b ≡ neg_part (a -ℤ b) + pos_part a + neg_part b
unfolding ◌-ℤ◌
-ℤ_parts a b = ground arith

pub neg_parts : (a : ℤ) → pos_part (neg a) + pos_part a ≡ neg_part (neg a) + neg_part a
unfolding neg
neg_parts a = ground arith

pub abs_parts : (a : ℤ) → pos 0 ≤ℤ abs a
abs_parts (pos n) = omega arith
abs_parts (negsuc n) = omega arith

pub eq_of_parts : (a b : ℤ) → pos_part a + neg_part b ≡ pos_part b + neg_part a → a ≡ b
eq_of_parts a b h = ground arith

-- an equation of integers in the form that `omega` reads
pub parts_of_eq : (a b : ℤ) → a ≡ b → pos_part a + neg_part b ≡ pos_part b + neg_part a
parts_of_eq a b h = ground arith

pub eqb_ℤ_sound : (a b : ℤ) → eqb_ℤ a b ≡ true → a ≡ b
eqb_ℤ_sound a b h = ground arith

pub min_ℤ-le_left : (a b : ℤ) → min_ℤ a b ≤ℤ a
unfolding min_ℤ
min_ℤ-le_left a b = ground arith

pub min_ℤ-le_right : (a b : ℤ) → min_ℤ a b ≤ℤ b
unfolding min_ℤ
min_ℤ-le_right a b = ground arith

pub le→leb_ℤ : (a b : ℤ) → a ≤ℤ b → leb_ℤ a b ≡ true
le→leb_ℤ a b h = ground arith

pub lt→leb_ℤ : (a b : ℤ) → b <ℤ a → leb_ℤ a b ≡ false
lt→leb_ℤ a b h = ground arith

pub le_or_lt : (a b : ℤ) → (a ≤ℤ b) ⊎ (b <ℤ a)
le_or_lt a b = grind arith

pub min_ℤ-cases : (a b : ℤ) → ((min_ℤ a b ≡ a) × (a ≤ℤ b)) ⊎ ((min_ℤ a b ≡ b) × (b ≤ℤ a))
unfolding min_ℤ
min_ℤ-cases a b = ground arith

-- the smaller of two numbers is the lower bound that one of them meets
pub min_ℤ-unique : (a b z : ℤ) → z ≤ℤ a → z ≤ℤ b → (a ≤ℤ z) ⊎ (b ≤ℤ z) → min_ℤ a b ≡ z
unfolding min_ℤ
min_ℤ-unique a b z h k l = ground arith

pub ruleset int_laws = (arith, +ℤ_parts, -ℤ_parts, neg_parts, eq_of_parts)

-- The decimal context: `Decimal("1")` as a count of units, and the two operations that round.
pub record Context : Type 0 where
  pub unit : ℕ
  pub times : Decimal → Decimal → Decimal
  pub over : Decimal → Decimal → Decimal

-- `Decimal(n)` and the value of the integer literal `n` among decimals
abbrev pub number : Context → ℕ → Decimal
number c n = pos (n * c.unit)

-- No product is rounded: the precision of the context covers every product at hand.
pub record IsExact (c : Context) : Type 0 where
  pub sub_times : (x y z : Decimal) → c.times (x -ℤ y) z ≡ c.times x z -ℤ c.times y z
  pub times_sub : (x y z : Decimal) → c.times x (y -ℤ z) ≡ c.times x y -ℤ c.times x z
  pub times_comm : (x y : Decimal) → c.times x y ≡ c.times y x

module _ {c : Context} (e : IsExact c) where
  pub add_times : (x y z : Decimal) → c.times (x +ℤ y) z ≡ c.times x z +ℤ c.times y z
  add_times x y z =
      let back : x +ℤ y -ℤ y ≡ x = omega int_laws in
      let split : c.times x z ≡ c.times (x +ℤ y) z -ℤ c.times y z =
        ap (λ t. c.times t z) (sym back) ∙ e.sub_times (x +ℤ y) y z in
      rw split (omega int_laws)

  pub zero_times : (z : Decimal) → c.times (pos 0) z ≡ pos 0
  zero_times z =
      let none_left : pos 0 ≡ pos 0 -ℤ pos 0 = omega int_laws in
      ap (λ t. c.times t z) none_left ∙ e.sub_times (pos 0) (pos 0) z ∙ omega int_laws

-- A product grows with its right factor where the left one is not negative.
pub record IsMonotone (c : Context) : Type 0 where
  pub times_mono : (q x y : Decimal) → pos 0 ≤ℤ q → x ≤ℤ y → c.times q x ≤ℤ c.times q y

pub *ℤ_parts :
    (a b : ℤ)
    → pos_part (a *ℤ b) + (pos_part a * neg_part b + neg_part a * pos_part b)
      ≡ neg_part (a *ℤ b) + (pos_part a * pos_part b + neg_part a * neg_part b)
unfolding ◌*ℤ◌
*ℤ_parts a b = ground arith

-- The decimals that are whole numbers: the unit is 1, and no product of them is rounded.
abbrev pub whole : Context
whole = record { unit = 1; times = ◌*ℤ◌; over = over_ℤ }

pub sub_*ℤ : (x y z : ℤ) → (x -ℤ y) *ℤ z ≡ x *ℤ z -ℤ y *ℤ z
sub_*ℤ x y z = omega (
  int_laws,
  *ℤ_parts,
  ap (λ (t : ℕ). t * pos_part z) (-ℤ_parts x y),
  ap (λ (t : ℕ). t * neg_part z) (-ℤ_parts x y),
)

pub *ℤ_sub : (x y z : ℤ) → x *ℤ (y -ℤ z) ≡ x *ℤ y -ℤ x *ℤ z
*ℤ_sub x y z = omega (
  int_laws,
  *ℤ_parts,
  ap (λ (t : ℕ). t * pos_part x) (-ℤ_parts y z),
  ap (λ (t : ℕ). t * neg_part x) (-ℤ_parts y z),
)

pub *ℤ_comm : (x y : ℤ) → x *ℤ y ≡ y *ℤ x
*ℤ_comm x y = omega (int_laws, *ℤ_parts)

pub whole-IsExact : IsExact whole
whole-IsExact = record { sub_times = sub_*ℤ; times_sub = *ℤ_sub; times_comm = *ℤ_comm }

mul_mono : (n a b : ℕ) → a ≤ b → n * a ≤ n * b
mul_mono n a b h = grind arith

pub *ℤ_mono : (q x y : ℤ) → pos 0 ≤ℤ q → x ≤ℤ y → q *ℤ x ≤ℤ q *ℤ y
*ℤ_mono (pos n) x y h k = omega (int_laws, *ℤ_parts, mul_mono n _ _ k)
*ℤ_mono (negsuc n) x y h k = absurd (omega arith)

pub whole-IsMonotone : IsMonotone whole
whole-IsMonotone = record { times_mono = *ℤ_mono }
