-- ===== src/Base/Lists.antt =====
-- Lists over the native numbers: comprehensions, membership tests, and predicates on all entries.
use Prim.Native.Nat.{ℕ, suc}
use mathlib.Core.Path.{refl, ap, ◌≡◌, sym, subst}
use mathlib.Core.Logic.{◌↔◌, inl, inr}
use mathlib.Core.Bool.{Bool, true, false, ◌||◌}
use mathlib.Core.List.{List, [], ◌∷◌, ◌++◌}
use mathlib.Core.Option.{Option, none, some}
use native.Mathlib.Omega.{arith}
use claude_trade_teams.Base.Tests.{◌==◌, if◌then◌else◌, Bool-cases, ==_sound}

module _ {ℓ} {A : Type ℓ} where
  abbrev pub length : List A → ℕ
  length [] = 0
  length (x ∷ xs) = suc (length xs)

  -- `[x for x in xs if p(x)]`
  abbrev pub keep : (A → Bool) → List A → List A
  keep p [] = []
  keep p (x ∷ xs) = let rest = keep p xs in if p x then x ∷ rest else rest

  -- `xs[-1] if xs else None`
  abbrev pub get_last? : List A → Option A
  get_last? [] = none
  get_last? (x ∷ []) = some x
  get_last? (x ∷ (y ∷ ys)) = get_last? (y ∷ ys)

  -- `xs[0] if xs else None`
  abbrev pub head? : List A → Option A
  head? [] = none
  head? (x ∷ xs) = some x

-- Every entry passes a predicate.
abbrev pub All {ℓ κ} : {A : Type ℓ} → (A → Type κ) → List A → Type κ
All P [] = Unit
All P (x ∷ xs) = P x × All P xs

-- `a in xs`, over numbers
abbrev pub contains : ℕ → List ℕ → Bool
contains a [] = false
contains a (x ∷ xs) = a == x || contains a xs

contains-All : (P : ℕ → Type 0) (xs : List ℕ) (x : ℕ) → All P xs → contains x xs ≡ true → P x
contains-All P [] x a h = ground arith
contains-All P (y ∷ xs) x a h = elim (Bool-cases (x == y)) [
  | inl e ↦ subst P (sym (==_sound x y e)) a.0
  | inr e ↦ contains-All P xs x a.1 (rw (contains, e) at h)
]

All-contains : (P : ℕ → Type 0) (xs : List ℕ) → ((x : ℕ) → contains x xs ≡ true → P x) → All P xs
All-contains P [] f = tt
All-contains P (y ∷ xs) f = (f y (ground arith), All-contains P xs (λ x h. f x (ground (arith, h))))

-- All entries of a list of numbers, by membership
pub All-iff_contains :
    (P : ℕ → Type 0) (xs : List ℕ) → All P xs ↔ ((x : ℕ) → contains x xs ≡ true → P x)
All-iff_contains P xs = (λ a x h. contains-All P xs x a h, λ f. All-contains P xs f)

-- A chain of steps that may raise
infixl 5 ◌>>=◌
abbrev pub ◌>>=◌ : {A B : Type 0} → Option A → (A → Option B) → Option B
none >>= f = none
some a >>= f = f a

pub length-snoc : {A : Type 0} (xs : List A) (x : A) → length (xs ++ x ∷ []) ≡ suc (length xs)
length-snoc [] x = refl
length-snoc (y ∷ xs) x = ap suc (length-snoc xs x)
