-- ===== src/Market/Ladder.antt =====
-- The order of the levels in a snapshot of src/trading/market_data/live.py, and what they hold.
use claude_trade_teams.Base.{
  ℕ, ◌≡◌, refl, ap, ◌∙◌, ◌==◌, Bool, true, false, if◌then◌else◌, none, some, List, [], ◌∷◌, All,
  arith, Bool-cases, inl, inr,
}
use claude_trade_teams.Base.Decimal.{Decimal, pos, eqb_ℤ}
use claude_trade_teams.Base.Dict.{Dict, lookup, insert, erase, lookup-insert, lookup-erase}
use claude_trade_teams.Market.Book.{
  insert_sorted, sort, ascending, descending, apply_level, apply_side,
}

-- No price stands twice.
abbrev pub IsDistinct : Dict Decimal → Type 0
IsDistinct [] = Unit
IsDistinct (e ∷ d) = (lookup e.0 d ≡ none) × IsDistinct d

insert-IsDistinct :
    (k : ℕ) (v : Decimal) (d : Dict Decimal) → IsDistinct d → IsDistinct (insert k v d)
insert-IsDistinct k v [] h = (refl, tt)
insert-IsDistinct k v (e ∷ d) h = elim (Bool-cases (k == e.0)) [
  | inl t ↦ rw t (ground (arith, t, h.0), h.1)
  | inr t ↦ rw t (ground (arith, t, h.0, lookup-insert e.0 k v d), insert-IsDistinct k v d h.1)
]

erase-IsDistinct : (k : ℕ) (d : Dict Decimal) → IsDistinct d → IsDistinct (erase k d)
erase-IsDistinct k [] h = tt
erase-IsDistinct k (e ∷ d) h = elim (Bool-cases (k == e.0)) [
  | inl t ↦ rw t (erase-IsDistinct k d h.1)
  | inr t ↦ rw t (ground (arith, t, h.0, lookup-erase e.0 k d), erase-IsDistinct k d h.1)
]

pub apply_side-IsDistinct :
    (side : Dict Decimal) (levels : List (ℕ × Decimal))
    → IsDistinct side
    → IsDistinct (apply_side side levels)
unfolding apply_side apply_level
apply_side-IsDistinct side [] h = h
apply_side-IsDistinct side ((price, size) ∷ levels) h = elim (Bool-cases (eqb_ℤ size (pos 0))) [
  | inl t ↦
      rw (apply_side, apply_level, t)
        (apply_side-IsDistinct (erase price side) levels (erase-IsDistinct price side h))
  | inr t ↦
      rw (apply_side, apply_level, t)
        (apply_side-IsDistinct (insert price size side) levels
          (insert-IsDistinct price size side h))
]

cons-none :
    (k : ℕ) (e : ℕ × Decimal) (d : Dict Decimal)
    → lookup k (e ∷ d) ≡ none
    → ((k == e.0) ≡ false) × (lookup k d ≡ none)
cons-none k e d h = (ground (arith, h), ground (arith, h))

-- A strict order of the prices.
pub record IsOrder (before : ℕ → ℕ → Bool) : Type 0 where
  pub total : (a b : ℕ) → before a b ≡ false → (a == b) ≡ false → before b a ≡ true
  pub trans : (a b c : ℕ) → before a b ≡ true → before b c ≡ true → before a c ≡ true

pub ascending-IsOrder : IsOrder ascending
ascending-IsOrder = record { total = λ a b h k. ground arith; trans = λ a b c h k. ground arith }

pub descending-IsOrder : IsOrder descending
descending-IsOrder = record { total = λ a b h k. ground arith; trans = λ a b c h k. ground arith }

module _ (before : ℕ → ℕ → Bool) where
  -- Each entry comes before all that follow it.
  abbrev pub IsSorted : Dict Decimal → Type 0
  IsSorted [] = Unit
  IsSorted (e ∷ d) = All (λ x. before e.0 x.0 ≡ true) d × IsSorted d

  insert_sorted-All :
      (P : ℕ × Decimal → Type 0) (e : ℕ × Decimal) (d : Dict Decimal)
      → P e
      → All P d
      → All P (insert_sorted before e d)
  unfolding insert_sorted
  insert_sorted-All P e [] p h = (p, tt)
  insert_sorted-All P e (x ∷ d) p h = elim (Bool-cases (before e.0 x.0)) [
    | inl t ↦ rw (insert_sorted, t) (p, h)
    | inr t ↦ rw (insert_sorted, t) (h.0, insert_sorted-All P e d p h.1)
  ]

  insert_sorted-lookup :
      (j : ℕ) (e : ℕ × Decimal) (d : Dict Decimal)
      → lookup e.0 d ≡ none
      → lookup j (insert_sorted before e d) ≡ (if j == e.0 then some e.1 else lookup j d)
  unfolding insert_sorted
  insert_sorted-lookup j e [] h = refl
  insert_sorted-lookup j e (x ∷ d) h = elim (Bool-cases (before e.0 x.0)) [
    | inl t ↦ rw (insert_sorted, t) refl
    | inr t ↦
        let (other, missing) = cons-none e.0 x d h in
        rw (insert_sorted, t) (ground (arith, other, insert_sorted-lookup j e d missing))
  ]

  pub sort-lookup :
      (j : ℕ) (d : Dict Decimal) → IsDistinct d → lookup j (sort before d) ≡ lookup j d
  unfolding sort
  sort-lookup j [] h = refl
  sort-lookup j (e ∷ d) h =
      insert_sorted-lookup j e (sort before d) (sort-lookup e.0 d h.1 ∙ h.0)
      ∙ ap (λ o. if j == e.0 then some e.1 else o) (sort-lookup j d h.1)

  module _ (order : IsOrder before) where
    later :
        (e x : ℕ × Decimal) (d : Dict Decimal)
        → before e.0 x.0 ≡ true
        → All (λ y. before x.0 y.0 ≡ true) d
        → All (λ y. before e.0 y.0 ≡ true) d
    later e x [] t h = tt
    later e x (y ∷ d) t h = (order.trans e.0 x.0 y.0 t h.0, later e x d t h.1)

    insert_sorted-IsSorted :
        (e : ℕ × Decimal) (d : Dict Decimal)
        → lookup e.0 d ≡ none
        → IsSorted d
        → IsSorted (insert_sorted before e d)
    unfolding insert_sorted
    insert_sorted-IsSorted e [] m h = (tt, tt)
    insert_sorted-IsSorted e (x ∷ d) m h = elim (Bool-cases (before e.0 x.0)) [
      | inl t ↦ rw (insert_sorted, t) ((t, later e x d t h.0), h)
      | inr t ↦
          let (other, missing) = cons-none e.0 x d m in
          rw (insert_sorted, t)
            (
              insert_sorted-All (λ y. before x.0 y.0 ≡ true) e d (order.total e.0 x.0 t other) h.0,
              insert_sorted-IsSorted e d missing h.1,
            )
    ]

    pub sort-IsSorted : (d : Dict Decimal) → IsDistinct d → IsSorted (sort before d)
    unfolding sort
    sort-IsSorted [] h = tt
    sort-IsSorted (e ∷ d) h =
        insert_sorted-IsSorted e (sort before d) (sort-lookup e.0 d h.1 ∙ h.0) (sort-IsSorted d h.1)
