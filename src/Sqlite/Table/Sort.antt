-- ===== src/Sqlite/Table/Sort.antt =====
-- `ORDER BY` a time and the row number is a sort that is stable: what is written later stands later
-- among equal times.
use claude_trade_teams.Base.{
  ℕ, suc, ◌≤◌, ◌≡◌, refl, ap, ◌∙◌, ◌==◌, ltb, Bool, if◌then◌else◌, List, [], ◌∷◌, keep, arith,
  Bool-cases, inl, inr, All,
}
use claude_trade_teams.Sqlite.Table.{Row, entries, put_row, order_by, row_ltb, where_entry}
use claude_trade_teams.Sqlite.Table.Transfer.{numbered}

-- The ids rise from row to row, from at least a number on.
abbrev pub Ascends : {E : Type 0} → ℕ → List (Row E) → Type 0
Ascends n [] = Unit {0}
Ascends n (r ∷ rows) = (n ≤ r.id) × Ascends (suc r.id) rows

pub numbered-Ascends : {E : Type 0} (n : ℕ) (es : List E) → Ascends n (numbered n es)
numbered-Ascends n [] = tt
numbered-Ascends n (e ∷ es) = (omega arith, numbered-Ascends (suc n) es)

-- All ids are at least a number.
abbrev pub IsAbove : {E : Type 0} → ℕ → List (Row E) → Type 0
IsAbove n rows = All (λ r. n ≤ r.id) rows

weaker : {E : Type 0} (m n : ℕ) (rows : List (Row E)) → m ≤ n → Ascends n rows → Ascends m rows
weaker m n [] h a = tt
weaker m n (r ∷ rows) h a = (omega arith, a.1)

pub Ascends-IsAbove : {E : Type 0} (n : ℕ) (rows : List (Row E)) → Ascends n rows → IsAbove n rows
Ascends-IsAbove n [] a = tt
Ascends-IsAbove n (r ∷ rows) a =
    (a.0, Ascends-IsAbove n rows (weaker n (suc r.id) rows (omega arith) a.1))

pub where_entry-Ascends :
    {E : Type 0} (p : E → Bool) (n : ℕ) (rows : List (Row E))
    → Ascends n rows
    → Ascends n (where_entry p rows)
where_entry-Ascends p n [] a = tt
where_entry-Ascends p n (r ∷ rows) a = elim (Bool-cases (p r.entry)) [
  | inl e ↦ rw e (a.0, where_entry-Ascends p (suc r.id) rows a.1)
  | inr e ↦ rw e (where_entry-Ascends p n rows (weaker n (suc r.id) rows (omega arith) a.1))
]

module _ {A : Type 0} (time : A → ℕ) where
  -- one entry put at its place among sorted ones, before those of the same time
  abbrev pub put : A → List A → List A
  put x [] = x ∷ []
  put x (y ∷ ys) = if ltb (time y) (time x) then y ∷ put x ys else x ∷ y ∷ ys

  -- The entries by their time; those of the same time keep their order.
  abbrev pub by_time : List A → List A
  by_time [] = []
  by_time (x ∷ xs) = put x (by_time xs)

  abbrev pub earlier : A → A → Bool
  earlier a b = ltb (time a) (time b)

  put_row-IsAbove :
      (n : ℕ) (r : Row A) (rows : List (Row A))
      → n ≤ r.id
      → IsAbove n rows
      → IsAbove n (put_row earlier r rows)
  unfolding put_row
  put_row-IsAbove n r [] h a = (h, tt)
  put_row-IsAbove n r (s ∷ rows) h a = elim (Bool-cases (row_ltb earlier s r)) [
    | inl e ↦ rw e (a.0, put_row-IsAbove n r rows h a.1)
    | inr e ↦ rw e (h, a)
  ]

  order_by-IsAbove :
      (n : ℕ) (rows : List (Row A)) → IsAbove n rows → IsAbove n (order_by earlier rows)
  unfolding order_by
  order_by-IsAbove n [] a = tt
  order_by-IsAbove n (r ∷ rows) a =
      put_row-IsAbove n r (order_by earlier rows) a.0 (order_by-IsAbove n rows a.1)

  -- a row with a smaller id than the others goes before those of its time
  entries-put_row :
      (r : Row A) (rows : List (Row A))
      → IsAbove (suc r.id) rows
      → entries (put_row earlier r rows) ≡ put r.entry (entries rows)
  unfolding put_row row_ltb
  entries-put_row r [] a = refl
  entries-put_row r (s ∷ rows) a = elim (Bool-cases (ltb (time s.entry) (time r.entry))) [
    | inl e ↦ rw (put_row, row_ltb, e, entries-put_row r rows a.1) refl
    | inr e ↦ rw e (ground (arith, a.0, e))
  ]

  -- What a statement reads in the order of a time and of the ids is sorted by the time.
  pub entries-order_by :
      (n : ℕ) (rows : List (Row A))
      → Ascends n rows
      → entries (order_by earlier rows) ≡ by_time (entries rows)
  unfolding order_by
  entries-order_by n [] a = refl
  entries-order_by n (r ∷ rows) a =
      entries-put_row r (order_by earlier rows)
        (order_by-IsAbove (suc r.id) rows (Ascends-IsAbove (suc r.id) rows a.1))
      ∙ ap (put r.entry) (entries-order_by (suc r.id) rows a.1)

  -- The times do not fall from entry to entry, and are at least a number.
  abbrev pub Rises : ℕ → List A → Type 0
  Rises t [] = Unit {0}
  Rises t (x ∷ xs) = (t ≤ time x) × Rises (time x) xs

  put_first : (x : A) (xs : List A) → Rises (time x) xs → put x xs ≡ x ∷ xs
  put_first x [] h = refl
  put_first x (y ∷ ys) h = ground (arith, h.0)

  -- What is written in the order of its times is sorted.
  pub by_time-Rises : (t : ℕ) (xs : List A) → Rises t xs → by_time xs ≡ xs
  by_time-Rises t [] h = refl
  by_time-Rises t (x ∷ xs) h = ap (put x) (by_time-Rises (time x) xs h.1) ∙ put_first x xs h.1

  put-Rises : (t : ℕ) (x : A) (xs : List A) → t ≤ time x → Rises t xs → Rises t (put x xs)
  put-Rises t x [] h a = (h, tt)
  put-Rises t x (y ∷ ys) h a = elim (Bool-cases (ltb (time y) (time x))) [
    | inl e ↦ rw e (a.0, put-Rises (time y) x ys (ground (arith, e)) a.1)
    | inr e ↦ rw e (h, (ground (arith, e), a.1))
  ]

  pub Rises-by_time : (xs : List A) → Rises 0 (by_time xs)
  Rises-by_time [] = tt
  Rises-by_time (x ∷ xs) = put-Rises 0 x (by_time xs) (omega arith) (Rises-by_time xs)

  keep-put :
      (t : ℕ) (x : A) (xs : List A)
      → keep (λ y. time y == t) (put x xs) ≡ keep (λ y. time y == t) (x ∷ xs)
  keep-put t x [] = refl
  keep-put t x (y ∷ ys) = ground (arith, keep-put t x ys)

  -- A sort keeps the entries of each time, in their order.
  pub keep-by_time :
      (t : ℕ) (xs : List A) → keep (λ y. time y == t) (by_time xs) ≡ keep (λ y. time y == t) xs
  keep-by_time t [] = refl
  keep-by_time t (x ∷ xs) = keep-put t x (by_time xs) ∙ ground (arith, keep-by_time t xs)
