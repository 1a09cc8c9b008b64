-- ===== src/Sqlite/Table/Latest.antt =====
-- The window function keeps for each key the row that is last by its time, and among equal times the
-- row that was written last.
use claude_trade_teams.Base.{
  ℕ, suc, ◌≤◌, ◌<◌, ◌≡◌, refl, ap, ◌∙◌, ◌==◌, ltb, Bool, true, false, not, ◌&&◌, if◌then◌else◌,
  Option, none, some, List, [], ◌∷◌, ◌++◌, keep, arith, Bool-cases, Option-cases, inl, inr, All,
}
use claude_trade_teams.Base.Dict.{Dict, lookup, insert, collect, lookup-insert}
use claude_trade_teams.Journal.Restore.{passing, or_else, or_else-none}
use claude_trade_teams.Sqlite.Table.{Row, entries, row_ltb, row_number, latest_rows, where_entry}
use claude_trade_teams.Sqlite.Table.Transfer.{keep-ext}
use claude_trade_teams.Sqlite.Table.Sort.{Ascends, IsAbove, Ascends-IsAbove, earlier}

module _ {A : Type 0} (time : A → ℕ) (key : A → ℕ) where
  -- The last entry of a key, by its time: a later one in the list counts as later where the times
  -- are equal.
  abbrev pub newer : ℕ → A → Option A → Option A
  newer k x none = if key x == k then some x else none
  newer k x (some y) = if key x == k && ltb (time y) (time x) then some x else some y

  abbrev pub newest : ℕ → List A → Option A
  newest k [] = none
  newest k (x ∷ xs) = newer k x (newest k xs)

  abbrev before : Row A → Row A → Bool
  before = row_ltb (earlier time)

  -- no row of the same key comes after this one
  abbrev is_last : List (Row A) → Row A → Bool
  is_last [] r = true
  is_last (s ∷ rows) r = not (key s.entry == key r.entry && before r s) && is_last rows r

  is_last_lem :
      (rows : List (Row A)) (r : Row A)
      → (row_number (earlier time) key rows r == 1) ≡ is_last rows r
  is_last_lem [] r = refl
  is_last_lem (s ∷ rows) r = elim (Bool-cases (key s.entry == key r.entry && before r s)) [
    | inl e ↦ rw e (ground arith)
    | inr e ↦ rw e (is_last_lem rows r)
  ]

  key-newest : (k : ℕ) (xs : List A) (w : A) → newest k xs ≡ some w → key w ≡ k
  key-newest k [] w h = ground (arith, h)
  key-newest k (x ∷ xs) w h = elim (Option-cases (newest k xs)) [
    | inl e ↦ ground (arith, e, h)
    | inr (y, e) ↦ ground (arith, e, h, key-newest k xs y e)
  ]

  -- An entry that is earlier, if there is one.
  abbrev Loses : Option A → ℕ → Type 0
  Loses none t = Unit {0}
  Loses (some w) t = time w < t

  -- A row that is later than all others of its key is last.
  is_last-true :
      (k : ℕ) (r : Row A) (rows : List (Row A))
      → key r.entry ≡ k
      → Loses (newest k (entries rows)) (time r.entry)
      → is_last rows r ≡ true
  unfolding row_ltb
  is_last-true k r [] e h = refl
  is_last-true k r (s ∷ rows) e h = elim (Option-cases (newest k (entries rows))) [
    | inl n ↦ ground (arith, n, h, is_last-true k r rows e (rw n tt))
    | inr (w, n) ↦
        ground (arith, n, h, (λ (l : time w < time r.entry). is_last-true k r rows e (rw n l)))
  ]

  is_last-false :
      (k : ℕ) (r : Row A) (rows : List (Row A)) (w : A)
      → key r.entry ≡ k
      → IsAbove (suc r.id) rows
      → newest k (entries rows) ≡ some w
      → time r.entry ≤ time w
      → is_last rows r ≡ false
  unfolding row_ltb
  is_last-false k r [] w e a n h = ground (arith, n)
  is_last-false k r (s ∷ rows) w e a n h = elim (Option-cases (newest k (entries rows))) [
    | inl m ↦ ground (arith, m, n, a.0)
    | inr (v, m) ↦ ground (arith, m, n, a.0, is_last-false k r rows v e a.1 m)
  ]

  -- Among later rows, those that a row comes before have an earlier time.
  abbrev beats : A → A → Bool
  beats x y = key x == key y && ltb (time y) (time x)

  keep-is_last :
      (p : A → Bool) (x : Row A) (all rows : List (Row A))
      → IsAbove (suc x.id) rows
      → keep (λ r. p r.entry && is_last (x ∷ all) r) rows
        ≡ keep (λ r. (p r.entry && not (beats x.entry r.entry)) && is_last all r) rows
  unfolding row_ltb
  keep-is_last p x all [] a = refl
  keep-is_last p x all (r ∷ rows) a =
      let same : (p r.entry && is_last (x ∷ all) r)
          ≡ ((p r.entry && not (beats x.entry r.entry)) && is_last all r) =
        ground (arith, a.0) in
      rw (same, keep-is_last p x all rows a.1) refl

  decided :
      (k : ℕ) (p : A → Bool) (x : Row A) (rows : List (Row A)) (old : Option A)
      → IsAbove (suc x.id) rows
      → or_else key
          (passing key (λ y. p y && not (beats x.entry y)) (newest k (entries rows)))
          (if ((p x.entry && is_last rows x) && k == key x.entry) then some x.entry else old)
        ≡ or_else key (passing key p (newer k x.entry (newest k (entries rows)))) old
  decided k p x rows old a = elim (Option-cases (newest k (entries rows))) [
    | inl n ↦ rw n (ground (arith, is_last-true k x rows, n))
    | inr (w, n) ↦ rw n (
        ground (
          arith,
          key-newest k (entries rows) w n,
          is_last-true k x rows,
          is_last-false k x rows w,
          n,
        ))
  ]

  is_last_self : (x : Row A) (rows : List (Row A)) → is_last (x ∷ rows) x ≡ is_last rows x
  unfolding row_ltb
  is_last_self x rows = ground arith

  keep_last :
      (k : ℕ) (p : A → Bool) (acc : Dict A) (n : ℕ) (rows : List (Row A))
      → Ascends n rows
      → lookup k (collect key acc (entries (keep (λ r. p r.entry && is_last rows r) rows)))
        ≡ or_else key (passing key p (newest k (entries rows))) (lookup k acc)
  keep_last k p acc n [] a = refl
  keep_last k p acc n (x ∷ rows) a =
      let above = Ascends-IsAbove (suc x.id) rows a.1 in
      let q : A → Bool = λ y. p y && not (beats x.entry y) in
      let d = decided k p x rows (lookup k acc) above in
      elim (Bool-cases (p x.entry && is_last rows x)) [
        | inl e ↦
            rw
              (
                is_last_self x rows,
                e,
                keep-is_last p x rows rows above,
                keep_last k q (insert (key x.entry) x.entry acc) (suc x.id) rows a.1,
                lookup-insert k (key x.entry) x.entry acc,
              )
              (rw e at d)
        | inr e ↦
            rw
              (
                is_last_self x rows,
                e,
                keep-is_last p x rows rows above,
                keep_last k q acc (suc x.id) rows a.1,
              )
              (rw e at d)
      ]

  keep-keep :
      (p : A → Bool) (q : Row A → Bool) (rows : List (Row A))
      → where_entry p (keep q rows) ≡ keep (λ r. p r.entry && q r) rows
  keep-keep p q [] = refl
  keep-keep p q (r ∷ rows) = elim (Bool-cases (q r)) [
    | inl e ↦ rw (e, keep-keep p q rows) (ground arith)
    | inr e ↦ rw (e, keep-keep p q rows) (ground arith)
  ]

  -- A statement that keeps the last row of each key, and of these the ones that pass a test, finds
  -- under each key the newest entry, if it passes.
  pub lookup-latest_rows :
      (k : ℕ) (p : A → Bool) (n : ℕ) (rows : List (Row A))
      → Ascends n rows
      → lookup k (collect key [] (entries (where_entry p (latest_rows (earlier time) key rows))))
        ≡ passing key p (newest k (entries rows))
  unfolding latest_rows
  lookup-latest_rows k p n rows a =
      ap (λ rs. lookup k (collect key [] (entries rs)))
        (keep-keep p _ rows
          ∙ keep-ext _ _ rows (λ r. ap (λ b. p r.entry && b) (is_last_lem rows r)))
      ∙ keep_last k p [] n rows a
      ∙ or_else-none key (passing key p (newest k (entries rows)))

  -- The times of one key do not fall in the order of writing.
  abbrev pub IsTimely : List A → Type 0
  IsTimely [] = Unit {0}
  IsTimely (x ∷ xs) = All (λ y. key x ≡ key y → time x ≤ time y) xs × IsTimely xs

  newest-All :
      (k : ℕ) (x : A) (xs : List A) (w : A)
      → key x ≡ k
      → All (λ y. key x ≡ key y → time x ≤ time y) xs
      → newest k xs ≡ some w
      → time x ≤ time w
  newest-All k x [] w e a n = ground (arith, n)
  newest-All k x (y ∷ ys) w e a n = elim (Option-cases (newest k ys)) [
    | inl m ↦ ground (arith, m, n, a.0)
    | inr (v, m) ↦ ground (arith, m, n, a.0, newest-All k x ys v e a.1 m)
  ]

  last-newest :
      (k : ℕ) (acc : Dict A) (xs : List A)
      → IsTimely xs
      → lookup k (collect key acc xs) ≡ or_else key (newest k xs) (lookup k acc)
  last-newest k acc [] h = refl
  last-newest k acc (x ∷ xs) h =
      last-newest k (insert (key x) x acc) xs h.1
      ∙ rw (lookup-insert k (key x) x acc) (elim (Option-cases (newest k xs)) [
        | inl n ↦ rw n (ground arith)
        | inr (w, n) ↦ rw n (ground (arith, newest-All k x xs w))
      ])

  -- Where the times of one key do not fall, the newest entry is the last one written.
  pub lookup-collect-newest :
      (k : ℕ) (xs : List A) → IsTimely xs → lookup k (collect key [] xs) ≡ newest k xs
  lookup-collect-newest k xs h = last-newest k [] xs h ∙ or_else-none key (newest k xs)

  -- Of an entry and those written before it, the later one; itself where the times are equal.
  abbrev pub later : A → Option A → A
  later x none = x
  later x (some w) = if ltb (time x) (time w) then w else x

  pub newest-append :
      (k : ℕ) (xs : List A) (x : A)
      → key x ≡ k
      → newest k (xs ++ x ∷ []) ≡ some (later x (newest k xs))
  newest-append k [] x e = ground arith
  newest-append k (y ∷ ys) x e = elim (Option-cases (newest k ys)) [
    | inl n ↦ rw (newest-append k ys x e, n) (ground arith)
    | inr (w, n) ↦ rw (newest-append k ys x e, n) (ground arith)
  ]
