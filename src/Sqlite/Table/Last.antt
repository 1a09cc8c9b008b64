-- ===== src/Sqlite/Table/Last.antt =====
-- The last row by a time and the row number, of the rows of one key, is the newest entry of the key.
use claude_trade_teams.Base.{
  ℕ, ◌≤◌, ◌≡◌, refl, ap, ◌∙◌, ◌==◌, ltb, if◌then◌else◌, Option, none, some, List, [], ◌∷◌, keep,
  get_last?, arith, Bool-cases, inl, inr, true, false,
}
use claude_trade_teams.Sqlite.Table.Sort.{put, by_time, Rises, Rises-by_time}
use claude_trade_teams.Sqlite.Table.Latest.{newer, newest}

pub keep-true : {A : Type 0} (xs : List A) → keep (λ x. true) xs ≡ xs
keep-true [] = refl
keep-true (x ∷ xs) = ap (λ rest. x ∷ rest) (keep-true xs)

module _ {A : Type 0} (time : A → ℕ) where
  -- the entry put in, or the last one of the others if its time is not earlier
  abbrev latter : A → Option A → A
  latter x none = x
  latter x (some w) = if ltb (time w) (time x) then x else w

  last-cons_put :
      (x y : A) (ys : List A) → get_last? (y ∷ put time x ys) ≡ get_last? (put time x ys)
  last-cons_put x y [] = refl
  last-cons_put x y (z ∷ zs) = elim (Bool-cases (ltb (time z) (time x))) [
    | inl e ↦ rw e refl
    | inr e ↦ rw e refl
  ]

  last_le :
      (t : ℕ) (y : A) (ys : List A)
      → Rises time t (y ∷ ys)
      → (w : A) × (get_last? (y ∷ ys) ≡ some w) × (t ≤ time w)
  last_le t y [] h = (y, refl, h.0)
  last_le t y (z ∷ zs) h =
      let (w, e, g) = last_le (time y) z zs h.1 in (w, e, ground (arith, h.0, g))

  last-put :
      (t : ℕ) (x : A) (ys : List A)
      → Rises time t ys
      → get_last? (put time x ys) ≡ some (latter x (get_last? ys))
  last-put t x [] h = refl
  last-put t x (y ∷ []) h = elim (Bool-cases (ltb (time y) (time x))) [
    | inl e ↦ rw e refl
    | inr e ↦ rw e refl
  ]
  last-put t x (y ∷ (z ∷ zs)) h = elim (Bool-cases (ltb (time y) (time x))) [
    | inl e ↦ rw e (last-cons_put x y (z ∷ zs) ∙ last-put (time y) x (z ∷ zs) h.1)
    | inr e ↦ let (w, f, g) = last_le (time y) z zs h.1 in rw e (rw f (ground (arith, e, g)))
  ]

  module _ (key : A → ℕ) (k : ℕ) (x : A) where
    picked : (o : Option A) → (key x == k) ≡ true → some (latter x o) ≡ newer time key k x o
    picked none e = rw e refl
    picked (some w) e = elim (Bool-cases (ltb (time w) (time x))) [
      | inl g ↦ rw (e, g) refl
      | inr g ↦ rw (e, g) refl
    ]

    passed : (o : Option A) → (key x == k) ≡ false → o ≡ newer time key k x o
    passed none e = rw e refl
    passed (some w) e = rw e refl

  pub last-by_time :
      (key : A → ℕ) (k : ℕ) (xs : List A)
      → get_last? (by_time time (keep (λ x. key x == k) xs)) ≡ newest time key k xs
  last-by_time key k [] = refl
  last-by_time key k (x ∷ xs) =
      let rest = keep (λ y. key y == k) xs in
      elim (Bool-cases (key x == k)) [
        | inl e ↦ rw e (
            last-put 0 x (by_time time rest) (Rises-by_time time rest)
            ∙ ap (λ o. some (latter x o)) (last-by_time key k xs)
            ∙ picked key k x (newest time key k xs) e)
        | inr e ↦ rw (e, last-by_time key k xs) (passed key k x (newest time key k xs) e)
      ]
