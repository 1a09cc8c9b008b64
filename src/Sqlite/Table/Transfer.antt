-- ===== src/Sqlite/Table/Transfer.antt =====
-- A table of encoded entries is filtered and ordered as the entries themselves are.
use claude_trade_teams.Base.{
  ℕ, suc, ◌+◌, ◌≡◌, refl, sym, ap, ◌∙◌, ◌==◌, Bool, ◌&&◌, Option, some, List, [], ◌∷◌, ◌++◌, map,
  keep, length, length-snoc, arith, Bool-cases, inl, inr,
}
use claude_trade_teams.Sqlite.Table.{
  Row, Table, insert_row, where_entry, entries, put_row, order_by, row_ltb, row_number, latest_rows,
  decode_all,
}

pub keep-ext :
    {A : Type 0} (p q : A → Bool) (xs : List A) → ((x : A) → p x ≡ q x) → keep p xs ≡ keep q xs
keep-ext p q [] h = refl
keep-ext p q (x ∷ xs) h = rw (h x, keep-ext p q xs h) refl

keep-map :
    {A B : Type 0} (p : B → Bool) (f : A → B) (xs : List A)
    → keep p (map f xs) ≡ map f (keep (λ x. p (f x)) xs)
keep-map p f [] = refl
keep-map p f (x ∷ xs) = elim (Bool-cases (p (f x))) [
  | inl e ↦ rw (e, keep-map p f xs) refl
  | inr e ↦ rw (e, keep-map p f xs) refl
]

length-map : {A B : Type 0} (f : A → B) (xs : List A) → length (map f xs) ≡ length xs
length-map f [] = refl
length-map f (x ∷ xs) = ap suc (length-map f xs)

-- Rows with ids that count up from a number.
abbrev pub numbered : {E : Type 0} → ℕ → List E → List (Row E)
numbered n [] = []
numbered n (e ∷ es) = record { id = n; entry = e } ∷ numbered (suc n) es

pub entries-numbered : {E : Type 0} (n : ℕ) (es : List E) → entries (numbered n es) ≡ es
entries-numbered n [] = refl
entries-numbered n (e ∷ es) = ap (λ rest. e ∷ rest) (entries-numbered (suc n) es)

pub entries-where_entry :
    {E : Type 0} (p : E → Bool) (rows : List (Row E))
    → entries (where_entry p rows) ≡ keep p (entries rows)
entries-where_entry p rows = sym (keep-map p (λ r. r.entry) rows)

module _ {A E : Type 0} (encode : A → E) where
  abbrev pub encode_row : Row A → Row E
  encode_row r = record { id = r.id; entry = encode r.entry }

  -- The table holds these entries, encoded, in the order in which they were written.
  abbrev pub Holds : Table E → List A → Type 0
  Holds t xs = (t.next_id ≡ suc (length xs)) × (t.rows ≡ map encode_row (numbered 1 xs))

  numbered-append :
      (n i : ℕ) (xs : List A) (x : A)
      → i ≡ n + length xs
      → map encode_row (numbered n (xs ++ x ∷ []))
        ≡ map encode_row (numbered n xs) ++ record { id = i; entry = encode x } ∷ []
  numbered-append n i [] x h = ap (λ j. record { id = j; entry = encode x } ∷ []) (omega arith)
  numbered-append n i (y ∷ xs) x h =
      ap (λ rest. record { id = n; entry = encode y } ∷ rest)
        (numbered-append (suc n) i xs x (omega arith))

  pub insert_row-Holds :
      (x : A) (t : Table E) (xs : List A)
      → Holds t xs
      → Holds (insert_row (encode x) t) (xs ++ x ∷ [])
  insert_row-Holds x t xs h = (
    omega (arith, h.0, length-snoc xs x),
    rw (h.0, h.1) (sym (numbered-append 1 (suc (length xs)) xs x (omega arith))),
  )

  pub entries-encode_row :
      (rows : List (Row A)) → entries (map encode_row rows) ≡ map encode (entries rows)
  entries-encode_row [] = refl
  entries-encode_row (r ∷ rows) = ap (λ rest. encode r.entry ∷ rest) (entries-encode_row rows)

  pub where_entry-encode_row :
      (p : E → Bool) (q : A → Bool) (rows : List (Row A))
      → ((a : A) → p (encode a) ≡ q a)
      → where_entry p (map encode_row rows) ≡ map encode_row (where_entry q rows)
  where_entry-encode_row p q rows h =
      keep-map (λ r. p r.entry) encode_row rows
      ∙ ap (map encode_row) (keep-ext _ _ rows (λ r. h r.entry))

  module _ (before : E → E → Bool) (before' : A → A → Bool)
      (same : (a b : A) → before (encode a) (encode b) ≡ before' a b) where
    row_ltb-encode_row :
        (r s : Row A) → row_ltb before (encode_row r) (encode_row s) ≡ row_ltb before' r s
    unfolding row_ltb
    row_ltb-encode_row r s = rw (same r.entry s.entry, same s.entry r.entry) refl

    put_row-encode_row :
        (r : Row A) (rows : List (Row A))
        → put_row before (encode_row r) (map encode_row rows)
          ≡ map encode_row (put_row before' r rows)
    unfolding put_row
    put_row-encode_row r [] = refl
    put_row-encode_row r (s ∷ rows) = elim (Bool-cases (row_ltb before' s r)) [
      | inl e ↦ rw (row_ltb-encode_row s r, e, put_row-encode_row r rows) refl
      | inr e ↦ rw (row_ltb-encode_row s r, e) refl
    ]

    pub order_by-encode_row :
        (rows : List (Row A))
        → order_by before (map encode_row rows) ≡ map encode_row (order_by before' rows)
    unfolding order_by
    order_by-encode_row [] = refl
    order_by-encode_row (r ∷ rows) =
        ap (put_row before (encode_row r)) (order_by-encode_row rows)
        ∙ put_row-encode_row r (order_by before' rows)

    module _ (key : E → ℕ) (key' : A → ℕ) (same_key : (a : A) → key (encode a) ≡ key' a) where
      row_number-encode_row :
          (rows : List (Row A)) (r : Row A)
          → row_number before key (map encode_row rows) (encode_row r)
            ≡ row_number before' key' rows r
      row_number-encode_row rows r = ap suc (
          ap length (
            keep-map (λ s. key s.entry == key (encode r.entry) && row_ltb before (encode_row r) s)
              encode_row rows)
          ∙ length-map encode_row _
          ∙ ap length (
              keep-ext _ _ rows
                (λ s. rw (same_key s.entry, same_key r.entry, row_ltb-encode_row r s) refl)))

      pub latest_rows-encode_row :
          (rows : List (Row A))
          → latest_rows before key (map encode_row rows)
            ≡ map encode_row (latest_rows before' key' rows)
      unfolding latest_rows
      latest_rows-encode_row rows =
          keep-map (λ r. row_number before key (map encode_row rows) r == 1) encode_row rows
          ∙ ap (map encode_row)
              (keep-ext _ _ rows (λ r. ap (λ n. n == 1) (row_number-encode_row rows r)))

  pub decode_all-map :
      (decode : E → Option A) (xs : List A)
      → ((a : A) → decode (encode a) ≡ some a)
      → decode_all decode (map encode xs) ≡ some xs
  decode_all-map decode [] h = refl
  decode_all-map decode (x ∷ xs) h = rw (h x, decode_all-map decode xs h) refl
