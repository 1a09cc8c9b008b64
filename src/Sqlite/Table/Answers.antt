-- ===== src/Sqlite/Table/Answers.antt =====
-- What the statements answer on a table of encoded entries.
use claude_trade_teams.Base.{
  ℕ, ◌≡◌, refl, true, All, Bool-cases, inl, inr, ap, ◌∙◌, Bool, Option, some, List, [], ◌∷◌, map,
  keep, get_last?, ltb,
}
use claude_trade_teams.Base.Dict.{lookup, collect}
use claude_trade_teams.Journal.Restore.{passing}
use claude_trade_teams.Sqlite.Table.{
  Row, Table, where_entry, entries, order_by, latest_rows, decode_all, decode_row, last_row,
}
use claude_trade_teams.Sqlite.Table.Transfer.{
  Holds, encode_row, numbered, entries-encode_row, where_entry-encode_row, order_by-encode_row,
  latest_rows-encode_row, decode_all-map, entries-numbered, entries-where_entry,
}
use claude_trade_teams.Sqlite.Table.Sort.{
  by_time, put, earlier, numbered-Ascends, where_entry-Ascends, entries-order_by,
}
use claude_trade_teams.Sqlite.Table.Latest.{newest, lookup-latest_rows}

module _ {A E : Type 0} (encode : A → E) (time : A → ℕ) (before : E → E → Bool)
    (same : (a b : A) → before (encode a) (encode b) ≡ ltb (time a) (time b)) (p : E → Bool)
    (q : A → Bool) (tests : (a : A) → p (encode a) ≡ q a) (t : Table E) (xs : List A)
    (h : Holds encode t xs) where
  ordered_rows :
      order_by before (where_entry p t.rows)
      ≡ map (encode_row encode) (order_by (earlier time) (where_entry q (numbered 1 xs)))
  ordered_rows =
      ap (λ rows. order_by before (where_entry p rows)) h.1
      ∙ ap (order_by before) (where_entry-encode_row encode p q (numbered 1 xs) tests)
      ∙ order_by-encode_row encode before (earlier time) same (where_entry q (numbered 1 xs))

  sorted_entries :
      entries (order_by (earlier time) (where_entry q (numbered 1 xs))) ≡ by_time time (keep q xs)
  sorted_entries =
      entries-order_by time 1 (where_entry q (numbered 1 xs))
        (where_entry-Ascends q 1 (numbered 1 xs) (numbered-Ascends 1 xs))
      ∙ ap (by_time time)
          (entries-where_entry q (numbered 1 xs) ∙ ap (keep q) (entries-numbered 1 xs))

-- `encode` and `decode` are inverse, and `before` orders the columns as `time` orders the entries.
module _ {A E : Type 0} (encode : A → E) (decode : E → Option A) (time : A → ℕ)
    (before : E → E → Bool) (back : (a : A) → decode (encode a) ≡ some a)
    (same : (a b : A) → before (encode a) (encode b) ≡ ltb (time a) (time b)) where
  decode_all-encode_row :
      (rows : List (Row A))
      → decode_all decode (entries (map (encode_row encode) rows)) ≡ some (entries rows)
  decode_all-encode_row rows =
      ap (decode_all decode) (entries-encode_row encode rows)
      ∙ decode_all-map encode decode (entries rows) back

  decode_row-encode_row :
      (rows : List (Row A))
      → decode_row decode (get_last? (map (encode_row encode) rows))
        ≡ some (get_last? (entries rows))
  decode_row-encode_row [] = refl
  decode_row-encode_row (r ∷ []) = rw (back r.entry) refl
  decode_row-encode_row (r ∷ (s ∷ rows)) = decode_row-encode_row (s ∷ rows)

  module _ (p : E → Bool) (q : A → Bool) (tests : (a : A) → p (encode a) ≡ q a) (t : Table E)
      (xs : List A) (h : Holds encode t xs) where
    -- A filter with an order answers the entries that pass, sorted by their time.
    pub order_by_lem :
        decode_all decode (entries (order_by before (where_entry p t.rows)))
        ≡ some (by_time time (keep q xs))
    order_by_lem =
        ap (λ rows. decode_all decode (entries rows))
          (ordered_rows encode time before same p q tests t xs h)
        ∙ decode_all-encode_row (order_by (earlier time) (where_entry q (numbered 1 xs)))
        ∙ ap some (sorted_entries encode time before same p q tests t xs h)

    -- The last row of a filter is the last of the entries that pass, by their time.
    pub last_row_lem :
        decode_row decode (last_row before (where_entry p t.rows))
        ≡ some (get_last? (by_time time (keep q xs)))
    last_row_lem =
        ap (λ rows. decode_row decode (get_last? rows))
          (ordered_rows encode time before same p q tests t xs h)
        ∙ decode_row-encode_row (order_by (earlier time) (where_entry q (numbered 1 xs)))
        ∙ ap (λ ys. some (get_last? ys)) (sorted_entries encode time before same p q tests t xs h)

    module _ (key : E → ℕ) (key' : A → ℕ) (keys : (a : A) → key (encode a) ≡ key' a) where
      -- the last entries of each key, of which those that pass
      abbrev pub current : List A
      current = entries (where_entry q (latest_rows (earlier time) key' (numbered 1 xs)))

      pub latest_rows_lem :
          decode_all decode (entries (where_entry p (latest_rows before key t.rows))) ≡ some current
      latest_rows_lem =
          ap (λ rows. decode_all decode (entries (where_entry p (latest_rows before key rows)))) h.1
          ∙ ap (λ rows. decode_all decode (entries (where_entry p rows)))
              (latest_rows-encode_row encode before (earlier time) same key key' keys
                (numbered 1 xs))
          ∙ ap (λ rows. decode_all decode (entries rows))
              (where_entry-encode_row encode p q (latest_rows (earlier time) key' (numbered 1 xs))
                tests)
          ∙ decode_all-encode_row (where_entry q (latest_rows (earlier time) key' (numbered 1 xs)))

      -- Under each key the statement answers the newest entry, if it passes.
      pub lookup-current :
          (k : ℕ) → lookup k (collect key' [] current) ≡ passing key' q (newest time key' k xs)
      lookup-current k =
          lookup-latest_rows time key' k q 1 (numbered 1 xs) (numbered-Ascends 1 xs)
          ∙ ap (λ ys. passing key' q (newest time key' k ys)) (entries-numbered 1 xs)

      pub latest_answer :
          (ys : List A) × (decode_all decode
              (entries (where_entry p (latest_rows before key t.rows)))
            ≡ some ys)
          × ((k : ℕ) → lookup k (collect key' [] ys) ≡ passing key' q (newest time key' k xs))
      latest_answer = (current, latest_rows_lem, lookup-current)

-- The same where `decode` is the inverse of `encode` only on the entries that pass.
module _ {A E : Type 0} (encode : A → E) (time : A → ℕ) (before : E → E → Bool)
    (same : (a b : A) → before (encode a) (encode b) ≡ ltb (time a) (time b)) (p : E → Bool)
    (q : A → Bool) (tests : (a : A) → p (encode a) ≡ q a) (t : Table E) (xs : List A)
    (h : Holds encode t xs) where
  passes-put :
      (x : A) (ys : List A)
      → q x ≡ true
      → All (λ y. q y ≡ true) ys
      → All (λ y. q y ≡ true) (put time x ys)
  passes-put x [] e a = (e, tt)
  passes-put x (y ∷ ys) e a = elim (Bool-cases (ltb (time y) (time x))) [
    | inl l ↦ rw l (a.0, passes-put x ys e a.1)
    | inr l ↦ rw l (e, a)
  ]

  passes : (ys : List A) → All (λ y. q y ≡ true) (by_time time (keep q ys))
  passes [] = tt
  passes (y ∷ ys) = elim (Bool-cases (q y)) [
    | inl e ↦ rw e (passes-put y (by_time time (keep q ys)) e (passes ys))
    | inr e ↦ rw e (passes ys)
  ]

  module _ (decode : E → Option A) (back : (a : A) → q a ≡ true → decode (encode a) ≡ some a) where
    decode_passing :
        (ys : List A) → All (λ y. q y ≡ true) ys → decode_all decode (map encode ys) ≡ some ys
    decode_passing [] a = refl
    decode_passing (y ∷ ys) a = rw (back y a.0, decode_passing ys a.1) refl

    pub order_by-passing :
        decode_all decode (entries (order_by before (where_entry p t.rows)))
        ≡ some (by_time time (keep q xs))
    order_by-passing =
        ap (λ rows. decode_all decode (entries rows))
          (ordered_rows encode time before same p q tests t xs h)
        ∙ ap (decode_all decode) (
            entries-encode_row encode (order_by (earlier time) (where_entry q (numbered 1 xs)))
            ∙ ap (map encode) (sorted_entries encode time before same p q tests t xs h))
        ∙ decode_passing (by_time time (keep q xs)) (passes xs)
