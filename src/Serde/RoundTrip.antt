-- ===== src/Serde/RoundTrip.antt =====
-- What `encode_dataclass` writes, `decode_dataclass` reads back (src/trading/persistence/_serde.py).
use Prim.Native.String.{String}
use text.Mathlib.Text.{◌==◌ as str_eq}
use text.Mathlib.TextEquality.{eq_iff}
use claude_trade_teams.Base.{
  ℕ, ◌≡◌, refl, subst, ◌∙◌, ap, Bool, true, Option, none, some, List, ◌>>=◌, Bool-cases,
  Option-cases, inl, inr, arith,
}
use claude_trade_teams.Base.Decimal.{Decimal}
use claude_trade_teams.Domain.{Time}
use claude_trade_teams.Sqlite.Iso.{isoformat}
use claude_trade_teams.Sqlite.Iso.Order.{fromisoformat-isoformat}
use claude_trade_teams.Serde
use claude_trade_teams.Serde.{
  Text, Json, Entries, nil, entry, Value, absent, member, object, Fields, end, field, Hint, plain,
  enumeration, dataclass, union, bar, Hints, done, hint, arm, no_arm, decimal_marker,
  datetime_marker, get, to_jsonable, to_entries, decode_with, is_in, to_member, to_decimal,
  to_moment, by_hint, fields_of, by_union, build, with_field, from_jsonable, literal, moment,
}

-- The values of a plain class that is not None.
pub data IsPlain : Value → Type 0 where
  is_str : (t : Text) → IsPlain (Value.str t)
  is_int : (n : ℕ) → IsPlain (Value.int n)
  is_bool : (b : Bool) → IsPlain (Value.bool b)
  is_decimal : (d : Decimal) → IsPlain (Value.decimal d)
  is_datetime : (t : Time) → IsPlain (Value.datetime t)

-- No name stands twice among the fields.
abbrev pub IsDistinct : Fields → Type 0
IsDistinct end = Unit {0}
IsDistinct (field n v fs) = (get n (to_entries fs) ≡ none) × IsDistinct fs

-- The values that a hint is written for: those of a plain class, members of an enumeration, instances
-- of a dataclass of which no field is named like a marker, and None under an optional hint. Under
-- `T | None` these are None and the values of plain classes.
mutual
  pub data Typed : Hint → Value → Type 0 where
    of_plain : {v : Value} → IsPlain v → Typed plain v
    of_enumeration :
        (vs : List String) (v : String) → is_in v vs ≡ true → Typed (enumeration vs) (member v)
    of_dataclass :
        (hs : Hints) (fs : Fields)
        → get decimal_marker (to_entries fs) ≡ none
        → get datetime_marker (to_entries fs) ≡ none
        → IsDistinct fs
        → TypedFields hs fs
        → Typed (dataclass hs) (object fs)
    missing : (h : Hint) → Typed (union (arm h no_arm)) absent
    present : (h : Hint) (v : Value) → Typed h v → Typed (union (arm h no_arm)) v
    bar_missing : (h : Hint) → Typed (bar h) absent
    bar_plain : (h : Hint) (v : Value) → IsPlain v → Typed (bar h) v

  pub data TypedFields : Hints → Fields → Type 0 where
    of_done : TypedFields done end
    of_hint :
        (n : String) (h : Hint) (hs : Hints) (v : Value) (fs : Fields)
        → Typed h v
        → TypedFields hs fs
        → TypedFields (hint n h hs) (field n v fs)

-- Each field stands under its name among the entries.
abbrev IsFound : Entries → Fields → Type 0
IsFound es end = Unit {0}
IsFound es (field n v fs) = (get n es ≡ some (to_jsonable v)) × IsFound es fs

IsFound-entry :
    (n : String) (j : Json) (es : Entries) (fs : Fields)
    → get n es ≡ none
    → IsFound es fs
    → IsFound (entry n j es) fs
IsFound-entry n j es end h f = tt
IsFound-entry n j es (field m v fs) h f = (
  elim (Bool-cases (str_eq n m)) [
    | inl e ↦
        let same : n ≡ m = (eq_iff n m).0 e in
        let g = subst (λ x. get x es ≡ none) same h in ground (arith, g, f.0)
    | inr e ↦ rw e f.0
  ],
  IsFound-entry n j es fs h f.1,
)

IsDistinct-IsFound : (fs : Fields) → IsDistinct fs → IsFound (to_entries fs) fs
unfolding to_entries
IsDistinct-IsFound end h = tt
IsDistinct-IsFound (field n v fs) h = (
  rw ((eq_iff n n).1 refl) refl,
  IsFound-entry n (to_jsonable v) (to_entries fs) fs h.0 (IsDistinct-IsFound fs h.1),
)

unmarked :
    (rest : Json → Option Value) (es : Entries)
    → get decimal_marker es ≡ none
    → get datetime_marker es ≡ none
    → decode_with rest (Json.dict es) ≡ rest (Json.dict es)
unfolding decode_with
unmarked rest es e g = rw (decode_with, e, g) refl

moment_lem : (t : Time) → to_moment (Json.string (moment (isoformat t))) ≡ some (Value.datetime t)
unfolding to_moment
moment_lem t = rw (to_moment, fromisoformat-isoformat t) refl

twice :
    (rest : Json → Option Value) (j : Json)
    → decode_with (λ k. decode_with rest k) j ≡ decode_with rest j
unfolding decode_with
twice rest Json.null = refl
twice rest (Json.string t) = refl
twice rest (Json.number n) = refl
twice rest (Json.boolean b) = refl
twice rest (Json.dict es) = elim (Option-cases (get decimal_marker es)) [
  | inr (j, e) ↦ rw (decode_with, e) refl
  | inl e ↦ elim (Option-cases (get datetime_marker es)) [
    | inr (j, g) ↦ rw (decode_with, e, g) refl
    | inl g ↦ unmarked (λ k. decode_with rest k) es e g
  ]
]

-- A plain value reads back, whatever is done with what no marker claims.
plain_lem :
    (rest : Json → Option Value) {v : Value}
    → IsPlain v
    → ((j : Json) → rest j ≡ some (Serde.as_is j))
    → decode_with rest (to_jsonable v) ≡ some v
unfolding decode_with to_jsonable to_decimal
plain_lem rest (is_str t) h = h (Json.string t)
plain_lem rest (is_int n) h = h (Json.number n)
plain_lem rest (is_bool b) h = h (Json.boolean b)
plain_lem rest (is_decimal d) h = refl
plain_lem rest (is_datetime t) h = moment_lem t

mutual
  unfolding decode_with to_jsonable to_entries to_member by_hint fields_of by_union

  typed_lem : {h : Hint} {v : Value} → Typed h v → from_jsonable h (to_jsonable v) ≡ some v
  typed_lem (of_plain p) = plain_lem (by_hint plain) p (λ j. refl)
  typed_lem (of_enumeration vs v e) = rw e refl
  typed_lem (of_dataclass hs fs e g d t) =
      unmarked (by_hint (dataclass hs)) (to_entries fs) e g
      ∙ ap build (fields_lem t (to_entries fs) (IsDistinct-IsFound fs d))
  typed_lem (missing h) = refl
  typed_lem (present h v t) = twice (by_hint h) (to_jsonable v) ∙ typed_lem t
  typed_lem (bar_missing h) = refl
  typed_lem (bar_plain h v p) = plain_lem (by_hint (bar h)) p (λ j. refl)

  fields_lem :
      {hs : Hints} {fs : Fields}
      → TypedFields hs fs
      → (es : Entries) → IsFound es fs
      → fields_of hs es ≡ some fs
  fields_lem of_done es f = refl
  fields_lem (of_hint n h hs v fs t ts) es f =
      ap (λ o. with_field n (o >>= decode_with (by_hint h)) (fields_of hs es)) f.0
      ∙ ap (λ o. with_field n o (fields_of hs es)) (typed_lem t)
      ∙ ap (with_field n (some v)) (fields_lem ts es f.1)

-- What is encoded of a value is decoded, under its hint, as the value: a value of a plain class
-- under a plain hint, a member of an enumeration under it, an instance of a dataclass under it whose
-- fields are such values and have distinct names other than the two markers, None or such a value
-- under an optional hint that has one member besides None; under a hint written with a bar, None or
-- a value of a plain class.
pub from_jsonable-to_jsonable :
    (h : Hint) (v : Value) → Typed h v → from_jsonable h (to_jsonable v) ≡ some v
from_jsonable-to_jsonable h v t = typed_lem t

-- A member of an enumeration under `T | None` is decoded as its bare text and not as the member.
pub from_jsonable-bar :
    (vs : List String) (v : String)
    → from_jsonable (bar (enumeration vs)) (to_jsonable (member v)) ≡ some (Value.str (literal v))
unfolding decode_with to_jsonable by_hint
from_jsonable-bar vs v = refl
