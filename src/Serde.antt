-- ===== src/Serde.antt =====
-- src/trading/persistence/_serde.py: dataclasses as JSON and back. `json.dumps` and `json.loads` are
-- inverse on the trees built here, so that a payload is its tree.
pub mod RoundTrip
pub mod Events
use Prim.Native.String.{String}
use text.Mathlib.Text.{◌==◌ as str_eq}
use claude_trade_teams.Base.{
  ℕ, Bool, false, ◌||◌, if◌then◌else◌, Option, none, some, List, [], ◌∷◌, ◌>>=◌,
}
use claude_trade_teams.Base.Decimal.{Decimal}
use claude_trade_teams.Domain.{Time, Reason}
use claude_trade_teams.Sqlite.Iso.{IsoText, isoformat, fromisoformat}

-- A Python text: one that is written out, a name, a formatted message, the name of a class by its
-- code points, and the texts of a decimal and of a time.
pub data Text : Type 0 where
  literal : String → Text
  name : ℕ → Text
  message : Reason → Text
  codes : List ℕ → Text
  decimal : Decimal → Text
  moment : IsoText → Text

mutual
  pub data Json : Type 0 where
    null : Json
    string : Text → Json
    number : ℕ → Json
    boolean : Bool → Json
    dict : Entries → Json

  pub data Entries : Type 0 where
    nil : Entries
    entry : String → Json → Entries → Entries

-- A Python value: an instance of a dataclass is its fields, and a member of a string enumeration its
-- value; a dict that no class claims stays one.
mutual
  pub data Value : Type 0 where
    absent : Value
    str : Text → Value
    int : ℕ → Value
    bool : Bool → Value
    decimal : Decimal → Value
    datetime : Time → Value
    member : String → Value
    object : Fields → Value
    raw : Entries → Value

  pub data Fields : Type 0 where
    end : Fields
    field : String → Value → Fields → Fields

-- What the decoder sees in a type hint: a class that is neither an enumeration nor a dataclass, an
-- enumeration by its values, a dataclass by its hints, a `typing.Union` by its members but None, and
-- `T | None`, whose origin is `types.UnionType` and not `typing.Union`.
mutual
  pub data Hint : Type 0 where
    plain : Hint
    enumeration : List String → Hint
    dataclass : Hints → Hint
    union : Arms → Hint
    bar : Hint → Hint

  pub data Hints : Type 0 where
    done : Hints
    hint : String → Hint → Hints → Hints

  pub data Arms : Type 0 where
    no_arm : Arms
    arm : Hint → Arms → Arms

abbrev pub decimal_marker : String
decimal_marker = "__decimal__"

abbrev pub datetime_marker : String
datetime_marker = "__datetime__"

-- `value[name]`
abbrev pub get : String → Entries → Option Json
get n nil = none
get n (entry m j rest) = if str_eq m n then some j else get n rest

-- `_to_jsonable`
unfoldable mutual
  pub to_jsonable : Value → Json
  to_jsonable absent = null
  to_jsonable (str t) = string t
  to_jsonable (int n) = number n
  to_jsonable (bool b) = boolean b
  to_jsonable (decimal d) = dict (entry decimal_marker (string (Text.decimal d)) nil)
  to_jsonable (datetime t) = dict (entry datetime_marker (string (moment (isoformat t))) nil)
  to_jsonable (member v) = string (literal v)
  to_jsonable (object fs) = dict (to_entries fs)
  to_jsonable (raw es) = dict es

  pub to_entries : Fields → Entries
  to_entries end = nil
  to_entries (field n v fs) = entry n (to_jsonable v) (to_entries fs)

-- `Decimal(…)` and `datetime.fromisoformat(…)` of what stands under a marker; `none` if it raises
unfoldable pub to_decimal : Json → Option Value
to_decimal (string (Text.decimal d)) = some (Value.decimal d)
to_decimal _ = none

unfoldable pub to_moment : Json → Option Value
to_moment (string (moment t)) = elim (fromisoformat t) [ none ↦ none | some x ↦ some (datetime x) ]
to_moment _ = none

-- `return value`
abbrev pub as_is : Json → Value
as_is null = absent
as_is (string t) = str t
as_is (number n) = int n
as_is (boolean b) = bool b
as_is (dict es) = raw es

-- the first lines of `_from_jsonable`, which look at the value alone, before `rest`
unfoldable pub decode_with : (Json → Option Value) → Json → Option Value
decode_with rest null = some absent
decode_with rest (dict es) = elim (get decimal_marker es) [
  | some j ↦ to_decimal j
  | none ↦ elim (get datetime_marker es) [ some j ↦ to_moment j | none ↦ rest (dict es) ]
]
decode_with rest (string t) = rest (string t)
decode_with rest (number n) = rest (number n)
decode_with rest (boolean b) = rest (boolean b)

abbrev pub is_in : String → List String → Bool
is_in v [] = false
is_in v (w ∷ ws) = str_eq v w || is_in v ws

-- `target(value)` of an enumeration
unfoldable pub to_member : List String → Json → Option Value
to_member values (string (literal v)) = if is_in v values then some (member v) else none
to_member values _ = none

-- `target(**kwargs)` of a dataclass
abbrev pub build : Option Fields → Option Value
build none = none
build (some fs) = some (object fs)

-- one more keyword argument
abbrev pub with_field : String → Option Value → Option Fields → Option Fields
with_field n none fs = none
with_field n (some v) none = none
with_field n (some v) (some fs) = some (field n v fs)

-- the rest of `_from_jsonable`, by the hint
unfoldable mutual
  pub by_hint : Hint → Json → Option Value
  by_hint plain j = some (as_is j)
  by_hint (enumeration values) j = to_member values j
  by_hint (dataclass hs) (dict es) = build (fields_of hs es)
  by_hint (dataclass hs) _ = none
  by_hint (union arms) j = by_union arms j
  by_hint (bar h) j = some (as_is j)

  -- the arguments of `target(**kwargs)`, in the order of the class
  pub fields_of : Hints → Entries → Option Fields
  fields_of done es = some end
  fields_of (hint n h hs) es = with_field n (get n es >>= decode_with (by_hint h)) (fields_of hs es)

  -- the single member of a union, or else the loop over its members
  pub by_union : Arms → Json → Option Value
  by_union no_arm j = some (as_is j)
  by_union (arm h no_arm) j = decode_with (by_hint h) j
  by_union (arm h (arm g arms)) j = elim (decode_with (by_hint h) j) [
    | none ↦ first_of (arm g arms) j
    | some v ↦ some v
  ]

  -- the first member that does not raise
  pub first_of : Arms → Json → Option Value
  first_of no_arm j = some (as_is j)
  first_of (arm h arms) j = elim (decode_with (by_hint h) j) [
    | none ↦ first_of arms j
    | some v ↦ some v
  ]

-- `_from_jsonable`
abbrev pub from_jsonable : Hint → Json → Option Value
from_jsonable h = decode_with (by_hint h)
