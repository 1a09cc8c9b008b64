-- ===== src/Base/Dict.antt =====
-- A Python dict keyed by names, in insertion order. Names are compared and nothing else, so they
-- are numbers.
use mathlib.Core.Path.{◌≡◌}
use mathlib.Core.Option.{Option, none, some}
use mathlib.Core.List.{List, [], ◌∷◌, map}
use Prim.Native.Nat.{ℕ}
use native.Mathlib.Omega.{arith}
use claude_trade_teams.Base.Tests.{◌==◌, if◌then◌else◌}

abbrev pub Dict {ℓ} : Type ℓ → Type ℓ
Dict A = List (ℕ × A)

module _ {ℓ} {V : Type ℓ} where
  -- `d[name] = value`: an old name keeps its place, a new one goes to the end.
  abbrev pub insert : ℕ → V → Dict V → Dict V
  insert name value [] = (name, value) ∷ []
  insert name value (entry ∷ rest) =
      if name == entry.0 then (name, value) ∷ rest else entry ∷ insert name value rest

  -- `d.pop(name, None)`: the names in a dict are distinct, so one entry goes at most.
  abbrev pub erase : ℕ → Dict V → Dict V
  erase name [] = []
  erase name (entry ∷ rest) =
      let erased = erase name rest in if name == entry.0 then erased else entry ∷ erased

  -- `d.get(name)`
  abbrev pub lookup : ℕ → Dict V → Option V
  lookup name [] = none
  lookup name (entry ∷ rest) = if name == entry.0 then some entry.1 else lookup name rest

  -- `d.setdefault(k, v)`
  abbrev pub setdefault : ℕ → V → Dict V → Dict V
  setdefault k v d = elim (lookup k d) [ none ↦ insert k v d | some _ ↦ d ]

  -- `d.values()`
  abbrev pub values : Dict V → List V
  values = map (λ e. e.1)

  -- `{key(x): x for x in xs}`, started from `d`
  abbrev pub collect : (V → ℕ) → Dict V → List V → Dict V
  collect key d [] = d
  collect key d (x ∷ xs) = collect key (insert (key x) x d) xs

  pub lookup-insert :
      (j k : ℕ) (v : V) (d : Dict V)
      → lookup j (insert k v d) ≡ (if j == k then some v else lookup j d)
  lookup-insert j k v [] = ground arith
  lookup-insert j k v (e ∷ d) = ground (arith, lookup-insert j k v d)

  pub lookup-erase :
      (j k : ℕ) (d : Dict V) → lookup j (erase k d) ≡ (if j == k then none else lookup j d)
  lookup-erase j k [] = ground arith
  lookup-erase j k (e ∷ d) = ground (arith, lookup-erase j k d)

  pub lookup-setdefault_self :
      (k : ℕ) (v : V) (d : Dict V)
      → lookup k (setdefault k v d) ≡ (elim (lookup k d) [ none ↦ some v | some w ↦ some w ])
  lookup-setdefault_self k v d = ground (arith, lookup-insert k k v d)

pub ruleset dict_laws = (lookup-insert, lookup-erase)
