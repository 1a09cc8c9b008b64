-- ===== src/Journal/Restore.antt =====
-- What a dict rebuilt from its open entries holds (`start` of src/trading/oms/default.py reads
-- `read_open_orders` of src/trading/persistence/order_journal/in_memory.py back into a dict).
use claude_trade_teams.Base.{
  ℕ, ◌≡◌, refl, ◌∙◌, ◌==◌, Bool, false, if◌then◌else◌, Option, none, some, List, [], ◌∷◌, keep,
  arith, Bool-cases, inl, inr,
}
use claude_trade_teams.Base.Dict.{Dict, lookup, insert, values, collect, lookup-insert}

module _ {ℓ} {V : Type ℓ} (key : V → ℕ) where
  -- No key stands twice, and each entry stands under its own key.
  abbrev pub IsKeyed : Dict V → Type ℓ
  IsKeyed [] = Unit
  IsKeyed (e ∷ d) = (key e.1 ≡ e.0) × (lookup e.0 d ≡ none) × IsKeyed d

  lookup-insert_other :
      (j k : ℕ) (v : V) (d : Dict V) → (j == k) ≡ false → lookup j (insert k v d) ≡ lookup j d
  lookup-insert_other j k v d h = rw (lookup-insert j k v d, h)

  pub insert-IsKeyed : (k : ℕ) (v : V) (d : Dict V) → key v ≡ k → IsKeyed d → IsKeyed (insert k v d)
  insert-IsKeyed k v [] e h = (e, refl, tt)
  insert-IsKeyed k v (x ∷ d) e h = elim (Bool-cases (k == x.0)) [
    | inl same ↦ rw same (e, ground arith, h.2)
    | inr other ↦
        rw other
          (h.0, lookup-insert_other x.0 k v d (ground arith) ∙ h.1, insert-IsKeyed k v d e h.2)
  ]

  pub collect-IsKeyed : (d : Dict V) (xs : List V) → IsKeyed d → IsKeyed (collect key d xs)
  collect-IsKeyed d [] h = h
  collect-IsKeyed d (x ∷ xs) h =
      collect-IsKeyed (insert (key x) x d) xs (insert-IsKeyed (key x) x d refl h)

  -- The entry of a dict, if it passes the test.
  abbrev pub passing : (V → Bool) → Option V → Option V
  passing p none = none
  passing p (some v) = if p v then some v else none

  -- a missing entry is taken from `d`
  abbrev pub or_else : Option V → Option V → Option V
  or_else none o = o
  or_else (some v) o = some v

  pub or_else-none : (o : Option V) → or_else o none ≡ o
  or_else-none none = refl
  or_else-none (some v) = refl

  lookup-collect :
      (p : V → Bool) (j : ℕ) (acc d : Dict V)
      → IsKeyed d
      → lookup j (collect key acc (keep p (values d)))
        ≡ or_else (passing p (lookup j d)) (lookup j acc)
  lookup-collect p j acc [] h = refl
  lookup-collect p j acc (e ∷ d) h = elim (Bool-cases (p e.1)) [
    | inl holds ↦
        rw
          (
            holds,
            lookup-collect p j (insert (key e.1) e.1 acc) d h.2,
            lookup-insert j (key e.1) e.1 acc,
          )
          (ground (arith, h))
    | inr fails ↦ rw (fails, lookup-collect p j acc d h.2) (ground (arith, h))
  ]

  -- Collecting the entries that pass a test gives the dict cut to those entries.
  pub lookup-collect-values :
      (p : V → Bool) (j : ℕ) (d : Dict V)
      → IsKeyed d
      → lookup j (collect key [] (keep p (values d))) ≡ passing p (lookup j d)
  lookup-collect-values p j d h = lookup-collect p j [] d h ∙ or_else-none (passing p (lookup j d))

  -- Collecting all entries gives the dict back.
  pub lookup-collect_all :
      (j : ℕ) (d : Dict V) → IsKeyed d → lookup j (collect key [] (values d)) ≡ lookup j d
  lookup-collect_all j d h = all_of j [] d h ∙ or_else-none (lookup j d)
    where
      all_of :
          (j : ℕ) (acc d : Dict V)
          → IsKeyed d
          → lookup j (collect key acc (values d)) ≡ or_else (lookup j d) (lookup j acc)
      all_of j acc [] h = refl
      all_of j acc (e ∷ d) h =
          rw (all_of j (insert (key e.1) e.1 acc) d h.2, lookup-insert j (key e.1) e.1 acc)
            (ground (arith, h))
