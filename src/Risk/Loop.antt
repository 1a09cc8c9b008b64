-- ===== src/Risk/Loop.antt =====
-- The loop that most breakers of src/trading/risk/breakers share, and when it finds nothing.
use claude_trade_teams.Base.{
  ◌≡◌, refl, ◌↔◌, Option, none, some, List, [], ◌∷◌, All, arith, Option-cases, inl, inr,
}
use claude_trade_teams.Domain.{Trigger}

module _ {ℓ} {A : Type ℓ} where
  -- `for x in xs: ... return Trigger(...)`, then `return None`
  abbrev pub first_trigger : (A → Option Trigger) → List A → Option Trigger
  first_trigger check [] = none
  first_trigger check (x ∷ xs) =
      let rest = first_trigger check xs in elim (check x) [ none ↦ rest | some t ↦ some t ]

  first_trigger_silent :
      (check : A → Option Trigger) (xs : List A)
      → All (λ x. check x ≡ none) xs
      → first_trigger check xs ≡ none
  first_trigger_silent check [] h = refl
  first_trigger_silent check (x ∷ xs) h =
      rw (first_trigger, h.0) (first_trigger_silent check xs h.1)

  first_trigger-All :
      (check : A → Option Trigger) (xs : List A)
      → first_trigger check xs ≡ none
      → All (λ x. check x ≡ none) xs
  first_trigger-All check [] h = tt
  first_trigger-All check (x ∷ xs) h = elim (Option-cases (check x)) [
    | inl e ↦ (e, first_trigger-All check xs (rw (first_trigger, e) at h))
    | inr (t, e) ↦ ground arith
  ]

  -- The loop finds nothing exactly when no entry trips.
  pub first_trigger-eq-none_iff :
      (check : A → Option Trigger) (xs : List A)
      → (first_trigger check xs ≡ none) ↔ All (λ x. check x ≡ none) xs
  first_trigger-eq-none_iff check xs = (first_trigger-All check xs, first_trigger_silent check xs)

  pub All-iff : {P Q : A → Type 0} (xs : List A) → ((x : A) → P x ↔ Q x) → All P xs ↔ All Q xs
  All-iff xs h = (forth xs (λ x. (h x).0), forth xs (λ x. (h x).1))
    where
      forth : {P Q : A → Type 0} (ys : List A) → ((x : A) → P x → Q x) → All P ys → All Q ys
      forth [] f a = tt
      forth (y ∷ ys) f a = (f y a.0, forth ys f a.1)

  -- The loop finds nothing exactly when every entry is within its bound.
  pub silent_iff :
      {P : A → Type 0} (check : A → Option Trigger) (xs : List A)
      → ((x : A) → (check x ≡ none) ↔ P x)
      → (first_trigger check xs ≡ none) ↔ All P xs
  silent_iff check xs h = (
    λ e. (All-iff xs h).0 (first_trigger-All check xs e),
    λ a. first_trigger_silent check xs ((All-iff xs h).1 a),
  )
