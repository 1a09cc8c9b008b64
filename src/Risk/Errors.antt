-- ===== src/Risk/Errors.antt =====
-- src/trading/risk/breakers/consecutive_error.py: the breaker on the number of errors in a window.
use claude_trade_teams.Base.{
  ℕ, ◌-◌, ◌≤◌, ◌≡◌, ◌↔◌, refl, sym, ap, ◌∙◌, append-nil, append_assoc, Bool, true, false,
  if◌then◌else◌, leb, Option, none, some, is_some, List, [], ◌∷◌, ◌++◌, keep, length, contains,
  arith, Bool-cases, inl, inr,
}
use claude_trade_teams.Domain.{Time, RiskContext, Trigger, TriggerAction, Reason, ErrorOccurred}

pub record ConsecutiveErrorBreaker : Type 0 where
  pub threshold : ℕ
  pub window : ℕ
  pub components : Option (List ℕ)
  pub action : TriggerAction
  pub name : ℕ
  pub error_times : List Time

-- the constructor, which raises on a threshold below 1
unfoldable pub new : ℕ → ℕ → Option (List ℕ) → TriggerAction → ℕ → Option ConsecutiveErrorBreaker
new threshold window components action name =
    if leb 1 threshold
    then some (record {
      threshold = threshold;
      window = window;
      components = components;
      action = action;
      name = name;
      error_times = [];
    })
    else none

-- `self._components is None or error.component in self._components`
abbrev pub watches : Option (List ℕ) → ℕ → Bool
watches none component = true
watches (some components) component = contains component components

-- `_on_error`
unfoldable pub on_error : ErrorOccurred → ConsecutiveErrorBreaker → ConsecutiveErrorBreaker
on_error error b =
    if watches b.components error.component
    then record b { error_times = b.error_times ++ (error.timestamp ∷ []) }
    else b

-- `[t for t in times if t >= cutoff]`
unfoldable pub since : Time → List Time → List Time
since cutoff times = keep (λ t. leb cutoff t) times

-- `evaluate`
unfoldable pub evaluate :
    ConsecutiveErrorBreaker → RiskContext → Option Trigger × ConsecutiveErrorBreaker
evaluate b context =
    let recent = since (context.now - b.window) b.error_times in
    let after : ConsecutiveErrorBreaker = record b { error_times = recent } in
    let trigger : Trigger = record {
      breaker_name = b.name;
      action = b.action;
      reason = Reason.errors_in_window (length recent) b.window b.threshold;
    } in
    (if leb b.threshold (length recent) then some trigger else none, after)

-- What reaches the breaker: an error, or an evaluation.
pub data Input : Type 0 where
  error : ErrorOccurred → Input
  evaluation : RiskContext → Input

unfoldable pub react : ConsecutiveErrorBreaker → Input → ConsecutiveErrorBreaker
react b (error e) = on_error e b
react b (evaluation context) = (evaluate b context).1

unfoldable pub run : ConsecutiveErrorBreaker → List Input → ConsecutiveErrorBreaker
run b [] = b
run b (i ∷ inputs) = run (react b i) inputs

-- what one error adds to the errors that count
unfoldable pub heard : Option (List ℕ) → ErrorOccurred → List Time
heard components e = if watches components e.component then e.timestamp ∷ [] else []

-- The times of the errors that the filter lets through, none of them ever pruned.
unfoldable pub all_errors : Option (List ℕ) → List Input → List Time
all_errors components [] = []
all_errors components (error e ∷ inputs) = heard components e ++ all_errors components inputs
all_errors components (evaluation _ ∷ inputs) = all_errors components inputs

-- Every evaluation so far was at or before `now`.
abbrev pub IsBy : Time → List Input → Type 0
IsBy now [] = Unit
IsBy now (error _ ∷ inputs) = IsBy now inputs
IsBy now (evaluation context ∷ inputs) = (context.now ≤ now) × IsBy now inputs

since-append :
    (cutoff : Time) (xs ys : List Time)
    → since cutoff (xs ++ ys) ≡ since cutoff xs ++ since cutoff ys
unfolding since
since-append cutoff [] ys = refl
since-append cutoff (x ∷ xs) ys = ground (arith, since-append cutoff xs ys)

since-since :
    (early late : Time) (xs : List Time)
    → early ≤ late
    → since late (since early xs) ≡ since late xs
unfolding since
since-since early late [] h = refl
since-since early late (x ∷ xs) h = ground (arith, since-since early late xs h)

since-nil : (cutoff : Time) → since cutoff [] ≡ []
unfolding since
since-nil cutoff = refl

since-append_append :
    (cutoff : Time) (xs ys zs : List Time)
    → since cutoff (xs ++ ys) ++ since cutoff zs ≡ since cutoff xs ++ since cutoff (ys ++ zs)
since-append_append cutoff xs ys zs =
    rw (since-append cutoff xs ys, since-append cutoff ys zs)
      (append_assoc (since cutoff xs) (since cutoff ys) (since cutoff zs))

-- the breaker with an error noted
abbrev noted : ErrorOccurred → ConsecutiveErrorBreaker → ConsecutiveErrorBreaker
noted e b = record b { error_times = b.error_times ++ (e.timestamp ∷ []) }

on_error-watched :
    (e : ErrorOccurred) (b : ConsecutiveErrorBreaker)
    → watches b.components e.component ≡ true
    → on_error e b ≡ noted e b
unfolding on_error
on_error-watched e b w = rw w refl

on_error-unwatched :
    (e : ErrorOccurred) (b : ConsecutiveErrorBreaker)
    → watches b.components e.component ≡ false
    → on_error e b ≡ b
unfolding on_error
on_error-unwatched e b w = rw w refl

-- What the rest of a run adds to the errors that are recent at `now`.
run-recent :
    (b : ConsecutiveErrorBreaker) (inputs : List Input) (now : Time)
    → IsBy now inputs
    → since (now - b.window) (run b inputs).error_times
      ≡ since (now - b.window) b.error_times
        ++ since (now - b.window) (all_errors b.components inputs)
unfolding run react evaluate all_errors heard
run-recent b [] now h =
    rw (since-nil (now - b.window)) (sym (append-nil (since (now - b.window) b.error_times)))
run-recent b (error e ∷ inputs) now h = elim (Bool-cases (watches b.components e.component)) [
  | inl w ↦
      rw (run, react, all_errors, heard, on_error-watched e b w, w)
        (run-recent (noted e b) inputs now h
          ∙ since-append_append (now - b.window) b.error_times (e.timestamp ∷ [])
              (all_errors b.components inputs))
  | inr w ↦
      rw (run, react, all_errors, heard, on_error-unwatched e b w, w) (run-recent b inputs now h)
]
run-recent b (evaluation context ∷ inputs) now h =
    let after : ConsecutiveErrorBreaker = record b {
      error_times = since (context.now - b.window) b.error_times;
    } in
    let same =
      since-since (context.now - b.window) (now - b.window) b.error_times (omega (arith, h.0)) in
    rw same at (run-recent after inputs now h.1)

run-same :
    (b : ConsecutiveErrorBreaker) (inputs : List Input)
    → ((run b inputs).window ≡ b.window) × ((run b inputs).threshold ≡ b.threshold)
unfolding run react evaluate
run-same b [] = (refl, refl)
run-same b (error e ∷ inputs) = elim (Bool-cases (watches b.components e.component)) [
  | inl w ↦ rw (run, react, on_error-watched e b w) (run-same (noted e b) inputs)
  | inr w ↦ rw (run, react, on_error-unwatched e b w) (run-same b inputs)
]
run-same b (evaluation context ∷ inputs) =
    run-same (record b { error_times = since (context.now - b.window) b.error_times }) inputs

evaluate_iff :
    (b : ConsecutiveErrorBreaker) (context : RiskContext)
    → (is_some (evaluate b context).0 ≡ true)
      ↔ (b.threshold ≤ length (since (context.now - b.window) b.error_times))
unfolding evaluate
evaluate_iff b context = (λ e. ground (arith, e), λ l. ground (arith, l))

-- From a breaker with no errors yet, where no evaluation was later than this one, an evaluation
-- trips exactly when the errors of the whole run that its filter lets through and that are no older
-- than the window number at least the threshold: pruning loses nothing.
pub run-evaluate_iff :
    (b : ConsecutiveErrorBreaker) (inputs : List Input) (context : RiskContext)
    → b.error_times ≡ []
    → IsBy context.now inputs
    → (is_some (evaluate (run b inputs) context).0 ≡ true)
      ↔ (b.threshold ≤ length (since (context.now - b.window) (all_errors b.components inputs)))
run-evaluate_iff b inputs context h k =
    let cutoff : Time = context.now - b.window in
    let recent : List Time = since cutoff (all_errors b.components inputs) in
    let same = run-same b inputs in
    let all : since cutoff (run b inputs).error_times ≡ recent =
      run-recent b inputs context.now k
      ∙ ap (λ ts. since cutoff ts ++ recent) h
      ∙ ap (λ ts. ts ++ recent) (since-nil cutoff) in
    let count : since (context.now - (run b inputs).window) (run b inputs).error_times ≡ recent =
      rw same.0 all in
    let local = evaluate_iff (run b inputs) context in
    (
      λ e. omega (arith, ap length count, same.1, local.0 e),
      λ l. local.1 (omega (arith, ap length count, same.1, l)),
    )
