-- ===== src/Risk/Cooldown.antt =====
-- src/trading/risk/breakers/rate_limit.py: the breaker that latches for a fixed time.
use claude_trade_teams.Base.{
  ℕ, ◌+◌, ◌-◌, ◌≤◌, ◌<◌, ◌≡◌, refl, sym, ap, Bool, true, false, ◌==◌, ◌||◌, ◌&&◌, if◌then◌else◌,
  leb, ltb, Option, none, some, List, [], ◌∷◌, ◌++◌, length, All, arith, Bool-cases, inl, inr,
}
use claude_trade_teams.Domain.{Time, RiskContext, Trigger, TriggerAction, Reason, ErrorOccurred}
use claude_trade_teams.Risk.Errors.{since}

pub record RateLimitBreaker : Type 0 where
  pub threshold : ℕ
  pub window : ℕ
  pub cooldown : ℕ
  pub matched : List ℕ
  pub action : TriggerAction
  pub name : ℕ
  pub error_times : List Time
  pub tripped_until : Option Time

-- the constructor, which raises on a threshold below 1
unfoldable pub new : ℕ → ℕ → ℕ → List ℕ → TriggerAction → ℕ → Option RateLimitBreaker
new threshold window cooldown matched action name =
    if leb 1 threshold
    then some (record {
      threshold = threshold;
      window = window;
      cooldown = cooldown;
      matched = matched;
      action = action;
      name = name;
      error_times = [];
      tripped_until = none;
    })
    else none

-- whether a text starts with a pattern
abbrev pub starts_with : List ℕ → List ℕ → Bool
starts_with [] text = true
starts_with (p ∷ pattern) [] = false
starts_with (p ∷ pattern) (x ∷ text) = p == x && starts_with pattern text

-- `pattern in text`, of two strings
abbrev pub is_in : List ℕ → List ℕ → Bool
is_in pattern [] = starts_with pattern []
is_in pattern (x ∷ text) = starts_with pattern (x ∷ text) || is_in pattern text

-- `_on_error`
unfoldable pub on_error : ErrorOccurred → RateLimitBreaker → RateLimitBreaker
on_error error b =
    if is_in b.matched error.exception_type
    then record b { error_times = b.error_times ++ (error.timestamp ∷ []) }
    else b

-- the second half of `evaluate`, which counts the errors in the window
unfoldable pub evaluate_fresh : RateLimitBreaker → RiskContext → Option Trigger × RateLimitBreaker
evaluate_fresh b context =
    let recent = since (context.now - b.window) b.error_times in
    if leb b.threshold (length recent)
    then (
      some (record {
        breaker_name = b.name;
        action = b.action;
        reason = Reason.rate_limited (length recent) b.window b.cooldown;
      }),
      record b { error_times = recent; tripped_until = some (context.now + b.cooldown) },
    )
    else (none, record b { error_times = recent })

-- the trigger of a breaker that cools down
abbrev pub cooling_trigger : RateLimitBreaker → Time → RiskContext → Trigger
cooling_trigger b until context = record {
  breaker_name = b.name;
  action = b.action;
  reason = Reason.cooldown_active (until - context.now);
}

-- `evaluate`
unfoldable pub evaluate : RateLimitBreaker → RiskContext → Option Trigger × RateLimitBreaker
evaluate b context = elim b.tripped_until [
  | none ↦ evaluate_fresh b context
  | some until ↦
      if ltb context.now until
      then (some (cooling_trigger b until context), b)
      else evaluate_fresh (record b { tripped_until = none; error_times = [] }) context
]

-- What reaches the breaker: an error, or an evaluation.
pub data Input : Type 0 where
  error : ErrorOccurred → Input
  evaluation : RiskContext → Input

unfoldable pub react : RateLimitBreaker → Input → RateLimitBreaker
react b (error e) = on_error e b
react b (evaluation context) = (evaluate b context).1

unfoldable pub run : RateLimitBreaker → List Input → RateLimitBreaker
run b [] = b
run b (i ∷ inputs) = run (react b i) inputs

-- Every evaluation is before `until`.
abbrev pub IsBefore : Time → Input → Type 0
IsBefore until (error _) = Unit
IsBefore until (evaluation context) = context.now < until

evaluate-cooling :
    (b : RateLimitBreaker) (context : RiskContext) (until : Time)
    → b.tripped_until ≡ some until
    → context.now < until
    → evaluate b context ≡ (some (cooling_trigger b until context), b)
unfolding evaluate
evaluate-cooling b context until h l =
    let t : ltb context.now until ≡ true = ground arith in simp (evaluate, h, t) refl

react-cooling :
    (b : RateLimitBreaker) (i : Input) (until : Time)
    → b.tripped_until ≡ some until
    → IsBefore until i
    → (react b i).tripped_until ≡ some until
unfolding react on_error
react-cooling b (error e) until h l = elim (Bool-cases (is_in b.matched e.exception_type)) [
  | inl w ↦ rw (react, on_error, w) h
  | inr w ↦ rw (react, on_error, w) h
]
react-cooling b (evaluation context) until h l = rw (react, evaluate-cooling b context until h l) h

run-cooling :
    (b : RateLimitBreaker) (inputs : List Input) (until : Time)
    → b.tripped_until ≡ some until
    → All (IsBefore until) inputs
    → (run b inputs).tripped_until ≡ some until
unfolding run
run-cooling b [] until h l = h
run-cooling b (i ∷ inputs) until h l =
    run-cooling (react b i) inputs until (react-cooling b i until h l.0) l.1

evaluate_fresh-until :
    (b after : RateLimitBreaker) (context : RiskContext) (t : Trigger)
    → evaluate_fresh b context ≡ (some t, after)
    → after.tripped_until ≡ some (context.now + b.cooldown)
unfolding evaluate_fresh
evaluate_fresh-until b after context t h =
    elim (Bool-cases (leb b.threshold (length (since (context.now - b.window) b.error_times)))) [
      | inl e ↦ sym (
          ap (λ (r : Option Trigger × RateLimitBreaker). r.1.tripped_until)
            (rw (evaluate_fresh, e) at h))
      | inr e ↦
          let g = rw (evaluate_fresh, e) at h in
          let no : none ≡ some t = ap (λ (r : Option Trigger × RateLimitBreaker). r.0) g in
          ground (arith, no)
    ]

-- A fresh evaluation that trips at `context.now` opens a cooldown: whatever errors and evaluations
-- come before its end, an evaluation before its end trips as well, and says how long is left.
pub evaluate_fresh-cools :
    (b after : RateLimitBreaker) (context later : RiskContext) (t : Trigger) (inputs : List Input)
    → evaluate_fresh b context ≡ (some t, after)
    → All (IsBefore (context.now + b.cooldown)) inputs
    → later.now < context.now + b.cooldown
    → evaluate (run after inputs) later ≡ (
      some (cooling_trigger (run after inputs) (context.now + b.cooldown) later),
      run after inputs,
    )
evaluate_fresh-cools b after context later t inputs h l k =
    let until : Time = context.now + b.cooldown in
    let u = evaluate_fresh-until b after context t h in
    evaluate-cooling (run after inputs) later until (run-cooling after inputs until u l) k

-- At the end of a cooldown the errors so far are forgotten: the evaluation is a fresh one with no
-- errors, so that it does not trip.
pub evaluate-after_cooldown :
    (b : RateLimitBreaker) (context : RiskContext) (until : Time)
    → b.tripped_until ≡ some until
    → until ≤ context.now
    → 1 ≤ b.threshold
    → evaluate b context ≡ (none, record b { tripped_until = none; error_times = [] })
unfolding evaluate evaluate_fresh since
evaluate-after_cooldown b context until h l k =
    let t : ltb context.now until ≡ false = ground arith in
    let z : leb b.threshold 0 ≡ false = ground arith in rw (evaluate, h, t, z) refl
