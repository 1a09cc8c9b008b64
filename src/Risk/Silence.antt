-- ===== src/Risk/Silence.antt =====
-- src/trading/risk/breakers/heartbeat.py: the breaker on components that fall silent.
use claude_trade_teams.Base.{
  All, ℕ, ◌+◌, ◌-◌, ◌≤◌, ◌≡◌, ◌↔◌, refl, sym, ap, subst, ◌∙◌, All-iff_contains, ==_sound, true,
  false, ◌==◌, if◌then◌else◌, ltb, Option, none, some, List, [], ◌∷◌, contains, arith, Bool-cases,
  Option-cases, inl, inr,
}
use claude_trade_teams.Base.Dict.{Dict, lookup, insert, lookup-insert}
use claude_trade_teams.Domain.{Time, RiskContext, Trigger, TriggerAction, Reason, Heartbeat}
use claude_trade_teams.Risk.Loop.{first_trigger, silent_iff}

-- `components` is a set, in the order in which it is iterated.
pub record HeartbeatBreaker : Type 0 where
  pub components : List ℕ
  pub threshold : ℕ
  pub action : TriggerAction
  pub name : ℕ
  pub last_seen : Dict Time

unfoldable pub new : List ℕ → ℕ → TriggerAction → ℕ → HeartbeatBreaker
new components threshold action name = record {
  components = components;
  threshold = threshold;
  action = action;
  name = name;
  last_seen = [];
}

-- `_on_heartbeat`
unfoldable pub on_heartbeat : Heartbeat → HeartbeatBreaker → HeartbeatBreaker
on_heartbeat heartbeat b =
    if contains heartbeat.component b.components
    then record b { last_seen = insert heartbeat.component heartbeat.timestamp b.last_seen }
    else b

-- One round of the loop of `evaluate`. A difference below 0 is 0 here, and neither is above the
-- threshold, which is not negative.
unfoldable pub check : HeartbeatBreaker → Time → ℕ → Option Trigger
check b now component = elim (lookup component b.last_seen) [
  | none ↦ none
  | some last ↦
      if ltb b.threshold (now - last)
      then some (record {
        breaker_name = b.name;
        action = b.action;
        reason = Reason.silent_for component (now - last) b.threshold;
      })
      else none
]

-- `evaluate`
unfoldable pub evaluate : HeartbeatBreaker → RiskContext → Option Trigger
evaluate b context = first_trigger (check b context.now) b.components

-- The breaker after a sequence of heartbeats.
unfoldable pub hear : HeartbeatBreaker → List Heartbeat → HeartbeatBreaker
hear b [] = b
hear b (h ∷ heartbeats) = hear (on_heartbeat h b) heartbeats

-- when a component was last heard among some heartbeats, or before them
unfoldable pub last_heard : ℕ → Option Time → List Heartbeat → Option Time
last_heard component before [] = before
last_heard component before (h ∷ heartbeats) =
    last_heard component (if component == h.component then some h.timestamp else before) heartbeats

-- The last heartbeat of the component, where it had one, is no older than the threshold.
abbrev pub IsAlive : ℕ → Time → Option Time → Type 0
IsAlive threshold now none = Unit
IsAlive threshold now (some last) = now ≤ last + threshold

check_iff :
    (b : HeartbeatBreaker) (now : Time) (component : ℕ)
    → (check b now component ≡ none) ↔ IsAlive b.threshold now (lookup component b.last_seen)
unfolding check
check_iff b now component = elim (Option-cases (lookup component b.last_seen)) [
  | inl e ↦ rw (check, e) ((λ h. tt, λ h. refl))
  | inr (last, e) ↦ rw (check, e) ((λ h. ground arith, λ h. ground arith))
]

evaluate_iff :
    (b : HeartbeatBreaker) (context : RiskContext)
    → (evaluate b context ≡ none) ↔ (
        (component : ℕ)
        → contains component b.components ≡ true
        → IsAlive b.threshold context.now (lookup component b.last_seen))
unfolding evaluate
evaluate_iff b context =
    let loop = silent_iff (check b context.now) b.components (check_iff b context.now) in
    let members = All-iff_contains _ b.components in
    (λ e. members.0 (loop.0 e), λ f. loop.1 (members.1 f))

-- the breaker with a heartbeat noted
abbrev noted : Heartbeat → HeartbeatBreaker → HeartbeatBreaker
noted h b = record b { last_seen = insert h.component h.timestamp b.last_seen }

hear-lookup :
    (b : HeartbeatBreaker) (heartbeats : List Heartbeat) (component : ℕ)
    → contains component b.components ≡ true
    → lookup component (hear b heartbeats).last_seen
      ≡ last_heard component (lookup component b.last_seen) heartbeats
unfolding hear last_heard on_heartbeat
hear-lookup b [] component h = refl
hear-lookup b (x ∷ heartbeats) component h = elim (Bool-cases (contains x.component b.components)) [
  | inl w ↦
      rw (hear, on_heartbeat, w)
        (hear-lookup (noted x b) heartbeats component h
          ∙ ap (λ o. last_heard component o heartbeats)
              (lookup-insert component x.component x.timestamp b.last_seen))
  | inr w ↦
      let other : component == x.component ≡ false = elim (Bool-cases (component == x.component)) [
        | inl e ↦
            let same = ap (λ n. contains n b.components) (==_sound component x.component e) in
            ground (arith, same, h, w)
        | inr e ↦ e
      ] in
      rw (hear, on_heartbeat, last_heard, w, other) (hear-lookup b heartbeats component h)
]

hear-same :
    (b : HeartbeatBreaker) (heartbeats : List Heartbeat)
    → ((hear b heartbeats).components ≡ b.components)
      × ((hear b heartbeats).threshold ≡ b.threshold)
unfolding hear on_heartbeat
hear-same b [] = (refl, refl)
hear-same b (x ∷ heartbeats) = elim (Bool-cases (contains x.component b.components)) [
  | inl w ↦ rw (hear, on_heartbeat, w) (hear-same (noted x b) heartbeats)
  | inr w ↦ rw (hear, on_heartbeat, w) (hear-same b heartbeats)
]

IsAlive-iff :
    (b : HeartbeatBreaker) (heartbeats : List Heartbeat) (context : RiskContext)
    → b.last_seen ≡ []
    → (evaluate (hear b heartbeats) context ≡ none) ↔ (
        (component : ℕ)
        → contains component b.components ≡ true
        → IsAlive b.threshold context.now (last_heard component none heartbeats))
IsAlive-iff b heartbeats context h =
    let same = hear-same b heartbeats in
    let local = evaluate_iff (hear b heartbeats) context in
    let heard : (component : ℕ)
        → contains component b.components ≡ true
        → lookup component (hear b heartbeats).last_seen ≡ last_heard component none heartbeats =
      λ component w.
        hear-lookup b heartbeats component w
        ∙ ap (λ d. last_heard component (lookup component d) heartbeats) h in
    let member = λ (component : ℕ). ap (λ cs. contains component cs) same.0 in
    (
      λ e component w.
          subst (λ o. IsAlive b.threshold context.now o) (heard component w)
            (subst (λ t. IsAlive t context.now (lookup component (hear b heartbeats).last_seen))
              same.1 (local.0 e component (member component ∙ w))),
      λ f. local.1 (λ component w.
          let v = sym (member component) ∙ w in
          subst (λ t. IsAlive t context.now (lookup component (hear b heartbeats).last_seen))
            (sym same.1)
            (subst (λ o. IsAlive b.threshold context.now o) (sym (heard component v))
              (f component v))),
    )

-- After any heartbeats a breaker that had seen none stays silent exactly when each watched
-- component, as last heard in them, is no longer silent than the threshold; a component that was
-- never heard does not count.
pub hear-evaluate_iff :
    (b : HeartbeatBreaker) (heartbeats : List Heartbeat) (context : RiskContext)
    → b.last_seen ≡ []
    → (evaluate (hear b heartbeats) context ≡ none)
      ↔ All
          (λ component. IsAlive b.threshold context.now (last_heard component none heartbeats))
          b.components
hear-evaluate_iff b heartbeats context h =
    let alive = IsAlive-iff b heartbeats context h in
    let members = All-iff_contains _ b.components in
    (λ e. members.1 (alive.0 e), λ a. alive.1 (members.0 a))
