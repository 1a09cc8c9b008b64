-- ===== src/Risk/Manager/Gate.antt =====
-- When src/trading/risk/default.py approves, whom it blames, and what a tick publishes.
use claude_trade_teams.Base.{
  ◌≡◌, refl, ap, map, some-injective, ◌∙◌, ◌⊎◌, Option, none, some, List, [], ◌∷◌, arith,
  Option-cases, inl, inr,
}
use claude_trade_teams.Base.Decimal.{Context}
use claude_trade_teams.Domain.{RiskContext, Trigger, Decision, BreakerTripped}
use claude_trade_teams.Clock.{Clock, now}
use claude_trade_teams.Risk.Breaker.{Breaker, evaluate, evaluate-returns}
use claude_trade_teams.Risk.Manager.{
  Answers, build_context, decide, publish_trips, check, tick, rejection, tripped,
}

module _ (c : Context) (context : RiskContext) where
  -- the trigger of a breaker, if it has one
  abbrev pub verdict : Breaker → Option Trigger
  verdict b = elim (evaluate c b context) [ none ↦ none | some r ↦ r.0 ]

  -- the first trigger among some breakers, in their order
  abbrev pub first_verdict : List Breaker → Option Trigger
  first_verdict [] = none
  first_verdict (b ∷ bs) =
      let rest = first_verdict bs in elim (verdict b) [ none ↦ rest | some t ↦ some t ]

  -- all their triggers, in their order
  abbrev pub all_verdicts : List Breaker → List Trigger
  all_verdicts [] = []
  all_verdicts (b ∷ bs) =
      let rest = all_verdicts bs in elim (verdict b) [ none ↦ rest | some t ↦ t ∷ rest ]

  -- the decision that answers a first trigger
  abbrev pub decision_of : Option Trigger → Decision
  decision_of none = Decision.approved
  decision_of (some t) = rejection t

  evaluate-cases :
      (b : Breaker)
      → ((b' : Breaker) × (evaluate c b context ≡ some (none, b')))
        ⊎ ((t : Trigger) × (b' : Breaker) × (evaluate c b context ≡ some (some t, b')))
  evaluate-cases b =
      let (returned, e) = evaluate-returns c b context in
      elim (Option-cases returned.0) [
        | inl k ↦ inl (returned.1, e ∙ ap (λ o. some (o, returned.1)) k)
        | inr (t, k) ↦ inr (t, returned.1, e ∙ ap (λ o. some (o, returned.1)) k)
      ]

  -- In a context that is built, the loop always decides, by the first breaker that trips.
  pub decide-first_verdict :
      (bs : List Breaker)
      → (after : List Breaker) × (decide c bs context
          ≡ some (decision_of (first_verdict bs), after))
  unfolding decide
  decide-first_verdict [] = ([], refl)
  decide-first_verdict (b ∷ bs) =
      let (after, ih) = decide-first_verdict bs in
      elim (evaluate-cases b) [
        | inl (b', e) ↦ (b' ∷ after, rw (decide, first_verdict, e, ih) refl)
        | inr (t, b', e) ↦ (b' ∷ bs, rw (decide, first_verdict, e) refl)
      ]

  -- what an event tells of its trigger
  abbrev pub trigger_of : BreakerTripped → Trigger
  trigger_of e = record { breaker_name = e.breaker_name; action = e.action; reason = e.reason }

  -- The loop of a tick evaluates every breaker and publishes one event for each that trips, in registration
  -- order, with its name, action and reason.
  pub publish_trips-all_verdicts :
      (bs : List Breaker) (clock : Clock)
      → (events : List BreakerTripped) × (after : List Breaker) × (clock' : Clock) × (publish_trips
            c bs context clock
          ≡ some (events, after, clock'))
        × (map trigger_of events ≡ all_verdicts bs)
  unfolding publish_trips
  publish_trips-all_verdicts [] clock = ([], [], clock, refl, refl)
  publish_trips-all_verdicts (b ∷ bs) clock = elim (evaluate-cases b) [
    | inl (b', e) ↦
        let (events, after, clock', ih, same) = publish_trips-all_verdicts bs clock in
        (events, b' ∷ after, clock', rw (publish_trips, e, ih) refl, rw (all_verdicts, e) same)
    | inr (t, b', e) ↦
        let (events, after, clock', ih, same) = publish_trips-all_verdicts bs (now clock).1 in
        (
          tripped t (now clock).0 ∷ events,
          b' ∷ after,
          clock',
          rw (publish_trips, e, ih) refl,
          rw (all_verdicts, e) (ap (λ ts. t ∷ ts) same),
        )
  ]

  -- Where the gate approves, a tick in the same context publishes nothing, and leaves the breakers
  -- as the gate does.
  pub decide-publish_trips :
      (bs after : List Breaker) (clock : Clock)
      → decide c bs context ≡ some (Decision.approved, after)
      → publish_trips c bs context clock ≡ some ([], after, clock)
  unfolding decide publish_trips
  decide-publish_trips [] after clock h =
      ap
        (λ (r : Option (Decision × List Breaker)). elim r [
          | none ↦ none
          | some d ↦ some ([], d.1, clock)
        ])
        h
  decide-publish_trips (b ∷ bs) after clock h =
      let (rest, d) = decide-first_verdict bs in
      elim (evaluate-cases b) [
        | inl (b', e) ↦
            let g = some-injective _ _ (rw (decide, e, d) at h) in
            let ih =
              decide-publish_trips bs rest clock
                (d ∙ ap (λ x. some (x, rest)) (ap (λ (r : Decision × List Breaker). r.0) g)) in
            rw (publish_trips, e, ih)
              (ap (λ (r : Decision × List Breaker). some ([], r.1, clock)) g)
        | inr (t, b', e) ↦
            let g = some-injective _ _ (rw (decide, e) at h) in
            let no : rejection t ≡ Decision.approved =
              ap (λ (r : Decision × List Breaker). r.0) g in
            ground (arith, no)
      ]

-- The risk gate raises where a question of its context raises, and then leaves the breakers as they
-- are. Otherwise it decides, by the first breaker in registration order that trips in the context:
-- it approves where none does, and otherwise rejects with that breaker's reason and name.
pub check-decides :
    (c : Context) (answers : Answers) (bs : List Breaker) (clock : Clock)
    → (after : List Breaker) × (check c answers (bs, clock) ≡ (elim (build_context answers clock) [
      | none ↦ (none, bs, clock)
      | some (context, clock') ↦
          (some (decision_of c context (first_verdict c context bs)), after, clock')
    ]))
unfolding check
check-decides c answers bs clock = elim (Option-cases (build_context answers clock)) [
  | inl k ↦ (bs, rw (check, k) refl)
  | inr ((context, clock'), k) ↦
      let (after, e) = decide-first_verdict c context bs in (after, rw (check, k, e) refl)
]

-- In a context that is built, a tick publishes one event for each breaker that trips, in
-- registration order, with its name, action and reason.
pub tick-publish_trips :
    (c : Context) (answers : Answers) (bs : List Breaker) (clock clock' : Clock)
    (context : RiskContext)
    → build_context answers clock ≡ some (context, clock')
    → (events : List BreakerTripped) × (after : List Breaker) × (left : Clock) × (tick c answers
          (bs, clock)
        ≡ (some events, after, left))
      × (map (trigger_of c context) events ≡ all_verdicts c context bs)
unfolding tick
tick-publish_trips c answers bs clock clock' context k =
    let (events, after, left, e, same) = publish_trips-all_verdicts c context bs clock' in
    (events, after, left, rw (tick, k, e) refl, same)
