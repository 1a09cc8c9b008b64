-- ===== src/Runtime/Main/Calm.antt =====
-- The breakers of src/trading/runtime/main.py in an idle session.
use claude_trade_teams.Base.{
  ℕ, ◌+◌, ◌*◌, ◌-◌, ◌≤◌, ◌≡◌, refl, ap, ◌∙◌, true, false, leb, ltb, Option, none, some, List, [],
  ◌∷◌, ◌++◌, map, All, contains, arith, Bool-cases, inl, inr,
}
use claude_trade_teams.Base.Decimal.{Context, Decimal, pos, leb_ℤ, ◌<ℤ◌}
use claude_trade_teams.Base.Dict.{Dict, lookup, insert, lookup-insert}
use claude_trade_teams.Clock.{Clock}
use claude_trade_teams.Domain.{Time, RiskContext, Trigger, TriggerAction, Reason}
use claude_trade_teams.Risk.Breaker.{Breaker}
use claude_trade_teams.Risk.Breaker
use claude_trade_teams.Risk.Drawdown.{DrawdownBreaker, recorded, prune, judge, peak_of}
use claude_trade_teams.Risk.Drawdown
use claude_trade_teams.Risk.Drawdown.Peak.{IsEquityOf, recorded-IsPeak}
use claude_trade_teams.Risk.Silence.{HeartbeatBreaker, on_heartbeat}
use claude_trade_teams.Risk.Silence
use claude_trade_teams.Risk.Manager.{publish_trips}
use claude_trade_teams.Runtime.Main.{second, breakers}
use claude_trade_teams.Runtime.Main.Rounds.{hear, session}

-- The equities of a history are all 0.
abbrev IsZero : Time × Decimal → Type 0
IsZero e = e.1 ≡ pos 0

IsZero-recorded :
    (cutoff now : Time) (x : Decimal) (history : List (Time × Decimal))
    → x ≡ pos 0
    → All IsZero history
    → All IsZero (prune cutoff (history ++ ((now, x) ∷ [])))
unfolding prune
IsZero-recorded cutoff now x [] h z = elim (Bool-cases (leb cutoff now)) [
  | inl e ↦ rw e (h, tt)
  | inr e ↦ rw e tt
]
IsZero-recorded cutoff now x ((t, e) ∷ history) h z =
    let ih = IsZero-recorded cutoff now x history h z.1 in
    elim (Bool-cases (leb cutoff t)) [ inl l ↦ rw l (z.0, ih) | inr l ↦ rw l ih ]

equity_zero :
    (x : Decimal) (history : List (Time × Decimal))
    → IsEquityOf x history
    → All IsZero history
    → x ≡ pos 0
equity_zero x [] h z = elim h [ ]
equity_zero x ((t, e) ∷ rest) (inl h) z = h ∙ z.0
equity_zero x ((t, e) ∷ rest) (inr h) z = equity_zero x rest h z.1

module _ (c : Context) where
  judge_zero :
      (b : DrawdownBreaker) (peak equity : Decimal)
      → peak ≡ pos 0
      → judge c b peak equity ≡ (none, b)
  unfolding judge
  judge_zero b peak equity h =
      let lost : leb_ℤ peak (pos 0) ≡ true = rw h refl in simp (judge, lost) refl

-- the two breakers as a session without a trip leaves them
module _ (five_percent : Decimal) (supervisor drawdown_name heartbeat_name : ℕ) where
  abbrev unmoved : List (Time × Decimal) → DrawdownBreaker
  unmoved history = record {
    threshold = five_percent;
    window = 86400 * second;
    action = TriggerAction.flatten;
    name = drawdown_name;
    equity_history = history;
    latched = false;
    latched_reason = Reason.empty;
  }

  abbrev watching : Dict Time → HeartbeatBreaker
  watching seen = record {
    components = supervisor ∷ [];
    threshold = 10 * second;
    action = TriggerAction.quarantine;
    name = heartbeat_name;
    last_seen = seen;
  }

  drawdown_calm :
      (c : Context) (history : List (Time × Decimal)) (context : RiskContext)
      → context.balance.total ≡ pos 0
      → All IsZero history
      → Drawdown.evaluate c (unmoved history) context
        ≡ some (none, unmoved (recorded (unmoved history) context))
  unfolding Drawdown.evaluate recorded
  drawdown_calm c history context h zeros =
      let now_zeros =
        IsZero-recorded (context.now - 86400 * second) context.now context.balance.total history h
          zeros in
      let (peak, found, is_peak) = recorded-IsPeak (unmoved history) context in
      simp (Drawdown.evaluate, found)
        (ap some (
          judge_zero c (unmoved (recorded (unmoved history) context)) peak context.balance.total
            (equity_zero peak (recorded (unmoved history) context) is_peak.1 now_zeros)))

  hear_calm :
      (beat : Time) (seen : Dict Time)
      → on_heartbeat (record { component = supervisor; timestamp = beat }) (watching seen)
        ≡ watching (insert supervisor beat seen)
  unfolding on_heartbeat
  hear_calm beat seen =
      let heard : contains supervisor (supervisor ∷ []) ≡ true = ground arith in
      simp (on_heartbeat, heard) refl

  silence_calm :
      (beat : Time) (seen : Dict Time) (context : RiskContext)
      → context.now ≤ beat + 10 * second
      → Silence.evaluate (watching (insert supervisor beat seen)) context ≡ none
  unfolding Silence.evaluate Silence.check
  silence_calm beat seen context h =
      let found : lookup supervisor (insert supervisor beat seen) ≡ some beat =
        lookup-insert supervisor supervisor beat seen ∙ ground arith in
      let awake : ltb (10 * second) (context.now - beat) ≡ false = ground (arith, h) in
      let alive : Silence.check (watching (insert supervisor beat seen)) context.now supervisor
          ≡ none =
        rw (Silence.check, found, awake) refl in
      ap (λ (o : Option Trigger). elim o [ none ↦ none | some t ↦ some t ]) alive

  -- what a session needs: no equity, and evaluations within ten seconds of the heartbeat before
  abbrev pub IsIdle : Time × RiskContext → Type 0
  IsIdle (beat, context) = (context.balance.total ≡ pos 0) × (context.now ≤ beat + 10 * second)

  tick_calm :
      (c : Context) (history : List (Time × Decimal)) (beat : Time) (seen : Dict Time)
      (context : RiskContext) (clock : Clock)
      → IsIdle (beat, context)
      → All IsZero history
      → publish_trips c
          (map
            (hear (record { component = supervisor; timestamp = beat }))
            (Breaker.drawdown (unmoved history) ∷ Breaker.heartbeat (watching seen) ∷ []))
          context
          clock
        ≡ some (
          [],
          Breaker.drawdown (unmoved (recorded (unmoved history) context))
              ∷ Breaker.heartbeat (watching (insert supervisor beat seen))
              ∷ [],
          clock,
        )
  unfolding publish_trips Breaker.evaluate
  tick_calm c history beat seen context clock h zeros = rw (hear_calm beat seen) (
      rw
        (
          publish_trips,
          Breaker.evaluate,
          drawdown_calm c history context h.0 zeros,
          silence_calm beat seen context h.1,
        )
        refl)

  session_calm :
      (c : Context) (rounds : List (Time × RiskContext)) (history : List (Time × Decimal))
      (seen : Dict Time) (clock : Clock)
      → All IsIdle rounds
      → All IsZero history
      → (bs : List Breaker) × (session c supervisor rounds
            (Breaker.drawdown (unmoved history) ∷ Breaker.heartbeat (watching seen) ∷ [])
            clock
          ≡ some ([], bs, clock))
  unfolding session recorded
  session_calm c [] history seen clock h zeros = (_, refl)
  session_calm c ((beat, context) ∷ rounds) history seen clock h zeros =
      let (bs, e) =
        session_calm c rounds (recorded (unmoved history) context) (insert supervisor beat seen)
          clock h.1
          (IsZero-recorded (context.now - 86400 * second) context.now context.balance.total history
            h.0.0 zeros) in
      (bs, rw (session, tick_calm c history beat seen context clock h.0 zeros, e) refl)

  -- An idle session never trips: with the breakers of the entry point, whose threshold is positive, no
  -- equity in any context, and each evaluation within ten seconds of the heartbeat of its round, the
  -- ticks of the risk manager publish nothing and none of them raises.
  pub session-breakers :
      (c : Context) (rounds : List (Time × RiskContext)) (clock : Clock)
      → pos 0 <ℤ five_percent
      → All IsIdle rounds
      → (bs : List Breaker) × (bs' : List Breaker) × (breakers five_percent supervisor drawdown_name
            heartbeat_name
          ≡ some bs)
        × (session c supervisor rounds bs clock ≡ some ([], bs', clock))
  unfolding breakers Drawdown.new Silence.new
  session-breakers c rounds clock h idle =
      let (bs, e) = session_calm c rounds [] [] clock idle tt in
      let positive : leb_ℤ five_percent (pos 0) ≡ false = ground (arith, h) in
      (_, bs, rw (breakers, Drawdown.new, positive) refl, e)
