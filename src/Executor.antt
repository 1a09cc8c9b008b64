-- ===== src/Executor.antt =====
-- src/trading/executor/default.py: an intent passes the risk gate before it reaches the order manager.
use claude_trade_teams.Base.{
  ◌≡◌, ap, ◌∙◌, refl, Option-cases, inl, inr, Option, none, some, List, ℕ, Bool,
}
use claude_trade_teams.Base.Decimal.{Context}
use claude_trade_teams.Domain.{
  ClientOrderId, Time, TradeIntent, SubmitResult, Decision, approved, rejected, OrderId, Symbol,
  Order, Position, Balance,
}
use claude_trade_teams.Clock.{Clock}
use claude_trade_teams.Journal.OrderLog.{JournalCalls}
use claude_trade_teams.Oms.Cache.{Oms}
use claude_trade_teams.Oms.Cache
use claude_trade_teams.Oms.Submit
use claude_trade_teams.Oms.Submit.{Venue, submit, cancel}
use claude_trade_teams.Pms
use claude_trade_teams.Pms.{Pms}
use claude_trade_teams.Risk.Breaker.{Breaker}
use claude_trade_teams.Risk.Manager.{Answers, build_context, check}
use claude_trade_teams.Risk.Manager.Gate.{first_verdict, check-decides}

module _ (c : Context) {J : Type 0} ⦃calls : JournalCalls J⦄ {S : Type 0} (venue : Venue S) where
  -- the `match` of `submit_intent`
  unfoldable pub route :
      Decision → ClientOrderId → Time → TradeIntent → Oms J × S → SubmitResult × Oms J × S
  route approved cid submitted_at intent w = submit c venue cid submitted_at intent w
  route (rejected reason breaker_name) cid submitted_at intent w =
      (SubmitResult.risk_rejected reason breaker_name, w.0, w.1)

  -- what `submit_intent` does when `check` has ended
  unfoldable pub conclude :
      ClientOrderId
      → Time
      → TradeIntent
      → Oms J × S
      → Option Decision × List Breaker × Clock
      → Option SubmitResult × List Breaker × Clock × Oms J × S
  conclude cid submitted_at intent w (none, breakers, clock) = (none, breakers, clock, w.0, w.1)
  conclude cid submitted_at intent w (some decision, breakers, clock) =
      let (result, s, v) = route decision cid submitted_at intent w in
      (some result, breakers, clock, s, v)

  -- `submit_intent`, with what the managers answer to the questions of the risk manager, and with
  -- what is left of the breakers, of the clock of the risk manager, of the order manager and of the
  -- venue; `none` if it raises
  unfoldable pub submit_intent :
      Answers
      → ClientOrderId
      → Time
      → TradeIntent
      → List Breaker × Clock × Oms J × S
      → Option SubmitResult × List Breaker × Clock × Oms J × S
  submit_intent answers cid submitted_at intent (breakers, clock, s, v) =
      conclude cid submitted_at intent (s, v) (check c answers (breakers, clock))

  -- `cancel_order`
  abbrev pub cancel_order : OrderId → Oms J × S → Option Bool × Oms J × S
  cancel_order = cancel c venue

  -- `cancel_all`
  abbrev pub cancel_all : Option Symbol → Oms J × S → Option ℕ × Oms J × S
  cancel_all = Submit.cancel_all c venue

  -- Where a question of the risk manager raises, so does the submission of an intent, before any
  -- breaker is evaluated, and all is left as it is. Otherwise the intent reaches the order manager
  -- exactly where no breaker trips: then the answer and the state are those of its submission, and
  -- where one trips the answer names the first, with its reason, and neither the order manager nor
  -- the venue is touched.
  pub submit_intent-gated :
      (answers : Answers) (cid : ClientOrderId) (submitted_at : Time) (intent : TradeIntent)
      (breakers : List Breaker) (clock : Clock) (s : Oms J) (v : S)
      → (after : List Breaker) × (submit_intent answers cid submitted_at intent
            (breakers, clock, s, v)
          ≡ (elim (build_context answers clock) [
            | none ↦ (none, breakers, clock, s, v)
            | some (context, clock') ↦ elim (first_verdict c context breakers) [
              | none ↦
                  let r = submit c venue cid submitted_at intent (s, v) in
                  (some r.0, after, clock', r.1, r.2)
              | some t ↦ (
                some (SubmitResult.risk_rejected t.reason (some t.breaker_name)),
                after,
                clock',
                s,
                v,
              )
            ]
          ]))
  unfolding submit_intent conclude route
  submit_intent-gated answers cid submitted_at intent breakers clock s v =
      let (after, e) = check-decides c answers breakers clock in
      (
        after,
        ap (conclude cid submitted_at intent (s, v)) e
            ∙ elim (Option-cases (build_context answers clock)) [
              | inl n ↦ rw n refl
              | inr ((context, clock'), n) ↦
                  elim (Option-cases (first_verdict c context breakers)) [
                    | inl k ↦ rw (n, k) refl
                    | inr (t, k) ↦ rw (n, k) refl
                  ]
            ],
      )

-- `open_orders`
abbrev pub open_orders : {J : Type 0} → Option Symbol → Oms J → List Order
open_orders = Cache.open_orders

-- `positions`
abbrev pub positions : Pms → List Position
positions = Pms.get_positions

-- `position`
abbrev pub position : Symbol → Pms → Option Position
position = Pms.get_position

-- `balance`, with the venue's answer if it is asked
abbrev pub balance : Option Balance → Pms → Option Balance × Pms
balance = Pms.get_balance
