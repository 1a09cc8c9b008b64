-- ===== src/Examples/OmsCases.antt =====
-- The theorems on src/trading/oms, src/trading/pms and src/trading/executor at concrete inputs.
use claude_trade_teams.Base.{ℕ, suc, arith, ◌≡◌, refl, false, none, some, List, [], ◌∷◌}
use claude_trade_teams.Base.Decimal.{whole, pos}
use claude_trade_teams.Base.Dict.{lookup}
use claude_trade_teams.Domain.{SubmitResult, TriggerAction, VenueEvent}
use claude_trade_teams.Fill.Engine.{immediate-IsSound}
use claude_trade_teams.Journal.OrderLog.{in_memory, empty_journal}
use claude_trade_teams.Journal.AccountLog.{AccountJournal}
use claude_trade_teams.Oms.Cache.{new, start, deliver}
use claude_trade_teams.Oms.Submit.{Venue, placed, submitted_order, submit, cancel_all}
use claude_trade_teams.Oms.Restart.{
  live, IsTracked, start-IsTracked, deliver-IsTracked, start-submit,
}
use claude_trade_teams.Oms.Emergency.{paper_venue, cancel_all-get_open_orders}
use claude_trade_teams.Oms.Mirror.{Reach-Mirrors}
use claude_trade_teams.Pms
use claude_trade_teams.Pms.Restart.{newer, start-reconcile}
use claude_trade_teams.Clock.{now}
use claude_trade_teams.Risk.Breaker.{Breaker}
use claude_trade_teams.Risk.Manager.{build_context}
use claude_trade_teams.Risk.Manager.Gate.{first_verdict}
use claude_trade_teams.Executor.{submit_intent, submit_intent-gated}
use claude_trade_teams.Examples.Data.{
  ticking, market_order, a_fill, an_intent, a_position, balance_of, context_of, answers_of,
  paper_config,
}
use claude_trade_teams.Examples.PaperCases.{session, session-Reach}

Reach-Mirrors_example :
    lookup 1 (deliver whole session.outbox (new empty_journal)).orders ≡ lookup 1 session.all_orders
Reach-Mirrors_example =
    Reach-Mirrors whole paper_config (immediate-IsSound 0) ticking empty_journal session-Reach 1

abbrev reports : List VenueEvent
reports = VenueEvent.order_update market_order ∷ VenueEvent.fill a_fill ∷ []

new-IsTracked : IsTracked (new empty_journal)
new-IsTracked = record { own = λ oid x h. ground arith; same = λ oid. refl }

deliver-IsTracked_example : IsTracked (deliver whole reports (new empty_journal))
deliver-IsTracked_example = deliver-IsTracked whole reports (new empty_journal) new-IsTracked

start-IsTracked_example :
    lookup 1 (start (deliver whole reports (new empty_journal))).orders
    ≡ live (lookup 1 (deliver whole reports (new empty_journal)).orders)
start-IsTracked_example =
    start-IsTracked (deliver whole reports (new empty_journal)) 1 deliver-IsTracked_example

-- a venue that fills every order at once
abbrev eager : Venue ℕ
eager = record {
  place_order = λ request n. (placed 1, reports, suc n);
  cancel_order = λ oid n. (some false, [], n);
}

start-submit_example :
    lookup 1 (start (submit whole eager 1 50 an_intent (new empty_journal, 0)).1).orders
    ≡ some (submitted_order 1 1 50 an_intent)
start-submit_example = start-submit whole eager 1 50 an_intent (new empty_journal) 0 1 refl

abbrev strict_gate : List Breaker
strict_gate =
    Breaker.leverage (record { limit = pos 1; action = TriggerAction.reject_new; name = 1 }) ∷ []

submit_intent-gated_example :
    (after : List Breaker) × (submit_intent whole eager
        (answers_of 80)
        1
        50
        an_intent
        (strict_gate, ticking, new empty_journal, 0)
      ≡ (elim (first_verdict whole (context_of 80) strict_gate) [
        | none ↦
            let r = submit whole eager 1 50 an_intent (new empty_journal, 0) in
            (some r.0, after, (now ticking).1, r.1, r.2)
        | some t ↦ (
          some (SubmitResult.risk_rejected t.reason (some t.breaker_name)),
          after,
          (now ticking).1,
          new empty_journal,
          0,
        )
      ]))
unfolding build_context
submit_intent-gated_example =
    submit_intent-gated whole eager (answers_of 80) 1 50 an_intent strict_gate ticking
      (new empty_journal) 0

abbrev journal_with_one : AccountJournal
journal_with_one = record { positions = a_position ∷ []; balances = [] }

abbrev a_pms : Pms.Pms
a_pms = Pms.new (some journal_with_one)

start-reconcile_example :
    lookup 7 (Pms.start (Pms.reconcile (some []) (some (balance_of 5)) a_pms).1).positions
    ≡ (elim (lookup 7 (Pms.by_symbol [])) [
      | none ↦ lookup 7 (Pms.start a_pms).positions
      | some p ↦ newer (lookup 7 (Pms.start a_pms).positions) p
    ])
start-reconcile_example = start-reconcile 7 a_pms journal_with_one [] (balance_of 5) refl

cancel_all-get_open_orders_example :
    (n : ℕ) × ((cancel_all whole
        (paper_venue whole paper_config)
        none
        (deliver whole session.outbox (new empty_journal), session)).0
      ≡ some n)
    × ((oid : ℕ)
        → lookup oid
            (cancel_all whole
              (paper_venue whole paper_config)
              none
              (deliver whole session.outbox (new empty_journal), session)).2.open_orders
          ≡ none)
cancel_all-get_open_orders_example =
    cancel_all-get_open_orders whole paper_config (immediate-IsSound 0) ticking empty_journal
      session-Reach
