-- ===== src/Market/Live/Calls.antt =====
-- The tasks on the event loop that call the subscribers of `LiveMarketDataSource`
-- (src/trading/market_data/live.py).
use claude_trade_teams.Base.{
  ℕ, suc, ◌≡◌, refl, ap, is_some, Option, none, some, List, [], ◌∷◌, ◌++◌, length, Option-cases,
  inl, inr, if◌then◌else◌,
}
use claude_trade_teams.Clock.{Clock, now}
use claude_trade_teams.Domain.{Alert, AlertLevel, Reason}
use claude_trade_teams.Market.Live.{Callback, MarketEvent}

-- `invoke` awaits a callback and tells the text of its exception, if it raises. The names of the
-- component and of the correlation key are constants of the source.
module _ {S : Type 0} (invoke : Callback → MarketEvent → S → Option ℕ × S) (component key : ℕ) where
  -- the `Alert` of `_safe_call`
  abbrev pub callback_error : ℕ → Clock → Alert × Clock
  callback_error text clock =
      let (time, clock') = now clock in
      (
        record {
          level = AlertLevel.alert;
          component = component;
          message = Reason.free_text text;
          timestamp = time;
          correlation_key = some key;
        },
        clock',
      )

  -- `_safe_call`, with the alerts that it raises
  unfoldable pub safe_call : Callback → MarketEvent → Clock × S → List Alert × Clock × S
  safe_call callback event (clock, s) =
      let (error, s') = invoke callback event s in
      elim error [
        | none ↦ ([], clock, s')
        | some text ↦ let (alert, clock') = callback_error text clock in (alert ∷ [], clock', s')
      ]

  -- the tasks, in the order in which they were handed over
  unfoldable pub run_tasks : List (Callback × MarketEvent) → Clock × S → List Alert × Clock × S
  run_tasks [] w = ([], w.0, w.1)
  run_tasks ((callback, event) ∷ tasks) w =
      let (alerts, w1, s1) = safe_call callback event w in
      let (more, w2, s2) = run_tasks tasks (w1, s1) in (alerts ++ more, w2, s2)

  -- the effects of the callbacks alone
  unfoldable pub effects : List (Callback × MarketEvent) → S → S
  effects [] s = s
  effects ((callback, event) ∷ tasks) s = effects tasks (invoke callback event s).1

  -- how many of the callbacks raise
  unfoldable pub failures : List (Callback × MarketEvent) → S → ℕ
  failures [] s = 0
  failures ((callback, event) ∷ tasks) s =
      let rest = failures tasks (invoke callback event s).1 in
      if is_some (invoke callback event s).0 then suc rest else rest

  -- Every task has its effect, whichever callbacks raise, and each callback that raises is reported
  -- by one alert.
  pub run_tasks-each :
      (tasks : List (Callback × MarketEvent)) (clock : Clock) (s : S)
      → ((run_tasks tasks (clock, s)).2 ≡ effects tasks s)
        × (length (run_tasks tasks (clock, s)).0 ≡ failures tasks s)
  unfolding run_tasks effects failures safe_call
  run_tasks-each [] clock s = (refl, refl)
  run_tasks-each ((callback, event) ∷ tasks) clock s =
      let s' = (invoke callback event s).1 in
      elim (Option-cases (invoke callback event s).0) [
        | inl e ↦ let (x, y) = run_tasks-each tasks clock s' in rw (run_tasks, safe_call, e) (x, y)
        | inr (text, e) ↦
            let (x, y) = run_tasks-each tasks (callback_error text clock).1 s' in
            rw (run_tasks, safe_call, e) (x, ap suc y)
      ]
