-- ===== src/Runtime/Bus.antt =====
-- src/trading/runtime/event_bus/in_memory.py: publication to the subscribers of an event's class,
-- one after the other. A callback is named by a number; what it does is an argument.
use claude_trade_teams.Base.{
  ℕ, ◌≡◌, refl, ap, Bool, true, false, not, if◌then◌else◌, Option, none, some, List, [], ◌∷◌, ◌++◌,
  keep, map, Bool-cases, inl, inr,
}
use claude_trade_teams.Domain.{Event}
use claude_trade_teams.Journal.EventLog.{EventType, is_instance}
use claude_trade_teams.Runtime.Supervisor.Actions.{Exit}

pub record Bus : Type 0 where
  pub subs : List (EventType × ℕ)
  pub started : Bool
  pub stopped : Bool

abbrev pub new : Bus
new = record { subs = []; started = false; stopped = false }

-- `subscribe`, which raises once the bus is stopped
unfoldable pub subscribe : EventType → ℕ → Bus → Option Bus
subscribe event_type callback b =
    if b.stopped then none else some (record b { subs = b.subs ++ (event_type, callback) ∷ [] })

-- `start`, which raises once the bus is stopped
unfoldable pub start : Bus → Option Bus
start b = if b.stopped then none else some (record b { started = true })

-- `stop`
unfoldable pub stop : Bus → Bus
stop b = record b { started = false; stopped = true }

-- What a callback does to the state that all of them share, and whether it raises.
abbrev pub Callback : Type 0 → Type 0
Callback S = Event → S → Exit × S

module _ {S : Type 0} (callbacks : ℕ → Callback S) where
  -- the loop of `publish`, with the callbacks that it awaits; an exception is logged and dropped
  unfoldable pub dispatch : Event → List (EventType × ℕ) → S → List ℕ × S
  dispatch event [] s = ([], s)
  dispatch event ((event_type, callback) ∷ subs) s =
      let here = dispatch event subs (callbacks callback event s).1 in
      let rest = dispatch event subs s in
      if is_instance event event_type then (callback ∷ here.0, here.1) else rest

  -- `publish`, which raises unless the bus is running
  unfoldable pub publish : Event → Bus → S → Option (List ℕ × S)
  publish event b s =
      if b.stopped then none else if not b.started then none else some (dispatch event b.subs s)

-- the callbacks that have subscribed to the class of the event, in registration order
abbrev pub subscribers : Event → Bus → List ℕ
subscribers event b = map (λ e. e.1) (keep (λ e. is_instance event e.0) b.subs)

module _ {S : Type 0} (callbacks : ℕ → Callback S) where
  -- the callbacks in order, with their exceptions dropped
  unfoldable pub each : Event → List ℕ → S → S
  each event [] s = s
  each event (callback ∷ rest) s = each event rest (callbacks callback event s).1

  dispatch-each :
      (event : Event) (subs : List (EventType × ℕ)) (s : S)
      → dispatch callbacks event subs s ≡ (
        map (λ e. e.1) (keep (λ e. is_instance event e.0) subs),
        each event (map (λ e. e.1) (keep (λ e. is_instance event e.0) subs)) s,
      )
  unfolding dispatch each
  dispatch-each event [] s = refl
  dispatch-each event ((event_type, callback) ∷ subs) s =
      elim (Bool-cases (is_instance event event_type)) [
        | inl e ↦
            rw (dispatch, e) (rw (dispatch-each event subs (callbacks callback event s).1) refl)
        | inr e ↦ rw (dispatch, e) (dispatch-each event subs s)
      ]

  -- On a running bus an event reaches every subscriber of its class once, in registration order,
  -- and each callback has its effect, whichever of them raise.
  pub publish-each :
      (event : Event) (b : Bus) (s : S)
      → b.started ≡ true
      → b.stopped ≡ false
      → publish callbacks event b s ≡ some (subscribers event b, each event (subscribers event b) s)
  unfolding publish
  publish-each event b s h k = rw (publish, k, h) (ap some (dispatch-each event b.subs s))

-- A call that changes the bus; one that raises leaves it as it was.
pub data Op : Type 0 where
  op_subscribe : EventType → ℕ → Op
  op_start : Op
  op_stop : Op

unfoldable pub perform : Op → Bus → Bus
perform (op_subscribe event_type callback) b = elim (subscribe event_type callback b) [
  | none ↦ b
  | some after ↦ after
]
perform op_start b = elim (start b) [ none ↦ b | some after ↦ after ]
perform op_stop b = stop b

unfoldable pub run : List Op → Bus → Bus
run [] b = b
run (op ∷ ops) b = run ops (perform op b)

perform-stopped : (op : Op) (b : Bus) → b.stopped ≡ true → (perform op b).stopped ≡ true
unfolding perform subscribe start stop
perform-stopped (op_subscribe event_type callback) b h = rw (perform, subscribe, h) h
perform-stopped op_start b h = rw (perform, start, h) h
perform-stopped op_stop b h = refl

stop-closes : (b : Bus) → (stop b).stopped ≡ true
unfolding stop
stop-closes b = refl

run-stopped : (ops : List Op) (b : Bus) → b.stopped ≡ true → (run ops b).stopped ≡ true
unfolding run
run-stopped [] b h = h
run-stopped (op ∷ ops) b h = run-stopped ops (perform op b) (perform-stopped op b h)

-- Once stopped, whatever is tried since, the bus neither starts nor takes a subscription nor
-- publishes.
pub run-stays_closed :
    {S : Type 0} (callbacks : ℕ → Callback S) (ops : List Op) (b : Bus) (event : Event) (s : S)
    (event_type : EventType) (callback : ℕ)
    → (start (run ops (stop b)) ≡ none)
      × (subscribe event_type callback (run ops (stop b)) ≡ none)
      × (publish callbacks event (run ops (stop b)) s ≡ none)
unfolding start subscribe publish
run-stays_closed callbacks ops b event s event_type callback =
    let h : (run ops (stop b)).stopped ≡ true = run-stopped ops (stop b) (stop-closes b) in
    (rw (start, h) refl, rw (subscribe, h) refl, rw (publish, h) refl)
