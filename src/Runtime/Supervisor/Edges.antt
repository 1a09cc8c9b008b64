-- ===== src/Runtime/Supervisor/Edges.antt =====
-- The transitions that src/trading/runtime/supervisor/default.py makes, as it writes them to the
-- event log, and the triples that its methods satisfy whatever the components do.
use claude_trade_teams.Base.{
  ◌≡◌, refl, sym, subst, ap, ◌∙◌, append-nil, append_assoc, Bool, true, false, if◌then◌else◌, List,
  [], ◌∷◌, ◌++◌, length,
}
use claude_trade_teams.Domain.{SystemState, SystemStateChanged, Event, Reason}
use claude_trade_teams.Runtime.Supervisor.Actions.{
  Call, write, publish, Supervisor, World, Action, Exit, returned, raised, ◌then_do◌, attempt, skip,
  call, changed, publish_if_running, transition,
}

-- The arrows between states: how the supervisor may move.
pub data IsEdge : SystemState → SystemState → Type 0 where
  boot : IsEdge SystemState.booting SystemState.reconciling
  reconciled : IsEdge SystemState.reconciling SystemState.running
  trip : IsEdge SystemState.running SystemState.quarantine
  ack : IsEdge SystemState.quarantine SystemState.reconciling
  drain_booting : IsEdge SystemState.booting SystemState.draining
  drain_reconciling : IsEdge SystemState.reconciling SystemState.draining
  drain_running : IsEdge SystemState.running SystemState.draining
  drain_quarantine : IsEdge SystemState.quarantine SystemState.draining
  drained : IsEdge SystemState.draining SystemState.stopped

-- the change that a call writes
abbrev pub changes_of : Call → List SystemStateChanged
changes_of (write e) = e ∷ []
changes_of _ = []

-- the changes that the calls write, in order
abbrev pub changes : List Call → List SystemStateChanged
changes [] = []
changes (k ∷ calls) = changes_of k ++ changes calls

-- The changes lead from the first state to the last along arrows.
abbrev pub IsPath : SystemState → List SystemStateChanged → SystemState → Type 0
IsPath from [] to = from ≡ to
IsPath from (e ∷ es) to = (e.old_state ≡ from) × IsEdge from e.new_state × IsPath e.new_state es to

-- What the supervisor has written leads from BOOTING to its state.
abbrev pub IsLogged : Supervisor → Type 0
IsLogged s = IsPath SystemState.booting (changes s.calls) s.state

-- The supervisor is in the state, and all that it has written leads there.
abbrev pub IsAt : SystemState → Supervisor → Type 0
IsAt st s = (s.state ≡ st) × IsLogged s

changes-append : (xs ys : List Call) → changes (xs ++ ys) ≡ changes xs ++ changes ys
changes-append [] ys = refl
changes-append (x ∷ xs) ys =
    ap (λ es. changes_of x ++ es) (changes-append xs ys)
    ∙ sym (append_assoc (changes_of x) (changes xs) (changes ys))

changes-silent :
    (k : Call) (xs : List Call) → changes_of k ≡ [] → changes (xs ++ k ∷ []) ≡ changes xs
changes-silent k xs h =
    changes-append xs (k ∷ []) ∙ ap (λ es. changes xs ++ (es ++ [])) h ∙ append-nil (changes xs)

IsPath-snoc :
    (e : SystemStateChanged) (from : SystemState) (es : List SystemStateChanged) (to : SystemState)
    → e.old_state ≡ to
    → IsEdge to e.new_state
    → IsPath from es to
    → IsPath from (es ++ e ∷ []) e.new_state
IsPath-snoc e from [] to h k p = (h ∙ sym p, subst (λ st. IsEdge st e.new_state) (sym p) k, refl)
IsPath-snoc e from (x ∷ es) to h k p = (p.0, p.1, IsPath-snoc e x.new_state es to h k p.2)

-- What holds at the end of a method: `Q` where it returns, `R` where it raises.
abbrev pub Ends : (Supervisor → Type 0) → (Supervisor → Type 0) → Exit × Supervisor → Type 0
Ends Q R (returned, s) = Q s
Ends Q R (raised, s) = R s

-- From `P` the method ends in `Q` if it returns; if it raises, what it wrote is still a path.
pub record Triple (P : Supervisor → Type 0) (a : Action) (Q : Supervisor → Type 0) : Type 0 where
  pub ends : (s : Supervisor) → P s → Ends Q IsLogged (a s)

go_on :
    {Q R : Supervisor → Type 0} {b : Action} (r : Exit × Supervisor)
    → Triple Q b R
    → Ends Q IsLogged r
    → Ends R IsLogged (elim r.0 [ returned ↦ b r.1 | raised ↦ (raised, r.1) ])
go_on (returned, s) g h = g.ends s h
go_on (raised, s) g h = h

infixr 30 ◌next◌
pub ◌next◌ :
    {P Q R : Supervisor → Type 0} {a b : Action}
    → Triple P a Q
    → Triple Q b R
    → Triple P (a then_do b) R
unfolding ◌then_do◌
◌next◌ {a = a} f g = record { ends = λ s p. go_on (a s) g (f.ends s p) }

pub if-Triple :
    {P Q : Supervisor → Type 0} {a b : Action} (test : Bool)
    → Triple P a Q
    → Triple P b Q
    → Triple P (if test then a else b) Q
if-Triple true f g = f
if-Triple false f g = g

pub skip-Triple : (P : Supervisor → Type 0) → Triple P skip P
skip-Triple P = record { ends = λ s p. p }

Ends-both :
    (test : Bool) (Q R : Supervisor → Type 0) (s : Supervisor)
    → Q s
    → R s
    → Ends Q R (if test then raised else returned, s)
Ends-both true Q R s q r = r
Ends-both false Q R s q r = q

module _ (w : World) where
  call_after : Call → Supervisor → Supervisor
  call_after k s = record s { calls = s.calls ++ k ∷ [] }

  silent_after :
      (k : Call) (s : Supervisor) (st : SystemState)
      → changes_of k ≡ []
      → IsAt st s
      → IsAt st (call_after k s)
  unfolding call_after
  silent_after k s st h p = (p.0, rw (changes-silent k s.calls h) p.1)

  pub call-Triple :
      (k : Call) (st : SystemState) → changes_of k ≡ [] → Triple (IsAt st) (call w k) (IsAt st)
  unfolding call call_after
  call-Triple k st h = record {
    ends = λ s p.
        let after = silent_after k s st h p in
        Ends-both (w.raises (length s.calls) k) (IsAt st) IsLogged (call_after k s) after after.1;
  }

  pub attempt-Triple :
      (k : Call) (st : SystemState)
      → changes_of k ≡ []
      → Triple (IsAt st) (attempt (call w k)) (IsAt st)
  unfolding call attempt call_after
  attempt-Triple k st h = record { ends = λ s p. silent_after k s st h p }

  publish-Triple :
      (e : Event) (st : SystemState) → Triple (IsAt st) (publish_if_running w e) (IsAt st)
  unfolding publish_if_running
  publish-Triple e st = record {
    ends = λ s p.
        (if-Triple s.bus_running (call-Triple (publish e) st refl) (skip-Triple (IsAt st))).ends s
          p;
  }

  written :
      (e : SystemStateChanged) (s : Supervisor) (st : SystemState)
      → e.old_state ≡ st
      → IsEdge st e.new_state
      → IsAt st s
      → IsAt e.new_state (call_after (write e) (record s { state = e.new_state }))
  unfolding call_after
  written e s st h k p = (
    refl,
    rw (changes-append s.calls (write e ∷ [])) (
        IsPath-snoc e SystemState.booting (changes s.calls) st h k
          (subst (λ x. IsPath SystemState.booting (changes s.calls) x) p.0 p.1)),
  )

  pub transition-Triple :
      (st new_state : SystemState) (reason : Reason)
      → IsEdge st new_state
      → Triple (IsAt st) (transition w new_state reason) (IsAt new_state)
  unfolding transition call call_after ◌then_do◌
  transition-Triple st new_state reason h = record {
    ends = λ s p.
        let e : SystemStateChanged = changed w s new_state reason in
        let after = written e s st p.0 h p in
        let moved : Supervisor = record s { state = new_state } in
        go_on (call w (write e) moved) (publish-Triple (Event.state_changed e) new_state) (
          Ends-both (w.raises (length s.calls) (write e)) (IsAt new_state) IsLogged
            (call_after (write e) moved) after after.1);
  }
