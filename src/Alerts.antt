-- ===== src/Alerts.antt =====
-- src/trading/alerts/router/in_memory.py: alerts fan out to the channels of their level.
pub mod Log
use claude_trade_teams.Base.{
  ℕ, ◌≡◌, refl, Bool, false, ◌||◌, if◌then◌else◌, List, [], ◌∷◌, ◌++◌, keep, map, Bool-cases, inl,
  inr,
}
use claude_trade_teams.Domain.{Alert, AlertLevel}
use claude_trade_teams.Journal.EventLog.{same_level}
use claude_trade_teams.Runtime.Supervisor.Actions.{Exit, returned, raised}

-- a channel, by a number, with its levels
abbrev pub Router : Type 0
Router = List (ℕ × List AlertLevel)

-- `register`
abbrev pub register : ℕ → List AlertLevel → Router → Router
register channel levels r = r ++ (channel, levels) ∷ []

-- `alert.level in levels`
abbrev pub is_among : AlertLevel → List AlertLevel → Bool
is_among level [] = false
is_among level (l ∷ levels) = same_level level l || is_among level levels

module _ {S : Type 0} (send : ℕ → Alert → S → Exit × S) where
  -- `alert`, with the channels that are sent to; an exception is logged and dropped
  unfoldable pub alert : Alert → Router → S → List ℕ × S
  alert a [] s = ([], s)
  alert a ((channel, levels) ∷ r) s =
      let here = alert a r (send channel a s).1 in
      let rest = alert a r s in if is_among a.level levels then (channel ∷ here.0, here.1) else rest

  -- the channels in order, with their exceptions dropped
  unfoldable pub each : Alert → List ℕ → S → S
  each a [] s = s
  each a (channel ∷ rest) s = each a rest (send channel a s).1

  -- An alert reaches every channel that is registered for its level once, in registration order,
  -- and each has its effect, whichever of them raise.
  pub alert-each :
      (a : Alert) (r : Router) (s : S)
      → alert a r s ≡ (
        map (λ e. e.0) (keep (λ e. is_among a.level e.1) r),
        each a (map (λ e. e.0) (keep (λ e. is_among a.level e.1) r)) s,
      )
  unfolding alert each
  alert-each a [] s = refl
  alert-each a ((channel, levels) ∷ r) s = elim (Bool-cases (is_among a.level levels)) [
    | inl e ↦ rw (alert, e) (rw (alert-each a r (send channel a s).1) refl)
    | inr e ↦ rw (alert, e) (alert-each a r s)
  ]

module _ {S : Type 0} (call : ℕ → S → Exit × S) where
  -- the loop of `start` and of `stop`, which call the method of that name of each channel; an
  -- exception ends it
  unfoldable pub call_each : Router → S → Exit × S
  call_each [] s = (returned, s)
  call_each ((channel, levels) ∷ r) s =
      let (exit, s') = call channel s in
      elim exit [ returned ↦ call_each r s' | raised ↦ (raised, s') ]
