-- ===== src/Pms/Restart.antt =====
-- What `start` of src/trading/pms/default.py restores after `reconcile`, through the journal of
-- src/trading/persistence/account_journal/in_memory.py.
use claude_trade_teams.Base.{
  ℕ, ◌≡◌, ◌==◌, ltb, ==_sound, refl, sym, ap, ◌∙◌, true, false, if◌then◌else◌, Option, none, some,
  List, [], ◌∷◌, ◌++◌, append_assoc, append-nil, arith, Bool-cases, Option-cases, inl, inr,
}
use claude_trade_teams.Base.Dict.{Dict, lookup, values, lookup-insert}
use claude_trade_teams.Domain.{Symbol, Position, Balance}
use claude_trade_teams.Journal.AccountLog.{
  AccountJournal, write_balance_snapshot, write_position_snapshot, note_position, latest_per_symbol,
  read_all_latest_positions,
}
use claude_trade_teams.Journal.Restore.{
  IsKeyed, insert-IsKeyed, collect-IsKeyed, lookup-collect_all,
}
use claude_trade_teams.Pms.{Pms, by_symbol, start, write_positions, persist, reconcile}

abbrev key : Position → ℕ
key p = p.symbol

-- the later of a snapshot, if there is one, and a position; the snapshot where they are of one time
abbrev pub newer : Option Position → Position → Option Position
newer none p = some p
newer (some q) p = if ltb q.updated_at p.updated_at then some p else some q

-- the latest position of a symbol among some, the first of those of one time
abbrev newest : Symbol → Option Position → List Position → Option Position
newest symbol o [] = o
newest symbol o (p ∷ ps) = newest symbol (if symbol == p.symbol then newer o p else o) ps

newest-append :
    (symbol : Symbol) (o : Option Position) (ps qs : List Position)
    → newest symbol o (ps ++ qs) ≡ newest symbol (newest symbol o ps) qs
newest-append symbol o [] qs = refl
newest-append symbol o (p ∷ ps) qs =
    newest-append symbol (if symbol == p.symbol then newer o p else o) ps qs

newest-none :
    (symbol : Symbol) (o : Option Position) (d : Dict Position)
    → IsKeyed key d
    → lookup symbol d ≡ none
    → newest symbol o (values d) ≡ o
newest-none symbol o [] h k = refl
newest-none symbol o (e ∷ d) h k = elim (Bool-cases (symbol == e.0)) [
  | inl t ↦ ground (arith, t, k)
  | inr t ↦
      let u : symbol == e.1.symbol ≡ false = ground (arith, t, h.0) in
      rw (newest, u) (newest-none symbol o d h.2 (ground (arith, t, k)))
]

newest-values :
    (symbol : Symbol) (o : Option Position) (d : Dict Position)
    → IsKeyed key d
    → newest symbol o (values d) ≡ (elim (lookup symbol d) [ none ↦ o | some p ↦ newer o p ])
newest-values symbol o [] h = refl
newest-values symbol o (e ∷ d) h = elim (Bool-cases (symbol == e.0)) [
  | inl t ↦
      let u : symbol == e.1.symbol ≡ true = ground (arith, t, h.0) in
      let missing : lookup symbol d ≡ none = ap (λ k. lookup k d) (==_sound symbol e.0 t) ∙ h.1 in
      rw (newest, lookup, u, t) (newest-none symbol (newer o e.1) d h.2 missing)
  | inr t ↦
      let u : symbol == e.1.symbol ≡ false = ground (arith, t, h.0) in
      rw (newest, lookup, u, t) (newest-values symbol o d h.2)
]

note-lookup :
    (symbol : Symbol) (p : Position) (d : Dict Position)
    → lookup symbol (note_position p d)
      ≡ (if symbol == p.symbol then newer (lookup symbol d) p else lookup symbol d)
unfolding note_position
note-lookup symbol p d = ground (arith, lookup-insert symbol p.symbol p d)

lookup-latest :
    (symbol : Symbol) (d : Dict Position) (ps : List Position)
    → lookup symbol (latest_per_symbol d ps) ≡ newest symbol (lookup symbol d) ps
unfolding latest_per_symbol
lookup-latest symbol d [] = refl
lookup-latest symbol d (p ∷ ps) =
    lookup-latest symbol (note_position p d) ps
    ∙ ap (λ o. newest symbol o ps) (note-lookup symbol p d)

note-IsKeyed : (p : Position) (d : Dict Position) → IsKeyed key d → IsKeyed key (note_position p d)
unfolding note_position
note-IsKeyed p d h = elim (Option-cases (lookup p.symbol d)) [
  | inl e ↦ rw (note_position, e) (insert-IsKeyed key p.symbol p d refl h)
  | inr (q, e) ↦ elim (Bool-cases (ltb q.updated_at p.updated_at)) [
    | inl l ↦ rw (note_position, e, l) (insert-IsKeyed key p.symbol p d refl h)
    | inr l ↦ rw (note_position, e, l) h
  ]
]

latest-IsKeyed :
    (d : Dict Position) (ps : List Position) → IsKeyed key d → IsKeyed key (latest_per_symbol d ps)
unfolding latest_per_symbol
latest-IsKeyed d [] h = h
latest-IsKeyed d (p ∷ ps) h = latest-IsKeyed (note_position p d) ps (note-IsKeyed p d h)

-- A restart from a journal gives each symbol its latest snapshot.
lookup-restored :
    (symbol : Symbol) (j : AccountJournal)
    → lookup symbol (by_symbol (read_all_latest_positions j)) ≡ newest symbol none j.positions
unfolding read_all_latest_positions
lookup-restored symbol j =
    lookup-collect_all key symbol (latest_per_symbol [] j.positions)
      (latest-IsKeyed [] j.positions tt)
    ∙ lookup-latest symbol [] j.positions

written_positions :
    (ps : List Position) (j : AccountJournal) → (write_positions ps j).positions ≡ j.positions ++ ps
unfolding write_positions
written_positions [] j = sym (append-nil j.positions)
written_positions (p ∷ ps) j =
    written_positions ps (write_position_snapshot p j) ∙ append_assoc j.positions (p ∷ []) ps

lookup-start :
    (symbol : Symbol) (s : Pms) (j : AccountJournal)
    → s.journal ≡ some j
    → lookup symbol (start s).positions ≡ newest symbol none j.positions
unfolding start
lookup-start symbol s j h = rw (start, h) (lookup-restored symbol j)

-- A restart of a position manager with an in-memory journal, after a reconciliation that returns,
-- holds, for a symbol that the venue reported, the later of that report and what a restart would
-- have held before, and for any other symbol what a restart would have held before; so a position
-- that the venue has closed comes back.
pub start-reconcile :
    (symbol : Symbol) (s : Pms) (j : AccountJournal) (ps : List Position) (b : Balance)
    → s.journal ≡ some j
    → lookup symbol (start (reconcile (some ps) (some b) s).1).positions
      ≡ (elim (lookup symbol (by_symbol ps)) [
        | none ↦ lookup symbol (start s).positions
        | some p ↦ newer (lookup symbol (start s).positions) p
      ])
unfolding reconcile persist
start-reconcile symbol s j ps b h =
    let reported : List Position = values (by_symbol ps) in
    let j' : AccountJournal = write_balance_snapshot b (write_positions reported j) in
    lookup-start symbol (reconcile (some ps) (some b) s).1 j' (ap (persist reported b) h)
    ∙ ap (newest symbol none) (written_positions reported j)
    ∙ newest-append symbol none j.positions reported
    ∙ newest-values symbol (newest symbol none j.positions) (by_symbol ps)
        (collect-IsKeyed key [] ps tt)
    ∙ ap (λ o. elim (lookup symbol (by_symbol ps)) [ none ↦ o | some p ↦ newer o p ])
        (sym (lookup-start symbol s j h))
