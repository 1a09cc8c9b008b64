-- ===== src/Sqlite/Alerts/Replay.antt =====
-- What `SQLiteAlertLog` answers after any writes and restarts on a file, against the in-memory log of
-- the same writes (src/trading/persistence/alert_log).
use claude_trade_teams.Base.{
  ℕ, ◌≡◌, refl, ap, sym, ◌∙◌, ◌==◌, leb, ltb, Bool, true, false, not, ◌&&◌, Option, none, some,
  List, [], ◌∷◌, keep, ◌>>=◌, arith,
}
use text.Mathlib.Text.{◌==◌ as str_eq}
use claude_trade_teams.Domain.{Time, Alert, AlertLevel}
use claude_trade_teams.Values.{level_value, level_of-level_value}
use claude_trade_teams.Journal.EventLog.{same_level, write_alert, read_alerts_since}
use claude_trade_teams.Sqlite.Iso.{isoformat, iso_ltb}
use claude_trade_teams.Sqlite.Iso.Order.{iso_ltb-isoformat, fromisoformat-isoformat}
use claude_trade_teams.Sqlite.Table.{insert_row}
use claude_trade_teams.Sqlite.Table.Transfer.{Holds, insert_row-Holds}
use claude_trade_teams.Sqlite.Table.Sort.{by_time}
use claude_trade_teams.Sqlite.Table.Answers.{order_by_lem}
use claude_trade_teams.Sqlite.Alerts.{
  AlertStore, new, start, stop, alert_to_row, row_to_alert, write, level_clause, component_clause,
  read_since,
}

row_to_alert-alert_to_row : (alert : Alert) → row_to_alert (alert_to_row alert) ≡ some alert
unfolding row_to_alert alert_to_row
row_to_alert-alert_to_row alert =
    rw
      (
        row_to_alert,
        alert_to_row,
        level_of-level_value alert.level,
        fromisoformat-isoformat alert.timestamp,
      )
      refl

-- What is done to a log while it is connected to a file.
pub data Op : Type 0 where
  alert : Alert → Op
  restart : Op

unfoldable pub run : List Op → AlertStore → Option AlertStore
run [] s = some s
run (alert x ∷ ops) s = write x s >>= run ops
run (restart ∷ ops) s = run ops (start (stop s))

-- the in-memory log after the same writes
unfoldable pub log : List Op → List Alert → List Alert
log [] alerts = alerts
log (alert x ∷ ops) alerts = log ops (write_alert x alerts)
log (restart ∷ ops) alerts = log ops alerts

record Stores (s : AlertStore) (alerts : List Alert) : Type 0 where
  on_file : s.in_memory ≡ false
  connected : s.connected ≡ true
  held : Holds alert_to_row s.database alerts

start-Stores : Stores (start (new false)) []
start-Stores = record { on_file = refl; connected = refl; held = (refl, refl) }

write-Stores :
    (x : Alert) (s : AlertStore) (alerts : List Alert)
    → Stores s alerts
    → (s' : AlertStore) × (write x s ≡ some s') × Stores s' (write_alert x alerts)
unfolding write
write-Stores x s alerts h = (
  record s { database = insert_row (alert_to_row x) s.database },
  rw h.connected refl,
  record {
    on_file = h.on_file;
    connected = h.connected;
    held = insert_row-Holds alert_to_row x s.database alerts h.held;
  },
)

run-Stores :
    (ops : List Op) (s : AlertStore) (alerts : List Alert)
    → Stores s alerts
    → (s' : AlertStore) × (run ops s ≡ some s') × Stores s' (log ops alerts)
unfolding run log
run-Stores [] s alerts h = (s, refl, h)
run-Stores (alert x ∷ ops) s alerts h =
    let (s1, e, h1) = write-Stores x s alerts h in
    let (s', e', h') = run-Stores ops s1 (write_alert x alerts) h1 in (s', rw e e', h')
run-Stores (restart ∷ ops) s alerts h =
    run-Stores ops (start (stop s)) alerts
      (record { on_file = h.on_file; connected = refl; held = rw h.on_file h.held })

-- Two values of levels are the same text exactly where the levels are the same.
same_level_value : (a b : AlertLevel) → str_eq (level_value a) (level_value b) ≡ same_level a b
same_level_value AlertLevel.info AlertLevel.info = refl
same_level_value AlertLevel.info AlertLevel.warn = refl
same_level_value AlertLevel.info AlertLevel.alert = refl
same_level_value AlertLevel.info AlertLevel.critical = refl
same_level_value AlertLevel.warn AlertLevel.info = refl
same_level_value AlertLevel.warn AlertLevel.warn = refl
same_level_value AlertLevel.warn AlertLevel.alert = refl
same_level_value AlertLevel.warn AlertLevel.critical = refl
same_level_value AlertLevel.alert AlertLevel.info = refl
same_level_value AlertLevel.alert AlertLevel.warn = refl
same_level_value AlertLevel.alert AlertLevel.alert = refl
same_level_value AlertLevel.alert AlertLevel.critical = refl
same_level_value AlertLevel.critical AlertLevel.info = refl
same_level_value AlertLevel.critical AlertLevel.warn = refl
same_level_value AlertLevel.critical AlertLevel.alert = refl
same_level_value AlertLevel.critical AlertLevel.critical = refl

abbrev of_level : Option AlertLevel → Alert → Bool
of_level none a = true
of_level (some level) a = same_level a.level level

abbrev of_component : Option ℕ → Alert → Bool
of_component none a = true
of_component (some component) a = a.component == component

abbrev is_asked : Time → Option AlertLevel → Option ℕ → Alert → Bool
is_asked since level component a =
    (leb since a.timestamp && of_level level a) && of_component component a

clause-of_level :
    (level : Option AlertLevel) (a : Alert) → level_clause level (alert_to_row a) ≡ of_level level a
unfolding alert_to_row
clause-of_level none a = refl
clause-of_level (some level) a = same_level_value a.level level

clause-of_component :
    (component : Option ℕ) (a : Alert)
    → component_clause component (alert_to_row a) ≡ of_component component a
unfolding alert_to_row
clause-of_component none a = refl
clause-of_component (some component) a = refl

since_lem :
    (since : Time) (a : Alert) (b d : Bool)
    → ((not (iso_ltb (alert_to_row a).timestamp (isoformat since)) && b) && d)
      ≡ ((leb since a.timestamp && b) && d)
unfolding alert_to_row
since_lem since a b d = rw (iso_ltb-isoformat a.timestamp since) (ground arith)

same_time :
    (a b : Alert)
    → iso_ltb (alert_to_row a).timestamp (alert_to_row b).timestamp ≡ ltb a.timestamp b.timestamp
unfolding alert_to_row
same_time a b = iso_ltb-isoformat a.timestamp b.timestamp

clauses-is_asked :
    (since : Time) (level : Option AlertLevel) (component : Option ℕ) (a : Alert)
    → ((not (iso_ltb (alert_to_row a).timestamp (isoformat since))
          && level_clause level (alert_to_row a))
        && component_clause component (alert_to_row a))
      ≡ is_asked since level component a
clauses-is_asked since level component a =
    rw (clause-of_level level a, clause-of_component component a) (since_lem since a _ _)

keep_asked :
    (since : Time) (level : Option AlertLevel) (component : Option ℕ) (alerts : List Alert)
    → read_alerts_since since level component alerts ≡ keep (is_asked since level component) alerts
unfolding read_alerts_since
keep_asked since none none [] = refl
keep_asked since none (some c) [] = refl
keep_asked since (some l) none [] = refl
keep_asked since (some l) (some c) [] = refl
keep_asked since none none (a ∷ alerts) = ground (arith, keep_asked since none none alerts)
keep_asked since none (some c) (a ∷ alerts) = ground (arith, keep_asked since none (some c) alerts)
keep_asked since (some l) none (a ∷ alerts) = ground (arith, keep_asked since (some l) none alerts)
keep_asked since (some l) (some c) (a ∷ alerts) =
    ground (arith, keep_asked since (some l) (some c) alerts)

-- Whatever is written to a log on a file, and however often it is restarted in between, it answers
-- what the in-memory log of the same writes answers to the same question, sorted by the time; what
-- was written later stands later where the times are equal.
pub run-read_alerts_since :
    (ops : List Op) (since : Time) (level : Option AlertLevel) (component : Option ℕ)
    → (run ops (start (new false)) >>= read_since since level component)
      ≡ some (by_time (λ a. a.timestamp) (read_alerts_since since level component (log ops [])))
unfolding read_since
run-read_alerts_since ops since level component =
    let (s, e, h) = run-Stores ops (start (new false)) [] start-Stores in
    rw (e, read_since, h.connected)
      (order_by_lem alert_to_row row_to_alert (λ a. a.timestamp)
          (λ a b. iso_ltb a.timestamp b.timestamp) row_to_alert-alert_to_row (λ a b. same_time a b)
          _ (is_asked since level component) (clauses-is_asked since level component) s.database
          (log ops []) h.held
        ∙ ap (λ xs. some (by_time (λ a. a.timestamp) xs))
            (sym (keep_asked since level component (log ops []))))
