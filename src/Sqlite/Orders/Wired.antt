-- ===== src/Sqlite/Orders/Wired.antt =====
-- The order manager (src/trading/oms/default.py) over a journal on a file
-- (src/trading/persistence/order_journal/sqlite.py), as src/trading/runtime/main.py wires them.
use claude_trade_teams.Base.{
  ◌≡◌, false, refl, ap, ◌∙◌, ◌⊎◌, true, none, some, List, [], ◌∷◌, Option-cases, inl, inr,
}
use claude_trade_teams.Base.Decimal.{Context}
use claude_trade_teams.Base.Dict.{lookup}
use claude_trade_teams.Domain.{
  OrderId, ClientOrderId, Time, Order, Fill, TradeIntent, VenueEvent, Reason, SubmitResult,
}
use claude_trade_teams.Journal.OrderLog
use claude_trade_teams.Journal.OrderLog.{OrderJournal, JournalCalls, in_memory, empty_journal}
use claude_trade_teams.Journal.Restore.{passing}
use claude_trade_teams.Oms.Cache.{Oms, start, on_order_update, on_fill, deliver}
use claude_trade_teams.Oms.Submit.{
  Venue, Placement, placed, raised, request_of, submitted_order, record_submission, submit,
}
use claude_trade_teams.Sqlite.Table.Latest.{later}
use claude_trade_teams.Sqlite.Orders.{OrderStore, new as new_store, start as start_store}
use claude_trade_teams.Sqlite.Orders.Replay.{
  Stores, start-Stores, write_order-Stores, write_fill-Stores,
}
use claude_trade_teams.Sqlite.Orders.Restart.{reported, newest-submit}
use claude_trade_teams.Sqlite.Orders.Answers.{is_wanted, newest_order, read_open_orders_lem}

-- A journal on a file that has been started, with the records that it holds.
pub record Started : Type 0 where
  pub store : OrderStore
  pub records : OrderJournal
  pub holds : Stores store records

-- as `start` leaves a new one
abbrev pub started : Started
started = record {
  store = start_store (new_store false);
  records = empty_journal;
  holds = start-Stores;
}

-- its calls, which return: each answers what the call of the store does
instance abbrev pub on_file : JournalCalls Started
on_file = record {
  write_order = λ x j.
      let (store, returns, holds) = write_order-Stores x j.store j.records j.holds in
      record { store = store; records = OrderLog.write_order x j.records; holds = holds };
  write_fill = λ x j.
      let (store, returns, holds) = write_fill-Stores x j.store j.records j.holds in
      record { store = store; records = OrderLog.write_fill x j.records; holds = holds };
  read_open_orders = λ symbol j. (read_open_orders_lem j.store j.records j.holds symbol).0;
}

placement-cases :
    (p : Placement) → ((oid : OrderId) × (p ≡ placed oid)) ⊎ ((r : Reason) × (p ≡ raised r))
placement-cases (placed oid) = inl (oid, refl)
placement-cases (raised r) = inr (r, refl)

-- The order manager with an in-memory journal that has the same cache and the same records.
abbrev pub in_memory_view : Oms Started → Oms OrderJournal
in_memory_view s = record { orders = s.orders; journal = s.journal.records }

on_order_update-in_memory_view :
    (x : Order) (s : Oms Started)
    → in_memory_view (on_order_update x s) ≡ on_order_update x (in_memory_view s)
unfolding on_order_update
on_order_update-in_memory_view x s = refl

module _ (c : Context) where
  on_fill-in_memory_view :
      (f : Fill) (s : Oms Started) → in_memory_view (on_fill c f s) ≡ on_fill c f (in_memory_view s)
  unfolding on_fill
  on_fill-in_memory_view f s = elim (Option-cases (lookup f.order_id s.orders)) [
    | inl e ↦ rw (on_fill, e) refl
    | inr (x, e) ↦ rw (on_fill, e) refl
  ]

  -- Whatever a venue reports, an order manager over a journal on a file caches the same orders as one
  -- over an in-memory journal that began with the same cache and records, and the file holds the
  -- records of the other.
  pub deliver-in_memory_view :
      (events : List VenueEvent) (s : Oms Started)
      → in_memory_view (deliver c events s) ≡ deliver c events (in_memory_view s)
  unfolding deliver
  deliver-in_memory_view [] s = refl
  deliver-in_memory_view (VenueEvent.order_update x ∷ es) s =
      deliver-in_memory_view es (on_order_update x s)
      ∙ ap (deliver c es) (on_order_update-in_memory_view x s)
  deliver-in_memory_view (VenueEvent.fill f ∷ es) s =
      deliver-in_memory_view es (on_fill c f s) ∙ ap (deliver c es) (on_fill-in_memory_view f s)

  module _ {S : Type 0} (venue : Venue S) (cid : ClientOrderId) (at : Time) (intent : TradeIntent)
      (s : Oms Started) (v : S) where
    -- So does a submission, which answers the same over either journal.
    pub submit-in_memory_view :
        let r = submit c venue cid at intent (s, v) in
        (r.0, in_memory_view r.1, r.2) ≡ submit c venue cid at intent (in_memory_view s, v)
    unfolding submit record_submission
    submit-in_memory_view =
        let (p, events, v') = venue.place_order (request_of cid intent) v in
        let e = deliver-in_memory_view events s in
        elim (placement-cases p) [
          | inl (oid, k) ↦
              let order = submitted_order oid cid at intent in
              rw (submit, k)
                (ap (λ t. (SubmitResult.submitted oid cid, record_submission order t, v')) e)
          | inr (r, k) ↦ rw (submit, k) (ap (λ t. (SubmitResult.submission_failed r true, t, v')) e)
        ]

    -- A restart of an order manager over a journal on a file, after a submission that the venue
    -- accepts, restores of the order what the venue reported of it last, where this is later than the
    -- submission, and the order as submitted and unfilled otherwise, either only if it is open.
    pub start-submit_on_file :
        (oid : OrderId) (accepted : (venue.place_order (request_of cid intent) v).0 ≡ placed oid)
        → lookup oid (start (submit c venue cid at intent (s, v)).1).orders
          ≡ passing
              (λ o. o.order_id)
              (is_wanted none)
              (some (
                later
                  (λ o. o.updated_at)
                  (λ o. o.order_id)
                  (submitted_order oid cid at intent)
                  (newest_order oid
                    (reported c venue cid at intent
                      (in_memory_view s)
                      v
                      oid
                      accepted).journal.orders)))
    unfolding start
    start-submit_on_file oid accepted =
        let j = (submit c venue cid at intent (s, v)).1.journal in
        let same : j.records ≡ (submit c venue cid at intent (in_memory_view s, v)).1.journal =
          ap (λ (r : SubmitResult × Oms OrderJournal × S). r.1.journal) submit-in_memory_view in
        (read_open_orders_lem j.store j.records j.holds none).2 oid
        ∙ ap (λ t. passing (λ o. o.order_id) (is_wanted none) (newest_order oid t.orders)) same
        ∙ ap (passing (λ o. o.order_id) (is_wanted none))
            (newest-submit c venue cid at intent (in_memory_view s) v oid accepted)
