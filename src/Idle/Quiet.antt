-- ===== src/Idle/Quiet.antt =====
-- An order manager (src/trading/oms/default.py) on a null venue (src/trading/venues/null.py) stays as
-- it is, whatever is asked of it.
use claude_trade_teams.Base.{ℕ, false, ◌≡◌, refl, ap, ◌∙◌, Option, some, List, [], ◌∷◌}
use claude_trade_teams.Base.Decimal.{Context}
use claude_trade_teams.Clock.{Clock}
use claude_trade_teams.Domain.{Symbol, OrderId, ClientOrderId, Time, Order, TradeIntent}
use claude_trade_teams.Journal.OrderLog.{JournalCalls}
use claude_trade_teams.Oms.Cache.{Oms, deliver, open_orders}
use claude_trade_teams.Oms.Submit.{submit, cancel, cancel_each, cancel_all}
use claude_trade_teams.Idle.{null_venue}

-- A request to the order manager.
pub data Request : Type 0 where
  submits : ClientOrderId → Time → TradeIntent → Request
  cancels : OrderId → Request
  cancels_all : Option Symbol → Request

module _ (c : Context) {J : Type 0} ⦃calls : JournalCalls J⦄ (text : ℕ) where
  unfoldable pub serve : Request → Oms J × Clock → Oms J × Clock
  serve (submits cid at intent) w =
      let (result, s, v) = submit c (null_venue text) cid at intent w in (s, v)
  serve (cancels oid) w = let (done, s, v) = cancel c (null_venue text) oid w in (s, v)
  serve (cancels_all symbol) w =
      let (count, s, v) = cancel_all c (null_venue text) symbol w in (s, v)

  unfoldable pub serve_all : List Request → Oms J × Clock → Oms J × Clock
  serve_all [] w = w
  serve_all (r ∷ rs) w = serve_all rs (serve r w)

  cancel-null_venue :
      (oid : OrderId) (w : Oms J × Clock)
      → cancel c (null_venue text) oid w ≡ (some false, w.0, w.1)
  unfolding cancel deliver
  cancel-null_venue oid (s, v) = refl

  cancel_each-null_venue :
      (orders : List Order) (n : ℕ) (w : Oms J × Clock)
      → cancel_each c (null_venue text) orders n w ≡ (some n, w.0, w.1)
  unfolding cancel_each cancel deliver
  cancel_each-null_venue [] n w = refl
  cancel_each-null_venue (o ∷ os) n (s, v) = cancel_each-null_venue os n (s, v)

  serve-null_venue : (r : Request) (w : Oms J × Clock) → serve r w ≡ w
  unfolding serve submit cancel cancel_all deliver
  serve-null_venue (submits cid at intent) (s, v) = refl
  serve-null_venue (cancels oid) (s, v) = refl
  serve-null_venue (cancels_all symbol) (s, v) =
      ap (λ r. (r.1, r.2)) (cancel_each-null_venue (open_orders symbol s) 0 (s, v))

  -- Over the null venue an order manager and its journal stay as they are, whatever submissions
  -- and cancellations are asked of it.
  pub serve_all-null_venue : (rs : List Request) (w : Oms J × Clock) → serve_all rs w ≡ w
  unfolding serve_all
  serve_all-null_venue [] w = refl
  serve_all-null_venue (r ∷ rs) w =
      ap (serve_all rs) (serve-null_venue r w) ∙ serve_all-null_venue rs w
