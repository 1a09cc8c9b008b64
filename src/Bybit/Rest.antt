-- ===== src/Bybit/Rest.antt =====
-- src/trading/venues/bybit/rest.py: the calls of pybit's HTTP client, which is the parameter `Client`.
use Prim.Native.String.{String}
use text.Mathlib.Text.{◌==◌ as str_eq}
use claude_trade_teams.Base.{
  ◌≡◌, refl, Bool, true, if◌then◌else◌, Option, none, some, List, [], ◌∷◌, ◌++◌, ◌↔◌, ◌⊎◌, inl, inr,
  arith, Option-cases, Bool-cases, ◌∙◌, ap, subst,
}
use claude_trade_teams.Base.Decimal.{ℤ, pos, eqb_ℤ}

pub data Param : Type 0 where
  word : String → Param
  flag : Bool → Param

abbrev pub Params : Type 0
Params = List (String × Param)

-- the methods of `HTTPClient`
pub data Endpoint : Type 0 where
  server_time wallet_balance positions open_orders order_history place cancel : Endpoint

pub record Request : Type 0 where
  pub endpoint : Endpoint
  pub params : Params

-- the body of an answer: `retCode` and `retMsg`, where it has them, and the rest
pub record Response : Type 0 where
  pub ret_code : Option ℤ
  pub ret_msg : Option String
  pub result : List String

-- How a call ends: with the body, with `BybitApiError`, or with the exception of the client.
pub data Outcome : Type 0 where
  response : Response → Outcome
  api_error : ℤ → String → Outcome
  raised : Outcome

-- The client answers a request, or raises (`none`), and changes what it changes.
abbrev pub Client : Type 0 → Type 0
Client S = Request → S → Option Response × S

-- `str(resp.get("retMsg", ""))`
abbrev pub message_of : Response → String
message_of r = elim r.ret_msg [ none ↦ "" | some m ↦ m ]

pub record BybitRest : Type 0 where
  pub category : String

-- the lines of `_call` after the client has answered
abbrev pub outcome_of : Option Response → Outcome
outcome_of none = raised
outcome_of (some r) = elim r.ret_code [
  | none ↦ response r
  | some code ↦ if eqb_ℤ code (pos 0) then response r else api_error code (message_of r)
]

module _ {S : Type 0} (http : Client S) where
  -- `_call`
  unfoldable pub call : Endpoint → Params → S → Outcome × S
  call endpoint params s =
      let (answer, s') = http (record { endpoint = endpoint; params = params }) s in
      (outcome_of answer, s')

  -- `get_server_time`
  abbrev pub get_server_time : BybitRest → S → Outcome × S
  get_server_time b = call server_time []

  -- `get_wallet_balance`
  abbrev pub get_wallet_balance : String → BybitRest → S → Outcome × S
  get_wallet_balance account_type b = call wallet_balance (("accountType", word account_type) ∷ [])

  -- `get_positions`
  abbrev pub get_positions : String → BybitRest → S → Outcome × S
  get_positions settle_coin b =
      call positions (("category", word b.category) ∷ ("settleCoin", word settle_coin) ∷ [])

  -- `get_open_orders`
  abbrev pub get_open_orders : Option String → String → BybitRest → S → Outcome × S
  get_open_orders none settle_coin b =
      call open_orders (("category", word b.category) ∷ ("settleCoin", word settle_coin) ∷ [])
  get_open_orders (some symbol) settle_coin b =
      call open_orders (("category", word b.category) ∷ ("symbol", word symbol) ∷ [])

  -- `get_order_realtime`
  abbrev pub get_order_realtime : String → BybitRest → S → Outcome × S
  get_order_realtime order_id b =
      call open_orders (("category", word b.category) ∷ ("orderId", word order_id) ∷ [])

  -- `get_order_history`
  abbrev pub get_order_history : String → BybitRest → S → Outcome × S
  get_order_history order_id b =
      call order_history (("category", word b.category) ∷ ("orderId", word order_id) ∷ [])

  -- `cancel_order`
  abbrev pub cancel_order : String → String → BybitRest → S → Outcome × S
  cancel_order symbol order_id b =
      call cancel
        (("category", word b.category) ∷ ("symbol", word symbol) ∷ ("orderId", word order_id) ∷ [])

-- the arguments of `place_order`
pub record OrderArgs : Type 0 where
  pub symbol : String
  pub side : String
  pub order_type : String
  pub qty : String
  pub order_link_id : String
  pub price : Option String
  pub time_in_force : Option String
  pub reduce_only : Bool

-- `if x is not None: params[key] = x`
abbrev pub when_given : String → Option String → Params
when_given key none = []
when_given key (some v) = (key, word v) ∷ []

-- the dict that `place_order` builds
unfoldable pub order_params : BybitRest → OrderArgs → Params
order_params b a =
    ("category", word b.category)
    ∷ ("symbol", word a.symbol)
    ∷ ("side", word a.side)
    ∷ ("orderType", word a.order_type)
    ∷ ("qty", word a.qty)
    ∷ ("orderLinkId", word a.order_link_id)
    ∷ ("reduceOnly", flag a.reduce_only)
    ∷ (when_given "price" a.price ++ when_given "timeInForce" a.time_in_force)

-- `place_order`
abbrev pub place_order : {S : Type 0} → Client S → OrderArgs → BybitRest → S → Outcome × S
place_order http a b = call http place (order_params b a)

abbrev get : String → Params → Option Param
get k [] = none
get k ((j, p) ∷ ps) = if str_eq j k then some p else get k ps

abbrev worded : Option String → Option Param
worded none = none
worded (some v) = some (word v)

-- The price and the time in force are sent exactly where they are given, and `reduceOnly` always.
pub get-order_params :
    (b : BybitRest) (a : OrderArgs)
    → (get "price" (order_params b a) ≡ worded a.price)
      × (get "timeInForce" (order_params b a) ≡ worded a.time_in_force)
      × (get "reduceOnly" (order_params b a) ≡ some (flag a.reduce_only))
unfolding order_params
get-order_params b a = elim (Option-cases a.price) [
  | inl e ↦ elim (Option-cases a.time_in_force) [
    | inl g ↦ rw (e, g) (refl, refl, refl)
    | inr (t, g) ↦ rw (e, g) (refl, refl, refl)
  ]
  | inr (p, e) ↦ elim (Option-cases a.time_in_force) [
    | inl g ↦ rw (e, g) (refl, refl, refl)
    | inr (t, g) ↦ rw (e, g) (refl, refl, refl)
  ]
]

zero_code : (code : ℤ) → eqb_ℤ code (pos 0) ≡ true → code ≡ pos 0
zero_code code h = ground (arith, h)

answered :
    (q r : Response)
    → (outcome_of (some q) ≡ response r)
    → (q ≡ r) × ((q.ret_code ≡ none) ⊎ (q.ret_code ≡ some (pos 0)))
answered q r h = elim (Option-cases q.ret_code) [
  | inl e ↦ (ground (arith, e, h), inl e)
  | inr (code, e) ↦ elim (Bool-cases (eqb_ℤ code (pos 0))) [
    | inl z ↦ (ground (arith, e, z, h), inr (e ∙ ap some (zero_code code z)))
    | inr n ↦ ground (arith, e, n, h)
  ]
]

without_code : (r : Response) → r.ret_code ≡ none → outcome_of (some r) ≡ response r
without_code r e = ground (arith, e)

with_zero : (r : Response) → r.ret_code ≡ some (pos 0) → outcome_of (some r) ≡ response r
with_zero r e = ground (arith, e)

outcome_iff :
    (answer : Option Response) (r : Response)
    → (outcome_of answer ≡ response r)
      ↔ ((answer ≡ some r) × ((r.ret_code ≡ none) ⊎ (r.ret_code ≡ some (pos 0))))
outcome_iff none r = (λ h. cc, λ h. cc)
outcome_iff (some q) r = (
  λ h.
      let (e, c) = answered q r h in
      (ap some e, subst (λ (x : Response). (x.ret_code ≡ none) ⊎ (x.ret_code ≡ some (pos 0))) e c),
  λ h. ap outcome_of h.0 ∙ elim h.1 [ inl c ↦ without_code r c | inr c ↦ with_zero r c ],
)

-- A call returns a body exactly where the client answers it and its `retCode` is missing or 0.
pub call-eq-response_iff :
    {S : Type 0} (http : Client S) (endpoint : Endpoint) (params : Params) (s : S) (r : Response)
    → ((call http endpoint params s).0 ≡ response r) ↔ (
        ((http (record { endpoint = endpoint; params = params }) s).0 ≡ some r)
        × ((r.ret_code ≡ none) ⊎ (r.ret_code ≡ some (pos 0))))
unfolding call
call-eq-response_iff http endpoint params s r =
    outcome_iff (http (record { endpoint = endpoint; params = params }) s).0 r
