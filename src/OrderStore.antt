-- ===== src/OrderStore.antt =====
-- backend/execution/order_store.py: the three SQLite tables as lists in the order of their row ids,
-- and one function for each query. The columns created_at and updated_at are not kept, and the
-- connections, PRAGMAs, indexes and migrations are no part of the model. `P` is the type of prices.
use indian_algo_trading_plat.Common.{
  ℕ, ◌≡◌, String, Bool, true, false, not, ◌||◌, ◌&&◌, Option, none, some, List, [], ◌∷◌, ◌++◌, map,
  if◌then◌else◌, str_eq, is_empty, upper, filter_by, any_of, length, last_n, or_else, ltb, leb,
}
use indian_algo_trading_plat.Common.Int.{ℤ, pos, ◌+ℤ◌, leb_ℤ, pos_part}
use indian_algo_trading_plat.Common.Float.{Float, nought}
use indian_algo_trading_plat.Types.{OrderSide, OrderType, TradingMode}
use mathlib.Core.List.{reverse}
pub mod Requests
pub mod Fills

-- order_requests.status
pub data DbStatus : Type 0 where
  received risk_approved routed_to_paper routed_to_live submitted pending opened : DbStatus
  filled rejected cancelled risk_rejected duplicate_rejected : DbStatus
  other_status : String → DbStatus

-- `is_terminal_order_status`: membership in TERMINAL_ORDER_STATUSES
unfoldable pub is_terminal_order_status : DbStatus → Bool
is_terminal_order_status DbStatus.filled = true
is_terminal_order_status DbStatus.rejected = true
is_terminal_order_status DbStatus.cancelled = true
is_terminal_order_status risk_rejected = true
is_terminal_order_status duplicate_rejected = true
is_terminal_order_status _ = false

-- A row of order_requests.
pub record RequestRow (P : Type 0) : Type 0 where
  pub request_id : String
  pub client_order_id : String
  pub idempotency_key : String
  pub symbol : String
  pub side : OrderSide
  pub quantity : ℤ
  pub order_type : OrderType
  pub mode : TradingMode
  pub status : DbStatus
  pub broker_order_id : Option String
  pub reject_reason : Option String
  pub avg_fill_price : Option P

-- A row of order_events; the event type and the status are free text there.
pub record EventRow : Type 0 where
  pub request_id : String
  pub event_type : String
  pub status : String
  pub reason : Option String
  pub broker_order_id : Option String

-- A row of order_fills.
pub record FillRow (P : Type 0) : Type 0 where
  pub fill_id : String
  pub request_id : String
  pub broker_order_id : Option String
  pub symbol : String
  pub side : OrderSide
  pub filled_quantity : ℤ
  pub fill_price : P
  pub fees : P
  pub source : String

pub record OrderStore (P : Type 0) : Type 0 where
  pub order_requests : List (RequestRow P)
  pub order_events : List EventRow
  pub order_fills : List (FillRow P)

abbrev pub empty_store : {P : Type 0} → OrderStore P
empty_store = record { order_requests = []; order_events = []; order_fills = [] }

abbrev pub has_broker_id : String → Option String → Bool
has_broker_id b none = false
has_broker_id b (some c) = str_eq c b

-- `min(max(1, limit), top)`
abbrev pub clamp : ℕ → ℤ → ℕ
clamp top limit =
    if leb_ℤ limit (pos 1) then 1 else if ltb top (pos_part limit) then top else pos_part limit

-- `ORDER BY id DESC LIMIT ?`
abbrev pub newest {ℓ} : {A : Type ℓ} → ℕ → List A → List A
newest n rows = reverse (last_n n rows)

abbrev pub is_filled : DbStatus → Bool
is_filled DbStatus.filled = true
is_filled _ = false

-- `side.upper()` on a side's text
abbrev pub upper_side : OrderSide → OrderSide
upper_side (OrderSide.other_side t) =
    let u = upper t in
    if str_eq u "BUY"
    then OrderSide.buy
    else if str_eq u "SELL"
    then OrderSide.sell
    else OrderSide.other_side u
upper_side s = s

module _ {P : Type 0} where
  abbrev pub find_request : (RequestRow P → Bool) → List (RequestRow P) → Option (RequestRow P)
  find_request p [] = none
  find_request p (r ∷ rs) = if p r then some r else find_request p rs

  -- `SELECT * FROM order_requests WHERE request_id = ?`
  unfoldable pub get_order_request : OrderStore P → String → Option (RequestRow P)
  get_order_request s id = find_request (λ r. str_eq r.request_id id) s.order_requests

  unfoldable pub get_order_request_by_idempotency : OrderStore P → String → Option (RequestRow P)
  get_order_request_by_idempotency s key =
      find_request (λ r. str_eq r.idempotency_key key) s.order_requests

  unfoldable pub get_order_by_broker_order_id : OrderStore P → String → Option (RequestRow P)
  get_order_by_broker_order_id s b =
      find_request (λ r. has_broker_id b r.broker_order_id) s.order_requests

  -- `WHERE request_id = ? OR idempotency_key = ?`
  abbrev pub clashes : String → String → RequestRow P → Bool
  clashes id key r = str_eq r.request_id id || str_eq r.idempotency_key key

  unfoldable pub check_duplicate : OrderStore P → String → String → Bool
  check_duplicate s id key = any_of (clashes id key) s.order_requests

  -- The row as it is inserted: the INSERT names neither reject_reason nor avg_fill_price.
  abbrev pub inserted : RequestRow P → RequestRow P
  inserted r = record r { reject_reason = none; avg_fill_price = none }

  -- An INSERT that breaks a UNIQUE constraint raises IntegrityError: `false`, and nothing changes.
  -- The quantity is one that SQLite's 64-bit INTEGER holds; the error of a larger one is left out.
  unfoldable pub add_order_request : OrderStore P → RequestRow P → OrderStore P × Bool
  add_order_request s r =
      if any_of (clashes r.request_id r.idempotency_key) s.order_requests
      then (s, false)
      else (record s { order_requests = s.order_requests ++ inserted r ∷ [] }, true)

  -- UPDATE … WHERE request_id = ?
  abbrev pub update_where :
      String → (RequestRow P → RequestRow P) → List (RequestRow P) → List (RequestRow P)
  update_where id f [] = []
  update_where id f (r ∷ rs) = (if str_eq r.request_id id then f r else r) ∷ update_where id f rs

  -- The SET clause that `update_order_status` builds: an argument `None` leaves its column alone.
  abbrev pub set_status :
      DbStatus → Option String → Option String → Option P → RequestRow P → RequestRow P
  set_status status reason broker price r = record r {
    status = status;
    reject_reason = or_else reason r.reject_reason;
    broker_order_id = or_else broker r.broker_order_id;
    avg_fill_price = or_else price r.avg_fill_price;
  }

  unfoldable pub update_order_status :
      OrderStore P → String → DbStatus → Option String → Option String → Option P → OrderStore P
  update_order_status s id status reason broker price = record s {
    order_requests = update_where id (set_status status reason broker price) s.order_requests;
  }

  unfoldable pub update_broker_order_id : OrderStore P → String → String → OrderStore P
  update_broker_order_id s id broker = record s {
    order_requests =
        update_where id (λ r. record r { broker_order_id = some broker }) s.order_requests;
  }

  unfoldable pub add_order_event :
      OrderStore P → String → String → String → Option String → Option String → OrderStore P
  add_order_event s id event_type status reason broker = record s {
    order_events =
        s.order_events
        ++ record {
          request_id = id;
          event_type = event_type;
          status = status;
          reason = reason;
          broker_order_id = broker;
        }
          ∷ [];
  }

  unfoldable pub get_order_events : OrderStore P → String → List EventRow
  get_order_events s id = filter_by (λ e. str_eq e.request_id id) s.order_events

  unfoldable pub get_recent_requests : OrderStore P → ℤ → List (RequestRow P)
  get_recent_requests s limit = newest (clamp 100 limit) s.order_requests

  unfoldable pub get_recent_order_requests : OrderStore P → ℤ → List (RequestRow P)
  get_recent_order_requests s limit = newest (clamp 200 limit) s.order_requests

  unfoldable pub get_recent_order_events : OrderStore P → ℤ → List EventRow
  get_recent_order_events s limit = newest (clamp 200 limit) s.order_events

  unfoldable pub get_recent_fills : OrderStore P → ℤ → List (FillRow P)
  get_recent_fills s limit = newest (clamp 200 limit) s.order_fills

  unfoldable pub get_filled_orders : OrderStore P → List (RequestRow P)
  get_filled_orders s = filter_by (λ r. is_filled r.status) s.order_requests

  unfoldable pub get_active_requests : OrderStore P → List (RequestRow P)
  get_active_requests s = filter_by (λ r. not (is_terminal_order_status r.status)) s.order_requests

  unfoldable pub fill_exists : OrderStore P → String → Bool
  fill_exists s fill_id =
      if is_empty fill_id then false else any_of (λ f. str_eq f.fill_id fill_id) s.order_fills

  unfoldable pub get_fills_for_request : OrderStore P → String → List (FillRow P)
  get_fills_for_request s id =
      if is_empty id then [] else filter_by (λ f. str_eq f.request_id id) s.order_fills

  unfoldable pub get_all_fills_chronological : OrderStore P → List (FillRow P)
  get_all_fills_chronological s = s.order_fills

  abbrev pub sum_filled : List (FillRow P) → ℤ
  sum_filled [] = pos 0
  sum_filled (f ∷ fs) = f.filled_quantity +ℤ sum_filled fs

  -- `SELECT COALESCE(SUM(filled_quantity), 0) … WHERE request_id = ?`
  unfoldable pub get_cumulative_filled_quantity : OrderStore P → String → ℤ
  get_cumulative_filled_quantity s id =
      if is_empty id
      then pos 0
      else sum_filled (filter_by (λ f. str_eq f.request_id id) s.order_fills)

  -- The validation and the INSERT of `record_fill`. SQLite stores a NaN as NULL, which NOT NULL
  -- refuses, and a `fill_id` that is there already breaks UNIQUE. The quantity is one that SQLite's
  -- 64-bit INTEGER holds; the source answers `False` for a larger one, which is left out.
  unfoldable pub record_fill : ⦃d : Float P⦄ → OrderStore P → FillRow P → OrderStore P × Bool
  record_fill ⦃d⦄ s f =
      if is_empty f.fill_id
      then (s, false)
      else if is_empty f.request_id
      then (s, false)
      else if leb_ℤ f.filled_quantity (pos 0)
      then (s, false)
      else if d.le f.fill_price nought
      then (s, false)
      else if not (d.le f.fill_price f.fill_price)
      then (s, false)
      else if any_of (λ g. str_eq g.fill_id f.fill_id) s.order_fills
      then (s, false)
      else (
        record s {
          order_fills =
              s.order_fills ++ record f { symbol = upper f.symbol; side = upper_side f.side } ∷ [];
        },
        true,
      )
