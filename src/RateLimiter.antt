-- ===== src/RateLimiter.antt =====
-- backend/execution/broker_rate_limiter.py: two sliding windows over the times of accepted requests.
-- `allow_request` and `allow_request_sync` do the same; a call reads the clock once.
use indian_algo_trading_plat.Common.{
  ◌≡◌, ◌∙◌, refl, Bool, true, false, ◌&&◌, Option, none, some, List, [], ◌∷◌, ◌++◌, arith,
  if◌then◌else◌, filter_by, length, Bool-cases, inl, inr, length-append, ap, sym, ◌≤◌, ◌+◌,
}
use indian_algo_trading_plat.Common.Int.{ℤ, pos, ltb_ℤ, eqb_ℤ}
use indian_algo_trading_plat.Common.Float.{Float}
pub mod Windows

pub record BrokerRateLimiter (P : Type 0) : Type 0 where
  pub max_requests : ℤ
  pub window_seconds : P
  pub max_rate_per_min : ℤ
  pub requests : List P
  pub requests_min : List P

pub data RateLimitExceeded : Type 0 where
  rate_limit_exceeded : RateLimitExceeded

module _ {P : Type 0} ⦃d : Float P⦄ where
  -- The constructor; the default 3 of `max_requests` gives way to `max_rate_per_sec`.
  unfoldable pub new_limiter : ℤ → P → P → P → BrokerRateLimiter P
  new_limiter max_requests window_seconds max_rate_per_sec max_rate_per_min = record {
    max_requests = if eqb_ℤ max_requests (pos 3) then d.to_int max_rate_per_sec else max_requests;
    window_seconds = window_seconds;
    max_rate_per_min = d.to_int max_rate_per_min;
    requests = [];
    requests_min = [];
  }

  -- `now - t < window`
  abbrev pub in_window : P → P → P → Bool
  in_window window now t = d.lt (d.sub now t) window

  abbrev pub minute : P
  minute = d.of_int (pos 60)

  unfoldable pub allow_request : P → BrokerRateLimiter P → BrokerRateLimiter P × Bool
  allow_request now s =
      let recent = filter_by (in_window s.window_seconds now) s.requests in
      let recent_min = filter_by (in_window minute now) s.requests_min in
      if ltb_ℤ (pos (length recent)) s.max_requests
        && ltb_ℤ (pos (length recent_min)) s.max_rate_per_min
      then (record s { requests = recent ++ now ∷ []; requests_min = recent_min ++ now ∷ [] }, true)
      else (record s { requests = recent; requests_min = recent_min }, false)

  -- `acquire`: `none` where it returns, the exception where it raises.
  unfoldable pub acquire : P → BrokerRateLimiter P → BrokerRateLimiter P × Option RateLimitExceeded
  unfolding allow_request
  acquire now s =
      let (s', allowed) = allow_request now s in
      (s', if allowed then none else some rate_limit_exceeded)
