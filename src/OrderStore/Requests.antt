-- ===== src/OrderStore/Requests.antt =====
-- The table order_requests of backend/execution/order_store.py: its keys, and what a write changes.
use indian_algo_trading_plat.Common.{
  ◌⊎◌, ◌≡◌, refl, String, Bool, true, false, ◌||◌, Option, some, List, [], ◌∷◌, ◌++◌, arith, eq_iff,
  eq_refl, if◌then◌else◌, str_eq, any_of, Bool-cases, inl, inr,
}
use mathlib.Core.Option
use indian_algo_trading_plat.OrderStore.{
  DbStatus, RequestRow, OrderStore, find_request, get_order_request, check_duplicate, clashes,
  add_order_request, inserted, update_where, set_status, update_order_status,
}

module _ {P : Type 0} where
  -- No row clashes with an earlier one.
  abbrev pub HasUniqueKeys : List (RequestRow P) → Type 0
  HasUniqueKeys [] = Unit
  HasUniqueKeys (r ∷ rs) =
      (any_of (clashes r.request_id r.idempotency_key) rs ≡ false) × HasUniqueKeys rs

  -- `clashes` is symmetric in the two rows.
  clashes_comm :
      (r q : RequestRow P)
      → clashes r.request_id r.idempotency_key q ≡ clashes q.request_id q.idempotency_key r
  clashes_comm r q = ground (
    arith,
    eq_iff q.request_id r.request_id,
    eq_iff r.request_id q.request_id,
    eq_iff q.idempotency_key r.idempotency_key,
    eq_iff r.idempotency_key q.idempotency_key,
  )

  any_of-append_one :
      (p : RequestRow P → Bool) (rs : List (RequestRow P)) (r : RequestRow P)
      → any_of p (rs ++ r ∷ []) ≡ (any_of p rs || p r)
  any_of-append_one p [] r = ground arith
  any_of-append_one p (q ∷ rs) r = ground (arith, any_of-append_one p rs r)

  append-HasUniqueKeys :
      (rs : List (RequestRow P)) (r : RequestRow P)
      → HasUniqueKeys rs
      → any_of (clashes r.request_id r.idempotency_key) rs ≡ false
      → HasUniqueKeys (rs ++ r ∷ [])
  append-HasUniqueKeys [] r h e = (refl, tt)
  append-HasUniqueKeys (q ∷ rs) r h e = ground (
    arith,
    append-HasUniqueKeys rs r h.1,
    any_of-append_one (clashes q.request_id q.idempotency_key) rs r,
    clashes_comm r q,
  )

  -- Whatever is inserted, request ids and idempotency keys stay unique.
  pub add_order_request-HasUniqueKeys :
      (s : OrderStore P) (r : RequestRow P)
      → HasUniqueKeys s.order_requests
      → HasUniqueKeys (add_order_request s r).0.order_requests
  unfolding add_order_request
  add_order_request-HasUniqueKeys s r h =
      ground (arith, append-HasUniqueKeys s.order_requests (inserted r) h)

  pub any_of-update_where :
      (id key ref : String) (f : RequestRow P → RequestRow P)
      → ((r : RequestRow P) → clashes id key (f r) ≡ clashes id key r)
      → (rs : List (RequestRow P))
      → any_of (clashes id key) (update_where ref f rs) ≡ any_of (clashes id key) rs
  any_of-update_where id key ref f same [] = refl
  any_of-update_where id key ref f same (r ∷ rs) =
      ground (arith, same r, any_of-update_where id key ref f same rs)

  update_where-HasUniqueKeys :
      (ref : String) (f : RequestRow P → RequestRow P)
      → ((r : RequestRow P) → (f r).request_id ≡ r.request_id)
      → ((r : RequestRow P) → (f r).idempotency_key ≡ r.idempotency_key)
      → (rs : List (RequestRow P)) → HasUniqueKeys rs
      → HasUniqueKeys (update_where ref f rs)
  update_where-HasUniqueKeys ref f ids keys [] h = tt
  update_where-HasUniqueKeys ref f ids keys (r ∷ rs) h = ground (
    arith,
    ids r,
    keys r,
    any_of-update_where r.request_id r.idempotency_key ref f (λ q. rw (ids q, keys q)) rs,
    update_where-HasUniqueKeys ref f ids keys rs h.1,
  )

  -- A status update keeps request ids and idempotency keys unique.
  pub update_order_status-HasUniqueKeys :
      (s : OrderStore P) (id : String) (status : DbStatus) (reason broker : Option String)
      (price : Option P)
      → HasUniqueKeys s.order_requests
      → HasUniqueKeys (update_order_status s id status reason broker price).order_requests
  unfolding update_order_status
  update_order_status-HasUniqueKeys s id status reason broker price h =
      update_where-HasUniqueKeys id (set_status status reason broker price) (λ r. refl) (λ r. refl)
        s.order_requests h

  find_request-append_one :
      (p : RequestRow P → Bool) (rs : List (RequestRow P)) (r : RequestRow P)
      → any_of p rs ≡ false
      → p r ≡ true
      → find_request p (rs ++ r ∷ []) ≡ some r
  find_request-append_one p [] r h e = ground arith
  find_request-append_one p (q ∷ rs) r h e = ground (arith, find_request-append_one p rs r)

  no_clash-no_id :
      (id key : String) (rs : List (RequestRow P))
      → any_of (clashes id key) rs ≡ false
      → any_of (λ r. str_eq r.request_id id) rs ≡ false
  no_clash-no_id id key [] h = refl
  no_clash-no_id id key (r ∷ rs) h = ground (arith, no_clash-no_id id key rs)

  -- An insertion either finds no clash, succeeds, and the row is found under its request id, with no
  -- reason and no price; or
  -- `check_duplicate` sees the clash, and the store is unchanged.
  pub add_order_request_lem :
      (s : OrderStore P) (r : RequestRow P)
      → ((check_duplicate s r.request_id r.idempotency_key ≡ false)
          × ((add_order_request s r).1 ≡ true)
          × (get_order_request (add_order_request s r).0 r.request_id ≡ some (inserted r)))
        ⊎ ((check_duplicate s r.request_id r.idempotency_key ≡ true)
            × (add_order_request s r ≡ (s, false)))
  unfolding add_order_request check_duplicate get_order_request
  add_order_request_lem s r =
      elim (Bool-cases (any_of (clashes r.request_id r.idempotency_key) s.order_requests)) [
        | inl dup ↦ inr (rw dup (refl, refl))
        | inr new ↦ inl (
            rw new (
              refl,
              refl,
              find_request-append_one (λ q. str_eq q.request_id r.request_id) s.order_requests
                  (inserted r) (no_clash-no_id r.request_id r.idempotency_key s.order_requests new)
                  (eq_refl r.request_id),
            ))
      ]

  pub find_request-update_where :
      (id ref : String) (f : RequestRow P → RequestRow P)
      → ((r : RequestRow P) → (f r).request_id ≡ r.request_id)
      → (rs : List (RequestRow P))
      → find_request (λ r. str_eq r.request_id id) (update_where ref f rs) ≡ (
          if str_eq ref id
          then Option.map f (find_request (λ r. str_eq r.request_id id) rs)
          else find_request (λ r. str_eq r.request_id id) rs)
  find_request-update_where id ref f ids [] = ground arith
  find_request-update_where id ref f ids (r ∷ rs) = ground (
    arith,
    ids r,
    eq_iff r.request_id ref,
    eq_iff r.request_id id,
    eq_iff ref id,
    find_request-update_where id ref f ids rs,
  )
