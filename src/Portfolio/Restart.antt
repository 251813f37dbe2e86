-- ===== src/Portfolio/Restart.antt =====
-- `rebuild_portfolio_from_fills` of backend/portfolio/rebuild.py as a whole: a second run, and a run on a
-- new tracker.
use indian_algo_trading_plat.Common.{
  ◌≡◌, ◌⊎◌, ◌∙◌, refl, sym, ap, subst, String, true, Option, none, some, List, [], ◌∷◌, ◌++◌, arith,
  eq_refl, Bool-cases, inl, inr, All,
}
use indian_algo_trading_plat.Common.Float.{Float}
use indian_algo_trading_plat.OrderStore.{
  OrderStore, RequestRow, FillRow, get_all_fills_chronological,
}
use indian_algo_trading_plat.Portfolio.Positions.{PositionTracker}
use indian_algo_trading_plat.Portfolio.Rebuild.{
  Replay, is_seen, rebuild_portfolio_from_fills, new_summary, fill_ledger,
}
use indian_algo_trading_plat.Portfolio.Replay.{
  fee_of, core, cores, kept_or_applied, HasId, ids_of, IsSynced, replay_rows-cores, cores-IsSynced,
}

is_seen-append :
    (id other : String) (ids : List String)
    → is_seen id ids ≡ true
    → is_seen id (ids ++ other ∷ []) ≡ true
is_seen-append id other [] h = absurd (cc)
is_seen-append id other (x ∷ ids) h = ground (arith, is_seen-append id other ids)

is_seen-append_self : (id : String) (ids : List String) → is_seen id (ids ++ id ∷ []) ≡ true
is_seen-append_self id [] = ground (arith, eq_refl id)
is_seen-append_self id (x ∷ ids) = ground (arith, is_seen-append_self id ids)

module _ {P : Type 0} ⦃d : Float P⦄ where
  -- A row that a round leaves alone.
  abbrev IsSettled : FillRow P → List String → Type 0
  IsSettled row ids = (is_seen row.fill_id ids ≡ true) ⊎ (fee_of row ≡ none)

  core_settled :
      (fresh : FillRow P → String) (row : FillRow P) (ids : List String) (t : PositionTracker P)
      → IsSettled row ids
      → core fresh row (ids, t) ≡ (ids, t)
  core_settled fresh row ids t (inl seen) = rw seen refl
  core_settled fresh row ids t (inr unusable) = elim (Bool-cases (is_seen row.fill_id ids)) [
    | inl seen ↦ rw seen refl
    | inr new ↦ rw new (ap (kept_or_applied fresh row (ids, t)) unusable)
  ]

  cores_settled :
      (fresh : FillRow P → String) (rows : List (FillRow P)) (ids : List String)
      (t : PositionTracker P)
      → All (λ row. IsSettled row ids) rows
      → cores fresh rows (ids, t) ≡ (ids, t)
  cores_settled fresh [] ids t h = refl
  cores_settled fresh (row ∷ rows) ids t h =
      ap (cores fresh rows) (core_settled fresh row ids t h.0) ∙ cores_settled fresh rows ids t h.1

  applied-seen :
      (fresh : FillRow P → String) (row : FillRow P) (id : String) (ids : List String)
      (t : PositionTracker P) (fee : Option P)
      → is_seen id ids ≡ true
      → is_seen id (kept_or_applied fresh row (ids, t) fee).0 ≡ true
  applied-seen fresh row id ids t none h = h
  applied-seen fresh row id ids t (some fee) h = is_seen-append id row.fill_id ids h

  core-seen :
      (fresh : FillRow P → String) (row : FillRow P) (id : String) (ids : List String)
      (t : PositionTracker P)
      → is_seen id ids ≡ true
      → is_seen id (core fresh row (ids, t)).0 ≡ true
  core-seen fresh row id ids t h = elim (Bool-cases (is_seen row.fill_id ids)) [
    | inl seen ↦ rw seen h
    | inr new ↦ rw new (applied-seen fresh row id ids t (fee_of row) h)
  ]

  core-IsSettled :
      (fresh : FillRow P → String) (row other : FillRow P) (s : List String × PositionTracker P)
      → IsSettled other s.0
      → IsSettled other (core fresh row s).0
  core-IsSettled fresh row other (ids, t) (inl seen) =
      inl (core-seen fresh row other.fill_id ids t seen)
  core-IsSettled fresh row other (ids, t) (inr unusable) = inr unusable

  applied-IsSettled :
      (fresh : FillRow P → String) (row : FillRow P) (ids : List String) (t : PositionTracker P)
      (fee : Option P)
      → fee_of row ≡ fee
      → IsSettled row (kept_or_applied fresh row (ids, t) fee).0
  applied-IsSettled fresh row ids t none h = inr h
  applied-IsSettled fresh row ids t (some fee) h = inl (is_seen-append_self row.fill_id ids)

  core-IsSettled_self :
      (fresh : FillRow P → String) (row : FillRow P) (s : List String × PositionTracker P)
      → IsSettled row (core fresh row s).0
  core-IsSettled_self fresh row (ids, t) = elim (Bool-cases (is_seen row.fill_id ids)) [
    | inl seen ↦ rw seen (inl seen)
    | inr new ↦ rw new (applied-IsSettled fresh row ids t (fee_of row) refl)
  ]

  cores-IsSettled :
      (fresh : FillRow P → String) (rows : List (FillRow P)) (other : FillRow P)
      (s : List String × PositionTracker P)
      → IsSettled other s.0
      → IsSettled other (cores fresh rows s).0
  cores-IsSettled fresh [] other s h = h
  cores-IsSettled fresh (row ∷ rows) other s h =
      cores-IsSettled fresh rows other (core fresh row s) (core-IsSettled fresh row other s h)

  cores-All-IsSettled :
      (fresh : FillRow P → String) (rows : List (FillRow P)) (s : List String × PositionTracker P)
      → All (λ row. IsSettled row (cores fresh rows s).0) rows
  cores-All-IsSettled fresh [] s = tt
  cores-All-IsSettled fresh (row ∷ rows) s = (
    cores-IsSettled fresh rows row (core fresh row s) (core-IsSettled_self fresh row s),
    cores-All-IsSettled fresh rows (core fresh row s),
  )

  cores_idem :
      (fresh fresh' : FillRow P → String) (rows : List (FillRow P))
      (s : List String × PositionTracker P)
      → All HasId rows
      → IsSynced s
      → (cores fresh' rows (ids_of (cores fresh rows s).1, (cores fresh rows s).1)).1
        ≡ (cores fresh rows s).1
  cores_idem fresh fresh' rows s named synced =
      let (ids, t) = cores fresh rows s in
      let agree : ids ≡ ids_of t = cores-IsSynced fresh rows s named synced in
      ap (λ (x : List String × PositionTracker P). x.1)
        (cores_settled fresh' rows (ids_of t) t
          (subst (λ x. All (λ row. IsSettled row x) rows) agree (cores-All-IsSettled fresh rows s)))

  pub rebuild-tracker :
      (fresh : FillRow P → String) (fresh_request : RequestRow P → String) (store : OrderStore P)
      (t : PositionTracker P) (row : FillRow P) (rows : List (FillRow P))
      → store.order_fills ≡ row ∷ rows
      → All HasId (row ∷ rows)
      → (rebuild_portfolio_from_fills fresh fresh_request store t none).tracker
        ≡ (cores fresh (row ∷ rows) (ids_of t, t)).1
  unfolding rebuild_portfolio_from_fills get_all_fills_chronological
  rebuild-tracker fresh fresh_request store t row rows e named =
      let start : Replay P = record {
        seen_ids = ids_of t;
        tracker = t;
        summary = new_summary fill_ledger;
      } in
      rw e (
        ap (λ (x : List String × PositionTracker P). x.1)
          (replay_rows-cores fresh (row ∷ rows) start named))

  -- A rebuild from a ledger that is not empty and whose fills have ids is idempotent: a second one on
  -- the tracker that the first one left changes nothing, whatever ids uuid4 gives.
  pub rebuild_idem :
      (fresh fresh' : FillRow P → String) (fresh_request fresh_request' : RequestRow P → String)
      (store : OrderStore P) (t : PositionTracker P) (row : FillRow P) (rows : List (FillRow P))
      → store.order_fills ≡ row ∷ rows
      → All HasId (row ∷ rows)
      → (rebuild_portfolio_from_fills fresh' fresh_request' store
          (rebuild_portfolio_from_fills fresh fresh_request store t none).tracker
          none).tracker
        ≡ (rebuild_portfolio_from_fills fresh fresh_request store t none).tracker
  rebuild_idem fresh fresh' fresh_request fresh_request' store t row rows e named =
      let first = rebuild-tracker fresh fresh_request store t row rows e named in
      rebuild-tracker fresh' fresh_request' store
        (rebuild_portfolio_from_fills fresh fresh_request store t none).tracker row rows e named
      ∙ ap (λ u. (cores fresh' (row ∷ rows) (ids_of u, u)).1) first
      ∙ cores_idem fresh fresh' (row ∷ rows) (ids_of t, t) named refl
      ∙ sym first
