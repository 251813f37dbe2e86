-- ===== src/RateLimiter/Windows.antt =====
-- The window of `window_seconds`: the times that the limiter keeps, and the requests that it accepted
-- over any number of calls.
use indian_algo_trading_plat.Common.{
  ◌≡◌, ◌∙◌, refl, Bool, true, ◌&&◌, List, [], ◌∷◌, ◌++◌, arith, if◌then◌else◌, filter_by,
  filter_by-append, length, length-append, Bool-cases, inl, inr, ap, sym, subst, ◌≤◌, ◌+◌,
}
use indian_algo_trading_plat.Common.Int.{pos, ltb_ℤ, ◌≤ℤ◌}
use indian_algo_trading_plat.Common.Float.{Float, IsOrdered}
use indian_algo_trading_plat.RateLimiter.{BrokerRateLimiter, in_window, minute, allow_request}

filter_by-filter_by :
    {A : Type 0} (p q : A → Bool)
    → ((a : A) → q a ≡ true → p a ≡ true)
    → (xs : List A) → filter_by q (filter_by p xs) ≡ filter_by q xs
filter_by-filter_by p q h [] = refl
filter_by-filter_by p q h (x ∷ xs) = elim (Bool-cases (q x)) [
  | inl k ↦ ground (arith, h x k, filter_by-filter_by p q h xs)
  | inr k ↦ elim (Bool-cases (p x)) [
    | inl g ↦ ground (arith, k, g, filter_by-filter_by p q h xs)
    | inr g ↦ ground (arith, k, g, filter_by-filter_by p q h xs)
  ]
]

module _ {P : Type 0} ⦃d : Float P⦄ where
  -- Calls at times that do not go back, with the time of the last call and the times at which a
  -- request was accepted.
  pub data History (s0 : BrokerRateLimiter P) : P → BrokerRateLimiter P → List P → Type 0 where
    begin : (t : P) → History s0 t s0 []
    call :
        {last : P} {s : BrokerRateLimiter P} {log : List P} (now : P)
        → History s0 last s log
        → d.le last now ≡ true
        → History s0 now
            (allow_request now s).0
            (if (allow_request now s).1 then log ++ now ∷ [] else log)

  -- Time passes in one direction only: what has left a window does not come back to it.
  abbrev pub Expires : P → Type 0
  Expires window =
      (now later t : P)
      → d.le now later ≡ true
      → in_window window later t ≡ true
      → in_window window now t ≡ true

  -- The times kept are, within every window that ends later, the accepted ones.
  abbrev Tracks : P → List P → List P → P → Type 0
  Tracks window kept log last =
      (now : P)
      → d.le last now ≡ true
      → filter_by (in_window window now) kept ≡ filter_by (in_window window now) log

  kept-Tracks :
      (o : IsOrdered d) (window : P) (x : Expires window) (kept log : List P) (last now : P)
      → d.le last now ≡ true
      → Tracks window kept log last
      → Tracks window (filter_by (in_window window now) kept) log now
  kept-Tracks o window x kept log last now le h later le' =
      filter_by-filter_by (in_window window now) (in_window window later)
        (λ t k. x now later t le' k) kept
      ∙ h later (o.le_trans last now later le le')

  added-Tracks :
      (window : P) (kept log : List P) (now : P)
      → Tracks window kept log now
      → Tracks window (kept ++ now ∷ []) (log ++ now ∷ []) now
  added-Tracks window kept log now h later le =
      filter_by-append (in_window window later) kept (now ∷ [])
      ∙ ap (λ xs. xs ++ filter_by (in_window window later) (now ∷ [])) (h later le)
      ∙ sym (filter_by-append (in_window window later) log (now ∷ []))

  allow_request-Tracks :
      (o : IsOrdered d) (s : BrokerRateLimiter P) (x : Expires s.window_seconds) (log : List P)
      (last now : P)
      → d.le last now ≡ true
      → Tracks s.window_seconds s.requests log last
      → Tracks s.window_seconds
          (allow_request now s).0.requests
          (if (allow_request now s).1 then log ++ now ∷ [] else log)
          now
  unfolding allow_request
  allow_request-Tracks o s x log last now le h =
      let k = kept-Tracks o s.window_seconds x s.requests log last now le h in
      let recent = filter_by (in_window s.window_seconds now) s.requests in
      let recent_min = filter_by (in_window minute now) s.requests_min in
      elim (Bool-cases (
        ltb_ℤ (pos (length recent)) s.max_requests
        && ltb_ℤ (pos (length recent_min)) s.max_rate_per_min)) [
          | inl e ↦ rw e (added-Tracks s.window_seconds recent log now k)
          | inr e ↦ rw e k
        ]

  allow_request-window_seconds :
      (now : P) (s : BrokerRateLimiter P)
      → ((allow_request now s).0.window_seconds ≡ s.window_seconds)
        × ((allow_request now s).0.max_requests ≡ s.max_requests)
  unfolding allow_request
  allow_request-window_seconds now s = ground arith

  History-Tracks :
      (o : IsOrdered d) (s0 : BrokerRateLimiter P) (x : Expires s0.window_seconds) {last : P}
      {s : BrokerRateLimiter P} {log : List P}
      → s0.requests ≡ []
      → History s0 last s log
      → (s.window_seconds ≡ s0.window_seconds)
        × (s.max_requests ≡ s0.max_requests)
        × Tracks s0.window_seconds s.requests log last
  History-Tracks o s0 x empty (begin t) = (refl, refl, λ now le. rw empty refl)
  History-Tracks o s0 x empty (call {last = last} {s = s} {log = log} now h le) =
      let (w, m, k) = History-Tracks o s0 x empty h in
      let (w', m') = allow_request-window_seconds now s in
      (
        w' ∙ w,
        m' ∙ m,
        subst
            (λ v.
              Tracks v (allow_request now s).0.requests
                (if (allow_request now s).1 then log ++ now ∷ [] else log) now)
            w
            (allow_request-Tracks o s (subst Expires (sym w) x) log last now le
              (subst (λ v. Tracks v s.requests log last) (sym w) k)),
      )

  allowed-room :
      (now : P) (s : BrokerRateLimiter P)
      → (allow_request now s).1 ≡ true
      → pos (length (filter_by (in_window s.window_seconds now) s.requests) + 1) ≤ℤ s.max_requests
  unfolding allow_request
  allowed-room now s h = ground arith

  filter_by-one :
      (p : P → Bool) (xs : List P) (x : P)
      → length (filter_by p (xs ++ x ∷ [])) ≤ length (filter_by p xs) + 1
  filter_by-one p xs x =
      ground (
        arith,
        filter_by-append p xs (x ∷ []),
        length-append (filter_by p xs) (filter_by p (x ∷ [])),
      )

  -- From a fresh limiter, with comparisons that are ordered and a clock that does not go back, the
  -- window that ends at an accepted request holds at most `max_requests` accepted requests, that one
  -- included.
  pub allow_request_bounded :
      (o : IsOrdered d) (s0 : BrokerRateLimiter P) (x : Expires s0.window_seconds) (now : P)
      {last : P} {s : BrokerRateLimiter P} {log : List P}
      → s0.requests ≡ []
      → History s0 last s log
      → d.le last now ≡ true
      → (allow_request now s).1 ≡ true
      → pos (length (filter_by (in_window s0.window_seconds now) (log ++ now ∷ [])))
        ≤ℤ s0.max_requests
  allow_request_bounded o s0 x now {s = s} {log = log} empty h le allowed =
      let (w, m, k) = History-Tracks o s0 x empty h in
      let room = allowed-room now s allowed in
      ground (arith, room, w, m, k now le, filter_by-one (in_window s0.window_seconds now) log now)
