-- ===== src/Portfolio/EquityCurve.antt =====
-- backend/portfolio/equity_curve.py: the equity over time with its peak and its drawdowns. The times of
-- the points are not kept.
use indian_algo_trading_plat.Common.{
  ℕ, ◌≤◌, ◌≡◌, true, Option, none, some, List, [], ◌∷◌, ◌++◌, arith, if◌then◌else◌, or_default,
  last_n, get_last?, length, length-last_n-le, All, All-append, All-drop,
}
use indian_algo_trading_plat.Common.Int.{ℤ, pos, leb_ℤ, ltb_ℤ, pos_part}
use indian_algo_trading_plat.Common.Float.{Float, IsOrdered, max_of, nought}

pub record Point (P : Type 0) : Type 0 where
  pub equity : P
  pub drawdown : P

-- `points` is a `deque(maxlen=max_points)`.
pub record EquityCurve (P : Type 0) : Type 0 where
  pub initial_capital : P
  pub max_points : ℕ
  pub points : List (Point P)
  pub peak : P
  pub worst : P

pub record EquitySummary (P : Type 0) : Type 0 where
  pub initial_capital : P
  pub latest_equity : Option P
  pub points : ℕ
  pub current_drawdown : P
  pub max_drawdown : P

-- `max(1, min(limit, 5000))`
abbrev bounded : ℤ → ℕ
bounded limit =
    if leb_ℤ limit (pos 1) then 1 else if ltb_ℤ (pos 5_000) limit then 5_000 else pos_part limit

module _ {P : Type 0} ⦃d : Float P⦄ where
  open d use {sub, of_int, round}

  unfoldable pub new_curve : Option P → ℕ → EquityCurve P
  new_curve capital max_points =
      let initial = or_default capital (of_int (pos 50_000)) in
      record {
        initial_capital = initial;
        max_points = max_points;
        points = [];
        peak = initial;
        worst = nought;
      }

  abbrev pub peak_after : P → EquityCurve P → P
  peak_after equity c = max_of c.peak (round equity 2)

  abbrev pub drawdown_after : P → EquityCurve P → P
  drawdown_after equity c = round (sub (peak_after equity c) (round equity 2)) 2

  unfoldable pub add_point : P → EquityCurve P → EquityCurve P
  add_point equity c = record c {
    peak = peak_after equity c;
    worst = max_of c.worst (drawdown_after equity c);
    points =
        last_n c.max_points
          (c.points ++ record { equity = round equity 2; drawdown = drawdown_after equity c } ∷ []);
  }

  unfoldable pub latest : EquityCurve P → Option (Point P)
  latest c = get_last? c.points

  unfoldable pub get_points : ℤ → EquityCurve P → List (Point P)
  get_points limit c = last_n (bounded limit) c.points

  unfoldable pub current_drawdown : EquityCurve P → P
  unfolding latest
  current_drawdown c = elim (latest c) [ none ↦ nought | some p ↦ p.drawdown ]

  unfoldable pub max_drawdown : EquityCurve P → P
  max_drawdown c = round c.worst 2

  unfoldable pub summary : EquityCurve P → EquitySummary P
  unfolding latest current_drawdown max_drawdown
  summary c = record {
    initial_capital = c.initial_capital;
    latest_equity = elim (latest c) [ none ↦ none | some p ↦ some p.equity ];
    points = length c.points;
    current_drawdown = current_drawdown c;
    max_drawdown = max_drawdown c;
  }

  -- The curve holds at most its number of points, and its peak and its worst drawdown bound them all.
  pub record IsBounded (c : EquityCurve P) : Type 0 where
    pub few : length c.points ≤ c.max_points
    pub below_peak : All (λ p. d.le p.equity c.peak ≡ true) c.points
    pub within_worst : All (λ p. d.le p.drawdown c.worst ≡ true) c.points
    pub peak_number : d.le c.peak c.peak ≡ true
    pub worst_number : d.le c.worst c.worst ≡ true

  max_of_left : (o : IsOrdered d) (x y : P) → d.le x x ≡ true → d.le x (max_of x y) ≡ true
  max_of_left o x y h = ground (arith, o.le_of_lt x y)

  max_of_right :
      (o : IsOrdered d) (x y : P) → d.le x x ≡ true → d.le y y ≡ true → d.le y (max_of x y) ≡ true
  max_of_right o x y h k = ground (arith, o.comparable x y h k)

  max_of_number :
      (x y : P) → d.le x x ≡ true → d.le y y ≡ true → d.le (max_of x y) (max_of x y) ≡ true
  max_of_number x y h k = ground arith

  raise_bound :
      (o : IsOrdered d) (f : Point P → P) (a b : P) (ps : List (Point P))
      → d.le a b ≡ true
      → All (λ p. d.le (f p) a ≡ true) ps
      → All (λ p. d.le (f p) b ≡ true) ps
  raise_bound o f a b [] h k = tt
  raise_bound o f a b (p ∷ ps) h k = (o.le_trans (f p) a b k.0 h, raise_bound o f a b ps h k.1)

  -- Where comparisons are ordered, a point whose equity and drawdown are no NaN keeps the curve within
  -- its number of points, and all its points below its peak and within its worst drawdown.
  pub add_point-IsBounded :
      (o : IsOrdered d) (equity : P) (c : EquityCurve P)
      → d.le (round equity 2) (round equity 2) ≡ true
      → d.le (drawdown_after equity c) (drawdown_after equity c) ≡ true
      → IsBounded c
      → IsBounded (add_point equity c)
  unfolding add_point
  add_point-IsBounded o equity c n m h =
      let e = round equity 2 in
      let w = drawdown_after equity c in
      let p : Point P = record { equity = e; drawdown = w } in
      record {
        few = length-last_n-le c.max_points (c.points ++ p ∷ []);
        below_peak =
            All-drop (λ q. d.le q.equity (max_of c.peak e) ≡ true) _ (c.points ++ p ∷ [])
              (All-append (λ q. d.le q.equity (max_of c.peak e) ≡ true) c.points (p ∷ [])
                (raise_bound o (λ q. q.equity) c.peak (max_of c.peak e) c.points
                  (max_of_left o c.peak e h.peak_number) h.below_peak)
                (max_of_right o c.peak e h.peak_number n, tt));
        within_worst =
            All-drop (λ q. d.le q.drawdown (max_of c.worst w) ≡ true) _ (c.points ++ p ∷ [])
              (All-append (λ q. d.le q.drawdown (max_of c.worst w) ≡ true) c.points (p ∷ [])
                (raise_bound o (λ q. q.drawdown) c.worst (max_of c.worst w) c.points
                  (max_of_left o c.worst w h.worst_number) h.within_worst)
                (max_of_right o c.worst w h.worst_number m, tt));
        peak_number = max_of_number c.peak e h.peak_number n;
        worst_number = max_of_number c.worst w h.worst_number m;
      }
