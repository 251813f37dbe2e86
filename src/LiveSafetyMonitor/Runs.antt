-- ===== src/LiveSafetyMonitor/Runs.antt =====
-- backend/execution/live_safety_monitor.py: what a run of the checks does to the monitor.
use indian_algo_trading_plat.Common.{
  ◌+◌, ◌≤◌, ◌≡◌, ◌≢◌, ◌∙◌, ◌↔◌, refl, sym, ap, subst, true, false, List, [], ◌∷◌, ◌++◌, arith,
  if◌then◌else◌, length, length-last_n-le, Bool-cases, inl, inr,
}
use indian_algo_trading_plat.Common.Float.{Float}
use indian_algo_trading_plat.KillSwitch.{activate}
use indian_algo_trading_plat.LiveSafetyMonitor.{
  Trigger, Surroundings, LiveSafetyMonitor, check_oms_consistency, anomalies_after, conclude,
  triggers, run_checks, record_check, CheckRecord,
}
use indian_algo_trading_plat.LiveSafetyMonitor.Breaches.{Breach, Breach-triggers, triggers-Breach}

module _ {P : Type 0} ⦃d : Float P⦄ where
  conclude-active :
      (s : Surroundings P) (ts : List (Trigger P)) (m : LiveSafetyMonitor P)
      → m.kill_switch.active ≡ false
      → ((conclude s ts m).kill_switch.active ≡ true) ↔ (ts ≢ [])
  unfolding activate
  conclude-active s [] m off = (λ h. cc, λ h. ground (arith, h refl))
  conclude-active s (t ∷ ts) m off = (λ h e. cc, λ h. refl)

  conclude-counted :
      (s : Surroundings P) (ts : List (Trigger P)) (m : LiveSafetyMonitor P)
      → m.kill_switch.active ≡ false
      → (conclude s ts m).kill_switch.active ≡ true
      → (conclude s ts m).total_activations ≡ m.total_activations + 1
  conclude-counted s [] m off h = cc
  conclude-counted s (t ∷ ts) m off h = refl

  length-record_check :
      (ts : List (Trigger P)) (history : List (CheckRecord P))
      → length (record_check ts history) ≤ 50
  length-record_check ts history = length-last_n-le {A = CheckRecord P} 50 (history ++ _ ∷ [])

  conclude-few :
      (s : Surroundings P) (ts : List (Trigger P)) (m : LiveSafetyMonitor P)
      → length (conclude s ts m).check_history ≤ 50
  conclude-few s [] m = length-record_check [] m.check_history
  conclude-few s (t ∷ ts) m = length-record_check (t ∷ ts) m.check_history

  abbrev quiet : Surroundings P → LiveSafetyMonitor P → LiveSafetyMonitor P
  quiet s m = record m { last_check_passed = true; check_history = record_check [] m.check_history }

  -- The monitor after the OMS check.
  abbrev counted : Surroundings P → LiveSafetyMonitor P → LiveSafetyMonitor P
  counted s m = record m {
    consecutive_anomalies = anomalies_after (check_oms_consistency s) m.consecutive_anomalies;
  }

  run_checks-off :
      (s : Surroundings P) (m : LiveSafetyMonitor P)
      → m.kill_switch.active ≡ false
      → run_checks s m ≡ conclude s (triggers s (counted s m).consecutive_anomalies) (counted s m)
  unfolding run_checks
  run_checks-off s m off =
      ap
        (λ b.
          if b
          then quiet s m
          else conclude s (triggers s (counted s m).consecutive_anomalies) (counted s m))
        off

  run_checks-on :
      (s : Surroundings P) (m : LiveSafetyMonitor P)
      → m.kill_switch.active ≡ true
      → run_checks s m ≡ quiet s m
  unfolding run_checks
  run_checks-on s m on =
      ap
        (λ b.
          if b
          then quiet s m
          else conclude s (triggers s (counted s m).consecutive_anomalies) (counted s m))
        on

  -- While the kill switch is inactive, a run of the checks activates it exactly if there is a breach:
  -- more pending and open orders than allowed, a daily loss over its limit, an active row of the store
  -- that no pending or open order in memory goes with, or anomalies of earlier runs that still
  -- reach their threshold. One orphaned row is enough, whatever the threshold.
  pub run_checks-active_iff :
      (s : Surroundings P) (m : LiveSafetyMonitor P)
      → m.kill_switch.active ≡ false
      → ((run_checks s m).kill_switch.active ≡ true) ↔ Breach s m.consecutive_anomalies
  run_checks-active_iff s m off =
      let after = counted s m in
      let both = conclude-active s (triggers s after.consecutive_anomalies) after off in
      subst (λ x. (x.kill_switch.active ≡ true) ↔ Breach s m.consecutive_anomalies)
        (sym (run_checks-off s m off))
        (
          λ h. elim (triggers-Breach s m.consecutive_anomalies) [
            | inl calm ↦ elim (both.0 h calm) [ ]
            | inr b ↦ b
          ],
          λ b. both.1 (Breach-triggers s m.consecutive_anomalies b),
        )

  -- A run of the checks that finds a breach counts one activation.
  pub run_checks-counted :
      (s : Surroundings P) (m : LiveSafetyMonitor P)
      → m.kill_switch.active ≡ false
      → (run_checks s m).kill_switch.active ≡ true
      → (run_checks s m).total_activations ≡ m.total_activations + 1
  run_checks-counted s m off h =
      let after = counted s m in
      let same = run_checks-off s m off in
      ap (λ x. x.total_activations) same
      ∙ conclude-counted s (triggers s after.consecutive_anomalies) after off
          (sym (ap (λ x. x.kill_switch.active) same) ∙ h)

  -- At most 50 records are kept.
  pub run_checks-few :
      (s : Surroundings P) (m : LiveSafetyMonitor P) → length (run_checks s m).check_history ≤ 50
  run_checks-few s m =
      let after = counted s m in
      elim (Bool-cases m.kill_switch.active) [
        | inl on ↦
            subst (λ x. length x.check_history ≤ 50) (sym (run_checks-on s m on))
              (length-record_check [] m.check_history)
        | inr off ↦
            subst (λ x. length x.check_history ≤ 50) (sym (run_checks-off s m off))
              (conclude-few s (triggers s after.consecutive_anomalies) after)
      ]
