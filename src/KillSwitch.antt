-- ===== src/KillSwitch.antt =====
-- backend/execution/kill_switch.py: the switch that blocks execution, with its audit trail. The
-- events go to the bus where one is attached and a loop runs; `published` collects them.
use indian_algo_trading_plat.Common.{
  ◌≡◌, refl, String, Bool, true, false, not, Option, none, some, List, [], ◌∷◌, ◌++◌, arith,
  if◌then◌else◌, is_empty, any_of, Bool-cases, inl, inr, length, sym, ap, ◌∙◌,
}
use mathlib.Core.List.{append-nil, append_assoc}

pub data AuditAction : Type 0 where
  activated deactivate_rejected deactivated : AuditAction

pub record AuditEntry : Type 0 where
  pub action : AuditAction
  pub source : String
  pub reason : String

pub data KillSwitchEvent : Type 0 where
  log_activated error_activated : String → KillSwitchEvent
  health_active log_deactivated error_deactivated : KillSwitchEvent

pub record KillSwitchService : Type 0 where
  pub active : Bool
  pub blocking_live_orders : Bool
  pub reason : Option String
  pub updated_by : String
  pub audit : List AuditEntry
  pub event_bus : Bool
  pub published : List KillSwitchEvent

-- The constructor.
unfoldable pub new : Bool → Bool → KillSwitchService
new event_bus default_active = record {
  active = default_active;
  blocking_live_orders = default_active;
  reason = if default_active then some "Initial safety lock active" else none;
  updated_by = "SYSTEM";
  audit = [];
  event_bus = event_bus;
  published = [];
}

abbrev publish : KillSwitchService → List KillSwitchEvent → List KillSwitchEvent
publish k es = if k.event_bus then k.published ++ es else k.published

abbrev entry : AuditAction → String → String → AuditEntry
entry a s r = record { action = a; source = s; reason = r }

unfoldable pub activate : String → String → KillSwitchService → KillSwitchService
activate reason source k =
    let why = if is_empty reason then "Kill switch activated" else reason in
    record k {
      active = true;
      blocking_live_orders = true;
      reason = some why;
      updated_by = source;
      audit = k.audit ++ entry activated source why ∷ [];
      published = publish k (log_activated why ∷ error_activated why ∷ health_active ∷ []);
    }

-- The Boolean result goes with the state.
unfoldable pub deactivate : Bool → String → KillSwitchService → KillSwitchService × Bool
deactivate confirm source k =
    if not confirm
    then (
      record k { audit = k.audit ++ entry deactivate_rejected source "confirm=True required" ∷ [] },
      false,
    )
    else (
      record k {
        active = false;
        blocking_live_orders = false;
        reason = none;
        updated_by = source;
        audit = k.audit ++ entry deactivated source "Kill switch deactivated" ∷ [];
        published = publish k (log_deactivated ∷ error_deactivated ∷ []);
      },
      true,
    )

-- The calls of an operator or of a monitor.
pub data Call : Type 0 where
  call_activate : String → String → Call
  call_deactivate : Bool → String → Call

unfoldable pub perform : Call → KillSwitchService → KillSwitchService
unfolding activate deactivate
perform (call_activate reason source) k = activate reason source k
perform (call_deactivate confirm source) k = (deactivate confirm source k).0

unfoldable pub run : List Call → KillSwitchService → KillSwitchService
run [] k = k
run (c ∷ cs) k = run cs (perform c k)

abbrev pub confirms : Call → Bool
confirms (call_activate reason source) = false
confirms (call_deactivate confirm source) = confirm

perform_blocks :
    (c : Call) (k : KillSwitchService)
    → k.blocking_live_orders ≡ k.active
    → (perform c k).blocking_live_orders ≡ (perform c k).active
unfolding perform
perform_blocks (call_activate reason source) k h = refl
perform_blocks (call_deactivate true source) k h = refl
perform_blocks (call_deactivate false source) k h = h

-- Through any calls, live orders are blocked exactly while the switch is active.
pub run_blocks :
    (cs : List Call) (k : KillSwitchService)
    → k.blocking_live_orders ≡ k.active
    → (run cs k).blocking_live_orders ≡ (run cs k).active
unfolding run
run_blocks [] k h = h
run_blocks (c ∷ cs) k h = run_blocks cs (perform c k) (perform_blocks c k h)

perform_active :
    (c : Call) (k : KillSwitchService)
    → confirms c ≡ false
    → k.active ≡ true
    → (perform c k).active ≡ true
unfolding perform
perform_active (call_activate reason source) k h a = refl
perform_active (call_deactivate true source) k h a = cc
perform_active (call_deactivate false source) k h a = a

-- An active switch stays active until a call deactivates it with `confirm=True`.
pub run_stays_active :
    (cs : List Call) (k : KillSwitchService)
    → any_of confirms cs ≡ false
    → k.active ≡ true
    → (run cs k).active ≡ true
unfolding run
run_stays_active [] k h a = a
run_stays_active (c ∷ cs) k h a = elim (Bool-cases (confirms c)) [
  | inl e ↦ absurd (ground arith)
  | inr e ↦ run_stays_active cs (perform c k) (ground arith) (perform_active c k e a)
]

perform_audit :
    (c : Call) (k : KillSwitchService)
    → (x : AuditEntry) × ((perform c k).audit ≡ k.audit ++ x ∷ [])
unfolding perform
perform_audit (call_activate reason source) k =
    (entry activated source (if is_empty reason then "Kill switch activated" else reason), refl)
perform_audit (call_deactivate true source) k =
    (entry deactivated source "Kill switch deactivated", refl)
perform_audit (call_deactivate false source) k =
    (entry deactivate_rejected source "confirm=True required", refl)

-- Every call, refused or not, leaves exactly one entry in the audit trail, and none is ever lost.
pub run_audit :
    (cs : List Call) (k : KillSwitchService)
    → (xs : List AuditEntry) × ((run cs k).audit ≡ k.audit ++ xs) × (length xs ≡ length cs)
unfolding run
run_audit [] k = ([], sym (append-nil k.audit), refl)
run_audit (c ∷ cs) k =
    let (x, ex) = perform_audit c k in
    let (xs, exs, n) = run_audit cs (perform c k) in
    (
      x ∷ xs,
      exs ∙ ap (λ (t : List AuditEntry). t ++ xs) ex ∙ append_assoc k.audit (x ∷ []) xs,
      omega arith,
    )
