-- ===== src/Scheduler/Resets.antt =====
-- src/scheduler/Scheduler.cpp: `tickResetsAndCleanup` and `run`.
use amlp.Base.{
  ℕ, ◌-◌, Bool, true, false, ◌&&◌, not, List, [], ◌∷◌, ◌++◌, Option, none, some, leb, ltb,
  if◌then◌else◌, Bytes, codes,
}
use amlp.Base.Result.{Result, thrown, returned}
use amlp.Object.{LpcObject, nanoseconds, update, arm_reset, disable_reset}
use amlp.Dialect.{LpcDialect, ld_mud, dialect_from_string}
use amlp.Scheduler.Ticks.{Driver, Vm, driver, with_vm, report}

abbrev pub k_h_reset : ℕ
k_h_reset = 7

abbrev pub k_h_clean_up : ℕ
k_h_clean_up = 8

abbrev pub k_time_to_reset : ℕ
k_time_to_reset = 1800

abbrev pub k_time_to_clean_up : ℕ
k_time_to_clean_up = 3600

-- What one `armReset` draws: the jitter, and its own reading of the clock.
pub record Draw : Type 0 where
  pub jitter : ℕ
  pub clock : ℕ

unfoldable pub is_reset_due : ℕ → LpcObject → Bool
is_reset_due now x = elim x.time_reset [ none ↦ false | some t ↦ leb t now ]

unfoldable pub is_ready_for_clean_up : ℕ → LpcObject → Bool
is_ready_for_clean_up now x =
    x.will_clean_up && ltb (nanoseconds k_time_to_clean_up) (now - x.time_of_ref)

-- The dialect in which a reset suppresses clean_up() in the same cycle.
abbrev pub suppresses : LpcDialect → Bool
suppresses ld_mud = true
suppresses _ = false

abbrev pub set_reset_state : Bool → LpcObject → LpcObject
set_reset_state v x = record x { reset_state = v }

abbrev pub set_will_clean_up : Bool → LpcObject → LpcObject
set_will_clean_up v x = record x { will_clean_up = v }

module _ {V W : Type 0} (m : Vm V W) where
  abbrev pub change : ℕ → (LpcObject → LpcObject) → Driver V W → Driver V W
  change obj f d = record d { objects = update obj f d.objects }

  unfoldable pub hook_function_name : ℕ → Bytes → Driver V W → Bytes
  hook_function_name hook fallback d = elim (m.get_string (m.get_driver_hook hook d)) [
    | some name ↦ name
    | none ↦ fallback
  ]

  -- `reset()` of an object, or no more of it if the object has none.
  unfoldable pub call_reset : ℕ → Driver V W → Driver V W
  call_reset obj d =
      let name = hook_function_name k_h_reset (codes "reset") d in
      if m.function_exists obj name d
      then report m (λ heap. codes "[reset] " ++ (heap obj).filename)
          (m.call_function obj name [] driver (with_vm m.reset_eval_cost d))
      else change obj disable_reset d

  -- The reset half: whether a reset was called. An object destructed by it is left alone.
  unfoldable pub reset : ℕ → Draw → ℕ → Driver V W → Driver V W × Bool
  reset now draw obj d =
      let armed = change obj (arm_reset k_time_to_reset draw.jitter draw.clock) d in
      let called = call_reset obj armed in
      if is_reset_due now (d.objects obj)
      then if (d.objects obj).reset_state
        then (armed, false)
        else if (called.objects obj).destructed
        then (called, true)
        else (change obj (set_reset_state true) called, true)
      else (d, false)

  -- Behind the call of `clean_up()`; after an error the result is void.
  unfoldable pub settle : ℕ → Bool → Bool → Driver V W → Driver V W
  settle obj again saved d =
      if (d.objects obj).destructed
      then d
      else change obj (set_reset_state saved)
          (if again then d else change obj (set_will_clean_up false) d)

  abbrev pub asks_again : Result Bytes V → Bool
  asks_again (returned v) = m.is_truthy v
  asks_again (thrown _) = false

  unfoldable pub clean_up : ℕ → Driver V W → Driver V W
  clean_up obj d =
      let x = d.objects obj in
      let called =
        m.call_function obj
          (hook_function_name k_h_clean_up (codes "clean_up") (with_vm m.reset_eval_cost d))
          (m.of_int (if x.is_clone then 0 else 1) ∷ []) driver (with_vm m.reset_eval_cost d) in
      settle obj (asks_again called.1) x.reset_state
        (report m (λ heap. codes "[clean_up] " ++ (heap obj).filename) called)

  -- The body of the loop. Eligibility for clean_up() is read before the reset.
  unfoldable pub service : LpcDialect → ℕ → Draw → ℕ → Driver V W → Driver V W
  service dialect now draw obj d =
      let ready = is_ready_for_clean_up now (d.objects obj) in
      let (after, reset_called) = reset now draw obj d in
      if (d.objects obj).destructed
      then d
      else if (after.objects obj).destructed
      then after
      else if ready && not (reset_called && suppresses dialect)
      then clean_up obj after
      else after

  unfoldable pub service_all : LpcDialect → ℕ → (ℕ → Draw) → List ℕ → Driver V W → Driver V W
  service_all dialect now draws [] d = d
  service_all dialect now draws (obj ∷ objs) d =
      service_all dialect now draws objs (service dialect now (draws obj) obj d)

  -- `none` is the `std::invalid_argument` of an unknown dialect.
  unfoldable pub tick_resets_and_cleanup : ℕ → (ℕ → Draw) → Driver V W → Option (Driver V W)
  unfolding dialect_from_string service_all
  tick_resets_and_cleanup now draws d = elim (dialect_from_string (m.config_dialect d.vm)) [
    | none ↦ none
    | some dialect ↦ some (service_all dialect now draws (m.all_objects d) d)
  ]
