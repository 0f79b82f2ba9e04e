-- ===== src/Scheduler/Ticks.antt =====
-- src/scheduler/Scheduler.cpp: `tickHeartbeats`, `tickCallOuts` and `run`, which call LPC code.
use amlp.Base.{
  ℕ, zero, suc, Bool, List, [], ◌∷◌, ◌++◌, Option, none, some, leb, if◌then◌else◌, Bytes, codes,
}
use amlp.Base.Result.{Result, thrown, returned}
use amlp.Object.{Heap, lock}
use amlp.Scheduler.{Closure, CallOutEntry, HeartbeatEntry, Scheduler}
use amlp.Scheduler.Heartbeats.{count_down}

pub data Origin : Type 0 where
  driver local call_other simul_efun internal efun function_pointer functional : Origin

-- The scheduler with what its calls can change: the objects and, as `vm`, all the rest. `cerr` is
-- what was written to the standard error, a line each. No chain of shadows is longer than
-- `object_count`.
pub record Driver (V W : Type 0) : Type 0 where
  pub scheduler : Scheduler V
  pub objects : Heap
  pub object_count : ℕ
  pub vm : W
  pub shutdown_requested : Bool
  pub cerr : List Bytes

-- The virtual machine and the server, as far as the scheduler calls them. A call throws `what()`.
pub record Vm (V W : Type 0) : Type 0 where
  pub call_function : ℕ → Bytes → List V → Origin → Driver V W → Driver V W × Result Bytes V
  pub call_closure : Closure V → List V → Driver V W → Driver V W × Result Bytes V
  pub reset_eval_cost : W → W
  pub push_command_giver : Option ℕ → W → W
  pub pop_command_giver : W → W
  pub function_exists : ℕ → Bytes → Driver V W → Bool
  pub get_driver_hook : ℕ → Driver V W → V
  pub get_string : V → Option Bytes
  pub is_truthy : V → Bool
  pub of_int : ℕ → V
  pub config_dialect : W → Bytes
  pub all_objects : Driver V W → List ℕ
  pub poll_once : Driver V W → Driver V W
  pub process_pending_replace_programs : Driver V W → Driver V W
  pub resume_ready_async_tasks : ℕ → Driver V W → Driver V W

-- `while (auto shadowed = giver->shadowing().lock()) giver = shadowed;`
unfoldable pub bottom : ℕ → Heap → ℕ → ℕ
bottom zero heap giver = giver
bottom (suc fuel) heap giver = elim (lock heap (heap giver).shadowing) [
  | none ↦ giver
  | some shadowed ↦ bottom fuel heap shadowed
]

unfoldable pub command_giver : ℕ → Heap → ℕ → Option ℕ
command_giver fuel heap obj =
    let giver = bottom fuel heap obj in if (heap giver).commands_enabled then some giver else none

-- The due entries and the others, in order.
unfoldable pub split_due :
    {V : Type 0} → ℕ → List (CallOutEntry V) → List (CallOutEntry V) × List (CallOutEntry V)
split_due now [] = ([], [])
split_due now (e ∷ es) =
    let (due, left) = split_due now es in
    if leb e.due_at now then (e ∷ due, left) else (due, e ∷ left)

module _ {V W : Type 0} where
  abbrev pub with_heartbeats : List HeartbeatEntry → Driver V W → Driver V W
  with_heartbeats es d = record d { scheduler = record d.scheduler { heartbeats = es } }

  abbrev pub with_call_outs : List (CallOutEntry V) → Driver V W → Driver V W
  with_call_outs es d = record d { scheduler = record d.scheduler { call_outs = es } }

  abbrev pub with_vm : (W → W) → Driver V W → Driver V W
  with_vm change d = record d { vm = change d.vm }

module _ {V W : Type 0} (m : Vm V W) where
  -- The handler: what was thrown is reported.
  unfoldable pub report : (Heap → Bytes) → Driver V W × Result Bytes V → Driver V W
  report prefix (d, returned _) = d
  report prefix (d, thrown what) = record d {
    cerr = d.cerr ++ (prefix d.objects ++ codes ": " ++ what) ∷ [];
  }

  unfoldable pub fire_heartbeat : ℕ → Driver V W → Driver V W
  unfolding command_giver
  fire_heartbeat obj d =
      let giver = command_giver d.object_count d.objects obj in
      let called =
        m.call_function obj (codes "heart_beat") [] driver
          (with_vm (m.push_command_giver giver) (with_vm m.reset_eval_cost d)) in
      report (λ heap. codes "[heart_beat] " ++ (heap obj).filename)
        (with_vm m.pop_command_giver called.0, called.1)

  unfoldable pub fire_heartbeats : List ℕ → Driver V W → Driver V W
  fire_heartbeats [] d = d
  fire_heartbeats (obj ∷ due) d = fire_heartbeats due (fire_heartbeat obj d)

  unfoldable pub tick_heartbeats : Driver V W → Driver V W
  unfolding count_down fire_heartbeats
  tick_heartbeats d =
      let (kept, due) = count_down d.objects d.scheduler.heartbeats in
      fire_heartbeats due (with_heartbeats kept d)

  -- The string form, with the object that the `weak_ptr` gives: no object, no call and no error.
  unfoldable pub fire_function : Option ℕ → CallOutEntry V → Driver V W → Driver V W
  fire_function none e d = d
  fire_function (some obj) e d =
      report
        (λ heap.
          codes "[call_out] " ++ (heap obj).filename ++ codes "::" ++ e.function ++ codes "()")
        (m.call_function obj e.function e.args internal (with_vm m.reset_eval_cost d))

  unfoldable pub fire_form : Option (Closure V) → CallOutEntry V → Driver V W → Driver V W
  unfolding fire_function
  fire_form (some closure) e d =
      report (λ heap. codes "[call_out] (closure)")
        (m.call_closure closure e.args (with_vm m.reset_eval_cost d))
  fire_form none e d = fire_function (lock d.objects e.target) e d

  unfoldable pub fire_call_out : CallOutEntry V → Driver V W → Driver V W
  unfolding fire_form
  fire_call_out e d = fire_form e.closure e d

  unfoldable pub fire_call_outs : List (CallOutEntry V) → Driver V W → Driver V W
  fire_call_outs [] d = d
  fire_call_outs (e ∷ due) d = fire_call_outs due (fire_call_out e d)

  unfoldable pub tick_call_outs : ℕ → Driver V W → Driver V W
  unfolding split_due fire_call_outs
  tick_call_outs now d =
      let (due, left) = split_due now d.scheduler.call_outs in
      fire_call_outs due (with_call_outs left d)
