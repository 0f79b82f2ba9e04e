-- ===== src/Scheduler/Rounds.antt =====
-- src/scheduler/Scheduler.cpp: what `run` and `tickCallOuts` keep, whatever the LPC code does through
-- the scheduler's operations.
use amlp.Base.{
  ℕ, Bool, List, [], ◌∷◌, Option, some, none, ◌&&◌, ◌≡◌, arith, Bytes, case, codes, not,
}
use amlp.Base.Result.{Result, thrown, returned}
use amlp.Object.{Heap, lock, arm_reset}
use amlp.Dialect.{LpcDialect, dialect_from_string}
use amlp.Scheduler.{CallOutEntry, Closure, Scheduler}
use amlp.Scheduler.Heartbeats.{count_down}
use amlp.Scheduler.Ticks.{
  Driver, Vm, Origin, with_heartbeats, with_call_outs, report, fire_heartbeat, fire_heartbeats,
  tick_heartbeats, split_due, fire_function, fire_form, fire_call_out, fire_call_outs,
  tick_call_outs,
}
use amlp.Scheduler.Resets.{
  Draw, hook_function_name, k_h_reset, k_time_to_reset, change, is_reset_due, is_ready_for_clean_up,
  suppresses, call_reset, reset, settle, clean_up, service, service_all, tick_resets_and_cleanup,
}
use amlp.Scheduler.Reaches.{Reaches, here, next, beats, takes_due, Reaches-trans}

-- LPC code and the server change the scheduler by its operations alone.
pub record CallsReach {V W : Type 0} (m : Vm V W) : Type 0 where
  pub functions :
      (obj : ℕ) (function : Bytes) (args : List V) (origin : Origin) (d : Driver V W)
      → Reaches d.scheduler (m.call_function obj function args origin d).0.scheduler
  pub closures :
      (c : Closure V) (args : List V) (d : Driver V W)
      → Reaches d.scheduler (m.call_closure c args d).0.scheduler
  pub polls : (d : Driver V W) → Reaches d.scheduler (m.poll_once d).scheduler
  pub replaces :
      (d : Driver V W) → Reaches d.scheduler (m.process_pending_replace_programs d).scheduler
  pub resumes :
      (now : ℕ) (d : Driver V W) → Reaches d.scheduler (m.resume_ready_async_tasks now d).scheduler

-- A round or a run that no error leaves ends in a state that can be reached.
abbrev pub Ends : {V W : Type 0} → Scheduler V → Option (Driver V W) → Type 0
Ends s none = Unit
Ends s (some d) = Reaches s d.scheduler

module _ {V W : Type 0} (m : Vm V W) where
  module _ (law : CallsReach m) where
    report-Reaches :
        (prefix : Heap → Bytes) (d : Driver V W) (called : Driver V W × Result Bytes V)
        → Reaches d.scheduler called.0.scheduler
        → Reaches d.scheduler (report m prefix called).scheduler
    unfolding report
    report-Reaches prefix d (e, thrown _) r = r
    report-Reaches prefix d (e, returned _) r = r

    fire_heartbeats-Reaches :
        (due : List ℕ) (d : Driver V W) → Reaches d.scheduler (fire_heartbeats m due d).scheduler
    unfolding fire_heartbeats fire_heartbeat
    fire_heartbeats-Reaches [] d = here
    fire_heartbeats-Reaches (obj ∷ due) d =
        Reaches-trans (report-Reaches _ d _ (law.functions obj _ _ _ _))
          (fire_heartbeats-Reaches due (fire_heartbeat m obj d))

    pub tick_heartbeats-Reaches :
        (d : Driver V W) → Reaches d.scheduler (tick_heartbeats m d).scheduler
    unfolding tick_heartbeats
    tick_heartbeats-Reaches d = Reaches-trans (next here (beats d.objects)) (
        let (kept, due) = count_down d.objects d.scheduler.heartbeats in
        fire_heartbeats-Reaches due (with_heartbeats kept d))

    fire_function-Reaches :
        (o : Option ℕ) (e : CallOutEntry V) (d : Driver V W)
        → Reaches d.scheduler (fire_function m o e d).scheduler
    unfolding fire_function
    fire_function-Reaches none e d = here
    fire_function-Reaches (some obj) e d = report-Reaches _ d _ (law.functions obj _ _ _ _)

    fire_form-Reaches :
        (c : Option (Closure V)) (e : CallOutEntry V) (d : Driver V W)
        → Reaches d.scheduler (fire_form m c e d).scheduler
    unfolding fire_form
    fire_form-Reaches none e d = fire_function-Reaches (lock d.objects e.target) e d
    fire_form-Reaches (some c) e d = report-Reaches _ d _ (law.closures c _ _)

    fire_call_out-Reaches :
        (e : CallOutEntry V) (d : Driver V W) → Reaches d.scheduler (fire_call_out m e d).scheduler
    unfolding fire_call_out
    fire_call_out-Reaches e d = fire_form-Reaches e.closure e d

    pub fire_call_outs-Reaches :
        (due : List (CallOutEntry V)) (d : Driver V W)
        → Reaches d.scheduler (fire_call_outs m due d).scheduler
    unfolding fire_call_outs
    fire_call_outs-Reaches [] d = here
    fire_call_outs-Reaches (e ∷ due) d =
        Reaches-trans (fire_call_out-Reaches e d) (fire_call_outs-Reaches due _)

    pub tick_call_outs-Reaches :
        (now : ℕ) (d : Driver V W) → Reaches d.scheduler (tick_call_outs m now d).scheduler
    unfolding tick_call_outs
    tick_call_outs-Reaches now d = Reaches-trans (next here (takes_due now)) (
        let (due, left) = split_due now d.scheduler.call_outs in
        fire_call_outs-Reaches due (with_call_outs left d))

    call_reset-Reaches :
        (obj : ℕ) (d : Driver V W) → Reaches d.scheduler (call_reset m obj d).scheduler
    unfolding call_reset
    call_reset-Reaches obj d =
        let name = hook_function_name m k_h_reset (codes "reset") d in
        case (λ (x : Driver V W). Reaches d.scheduler x.scheduler) (m.function_exists obj name d)
          (λ _. report-Reaches _ d _ (law.functions obj _ _ _ _)) here

    reset-Reaches :
        (now : ℕ) (draw : Draw) (obj : ℕ) (d : Driver V W)
        → Reaches d.scheduler (reset m now draw obj d).0.scheduler
    unfolding reset
    reset-Reaches now draw obj d =
        let P : Driver V W × Bool → Type 0 = λ x. Reaches d.scheduler x.0.scheduler in
        let armed = change m obj (arm_reset k_time_to_reset draw.jitter draw.clock) d in
        let called = call_reset m obj armed in
        let r = call_reset-Reaches obj armed in
        case P (is_reset_due now (d.objects obj))
          (λ _.
            case P (d.objects obj).reset_state (λ _. here)
              (case P (called.objects obj).destructed (λ _. r) r))
          here

    settle-Reaches :
        (obj : ℕ) (again saved : Bool) (d : Driver V W)
        → (settle m obj again saved d).scheduler ≡ d.scheduler
    unfolding settle
    settle-Reaches obj again saved d = ground arith

    clean_up-Reaches : (obj : ℕ) (d : Driver V W) → Reaches d.scheduler (clean_up m obj d).scheduler
    unfolding clean_up
    clean_up-Reaches obj d =
        rw (settle-Reaches obj) (report-Reaches _ d _ (law.functions obj _ _ _ _))

    service-Reaches :
        (dialect : LpcDialect) (now : ℕ) (draw : Draw) (obj : ℕ) (d : Driver V W)
        → Reaches d.scheduler (service m dialect now draw obj d).scheduler
    unfolding service
    service-Reaches dialect now draw obj d =
        let P : Driver V W → Type 0 = λ x. Reaches d.scheduler x.scheduler in
        let after = (reset m now draw obj d).0 in
        let r = reset-Reaches now draw obj d in
        case P (d.objects obj).destructed (λ _. here)
          (case P (after.objects obj).destructed (λ _. r)
            (case P
              (is_ready_for_clean_up now (d.objects obj)
                && not ((reset m now draw obj d).1 && suppresses dialect))
              (λ _. Reaches-trans r (clean_up-Reaches obj after)) r))

    service_all-Reaches :
        (dialect : LpcDialect) (now : ℕ) (draws : ℕ → Draw) (objs : List ℕ) (d : Driver V W)
        → Reaches d.scheduler (service_all m dialect now draws objs d).scheduler
    unfolding service_all
    service_all-Reaches dialect now draws [] d = here
    service_all-Reaches dialect now draws (obj ∷ objs) d =
        Reaches-trans (service-Reaches dialect now (draws obj) obj d)
          (service_all-Reaches dialect now draws objs _)

    -- An error of `dialectFromString` leaves the round.
    pub tick_resets_and_cleanup-Reaches :
        (now : ℕ) (draws : ℕ → Draw) (d : Driver V W)
        → Ends d.scheduler (tick_resets_and_cleanup m now draws d)
    unfolding tick_resets_and_cleanup
    tick_resets_and_cleanup-Reaches now draws d =
        elim (dialect_from_string (m.config_dialect d.vm))
          as (λ x. Ends d.scheduler (elim x [
            | none ↦ none
            | some dialect ↦ some (service_all m dialect now draws (m.all_objects d) d)
          ])) [
            | none ↦ tt
            | some dialect ↦ service_all-Reaches dialect now draws (m.all_objects d) d
          ]
