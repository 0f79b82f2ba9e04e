-- ===== src/Scheduler/Run.antt =====
-- src/scheduler/Scheduler.cpp: `run`, `requestShutdown` and `isShutdownRequested`.
use mathlib.Core.Option
use amlp.Base.{
  ℕ, suc, ◌-◌, Bool, true, false, ◌&&◌, List, [], ◌∷◌, Option, none, some, leb, ltb, if◌then◌else◌,
}
use amlp.Object.{nanoseconds}
use amlp.Scheduler.Ticks.{Driver, Vm, tick_heartbeats, tick_call_outs}
use amlp.Scheduler.Resets.{Draw, tick_resets_and_cleanup}

abbrev pub k_heartbeat_cycle : ℕ
k_heartbeat_cycle = 2

-- The readings of the clock in one round of the loop, and the draws of `armReset`.
pub record Clock : Type 0 where
  pub loop : ℕ
  pub resets : ℕ
  pub call_outs : ℕ
  pub draws : ℕ → Draw

module _ {V W : Type 0} (m : Vm V W) where
  unfoldable pub request_shutdown : Driver V W → Driver V W
  request_shutdown d = record d { shutdown_requested = true }

  unfoldable pub is_shutdown_requested : Driver V W → Bool
  is_shutdown_requested d = d.shutdown_requested

  abbrev pub set_last_heartbeat : ℕ → Driver V W → Driver V W
  set_last_heartbeat now d = record d { scheduler = record d.scheduler { last_heartbeat = now } }

  -- The heart beats and resets, two seconds or more after the last ones.
  unfoldable pub beat_cycle : Clock → Driver V W → Option (Driver V W)
  unfolding tick_heartbeats tick_resets_and_cleanup
  beat_cycle clock d =
      if leb (nanoseconds k_heartbeat_cycle) (clock.loop - d.scheduler.last_heartbeat)
      then tick_resets_and_cleanup m clock.resets clock.draws
          (tick_heartbeats m (set_last_heartbeat clock.loop d))
      else some d

  -- One round; `none` is an error that leaves `run`.
  unfoldable pub iterate : Clock → Driver V W → Option (Driver V W)
  unfolding beat_cycle tick_call_outs
  iterate clock d =
      Option.map (λ e. m.resume_ready_async_tasks clock.loop (tick_call_outs m clock.call_outs e))
        (beat_cycle clock (m.process_pending_replace_programs (m.poll_once d)))

  -- The loop, with the clock of each round; `true` if it broke off by itself.
  unfoldable pub run_loop : ℕ → ℕ → List Clock → Driver V W → Option (Driver V W × Bool)
  unfolding iterate
  run_loop max_iterations iterations [] d = some (d, false)
  run_loop max_iterations iterations (clock ∷ clocks) d = elim (iterate clock d) [
    | none ↦ none
    | some e ↦
        let rest = run_loop max_iterations (suc iterations) clocks e in
        if ltb 0 max_iterations && leb max_iterations (suc iterations)
        then some (e, true)
        else if e.shutdown_requested
        then some (e, true)
        else rest
  ]

  unfoldable pub run : ℕ → List Clock → Driver V W → Option (Driver V W × Bool)
  unfolding run_loop
  run max_iterations clocks d =
      run_loop max_iterations 0 clocks (record d { shutdown_requested = false })
