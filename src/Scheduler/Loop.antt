-- ===== src/Scheduler/Loop.antt =====
-- src/scheduler/Scheduler.cpp: what every run of `run` keeps, and when it ends.
use mathlib.Core.Option
use mathlib.Core.Path.{subst}
use amlp.Base.{
  ℕ, suc, ◌+◌, ◌-◌, ◌≤◌, ◌<◌, Bool, true, false, List, [], ◌∷◌, Option, some, none, leb, ltb,
  if◌then◌else◌, ◌&&◌, ◌≡◌, refl, Bool-cases, inl, inr, arith, case, length,
}
use amlp.Object.{nanoseconds}
use amlp.Scheduler.{Scheduler}
use amlp.Scheduler.Ticks.{Driver, Vm, tick_heartbeats, tick_call_outs}
use amlp.Scheduler.Resets.{tick_resets_and_cleanup}
use amlp.Scheduler.Run.{
  Clock, k_heartbeat_cycle, set_last_heartbeat, beat_cycle, iterate, run_loop, run,
}
use amlp.Scheduler.Reaches.{
  Reaches, here, next, stamps, Reaches-trans, IsValid, Reaches-IsValid, IsGone, Reaches-IsGone,
}
use amlp.Scheduler.Rounds.{
  CallsReach, Ends, tick_heartbeats-Reaches, tick_call_outs-Reaches,
  tick_resets_and_cleanup-Reaches,
}

-- The loop broke off, or an error left it.
abbrev pub IsOver : {V W : Type 0} → Option (Driver V W × Bool) → Type 0
IsOver none = Unit
IsOver (some (_, stopped)) = stopped ≡ true

module _ {V W : Type 0} (m : Vm V W) where
  -- What holds of a round holds of the loop that starts with it.
  run_loop-round :
      (P : Option (Driver V W × Bool) → Type 0) (Q : Option (Driver V W) → Type 0) (max n : ℕ)
      (clock : Clock) (clocks : List Clock) (d : Driver V W)
      → (Q none → P none)
      → ((e : Driver V W) → Q (some e) → P (some (e, true)))
      → ((e : Driver V W)
          → (ltb 0 max && leb max (suc n)) ≡ false
          → Q (some e)
          → P (run_loop m max (suc n) clocks e))
      → Q (iterate m clock d)
      → P (run_loop m max n (clock ∷ clocks) d)
  unfolding run_loop
  run_loop-round P Q max n clock clocks d lost stop go h = round (iterate m clock d) h
    where
      round :
          (x : Option (Driver V W))
          → Q x
          → P (elim x [
            | none ↦ none
            | some e ↦
                let rest = run_loop m max (suc n) clocks e in
                if ltb 0 max && leb max (suc n)
                then some (e, true)
                else if e.shutdown_requested
                then some (e, true)
                else rest
          ])
      round none k = lost k
      round (some e) k = elim (Bool-cases (ltb 0 max && leb max (suc n))) [
        | inl p ↦ rw p (stop e k)
        | inr p ↦ rw p (case P e.shutdown_requested (λ _. stop e k) (go e p k))
      ]

  -- The end of a run, stopped or not.
  abbrev RunEnds : Scheduler V → Option (Driver V W × Bool) → Type 0
  RunEnds s none = Unit
  RunEnds s (some (d, _)) = Reaches s d.scheduler

  run_loop-IsOver :
      (max n : ℕ) (clocks : List Clock) (d : Driver V W)
      → n < max
      → max ≤ n + length clocks
      → IsOver (run_loop m max n clocks d)
  run_loop-IsOver max n [] d h k = absurd (omega (arith, h, k))
  run_loop-IsOver max n (clock ∷ clocks) d h k =
      run_loop-round IsOver (λ _. Unit) max n clock clocks d (λ _. tt) (λ e _. refl)
        (λ e p _. run_loop-IsOver max (suc n) clocks e (ground (arith, p, h)) (omega (arith, k))) tt

  -- A run of at most `max_iterations` rounds, given as many readings of the clock, is over after
  -- them: it breaks off by itself, unless an unknown dialect's error leaves it.
  pub run-IsOver :
      (max_iterations : ℕ) (clocks : List Clock) (d : Driver V W)
      → 0 < max_iterations
      → max_iterations ≤ length clocks
      → IsOver (run m max_iterations clocks d)
  unfolding run
  run-IsOver max_iterations clocks d h k =
      run_loop-IsOver max_iterations 0 clocks _ h (omega (arith, k))

  module _ (law : CallsReach m) where
    Ends-trans : {s t : Scheduler V} (r : Option (Driver V W)) → Reaches s t → Ends t r → Ends s r
    Ends-trans none r h = tt
    Ends-trans (some d) r h = Reaches-trans r h

    beat_cycle-Reaches : (clock : Clock) (d : Driver V W) → Ends d.scheduler (beat_cycle m clock d)
    unfolding beat_cycle
    beat_cycle-Reaches clock d =
        let stamped = set_last_heartbeat m clock.loop d in
        let e = tick_heartbeats m stamped in
        let r =
          Reaches-trans (next here (stamps clock.loop)) (tick_heartbeats-Reaches m law stamped) in
        case (Ends d.scheduler)
          (leb (nanoseconds k_heartbeat_cycle) (clock.loop - d.scheduler.last_heartbeat))
          (λ _.
            Ends-trans (tick_resets_and_cleanup m clock.resets clock.draws e) r
              (tick_resets_and_cleanup-Reaches m law clock.resets clock.draws e))
          here

    iterate-Reaches : (clock : Clock) (d : Driver V W) → Ends d.scheduler (iterate m clock d)
    unfolding iterate
    iterate-Reaches clock d =
        let polled = m.process_pending_replace_programs (m.poll_once d) in
        let r = Reaches-trans (law.polls d) (law.replaces (m.poll_once d)) in
        after (beat_cycle m clock polled)
          (Ends-trans (beat_cycle m clock polled) r (beat_cycle-Reaches clock polled))
      where
        after :
            (x : Option (Driver V W))
            → Ends d.scheduler x
            → Ends d.scheduler (
                Option.map
                  (λ e. m.resume_ready_async_tasks clock.loop (tick_call_outs m clock.call_outs e))
                  x)
        after none h = tt
        after (some e) h =
            Reaches-trans h
              (Reaches-trans (tick_call_outs-Reaches m law clock.call_outs e) (law.resumes _ _))

    RunEnds-trans :
        {s t : Scheduler V} (r : Option (Driver V W × Bool))
        → Reaches s t
        → RunEnds t r
        → RunEnds s r
    RunEnds-trans none r h = tt
    RunEnds-trans (some _) r h = Reaches-trans r h

    run_loop-Reaches :
        (max n : ℕ) (clocks : List Clock) (d : Driver V W)
        → RunEnds d.scheduler (run_loop m max n clocks d)
    unfolding run_loop
    run_loop-Reaches max n [] d = here
    run_loop-Reaches max n (clock ∷ clocks) d =
        run_loop-round (RunEnds d.scheduler) (Ends d.scheduler) max n clock clocks d (λ _. tt)
          (λ e r. r) (λ e _ r. RunEnds-trans _ r (run_loop-Reaches max (suc n) clocks e))
          (iterate-Reaches clock d)

    run-Reaches :
        (max : ℕ) (clocks : List Clock) (d d' : Driver V W) (stopped : Bool)
        → run m max clocks d ≡ some (d', stopped)
        → Reaches d.scheduler d'.scheduler
    unfolding run
    run-Reaches max clocks d d' stopped h =
        subst (RunEnds d.scheduler) h
          (run_loop-Reaches max 0 clocks (record d { shutdown_requested = false }))

    -- If the server and the LPC code change the scheduler by its operations alone, a run keeps the
    -- state valid: the handles of the pending call_outs ascend and lie below the next handle, and no
    -- object has two heart beats.
    pub run-IsValid :
        (max : ℕ) (clocks : List Clock) (d d' : Driver V W) (stopped : Bool)
        → run m max clocks d ≡ some (d', stopped)
        → IsValid d.scheduler
        → IsValid d'.scheduler
    run-IsValid max clocks d d' stopped h v =
        Reaches-IsValid (run-Reaches max clocks d d' stopped h) v

    pub run-IsGone :
        (max : ℕ) (clocks : List Clock) (d d' : Driver V W) (stopped : Bool) (k : ℕ)
        → run m max clocks d ≡ some (d', stopped)
        → IsGone k d.scheduler
        → IsGone k d'.scheduler
    run-IsGone max clocks d d' stopped k h =
        Reaches-IsGone k (run-Reaches max clocks d d' stopped h)
