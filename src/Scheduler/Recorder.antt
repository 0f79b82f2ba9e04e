-- ===== src/Scheduler/Recorder.antt =====
-- src/scheduler/Scheduler.cpp: the calls that a tick makes, read off a virtual machine that records
-- them, answers or throws as it likes, and changes nothing else.
use mathlib.Core.Path.{subst}
use amlp.Base.{
  ℕ, ◌+◌, Bool, List, [], ◌∷◌, ◌++◌, Option, some, none, leb, if◌then◌else◌, ◌≡◌, refl, sym, ap,
  ◌∙◌, Bool-cases, inl, inr, arith, Bytes, codes, length, length-append, append_assoc, append-nil,
}
use amlp.Base.Result.{Result, thrown, returned}
use amlp.Object.{Heap, lock}
use amlp.Scheduler.{CallOutEntry, Closure}
use amlp.Scheduler.Heartbeats.{count_down}
use amlp.Scheduler.Countdown.{due_objects, still_beating, count_down-counted}
use amlp.Scheduler.Ticks.{
  Driver, Vm, Origin, driver, internal, with_call_outs, with_heartbeats, report, split_due,
  fire_function, fire_form, fire_call_out, fire_call_outs, tick_call_outs, fire_heartbeat,
  fire_heartbeats, tick_heartbeats,
}

pub data Call (V : Type 0) : Type 0 where
  calls : ℕ → Bytes → List V → Origin → Call V
  runs : Closure V → List V → Call V

-- What the calls give, and what the machine answers to the scheduler's questions.
pub record Script (V : Type 0) : Type 0 where
  pub outcome : Call V → Result Bytes V
  pub has_function : ℕ → Bytes → Bool
  pub hook : V
  pub text : V → Option Bytes
  pub truth : V → Bool
  pub number : ℕ → V
  pub dialect : Bytes
  pub live : List ℕ

module _ {V : Type 0} where
  abbrev pub record_call :
      Script V → Call V → Driver V (List (Call V)) → Driver V (List (Call V)) × Result Bytes V
  record_call script call d = (record d { vm = d.vm ++ call ∷ [] }, script.outcome call)

  abbrev pub recorder : Script V → Vm V (List (Call V))
  recorder script = record {
    call_function = λ obj function args origin. record_call script (calls obj function args origin);
    call_closure = λ c args. record_call script (runs c args);
    reset_eval_cost = λ w. w;
    push_command_giver = λ giver w. w;
    pop_command_giver = λ w. w;
    function_exists = λ obj name d. script.has_function obj name;
    get_driver_hook = λ hook d. script.hook;
    get_string = script.text;
    is_truthy = script.truth;
    of_int = script.number;
    config_dialect = λ w. script.dialect;
    all_objects = λ d. script.live;
    poll_once = λ d. d;
    process_pending_replace_programs = λ d. d;
    resume_ready_async_tasks = λ now d. d;
  }

  -- The call of one entry; none for a string call_out whose object is gone.
  abbrev call_of_target : Option ℕ → CallOutEntry V → List (Call V)
  call_of_target none e = []
  call_of_target (some obj) e = calls obj e.function e.args internal ∷ []

  abbrev call_of_form : Heap → Option (Closure V) → CallOutEntry V → List (Call V)
  call_of_form heap none e = call_of_target (lock heap e.target) e
  call_of_form heap (some c) e = runs c e.args ∷ []

  abbrev pub due_calls : ℕ → Heap → List (CallOutEntry V) → List (Call V)
  due_calls now heap [] = []
  due_calls now heap (e ∷ es) =
      let later = due_calls now heap es in
      if leb e.due_at now then call_of_form heap e.closure e ++ later else later

  abbrev pub not_due : ℕ → List (CallOutEntry V) → List (CallOutEntry V)
  not_due now [] = []
  not_due now (e ∷ es) = let left = not_due now es in if leb e.due_at now then left else e ∷ left

  abbrev failure : Result Bytes V → ℕ
  failure (thrown _) = 1
  failure (returned _) = 0

  abbrev pub failures : Script V → List (Call V) → ℕ
  failures script [] = 0
  failures script (call ∷ cs) = failure (script.outcome call) + failures script cs

  failures-append :
      (script : Script V) (xs ys : List (Call V))
      → failures script (xs ++ ys) ≡ failures script xs + failures script ys
  failures-append script [] ys = omega arith
  failures-append script (x ∷ xs) ys = omega (arith, failures-append script xs ys)

  -- Calls were made, and what they threw was reported; else nothing changed.
  pub record Made (script : Script V) (cs : List (Call V)) (d e : Driver V (List (Call V)))
      : Type 0 where
    pub made : e.vm ≡ d.vm ++ cs
    pub reported : length e.cerr ≡ length d.cerr + failures script cs
    pub kept : (e.objects ≡ d.objects) × (e.scheduler ≡ d.scheduler)

  Made-none : (script : Script V) (d : Driver V (List (Call V))) → Made script [] d d
  Made-none script d = record {
    made = sym (append-nil d.vm);
    reported = omega arith;
    kept = (refl, refl);
  }

  Made-append :
      (script : Script V) (xs ys : List (Call V)) (d e f : Driver V (List (Call V)))
      → Made script xs d e
      → Made script ys e f
      → Made script (xs ++ ys) d f
  Made-append script xs ys d e f h k = record {
    made = k.made ∙ ap (λ v. v ++ ys) h.made ∙ append_assoc d.vm xs ys;
    reported = omega (arith, h.reported, k.reported, failures-append script xs ys);
    kept = (k.kept.0 ∙ h.kept.0, k.kept.1 ∙ h.kept.1);
  }

  pub report-fields :
      (script : Script V) (prefix : Heap → Bytes) (d : Driver V (List (Call V)))
      (r : Result Bytes V)
      → let e = report (recorder script) prefix (d, r) in
        (e.vm ≡ d.vm)
        × (length e.cerr ≡ length d.cerr + failure r)
        × (e.objects ≡ d.objects)
        × (e.scheduler ≡ d.scheduler)
  unfolding report
  report-fields script prefix d (thrown what) =
      (refl, length-append d.cerr _ ∙ omega arith, refl, refl)
  report-fields script prefix d (returned v) = (refl, omega arith, refl, refl)

  report-Made :
      (script : Script V) (call : Call V) (prefix : Heap → Bytes) (d : Driver V (List (Call V)))
      → Made script (call ∷ []) d (report (recorder script) prefix (record_call script call d))
  report-Made script call prefix d =
      let called = record d { vm = d.vm ++ call ∷ [] } in
      let f = report-fields script prefix called (script.outcome call) in
      record { made = f.0; reported = omega (arith, f.1); kept = (f.2, f.3) }

  fire_function-Made :
      (script : Script V) (o : Option ℕ) (e : CallOutEntry V) (d : Driver V (List (Call V)))
      → Made script (call_of_target o e) d (fire_function (recorder script) o e d)
  unfolding fire_function
  fire_function-Made script none e d = Made-none script d
  fire_function-Made script (some obj) e d = report-Made script _ _ d

  fire_form-Made :
      (script : Script V) (c : Option (Closure V)) (e : CallOutEntry V)
      (d : Driver V (List (Call V)))
      → Made script (call_of_form d.objects c e) d (fire_form (recorder script) c e d)
  unfolding fire_form
  fire_form-Made script none e d = fire_function-Made script (lock d.objects e.target) e d
  fire_form-Made script (some c) e d = report-Made script _ _ d

  fire_call_outs-Made :
      (script : Script V) (now : ℕ) (es : List (CallOutEntry V)) (d : Driver V (List (Call V)))
      → Made script
          (due_calls now d.objects es)
          d
          (fire_call_outs (recorder script) (split_due now es).0 d)
  unfolding fire_call_outs split_due fire_call_out
  fire_call_outs-Made script now [] d = Made-none script d
  fire_call_outs-Made script now (e ∷ es) d = elim (Bool-cases (leb e.due_at now)) [
    | inl p ↦
        let one = fire_form-Made script e.closure e d in
        let next = fire_form (recorder script) e.closure e d in
        let later = fire_call_outs-Made script now es next in
        rw p (
          Made-append script (call_of_form d.objects e.closure e) (due_calls now d.objects es) d
            next _ one
            (subst
              (λ heap.
                Made script (due_calls now heap es) next
                  (fire_call_outs (recorder script) (split_due now es).0 next))
              one.kept.0 later))
    | inr p ↦ rw p (fire_call_outs-Made script now es d)
  ]

  split_due-not_due : (now : ℕ) (es : List (CallOutEntry V)) → (split_due now es).1 ≡ not_due now es
  unfolding split_due
  split_due-not_due now [] = refl
  split_due-not_due now (e ∷ es) = ground (arith, split_due-not_due now es)

  -- If the calls change no state, whichever of them throw, a tick makes the calls of the entries
  -- that are due, each once and in the order of the list, but none for a string call_out whose
  -- object is gone; it reports one line for each call that throws; and the entries that are not due
  -- are left, in order.
  pub tick_call_outs-calls :
      (script : Script V) (now : ℕ) (d : Driver V (List (Call V)))
      → let cs = due_calls now d.objects d.scheduler.call_outs in
        let e = tick_call_outs (recorder script) now d in
        (e.vm ≡ d.vm ++ cs)
        × (length e.cerr ≡ length d.cerr + failures script cs)
        × (e.scheduler ≡ record d.scheduler { call_outs = not_due now d.scheduler.call_outs })
  unfolding tick_call_outs
  tick_call_outs-calls script now d =
      let es = d.scheduler.call_outs in
      let r = fire_call_outs-Made script now es (with_call_outs (split_due now es).1 d) in
      (
        r.made,
        r.reported,
        r.kept.1 ∙ ap (λ left. record d.scheduler { call_outs = left }) (split_due-not_due now es),
      )

  abbrev pub beat_calls : List ℕ → List (Call V)
  beat_calls [] = []
  beat_calls (obj ∷ due) = calls obj (codes "heart_beat") [] driver ∷ beat_calls due

  fire_heartbeats-Made :
      (script : Script V) (due : List ℕ) (d : Driver V (List (Call V)))
      → Made script (beat_calls due) d (fire_heartbeats (recorder script) due d)
  unfolding fire_heartbeats fire_heartbeat
  fire_heartbeats-Made script [] d = Made-none script d
  fire_heartbeats-Made script (obj ∷ due) d =
      Made-append script (calls obj (codes "heart_beat") [] driver ∷ []) (beat_calls due) d _ _
        (report-Made script _ _ d)
        (fire_heartbeats-Made script due (fire_heartbeat (recorder script) obj d))

  -- If the calls change no state, whichever of them throw, a heart beat cycle calls `heart_beat` once
  -- in each object that is alive and whose counter is at most 1, in the order of the list, and reports
  -- one line for each call that throws; the entries of those objects start again at their interval,
  -- those of the others that are alive count down by one, and the others go. The least int, which C++
  -- leaves open, counts as the greatest plus one.
  pub tick_heartbeats-calls :
      (script : Script V) (d : Driver V (List (Call V)))
      → let due = due_objects d.objects d.scheduler.heartbeats in
        let e = tick_heartbeats (recorder script) d in
        (e.vm ≡ d.vm ++ beat_calls due)
        × (length e.cerr ≡ length d.cerr + failures script (beat_calls due))
        × (e.scheduler
            ≡ record d.scheduler { heartbeats = still_beating d.objects d.scheduler.heartbeats })
  unfolding tick_heartbeats
  tick_heartbeats-calls script d =
      let es = d.scheduler.heartbeats in
      let c = count_down-counted d.objects es in
      let r =
        fire_heartbeats-Made script (count_down d.objects es).1
          (with_heartbeats (count_down d.objects es).0 d) in
      (
        r.made ∙ ap (λ due. d.vm ++ beat_calls due) c.1,
        r.reported ∙ ap (λ due. length d.cerr + failures script (beat_calls due)) c.1,
        r.kept.1 ∙ ap (λ kept. record d.scheduler { heartbeats = kept }) c.0,
      )
