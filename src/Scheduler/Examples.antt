-- ===== src/Scheduler/Examples.antt =====
-- Concrete inputs for the scheduler.
use mathlib.Core.List.{Memᴰ}
use mathlib.Core.Path.{refl}
use amlp.Base.{
  if◌then◌else◌, ℕ, ◌^◌, true, false, List, [], ◌∷◌, some, none, ◌==◌, ◌≡◌, arith, Bytes, codes,
  same, length, ◌↔◌, not,
}
use amlp.Base.Int.{pos, negsuc, cast_int, decrement}
use amlp.Base.Result.{thrown, returned}
use amlp.Object.{LpcObject, lock}
use amlp.Scheduler.{
  CallOutEntry, HeartbeatEntry, Scheduler, add_call_out, remove_call_out_by_handle,
  find_call_out_by_handle, remove_call_out_by_name, find_call_out_by_name,
  remove_all_call_outs_for_object, remaining_seconds,
}
use amlp.Scheduler.Heartbeats.{set_interval, count_down, is_enabled}
use amlp.Object.{update, set_heartbeat_interval}
use amlp.Scheduler.Ticks.{
  command_giver, Driver, Vm, driver, internal, fire_call_out, report, tick_call_outs,
  tick_heartbeats,
}
use amlp.Scheduler.Run.{Clock, run, iterate, beat_cycle}
use amlp.Scheduler.Period.{after_cycles, times, counters}
use amlp.Scheduler.Intervals.{set_interval-branches, set_interval-period}
use amlp.Scheduler.Handles.{IsOrdered, add_call_out-find, remove_call_out_by_handle-find}
use amlp.Scheduler.Sublists.{Sublist}
use amlp.Scheduler.Removal.{
  IsNamed, Removes, Survives, remove_call_out_by_name-first,
  remove_all_call_outs_for_object-Survives,
}
use amlp.Scheduler.Shadows.{ends, link, command_giver-Chain}
use amlp.Scheduler.Reaches.{IsValid, IsGone, here, next, adds}
use amlp.Scheduler.Rounds.{CallsReach}
use amlp.Scheduler.Due.{FiresOnce, tick_call_outs-once}
use amlp.Scheduler.Loop.{run-IsValid, run-IsOver, IsOver}
use amlp.Scheduler.Recorder.{Call, Script, recorder, tick_call_outs-calls, tick_heartbeats-calls}

-- Object 7 has been destructed, and no one holds object 9.
abbrev room : ℕ → LpcObject
room o = record {
  alive = not (o == 9);
  filename = codes "/room";
  heartbeat_interval = pos 2;
  commands_enabled = true;
  destructed = o == 7;
  ever_interactive = false;
  shadowing = none;
  reset_state = false;
  will_clean_up = true;
  is_clone = o == 3;
  time_reset = some 5;
  time_of_ref = 0;
}

abbrev entry : ℕ → ℕ → Bytes → ℕ → CallOutEntry ℕ
entry handle target function due_at = record {
  handle = handle;
  target = some target;
  function = function;
  closure = none;
  args = 1 ∷ [];
  due_at = due_at;
}

abbrev pending : List (CallOutEntry ℕ)
pending =
    entry 1 3 (codes "tick") 40
    ∷ entry 2 7 (codes "tick") 50
    ∷ entry 5 3 (codes "tick") 9000000000
    ∷ entry 6 9 (codes "gone") 20
    ∷ []

abbrev beating : List HeartbeatEntry
beating =
    (record { target = 3; ticks_remaining = pos 1 })
    ∷ (record { target = 4; ticks_remaining = pos 2 })
    ∷ []

abbrev scheduler : Scheduler ℕ
scheduler = record {
  call_outs = pending;
  heartbeats = beating;
  last_heartbeat = 0;
  next_handle = 8;
}

-- Calls of functions throw; closures return 0.
abbrev script : Script ℕ
script = record {
  outcome = λ call. elim call [
    | Call.calls obj function args origin ↦ thrown (codes "no such function")
    | Call.runs c args ↦ returned 0
  ];
  has_function = λ obj name. true;
  hook = 0;
  text = λ v. none;
  truth = λ v. false;
  number = λ n. n;
  dialect = codes "ldmud";
  live = 3 ∷ 4 ∷ [];
}

abbrev world : Driver ℕ (List (Call ℕ))
world = record {
  scheduler = scheduler;
  objects = room;
  object_count = 10;
  vm = [];
  shutdown_requested = false;
  cerr = [];
}

-- Each call of a function calls out again, at once due.
abbrev busy : Vm ℕ (List (Call ℕ))
busy = record (recorder script) {
  call_function = λ obj function args origin d.
      (record d { scheduler = (add_call_out (entry 0 obj function 0) d.scheduler).1 }, returned 0);
}

busy-CallsReach : CallsReach busy
busy-CallsReach = record {
  functions = λ obj function args origin d. next here (adds (entry 0 obj function 0));
  closures = λ c args d. here;
  polls = λ d. here;
  replaces = λ d. here;
  resumes = λ now d. here;
}

scheduler-IsValid : IsValid scheduler
scheduler-IsValid = record {
  ordered = (omega arith, (omega arith, (omega arith, (omega arith, omega arith))));
  single = λ o. ground arith;
}

abbrev clock : Clock
clock = record {
  loop = 2000000000;
  resets = 2000000001;
  call_outs = 2000000002;
  draws = λ o. record { jitter = 3; clock = 2000000001 };
}

abbrev ticked : Driver ℕ (List (Call ℕ))
ticked = tick_call_outs busy 100 world

abbrev final : Driver ℕ (List (Call ℕ)) → Driver ℕ (List (Call ℕ))
final d = elim (run busy 1 (clock ∷ clock ∷ []) d) [ some (e, _) ↦ e | none ↦ d ]

tick_call_outs-once_example :
    FiresOnce busy 100 (entry 1 3 (codes "tick") 40) world
    × IsGone 1 ticked.scheduler
    × IsGone 1 (final ticked).scheduler
unfolding run iterate beat_cycle fire_call_out lock report add_call_out same
tick_call_outs-once_example =
    tick_call_outs-once busy busy-CallsReach 100 1 (clock ∷ clock ∷ []) world (final ticked) true
      (entry 1 3 (codes "tick") 40) scheduler-IsValid (Memᴰ.head refl) (omega arith) refl

run-IsValid_example : IsValid (final world).scheduler
unfolding run iterate beat_cycle fire_call_out lock report add_call_out same
run-IsValid_example =
    run-IsValid busy busy-CallsReach 1 (clock ∷ clock ∷ []) world (final world) true refl
      scheduler-IsValid

run-IsOver_example : IsOver (run busy 2 (clock ∷ clock ∷ []) world)
run-IsOver_example = run-IsOver busy 2 (clock ∷ clock ∷ []) world (omega arith) (omega arith)

tick_call_outs-calls_example :
    let e = tick_call_outs (recorder script) 100 world in
    (e.vm
      ≡ Call.calls 3 (codes "tick") (1 ∷ []) internal
        ∷ Call.calls 7 (codes "tick") (1 ∷ []) internal
        ∷ [])
    × (length e.cerr ≡ 2)
    × (e.scheduler ≡ record scheduler { call_outs = entry 5 3 (codes "tick") 9000000000 ∷ [] })
unfolding lock
tick_call_outs-calls_example = tick_call_outs-calls script 100 world

tick_heartbeats-calls_example :
    let e = tick_heartbeats (recorder script) world in
    (e.vm ≡ Call.calls 3 (codes "heart_beat") [] driver ∷ [])
    × (length e.cerr ≡ 1)
    × (e.scheduler ≡ record scheduler {
      heartbeats =
          (record { target = 3; ticks_remaining = pos 2 })
          ∷ (record { target = 4; ticks_remaining = pos 1 })
          ∷ [];
    })
unfolding count_down decrement
tick_heartbeats-calls_example = tick_heartbeats-calls script world

set_interval-branches_example :
    let (heap', es') = set_interval 3 (negsuc 4) room beating in
    (is_enabled 3 es' ≡ true)
    × (counters 3 es' ≡ pos 1 ∷ [])
    × ((heap' 3).heartbeat_interval ≡ pos 2)
    × (counters 4 es' ≡ pos 2 ∷ [])
    × (heap' 4 ≡ room 4)
unfolding is_enabled
set_interval-branches_example =
    set_interval-branches 3 4 (negsuc 4) room beating (omega arith) (omega arith)

set_interval-period_example :
    let (heap', es') = set_interval 5 (pos 3) room beating in
    times 5 (count_down heap' (after_cycles 5 heap' es')).1 ≡ 1
set_interval-period_example =
    set_interval-period 5 3 1 2 room beating refl (omega arith) (omega arith) (omega arith)

add_call_out-find_example :
    let (handle, t) = add_call_out (entry 0 4 (codes "late") 7000000000) scheduler in
    (find_call_out_by_handle 1000000000 (pos handle) scheduler ≡ negsuc 0)
    × (find_call_out_by_handle 1000000000 (pos handle) t ≡ pos 6)
    × (find_call_out_by_handle 1000000000 (pos 5) t
        ≡ find_call_out_by_handle 1000000000 (pos 5) scheduler)
    × IsOrdered t
unfolding remaining_seconds add_call_out
add_call_out-find_example =
    add_call_out-find 1000000000 5 (entry 0 4 (codes "late") 7000000000) scheduler
      scheduler-IsValid.ordered (omega arith)

remove_call_out_by_handle-find_example :
    let (remaining, t) = remove_call_out_by_handle 1000000000 (pos 5) scheduler in
    (remaining ≡ find_call_out_by_handle 1000000000 (pos 5) scheduler)
    × (find_call_out_by_handle 1000000000 (pos 5) t ≡ negsuc 0)
    × ((remove_call_out_by_handle 1000000000 (pos 5) t).0 ≡ negsuc 0)
    × (find_call_out_by_handle 1000000000 (pos 2) t
        ≡ find_call_out_by_handle 1000000000 (pos 2) scheduler)
    × IsOrdered t
remove_call_out_by_handle-find_example =
    remove_call_out_by_handle-find 1000000000 2 5 scheduler scheduler-IsValid.ordered (omega arith)

remove_call_out_by_name-first_example :
    let (remaining, t) = remove_call_out_by_name room 30 (some 3) (codes "tick") scheduler in
    Removes (IsNamed room 3 (codes "tick")) 30 pending remaining t.call_outs
    × (remaining ≡ find_call_out_by_name room 30 (some 3) (codes "tick") scheduler)
    × (t ≡ record scheduler { call_outs = t.call_outs })
remove_call_out_by_name-first_example =
    remove_call_out_by_name-first room 30 3 (codes "tick") scheduler

remove_all_call_outs_for_object-Survives_example :
    let t = remove_all_call_outs_for_object room (some 4) scheduler in
    Sublist t.call_outs pending
    × (Memᴰ (entry 1 3 (codes "tick") 40) t.call_outs ↔ (
        Memᴰ (entry 1 3 (codes "tick") 40) pending
        × Survives room (some 4) (entry 1 3 (codes "tick") 40)))
remove_all_call_outs_for_object-Survives_example =
    remove_all_call_outs_for_object-Survives room (some 4) scheduler (entry 1 3 (codes "tick") 40)

-- An interval of 2 ^ 32 is stored as zero: the object beats, and its interval reads as off.
wrap_run :
    let (heap', es') = set_interval 5 (pos (2 ^ 32)) room [] in
    (is_enabled 5 es' ≡ true)
    × ((heap' 5).heartbeat_interval ≡ pos 0)
    × (times 5 (count_down heap' es').1 ≡ 1)
unfolding set_interval is_enabled count_down cast_int update decrement set_heartbeat_interval
wrap_run = (refl, refl, refl)

-- Object 2 shadows 1, and 1 shadows 0.
abbrev shadowed : ℕ → LpcObject
shadowed o = record (room o) {
  shadowing = if o == 2 then some 1 else if o == 1 then some 0 else none;
}

command_giver-Chain_example : command_giver 10 shadowed 2 ≡ some 0
unfolding lock
command_giver-Chain_example =
    command_giver-Chain shadowed 10 2 2 0 (link refl (link refl (ends refl))) (omega arith)
