-- ===== src/Scheduler/Heartbeats.antt =====
-- src/scheduler/Scheduler.cpp: `setHeartbeatInterval`, and the first half of `tickHeartbeats`.
use amlp.Base.{
  ℕ, Bool, true, false, List, [], ◌∷◌, ◌++◌, Option, none, some, ◌==◌, ◌||◌, if◌then◌else◌,
}
use amlp.Base.Int.{ℤ, pos, negsuc, cast_int, decrement, is_below_one}
use amlp.Object.{Heap, update, set_heartbeat_interval}
use amlp.Scheduler.{HeartbeatEntry}

-- The test of `find_if`: `e.target.lock() == obj`, for an object that the caller holds.
abbrev pub beats : ℕ → HeartbeatEntry → Bool
beats o e = e.target == o

unfoldable pub is_enabled : ℕ → List HeartbeatEntry → Bool
is_enabled o [] = false
is_enabled o (e ∷ es) = beats o e || is_enabled o es

-- `heartbeats_.erase(it)`
unfoldable pub disable : ℕ → List HeartbeatEntry → List HeartbeatEntry
disable o [] = []
disable o (e ∷ es) = let left = disable o es in if beats o e then es else e ∷ left

-- `it->ticksRemaining = static_cast<int>(to);`
unfoldable pub rearm : ℕ → ℤ → List HeartbeatEntry → List HeartbeatEntry
rearm o ticks [] = []
rearm o ticks (e ∷ es) =
    let left = rearm o ticks es in
    if beats o e then (record e { ticks_remaining = ticks }) ∷ es else e ∷ left

abbrev pub is_zero : ℤ → Bool
is_zero (pos n) = n == 0
is_zero (negsuc _) = false

abbrev pub is_negative : ℤ → Bool
is_negative (pos _) = false
is_negative (negsuc _) = true

-- The two assignments that enable an object or change its interval.
abbrev pub with_interval : ℕ → ℤ → Heap → Heap
with_interval o interval heap = update o (set_heartbeat_interval interval) heap

-- `int interval = to < 0 ? 1 : static_cast<int>(to);`
abbrev pub fresh_interval : ℤ → ℤ
fresh_interval to = if is_negative to then pos 1 else cast_int to

-- `Scheduler::setHeartbeatInterval` of an object that is not null, with the heart beats.
unfoldable pub set_interval : ℕ → ℤ → Heap → List HeartbeatEntry → Heap × List HeartbeatEntry
set_interval o to heap beating =
    if is_zero to
    then (with_interval o (pos 0) heap, disable o beating)
    else if is_enabled o beating
    then if is_negative to
      then (heap, beating)
      else (with_interval o (cast_int to) heap, rearm o (cast_int to) beating)
    else (
      with_interval o (fresh_interval to) heap,
      beating ++ (record { target = o; ticks_remaining = fresh_interval to }) ∷ [],
    )

-- `if (!obj) return;`
unfoldable pub set_heart_beat :
    Option ℕ → ℤ → Heap → List HeartbeatEntry → Heap × List HeartbeatEntry
unfolding set_interval
set_heart_beat none to heap beating = (heap, beating)
set_heart_beat (some o) to heap beating = set_interval o to heap beating

-- The loop over `heartbeats_`: what is kept of it, and who is due.
unfoldable pub count_down : Heap → List HeartbeatEntry → List HeartbeatEntry × List ℕ
count_down heap [] = ([], [])
count_down heap (e ∷ es) =
    let (kept, due) = count_down heap es in
    let ticks = decrement e.ticks_remaining in
    if (heap e.target).alive
    then if is_below_one ticks
      then (
        (record e { ticks_remaining = (heap e.target).heartbeat_interval }) ∷ kept,
        e.target ∷ due,
      )
      else ((record e { ticks_remaining = ticks }) ∷ kept, due)
    else (kept, due)
