-- ===== src/Object.antt =====
-- include/amlp/object/LpcObject.hpp and src/object/LpcObject.cpp: the part of an object's state that
-- the scheduler reads and writes. Objects are named by numbers.
pub mod LivingNames
pub mod LiveObjects
mod Examples
use amlp.Base.{ℕ, ◌+◌, ◌*◌, ◌/◌, Bool, true, Option, none, some, ◌==◌, if◌then◌else◌, Bytes}
use amlp.Base.Int.{ℤ}

-- `alive`: some `shared_ptr` still holds the object. Times are the steady clock's nanoseconds;
-- `time_reset` is `none` for `time_point::max()`.
pub record LpcObject : Type 0 where
  pub alive : Bool
  pub filename : Bytes
  pub heartbeat_interval : ℤ
  pub commands_enabled : Bool
  pub destructed : Bool
  pub ever_interactive : Bool
  pub shadowing : Option ℕ
  pub reset_state : Bool
  pub will_clean_up : Bool
  pub is_clone : Bool
  pub time_reset : Option ℕ
  pub time_of_ref : ℕ

abbrev pub Heap : Type 0
Heap = ℕ → LpcObject

-- `weak_ptr::lock`; `none` is the null pointer.
unfoldable pub lock : Heap → Option ℕ → Option ℕ
lock heap none = none
lock heap (some o) = if (heap o).alive then some o else none

unfoldable pub update : ℕ → (LpcObject → LpcObject) → Heap → Heap
update o change heap p = if p == o then change (heap p) else heap p

unfoldable pub set_heartbeat_interval : ℤ → LpcObject → LpcObject
set_heartbeat_interval interval x = record x { heartbeat_interval = interval }

abbrev pub nanoseconds : ℕ → ℕ
nanoseconds seconds = seconds * 1000000000

-- `jitter` is the draw, below the half of `time_to_reset`.
unfoldable pub arm_reset : (time_to_reset jitter now : ℕ) → LpcObject → LpcObject
arm_reset time_to_reset jitter now x = record x {
  time_reset = some (now + nanoseconds (time_to_reset / 2 + jitter));
  reset_state = true;
}

unfoldable pub disable_reset : LpcObject → LpcObject
disable_reset x = record x { time_reset = none }
