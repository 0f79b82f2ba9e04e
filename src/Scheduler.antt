-- ===== src/Scheduler.antt =====
-- src/scheduler/Scheduler.cpp and include/amlp/scheduler/Scheduler.hpp: the pending call_outs and
-- heart beats, and the operations on them. Each reading of the clock is an argument.
pub mod Heartbeats
pub mod Sublists
pub mod Removal
pub mod Handles
pub mod Ticks
pub mod Shadows
pub mod Resets
pub mod Run
pub mod Reaches
pub mod Rounds
pub mod Loop
pub mod Due
pub mod Countdown
pub mod Recorder
pub mod Servicing
mod Examples
pub mod Period
pub mod Intervals
use amlp.Base.{
  ℕ, ◌+◌, ◌-◌, ◌/◌, Bool, true, false, ◌&&◌, ◌||◌, List, [], ◌∷◌, ◌++◌, Option, none, some, ◌==◌,
  leb, if◌then◌else◌, Bytes, same,
}
use amlp.Base.Int.{ℤ, pos, negsuc, cast_int}
use amlp.Object.{Heap, lock, update, set_heartbeat_interval}

-- `V` is the type of LPC values.
pub record Closure (V : Type 0) : Type 0 where
  pub owner : Option ℕ
  pub function_name : Bytes
  pub bound_args : List V
  pub force_efun : Bool

pub record CallOutEntry (V : Type 0) : Type 0 where
  pub handle : ℕ
  pub target : Option ℕ
  pub function : Bytes
  pub closure : Option (Closure V)
  pub args : List V
  pub due_at : ℕ

pub record HeartbeatEntry : Type 0 where
  pub target : ℕ
  pub ticks_remaining : ℤ

pub record Scheduler (V : Type 0) : Type 0 where
  pub call_outs : List (CallOutEntry V)
  pub heartbeats : List HeartbeatEntry
  pub last_heartbeat : ℕ
  pub next_handle : ℕ

-- Equality of two pointers.
unfoldable pub same_ref : Option ℕ → Option ℕ → Bool
same_ref none none = true
same_ref (some o) (some p) = o == p
same_ref _ _ = false

unfoldable pub remaining_seconds : (now due_at : ℕ) → ℕ
remaining_seconds now due_at = if leb due_at now then 0 else (due_at - now) / 1000000000

abbrev pub is_gone : Heap → Option ℕ → Bool
is_gone heap none = true
is_gone heap (some owner) = (heap owner).destructed

-- `obj && owner == obj`
abbrev pub is_owned : Option ℕ → Option ℕ → Bool
is_owned none owner = false
is_owned (some o) owner = same_ref owner (some o)

module _ {V : Type 0} where
  unfoldable pub new_call_out_handle : Scheduler V → ℕ × Scheduler V
  new_call_out_handle s = (s.next_handle, record s { next_handle = s.next_handle + 1 })

  unfoldable pub add_call_out : CallOutEntry V → Scheduler V → ℕ × Scheduler V
  unfolding new_call_out_handle
  add_call_out entry s =
      let (handle, t) = new_call_out_handle s in
      (handle, record t { call_outs = t.call_outs ++ (record entry { handle = handle }) ∷ [] })

  -- The loop of the two removals: the seconds left of the first match, which goes, or -1.
  unfoldable pub remove_first :
      (CallOutEntry V → Bool) → ℕ → List (CallOutEntry V) → ℤ × List (CallOutEntry V)
  remove_first matches now [] = (negsuc 0, [])
  remove_first matches now (e ∷ es) =
      let (remaining, left) = remove_first matches now es in
      if matches e then (pos (remaining_seconds now e.due_at), es) else (remaining, e ∷ left)

  unfoldable pub find_first : (CallOutEntry V → Bool) → ℕ → List (CallOutEntry V) → ℤ
  find_first matches now [] = negsuc 0
  find_first matches now (e ∷ es) =
      let remaining = find_first matches now es in
      if matches e then pos (remaining_seconds now e.due_at) else remaining

  abbrev pub is_string_form : CallOutEntry V → Bool
  is_string_form e = elim e.closure [ none ↦ true | some _ ↦ false ]

  unfoldable pub has_name : Heap → ℕ → Bytes → CallOutEntry V → Bool
  has_name heap owner function e =
      is_string_form e && same_ref (lock heap e.target) (some owner) && same e.function function

  unfoldable pub has_handle : ℤ → CallOutEntry V → Bool
  has_handle (pos handle) e = e.handle == handle
  has_handle (negsuc _) e = false

  -- `if (!owner) return -1;`
  unfoldable pub remove_call_out_by_name :
      Heap → ℕ → Option ℕ → Bytes → Scheduler V → ℤ × Scheduler V
  remove_call_out_by_name heap now none function s = (negsuc 0, s)
  remove_call_out_by_name heap now (some owner) function s =
      let (remaining, left) = remove_first (has_name heap owner function) now s.call_outs in
      (remaining, record s { call_outs = left })

  unfoldable pub remove_call_out_by_handle : ℕ → ℤ → Scheduler V → ℤ × Scheduler V
  remove_call_out_by_handle now handle s =
      let (remaining, left) = remove_first (has_handle handle) now s.call_outs in
      (remaining, record s { call_outs = left })

  unfoldable pub find_call_out_by_name : Heap → ℕ → Option ℕ → Bytes → Scheduler V → ℤ
  find_call_out_by_name heap now none function s = negsuc 0
  find_call_out_by_name heap now (some owner) function s =
      find_first (has_name heap owner function) now s.call_outs

  unfoldable pub find_call_out_by_handle : ℕ → ℤ → Scheduler V → ℤ
  find_call_out_by_handle now handle s = find_first (has_handle handle) now s.call_outs

  abbrev pub entry_owner : Heap → CallOutEntry V → Option ℕ
  entry_owner heap e = elim e.closure [ some c ↦ lock heap c.owner | none ↦ lock heap e.target ]

  unfoldable pub drops : Heap → Option ℕ → CallOutEntry V → Bool
  drops heap obj e = is_owned obj (entry_owner heap e) || is_gone heap (entry_owner heap e)

  unfoldable pub remove_dropped : Heap → Option ℕ → List (CallOutEntry V) → List (CallOutEntry V)
  remove_dropped heap obj [] = []
  remove_dropped heap obj (e ∷ es) =
      let left = remove_dropped heap obj es in if drops heap obj e then left else e ∷ left

  unfoldable pub remove_all_call_outs_for_object : Heap → Option ℕ → Scheduler V → Scheduler V
  remove_all_call_outs_for_object heap obj s = record s {
    call_outs = remove_dropped heap obj s.call_outs;
  }
