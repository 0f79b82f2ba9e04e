-- ===== src/Scheduler/Reaches.antt =====
-- src/scheduler/Scheduler.cpp: the ways in which the scheduler's state changes, as steps, and what
-- every sequence of steps keeps.
use amlp.Base.{
  ℕ, ◌<◌, List, [], ◌∷◌, Option, some, none, leb, ◌≡◌, ◌≢◌, refl, Bool-cases, inl, inr, ◌⊎◌, arith,
  All, All-append, Bytes,
}
use amlp.Base.Int.{ℤ}
use amlp.Object.{Heap}
use amlp.Scheduler.{
  CallOutEntry, Scheduler, new_call_out_handle, add_call_out, remove_call_out_by_name,
  remove_call_out_by_handle, remove_all_call_outs_for_object,
}
use amlp.Scheduler.Heartbeats.{set_interval, count_down}
use amlp.Scheduler.Sublists.{
  Sublist, keep, skip, empty, Sublist-refl, Sublist-All, remove_first-Sublist,
  remove_dropped-Sublist,
}
use amlp.Scheduler.Handles.{IsOrdered, Sublist-Between, add_call_out-IsOrdered}
use amlp.Scheduler.Intervals.{AreSingle, set_interval-AreSingle, count_down-AreSingle}
use amlp.Scheduler.Ticks.{split_due}

module _ {V : Type 0} where
  pub split_due-Sublist : (now : ℕ) (es : List (CallOutEntry V)) → Sublist (split_due now es).1 es
  unfolding split_due
  split_due-Sublist now [] = empty
  split_due-Sublist now (e ∷ es) = elim (Bool-cases (leb e.due_at now)) [
    | inl h ↦ rw h (skip e (split_due-Sublist now es))
    | inr h ↦ rw h (keep e (split_due-Sublist now es))
  ]

  -- The operations that LPC code has, and the bookkeeping of a round.
  pub data Step (s : Scheduler V) : Scheduler V → Type 0 where
    adds : (e : CallOutEntry V) → Step s (add_call_out e s).1
    removes_named :
        (heap : Heap) (now : ℕ) (owner : Option ℕ) (function : Bytes)
        → Step s (remove_call_out_by_name heap now owner function s).1
    removes_numbered : (now : ℕ) (handle : ℤ) → Step s (remove_call_out_by_handle now handle s).1
    clears : (heap : Heap) (obj : Option ℕ) → Step s (remove_all_call_outs_for_object heap obj s)
    sets :
        (o : ℕ) (to : ℤ) (heap : Heap)
        → Step s (record s { heartbeats = (set_interval o to heap s.heartbeats).1 })
    beats : (heap : Heap) → Step s (record s { heartbeats = (count_down heap s.heartbeats).0 })
    takes_due : (now : ℕ) → Step s (record s { call_outs = (split_due now s.call_outs).1 })
    stamps : (now : ℕ) → Step s (record s { last_heartbeat = now })

  pub data Reaches (s : Scheduler V) : Scheduler V → Type 0 where
    here : Reaches s s
    next : {t u : Scheduler V} → Reaches s t → Step t u → Reaches s u

  pub Reaches-trans : {s t u : Scheduler V} → Reaches s t → Reaches t u → Reaches s u
  Reaches-trans r here = r
  Reaches-trans r (next q st) = next (Reaches-trans r q) st

  -- A step adds one entry, under the next handle, or leaves a sublist.
  Step-call_outs :
      {s t : Scheduler V}
      → Step s t
      → (Sublist t.call_outs s.call_outs × (t.next_handle ≡ s.next_handle))
        ⊎ ((e : CallOutEntry V) × (t ≡ (add_call_out e s).1))
  unfolding remove_call_out_by_name remove_call_out_by_handle remove_all_call_outs_for_object
  Step-call_outs (adds e) = inr (e, refl)
  Step-call_outs {s} (removes_named heap now (some o) function) =
      inl (remove_first-Sublist _ now s.call_outs, refl)
  Step-call_outs {s} (removes_named heap now none function) = inl (Sublist-refl s.call_outs, refl)
  Step-call_outs {s} (removes_numbered now handle) =
      inl (remove_first-Sublist _ now s.call_outs, refl)
  Step-call_outs {s} (clears heap obj) = inl (remove_dropped-Sublist heap obj s.call_outs, refl)
  Step-call_outs {s} (sets o to heap) = inl (Sublist-refl s.call_outs, refl)
  Step-call_outs {s} (beats heap) = inl (Sublist-refl s.call_outs, refl)
  Step-call_outs {s} (takes_due now) = inl (split_due-Sublist now s.call_outs, refl)
  Step-call_outs {s} (stamps now) = inl (Sublist-refl s.call_outs, refl)

  Step-IsOrdered : {s t : Scheduler V} → Step s t → IsOrdered s → IsOrdered t
  Step-IsOrdered {s} {t} st h = elim (Step-call_outs st) [
    | inl (sub, n) ↦ rw n (Sublist-Between 1 s.next_handle sub h)
    | inr (e, p) ↦ rw p (add_call_out-IsOrdered e s h)
  ]

  -- The handle was given and is no longer pending.
  pub record IsGone (k : ℕ) (s : Scheduler V) : Type 0 where
    pub given : k < s.next_handle
    pub absent : All (λ e. e.handle ≢ k) s.call_outs

  add_call_out-IsGone :
      (k : ℕ) (e : CallOutEntry V) (s : Scheduler V) → IsGone k s → IsGone k (add_call_out e s).1
  unfolding add_call_out new_call_out_handle
  add_call_out-IsGone k e s h = record {
    given = omega (arith, h.given);
    absent =
        All-append (λ e. e.handle ≢ k) s.call_outs _ h.absent
          (λ p. absurd (omega (arith, p, h.given)), tt);
  }

  Step-IsGone : {s t : Scheduler V} (k : ℕ) → Step s t → IsGone k s → IsGone k t
  Step-IsGone {s} {t} k st h = elim (Step-call_outs st) [
    | inl (sub, n) ↦ record {
      given = rw n h.given;
      absent = Sublist-All (λ e. e.handle ≢ k) sub h.absent;
    }
    | inr (e, p) ↦ rw p (add_call_out-IsGone k e s h)
  ]

  pub Reaches-IsGone : {s t : Scheduler V} (k : ℕ) → Reaches s t → IsGone k s → IsGone k t
  Reaches-IsGone k here h = h
  Reaches-IsGone k (next r st) h = Step-IsGone k st (Reaches-IsGone k r h)

  Step-AreSingle : {s t : Scheduler V} → Step s t → AreSingle s.heartbeats → AreSingle t.heartbeats
  unfolding add_call_out new_call_out_handle remove_call_out_by_name remove_call_out_by_handle
      remove_all_call_outs_for_object
  Step-AreSingle {s} (sets o to heap) h = set_interval-AreSingle o to heap s.heartbeats h
  Step-AreSingle {s} (beats heap) h = count_down-AreSingle heap s.heartbeats h
  Step-AreSingle (removes_named heap now none function) h = h
  Step-AreSingle (removes_named heap now (some o) function) h = h
  Step-AreSingle _ h = h

  -- The handles ascend below the next one, and no object has two heart beats.
  pub record IsValid (s : Scheduler V) : Type 0 where
    pub ordered : IsOrdered s
    pub single : AreSingle s.heartbeats

  pub Reaches-IsValid : {s t : Scheduler V} → Reaches s t → IsValid s → IsValid t
  Reaches-IsValid here h = h
  Reaches-IsValid (next r st) h =
      let k = Reaches-IsValid r h in
      record { ordered = Step-IsOrdered st k.ordered; single = Step-AreSingle st k.single }
