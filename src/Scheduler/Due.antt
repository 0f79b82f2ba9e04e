-- ===== src/Scheduler/Due.antt =====
-- src/scheduler/Scheduler.cpp: which call_outs `tickCallOuts` takes off the list.
use mathlib.Core.List.{Memᴰ}
use amlp.Scheduler.Sublists.{empty, keep, skip}
use amlp.Base.{
  ◌∙◌, sym, refl, ◌++◌, ℕ, suc, ◌≤◌, ◌<◌, Bool, true, false, List, [], ◌∷◌, some, leb, ◌≡◌, ◌≢◌, ap,
  Bool-cases, inl, inr, arith, All,
}
use amlp.Scheduler.{CallOutEntry}
use amlp.Scheduler.Handles.{Between}
use amlp.Scheduler.Ticks.{
  fire_call_out, fire_call_outs, Driver, Vm, with_call_outs, split_due, tick_call_outs,
}
use amlp.Scheduler.Run.{Clock, run}
use amlp.Scheduler.Sublists.{Sublist, Sublist-All}
use amlp.Scheduler.Reaches.{split_due-Sublist, IsValid, IsGone, Reaches-IsGone}
use amlp.Scheduler.Rounds.{CallsReach, fire_call_outs-Reaches}
use amlp.Scheduler.Loop.{run-IsGone}

-- The list has the entry at one place, and its handle at no other.
pub record Once {V : Type 0} (e : CallOutEntry V) (es : List (CallOutEntry V)) : Type 0 where
  pub before : List (CallOutEntry V)
  pub after : List (CallOutEntry V)
  pub splits : es ≡ before ++ e ∷ after
  pub earlier : All (λ x. x.handle ≢ e.handle) before
  pub later : All (λ x. x.handle ≢ e.handle) after

module _ {V : Type 0} where
  Between-above :
      (low high k : ℕ) (es : List (CallOutEntry V))
      → Between low high es
      → k < low
      → All (λ e. e.handle ≢ k) es
  Between-above low high k [] b h = tt
  Between-above low high k (e ∷ es) b h = (
    λ p. absurd (omega (arith, p, h, b.0)),
    Between-above (suc e.handle) high k es b.1 (omega (arith, h, b.0)),
  )

  split_due-above :
      (low high now k : ℕ) (es : List (CallOutEntry V))
      → Between low high es
      → k < low
      → All (λ e. e.handle ≢ k) (split_due now es).1
  split_due-above low high now k es b h =
      Sublist-All (λ e. e.handle ≢ k) (split_due-Sublist now es) (Between-above low high k es b h)

  Between-ordered : (low high : ℕ) (es : List (CallOutEntry V)) → Between low high es → low ≤ high
  Between-ordered low high [] b = b
  Between-ordered low high (e ∷ es) b =
      omega (arith, b.0, Between-ordered (suc e.handle) high es b.1)

  Between-Memᴰ :
      (low high : ℕ) (e : CallOutEntry V) (es : List (CallOutEntry V))
      → Between low high es
      → Memᴰ e es
      → (low ≤ e.handle) × (e.handle < high)
  Between-Memᴰ low high e [] b m = elim m [ ]
  Between-Memᴰ low high e (x ∷ es) b (Memᴰ.head p) =
      omega (arith, b.0, Between-ordered (suc x.handle) high es b.1, ap (λ y. y.handle) p)
  Between-Memᴰ low high e (x ∷ es) b (Memᴰ.tail m) =
      let k = Between-Memᴰ (suc x.handle) high e es b.1 m in (omega (arith, k.0, b.0), k.1)

  split_due-takes :
      (low high now : ℕ) (e : CallOutEntry V) (es : List (CallOutEntry V))
      → Between low high es
      → Memᴰ e es
      → e.due_at ≤ now
      → All (λ x. x.handle ≢ e.handle) (split_due now es).1
  unfolding split_due
  split_due-takes low high now e [] b m h = elim m [ ]
  split_due-takes low high now e (x ∷ es) b (Memᴰ.head p) h =
      let k : leb x.due_at now ≡ true = ground (arith, h, ap (λ y. y.due_at) p) in
      rw k (
        split_due-above (suc x.handle) high now e.handle es b.1
          (omega (arith, ap (λ y. y.handle) p)))
  split_due-takes low high now e (x ∷ es) b (Memᴰ.tail m) h =
      let rest = split_due-takes (suc x.handle) high now e es b.1 m h in
      let n : x.handle ≢ e.handle =
        λ p. absurd (omega (arith, p, Between-Memᴰ (suc x.handle) high e es b.1 m)) in
      elim (Bool-cases (leb x.due_at now)) [ inl p ↦ rw p rest | inr p ↦ rw p (n, rest) ]

  split_due-leaves :
      (now : ℕ) (e : CallOutEntry V) (es : List (CallOutEntry V))
      → Memᴰ e es
      → now < e.due_at
      → Memᴰ e (split_due now es).1
  unfolding split_due
  split_due-leaves now e [] m h = elim m [ ]
  split_due-leaves now e (x ∷ es) (Memᴰ.head p) h =
      let k : leb x.due_at now ≡ false = ground (arith, h, ap (λ y. y.due_at) p) in
      rw k (Memᴰ.head p)
  split_due-leaves now e (x ∷ es) (Memᴰ.tail m) h = elim (Bool-cases (leb x.due_at now)) [
    | inl p ↦ rw p (split_due-leaves now e es m h)
    | inr p ↦ rw p (Memᴰ.tail (split_due-leaves now e es m h))
  ]

  due-Sublist : (now : ℕ) (es : List (CallOutEntry V)) → Sublist (split_due now es).0 es
  unfolding split_due
  due-Sublist now [] = empty
  due-Sublist now (e ∷ es) = elim (Bool-cases (leb e.due_at now)) [
    | inl h ↦ rw h (keep e (due-Sublist now es))
    | inr h ↦ rw h (skip e (due-Sublist now es))
  ]

  Once-first :
      (x e : CallOutEntry V) (es : List (CallOutEntry V))
      → e ≡ x
      → All (λ y. y.handle ≢ e.handle) es
      → Once e (x ∷ es)
  Once-first x e es p h = record {
    before = [];
    after = es;
    splits = ap (λ y. y ∷ es) (sym p);
    earlier = tt;
    later = h;
  }

  Once-later :
      (x e : CallOutEntry V) (es : List (CallOutEntry V))
      → x.handle ≢ e.handle
      → Once e es
      → Once e (x ∷ es)
  Once-later x e es n o = record {
    before = x ∷ o.before;
    after = o.after;
    splits = ap (◌∷◌ x) o.splits;
    earlier = (n, o.earlier);
    later = o.later;
  }

  split_due-Once :
      (low high now : ℕ) (e : CallOutEntry V) (es : List (CallOutEntry V))
      → Between low high es
      → Memᴰ e es
      → e.due_at ≤ now
      → Once e (split_due now es).0
  unfolding split_due
  split_due-Once low high now e [] b m h = elim m [ ]
  split_due-Once low high now e (x ∷ es) b (Memᴰ.head p) h =
      let k : leb x.due_at now ≡ true = ground (arith, h, ap (λ y. y.due_at) p) in
      let n =
        Sublist-All (λ y. y.handle ≢ e.handle) (due-Sublist now es)
          (Between-above (suc x.handle) high e.handle es b.1
            (omega (arith, ap (λ y. y.handle) p))) in
      rw k (Once-first x e (split_due now es).0 p n)
  split_due-Once low high now e (x ∷ es) b (Memᴰ.tail m) h =
      let rest = split_due-Once (suc x.handle) high now e es b.1 m h in
      let n : x.handle ≢ e.handle =
        λ p. absurd (omega (arith, p, Between-Memᴰ (suc x.handle) high e es b.1 m)) in
      elim (Bool-cases (leb x.due_at now)) [
        | inl p ↦ rw p (Once-later x e (split_due now es).0 n rest)
        | inr p ↦ rw p rest
      ]

module _ {V W : Type 0} (m : Vm V W) where
  fire_call_outs-append :
      (xs ys : List (CallOutEntry V)) (d : Driver V W)
      → fire_call_outs m (xs ++ ys) d ≡ fire_call_outs m ys (fire_call_outs m xs d)
  unfolding fire_call_outs
  fire_call_outs-append [] ys d = refl
  fire_call_outs-append (x ∷ xs) ys d = fire_call_outs-append xs ys (fire_call_out m x d)

  -- The tick fires the entry once, and before and after it only entries of other handles.
  pub record FiresOnce (now : ℕ) (e : CallOutEntry V) (d : Driver V W) : Type 0 where
    pub before : List (CallOutEntry V)
    pub after : List (CallOutEntry V)
    pub left : List (CallOutEntry V)
    pub earlier : All (λ x. x.handle ≢ e.handle) before
    pub later : All (λ x. x.handle ≢ e.handle) after
    pub fired :
        tick_call_outs m now d
        ≡ fire_call_outs m after
            (fire_call_out m e (fire_call_outs m before (with_call_outs left d)))

  Once-FiresOnce :
      (now : ℕ) (e : CallOutEntry V) (d : Driver V W)
      → Once e (split_due now d.scheduler.call_outs).0
      → FiresOnce now e d
  unfolding tick_call_outs
  Once-FiresOnce now e d o =
      let left = (split_due now d.scheduler.call_outs).1 in
      record {
        before = o.before;
        after = o.after;
        left = left;
        earlier = o.earlier;
        later = o.later;
        fired =
            ap (λ es. fire_call_outs m es (with_call_outs left d)) o.splits
            ∙ fire_call_outs-append o.before (e ∷ o.after) (with_call_outs left d)
            ∙ unfold fire_call_outs in refl;
      }

module _ {V W : Type 0} (m : Vm V W) (law : CallsReach m) where
  -- If the server and the LPC code change the scheduler by its operations alone, then in a valid
  -- state a tick fires a call_out that is due once, and before and after it entries of other handles
  -- only; the call_out is not pending after the tick, nor after any run that follows.
  pub tick_call_outs-once :
      (now max : ℕ) (clocks : List Clock) (d d' : Driver V W) (stopped : Bool) (e : CallOutEntry V)
      → IsValid d.scheduler
      → Memᴰ e d.scheduler.call_outs
      → e.due_at ≤ now
      → run m max clocks (tick_call_outs m now d) ≡ some (d', stopped)
      → FiresOnce m now e d
        × IsGone e.handle (tick_call_outs m now d).scheduler
        × IsGone e.handle d'.scheduler
  unfolding tick_call_outs
  tick_call_outs-once now max clocks d d' stopped e v k due h =
      let (fired, left) = split_due now d.scheduler.call_outs in
      let taken : IsGone e.handle (with_call_outs left d).scheduler = record {
        given = (Between-Memᴰ 1 d.scheduler.next_handle e _ v.ordered k).1;
        absent = split_due-takes 1 d.scheduler.next_handle now e _ v.ordered k due;
      } in
      let gone = Reaches-IsGone e.handle (fire_call_outs-Reaches m law fired _) taken in
      (
        Once-FiresOnce m now e d (split_due-Once 1 d.scheduler.next_handle now e _ v.ordered k due),
        gone,
        run-IsGone m law max clocks (tick_call_outs m now d) d' stopped e.handle h gone,
      )
