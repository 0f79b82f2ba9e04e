-- ===== src/Scheduler/Removal.antt =====
-- src/scheduler/Scheduler.cpp: which entries the removals by name and by object take away.
use mathlib.Core.List.{Memᴰ}
use mathlib.Core.Path.{subst}
use amlp.Base.{
  ℕ, Bool, true, false, List, [], ◌∷◌, ◌++◌, ◌≡◌, ◌≢◌, refl, ◌∙◌, Bool-cases, inl, inr, arith, All,
  Option, none, some, Bytes, ◌↔◌, same_iff, ap, sym,
}
use amlp.Base.Int.{ℤ, pos, negsuc}
use amlp.Object.{Heap, lock}
use amlp.Scheduler.{
  CallOutEntry, Scheduler, remove_first, find_first, has_name, remaining_seconds, same_ref,
  entry_owner, remove_call_out_by_name, find_call_out_by_name, drops, remove_dropped,
  remove_all_call_outs_for_object,
}
use amlp.Scheduler.Sublists.{Sublist, Sublist-Memᴰ, remove_dropped-Sublist}

same_ref_iff : (a b : Option ℕ) → (same_ref a b ≡ true) ↔ (a ≡ b)
unfolding same_ref
same_ref_iff none none = ground arith
same_ref_iff (some o) (some p) = ground arith
same_ref_iff none (some p) = ground arith
same_ref_iff (some o) none = ground arith

module _ {V : Type 0} where
  -- The entry of a string call_out of that object and function.
  pub record IsNamed (heap : Heap) (owner : ℕ) (function : Bytes) (e : CallOutEntry V)
      : Type 0 where
    pub string_form : e.closure ≡ none
    pub targets : lock heap e.target ≡ some owner
    pub calls : e.function ≡ function

  has_name_iff :
      (heap : Heap) (owner : ℕ) (function : Bytes) (e : CallOutEntry V)
      → (has_name heap owner function e ≡ true) ↔ IsNamed heap owner function e
  unfolding has_name
  has_name_iff heap owner function e = (
    λ h.
        ground
          (arith, same_ref_iff (lock heap e.target) (some owner), same_iff e.function function),
    λ k.
        ground
          (arith, same_ref_iff (lock heap e.target) (some owner), same_iff e.function function),
  )

  -- The outcome of a removal: nothing satisfies `P` and -1 is returned, or the first entry that
  -- does goes and its seconds are returned.
  pub data Removes (P : CallOutEntry V → Type 0) (now : ℕ)
      : List (CallOutEntry V) → ℤ → List (CallOutEntry V) → Type 0 where
    absent : {es : List (CallOutEntry V)} → All (λ e. P e → ⊥) es → Removes P now es (negsuc 0) es
    present :
        (before after : List (CallOutEntry V)) {e : CallOutEntry V}
        → All (λ e. P e → ⊥) before
        → P e
        → Removes P now
            (before ++ e ∷ after)
            (pos (remaining_seconds now e.due_at))
            (before ++ after)

  Removes-later :
      (P : CallOutEntry V → Type 0) (now : ℕ) (e : CallOutEntry V) {es left : List (CallOutEntry V)}
      {remaining : ℤ}
      → (P e → ⊥)
      → Removes P now es remaining left
      → Removes P now (e ∷ es) remaining (e ∷ left)
  Removes-later P now e n (absent h) = absent (n, h)
  Removes-later P now e n (present before after h k) = present (e ∷ before) after (n, h) k

  remove_first-Removes :
      (P : CallOutEntry V → Type 0) (matches : CallOutEntry V → Bool) (now : ℕ)
      (es : List (CallOutEntry V))
      → ((e : CallOutEntry V) → (matches e ≡ true) ↔ P e)
      → let (remaining, left) = remove_first matches now es in
        Removes P now es remaining left × (remaining ≡ find_first matches now es)
  unfolding remove_first find_first
  remove_first-Removes P matches now [] k = (absent tt, refl)
  remove_first-Removes P matches now (e ∷ es) k = elim (Bool-cases (matches e)) [
    | inl h ↦ rw h (present [] es tt ((k e).0 h), refl)
    | inr h ↦
        let rest = remove_first-Removes P matches now es k in
        rw h (Removes-later P now e (λ p. cc (h, (k e).1 p)) rest.0, rest.1)
  ]

  -- A removal by name for an object takes the first pending string call_out of that object and
  -- function and returns the whole seconds that were left, or it takes nothing and returns -1 where
  -- there is none; a search before it returns the same number.
  pub remove_call_out_by_name-first :
      (heap : Heap) (now owner : ℕ) (function : Bytes) (s : Scheduler V)
      → let (remaining, t) = remove_call_out_by_name heap now (some owner) function s in
        Removes (IsNamed heap owner function) now s.call_outs remaining t.call_outs
        × (remaining ≡ find_call_out_by_name heap now (some owner) function s)
        × (t ≡ record s { call_outs = t.call_outs })
  unfolding remove_call_out_by_name find_call_out_by_name
  remove_call_out_by_name-first heap now owner function s =
      let r =
        remove_first-Removes (IsNamed heap owner function) (has_name heap owner function) now
          s.call_outs (has_name_iff heap owner function) in
      (r.0, r.1, refl)

  -- An entry whose object is there, not destructed, and not the one being cleared.
  pub record Survives (heap : Heap) (obj : Option ℕ) (e : CallOutEntry V) : Type 0 where
    pub owner : ℕ
    pub owned : entry_owner heap e ≡ some owner
    pub lives : (heap owner).destructed ≡ false
    pub other : obj ≢ some owner

  Survives-not-drops :
      (heap : Heap) (obj : Option ℕ) (e : CallOutEntry V)
      → Survives heap obj e
      → drops heap obj e ≡ false
  unfolding drops
  Survives-not-drops heap obj e h = ground (arith, same_ref_iff (entry_owner heap e) obj)

  drops-Survives :
      (heap : Heap) (obj : Option ℕ) (e : CallOutEntry V)
      → drops heap obj e ≡ false
      → Survives heap obj e
  unfolding drops
  drops-Survives heap obj e h = ground (arith, same_ref_iff (entry_owner heap e) obj)

  remove_dropped-All :
      (heap : Heap) (obj : Option ℕ) (es : List (CallOutEntry V))
      → All (Survives heap obj) (remove_dropped heap obj es)
  unfolding remove_dropped
  remove_dropped-All heap obj [] = tt
  remove_dropped-All heap obj (e ∷ es) = elim (Bool-cases (drops heap obj e)) [
    | inl h ↦ rw h (remove_dropped-All heap obj es)
    | inr h ↦ rw h (drops-Survives heap obj e h, remove_dropped-All heap obj es)
  ]

  remove_dropped-Memᴰ :
      (heap : Heap) (obj : Option ℕ) (es : List (CallOutEntry V)) (e : CallOutEntry V)
      → Memᴰ e es
      → Survives heap obj e
      → Memᴰ e (remove_dropped heap obj es)
  unfolding remove_dropped
  remove_dropped-Memᴰ heap obj [] e m k = elim m [ ]
  remove_dropped-Memᴰ heap obj (x ∷ es) e (Memᴰ.head p) k =
      rw (ap (drops heap obj) (sym p) ∙ Survives-not-drops heap obj e k) (Memᴰ.head p)
  remove_dropped-Memᴰ heap obj (x ∷ es) e (Memᴰ.tail m) k = elim (Bool-cases (drops heap obj x)) [
    | inl h ↦ rw h (remove_dropped-Memᴰ heap obj es e m k)
    | inr h ↦ rw h (Memᴰ.tail (remove_dropped-Memᴰ heap obj es e m k))
  ]

  All-Memᴰ :
      (P : CallOutEntry V → Type 0) {e : CallOutEntry V} (es : List (CallOutEntry V))
      → All P es
      → Memᴰ e es
      → P e
  All-Memᴰ P [] h m = elim m [ ]
  All-Memᴰ P (x ∷ es) h (Memᴰ.head p) = subst P (sym p) h.0
  All-Memᴰ P (x ∷ es) h (Memᴰ.tail m) = All-Memᴰ P es h.1 m

  -- Clearing an object's call_outs leaves the others in their order, and an entry stays exactly if
  -- it was there and its object or closure owner is still there, is not destructed and is not the
  -- object being cleared.
  pub remove_all_call_outs_for_object-Survives :
      (heap : Heap) (obj : Option ℕ) (s : Scheduler V) (e : CallOutEntry V)
      → let t = remove_all_call_outs_for_object heap obj s in
        Sublist t.call_outs s.call_outs
        × (Memᴰ e t.call_outs ↔ (Memᴰ e s.call_outs × Survives heap obj e))
  unfolding remove_all_call_outs_for_object
  remove_all_call_outs_for_object-Survives heap obj s e = (
    remove_dropped-Sublist heap obj s.call_outs,
    (
      λ m. (
        Sublist-Memᴰ (remove_dropped-Sublist heap obj s.call_outs) m,
        All-Memᴰ (Survives heap obj) _ (remove_dropped-All heap obj s.call_outs) m,
      ),
      λ k. remove_dropped-Memᴰ heap obj s.call_outs e k.0 k.1,
    ),
  )
