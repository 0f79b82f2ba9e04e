-- ===== src/Scheduler/Sublists.antt =====
-- src/scheduler/Scheduler.cpp: each loop that erases entries leaves the others in their order.
use mathlib.Core.List.{Memᴰ}
use amlp.Base.{ℕ, Bool, List, [], ◌∷◌, All, Bool-cases, inl, inr}
use amlp.Object.{Heap}
use amlp.Scheduler.{CallOutEntry, remove_first, remove_dropped, drops}
use amlp.Base.{Option}

pub data Sublist {ℓ} {A : Type ℓ} : List A → List A → Type ℓ where
  empty : Sublist [] []
  keep : (x : A) {xs ys : List A} → Sublist xs ys → Sublist (x ∷ xs) (x ∷ ys)
  skip : (x : A) {xs ys : List A} → Sublist xs ys → Sublist xs (x ∷ ys)

pub Sublist-refl {ℓ} : {A : Type ℓ} (xs : List A) → Sublist xs xs
Sublist-refl [] = empty
Sublist-refl (x ∷ xs) = keep x (Sublist-refl xs)

pub Sublist-All {ℓ κ} :
    {A : Type ℓ} (P : A → Type κ) {xs ys : List A} → Sublist xs ys → All P ys → All P xs
Sublist-All P empty h = h
Sublist-All P (keep x s) h = (h.0, Sublist-All P s h.1)
Sublist-All P (skip x s) h = Sublist-All P s h.1

pub Sublist-Memᴰ {ℓ} : {A : Type ℓ} {x : A} {xs ys : List A} → Sublist xs ys → Memᴰ x xs → Memᴰ x ys
Sublist-Memᴰ empty m = elim m [ ]
Sublist-Memᴰ (keep y s) (Memᴰ.head p) = Memᴰ.head p
Sublist-Memᴰ (keep y s) (Memᴰ.tail m) = Memᴰ.tail (Sublist-Memᴰ s m)
Sublist-Memᴰ (skip y s) m = Memᴰ.tail (Sublist-Memᴰ s m)

module _ {V : Type 0} where
  pub remove_first-Sublist :
      (matches : CallOutEntry V → Bool) (now : ℕ) (es : List (CallOutEntry V))
      → Sublist (remove_first matches now es).1 es
  unfolding remove_first
  remove_first-Sublist matches now [] = empty
  remove_first-Sublist matches now (e ∷ es) = elim (Bool-cases (matches e)) [
    | inl h ↦ rw h (skip e (Sublist-refl es))
    | inr h ↦ rw h (keep e (remove_first-Sublist matches now es))
  ]

  pub remove_dropped-Sublist :
      (heap : Heap) (obj : Option ℕ) (es : List (CallOutEntry V))
      → Sublist (remove_dropped heap obj es) es
  unfolding remove_dropped
  remove_dropped-Sublist heap obj [] = empty
  remove_dropped-Sublist heap obj (e ∷ es) = elim (Bool-cases (drops heap obj e)) [
    | inl h ↦ rw h (skip e (remove_dropped-Sublist heap obj es))
    | inr h ↦ rw h (keep e (remove_dropped-Sublist heap obj es))
  ]
