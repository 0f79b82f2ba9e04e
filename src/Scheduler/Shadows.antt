-- ===== src/Scheduler/Shadows.antt =====
-- src/scheduler/Scheduler.cpp: the walk to the object at the end of a chain of shadows.
use amlp.Base.{ℕ, zero, suc, ◌≤◌, none, some, if◌then◌else◌, ◌≡◌, refl, ap, arith}
use amlp.Object.{Heap, lock}
use amlp.Scheduler.Ticks.{bottom, command_giver}

-- A chain of so many links from an object to the one that shadows no other.
pub data Chain (heap : Heap) : ℕ → ℕ → ℕ → Type 0 where
  ends : {o : ℕ} → lock heap (heap o).shadowing ≡ none → Chain heap o 0 o
  link :
      {o p n q : ℕ}
      → lock heap (heap o).shadowing ≡ some p
      → Chain heap p n q
      → Chain heap o (suc n) q

bottom-Chain :
    (heap : Heap) (fuel : ℕ) {o n q : ℕ} → Chain heap o n q → n ≤ fuel → bottom fuel heap o ≡ q
unfolding bottom
bottom-Chain heap zero (ends h) k = refl
bottom-Chain heap (suc fuel) (ends h) k = rw (bottom, h) refl
bottom-Chain heap zero (link h c) k = absurd (omega arith)
bottom-Chain heap (suc fuel) (link h c) k =
    rw (bottom, h) (bottom-Chain heap fuel c (omega (arith, k)))

-- If the chain of shadows from an object ends, and has no more links than there is fuel, the command
-- giver of its heart beat is the object at the end if that one takes commands, and else none.
pub command_giver-Chain :
    (heap : Heap) (fuel o n q : ℕ)
    → Chain heap o n q
    → n ≤ fuel
    → command_giver fuel heap o ≡ (if (heap q).commands_enabled then some q else none)
unfolding command_giver
command_giver-Chain heap fuel o n q c k =
    ap (λ g. if (heap g).commands_enabled then some g else none) (bottom-Chain heap fuel c k)
