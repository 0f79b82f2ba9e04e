-- ===== src/Scheduler/Countdown.antt =====
-- src/scheduler/Scheduler.cpp: the counters of a heart beat cycle, stated entry by entry.
use amlp.Scheduler.{HeartbeatEntry}
use amlp.Scheduler.Heartbeats.{count_down}
use amlp.Base.Int.{is_below_one, negsuc, pos, decrement, ℤ}
use amlp.Object.{Heap}
use amlp.Base.{
  ==_iff, arith, ap, Bool-cases, ◌==◌, if◌then◌else◌, ◌≡◌, List, Option, ℕ, [], false, inl, inr,
  none, refl, some, suc, true, zero, ◌∷◌,
}

-- What a tick leaves of a counter, or none if the heart beat is due: 1, 0 and what is below are, but
-- for the least int.
abbrev pub counted : ℤ → Option ℤ
counted (pos zero) = none
counted (pos (suc zero)) = none
counted (pos (suc (suc n))) = some (pos (suc n))
counted (negsuc n) = if n == 2147483647 then some (pos 2147483647) else none

abbrev pub in_front_if_due : ℕ → Option ℤ → List ℕ → List ℕ
in_front_if_due o none later = o ∷ later
in_front_if_due o (some n) later = later

abbrev pub or_interval : ℤ → Option ℤ → ℤ
or_interval interval none = interval
or_interval interval (some n) = n

-- The objects whose heart beat is due, of those that are alive.
abbrev pub due_objects : Heap → List HeartbeatEntry → List ℕ
due_objects heap [] = []
due_objects heap (e ∷ es) =
    let later = due_objects heap es in
    if (heap e.target).alive
    then in_front_if_due e.target (counted e.ticks_remaining) later
    else later

-- The entries of the objects that are alive, those that were due with the interval of the object.
abbrev pub still_beating : Heap → List HeartbeatEntry → List HeartbeatEntry
still_beating heap [] = []
still_beating heap (e ∷ es) =
    let later = still_beating heap es in
    let ticks = or_interval (heap e.target).heartbeat_interval (counted e.ticks_remaining) in
    if (heap e.target).alive
    then (record { target = e.target; ticks_remaining = ticks }) ∷ later
    else later

-- `counted` against the decrement and its test.
data Counts (z : ℤ) : Option ℤ → Type 0 where
  fires : is_below_one (decrement z) ≡ true → Counts z none
  waits : (n : ℤ) → is_below_one (decrement z) ≡ false → decrement z ≡ n → Counts z (some n)

decrement-Counts : (z : ℤ) → Counts z (counted z)
unfolding decrement
decrement-Counts (pos zero) = fires refl
decrement-Counts (pos (suc zero)) = fires refl
decrement-Counts (pos (suc (suc n))) = waits (pos (suc n)) refl refl
decrement-Counts (negsuc n) = elim (Bool-cases (n == 2147483647)) [
  | inl h ↦ rw h (
      waits (pos 2147483647) (rw h (ground (arith, h))) (rw h (ap pos ((==_iff n 2147483647).0 h))))
  | inr h ↦ rw h (fires (rw h refl))
]

round-counted :
    (heap : Heap) (e : HeartbeatEntry) (es : List HeartbeatEntry) (o : Option ℤ)
    → Counts e.ticks_remaining o
    → counted e.ticks_remaining ≡ o
    → ((count_down heap es).0 ≡ still_beating heap es)
      × ((count_down heap es).1 ≡ due_objects heap es)
    → ((count_down heap (e ∷ es)).0 ≡ still_beating heap (e ∷ es))
      × ((count_down heap (e ∷ es)).1 ≡ due_objects heap (e ∷ es))
unfolding count_down
round-counted heap e es _ (fires h) q r = elim (Bool-cases (heap e.target).alive) [
  | inl a ↦
      rw (a, h, q)
        (
          ap
              (◌∷◌ (record {
                target = e.target;
                ticks_remaining = (heap e.target).heartbeat_interval;
              }))
              r.0,
          ap (◌∷◌ e.target) r.1,
        )
  | inr a ↦ rw a r
]
round-counted heap e es _ (waits n h k) q r = elim (Bool-cases (heap e.target).alive) [
  | inl a ↦ rw (a, h, k, q) (ap (◌∷◌ (record { target = e.target; ticks_remaining = n })) r.0, r.1)
  | inr a ↦ rw a r
]

pub count_down-counted :
    (heap : Heap) (es : List HeartbeatEntry)
    → ((count_down heap es).0 ≡ still_beating heap es)
      × ((count_down heap es).1 ≡ due_objects heap es)
unfolding count_down
count_down-counted heap [] = (refl, refl)
count_down-counted heap (e ∷ es) =
    round-counted heap e es (counted e.ticks_remaining) (decrement-Counts e.ticks_remaining) refl
      (count_down-counted heap es)
