-- ===== src/Scheduler/Intervals.antt =====
-- src/scheduler/Scheduler.cpp: what `setHeartbeatInterval` changes.
use amlp.Base.{
  ℕ, suc, ◌+◌, ◌≤◌, ◌<◌, Bool, true, false, List, [], ◌∷◌, ◌++◌, if◌then◌else◌, ◌≡◌, ◌≢◌, refl,
  ◌==◌, ◌∙◌, Bool-cases, inl, inr, arith, ap, ◌^◌, ◌*◌, ◌||◌, not, zero, append-nil, ==_iff, length,
  ◌-◌,
}
use amlp.Base.Int.{ℤ, pos, negsuc, cast_int}
use amlp.Object.{Heap, update, set_heartbeat_interval}
use amlp.Scheduler.{HeartbeatEntry}
use amlp.Scheduler.Heartbeats.{
  is_enabled, disable, rearm, set_interval, count_down, is_zero, fresh_interval,
}
use amlp.Scheduler.Period.{
  after_cycles, times, counters, counters-append, counters-disabled, rearm-counters,
  after_cycles-due,
}

is_enabled-append :
    (p : ℕ) (xs ys : List HeartbeatEntry)
    → is_enabled p (xs ++ ys) ≡ (is_enabled p xs || is_enabled p ys)
unfolding is_enabled
is_enabled-append p [] ys = refl
is_enabled-append p (x ∷ xs) ys = ground (arith, is_enabled-append p xs ys)

abbrev entry : ℕ → ℤ → List HeartbeatEntry
entry o ticks = (record { target = o; ticks_remaining = ticks }) ∷ []

is_enabled-rearm :
    (p o : ℕ) (ticks : ℤ) (es : List HeartbeatEntry)
    → is_enabled p (rearm o ticks es) ≡ is_enabled p es
unfolding is_enabled rearm
is_enabled-rearm p o ticks [] = refl
is_enabled-rearm p o ticks (e ∷ es) = ground (arith, is_enabled-rearm p o ticks es)

counters-rearm :
    (p o : ℕ) (ticks : ℤ) (es : List HeartbeatEntry)
    → p ≢ o
    → counters p (rearm o ticks es) ≡ counters p es
unfolding rearm
counters-rearm p o ticks [] n = refl
counters-rearm p o ticks (e ∷ es) n = ground (arith, counters-rearm p o ticks es n)

counters-disable :
    (p o : ℕ) (es : List HeartbeatEntry) → p ≢ o → counters p (disable o es) ≡ counters p es
unfolding disable
counters-disable p o [] n = refl
counters-disable p o (e ∷ es) n = ground (arith, counters-disable p o es n)

-- The object has one entry at most.
abbrev pub IsSingle : ℕ → List HeartbeatEntry → Type 0
IsSingle o es = length (counters o es) ≤ 1

length-counters-disable :
    (o : ℕ) (es : List HeartbeatEntry)
    → length (counters o (disable o es)) ≡ length (counters o es) - 1
unfolding disable
length-counters-disable o [] = omega arith
length-counters-disable o (e ∷ es) = ground (arith, length-counters-disable o es)

enabled-counters :
    (o : ℕ) (es : List HeartbeatEntry) → length (counters o es) ≡ 0 → is_enabled o es ≡ false
unfolding is_enabled
enabled-counters o [] h = refl
enabled-counters o (e ∷ es) h = ground (arith, enabled-counters o es)

disable-IsSingle :
    (o : ℕ) (es : List HeartbeatEntry) → IsSingle o es → is_enabled o (disable o es) ≡ false
disable-IsSingle o es h =
    enabled-counters o (disable o es) (omega (arith, length-counters-disable o es))

-- The counters and the interval that are meant.
abbrev pub new_counters : ℤ → List ℤ → List ℤ
new_counters (pos zero) old = []
new_counters (pos (suc n)) old = cast_int (pos (suc n)) ∷ []
new_counters (negsuc n) [] = pos 1 ∷ []
new_counters (negsuc n) (t ∷ ts) = t ∷ ts

abbrev pub new_interval : ℤ → Bool → ℤ → ℤ
new_interval (pos zero) enabled old = pos 0
new_interval (pos (suc n)) enabled old = cast_int (pos (suc n))
new_interval (negsuc n) enabled old = if enabled then old else pos 1

counters-enabled : (o : ℕ) (es : List HeartbeatEntry) → is_enabled o es ≡ true → counters o es ≢ []
unfolding is_enabled
counters-enabled o [] h = absurd (ground arith)
counters-enabled o (e ∷ es) h = ground (arith, counters-enabled o es)

disable-disabled : (o : ℕ) (es : List HeartbeatEntry) → is_enabled o es ≡ false → disable o es ≡ es
unfolding is_enabled disable
disable-disabled o [] h = refl
disable-disabled o (e ∷ es) h = ground (arith, disable-disabled o es)

set_interval-is_enabled :
    (o : ℕ) (to : ℤ) (heap : Heap) (es : List HeartbeatEntry)
    → IsSingle o es
    → is_enabled o (set_interval o to heap es).1 ≡ not (is_zero to)
unfolding set_interval is_enabled
set_interval-is_enabled o to heap es h = ground (
  arith,
  disable-IsSingle o es h,
  is_enabled-append o es (entry o (fresh_interval to)),
  is_enabled-rearm o o (cast_int to) es,
)

set_interval-other :
    (o p : ℕ) (to : ℤ) (heap : Heap) (es : List HeartbeatEntry)
    → p ≢ o
    → let (heap', es') = set_interval o to heap es in
      (counters p es' ≡ counters p es) × (heap' p ≡ heap p)
unfolding set_interval update
set_interval-other o p to heap es n = ground (
  arith,
  counters-append p es (entry o (fresh_interval to)),
  counters-rearm p o (cast_int to) es n,
  counters-disable p o es n,
  append-nil (counters p es),
)

set_interval-counters :
    (o : ℕ) (to : ℤ) (heap : Heap) (es : List HeartbeatEntry)
    → IsSingle o es
    → counters o (set_interval o to heap es).1 ≡ new_counters to (counters o es)
unfolding set_interval
set_interval-counters o to heap es h = elim (Bool-cases (is_enabled o es)) [
  | inl e ↦ ground (
    arith,
    e,
    counters-enabled o es e,
    rearm-counters o (cast_int to) es e,
    counters-disabled o (disable o es) (disable-IsSingle o es h),
  )
  | inr e ↦ ground (
    arith,
    e,
    counters-append o es (entry o (fresh_interval to)),
    counters-disabled o es e,
    disable-disabled o es e,
  )
]

set_interval-interval :
    (o : ℕ) (to : ℤ) (heap : Heap) (es : List HeartbeatEntry)
    → ((set_interval o to heap es).0 o).heartbeat_interval
      ≡ new_interval to (is_enabled o es) (heap o).heartbeat_interval
unfolding set_interval update set_heartbeat_interval
set_interval-interval o to heap es = ground arith

set_interval-positive :
    (o n : ℕ) (heap : Heap) (es : List HeartbeatEntry)
    → IsSingle o es
    → 0 < n
    → n < 2 ^ 31
    → let (heap', es') = set_interval o (pos n) heap es in
      (counters o es' ≡ pos n ∷ [])
      × ((heap' o).heartbeat_interval ≡ pos n)
      × ((heap' o).alive ≡ (heap o).alive)
unfolding set_interval update set_heartbeat_interval cast_int
set_interval-positive o n heap es h p b = elim (Bool-cases (is_enabled o es)) [
  | inl e ↦ ground (
    arith,
    e,
    rearm-counters o (pos n) es e,
    counters-disabled o (disable o es) (disable-IsSingle o es h),
  )
  | inr e ↦ ground (arith, e, counters-append o es (entry o (pos n)), counters-disabled o es e)
]

-- For an object with one entry at most, set_heart_beat(to) leaves it enabled exactly if `to` is not
-- zero. Zero takes its counter away and sets its interval to zero; a negative `to` gives an object
-- that was not enabled the interval and counter 1 and changes nothing for one that was; a positive
-- `to` sets both to its low 32 bits. Counter and state of every other object `p` are as before.
pub set_interval-branches :
    (o p : ℕ) (to : ℤ) (heap : Heap) (es : List HeartbeatEntry)
    → IsSingle o es
    → p ≢ o
    → let (heap', es') = set_interval o to heap es in
      (is_enabled o es' ≡ not (is_zero to))
      × (counters o es' ≡ new_counters to (counters o es))
      × ((heap' o).heartbeat_interval
          ≡ new_interval to (is_enabled o es) (heap o).heartbeat_interval)
      × (counters p es' ≡ counters p es)
      × (heap' p ≡ heap p)
set_interval-branches o p to heap es h n =
    let other = set_interval-other o p to heap es n in
    (
      set_interval-is_enabled o to heap es h,
      set_interval-counters o to heap es h,
      set_interval-interval o to heap es,
      other.0,
      other.1,
    )

-- An object that is alive and has one entry at most, and whose interval is set to a positive `n`
-- that fits an `int`, is due once in every n-th of the cycles that follow and in no other, as long
-- as no LPC code changes a heart beat: in cycle number q * n + r, counted from 0 and with r below
-- n, it is due exactly if r is n - 1.
pub set_interval-period :
    (o n q r : ℕ) (heap : Heap) (es : List HeartbeatEntry)
    → (heap o).alive ≡ true
    → IsSingle o es
    → n < 2 ^ 31
    → r < n
    → let (heap', es') = set_interval o (pos n) heap es in
      times o (count_down heap' (after_cycles (q * n + r) heap' es')).1
      ≡ (if suc r == n then 1 else 0)
set_interval-period o zero q r heap es a h b p = absurd (omega arith)
set_interval-period o (suc m) q r heap es a h b p =
    let set = set_interval-positive o (suc m) heap es h (omega arith) b in
    after_cycles-due o m _ (set.2 ∙ a) set.1 q r _ set.0 (omega arith) ∙ ground arith

-- No object has two entries.
abbrev pub AreSingle : List HeartbeatEntry → Type 0
AreSingle es = (o : ℕ) → IsSingle o es

length-counters-rearm :
    (p o : ℕ) (ticks : ℤ) (es : List HeartbeatEntry)
    → length (counters p (rearm o ticks es)) ≡ length (counters p es)
unfolding rearm
length-counters-rearm p o ticks [] = refl
length-counters-rearm p o ticks (e ∷ es) = ground (arith, length-counters-rearm p o ticks es)

disable-fewer :
    (p o : ℕ) (es : List HeartbeatEntry)
    → length (counters p (disable o es)) ≤ length (counters p es)
unfolding disable
disable-fewer p o [] = omega arith
disable-fewer p o (e ∷ es) = ground (arith, disable-fewer p o es)

append-IsSingle :
    (p o : ℕ) (ticks : ℤ) (es : List HeartbeatEntry)
    → IsSingle p es
    → is_enabled o es ≡ false
    → IsSingle p (es ++ entry o ticks)
append-IsSingle p o ticks es h d = elim (Bool-cases (p == o)) [
  | inl e ↦ ground (
    arith,
    counters-append p es (entry o ticks),
    counters-disabled o es d,
    ap (λ x. counters x es) ((==_iff p o).0 e),
  )
  | inr e ↦ ground (arith, e, counters-append p es (entry o ticks), append-nil (counters p es), h)
]

pub set_interval-AreSingle :
    (o : ℕ) (to : ℤ) (heap : Heap) (es : List HeartbeatEntry)
    → AreSingle es
    → AreSingle (set_interval o to heap es).1
unfolding set_interval
set_interval-AreSingle o to heap es h p = elim (Bool-cases (is_enabled o es)) [
  | inl e ↦ ground (arith, e, h p, disable-fewer p o es, length-counters-rearm p o (cast_int to) es)
  | inr e ↦
      ground
        (arith, e, h p, disable-fewer p o es, append-IsSingle p o (fresh_interval to) es (h p) e)
]

count_down-fewer :
    (p : ℕ) (heap : Heap) (es : List HeartbeatEntry)
    → length (counters p (count_down heap es).0) ≤ length (counters p es)
unfolding count_down
count_down-fewer p heap [] = omega arith
count_down-fewer p heap (e ∷ es) = ground (arith, count_down-fewer p heap es)

pub count_down-AreSingle :
    (heap : Heap) (es : List HeartbeatEntry) → AreSingle es → AreSingle (count_down heap es).0
count_down-AreSingle heap es h p = omega (arith, count_down-fewer p heap es, h p)
