-- ===== src/Scheduler/Period.antt =====
-- src/scheduler/Scheduler.cpp: when `heart_beat` of an object is due.
use amlp.Base.{
  ℕ, suc, ◌+◌, ◌≤◌, ◌<◌, true, false, List, [], ◌∷◌, ◌++◌, if◌then◌else◌, ◌≡◌, refl, ◌==◌, ◌∙◌,
  Bool-cases, inl, inr, arith, ==_iff, ap, ◌*◌, ◌-◌, zero, map,
}
use amlp.Base.Int.{ℤ, pos, decrement, is_below_one}
use amlp.Object.{Heap}
use amlp.Scheduler.{HeartbeatEntry}
use amlp.Scheduler.Heartbeats.{is_enabled, disable, rearm, count_down}

-- The entries after cycles in which no LPC code changes anything.
abbrev pub after_cycles : ℕ → Heap → List HeartbeatEntry → List HeartbeatEntry
after_cycles zero heap es = es
after_cycles (suc k) heap es = after_cycles k heap (count_down heap es).0

-- How often an object stands in a list.
abbrev pub times : ℕ → List ℕ → ℕ
times o [] = 0
times o (p ∷ ps) = let more = times o ps in if p == o then suc more else more

-- The counters of an object.
abbrev pub counters : ℕ → List HeartbeatEntry → List ℤ
counters o [] = []
counters o (e ∷ es) =
    let more = counters o es in if e.target == o then e.ticks_remaining ∷ more else more

pub counters-disabled :
    (o : ℕ) (es : List HeartbeatEntry) → is_enabled o es ≡ false → counters o es ≡ []
unfolding is_enabled
counters-disabled o [] h = refl
counters-disabled o (e ∷ es) h = ground (arith, counters-disabled o es)

pub counters-append :
    (o : ℕ) (xs ys : List HeartbeatEntry) → counters o (xs ++ ys) ≡ counters o xs ++ counters o ys
counters-append o [] ys = refl
counters-append o (x ∷ xs) ys = ground (arith, counters-append o xs ys)

-- One cycle of one counter.
abbrev beat : ℤ → ℤ → ℤ
beat interval t = if is_below_one (decrement t) then interval else decrement t

abbrev fires : List ℤ → ℕ
fires [] = 0
fires (t ∷ ts) = let more = fires ts in if is_below_one (decrement t) then suc more else more

count_down-counters :
    (o : ℕ) (interval : ℤ) (heap : Heap) (es : List HeartbeatEntry)
    → (heap o).alive ≡ true
    → (heap o).heartbeat_interval ≡ interval
    → (counters o (count_down heap es).0 ≡ map (beat interval) (counters o es))
      × (times o (count_down heap es).1 ≡ fires (counters o es))
unfolding count_down
count_down-counters o interval heap [] a i = (refl, refl)
count_down-counters o interval heap (e ∷ es) a i =
    let rest = count_down-counters o interval heap es a i in
    elim (Bool-cases (e.target == o)) [
      | inl h ↦
          let p = (==_iff e.target o).0 h in
          ground (arith, rest, ap (λ x. (heap x).alive) p, ap (λ x. (heap x).heartbeat_interval) p)
      | inr h ↦ ground (arith, rest)
    ]

beat-pos : (interval : ℤ) (t : ℕ) → 0 < t → beat interval (pos (suc t)) ≡ pos t
unfolding decrement
beat-pos interval zero h = absurd (omega arith)
beat-pos interval (suc t) h = refl

after_cycles-counters :
    (r : ℕ) (o t n : ℕ) (heap : Heap) (es : List HeartbeatEntry)
    → (heap o).alive ≡ true
    → (heap o).heartbeat_interval ≡ pos n
    → counters o es ≡ pos (r + t) ∷ []
    → 0 < t
    → counters o (after_cycles r heap es) ≡ pos t ∷ []
after_cycles-counters zero o t n heap es a i h p = h ∙ ap (λ u. pos u ∷ []) (omega arith)
after_cycles-counters (suc r) o t n heap es a i h p =
    let one = count_down-counters o (pos n) heap es a i in
    after_cycles-counters r o t n heap _ a i
      (one.0
        ∙ ap (map (beat (pos n))) (h ∙ ap (λ u. pos u ∷ []) (omega arith))
        ∙ ap (λ u. u ∷ []) (beat-pos (pos n) (r + t) (omega arith)))
      p

after_cycles-last :
    (k : ℕ) (heap : Heap) (es : List HeartbeatEntry)
    → after_cycles (suc k) heap es ≡ (count_down heap (after_cycles k heap es)).0
after_cycles-last zero heap es = refl
after_cycles-last (suc k) heap es = after_cycles-last k heap (count_down heap es).0

after_cycles-add :
    (a b : ℕ) (heap : Heap) (es : List HeartbeatEntry)
    → after_cycles (a + b) heap es ≡ after_cycles b heap (after_cycles a heap es)
after_cycles-add zero b heap es =
    let none_left : 0 + b ≡ b = omega arith in ap (λ k. after_cycles k heap es) none_left
after_cycles-add (suc a) b heap es =
    let moved : suc a + b ≡ suc (a + b) = omega arith in
    ap (λ k. after_cycles k heap es) moved ∙ after_cycles-add a b heap (count_down heap es).0

fires_one : (t : ℕ) → 0 < t → fires (pos t ∷ []) ≡ (if t == 1 then 1 else 0)
unfolding decrement
fires_one zero h = absurd (omega arith)
fires_one (suc t) h = ground arith

module _ (o m : ℕ) (heap : Heap) (a : (heap o).alive ≡ true)
    (i : (heap o).heartbeat_interval ≡ pos (suc m)) where
  after_cycles-phase :
      (r : ℕ) (es : List HeartbeatEntry)
      → counters o es ≡ pos (suc m) ∷ []
      → r ≤ m
      → counters o (after_cycles r heap es) ≡ pos (suc m - r) ∷ []
  after_cycles-phase r es h p =
      after_cycles-counters r o (suc m - r) (suc m) heap es a i
        (h ∙ ap (λ u. pos u ∷ []) (omega arith)) (omega arith)

  after_cycles-round :
      (es : List HeartbeatEntry)
      → counters o es ≡ pos (suc m) ∷ []
      → counters o (after_cycles (suc m) heap es) ≡ pos (suc m) ∷ []
  unfolding decrement
  after_cycles-round es h =
      let one : suc m - m ≡ 1 = omega arith in
      let last = after_cycles-phase m es h (omega arith) ∙ ap (λ u. pos u ∷ []) one in
      ap (counters o) (after_cycles-last m heap es)
      ∙ (count_down-counters o (pos (suc m)) heap _ a i).0
      ∙ ap (map (beat (pos (suc m)))) last

  after_cycles-rounds :
      (q : ℕ) (es : List HeartbeatEntry)
      → counters o es ≡ pos (suc m) ∷ []
      → counters o (after_cycles (q * suc m) heap es) ≡ pos (suc m) ∷ []
  after_cycles-rounds zero es h =
      let no_round : 0 * suc m ≡ 0 = omega arith in
      ap (λ k. counters o (after_cycles k heap es)) no_round ∙ h
  after_cycles-rounds (suc q) es h =
      let a_round : suc q * suc m ≡ suc m + q * suc m = ground arith in
      ap (λ k. counters o (after_cycles k heap es)) a_round
      ∙ ap (counters o) (after_cycles-add (suc m) (q * suc m) heap es)
      ∙ after_cycles-rounds q _ (after_cycles-round es h)

  pub after_cycles-due :
      (q r : ℕ) (es : List HeartbeatEntry)
      → counters o es ≡ pos (suc m) ∷ []
      → r ≤ m
      → times o (count_down heap (after_cycles (q * suc m + r) heap es)).1
        ≡ (if r == m then 1 else 0)
  after_cycles-due q r es h p =
      (count_down-counters o (pos (suc m)) heap _ a i).1
      ∙ ap (λ x. fires (counters o x)) (after_cycles-add (q * suc m) r heap es)
      ∙ ap fires (after_cycles-phase r _ (after_cycles-rounds q es h) p)
      ∙ fires_one (suc m - r) (omega arith)
      ∙ ground arith

pub rearm-counters :
    (o : ℕ) (ticks : ℤ) (es : List HeartbeatEntry)
    → is_enabled o es ≡ true
    → counters o (rearm o ticks es) ≡ ticks ∷ counters o (disable o es)
unfolding is_enabled rearm disable
rearm-counters o ticks [] h = absurd (ground arith)
rearm-counters o ticks (e ∷ es) h = ground (arith, rearm-counters o ticks es)
