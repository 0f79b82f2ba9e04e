-- ===== src/Net/Interactive/Users.antt =====
-- src/net/InteractiveRegistry.cpp: what `all` lists.
use amlp.Net.Interactive.Reaches.{Reaches-Sync, Reaches, InSync}
use amlp.Net.Interactive.{World, Entry, Bodies, find_first, all}
use amlp.Base.{has, ◌↔◌, ◌&&◌, Bool-cases, ◌≡◌, ◌==◌, List, ℕ, [], arith, inl, inr, some, true, ◌∷◌}

has-all :
    (bodies : Bodies) (o : ℕ) (registry : List Entry)
    → (has o (all bodies registry) ≡ true)
    → (c : ℕ) × (find_first bodies o registry ≡ some c)
unfolding all find_first
has-all bodies o [] h = absurd (ground (arith, h))
has-all bodies o (e ∷ registry) h = elim (Bool-cases ((bodies e.obj).alive && e.obj == o)) [
  | inl k ↦ (e.conn, ground (arith, k))
  | inr k ↦
      let r = has-all bodies o registry (ground (arith, h, k)) in (r.0, ground (arith, k, r.1))
]

found-has :
    (bodies : Bodies) (o c : ℕ) (registry : List Entry)
    → find_first bodies o registry ≡ some c
    → has o (all bodies registry) ≡ true
unfolding all find_first
found-has bodies o c [] h = absurd (ground (arith, h))
found-has bodies o c (e ∷ registry) h = elim (Bool-cases ((bodies e.obj).alive && e.obj == o)) [
  | inl k ↦ ground (arith, k)
  | inr k ↦ let r = found-has bodies o c registry (ground (arith, h, k)) in ground (arith, k, r)
]

-- Of the states that are reached, `all` lists an object exactly if some connection is bound to it.
pub all-Reaches :
    (bodies : Bodies) (w : World)
    → Reaches bodies w
    → (o : ℕ) → (has o (all w.bodies w.registry) ≡ true) ↔ ((c : ℕ) × (w.bound c ≡ some o))
all-Reaches bodies w r o =
    let s : InSync w = Reaches-Sync bodies w r in
    (
      (λ h. let k = has-all w.bodies o w.registry h in (k.0, s.found o k.0 k.1)),
      (λ k. found-has w.bodies o k.0 w.registry (s.listed o k.0 k.1)),
    )
