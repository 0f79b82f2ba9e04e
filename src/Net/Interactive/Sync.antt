-- ===== src/Net/Interactive/Sync.antt =====
-- src/net/InteractiveRegistry.cpp and src/net/Connection.cpp: the registry and the connections agree.
use amlp.Base.{
  Option-cases, ==_iff, ap, false, ◌∙◌, sym, ◌==◌, ◌&&◌, Bool-cases, ◌++◌, ◌≢◌, List, Option, ◌≡◌,
  ℕ, [], arith, inl, inr, none, refl, some, true, ◌∷◌,
}
use amlp.Net.Interactive.{
  Body, Entry, Bodies, locked, remove_all, find_first, put, change, stop_snooper, unsnoop,
}

-- The registry finds a connection of an object exactly if it is bound to it, and who is bound lives.
pub record Sync (bodies : Bodies) (bound : ℕ → Option ℕ) (registry : List Entry) : Type 0 where
  pub found : (o c : ℕ) → find_first bodies o registry ≡ some c → bound c ≡ some o
  pub listed : (o c : ℕ) → bound c ≡ some o → find_first bodies o registry ≡ some c
  pub alive : (o c : ℕ) → bound c ≡ some o → (bodies o).alive ≡ true

pub find-remove_same :
    (bodies : Bodies) (o : ℕ) (registry : List Entry)
    → find_first bodies o (remove_all bodies o registry) ≡ none
unfolding find_first remove_all
find-remove_same bodies o [] = refl
find-remove_same bodies o (e ∷ registry) = ground (arith, find-remove_same bodies o registry)

pub find-remove_other :
    (bodies : Bodies) (o p : ℕ) (registry : List Entry)
    → p ≢ o
    → find_first bodies p (remove_all bodies o registry) ≡ find_first bodies p registry
unfolding find_first remove_all
find-remove_other bodies o p [] n = refl
find-remove_other bodies o p (e ∷ registry) n =
    ground (arith, find-remove_other bodies o p registry n)

find-append_own :
    (bodies : Bodies) (o c : ℕ) (registry : List Entry)
    → find_first bodies o registry ≡ none
    → (bodies o).alive ≡ true
    → find_first bodies o (registry ++ (record { obj = o; conn = c }) ∷ []) ≡ some c
unfolding find_first
find-append_own bodies o c [] n a = ground (arith, a)
find-append_own bodies o c (e ∷ registry) n a =
    elim (Bool-cases ((bodies e.obj).alive && e.obj == o)) [
      | inl h ↦ ground (arith, h, n)
      | inr h ↦
          let rest : find_first bodies o registry ≡ none = ground (arith, h, n) in
          rw h (find-append_own bodies o c registry rest a)
    ]

find-append_other :
    (bodies : Bodies) (o p c : ℕ) (registry : List Entry)
    → p ≢ o
    → find_first bodies p (registry ++ (record { obj = o; conn = c }) ∷ [])
      ≡ find_first bodies p registry
unfolding find_first
find-append_other bodies o p c [] n = ground arith
find-append_other bodies o p c (e ∷ registry) n =
    ground (arith, find-append_other bodies o p c registry n)

-- The search looks at nothing of an object but whether it lives.
pub find-alive :
    (bodies others : Bodies)
    → ((k : ℕ) → (others k).alive ≡ (bodies k).alive)
    → (o : ℕ) (registry : List Entry) → find_first others o registry ≡ find_first bodies o registry
unfolding find_first
find-alive bodies others h o [] = refl
find-alive bodies others h o (e ∷ registry) =
    ground (arith, h e.obj, find-alive bodies others h o registry)

pub change-alive :
    (k : ℕ) (f : Body → Body) (bodies : Bodies)
    → ((b : Body) → (f b).alive ≡ b.alive)
    → (j : ℕ) → (change k f bodies j).alive ≡ (bodies j).alive
change-alive k f bodies h j = ground (arith, h (bodies j))

pub unsnoop-alive :
    (o : ℕ) (bodies : Bodies) (j : ℕ) → (unsnoop o bodies j).alive ≡ (bodies j).alive
unfolding unsnoop stop_snooper locked
unsnoop-alive o bodies j = ground arith

pub Sync-bodies :
    (bodies others : Bodies) (bound : ℕ → Option ℕ) (registry : List Entry)
    → ((k : ℕ) → (others k).alive ≡ (bodies k).alive)
    → Sync bodies bound registry
    → Sync others bound registry
Sync-bodies bodies others bound registry h s = record {
  found = λ o c e. s.found o c (sym (find-alive bodies others h o registry) ∙ e);
  listed = λ o c e. find-alive bodies others h o registry ∙ s.listed o c e;
  alive = λ o c e. h o ∙ s.alive o c e;
}

pub Sync-bound :
    (bodies : Bodies) (bound others : ℕ → Option ℕ) (registry : List Entry)
    → ((d : ℕ) → others d ≡ bound d)
    → Sync bodies bound registry
    → Sync bodies others registry
Sync-bound bodies bound others registry h s = record {
  found = λ o d e. h d ∙ s.found o d e;
  listed = λ o d e. s.listed o d (sym (h d) ∙ e);
  alive = λ o d e. s.alive o d (sym (h d) ∙ e);
}

abbrev dead : Body → Body
dead b = record b { alive = false }

find-dead_own :
    (bodies : Bodies) (o : ℕ) (registry : List Entry)
    → find_first (change o dead bodies) o registry ≡ none
unfolding find_first
find-dead_own bodies o [] = refl
find-dead_own bodies o (e ∷ registry) = ground (arith, find-dead_own bodies o registry)

find-dead_other :
    (bodies : Bodies) (o p : ℕ) (registry : List Entry)
    → p ≢ o
    → find_first (change o dead bodies) p registry ≡ find_first bodies p registry
unfolding find_first
find-dead_other bodies o p [] n = refl
find-dead_other bodies o p (e ∷ registry) n = ground (arith, find-dead_other bodies o p registry n)

pub Sync-dead :
    (bodies : Bodies) (bound : ℕ → Option ℕ) (registry : List Entry) (o : ℕ)
    → ((d : ℕ) → bound d ≢ some o)
    → Sync bodies bound registry
    → Sync (change o dead bodies) bound registry
Sync-dead bodies bound registry o n s = record {
  found = λ p d e. elim (Bool-cases (p == o)) [
    | inl h ↦
        let q : find_first (change o dead bodies) p registry ≡ none =
          ap (λ x. find_first (change o dead bodies) x registry) ((==_iff p o).0 h)
          ∙ find-dead_own bodies o registry in
        absurd (cc (q, e))
    | inr h ↦
        let m : p ≢ o = λ q. ground (arith, h, q) in
        s.found p d (sym (find-dead_other bodies o p registry m) ∙ e)
  ];
  listed = λ p d e.
      let m : p ≢ o = λ q. n d (e ∙ ap (λ x. some x) q) in
      find-dead_other bodies o p registry m ∙ s.listed p d e;
  alive = λ p d e.
      let m : p ≢ o = λ q. n d (e ∙ ap (λ x. some x) q) in ground (arith, m, s.alive p d e);
}

some_other : (p o : ℕ) → p ≢ o → some p ≢ some o
some_other p o n = λ e. n (ground (arith, e))

module _ (bodies : Bodies) (bound : ℕ → Option ℕ) (registry : List Entry)
    (s : Sync bodies bound registry) (c : ℕ) where
  -- A connection that another object is bound to is another connection.
  other_conn : (o p d : ℕ) → p ≢ o → bound c ≡ some o → bound d ≡ some p → (d == c) ≡ false
  other_conn o p d n b k = elim (Bool-cases (d == c)) [
    | inl h ↦ absurd (
        n (
          let q : bound d ≡ bound c = ap bound ((==_iff d c).0 h) in
          let r : some p ≡ some o = sym k ∙ (q ∙ b) in ground (arith, r)))
    | inr h ↦ h
  ]

  pub Sync-dropped :
      (o : ℕ) → bound c ≡ some o → Sync bodies (put c none bound) (remove_all bodies o registry)
  Sync-dropped o b = record {
    found = λ p d e. elim (Bool-cases (p == o)) [
      | inl h ↦
          let q : find_first bodies p (remove_all bodies o registry) ≡ none =
            ap (λ x. find_first bodies x (remove_all bodies o registry)) ((==_iff p o).0 h)
            ∙ find-remove_same bodies o registry in
          absurd (cc (q, e))
      | inr h ↦
          let n : p ≢ o = λ q. ground (arith, h, q) in
          let k : bound d ≡ some p =
            s.found p d (sym (find-remove_other bodies o p registry n) ∙ e) in
          rw (other_conn o p d n b k) k
    ];
    listed = λ p d e. elim (Bool-cases (p == o)) [
      | inl h ↦ absurd (
          let q : p ≡ o = (==_iff p o).0 h in
          let k : bound d ≡ some p = ground (arith, e) in
          let l : find_first bodies o registry ≡ some d = s.listed o d (k ∙ ap (λ x. some x) q) in
          let t : some c ≡ some d = sym (s.listed o c b) ∙ l in ground (arith, t, e))
      | inr h ↦
          let n : p ≢ o = λ q. ground (arith, h, q) in
          find-remove_other bodies o p registry n ∙ s.listed p d (ground (arith, e))
    ];
    alive = λ p d e. ground (arith, e, s.alive p d);
  }

  unlisted : (o : ℕ) → ((d : ℕ) → bound d ≢ some o) → find_first bodies o registry ≡ none
  unlisted o n = elim (Option-cases (find_first bodies o registry)) [
    | inl h ↦ h
    | inr h ↦ absurd (n h.0 (s.found o h.0 h.1))
  ]

  module _ (o : ℕ) (b : bound c ≡ none) (n : (d : ℕ) → bound d ≢ some o)
      (a : (bodies o).alive ≡ true) where
    abbrev longer : List Entry
    longer = registry ++ (record { obj = o; conn = c }) ∷ []

    found_own : (p : ℕ) → p ≡ o → find_first bodies p longer ≡ some c
    found_own p q =
        ap (λ x. find_first bodies x longer) q
        ∙ find-append_own bodies o c registry (unlisted o n) a

    added_found : (p d : ℕ) → find_first bodies p longer ≡ some d → put c (some o) bound d ≡ some p
    added_found p d e = elim (Bool-cases (p == o)) [
      | inl h ↦
          let q : p ≡ o = (==_iff p o).0 h in
          let k : some c ≡ some d = sym (found_own p q) ∙ e in ground (arith, q, k)
      | inr h ↦
          let m : p ≢ o = λ q. ground (arith, h, q) in
          let k : bound d ≡ some p =
            s.found p d (sym (find-append_other bodies o p c registry m) ∙ e) in
          let r : d ≢ c = λ q. let z : bound d ≡ none = ap bound q ∙ b in ground (arith, z, k) in
          ground (arith, r, k)
    ]

    added_listed : (p d : ℕ) → put c (some o) bound d ≡ some p → find_first bodies p longer ≡ some d
    added_listed p d e = elim (Bool-cases (d == c)) [
      | inl h ↦
          let q : some o ≡ some p = ground (arith, h, e) in
          let r : p ≡ o = ground (arith, q) in
          let t : d ≡ c = (==_iff d c).0 h in found_own p r ∙ sym (ap (λ x. some x) t)
      | inr h ↦
          let k : bound d ≡ some p = ground (arith, h, e) in
          let m : p ≢ o = λ q. n d (k ∙ ap (λ x. some x) q) in
          find-append_other bodies o p c registry m ∙ s.listed p d k
    ]

    pub Sync-added : Sync bodies (put c (some o) bound) longer
    Sync-added = record {
      found = added_found;
      listed = added_listed;
      alive = λ p d e. elim (Bool-cases (d == c)) [
        | inl h ↦
            let q : some o ≡ some p = ground (arith, h, e) in
            let r : p ≡ o = ground (arith, q) in ap (λ x. (bodies x).alive) r ∙ a
        | inr h ↦ s.alive p d (ground (arith, h, e))
      ];
    }

  pub Sync-forgot : bound c ≡ none → Sync bodies (put c none bound) registry
  Sync-forgot b = record {
    found = λ o d e. elim (Bool-cases (d == c)) [
      | inl h ↦ absurd (
          let k : bound d ≡ some o = s.found o d e in
          let z : bound d ≡ none = ap bound ((==_iff d c).0 h) ∙ b in ground (arith, z, k))
      | inr h ↦ rw h (s.found o d e)
    ];
    listed = λ o d e. ground (arith, e, s.listed o d);
    alive = λ o d e. ground (arith, e, s.alive o d);
  }
