-- ===== src/Net/Interactive/Reaches.antt =====
-- src/net/Connection.cpp and src/net/InteractiveRegistry.cpp: the states that attach(), close() and
-- the end of an object lead to.
use amlp.Net.Interactive.Sync.{
  find-alive, find-remove_other, find-remove_same, change-alive, Sync-bound, unsnoop-alive,
  Sync-added, Sync-bodies, Sync-dropped, Sync-dead, Sync-forgot, Sync,
}
use amlp.Net.Interactive.{
  to_victim, deliver_to_connection, locked, find, find_first, stop_snooper, unsnoop, add, bind,
  release, close, attach, put, change, remove, Bodies, World, unbind,
}
use amlp.Base.{
  ◌∙◌, Bytes, Option, arith, refl, ◌≢◌, Option-cases, ◌≡◌, ℕ, [], false, inl, inr, none, some, true,
}

abbrev pub InSync : World → Type 0
InSync w = Sync w.bodies w.bound w.registry

-- Nothing bound yet.
abbrev pub begin : Bodies → World
begin bodies = record {
  bodies = bodies;
  bound = λ c. none;
  closed = λ c. false;
  has_fd = λ c. true;
  registry = [];
}

-- The last `shared_ptr` to an object is gone.
abbrev pub expire : ℕ → World → World
expire o w = record w { bodies = change o (λ b. record b { alive = false }) w.bodies }

-- The steps. An object is attached while it is bound to no other connection, and one that is bound
-- does not expire.
pub data Reaches (bodies : Bodies) : World → Type 0 where
  started : Reaches bodies (begin bodies)
  attached :
      {w : World} (c o : ℕ)
      → ((d : ℕ) → w.bound d ≡ some o → d ≡ c)
      → (w.bodies o).alive ≡ true
      → Reaches bodies w
      → Reaches bodies (attach c (some o) w)
  detached : {w : World} (c : ℕ) → Reaches bodies w → Reaches bodies (attach c none w)
  shut : {w : World} (c : ℕ) → Reaches bodies w → Reaches bodies (close c w)
  expired :
      {w : World} (o : ℕ)
      → ((d : ℕ) → w.bound d ≢ some o)
      → Reaches bodies w
      → Reaches bodies (expire o w)

unbind-Sync :
    (c : ℕ) (w : World) → InSync w → Sync w.bodies (put c none w.bound) (unbind c w).registry
unfolding unbind remove
unbind-Sync c w s = elim (Option-cases (w.bound c)) [
  | inl h ↦ rw h (Sync-forgot w.bodies w.bound w.registry s c h)
  | inr h ↦ rw h.1 (Sync-dropped w.bodies w.bound w.registry s c h.0 h.1)
]

bind-Sync :
    (c o : ℕ) (w : World)
    → Sync w.bodies (put c none w.bound) w.registry
    → ((d : ℕ) → w.bound d ≡ some o → d ≡ c)
    → (w.bodies o).alive ≡ true
    → InSync (bind c (some o) w)
unfolding bind add
bind-Sync c o w s h a =
    let forgot : ℕ → Option ℕ = put c none w.bound in
    let n : (d : ℕ) → forgot d ≢ some o = λ d e. ground (arith, h d, e) in
    let k = Sync-added w.bodies forgot w.registry s c o (ground arith) n a in
    let l =
      Sync-bound w.bodies (put c (some o) forgot) (put c (some o) w.bound) _ (λ d. ground arith)
        k in
    Sync-bodies w.bodies _ (put c (some o) w.bound) _
      (change-alive o (λ b. record b { ever_interactive = true }) w.bodies (λ b. refl)) l

attach-Sync :
    (c o : ℕ) (w : World)
    → ((d : ℕ) → w.bound d ≡ some o → d ≡ c)
    → (w.bodies o).alive ≡ true
    → InSync w
    → InSync (attach c (some o) w)
unfolding attach unbind
attach-Sync c o w h a s = bind-Sync c o (unbind c w) (unbind-Sync c w s) h a

detach-Sync : (c : ℕ) (w : World) → InSync w → InSync (attach c none w)
unfolding attach unbind bind
detach-Sync c w s = unbind-Sync c w s

close-Sync : (c : ℕ) (w : World) → InSync w → InSync (close c w)
unfolding close release remove
close-Sync c w s = elim (Option-cases (w.bound c)) [
  | inl h ↦ rw h s
  | inr h ↦ rw h.1 (
      Sync-dropped (unsnoop h.0 w.bodies) w.bound w.registry
        (Sync-bodies w.bodies (unsnoop h.0 w.bodies) w.bound w.registry (unsnoop-alive h.0 w.bodies)
          s)
        c h.0 h.1)
]

-- However connections and objects come and go, the registry finds a connection for an object exactly
-- if the object is bound to it, and every bound object lives. An object is attached only while it is
-- bound to no other connection, and expires only when it is bound to none.
pub Reaches-Sync : (bodies : Bodies) (w : World) → Reaches bodies w → InSync w
unfolding find_first
Reaches-Sync bodies _ started = record {
  found = λ o c e. ground arith;
  listed = λ o c e. ground arith;
  alive = λ o c e. ground arith;
}
Reaches-Sync bodies _ (attached {w} c o h a r) = attach-Sync c o w h a (Reaches-Sync bodies w r)
Reaches-Sync bodies _ (detached {w} c r) = detach-Sync c w (Reaches-Sync bodies w r)
Reaches-Sync bodies _ (shut {w} c r) = close-Sync c w (Reaches-Sync bodies w r)
Reaches-Sync bodies _ (expired {w} o n r) =
    Sync-dead w.bodies w.bound w.registry o n (Reaches-Sync bodies w r)

unsnoop-unwatched : (o : ℕ) (bodies : Bodies) → (unsnoop o bodies o).snooped_by ≡ none
unfolding unsnoop
unsnoop-unwatched o bodies = ground arith

unsnoop-let_go :
    (o p : ℕ) (bodies : Bodies)
    → (bodies o).snooped_by ≡ some p
    → (bodies p).alive ≡ true
    → (unsnoop o bodies p).snooping ≡ none
unfolding unsnoop stop_snooper locked
unsnoop-let_go o p bodies h a = rw (h, a) (ground arith)

-- What is left of the connection `c`, which `o` was bound to.
pub record Released (w : World) (c o : ℕ) (v : World) : Type 0 where
  pub gone : find v.bodies (some o) v.registry ≡ none
  pub others :
      (p : ℕ) → p ≢ o → find v.bodies (some p) v.registry ≡ find w.bodies (some p) w.registry
  pub silent : (text : Bytes) → deliver_to_connection v (some c) text ≡ []
  pub unwatched : (v.bodies o).snooped_by ≡ none
  pub let_go :
      (p : ℕ)
      → (w.bodies o).snooped_by ≡ some p
      → (w.bodies p).alive ≡ true
      → (v.bodies p).snooping ≡ none

-- Closing a connection takes the object that it is bound to out of the registry and leaves every
-- other object the connection that it had; the object is snooped by nobody, the one that snooped on it
-- snoops on nobody, and text for the connection goes nowhere.
pub close-Released : (c o : ℕ) (w : World) → w.bound c ≡ some o → Released w c o (close c w)
unfolding close release find remove deliver_to_connection to_victim
close-Released c o w b = rw b (record {
  gone = find-remove_same (unsnoop o w.bodies) o w.registry;
  others = λ p n.
      find-remove_other (unsnoop o w.bodies) o p w.registry n
      ∙ find-alive w.bodies (unsnoop o w.bodies) (unsnoop-alive o w.bodies) p w.registry;
  silent = λ text. ground arith;
  unwatched = unsnoop-unwatched o w.bodies;
  let_go = λ p h a. unsnoop-let_go o p w.bodies h a;
})
