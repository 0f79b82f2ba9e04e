-- ===== src/Net/Interactive/Examples.antt =====
-- Connections at concrete input.
use amlp.Net.Interactive.{bind, all, close, unbind, Bodies, World, attach}
use amlp.Net.Interactive.Reaches.{
  attached, started, Reaches, close-Released, Reaches-Sync, begin, InSync, Released,
}
use amlp.Net.Interactive.Users.{all-Reaches}
use amlp.Base.{has, ℕ, ◌↔◌, ◌==◌, ◌≡◌, if◌then◌else◌, arith, false, none, refl, some, true}

abbrev living : Bodies
living o = record {
  alive = true;
  ever_interactive = false;
  snooped_by = if o == 7 then some 8 else none;
  snooping = if o == 8 then some 7 else none;
}

abbrev one_user : World
one_user = attach 3 (some 7) (begin living)

one_user-Reaches : Reaches living one_user
unfolding attach unbind
one_user-Reaches = attached 3 7 (λ d e. absurd (ground (arith, e))) refl started

Reaches-Sync_example : InSync one_user
Reaches-Sync_example = Reaches-Sync living one_user one_user-Reaches

all-Reaches_example :
    (has 7 (all one_user.bodies one_user.registry) ≡ true) ↔ ((c : ℕ) × (one_user.bound c ≡ some 7))
all-Reaches_example = all-Reaches living one_user one_user-Reaches 7

one_user_bound : one_user.bound 3 ≡ some 7
unfolding attach unbind bind
one_user_bound = refl

close-Released_example : Released one_user 3 7 (close 3 one_user)
close-Released_example = close-Released 3 7 one_user one_user_bound
