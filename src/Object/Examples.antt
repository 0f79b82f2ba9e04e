-- ===== src/Object/Examples.antt =====
-- src/object/LivingNameRegistry.cpp: the theorems at concrete input.
use amlp.Base.{ℕ, true, false, not, List, [], ◌∷◌, none, some, ◌==◌, codes, ◌≡◌, refl, arith}
use amlp.Base.Int.{pos}
use amlp.Object.{LpcObject}
use amlp.Object.LivingNames.{Entry, set, find, names_of, set-names_of, Finds, find-Finds}

-- Object 9 is gone, and object 7 destructed.
abbrev town : ℕ → LpcObject
town o = record {
  alive = not (o == 9);
  filename = codes "/player";
  heartbeat_interval = pos 0;
  commands_enabled = true;
  destructed = o == 7;
  ever_interactive = o == 3;
  shadowing = none;
  reset_state = true;
  will_clean_up = false;
  is_clone = true;
  time_reset = none;
  time_of_ref = 0;
}

abbrev names : List Entry
names =
    (record { obj = 9; name = codes "bob" })
    ∷ (record { obj = 7; name = codes "bob" })
    ∷ (record { obj = 4; name = codes "bob" })
    ∷ (record { obj = 3; name = codes "bob" })
    ∷ []

set-names_of_example :
    (names_of 4 (set town (some 4) (codes "al") names) ≡ codes "al" ∷ [])
    × (names_of 3 (set town (some 4) (codes "al") names) ≡ codes "bob" ∷ [])
set-names_of_example = set-names_of town 4 3 (codes "al") names (omega arith) refl

find-Finds_example : Finds town (codes "bob") true names (find town (codes "bob") true names)
find-Finds_example = find-Finds town (codes "bob") true names
