-- ===== src/Object/LiveObjects/Examples.antt =====
-- src/object/LiveObjectRegistry.cpp: the registry at concrete input.
use amlp.Object.LiveObjects.{update, Holder, add, Store}
use amlp.Base.{List, ℕ, [], false, some, true, ◌∷◌}

-- Objects with numbers for values.
abbrev nothing : ℕ → Holder ℕ
nothing o = record { alive = false; destructed = false; variables = []; inventory = [] }

abbrev fresh : List ℕ → Holder ℕ → Holder ℕ
fresh variables h = record {
  alive = true;
  destructed = false;
  variables = variables;
  inventory = [];
}

abbrev start : Store ℕ
start = record { holders = nothing; registry = [] }

abbrev with_seven : Store ℕ
with_seven = add (some 7) (record start { holders = update 7 (fresh (5 ∷ 6 ∷ [])) start.holders })
