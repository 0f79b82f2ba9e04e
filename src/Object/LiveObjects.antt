-- ===== src/Object/LiveObjects.antt =====
-- src/object/LiveObjectRegistry.cpp: the objects that are loaded. `V` is the type of LPC values.
use amlp.Base.{
  ◌||◌, not, ◌&&◌, ◌==◌, if◌then◌else◌, ◌++◌, Bool, List, Option, map, ℕ, [], none, some, true, ◌∷◌,
}
pub mod Release
mod Examples

pub record Holder (V : Type 0) : Type 0 where
  pub alive : Bool
  pub destructed : Bool
  pub variables : List V
  pub inventory : List ℕ

-- The objects, and the registry of weak pointers to them.
pub record Store (V : Type 0) : Type 0 where
  pub holders : ℕ → Holder V
  pub registry : List ℕ

module _ {V : Type 0} where
  abbrev pub update : ℕ → (Holder V → Holder V) → (ℕ → Holder V) → ℕ → Holder V
  update o f holders p = if p == o then f (holders p) else holders p

  unfoldable pub add : Option ℕ → Store V → Store V
  add none s = s
  add (some o) s = record s { registry = s.registry ++ o ∷ [] }

  unfoldable pub without : (ℕ → Holder V) → ℕ → List ℕ → List ℕ
  without holders o [] = []
  without holders o (p ∷ registry) =
      let left = without holders o registry in
      if not (holders p).alive || p == o then left else p ∷ left

  unfoldable pub remove : Option ℕ → Store V → Store V
  unfolding without
  remove none s = s
  remove (some o) s = record s { registry = without s.holders o s.registry }

  unfoldable pub all_of : (ℕ → Holder V) → List ℕ → List ℕ
  all_of holders [] = []
  all_of holders (p ∷ registry) =
      let later = all_of holders registry in
      if (holders p).alive && not (holders p).destructed then p ∷ later else later

  unfoldable pub all : Store V → List ℕ
  unfolding all_of
  all s = all_of s.holders s.registry

  -- Its variables are zero and its inventory is empty.
  unfoldable pub cleared : V → Holder V → Holder V
  cleared zero_value h = record h { variables = map (λ _. zero_value) h.variables; inventory = [] }

  unfoldable pub release : V → List ℕ → (ℕ → Holder V) → ℕ → Holder V
  unfolding cleared
  release zero_value [] holders = holders
  release zero_value (p ∷ registry) holders =
      release zero_value registry
        (if (holders p).alive then update p (cleared zero_value) holders else holders)

  unfoldable pub release_all : V → Store V → Store V
  unfolding release
  release_all zero_value s = record {
    holders = release zero_value s.registry s.holders;
    registry = [];
  }
