-- ===== src/Persist/Restored.antt =====
-- src/persist/StateSerializer.cpp: what a dump keeps of a value.
use amlp.Base.{ℕ, ◌+◌, ◌^◌, ◌<◌, true, false, Option, none, some, ◌≡◌}
use amlp.Base.Result.{returned}
use amlp.Base.Int.{pos}
use amlp.Persist.{
  Value, void, int, real, string, object, array, mapping, closure, null_array, null_mapping, Items,
  no_items, item, Entries, no_entries, entry, item_count, entry_count, in_int64,
}
use amlp.Persist.Values.{Tables}
use amlp.Persist.Fields.{IsFree}

abbrev pub kept : ℕ → Option ℕ → Option ℕ
kept o none = none
kept o (some id) = some o

module _ {D : Type 0} where
  -- The recursion that reading a value takes.
  unfoldable mutual
    pub weight : Value D → ℕ
    weight (array class_instance vs) = 2 + weight_items vs
    weight (mapping width es) = 2 + weight_entries es
    weight (closure owner force name args) = 2 + weight_items args
    weight _ = 2

    pub weight_items : Items D → ℕ
    weight_items no_items = 0
    weight_items (item v vs) = 1 + (weight v + weight_items vs)

    pub weight_entries : Entries D → ℕ
    weight_entries no_entries = 0
    weight_entries (entry k v es) = 1 + (weight k + (weight v + weight_entries es))

module _ {D : Type 0} (t : Tables D) where
  -- The owner, if it has an id.
  abbrev pub kept_owner : Option ℕ → Option ℕ
  kept_owner none = none
  kept_owner (some o) = kept o (t.id_of_object o)

  -- What a reader gets: no nil, symbol, buffer or null pointer, no closure owner without an id, no
  -- undefined number and no class instance; and every mapping has one column.
  unfoldable mutual
    pub restored : Value D → Value D
    restored (int undefined z) = int false z
    restored (real d) = real d
    restored (string text) = string text
    restored (object (some o)) = object (some o)
    restored (array class_instance vs) = array false (restored_items vs)
    restored null_array = array false no_items
    restored (mapping width es) = mapping 1 (restored_entries es)
    restored null_mapping = mapping 1 no_entries
    restored (closure owner force name args) =
        closure (kept_owner owner) force name (restored_items args)
    restored _ = void

    pub restored_items : Items D → Items D
    restored_items no_items = no_items
    restored_items (item v vs) = item (restored v) (restored_items vs)

    pub restored_entries : Entries D → Entries D
    restored_entries no_entries = no_entries
    restored_entries (entry k v es) = entry (restored k) (restored v) (restored_entries es)

  -- Numbers fit their types, and doubles are printed exactly and without a semicolon.
  unfoldable mutual
    pub Fits : Value D → Type 0
    Fits (int undefined z) = in_int64 z ≡ true
    Fits (real d) = (t.stod (t.show_double d) ≡ returned d) × IsFree b';' (t.show_double d)
    Fits (array class_instance vs) = (item_count vs < 2 ^ 63) × FitItems vs
    Fits (mapping width es) = (entry_count es < 2 ^ 63) × FitEntries es
    Fits (closure owner force name args) = (item_count args < 2 ^ 63) × FitItems args
    Fits _ = Unit

    pub FitItems : Items D → Type 0
    FitItems no_items = Unit
    FitItems (item v vs) = Fits v × FitItems vs

    pub FitEntries : Entries D → Type 0
    FitEntries no_entries = Unit
    FitEntries (entry k v es) = Fits k × Fits v × FitEntries es

  -- The object table has the objects of the id table, under ids that fit.
  pub record Resolves : Type 0 where
    pub known : (o id : ℕ) → t.id_of_object o ≡ some id → t.object_of_id (pos id) ≡ some o
    pub fits : (o id : ℕ) → t.id_of_object o ≡ some id → id < 2 ^ 63
