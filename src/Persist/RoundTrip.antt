-- ===== src/Persist/RoundTrip.antt =====
-- src/persist/StateSerializer.cpp: what is read back of a value that was written.
use mathlib.Core.Path.{subst}
use amlp.Base.{
  ℕ, zero, suc, ◌+◌, ◌-◌, ◌^◌, ◌<◌, ◌≤◌, true, false, [], ◌∷◌, ◌++◌, Option, none, some, ltb,
  if◌then◌else◌, Bytes, length, ◌≡◌, refl, sym, ap, ◌∙◌, arith, drop-append, Option-cases, inl, inr,
}
use amlp.Base.Result.{Result, thrown, returned, ◌>>=◌}
use amlp.Base.Decimal.{show}
use amlp.Persist.{
  Error, Value, void, nil, int, real, string, symbol, object, array, mapping, closure, unbound,
  null_array, null_mapping, null_closure, buffer, wide_mapping, Items, no_items, item, Entries,
  no_entries, entry, item_count, entry_count, in_int64,
}
use amlp.Persist.Values.{
  Tables, serialize, serialize_items, serialize_entries, deserialize, owner_of, owner_id,
  id_or_none,
}
use amlp.Persist.Restored.{
  kept, kept_owner, restored, restored_items, restored_entries, Fits, FitItems, FitEntries, weight,
  weight_items, weight_entries, Resolves,
}
use amlp.Persist.Reading.{
  Reads, ReadsItems, ReadsEntries, read-void, read-int, read-real, read-string, read-object,
  read-array, read-mapping, read-none, read-no_entries, read-item, read-entry, read-closure,
}

returned_injective {ℓ} :
    {A : Type ℓ} {a b : A} → ◌≡◌ {A = Result Error A} (returned a) (returned b) → a ≡ b
returned_injective h = cc h

module _ {D : Type 0} (t : Tables D) where
  serialized :
      {A B : Type 0} (m : Result Error A) (f : A → Result Error B) (b : B)
      → (m >>= f) ≡ returned b
      → (a : A) × (m ≡ returned a) × (f a ≡ returned b)
  serialized (thrown e) f b h = cc h
  serialized (returned a) f b h = (a, refl, h)

  module _ (law : Resolves t) where
    owner_id-fits : (owner : Option ℕ) → in_int64 (owner_id t owner) ≡ true
    owner_id-fits none = refl
    owner_id-fits (some o) = elim (Option-cases (t.id_of_object o)) [
      | inl p ↦ ap (λ x. in_int64 (id_or_none x)) p
      | inr (id, p) ↦ ap (λ x. in_int64 (id_or_none x)) p ∙ ground (arith, law.fits o id p)
    ]

    owner_of-owner_id : (owner : Option ℕ) → owner_of t (owner_id t owner) ≡ kept_owner t owner
    owner_of-owner_id none = refl
    owner_of-owner_id (some o) = elim (Option-cases (t.id_of_object o)) [
      | inl p ↦ ap (λ x. owner_of t (id_or_none x)) p ∙ sym (ap (kept o) p)
      | inr (id, p) ↦ ap (λ x. owner_of t (id_or_none x)) p ∙ law.known o id p ∙ sym (ap (kept o) p)
    ]

    as-written :
        (fuel : ℕ) (a b : Bytes) (v : Value D)
        → ◌≡◌ {A = Result Error Bytes} (returned a) (returned b)
        → 2 ≤ fuel
        → Reads t (suc (suc (fuel - 2))) a v
        → Reads t fuel b v
    as-written fuel a b v w k r =
        let deeper : suc (suc (fuel - 2)) ≡ fuel = omega arith in
        subst (λ n. Reads t n b v) deeper
          (subst (λ x. Reads t (suc (suc (fuel - 2))) x v) (returned_injective w) r)

    items-as-written :
        (fuel n : ℕ) (a b : Bytes) (vs : Items D)
        → ◌≡◌ {A = Result Error Bytes} (returned a) (returned b)
        → ReadsItems t fuel a n vs
        → ReadsItems t fuel b n vs
    items-as-written fuel n a b vs w r =
        subst (λ x. ReadsItems t fuel x n vs) (returned_injective w) r

    entries-as-written :
        (fuel n : ℕ) (a b : Bytes) (es : Entries D)
        → ◌≡◌ {A = Result Error Bytes} (returned a) (returned b)
        → ReadsEntries t fuel a n es
        → ReadsEntries t fuel b n es
    entries-as-written fuel n a b es w r =
        subst (λ x. ReadsEntries t fuel x n es) (returned_injective w) r

    one_column :
        (width : ℕ) (r : Result Error Bytes) (text : Bytes)
        → (if ltb 1 width then thrown wide_mapping else r) ≡ returned text
        → (ltb 1 width ≡ false) × (r ≡ returned text)
    one_column width r text w = ground (arith, w)

    silent :
        (fuel : ℕ) (text : Bytes)
        → 2 ≤ fuel
        → ◌≡◌ {A = Result Error Bytes} (returned (b'N' ∷ [])) (returned text)
        → Reads t fuel text void
    silent fuel text k w =
        subst (λ x. Reads t fuel x void) (returned_injective w) (read-void t fuel k)

    unknown_object :
        (o : ℕ) (text : Bytes)
        → t.id_of_object o ≡ none
        → serialize t (object (some o)) ≡ returned text
        → ⊥
    unfolding serialize
    unknown_object o text p w = ground (arith, p, w)

    known_object :
        (o id : ℕ) (text : Bytes)
        → t.id_of_object o ≡ some id
        → serialize t (object (some o)) ≡ returned text
        → ◌≡◌ {A = Result Error Bytes} (returned (b'O' ∷ show id ++ b';' ∷ [])) (returned text)
    unfolding serialize
    known_object o id text p w = ground (arith, p, w)

    mutual
      unfolding serialize restored Fits weight item_count entry_count deserialize

      value-serialize :
          (v : Value D) (text : Bytes) (fuel : ℕ)
          → serialize t v ≡ returned text
          → Fits t v
          → weight v ≤ fuel
          → Reads t fuel text (restored t v)
      value-serialize void text fuel w f k = silent fuel text k w
      value-serialize nil text fuel w f k = silent fuel text k w
      value-serialize (symbol name) text fuel w f k = silent fuel text k w
      value-serialize (buffer bytes) text fuel w f k = silent fuel text k w
      value-serialize (object none) text fuel w f k = silent fuel text k w
      value-serialize null_closure text fuel w f k = silent fuel text k w
      value-serialize unbound text fuel w f k = cc w
      value-serialize (int undefined z) text fuel w f k =
          subst (λ x. Reads t fuel x (int false z)) (returned_injective w) (read-int t fuel z k f)
      value-serialize (real d) text fuel w f k =
          subst (λ x. Reads t fuel x (real d)) (returned_injective w) (read-real t fuel d k f)
      value-serialize (string name) text fuel w f k =
          subst (λ x. Reads t fuel x (string name)) (returned_injective w)
            (read-string t fuel name k)
      value-serialize (object (some o)) text fuel w f k = elim (Option-cases (t.id_of_object o)) [
        | inl p ↦ absurd (unknown_object o text p w)
        | inr (id, p) ↦
            subst (λ x. Reads t fuel x (object (some o)))
              (returned_injective (known_object o id text p w))
              (read-object t fuel o id k (law.known o id p) (law.fits o id p))
      ]
      value-serialize null_array text fuel w f k =
          as-written fuel _ text _ w k
            (read-array t (fuel - 2) 0 [] no_items (read-none t (fuel - 2)) (omega arith))
      value-serialize null_mapping text fuel w f k =
          as-written fuel _ text _ w k
            (read-mapping t (fuel - 2) 0 [] no_entries (read-no_entries t (fuel - 2)) (omega arith))
      value-serialize (array class_instance vs) text fuel w f k =
          let (body, q, e) = serialized (serialize_items t vs) _ text w in
          as-written fuel _ text _ e (omega (arith, k)) (
            read-array t (fuel - 2) (item_count vs) body (restored_items t vs)
              (items-serialize vs body (fuel - 2) q f.1 (omega (arith, k))) f.0)
      value-serialize (mapping width es) text fuel w f k =
          let narrow = one_column width _ text w in
          let (body, q, e) = serialized (serialize_entries t es) _ text narrow.1 in
          as-written fuel _ text _ e (omega (arith, k)) (
            read-mapping t (fuel - 2) (entry_count es) body (restored_entries t es)
              (entries-serialize es body (fuel - 2) q f.1 (omega (arith, k))) f.0)
      value-serialize (closure owner force name args) text fuel w f k =
          let (body, q, e) = serialized (serialize_items t args) _ text w in
          as-written fuel _ text _ e (omega (arith, k)) (
            read-closure t (fuel - 2) (item_count args) (owner_id t owner) (kept_owner t owner)
              force name body (restored_items t args) (owner_id-fits owner)
              (owner_of-owner_id owner)
              (items-serialize args body (fuel - 2) q f.1 (omega (arith, k))) f.0)

      items-serialize :
          (vs : Items D) (text : Bytes) (fuel : ℕ)
          → serialize_items t vs ≡ returned text
          → FitItems t vs
          → weight_items vs ≤ fuel
          → ReadsItems t fuel text (item_count vs) (restored_items t vs)
      items-serialize no_items text fuel w f k =
          items-as-written fuel 0 [] text no_items w (read-none t fuel)
      items-serialize (item v vs) text zero w f k = absurd (omega (arith, k))
      items-serialize (item v vs) text (suc fuel) w f k =
          let (first, q, e) = serialized (serialize t v) _ text w in
          let (more, q', e') = serialized (serialize_items t vs) _ text e in
          items-as-written (suc fuel) (suc (item_count vs)) (first ++ more) text _ e' (
            read-item t fuel (item_count vs) first more (restored t v) (restored_items t vs)
              (value-serialize v first fuel q f.0 (omega (arith, k)))
              (items-serialize vs more fuel q' f.1 (omega (arith, k))))

      entries-serialize :
          (es : Entries D) (text : Bytes) (fuel : ℕ)
          → serialize_entries t es ≡ returned text
          → FitEntries t es
          → weight_entries es ≤ fuel
          → ReadsEntries t fuel text (entry_count es) (restored_entries t es)
      entries-serialize no_entries text fuel w f k =
          entries-as-written fuel 0 [] text no_entries w (read-no_entries t fuel)
      entries-serialize (entry k v es) text zero w f l = absurd (omega (arith, l))
      entries-serialize (entry k v es) text (suc fuel) w f l =
          let (key, q, e) = serialized (serialize t k) _ text w in
          let (first, q', e') = serialized (serialize t v) _ text e in
          let (more, q'', e'') = serialized (serialize_entries t es) _ text e' in
          entries-as-written (suc fuel) (suc (entry_count es)) (key ++ first ++ more) text _ e'' (
            read-entry t fuel (entry_count es) key first more (restored t k) (restored t v)
              (restored_entries t es) (value-serialize k key fuel q f.0 (omega (arith, l)))
              (value-serialize v first fuel q' f.1 (omega (arith, l)))
              (entries-serialize es more fuel q'' f.2 (omega (arith, l))))

    -- If the table of objects has every object under the id that the table of ids gives it, below
    -- 2 ^ 63, then a value that is written without error, and whose numbers fit their types and
    -- doubles are printed exactly, is read back from any place in a text below 2 ^ 63 bytes, on fuel
    -- of its weight or more: as itself, but for nil, symbols, buffers and null pointers, which come
    -- back as void or empty, closure owners without an id, which are lost, undefined numbers and class
    -- instances, which come back as plain numbers and arrays, and mappings without a column of values,
    -- which come back with one. The position is then behind its text.
    pub deserialize-serialize :
        (v : Value D) (before text after : Bytes) (fuel : ℕ)
        → serialize t v ≡ returned text
        → Fits t v
        → weight v ≤ fuel
        → length (before ++ (text ++ after)) < 2 ^ 63
        → deserialize t fuel (before ++ (text ++ after)) (length before)
          ≡ returned (restored t v, length before + length text)
    deserialize-serialize v before text after fuel w f k l =
        value-serialize v text fuel w f k (length before) (before ++ (text ++ after)) after
          (drop-append before (text ++ after)) l
