-- ===== src/Persist/Values.antt =====
-- src/persist/StateSerializer.cpp: `serializeWorldValue` and `deserializeWorldValue`, with those of
-- closures.
use amlp.Base.{
  ℕ, zero, suc, Bool, true, false, [], ◌∷◌, ◌++◌, Option, none, some, ◌==◌, ltb, if◌then◌else◌,
  Bytes, length, drop, same,
}
use amlp.Base.Result.{Result, thrown, returned, ◌>>=◌}
use amlp.Base.Decimal.{show}
use amlp.Base.Int.{ℤ, pos, negsuc}
use amlp.Persist.{
  Error, out_of_fuel, unknown_value_kind, wide_mapping, unbound_closure, object_not_found, Value,
  void, nil, int, real, string, symbol, object, array, mapping, closure, unbound, null_array,
  null_mapping, null_closure, buffer, Items, no_items, item, Entries, no_entries, entry, item_count,
  entry_count, show_int, field, int_field, size_field, sized_field,
}

-- `IdOfObject` and `ObjectOfId`, and the text of a double: `operator<<` and `std::stod`.
pub record Tables (D : Type 0) : Type 0 where
  pub id_of_object : ℕ → Option ℕ
  pub object_of_id : ℤ → Option ℕ
  pub show_double : D → Bytes
  pub stod : Bytes → Result Error D

-- The byte that starts a value.
pub data Tag : Type 0 where
  n_tag i_tag f_tag s_tag a_tag m_tag o_tag c_tag unknown : Tag

abbrev pub tag_of : ℕ → Tag
tag_of kind =
    if kind == b'N'
    then n_tag
    else if kind == b'I'
    then i_tag
    else if kind == b'F'
    then f_tag
    else if kind == b'S'
    then s_tag
    else if kind == b'A'
    then a_tag
    else if kind == b'M'
    then m_tag
    else if kind == b'O'
    then o_tag
    else if kind == b'C'
    then c_tag
    else unknown

abbrev pub flag : Bool → Bytes
flag true = b'1' ∷ []
flag false = b'0' ∷ []

-- An owner's id, or -1.
abbrev pub id_or_none : Option ℕ → ℤ
id_or_none none = negsuc 0
id_or_none (some id) = pos id

module _ {D : Type 0} (t : Tables D) where
  abbrev pub owner_id : Option ℕ → ℤ
  owner_id none = id_or_none none
  owner_id (some o) = id_or_none (t.id_of_object o)

  unfoldable mutual
    pub serialize : Value D → Result Error Bytes
    serialize (int undefined z) = returned (b'I' ∷ show_int z ++ b';' ∷ [])
    serialize (real d) = returned (b'F' ∷ t.show_double d ++ b';' ∷ [])
    serialize (string text) = returned (b'S' ∷ show (length text) ++ b':' ∷ text)
    serialize (array class_instance vs) =
        serialize_items vs >>= λ text. returned (b'A' ∷ show (item_count vs) ++ b':' ∷ text)
    serialize null_array = returned (b'A' ∷ show 0 ++ b':' ∷ [])
    serialize (mapping width es) =
        if ltb 1 width
        then thrown wide_mapping
        else (serialize_entries es >>= λ text.
            returned (b'M' ∷ show (entry_count es) ++ b':' ∷ text))
    serialize null_mapping = returned (b'M' ∷ show 0 ++ b':' ∷ [])
    serialize (object none) = returned (b'N' ∷ [])
    serialize (object (some o)) = elim (t.id_of_object o) [
      | none ↦ thrown object_not_found
      | some id ↦ returned (b'O' ∷ show id ++ b';' ∷ [])
    ]
    serialize null_closure = returned (b'N' ∷ [])
    serialize unbound = thrown unbound_closure
    serialize (closure owner force_efun name args) = serialize_items args >>= λ text. returned (
        b'C' ∷ show_int (owner_id owner)
        ++ b';' ∷ flag force_efun
        ++ b';' ∷ show (length name)
        ++ b':' ∷ name
        ++ show (item_count args)
        ++ b';' ∷ text)
    serialize void = returned (b'N' ∷ [])
    serialize nil = returned (b'N' ∷ [])
    serialize (symbol name) = returned (b'N' ∷ [])
    serialize (buffer bytes) = returned (b'N' ∷ [])

    pub serialize_items : Items D → Result Error Bytes
    serialize_items no_items = returned []
    serialize_items (item v vs) =
        serialize v >>= λ text. serialize_items vs >>= λ more. returned (text ++ more)

    pub serialize_entries : Entries D → Result Error Bytes
    serialize_entries no_entries = returned []
    serialize_entries (entry k v es) = serialize k >>= λ key.
        serialize v >>= λ text. serialize_entries es >>= λ more. returned (key ++ text ++ more)

  -- The owner of a closure that is read.
  abbrev pub owner_of : ℤ → Option ℕ
  owner_of (pos n) = t.object_of_id (pos n)
  owner_of (negsuc _) = none

  abbrev pub found : Option ℕ → Value D
  found none = void
  found (some o) = object (some o)

  unfoldable mutual
    -- `p` is the position of the value's first byte, and of the byte behind it in the result.
    pub deserialize : ℕ → Bytes → ℕ → Result Error (Value D × ℕ)
    deserialize zero s p = thrown out_of_fuel
    deserialize (suc fuel) s p = elim (drop p s) [
      | [] ↦ returned (void, p)
      | kind ∷ _ ↦ deserialize_tag fuel (tag_of kind) s (suc p)
    ]

    pub deserialize_tag : ℕ → Tag → Bytes → ℕ → Result Error (Value D × ℕ)
    deserialize_tag fuel n_tag s p = returned (void, p)
    deserialize_tag fuel i_tag s p = int_field b';' s p >>= λ (z, q). returned (int false z, q)
    deserialize_tag fuel f_tag s p =
        field b';' s p >>= λ (text, q). t.stod text >>= λ d. returned (real d, q)
    deserialize_tag fuel s_tag s p = sized_field s p >>= λ (text, q). returned (string text, q)
    deserialize_tag zero a_tag s p = thrown out_of_fuel
    deserialize_tag (suc fuel) a_tag s p = size_field b':' s p >>= λ (n, q).
        deserialize_items fuel n s q >>= λ (vs, r). returned (array false vs, r)
    deserialize_tag zero m_tag s p = thrown out_of_fuel
    deserialize_tag (suc fuel) m_tag s p = size_field b':' s p >>= λ (n, q).
        deserialize_entries fuel n s q >>= λ (es, r). returned (mapping 1 es, r)
    deserialize_tag fuel o_tag s p =
        int_field b';' s p >>= λ (id, q). returned (found (t.object_of_id id), q)
    deserialize_tag zero c_tag s p = thrown out_of_fuel
    deserialize_tag (suc fuel) c_tag s p = int_field b';' s p >>= λ (id, p₁).
        field b';' s p₁ >>= λ (force, p₂). sized_field s p₂ >>= λ (name, p₃).
        size_field b';' s p₃ >>= λ (n, p₄). deserialize_items fuel n s p₄ >>= λ (args, p₅).
        returned (closure (owner_of id) (same force (b'1' ∷ [])) name args, p₅)
    deserialize_tag fuel unknown s p = thrown unknown_value_kind

    pub deserialize_items : ℕ → ℕ → Bytes → ℕ → Result Error (Items D × ℕ)
    deserialize_items fuel zero s p = returned (no_items, p)
    deserialize_items zero (suc n) s p = thrown out_of_fuel
    deserialize_items (suc fuel) (suc n) s p = deserialize fuel s p >>= λ (v, q).
        deserialize_items fuel n s q >>= λ (vs, r). returned (item v vs, r)

    pub deserialize_entries : ℕ → ℕ → Bytes → ℕ → Result Error (Entries D × ℕ)
    deserialize_entries fuel zero s p = returned (no_entries, p)
    deserialize_entries zero (suc n) s p = thrown out_of_fuel
    deserialize_entries (suc fuel) (suc n) s p = deserialize fuel s p >>= λ (k, q).
        deserialize fuel s q >>= λ (v, r).
        deserialize_entries fuel n s r >>= λ (es, r'). returned (entry k v es, r')
