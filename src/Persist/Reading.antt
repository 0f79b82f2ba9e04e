-- ===== src/Persist/Reading.antt =====
-- src/persist/StateSerializer.cpp: each kind of value is read from its text.
use amlp.Base.{
  ℕ, zero, suc, ◌+◌, ◌^◌, ◌<◌, ◌≤◌, Bool, true, false, [], ◌∷◌, ◌++◌, Option, some, Bytes, same,
  length, drop, ◌≡◌, refl, ap, ◌∙◌, arith, length-append, append_assoc,
}
use amlp.Base.Result.{returned, ◌>>=◌}
use amlp.Base.Decimal.{show}
use amlp.Base.Int.{ℤ, pos}
use amlp.Persist.{
  Value, void, int, real, string, object, array, mapping, closure, Items, no_items, item, Entries,
  no_entries, entry, show_int, in_int64,
}
use amlp.Persist.Values.{
  Tables, tag_of, deserialize, deserialize_tag, deserialize_items, deserialize_entries, found,
  owner_of, flag,
}
use amlp.Persist.Fields.{
  IsFree, field-free, int_field-show, size_field-show, sized_field-show, drop-field, drop-behind,
  drop-sized,
}

module _ {D : Type 0} (t : Tables D) where
  pub drop-tag :
      (p : ℕ) (s : Bytes) (kind : ℕ) (rest : Bytes) → drop p s ≡ kind ∷ rest → drop (suc p) s ≡ rest
  drop-tag p s kind rest h =
      let moved : suc p ≡ p + 1 = omega arith in
      ap (λ n. drop n s) moved ∙ drop-behind p s (kind ∷ []) rest h

  pub deserialize-kind :
      (fuel p : ℕ) (s : Bytes) (kind : ℕ) (rest : Bytes)
      → drop p s ≡ kind ∷ rest
      → deserialize t (suc fuel) s p ≡ deserialize_tag t fuel (tag_of kind) s (suc p)
  unfolding deserialize
  deserialize-kind fuel p s kind rest h = rw (deserialize, h) refl

  -- Reading at `p`, where a text stands, gives a value and the position behind the text.
  abbrev pub Reads : ℕ → Bytes → Value D → Type 0
  Reads fuel text v =
      (p : ℕ) (s after : Bytes)
      → drop p s ≡ text ++ after
      → length s < 2 ^ 63
      → deserialize t fuel s p ≡ returned (v, p + length text)

  pub read-void : (fuel : ℕ) → 2 ≤ fuel → Reads fuel (b'N' ∷ []) void
  unfolding deserialize_tag deserialize
  read-void zero k p s after h l = absurd (omega arith)
  read-void (suc fuel) k p s after h l =
      deserialize-kind fuel p s b'N' after h ∙ ap (λ n. returned (void, n)) (omega arith)

  pub read-int :
      (fuel : ℕ) (z : ℤ)
      → 2 ≤ fuel
      → in_int64 z ≡ true
      → Reads fuel (b'I' ∷ show_int z ++ b';' ∷ []) (int false z)
  unfolding deserialize_tag deserialize
  read-int zero z k i p s after h l = absurd (omega arith)
  read-int (suc fuel) z k i p s after h l =
      let rest = h ∙ ap (λ x. b'I' ∷ x) (append_assoc (show_int z) (b';' ∷ []) after) in
      deserialize-kind fuel p s b'I' _ rest
      ∙ ap (λ r. r >>= λ (z, q). returned (int false z, q))
          (int_field-show (suc p) s after z (drop-tag p s b'I' _ rest) i)
      ∙ ap (λ n. returned (int false z, n)) (omega (arith, length-append (show_int z) (b';' ∷ [])))

  pub read-real :
      (fuel : ℕ) (d : D)
      → 2 ≤ fuel
      → (t.stod (t.show_double d) ≡ returned d) × IsFree b';' (t.show_double d)
      → Reads fuel (b'F' ∷ t.show_double d ++ b';' ∷ []) (real d)
  unfolding deserialize_tag deserialize
  read-real zero d k i p s after h l = absurd (omega arith)
  read-real (suc fuel) d k i p s after h l =
      let text = t.show_double d in
      let rest = h ∙ ap (λ x. b'F' ∷ x) (append_assoc text (b';' ∷ []) after) in
      deserialize-kind fuel p s b'F' _ rest
      ∙ ap (λ r. r >>= λ (text, q). t.stod text >>= λ d. returned (real d, q))
          (field-free b';' (suc p) s text after (drop-tag p s b'F' _ rest) i.1)
      ∙ ap (λ r. r >>= λ d. returned (real d, suc p + suc (length text))) i.0
      ∙ ap (λ n. returned (real d, n)) (omega (arith, length-append text (b';' ∷ [])))

  pub read-string :
      (fuel : ℕ) (text : Bytes)
      → 2 ≤ fuel
      → Reads fuel (b'S' ∷ show (length text) ++ b':' ∷ text) (string text)
  unfolding deserialize_tag deserialize
  read-string zero text k p s after h l = absurd (omega arith)
  read-string (suc fuel) text k p s after h l =
      let digits = show (length text) in
      let rest = h ∙ ap (λ x. b'S' ∷ x) (append_assoc digits (b':' ∷ text) after) in
      deserialize-kind fuel p s b'S' _ rest
      ∙ ap (λ r. r >>= λ (text, q). returned (string text, q))
          (sized_field-show (suc p) s text after (drop-tag p s b'S' _ rest) l)
      ∙ ap (λ n. returned (string text, n)) (omega (arith, length-append digits (b':' ∷ text)))

  pub read-object :
      (fuel o id : ℕ)
      → 2 ≤ fuel
      → t.object_of_id (pos id) ≡ some o
      → id < 2 ^ 63
      → Reads fuel (b'O' ∷ show id ++ b';' ∷ []) (object (some o))
  unfolding deserialize_tag deserialize show_int
  read-object zero o id k i f p s after h l = absurd (omega arith)
  read-object (suc fuel) o id k i f p s after h l =
      let rest = h ∙ ap (λ x. b'O' ∷ x) (append_assoc (show id) (b';' ∷ []) after) in
      deserialize-kind fuel p s b'O' _ rest
      ∙ ap (λ r. r >>= λ (id, q). returned (found t (t.object_of_id id), q))
          (int_field-show (suc p) s after (pos id) (drop-tag p s b'O' _ rest) (ground (arith, f)))
      ∙ ap (λ x. returned (found t x, suc p + suc (length (show id)))) i
      ∙ ap (λ n. returned (object (some o), n)) (omega (arith, length-append (show id) (b';' ∷ [])))

  abbrev pub ReadsItems : ℕ → Bytes → ℕ → Items D → Type 0
  ReadsItems fuel text n vs =
      (p : ℕ) (s after : Bytes)
      → drop p s ≡ text ++ after
      → length s < 2 ^ 63
      → deserialize_items t fuel n s p ≡ returned (vs, p + length text)

  abbrev pub ReadsEntries : ℕ → Bytes → ℕ → Entries D → Type 0
  ReadsEntries fuel text n es =
      (p : ℕ) (s after : Bytes)
      → drop p s ≡ text ++ after
      → length s < 2 ^ 63
      → deserialize_entries t fuel n s p ≡ returned (es, p + length text)

  pub read-none : (fuel : ℕ) → ReadsItems fuel [] 0 no_items
  unfolding deserialize_items
  read-none zero p s after h l = ap (λ n. returned (no_items, n)) (omega arith)
  read-none (suc fuel) p s after h l = ap (λ n. returned (no_items, n)) (omega arith)

  pub read-no_entries : (fuel : ℕ) → ReadsEntries fuel [] 0 no_entries
  unfolding deserialize_entries
  read-no_entries zero p s after h l = ap (λ n. returned (no_entries, n)) (omega arith)
  read-no_entries (suc fuel) p s after h l = ap (λ n. returned (no_entries, n)) (omega arith)

  pub read-array :
      (fuel n : ℕ) (text : Bytes) (vs : Items D)
      → ReadsItems fuel text n vs
      → n < 2 ^ 63
      → Reads (suc (suc fuel)) (b'A' ∷ show n ++ b':' ∷ text) (array false vs)
  unfolding deserialize_tag deserialize
  read-array fuel n text vs r k p s after h l =
      let rest = h ∙ ap (λ x. b'A' ∷ x) (append_assoc (show n) (b':' ∷ text) after) in
      let digits = drop-tag p s b'A' _ rest in
      let behind = drop-field b':' (suc p) s (show n) (text ++ after) digits in
      deserialize-kind (suc fuel) p s b'A' _ rest
      ∙ ap
          (λ r. r >>= λ (n, q).
            deserialize_items t fuel n s q >>= λ (vs, r). returned (array false vs, r))
          (size_field-show b':' (suc p) n s (text ++ after) refl digits k)
      ∙ ap (λ r. r >>= λ (vs, r). returned (array false vs, r)) (r _ s after behind l)
      ∙ ap (λ n. returned (array false vs, n)) (omega (arith, length-append (show n) (b':' ∷ text)))

  pub read-mapping :
      (fuel n : ℕ) (text : Bytes) (es : Entries D)
      → ReadsEntries fuel text n es
      → n < 2 ^ 63
      → Reads (suc (suc fuel)) (b'M' ∷ show n ++ b':' ∷ text) (mapping 1 es)
  unfolding deserialize_tag deserialize
  read-mapping fuel n text es r k p s after h l =
      let rest = h ∙ ap (λ x. b'M' ∷ x) (append_assoc (show n) (b':' ∷ text) after) in
      let digits = drop-tag p s b'M' _ rest in
      let behind = drop-field b':' (suc p) s (show n) (text ++ after) digits in
      deserialize-kind (suc fuel) p s b'M' _ rest
      ∙ ap
          (λ r. r >>= λ (n, q).
            deserialize_entries t fuel n s q >>= λ (es, r). returned (mapping 1 es, r))
          (size_field-show b':' (suc p) n s (text ++ after) refl digits k)
      ∙ ap (λ r. r >>= λ (es, r). returned (mapping 1 es, r)) (r _ s after behind l)
      ∙ ap (λ n. returned (mapping 1 es, n)) (omega (arith, length-append (show n) (b':' ∷ text)))

  pub read-item :
      (fuel n : ℕ) (first more : Bytes) (v : Value D) (vs : Items D)
      → Reads fuel first v
      → ReadsItems fuel more n vs
      → ReadsItems (suc fuel) (first ++ more) (suc n) (item v vs)
  unfolding deserialize_items
  read-item fuel n first more v vs r rs p s after h l =
      let h' = h ∙ append_assoc first more after in
      let behind = drop-behind p s first (more ++ after) h' in
      ap
        (λ r. r >>= λ (v, q). deserialize_items t fuel n s q >>= λ (vs, r). returned (item v vs, r))
        (r p s (more ++ after) h' l)
      ∙ ap (λ r. r >>= λ (vs, r). returned (item v vs, r)) (rs _ s after behind l)
      ∙ ap (λ n. returned (item v vs, n)) (omega (arith, length-append first more))

  pub read-entry :
      (fuel n : ℕ) (key first more : Bytes) (k v : Value D) (es : Entries D)
      → Reads fuel key k
      → Reads fuel first v
      → ReadsEntries fuel more n es
      → ReadsEntries (suc fuel) (key ++ first ++ more) (suc n) (entry k v es)
  unfolding deserialize_entries
  read-entry fuel n key first more k v es rk rv rs p s after h l =
      let h' =
        h ∙ append_assoc (key ++ first) more after ∙ append_assoc key first (more ++ after) in
      let behind = drop-behind p s key (first ++ (more ++ after)) h' in
      let last = drop-behind _ s first (more ++ after) behind in
      ap
        (λ r. r >>= λ (k, q). deserialize t fuel s q >>= λ (v, r).
          deserialize_entries t fuel n s r >>= λ (es, r'). returned (entry k v es, r'))
        (rk p s (first ++ (more ++ after)) h' l)
      ∙ ap
          (λ r. r >>= λ (v, r).
            deserialize_entries t fuel n s r >>= λ (es, r'). returned (entry k v es, r'))
          (rv _ s (more ++ after) behind l)
      ∙ ap (λ r. r >>= λ (es, r'). returned (entry k v es, r')) (rs _ s after last l)
      ∙ ap (λ n. returned (entry k v es, n))
          (omega (arith, length-append (key ++ first) more, length-append key first))

  flag-IsFree : (force : Bool) → IsFree b';' (flag force)
  flag-IsFree true = (refl, tt)
  flag-IsFree false = (refl, tt)

  flag-same : (force : Bool) → same (flag force) (b'1' ∷ []) ≡ force
  unfolding same
  flag-same true = refl
  flag-same false = refl

  pub read-closure :
      (fuel n : ℕ) (z : ℤ) (owner : Option ℕ) (force : Bool) (name text : Bytes) (args : Items D)
      → in_int64 z ≡ true
      → owner_of t z ≡ owner
      → ReadsItems fuel text n args
      → n < 2 ^ 63
      → Reads
          (suc (suc fuel))
          (b'C' ∷ show_int z
            ++ b';' ∷ flag force
            ++ b';' ∷ show (length name)
            ++ b':' ∷ name
            ++ show n
            ++ b';' ∷ text)
          (closure owner force name args)
  unfolding deserialize_tag deserialize
  read-closure fuel n z owner force name text args i o r k p s after h l =
      let rest : drop p s
          ≡ b'C'
            ∷ (show_int z
                ++ b';'
                  ∷ (flag force
                      ++ b';'
                        ∷ (show (length name)
                            ++ b':' ∷ (name ++ (show n ++ b';' ∷ (text ++ after)))))) =
        h ∙ simp append_assoc refl in
      let h₁ = drop-tag p s b'C' _ rest in
      let h₂ = drop-field b';' (suc p) s (show_int z) _ h₁ in
      let p₂ = suc p + suc (length (show_int z)) in
      let h₃ = drop-field b';' p₂ s (flag force) _ h₂ in
      let p₃ = p₂ + suc (length (flag force)) in
      let p₄ = p₃ + (suc (length (show (length name))) + length name) in
      let h₄ = drop-sized p₃ s name _ h₃ in
      let h₅ = drop-field b';' p₄ s (show n) _ h₄ in
      deserialize-kind (suc fuel) p s b'C' _ rest
      ∙ rw
          (
            int_field-show (suc p) s _ z h₁ i,
            field-free b';' p₂ s (flag force) _ h₂ (flag-IsFree force),
            sized_field-show p₃ s name _ h₃ l,
            size_field-show b';' p₄ n s _ refl h₄ k,
            r _ s after h₅ l,
            flag-same force,
            o,
          )
          (ap (λ m. returned (closure owner force name args, m)) (simp length-append (omega arith)))
