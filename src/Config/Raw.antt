-- ===== src/Config/Raw.antt =====
-- src/config/Config.cpp: the map of the raw texts after the lines of a file.
use mathlib.Core.Path.{subst}
use amlp.Base.Result.{Result, returned, thrown}
use amlp.Persist.{Error}
use amlp.Config.{
  Config, Loading, loaded, not_opened, stopped, assign, with_raw, ended, set_pair, is_comment,
  split_colon, load_line, load_lines, and_then, trim,
}
use amlp.Config.Settings.{word}
use amlp.Config.Assignments.{which, this, nothing, Sets, assign-Sets, assign-nothing}
use amlp.Config.Trims.{Trims, trim-Trims}
use amlp.Config.Says.{Says, Says-split, Says-is_comment, split_colon-splits}
use amlp.Base.{
  ℕ, false, List, [], ◌∷◌, ◌++◌, Option, some, ◌≡◌, refl, sym, ap, ◌∙◌, Bytes, All, arith,
  Bool-cases, Option-cases, inl, inr, ◌⊎◌, if◌then◌else◌, same, same_iff,
}

-- The line gives the key no value.
abbrev pub Unsaid : Bytes → Bytes → Type 0
Unsaid key line = (val : Bytes) → ¬ Says line key val

-- The value that the last line with the key gives it, and `start` if no line has the key.
pub data Last (key : Bytes) (lines : List Bytes) (start end : Option Bytes) : Type 0 where
  unsaid : All (Unsaid key) lines → end ≡ start → Last key lines start end
  said :
      (before after : List Bytes) (line val : Bytes)
      → lines ≡ before ++ line ∷ after
      → Says line key val
      → All (Unsaid key) after
      → end ≡ some val
      → Last key lines start end

Sets-raw :
    (key val : Bytes) (c d : Config) (r : Result Error Config)
    → assign key val c ≡ r
    → r ≡ returned d
    → d.raw ≡ c.raw
Sets-raw key val c d r e h = elim (which key) [
  | this s k ↦
      let t : Sets s val c (returned d) =
        subst (Sets s val c) (ap (λ k. assign k val c) (sym k) ∙ e ∙ h) (assign-Sets s val c) in
      t.1.1
  | nothing n ↦
      let same_config : c ≡ d = cc (assign-nothing key val c n, e, h) in
      ap (λ (c : Config). c.raw) (sym same_config)
]

ended-loaded : (c d : Config) (r : Result Error Config) → ended c r ≡ loaded d → r ≡ returned d
ended-loaded c d (thrown e) h = cc h
ended-loaded c d (returned x) h = cc h

set_pair-raw :
    (c d : Config) (k : ℕ) (key val : Bytes)
    → set_pair (k ∷ key) val c ≡ loaded d
    → d.raw ≡ (with_raw (k ∷ key) val c).raw
unfolding set_pair
set_pair-raw c d k key val h =
    Sets-raw (k ∷ key) val (with_raw (k ∷ key) val c) d _ refl (ended-loaded _ d _ h)

-- A line that says something, split.
split-Says :
    (line head tail : Bytes) (k : ℕ) (key : Bytes)
    → is_comment line ≡ false
    → split_colon line ≡ some (head, tail)
    → trim head ≡ k ∷ key
    → Says line (k ∷ key) (trim tail)
split-Says line head tail k key n e h =
    let s = split_colon-splits line head tail e in
    record {
      head = head;
      tail = tail;
      splits = s.0;
      first = s.1;
      no_comment = λ rest p. cc (sym n ∙ ap is_comment p);
      key_of = subst (Trims head) h (trim-Trims head);
      val_of = trim-Trims tail;
      keyed = λ p. ground (arith, p);
    }

-- What one line does to the map, at one key.
abbrev OneLine : Bytes → Bytes → Config → Config → Type 0
OneLine key line c d =
    (Unsaid key line × (d.raw key ≡ c.raw key))
    ⊎ ((val : Bytes) × Says line key val × (d.raw key ≡ some val))

split_pair :
    (key line head tail : Bytes) (c d : Config) (trimmed : Bytes)
    → is_comment line ≡ false
    → split_colon line ≡ some (head, tail)
    → trim head ≡ trimmed
    → set_pair trimmed (trim tail) c ≡ loaded d
    → OneLine key line c d
unfolding set_pair same
split_pair key line head tail c d [] n e t h = inl (
  λ val s.
      let p = Says-split line key val s in
      let both : head ≡ p.0 = cc (e, p.2) in s.keyed (sym p.3 ∙ ap trim (sym both) ∙ t),
  ap (λ (c : Config). c.raw key) (loaded_injective h),
)
  where
    loaded_injective : loaded c ≡ loaded d → d ≡ c
    loaded_injective h = cc h
split_pair key line head tail c d (k ∷ word) n e t h =
    let raw : d.raw key ≡ (if same (k ∷ word) key then some (trim tail) else c.raw key) =
      ap (λ f. f key) (set_pair-raw c d k word (trim tail) h) in
    elim (Bool-cases (same (k ∷ word) key)) [
      | inl q ↦
          let is_key = (same_iff (k ∷ word) key).0 q in
          inr (
            trim tail,
            subst (λ x. Says line x (trim tail)) is_key (split-Says line head tail k word n e t),
            raw ∙ rw q refl,
          )
      | inr q ↦ inl (
        λ val s.
            let p = Says-split line key val s in
            let both : head ≡ p.0 = cc (e, p.2) in
            let is_key : k ∷ word ≡ key = sym t ∙ ap trim both ∙ p.3 in
            cc (sym q ∙ (same_iff (k ∷ word) key).1 is_key),
        raw ∙ rw q refl,
      )
    ]

quiet_line :
    (key line : Bytes) (c d : Config) → loaded c ≡ loaded d → Unsaid key line → OneLine key line c d
quiet_line key line c d h u =
    let kept : d ≡ c = cc h in inl (u, ap (λ (c : Config). c.raw key) kept)

load_line-OneLine :
    (key line : Bytes) (c d : Config) → load_line line c ≡ loaded d → OneLine key line c d
unfolding load_line
load_line-OneLine key line c d h = elim (Bool-cases (is_comment line)) [
  | inl n ↦ quiet_line key line c d (rw n at h) λ val s. cc (sym n ∙ Says-is_comment line key val s)
  | inr n ↦ elim (Option-cases (split_colon line)) [
    | inl e ↦
        quiet_line key line c d (rw (n, e) at h)
          λ val s. let p = Says-split line key val s in cc (sym e ∙ p.2)
    | inr ((head, tail), e) ↦
        split_pair key line head tail c d (trim head) n e refl (rw (n, e) at h)
  ]
]

Last-after :
    (key line : Bytes) (lines : List Bytes) (c d : Config) (end : Option Bytes)
    → OneLine key line c d
    → Last key lines (d.raw key) end
    → Last key (line ∷ lines) (c.raw key) end
Last-after key line lines c d end o (said before after l val e s u v) =
    said (line ∷ before) after l val (ap (λ t. line ∷ t) e) s u v
Last-after key line lines c d end (inl (n, r)) (unsaid u v) = unsaid (n, u) (v ∙ r)
Last-after key line lines c d end (inr (val, s, r)) (unsaid u v) =
    said [] lines line val refl s u (v ∙ r)

after_line :
    (key line : Bytes) (lines : List Bytes) (c d : Config) (o : Loading)
    → ((b : Config) → load_lines lines b ≡ loaded d → Last key lines (b.raw key) (d.raw key))
    → load_line line c ≡ o
    → and_then o (load_lines lines) ≡ loaded d
    → Last key (line ∷ lines) (c.raw key) (d.raw key)
after_line key line lines c d not_opened f e h = cc h
after_line key line lines c d (stopped x y) f e h = cc h
after_line key line lines c d (loaded b) f e h =
    Last-after key line lines c b (d.raw key) (load_line-OneLine key line c b e) (f b h)

pub load_lines-Last :
    (key : Bytes) (lines : List Bytes) (c d : Config)
    → load_lines lines c ≡ loaded d
    → Last key lines (c.raw key) (d.raw key)
unfolding load_lines
load_lines-Last key [] c d h =
    let kept : d ≡ c = cc h in unsaid tt (ap (λ (c : Config). c.raw key) kept)
load_lines-Last key (line ∷ lines) c d h =
    after_line key line lines c d (load_line line c) (λ b. load_lines-Last key lines b d) refl h
