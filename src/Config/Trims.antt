-- ===== src/Config/Trims.antt =====
-- src/config/Config.cpp: what `trim` leaves of a text.
use amlp.Base.{
  ℕ, Bool, true, false, ◌==◌, ◌||◌, [], ◌∷◌, ◌++◌, ◌≡◌, refl, sym, ap, ◌∙◌, Bytes, All, arith,
  Bool-cases, inl, inr, append-nil,
}
use amlp.Config.{trim, trim_front, trim_back, trim_byte}

abbrev pub is_blank : ℕ → Bool
is_blank c = c == b' ' || c == b'\t' || c == b'\r' || c == b'\n'

abbrev pub IsBlank : Bytes → Type 0
IsBlank text = All (λ c. is_blank c ≡ true) text

-- `text` is `raw` less the blanks at its two ends.
pub record Trims (raw text : Bytes) : Type 0 where
  pub front : Bytes
  pub back : Bytes
  pub splits : raw ≡ front ++ (text ++ back)
  pub front-IsBlank : IsBlank front
  pub back-IsBlank : IsBlank back
  pub starts : (c : ℕ) (rest : Bytes) → text ≡ c ∷ rest → is_blank c ≡ false
  pub ends : (rest : Bytes) (c : ℕ) → text ≡ rest ++ c ∷ [] → is_blank c ≡ false

trim_front-blank : (front s : Bytes) → IsBlank front → trim_front (front ++ s) ≡ trim_front s
unfolding trim_front
trim_front-blank [] s h = refl
trim_front-blank (c ∷ front) s h = rw (h.0, trim_front-blank front s h.1) refl

trim_front-starts : (c : ℕ) (s : Bytes) → is_blank c ≡ false → trim_front (c ∷ s) ≡ c ∷ s
unfolding trim_front
trim_front-starts c s h = rw h refl

trim_back-blank : (back : Bytes) → IsBlank back → trim_back back ≡ []
unfolding trim_back
trim_back-blank [] h = refl
trim_back-blank (c ∷ back) h = rw (trim_back-blank back h.1, h.0) refl

trim_back-append : (s back : Bytes) → IsBlank back → trim_back (s ++ back) ≡ trim_back s
unfolding trim_back
trim_back-append [] back h = trim_back-blank back h
trim_back-append (c ∷ s) back h = ap (trim_byte c) (trim_back-append s back h)

trim_back-ends :
    (s : Bytes)
    → ((rest : Bytes) (c : ℕ) → s ≡ rest ++ c ∷ [] → is_blank c ≡ false)
    → trim_back s ≡ s
unfolding trim_back
trim_back-ends [] h = refl
trim_back-ends (c ∷ []) h = rw (h [] c refl) refl
trim_back-ends (c ∷ d ∷ s) h =
    ap (trim_byte c) (trim_back-ends (d ∷ s) (λ rest e p. h (c ∷ rest) e (ap (λ t. c ∷ t) p)))

pub Trims-trim : (raw text : Bytes) → Trims raw text → trim raw ≡ text
unfolding trim
Trims-trim raw [] t = ap trim_back (
    ap trim_front t.splits
    ∙ trim_front-blank t.front t.back t.front-IsBlank
    ∙ ap trim_front (sym (append-nil t.back))
    ∙ trim_front-blank t.back [] t.back-IsBlank)
Trims-trim raw (c ∷ text) t =
    ap trim_back (
      ap trim_front t.splits
      ∙ trim_front-blank t.front ((c ∷ text) ++ t.back) t.front-IsBlank
      ∙ trim_front-starts c (text ++ t.back) (t.starts c text refl))
    ∙ trim_back-append (c ∷ text) t.back t.back-IsBlank
    ∙ trim_back-ends (c ∷ text) t.ends

-- The blanks that `trim_front` takes, and that its result starts with none.
pub record Fronted (raw text : Bytes) : Type 0 where
  pub front : Bytes
  pub splits : raw ≡ front ++ text
  pub blank : IsBlank front
  pub starts : (c : ℕ) (rest : Bytes) → text ≡ c ∷ rest → is_blank c ≡ false

trim_front-Fronted : (raw : Bytes) → Fronted raw (trim_front raw)
unfolding trim_front
trim_front-Fronted [] = record {
  front = [];
  splits = refl;
  blank = tt;
  starts = λ c rest e. ground (arith, e);
}
trim_front-Fronted (c ∷ s) = elim (Bool-cases (is_blank c)) [
  | inl h ↦
      let f = trim_front-Fronted s in
      rw h (record {
        front = c ∷ f.front;
        splits = ap (λ t. c ∷ t) f.splits;
        blank = (h, f.blank);
        starts = f.starts;
      })
  | inr h ↦
      rw h (record {
        front = [];
        splits = refl;
        blank = tt;
        starts = λ d rest e. ground (arith, h, e);
      })
]

-- The blanks that `trim_back` takes.
pub record Backed (raw text : Bytes) : Type 0 where
  pub back : Bytes
  pub splits : raw ≡ text ++ back
  pub blank : IsBlank back
  pub ends : (rest : Bytes) (c : ℕ) → text ≡ rest ++ c ∷ [] → is_blank c ≡ false

nil_end : (rest : Bytes) (c : ℕ) → [] ≡ rest ++ c ∷ [] → is_blank c ≡ false
nil_end [] c e = ground (arith, e)
nil_end (x ∷ rest) c e = ground (arith, e)

one_end : (b : ℕ) (rest : Bytes) (c : ℕ) → b ∷ [] ≡ rest ++ c ∷ [] → b ≡ c
one_end b [] c e = ground (arith, e)
one_end b (x ∷ []) c e = ground (arith, e)
one_end b (x ∷ y ∷ rest) c e = ground (arith, e)

cons_end :
    (b d : ℕ) (s rest : Bytes) (c : ℕ)
    → ((rest : Bytes) (c : ℕ) → d ∷ s ≡ rest ++ c ∷ [] → is_blank c ≡ false)
    → b ∷ d ∷ s ≡ rest ++ c ∷ []
    → is_blank c ≡ false
cons_end b d s [] c h e = ground (arith, e)
cons_end b d s (x ∷ rest) c h e = h rest c (ground (arith, e))

trim_byte-Backed : (c : ℕ) (s t : Bytes) → Backed s t → Backed (c ∷ s) (trim_byte c t)
trim_byte-Backed c s [] b = elim (Bool-cases (is_blank c)) [
  | inl h ↦ rw h (record {
    back = c ∷ b.back;
    splits = ap (λ t. c ∷ t) b.splits;
    blank = (h, b.blank);
    ends = nil_end;
  })
  | inr h ↦ rw h (record {
    back = b.back;
    splits = ap (λ t. c ∷ t) b.splits;
    blank = b.blank;
    ends = λ rest d e. ap is_blank (sym (one_end c rest d e)) ∙ h;
  })
]
trim_byte-Backed c s (d ∷ t) b = record {
  back = b.back;
  splits = ap (λ t. c ∷ t) b.splits;
  blank = b.blank;
  ends = λ rest e p. cons_end c d t rest e b.ends p;
}

trim_back-Backed : (raw : Bytes) → Backed raw (trim_back raw)
unfolding trim_back
trim_back-Backed [] = record { back = []; splits = refl; blank = tt; ends = nil_end }
trim_back-Backed (c ∷ s) = trim_byte-Backed c s (trim_back s) (trim_back-Backed s)

trim_back-starts :
    (s : Bytes)
    → ((c : ℕ) (rest : Bytes) → s ≡ c ∷ rest → is_blank c ≡ false)
    → (c : ℕ) (rest : Bytes) → trim_back s ≡ c ∷ rest
    → is_blank c ≡ false
unfolding trim_back
trim_back-starts [] h c rest e = ground (arith, e)
trim_back-starts (d ∷ s) h c rest e = kept (trim_back s) e
  where
    kept : (t : Bytes) → trim_byte d t ≡ c ∷ rest → is_blank c ≡ false
    kept [] p = ground (arith, h d s refl, p)
    kept (x ∷ t) p = ground (arith, h d s refl, p)

pub trim-Trims : (raw : Bytes) → Trims raw (trim raw)
unfolding trim
trim-Trims raw =
    let f = trim_front-Fronted raw in
    let b = trim_back-Backed (trim_front raw) in
    record {
      front = f.front;
      back = b.back;
      splits = f.splits ∙ ap (λ t. f.front ++ t) b.splits;
      front-IsBlank = f.blank;
      back-IsBlank = b.blank;
      starts = trim_back-starts (trim_front raw) f.starts;
      ends = b.ends;
    }
