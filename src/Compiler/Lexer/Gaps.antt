-- ===== src/Compiler/Lexer/Gaps.antt =====
-- src/compiler/Lexer.cpp: blanks and comments, and what one byte between tokens begins.
use amlp.Base.{
  ℕ, Bool, true, false, ◌==◌, ◌&&◌, ◌||◌, [], ◌∷◌, ◌≡◌, refl, sym, ap, ◌∙◌, Bytes, arith,
  Bool-cases, inl, inr, none, some,
}
use amlp.Compiler.Lexer.{between, line_comment, opening, skip_byte, peek}

abbrev pub is_blank : ℕ → Bool
is_blank c = c == b' ' || (c == b'\t' || (c == b'\r' || c == b'\n'))

-- The text behind `//` up to its newline, or up to the end, and what is behind it.
pub data LineComment : Bytes → Bytes → Type 0 where
  to_end : LineComment [] []
  to_newline : (after : Bytes) → LineComment (b'\n' ∷ after) after
  over :
      (c : ℕ) (text after : Bytes)
      → (c == b'\n') ≡ false
      → LineComment text after
      → LineComment (c ∷ text) after

-- The text behind `/*` up to the first `*/`, or up to the end, and what is behind it.
pub data BlockComment : Bytes → Bytes → Type 0 where
  unclosed : BlockComment [] []
  closed : (after : Bytes) → BlockComment (b'*' ∷ b'/' ∷ after) after
  over :
      (c : ℕ) (text after : Bytes)
      → ((later : Bytes) → ¬ (c ∷ text ≡ b'*' ∷ b'/' ∷ later))
      → BlockComment text after
      → BlockComment (c ∷ text) after

-- From `source` to `left` there are blanks and comments only, and no more of them follow.
pub data Gap : Bytes → Bytes → Type 0 where
  no_gap :
      (left : Bytes)
      → ((c : ℕ) (rest : Bytes) → left ≡ c ∷ rest → is_blank c ≡ false)
      → ((rest : Bytes) → ¬ (left ≡ b'/' ∷ b'/' ∷ rest))
      → ((rest : Bytes) → ¬ (left ≡ b'/' ∷ b'*' ∷ rest))
      → Gap left left
  blank : (c : ℕ) (rest left : Bytes) → is_blank c ≡ true → Gap rest left → Gap (c ∷ rest) left
  line_gap :
      (text after left : Bytes)
      → LineComment text after
      → Gap after left
      → Gap (b'/' ∷ b'/' ∷ text) left
  block_gap :
      (text after left : Bytes)
      → BlockComment text after
      → Gap after left
      → Gap (b'/' ∷ b'*' ∷ text) left

pub Gap-nil : Gap [] []
Gap-nil = no_gap [] (λ c rest e. cc e) (λ rest e. cc e) (λ rest e. cc e)

-- What `skip_byte` does between tokens.
pub data Beginning (c : ℕ) (rest : Bytes) : Type 0 where
  at_blank : is_blank c ≡ true → skip_byte between c rest ≡ some between → Beginning c rest
  at_line :
      c ≡ b'/' → peek rest ≡ b'/' → skip_byte between c rest ≡ some line_comment → Beginning c rest
  at_block :
      c ≡ b'/' → peek rest ≡ b'*' → skip_byte between c rest ≡ some opening → Beginning c rest
  at_token :
      is_blank c ≡ false
      → (c == b'/' && peek rest == b'/') ≡ false
      → (c == b'/' && peek rest == b'*') ≡ false
      → skip_byte between c rest ≡ none
      → Beginning c rest

pub both_bytes : (c d k l : ℕ) → (c == k && d == l) ≡ true → (c ≡ k) × (d ≡ l)
both_bytes c d k l h = ground (arith, h)

pub skip_byte-between : (c : ℕ) (rest : Bytes) → Beginning c rest
unfolding skip_byte
skip_byte-between c rest = elim (Bool-cases (is_blank c)) [
  | inl h ↦ at_blank h (rw (h, skip_byte) refl)
  | inr h ↦ elim (Bool-cases (c == b'/' && peek rest == b'/')) [
    | inl k ↦
        let p = both_bytes c (peek rest) b'/' b'/' k in at_line p.0 p.1 (rw (h, k, skip_byte) refl)
    | inr k ↦ elim (Bool-cases (c == b'/' && peek rest == b'*')) [
      | inl l ↦
          let p = both_bytes c (peek rest) b'/' b'*' l in
          at_block p.0 p.1 (rw (h, k, l, skip_byte) refl)
      | inr l ↦ at_token h k l (rw (h, k, l, skip_byte) refl)
    ]
  ]
]

pair_ne :
    (c k : ℕ) (rest : Bytes)
    → (c == b'/' && peek rest == k) ≡ false
    → (later : Bytes) → ¬ (c ∷ rest ≡ b'/' ∷ k ∷ later)
pair_ne c k [] h later e = cc e
pair_ne c k (d ∷ rest) h later e = ground (arith, h, e)

pub token-Gap :
    (c : ℕ) (rest : Bytes)
    → is_blank c ≡ false
    → (c == b'/' && peek rest == b'/') ≡ false
    → (c == b'/' && peek rest == b'*') ≡ false
    → Gap (c ∷ rest) (c ∷ rest)
token-Gap c rest h k l =
    no_gap (c ∷ rest) (λ d more e. ap is_blank (sym (head_of d more e)) ∙ h)
      (λ later e. pair_ne c b'/' rest k later e) (λ later e. pair_ne c b'*' rest l later e)
  where
    head_of : (d : ℕ) (more : Bytes) → c ∷ rest ≡ d ∷ more → c ≡ d
    head_of d more e = cc e

pub closed_ne :
    (c : ℕ) (rest : Bytes)
    → (c == b'*' && peek rest == b'/') ≡ false
    → (later : Bytes) → ¬ (c ∷ rest ≡ b'*' ∷ b'/' ∷ later)
closed_ne c [] h later e = cc e
closed_ne c (d ∷ rest) h later e = ground (arith, h, e)
