-- ===== src/Compiler/Lexer/Skipping.antt =====
-- src/compiler/Lexer.cpp: what `skipWhitespaceAndComments` takes.
use mathlib.Core.Path.{ap₂, subst}
use amlp.Base.{
  ℕ, true, false, ◌==◌, ◌&&◌, [], ◌∷◌, ◌≡◌, refl, sym, ◌∙◌, Bytes, arith, Bool-cases, inl, inr,
  none, some, ==_iff,
}
use amlp.Compiler.Lexer.{
  Lexer, SkipMode, between, line_comment, block_comment, opening, closing, skip_byte, skip, peek,
  line_after, skip_whitespace_and_comments,
}
use amlp.Compiler.Lexer.Gaps.{
  Gap, LineComment, BlockComment, blank, line_gap, block_gap, at_blank, at_line, at_block, at_token,
  Gap-nil, both_bytes, skip_byte-between, token-Gap, closed_ne,
}

slash_other : (d : ℕ) → d ≡ b'/' → (d == b'\n') ≡ false
slash_other d h = ground (arith, h)

line_comment-newline :
    (c : ℕ) (rest : Bytes) → (c == b'\n') ≡ true → skip_byte line_comment c rest ≡ some between
unfolding skip_byte
line_comment-newline c rest h = rw h refl

line_comment-other :
    (c : ℕ) (rest : Bytes)
    → (c == b'\n') ≡ false
    → skip_byte line_comment c rest ≡ some line_comment
unfolding skip_byte
line_comment-other c rest h = rw h refl

block_comment-closing :
    (c : ℕ) (rest : Bytes)
    → (c == b'*' && peek rest == b'/') ≡ true
    → skip_byte block_comment c rest ≡ some closing
unfolding skip_byte
block_comment-closing c rest h = rw h refl

block_comment-other :
    (c : ℕ) (rest : Bytes)
    → (c == b'*' && peek rest == b'/') ≡ false
    → skip_byte block_comment c rest ≡ some block_comment
unfolding skip_byte
block_comment-other c rest h = rw h refl

opening-any : (d : ℕ) (rest : Bytes) → skip_byte opening d rest ≡ some block_comment
unfolding skip_byte
opening-any d rest = refl

closing-any : (d : ℕ) (rest : Bytes) → skip_byte closing d rest ≡ some between
unfolding skip_byte
closing-any d rest = refl

skip-next :
    (m n : SkipMode) (c : ℕ) (rest : Bytes) (l : ℕ)
    → skip_byte m c rest ≡ some n
    → (skip m (c ∷ rest) l).0 ≡ (skip n rest (line_after c l)).0
unfolding skip
skip-next m n c rest l e = rw (e, skip) refl

skip-stop :
    (m : SkipMode) (c : ℕ) (rest : Bytes) (l : ℕ)
    → skip_byte m c rest ≡ none
    → (skip m (c ∷ rest) l).0 ≡ c ∷ rest
unfolding skip
skip-stop m c rest l e = rw (e, skip) refl

skip-nil : (m : SkipMode) (l : ℕ) → (skip m [] l).0 ≡ []
unfolding skip
skip-nil m l = refl

skip_nil-Gap : (m : SkipMode) (l : ℕ) → Gap [] (skip m [] l).0
skip_nil-Gap m l = subst (Gap []) (sym (skip-nil m l)) Gap-nil

-- Of a comment: its end, and the gap behind it.
abbrev Commented : (Bytes → Bytes → Type 0) → Bytes → Bytes → Type 0
Commented P rest left = (after : Bytes) × P rest after × Gap after left

mutual
  between-Gap : (rest : Bytes) (l : ℕ) → Gap rest (skip between rest l).0
  between-Gap [] l = skip_nil-Gap between l
  between-Gap (c ∷ []) l = elim (skip_byte-between c []) [
    | at_blank h e ↦
        subst (Gap (c ∷ [])) (sym (skip-next between between c [] l e))
          (blank c [] _ h (skip_nil-Gap between (line_after c l)))
    | at_line h k e ↦ cc k
    | at_block h k e ↦ cc k
    | at_token h k m e ↦
        subst (Gap (c ∷ [])) (sym (skip-stop between c [] l e)) (token-Gap c [] h k m)
  ]
  between-Gap (c ∷ d ∷ rest) l = elim (skip_byte-between c (d ∷ rest)) [
    | at_blank h e ↦
        subst (Gap (c ∷ d ∷ rest)) (sym (skip-next between between c (d ∷ rest) l e))
          (blank c (d ∷ rest) _ h (between-Gap (d ∷ rest) (line_after c l)))
    | at_line h k e ↦
        let l' = line_after c l in
        let w = line-Commented rest (line_after d l') in
        let f = line_comment-other d rest (slash_other d k) in
        subst (Gap (c ∷ d ∷ rest))
          (sym (
            skip-next between line_comment c (d ∷ rest) l e
            ∙ skip-next line_comment line_comment d rest l' f))
          (subst (λ x. Gap x (skip line_comment rest (line_after d l')).0)
            (sym (ap₂ (λ x y. x ∷ y ∷ rest) h k)) (line_gap rest w.0 _ w.1 w.2))
    | at_block h k e ↦
        let l' = line_after c l in
        let w = block-Commented rest (line_after d l') in
        subst (Gap (c ∷ d ∷ rest))
          (sym (
            skip-next between opening c (d ∷ rest) l e
            ∙ skip-next opening block_comment d rest l' (opening-any d rest)))
          (subst (λ x. Gap x (skip block_comment rest (line_after d l')).0)
            (sym (ap₂ (λ x y. x ∷ y ∷ rest) h k)) (block_gap rest w.0 _ w.1 w.2))
    | at_token h k m e ↦
        subst (Gap (c ∷ d ∷ rest)) (sym (skip-stop between c (d ∷ rest) l e))
          (token-Gap c (d ∷ rest) h k m)
  ]

  line-Commented : (rest : Bytes) (l : ℕ) → Commented LineComment rest (skip line_comment rest l).0
  line-Commented [] l = ([], LineComment.to_end, skip_nil-Gap line_comment l)
  line-Commented (c ∷ rest) l = elim (Bool-cases (c == b'\n')) [
    | inl h ↦
        subst (Commented LineComment (c ∷ rest))
          (sym (skip-next line_comment between c rest l (line_comment-newline c rest h)))
          (
            rest,
            subst (λ x. LineComment (x ∷ rest) rest) (sym ((==_iff c b'\n').0 h))
                (LineComment.to_newline rest),
            between-Gap rest (line_after c l),
          )
    | inr h ↦
        let w = line-Commented rest (line_after c l) in
        subst (Commented LineComment (c ∷ rest))
          (sym (skip-next line_comment line_comment c rest l (line_comment-other c rest h)))
          (w.0, LineComment.over c rest w.0 h w.1, w.2)
  ]

  block-Commented :
      (rest : Bytes) (l : ℕ) → Commented BlockComment rest (skip block_comment rest l).0
  block-Commented [] l = ([], BlockComment.unclosed, skip_nil-Gap block_comment l)
  block-Commented (c ∷ []) l = elim (Bool-cases (c == b'*' && 0 == b'/')) [
    | inl h ↦ absurd (ground (arith, h))
    | inr h ↦
        let w = block-Commented [] (line_after c l) in
        subst (Commented BlockComment (c ∷ []))
          (sym (skip-next block_comment block_comment c [] l (block_comment-other c [] h)))
          (w.0, BlockComment.over c [] w.0 (closed_ne c [] h) w.1, w.2)
  ]
  block-Commented (c ∷ d ∷ rest) l = elim (Bool-cases (c == b'*' && d == b'/')) [
    | inl h ↦
        let p = both_bytes c d b'*' b'/' h in
        let l' = line_after c l in
        subst (Commented BlockComment (c ∷ d ∷ rest))
          (sym (
            skip-next block_comment closing c (d ∷ rest) l (block_comment-closing c (d ∷ rest) h)
            ∙ skip-next closing between d rest l' (closing-any d rest)))
          (
            rest,
            subst (λ x. BlockComment x rest) (sym (ap₂ (λ x y. x ∷ y ∷ rest) p.0 p.1))
                (BlockComment.closed rest),
            between-Gap rest (line_after d l'),
          )
    | inr h ↦
        let w = block-Commented (d ∷ rest) (line_after c l) in
        subst (Commented BlockComment (c ∷ d ∷ rest))
          (sym (
            skip-next block_comment block_comment c (d ∷ rest) l
              (block_comment-other c (d ∷ rest) h)))
          (w.0, BlockComment.over c (d ∷ rest) w.0 (closed_ne c (d ∷ rest) h) w.1, w.2)
  ]

pub skip_whitespace_and_comments-Gap :
    (x : Lexer) → Gap x.rest (skip_whitespace_and_comments x).rest
unfolding skip_whitespace_and_comments
skip_whitespace_and_comments-Gap x = between-Gap x.rest x.line
