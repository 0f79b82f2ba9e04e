-- ===== src/Compiler/Lexer/Round.antt =====
-- src/compiler/Lexer.cpp: the pieces of heredocs, and of one round of `tokenize`.
use amlp.Compiler.Lexer.Symbols.{lex_hash_quote}
use mathlib.Core.Path.{ap₂, subst}
use mathlib.Core.Option
use amlp.Base.{
  ==_refl, ◌≢◌, ℕ, Bool, true, false, not, ◌==◌, ◌&&◌, [], ◌∷◌, ◌++◌, ◌≡◌, refl, sym, ap, ◌∙◌,
  Bytes, All, arith, case, ◌$◌, Bool-cases, inl, inr, length, Option, none, some, Option-cases,
  append_assoc, ==_iff,
}
use amlp.Base.Decimal.{is_digit}
use amlp.Base.Result.{returned}
use amlp.Dialect.{LpcDialect}
use amlp.Compiler.Lexer.{
  token, Lexer, string, is_word, is_word_start, peek, line_after, advance, read_while, read_run,
}
use amlp.Compiler.Lexer.Steps.{at}
use amlp.Compiler.Lexer.Words.{lex_lambda_param, lex_number}
use amlp.Compiler.Lexer.Literals.{
  lex_char, lex_quote, lex_string, Lexed, is_prefix, advance_by, heredoc_body, finish_heredoc,
  lex_heredoc,
}
use amlp.Compiler.Lexer.Tokenize.{is_ld_mud, is_symbol, lex_token}
use amlp.Compiler.Lexer.Spelling.{
  Heredoc, closes, byte, Cuts, as_heredoc, read_while-splits, lex_ident_or_keyword-IsCut,
}
use amlp.Compiler.Lexer.Cutting.{
  lex_number-IsCut, lex_number-IsCut_point, lex_lambda_param-IsCut, lex_symbol-IsCut,
  lex_hash_quote-IsCut,
}
use amlp.Compiler.Lexer.Closing.{lex_string-Cuts, lex_char-Cuts, lex_quote-Cuts}

is_prefix-append : (t after : Bytes) → is_prefix t (t ++ after) ≡ true
unfolding is_prefix
is_prefix-append [] after = refl
is_prefix-append (c ∷ t) after = rw (==_refl c, is_prefix-append t after) refl

is_prefix-splits :
    (t text : Bytes) → is_prefix t text ≡ true → (after : Bytes) × (text ≡ t ++ after)
unfolding is_prefix
is_prefix-splits [] text h = (text, refl)
is_prefix-splits (p ∷ t) [] h = cc h
is_prefix-splits (p ∷ t) (c ∷ text) h =
    let both : ((p == c) ≡ true) × (is_prefix t text ≡ true) = ground (arith, h) in
    let (after, e) = is_prefix-splits t text both.1 in
    (after, ap₂ (λ x r. x ∷ r) (sym ((==_iff p c).0 both.0)) e)

-- What the loop of `lexHeredoc` finds.
abbrev Finds : Bytes → Bool → Bytes → Option (Bytes × Bytes × ℕ) → Type 0
Finds t start rest none = Unit
Finds t start rest (some (value, left, last)) =
    (body : Bytes) × (after : Bytes) × (left ≡ t ++ after)
    × (rest ≡ body ++ after)
    × Heredoc t start body value

Finds-byte :
    (t : Bytes) (start : Bool) (c : ℕ) (rest : Bytes) (o : Option (Bytes × Bytes × ℕ))
    → (start && is_prefix t (c ∷ rest)) ≡ false
    → Finds t (c == b'\n') rest o
    → Finds t start (c ∷ rest) (Option.map (λ (value, left, last). (c ∷ value, left, last)) o)
Finds-byte t start c rest none h f = tt
Finds-byte t start c rest (some (value, left, last)) h (body, after, e, s, k) = (
  c ∷ body,
  after,
  e,
  ap (λ r. c ∷ r) s,
  byte start c body value
      (λ b more p.
        let whole : c ∷ rest ≡ t ++ (more ++ after) =
          ap (λ r. c ∷ r) s ∙ ap (λ r. r ++ after) p ∙ append_assoc t more after in
        let prefix : is_prefix t (c ∷ rest) ≡ true =
          ap (is_prefix t) whole ∙ is_prefix-append t (more ++ after) in
        cc (rw (b, prefix) at h))
      k,
)

heredoc_body-Finds :
    (t : Bytes) (start : Bool) (rest : Bytes) (line : ℕ)
    → Finds t start rest (heredoc_body t start rest line)
unfolding heredoc_body
heredoc_body-Finds t start [] line = tt
heredoc_body-Finds t start (c ∷ rest) line = elim (Bool-cases (start && is_prefix t (c ∷ rest))) [
  | inl h ↦
      let both : (start ≡ true) × (is_prefix t (c ∷ rest) ≡ true) = ground (arith, h) in
      let (after, e) = is_prefix-splits t (c ∷ rest) both.1 in
      rw h (t, after, e, e, subst (λ b. Heredoc t b t []) (sym both.0) closes)
  | inr h ↦
      rw h
        (Finds-byte t start c rest _ h (heredoc_body-Finds t (c == b'\n') rest (line_after c line)))
]

advance_by-rest :
    (t after : Bytes) (y : Lexer) → y.rest ≡ t ++ after → (advance_by (length t) y).rest ≡ after
unfolding advance
advance_by-rest [] after y h = h
advance_by-rest (c ∷ t) after y h = advance_by-rest t after (advance y) (rw h refl)

-- A run to the end of the line: no newline in it, and one behind it if anything is.
abbrev IsLine : Bytes → Bytes → Type 0
IsLine text [] = All (λ c. (c == b'\n') ≡ false) text
IsLine text (c ∷ _) = All (λ c. (c == b'\n') ≡ false) text × (c ≡ b'\n')

IsLine-cons :
    (c : ℕ) (text left : Bytes) → (c == b'\n') ≡ false → IsLine text left → IsLine (c ∷ text) left
IsLine-cons c text [] h k = (h, k)
IsLine-cons c text (q ∷ left) h k = ((h, k.0), k.1)

read_while-IsLine :
    (rest : Bytes) (line : ℕ)
    → IsLine
        (read_while (λ c. not (c == b'\n')) rest line).0
        (read_while (λ c. not (c == b'\n')) rest line).1
unfolding read_while
read_while-IsLine [] line = tt
read_while-IsLine (c ∷ rest) line = elim (Bool-cases (c == b'\n')) [
  | inl h ↦ rw h (tt, (==_iff c b'\n').0 h)
  | inr h ↦ rw h (IsLine-cons c _ _ h (read_while-IsLine rest line))
]

found-Cuts :
    (t rest tail : Bytes) (q line : ℕ) (z : Lexer) (value left : Bytes) (last : ℕ)
    → t ≢ []
    → IsLine t (q ∷ tail)
    → rest ≡ t ++ q ∷ tail
    → Finds t true tail (some (value, left, last))
    → Cuts b'@' rest (
        returned
          (token string value line, advance_by (length t) (record z { rest = left; line = last })))
found-Cuts t rest tail q line z value left last n k s (body, after, e, s', h) = record {
  taken = t ++ b'\n' ∷ body;
  splits =
      s
      ∙ ap₂ (λ x r. t ++ x ∷ r) k.1 s'
      ∙ sym (append_assoc t (b'\n' ∷ body) after)
      ∙ ap (λ r. (t ++ b'\n' ∷ body) ++ r)
          (sym (advance_by-rest t after (record z { rest = left; line = last }) e));
  spelled = as_heredoc t body refl k.0 n h refl;
}

finish_heredoc-Cuts :
    (t rest left : Bytes) (line l : ℕ) (d : LpcDialect)
    → IsLine t left
    → rest ≡ t ++ left
    → Cuts b'@' rest (finish_heredoc t line left (at left l d))
unfolding finish_heredoc advance
finish_heredoc-Cuts [] rest left line l d k s = tt
finish_heredoc-Cuts (t ∷ ts) rest [] line l d k s = tt
finish_heredoc-Cuts (t ∷ ts) rest (q ∷ tail) line l d k s =
    let f = heredoc_body-Finds (t ∷ ts) true tail (line_after q l) in
    elim (Option-cases (heredoc_body (t ∷ ts) true tail (line_after q l))) [
      | inl h ↦ rw (h, finish_heredoc) tt
      | inr ((value, left, last), h) ↦
          rw (h, finish_heredoc)
            (found-Cuts (t ∷ ts) rest tail q line (at tail (line_after q l) d) value left last
              (λ e. cc e) k s (rw h at f))
    ]

lex_heredoc-Cuts :
    (rest : Bytes) (line : ℕ) (d : LpcDialect)
    → Cuts b'@' rest (lex_heredoc (at (b'@' ∷ rest) line d))
unfolding lex_heredoc advance read_run
lex_heredoc-Cuts rest line d =
    case (Cuts b'@' rest) (peek rest == b'@') (λ _. tt)
      (finish_heredoc-Cuts _ rest _ line _ d (read_while-IsLine rest line)
        (read_while-splits (λ c. not (c == b'\n')) rest line))

at_byte :
    (c k : ℕ) (rest : Bytes) (line : ℕ) (d : LpcDialect) (f : Lexer → Lexed)
    → (c == k) ≡ true
    → Cuts k rest (f (at (k ∷ rest) line d))
    → Cuts c rest (f (at (c ∷ rest) line d))
at_byte c k rest line d f h g =
    subst (λ x. Cuts x rest (f (at (x ∷ rest) line d))) (sym ((==_iff c k).0 h)) g

word_byte : (c : ℕ) → is_word_start c ≡ true → is_word c ≡ true
word_byte c h = ground arith

left_of : (a b : Bool) → (a && b) ≡ true → (a ≡ true) × (b ≡ true)
left_of a b h = ground arith

-- One round at the byte `c` takes a piece that spells its token.
pub lex_token-Cuts :
    (c : ℕ) (rest : Bytes) (line : ℕ) (d : LpcDialect)
    → Cuts c rest (lex_token (at (c ∷ rest) line d))
unfolding lex_token
lex_token-Cuts c rest line d =
    case (Cuts c rest) (is_word_start c)
      (λ h. lex_ident_or_keyword-IsCut c rest line d (word_byte c h))
    $ case (Cuts c rest) (is_digit c) (λ h. lex_number-IsCut c rest line d h)
    $ case (Cuts c rest) (c == b'.' && is_digit (peek rest)) (λ h.
      let both = left_of (c == b'.') (is_digit (peek rest)) h in
      at_byte c b'.' rest line d (λ x. returned (lex_number x)) both.0
        (lex_number-IsCut_point rest line d both.1))
    $ case (Cuts c rest) (c == b'"')
        (λ h. at_byte c b'"' rest line d lex_string h (lex_string-Cuts rest line d))
    $ case (Cuts c rest) (c == b'\'') (λ h.
      case (Cuts c rest) (is_ld_mud d)
        (λ _. at_byte c b'\'' rest line d lex_quote h (lex_quote-Cuts rest line d))
        (at_byte c b'\'' rest line d lex_char h (lex_char-Cuts rest line d)))
    $ case (Cuts c rest) (c == b'#' && is_ld_mud d && peek rest == b'\'') (λ h.
      let both = left_of (c == b'#' && is_ld_mud d) (peek rest == b'\'') h in
      at_byte c b'#' rest line d (λ x. returned (lex_hash_quote x))
        (left_of (c == b'#') (is_ld_mud d) both.0).0 (lex_hash_quote-IsCut rest line d both.1))
    $ case (Cuts c rest) (c == b'@')
        (λ h. at_byte c b'@' rest line d lex_heredoc h (lex_heredoc-Cuts rest line d))
    $ case (Cuts c rest) (c == b'$') (λ h.
      at_byte c b'$' rest line d (λ x. returned (lex_lambda_param x)) h
        (lex_lambda_param-IsCut rest line d))
    $ case (Cuts c rest) (is_symbol c) (λ _. lex_symbol-IsCut c rest line d) tt
