-- ===== src/Compiler/Lexer/Scanning.antt =====
-- src/compiler/Lexer.cpp: the token functions that may throw, and the round of `tokenize`, take a
-- piece of the source that is not empty.
use mathlib.Core.Option
use mathlib.Core.Path.{subst}
use amlp.Base.{
  ℕ, zero, suc, Bool, true, false, ◌&&◌, not, [], ◌∷◌, Option, none, some, ◌≡◌, refl, sym, inl, inr,
  Bool-cases, Option-cases, ◌==◌, if◌then◌else◌, Bytes, length, arith,
}
use amlp.Base.Decimal.{is_digit}
use amlp.Base.Result.{returned, thrown}
use amlp.Dialect.{LpcDialect}
use amlp.Compiler.Lexer.{
  Token, Lexer, LexError, unterminated_string, unterminated_char, not_one_char, missing_terminator,
  unterminated_heredoc, unrecognized, array_block, out_of_fuel, is_word, is_word_start, peek,
  line_after, advance, read_run,
}
use amlp.Compiler.Lexer.Steps.{
  Eats, Eats-none, Eats-cons, Steps, Steps-trans, at, advance-Steps, read_run-Steps,
}
use amlp.Compiler.Lexer.Progress.{
  Follows, lex_ident_or_keyword-Follows, lex_number-Follows, lex_number-Follows_point,
  lex_lambda_param-Follows, lex_symbol-Follows, lex_hash_quote-Follows,
}
use amlp.Compiler.Lexer.Words.{lex_number}
use amlp.Compiler.Lexer.Literals.{
  Lexed, is_nil, opens_escape, unescape, string_body, finish_string, lex_string, finish_char,
  char_body, lex_char, is_prefix, advance_by, heredoc_body, finish_heredoc, lex_heredoc, lex_quote,
}
use amlp.Compiler.Lexer.Tokenize.{is_ld_mud, is_symbol, lex_token}

advance_by-Steps : {base : Lexer} (n : ℕ) (y : Lexer) → Steps base y → Steps base (advance_by n y)
advance_by-Steps zero y s = s
advance_by-Steps (suc n) y s = advance_by-Steps n (advance y) (Steps-trans s (advance-Steps y))

Steps-if :
    {base : Lexer} (b : Bool) {u v : Lexer}
    → Steps base u
    → Steps base v
    → Steps base (if b then u else v)
Steps-if true s t = s
Steps-if false s t = t

-- The line that an error names.
abbrev pub ErrorAt : ℕ → LexError → Type 0
ErrorAt line (unterminated_string l) = l ≡ line
ErrorAt line (unterminated_char l) = l ≡ line
ErrorAt line (not_one_char l) = l ≡ line
ErrorAt line (missing_terminator l) = l ≡ line
ErrorAt line (unterminated_heredoc _ l) = l ≡ line
ErrorAt line (unrecognized _ l) = l ≡ line
ErrorAt line array_block = Unit
ErrorAt line out_of_fuel = ⊥

pub data Yields (base : Lexer) (line : ℕ) : Lexed → Type 0 where
  yields : {r : Token × Lexer} → Follows base line r → Yields base line (returned r)
  throws : {e : LexError} → ErrorAt line e → Yields base line (thrown e)

module _ {base : Lexer} {line : ℕ} where
  Yields-if :
      (b : Bool) {u v : Lexed}
      → (b ≡ true → Yields base line u)
      → (b ≡ false → Yields base line v)
      → Yields base line (if b then u else v)
  Yields-if true f g = f refl
  Yields-if false f g = g refl

  finish_string-Yields :
      (value left : Bytes) (y : Lexer)
      → Steps base y
      → Yields base line (finish_string value left line y)
  unfolding finish_string
  finish_string-Yields value [] y s = throws refl
  finish_string-Yields value (_ ∷ _) y s =
      yields (record { steps = Steps-trans s (advance-Steps y); stamped = refl })

  finish_char-Yields :
      (code : ℕ) (left : Bytes) (y : Lexer)
      → Steps base y
      → Yields base line (finish_char code line left y)
  unfolding finish_char
  finish_char-Yields code [] y s = throws refl
  finish_char-Yields code (q ∷ _) y s =
      Yields-if (q == b'\'')
        (λ _. yields (record { steps = Steps-trans s (advance-Steps y); stamped = refl }))
        (λ _. throws refl)

string_body-Eats :
    (escaped : Bool) (rest : Bytes) (line : ℕ)
    → Eats rest line (string_body escaped rest line).1 (string_body escaped rest line).2
unfolding string_body
string_body-Eats escaped [] line = Eats-none [] line
string_body-Eats escaped (c ∷ rest) line =
    let later = string_body-Eats (opens_escape escaped c rest) rest (line_after c line) in
    elim (Bool-cases (not escaped && c == b'"')) [
      | inl h ↦ rw h (Eats-none (c ∷ rest) line)
      | inr h ↦ elim (Bool-cases (opens_escape escaped c rest)) [
        | inl o ↦ rw (h, o) (Eats-cons c (rw o at later))
        | inr o ↦ rw (h, o) (Eats-cons c (rw o at later))
      ]
    ]

pub lex_string-Yields :
    (c : ℕ) (rest : Bytes) (line : ℕ) (d : LpcDialect)
    → Yields (at rest (line_after c line) d) line (lex_string (at (c ∷ rest) line d))
unfolding lex_string
lex_string-Yields c rest line d =
    let y = at rest (line_after c line) d in
    finish_string-Yields _ _ _
      (record { eats = string_body-Eats false rest (line_after c line); dialect = refl })

char_body-Yields : (rest : Bytes) (line : ℕ) (y : Lexer) → Yields y line (char_body rest line y)
unfolding char_body
char_body-Yields [] line y = throws refl
char_body-Yields (c ∷ rest) line y =
    let escaped = c == b'\\' && not (is_nil rest) in
    let z = if escaped then advance (advance y) else advance y in
    let one = advance-Steps y in
    finish_char-Yields (if escaped then unescape (peek rest) else c) z.rest z
      (Steps-if escaped (Steps-trans one (advance-Steps (advance y))) one)

pub lex_char-Yields :
    (c : ℕ) (rest : Bytes) (line : ℕ) (d : LpcDialect)
    → Yields (at rest (line_after c line) d) line (lex_char (at (c ∷ rest) line d))
unfolding lex_char
lex_char-Yields c rest line d = char_body-Yields rest line (at rest (line_after c line) d)

abbrev EatsSome : Bytes → ℕ → Option (Bytes × Bytes × ℕ) → Type 0
EatsSome rest line none = Unit
EatsSome rest line (some (_, left, last)) = Eats rest line left last

EatsSome-cons :
    (c : ℕ) (rest : Bytes) (line : ℕ) (o : Option (Bytes × Bytes × ℕ))
    → EatsSome rest (line_after c line) o
    → EatsSome (c ∷ rest) line (Option.map (λ (value, left, last). (c ∷ value, left, last)) o)
EatsSome-cons c rest line none h = tt
EatsSome-cons c rest line (some _) h = Eats-cons c h

heredoc_body-EatsSome :
    (terminator : Bytes) (start : Bool) (rest : Bytes) (line : ℕ)
    → EatsSome rest line (heredoc_body terminator start rest line)
unfolding heredoc_body
heredoc_body-EatsSome terminator start [] line = tt
heredoc_body-EatsSome terminator start (c ∷ rest) line =
    elim (Bool-cases (start && is_prefix terminator (c ∷ rest))) [
      | inl h ↦ rw h (Eats-none (c ∷ rest) line)
      | inr h ↦ rw h (
          EatsSome-cons c rest line _
            (heredoc_body-EatsSome terminator (c == b'\n') rest (line_after c line)))
    ]

finish_heredoc-Yields :
    {base : Lexer} {line : ℕ} (terminator left : Bytes) (y : Lexer)
    → Steps base y
    → Yields base line (finish_heredoc terminator line left y)
unfolding finish_heredoc
finish_heredoc-Yields [] left y s = throws refl
finish_heredoc-Yields (_ ∷ _) [] y s = throws refl
finish_heredoc-Yields (t ∷ ts) (_ ∷ _) y s =
    let z = advance y in
    let e = heredoc_body-EatsSome (t ∷ ts) true z.rest z.line in
    elim (Option-cases (heredoc_body (t ∷ ts) true z.rest z.line)) [
      | inl h ↦ rw (h, finish_heredoc) (throws refl)
      | inr ((value, left, last), h) ↦
          let body : Steps z (record z { rest = left; line = last }) = record {
            eats = rw h at e;
            dialect = refl;
          } in
          rw (h, finish_heredoc)
            (yields (record {
              steps =
                  advance_by-Steps (length (t ∷ ts)) _
                    (Steps-trans (Steps-trans s (advance-Steps y)) body);
              stamped = refl;
            }))
    ]

pub lex_heredoc-Yields :
    (c : ℕ) (rest : Bytes) (line : ℕ) (d : LpcDialect)
    → Yields (at rest (line_after c line) d) line (lex_heredoc (at (c ∷ rest) line d))
unfolding lex_heredoc
lex_heredoc-Yields c rest line d =
    let y = at rest (line_after c line) d in
    let run = read_run (λ c. not (c == b'\n')) y in
    Yields-if (peek rest == b'@') (λ _. throws tt)
      (λ _. finish_heredoc-Yields run.0 run.1.rest run.1 (read_run-Steps _ y))

pub lex_quote-Yields :
    (c : ℕ) (rest : Bytes) (line : ℕ) (d : LpcDialect)
    → Yields (at rest (line_after c line) d) line (lex_quote (at (c ∷ rest) line d))
unfolding lex_quote
lex_quote-Yields c rest line d =
    let y = at rest (line_after c line) d in
    let run = read_run is_word y in
    Yields-if (is_word_start (peek rest) && not (length run.0 == 1 && peek run.1.rest == b'\''))
      (λ _. yields (record { steps = read_run-Steps is_word y; stamped = refl }))
      (λ _. lex_char-Yields c rest line d)

is_word_start→is_word : (c : ℕ) → is_word_start c ≡ true → is_word c ≡ true
is_word_start→is_word c h = ground arith

point_of : (c d : ℕ) → (c == b'.' && is_digit d) ≡ true → (c ≡ b'.') × (is_digit d ≡ true)
point_of c d h = ground arith

pub lex_token-Yields :
    (c : ℕ) (rest : Bytes) (line : ℕ) (d : LpcDialect)
    → Yields (at rest (line_after c line) d) line (lex_token (at (c ∷ rest) line d))
unfolding lex_token
lex_token-Yields c rest line d =
    Yields-if (is_word_start c)
      (λ h. yields (lex_ident_or_keyword-Follows c rest line d (is_word_start→is_word c h)))
      λ _.
        Yields-if (is_digit c) (λ h. yields (lex_number-Follows c rest line d h))
          λ _.
            Yields-if (c == b'.' && is_digit (peek rest))
              (λ h.
                let (e, k) = point_of c (peek rest) h in
                subst
                  (λ b.
                    Yields (at rest (line_after b line) d) line
                      (returned (lex_number (at (b ∷ rest) line d))))
                  (sym e) (yields (lex_number-Follows_point rest line d k)))
              λ _.
                Yields-if (c == b'"') (λ _. lex_string-Yields c rest line d)
                  λ _.
                    Yields-if (c == b'\'')
                      (λ _.
                        Yields-if (is_ld_mud d) (λ _. lex_quote-Yields c rest line d)
                          (λ _. lex_char-Yields c rest line d))
                      λ _.
                        Yields-if (c == b'#' && is_ld_mud d && peek rest == b'\'')
                          (λ _. yields (lex_hash_quote-Follows c rest line d))
                          λ _.
                            Yields-if (c == b'@') (λ _. lex_heredoc-Yields c rest line d)
                              λ _.
                                Yields-if (c == b'$')
                                  (λ _. yields (lex_lambda_param-Follows c rest line d))
                                  λ _.
                                    Yields-if (is_symbol c)
                                      (λ _. yields (lex_symbol-Follows c rest line d))
                                      λ _. throws refl
