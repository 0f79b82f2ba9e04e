-- ===== src/Compiler/Lexer/Progress.antt =====
-- src/compiler/Lexer.cpp: each token function takes a piece of the source that is not empty, counts
-- its newlines, and stamps the token with the line where the piece starts.
use amlp.Base.{
  case, ◌$◌, ℕ, Bool, true, false, ◌&&◌, ◌||◌, ◌∷◌, ◌≡◌, refl, ◌==◌, if◌then◌else◌, Bytes, codes,
  same,
}
use amlp.Base.Decimal.{is_digit}
use amlp.Dialect.{LpcDialect}
use amlp.Compiler.Lexer.{
  Token, Lexer, is_xdigit, is_word, peek, peek_next, line_after, advance, read_while, read_run,
}
use amlp.Compiler.Lexer.Steps.{
  Steps, Steps-refl, Steps-trans, at, advance-Steps, read_while-Eats, read_run-Steps,
}
use amlp.Compiler.Lexer.Words.{lex_ident_or_keyword, number_tail, lex_number, lex_lambda_param}
use amlp.Compiler.Lexer.Symbols.{two, three, symbol_from, lex_symbol, lex_hash_quote}

-- The result of a token function: the cursor comes from `base`, the token is of `line`.
pub record Follows (base : Lexer) (line : ℕ) (result : Token × Lexer) : Type 0 where
  pub steps : Steps base result.1
  pub stamped : result.0.line ≡ line

module _ {base : Lexer} {line : ℕ} where
  pub Follows-if :
      (b : Bool) {u v : Token × Lexer}
      → (b ≡ true → Follows base line u)
      → (b ≡ false → Follows base line v)
      → Follows base line (if b then u else v)
  Follows-if true f g = f refl
  Follows-if false f g = g refl

  number_tail-Follows :
      (p : ℕ → Bool) (text : Bytes) (y : Lexer)
      → Steps base y
      → Follows base line (number_tail p text line y)
  number_tail-Follows p text y s = record {
    steps = Steps-trans s (Steps-trans (advance-Steps y) (read_run-Steps p (advance y)));
    stamped = refl;
  }

  two-Follows : (c d : ℕ) (y : Lexer) → Steps base y → Follows base line (two c d line y)
  two-Follows c d y s = record { steps = Steps-trans s (advance-Steps y); stamped = refl }

  three-Follows : (c e : ℕ) (y : Lexer) → Steps base y → Follows base line (three c e line y)
  unfolding three
  three-Follows c e y s =
      let z = Steps-trans s (advance-Steps y) in
      Follows-if (peek (advance y).rest == e)
        (λ _. record { steps = Steps-trans z (advance-Steps (advance y)); stamped = refl })
        (λ _. record { steps = z; stamped = refl })

read_run_first :
    (p : ℕ → Bool) (c : ℕ) (rest : Bytes) (line : ℕ) (d : LpcDialect)
    → p c ≡ true
    → Steps (at rest (line_after c line) d) (read_run p (at (c ∷ rest) line d)).1
unfolding read_run read_while
read_run_first p c rest line d h =
    rw h (record { eats = read_while-Eats p rest (line_after c line); dialect = refl })

pub lex_ident_or_keyword-Follows :
    (c : ℕ) (rest : Bytes) (line : ℕ) (d : LpcDialect)
    → is_word c ≡ true
    → Follows (at rest (line_after c line) d) line (lex_ident_or_keyword (at (c ∷ rest) line d))
unfolding lex_ident_or_keyword
lex_ident_or_keyword-Follows c rest line d h = record {
  steps = read_run_first is_word c rest line d h;
  stamped = refl;
}

pub lex_number-Follows :
    (c : ℕ) (rest : Bytes) (line : ℕ) (d : LpcDialect)
    → is_digit c ≡ true
    → Follows (at rest (line_after c line) d) line (lex_number (at (c ∷ rest) line d))
unfolding lex_number
lex_number-Follows c rest line d h =
    let x = at (c ∷ rest) line d in
    let y = (read_run is_digit x).1 in
    let s = read_run_first is_digit c rest line d h in
    let text = (read_run is_digit x).0 in
    let mark = peek y.rest in
    Follows-if
      (same text (codes "0") && (mark == b'x' || mark == b'X') && is_xdigit (peek_next y.rest))
      (λ _. number_tail-Follows is_xdigit text y s)
      λ _.
        Follows-if (mark == b'.' && is_digit (peek_next y.rest))
          (λ _. number_tail-Follows is_digit text y s) λ _. record { steps = s; stamped = refl }

-- A number that starts with its point.
pub lex_number-Follows_point :
    (rest : Bytes) (line : ℕ) (d : LpcDialect)
    → is_digit (peek rest) ≡ true
    → Follows (at rest line d) line (lex_number (at (b'.' ∷ rest) line d))
unfolding lex_number advance read_while
lex_number-Follows_point rest line d h =
    rw h (record { steps = read_run-Steps is_digit (at rest line d); stamped = refl })

pub lex_lambda_param-Follows :
    (c : ℕ) (rest : Bytes) (line : ℕ) (d : LpcDialect)
    → Follows (at rest (line_after c line) d) line (lex_lambda_param (at (c ∷ rest) line d))
unfolding lex_lambda_param
lex_lambda_param-Follows c rest line d =
    let y = at rest (line_after c line) d in
    Follows-if (is_digit (peek rest))
      (λ _. record { steps = read_run-Steps is_digit y; stamped = refl })
      (λ _. record { steps = Steps-refl y; stamped = refl })

symbol_from-Follows : (c e line : ℕ) (y : Lexer) → Follows y line (symbol_from c e line y)
unfolding symbol_from
symbol_from-Follows c e line y =
    let P = Follows y line in
    let s = Steps-refl y in
    let w : Follows y line (two c e line y) = two-Follows c e y s in
    case P (c == b'-' && e == b'>') (λ _. w)
    $ case P (c == b':' && e == b':') (λ _. w)
    $ case P (c == b'+' && e == b'+') (λ _. w)
    $ case P (c == b'-' && e == b'-') (λ _. w)
    $ case P ((c == b'+' || (c == b'-' || (c == b'*' || (c == b'/' || c == b'%')))) && e == b'=')
        (λ _. w)
    $ case P ((c == b'|' || (c == b'&' || c == b'^')) && e == b'=') (λ _. w)
    $ case P (c == b'=' && e == b'=') (λ _. w)
    $ case P (c == b'!' && e == b'=') (λ _. w)
    $ case P (c == b'<' && e == b'<') (λ _. three-Follows c b'=' y s)
    $ case P (c == b'>' && e == b'>') (λ _. three-Follows c b'=' y s)
    $ case P (c == b'<' && e == b'=') (λ _. w)
    $ case P (c == b'>' && e == b'=') (λ _. w)
    $ case P (c == b'|' && e == b'|') (λ _. w)
    $ case P (c == b'&' && e == b'&') (λ _. w)
    $ case P (c == b'.' && e == b'.') (λ _. three-Follows c b'.' y s)
    $ record { steps = s; stamped = refl }

pub lex_symbol-Follows :
    (c : ℕ) (rest : Bytes) (line : ℕ) (d : LpcDialect)
    → Follows (at rest (line_after c line) d) line (lex_symbol (at (c ∷ rest) line d))
unfolding lex_symbol
lex_symbol-Follows c rest line d = symbol_from-Follows c _ line (at rest (line_after c line) d)

pub lex_hash_quote-Follows :
    (c : ℕ) (rest : Bytes) (line : ℕ) (d : LpcDialect)
    → Follows (at rest (line_after c line) d) line (lex_hash_quote (at (c ∷ rest) line d))
unfolding lex_hash_quote
lex_hash_quote-Follows c rest line d = record {
  steps = advance-Steps (at rest (line_after c line) d);
  stamped = refl;
}
