-- ===== src/Compiler/Lexer/Cutting.antt =====
-- src/compiler/Lexer.cpp: the pieces of numbers, lambda parameters and symbols.
use mathlib.Core.Path.{ap₂}
use amlp.Base.{
  ==_iff, ℕ, Bool, true, false, ◌==◌, ◌&&◌, ◌||◌, [], ◌∷◌, ◌++◌, ◌≡◌, refl, sym, ap, Bytes, codes,
  same, arith, case, ◌$◌, if◌then◌else◌,
}
use amlp.Base.Decimal.{is_digit}
use amlp.Dialect.{LpcDialect}
use amlp.Compiler.Lexer.{
  token, Token, Lexer, number, is_xdigit, peek, peek_next, line_after, advance, read_while,
  read_run,
}
use amlp.Compiler.Lexer.Steps.{at}
use amlp.Compiler.Lexer.Words.{number_tail, lex_number, lex_lambda_param}
use amlp.Compiler.Lexer.Symbols.{one, two, three, symbol_from, lex_symbol, lex_hash_quote}
use amlp.Compiler.Lexer.Spelling.{
  IsCut, as_is, number_tail-IsCut, read_while-first, read_while-splits,
}

-- Behind the first digits: `0x`, a point, or nothing.
after_digits :
    (c line : ℕ) (rest front text : Bytes) (y : Lexer) (left : Bytes)
    → y.rest ≡ left
    → text ≡ c ∷ front
    → rest ≡ front ++ y.rest
    → IsCut c rest (
        if same text (codes "0")
          && (peek y.rest == b'x' || peek y.rest == b'X')
          && is_xdigit (peek_next y.rest)
        then number_tail is_xdigit text line y
        else if peek y.rest == b'.' && is_digit (peek_next y.rest)
        then number_tail is_digit text line y
        else (token number text line, y))
unfolding same
after_digits c line rest front text y [] e t s =
    case (IsCut c rest)
      (same text (codes "0")
        && (peek y.rest == b'x' || peek y.rest == b'X')
        && is_xdigit (peek_next y.rest))
      (λ h. absurd (ground (arith, rw e at h)))
    $ case (IsCut c rest) (peek y.rest == b'.' && is_digit (peek_next y.rest))
        (λ h. absurd (ground (arith, rw e at h)))
        (record { taken = front; splits = s; spelled = as_is (λ q. cc q) (λ q. cc q) (sym t) })
after_digits c line rest front text y (m ∷ tail) e t s =
    case (IsCut c rest)
      (same text (codes "0")
        && (peek y.rest == b'x' || peek y.rest == b'X')
        && is_xdigit (peek_next y.rest))
      (λ h. number_tail-IsCut is_xdigit c line rest front text y m tail e t s)
    $ case (IsCut c rest) (peek y.rest == b'.' && is_digit (peek_next y.rest))
        (λ h. number_tail-IsCut is_digit c line rest front text y m tail e t s)
        (record { taken = front; splits = s; spelled = as_is (λ q. cc q) (λ q. cc q) (sym t) })

pub lex_number-IsCut :
    (c : ℕ) (rest : Bytes) (line : ℕ) (d : LpcDialect)
    → is_digit c ≡ true
    → IsCut c rest (lex_number (at (c ∷ rest) line d))
unfolding lex_number read_run
lex_number-IsCut c rest line d h =
    let (text, e, s) = read_while-first is_digit c rest line h in
    after_digits c line rest text (read_while is_digit (c ∷ rest) line).0
      (read_run is_digit (at (c ∷ rest) line d)).1 _ refl e s

pub lex_number-IsCut_point :
    (rest : Bytes) (line : ℕ) (d : LpcDialect)
    → is_digit (peek rest) ≡ true
    → IsCut b'.' rest (lex_number (at (b'.' ∷ rest) line d))
unfolding lex_number advance read_run read_while
lex_number-IsCut_point rest line d h = rw h (record {
  taken = (read_while is_digit rest line).0;
  splits = read_while-splits is_digit rest line;
  spelled = as_is (λ q. cc q) (λ q. cc q) refl;
})

pub lex_lambda_param-IsCut :
    (rest : Bytes) (line : ℕ) (d : LpcDialect)
    → IsCut b'$' rest (lex_lambda_param (at (b'$' ∷ rest) line d))
unfolding lex_lambda_param advance read_run
lex_lambda_param-IsCut rest line d =
    case (IsCut b'$' rest) (is_digit (peek rest))
      (λ _. record {
        taken = (read_while is_digit rest line).0;
        splits = read_while-splits is_digit rest line;
        spelled = as_is (λ q. cc q) (λ q. cc q) refl;
      })
      (record { taken = []; splits = refl; spelled = as_is (λ q. cc q) (λ q. cc q) refl })

second : (a : Bool) (e k : ℕ) → (a && e == k) ≡ true → (k == 0) ≡ false → (e == 0) ≡ false
second a e k h n = ground (arith, h, n)

doubled : (c e k : ℕ) → (c == k && e == k) ≡ true → e ≡ c
doubled c e k h = ground (arith, h)

module _ (c line : ℕ) where
  one-IsCut : (y : Lexer) → IsCut c y.rest (one c line y)
  one-IsCut y = record { taken = []; splits = refl; spelled = as_is (λ q. cc q) (λ q. cc q) refl }

  two-IsCut :
      (e : ℕ) (tail : Bytes) (y : Lexer) → y.rest ≡ e ∷ tail → IsCut c y.rest (two c e line y)
  unfolding advance
  two-IsCut e tail y h =
      rw h (record { taken = e ∷ []; splits = refl; spelled = as_is (λ q. cc q) (λ q. cc q) refl })

  three-IsCut :
      (e f : ℕ) (tail : Bytes) (l : ℕ) (d : LpcDialect)
      → f == 0 ≡ false
      → e ≡ c
      → IsCut c (e ∷ tail) (three c f line (at (e ∷ tail) l d))
  unfolding three advance
  three-IsCut e f [] l d n h =
      case (IsCut c (e ∷ [])) (0 == f) (λ k. absurd (ground (arith, k, n)))
        (record {
          taken = e ∷ [];
          splits = refl;
          spelled = as_is (λ q. cc q) (λ q. cc q) (ap (λ x. c ∷ x ∷ []) h);
        })
  three-IsCut e f (g ∷ tail) l d n h =
      case (IsCut c (e ∷ g ∷ tail)) (g == f)
        (λ k. record {
          taken = e ∷ g ∷ [];
          splits = refl;
          spelled =
              as_is (λ q. cc q) (λ q. cc q) (ap₂ (λ x z. c ∷ x ∷ z ∷ []) h ((==_iff g f).0 k));
        })
        (record {
          taken = e ∷ [];
          splits = refl;
          spelled = as_is (λ q. cc q) (λ q. cc q) (ap (λ x. c ∷ x ∷ []) h);
        })

  -- One byte, two bytes, or one byte twice and perhaps a third.
  symbol_from-splits :
      (P : Token × Lexer → Type 0) (e : ℕ) (y : Lexer)
      → ((e == 0) ≡ false → P (two c e line y))
      → ((f : ℕ) → (f == 0) ≡ false → (e == 0) ≡ false → e ≡ c → P (three c f line y))
      → P (one c line y)
      → P (symbol_from c e line y)
  unfolding symbol_from
  symbol_from-splits P e y w t o =
      case P (c == b'-' && e == b'>') (λ h. w (second (c == b'-') e b'>' h refl))
      $ case P (c == b':' && e == b':') (λ h. w (second (c == b':') e b':' h refl))
      $ case P (c == b'+' && e == b'+') (λ h. w (second (c == b'+') e b'+' h refl))
      $ case P (c == b'-' && e == b'-') (λ h. w (second (c == b'-') e b'-' h refl))
      $ case P ((c == b'+' || (c == b'-' || (c == b'*' || (c == b'/' || c == b'%')))) && e == b'=')
          (λ h. w (
            second ((c == b'+' || (c == b'-' || (c == b'*' || (c == b'/' || c == b'%'))))) e b'=' h
              refl))
      $ case P ((c == b'|' || (c == b'&' || c == b'^')) && e == b'=')
          (λ h. w (second ((c == b'|' || (c == b'&' || c == b'^'))) e b'=' h refl))
      $ case P (c == b'=' && e == b'=') (λ h. w (second (c == b'=') e b'=' h refl))
      $ case P (c == b'!' && e == b'=') (λ h. w (second (c == b'!') e b'=' h refl))
      $ case P (c == b'<' && e == b'<')
          (λ h. t b'=' refl (second (c == b'<') e b'<' h refl) (doubled c e b'<' h))
      $ case P (c == b'>' && e == b'>')
          (λ h. t b'=' refl (second (c == b'>') e b'>' h refl) (doubled c e b'>' h))
      $ case P (c == b'<' && e == b'=') (λ h. w (second (c == b'<') e b'=' h refl))
      $ case P (c == b'>' && e == b'=') (λ h. w (second (c == b'>') e b'=' h refl))
      $ case P (c == b'|' && e == b'|') (λ h. w (second (c == b'|') e b'|' h refl))
      $ case P (c == b'&' && e == b'&') (λ h. w (second (c == b'&') e b'&' h refl))
      $ case P (c == b'.' && e == b'.')
          (λ h. t b'.' refl (second (c == b'.') e b'.' h refl) (doubled c e b'.' h))
      $ o

  symbol_from-IsCut :
      (rest : Bytes) (l : ℕ) (d : LpcDialect)
      → IsCut c rest (symbol_from c (peek rest) line (at rest l d))
  symbol_from-IsCut [] l d =
      symbol_from-splits (IsCut c []) 0 (at [] l d) (λ n. cc n) (λ f k n h. cc n)
        (one-IsCut (at [] l d))
  symbol_from-IsCut (e ∷ tail) l d =
      symbol_from-splits (IsCut c (e ∷ tail)) e (at (e ∷ tail) l d)
        (λ n. two-IsCut e tail (at (e ∷ tail) l d) refl) (λ f k n h. three-IsCut e f tail l d k h)
        (one-IsCut (at (e ∷ tail) l d))

pub lex_symbol-IsCut :
    (c : ℕ) (rest : Bytes) (line : ℕ) (d : LpcDialect)
    → IsCut c rest (lex_symbol (at (c ∷ rest) line d))
unfolding lex_symbol advance
lex_symbol-IsCut c rest line d = symbol_from-IsCut c line rest (line_after c line) d

pub lex_hash_quote-IsCut :
    (rest : Bytes) (line : ℕ) (d : LpcDialect)
    → (peek rest == b'\'') ≡ true
    → IsCut b'#' rest (lex_hash_quote (at (b'#' ∷ rest) line d))
unfolding lex_hash_quote advance
lex_hash_quote-IsCut [] line d h = absurd (ground (arith, h))
lex_hash_quote-IsCut (q ∷ rest) line d h = record {
  taken = q ∷ [];
  splits = refl;
  spelled = as_is (λ e. cc e) (λ e. cc e) (ap (λ x. b'#' ∷ x ∷ []) ((==_iff q b'\'').0 h));
}
