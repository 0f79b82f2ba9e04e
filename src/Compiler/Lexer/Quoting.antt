-- ===== src/Compiler/Lexer/Quoting.antt =====
-- src/compiler/Lexer.cpp: words and string literals are read back as they were written.
use amlp.Base.{
  ℕ, Bool, true, false, ◌||◌, [], ◌∷◌, ◌++◌, ◌≡◌, refl, ap, ◌∙◌, ◌==◌, if◌then◌else◌, Bytes, arith,
  append_assoc,
}
use amlp.Base.Result.{returned}
use amlp.Dialect.{LpcDialect}
use amlp.Compiler.Lexer.{Lexer, token, string, is_word, read_while, read_run}
use amlp.Compiler.Lexer.Steps.{at}
use amlp.Compiler.Lexer.Words.{classify, lex_ident_or_keyword}
use amlp.Compiler.Lexer.Literals.{string_body, finish_string, lex_string}

-- The class `p` holds of every byte of a text, and no newline is in it.
abbrev pub Within : (ℕ → Bool) → Bytes → Type 0
Within p [] = Unit
Within p (c ∷ text) = (p c ≡ true) × ((c == b'\n') ≡ false) × Within p text

-- The class stops at the front of a text.
abbrev pub Stops : (ℕ → Bool) → Bytes → Type 0
Stops p [] = Unit
Stops p (c ∷ _) = p c ≡ false

read_while-stop :
    (p : ℕ → Bool) (rest : Bytes) (line : ℕ)
    → Stops p rest
    → read_while p rest line ≡ ([], rest, line)
unfolding read_while
read_while-stop p [] line h = refl
read_while-stop p (c ∷ rest) line h = rw h

read_while-Within :
    (p : ℕ → Bool) (text rest : Bytes) (line : ℕ)
    → Within p text
    → Stops p rest
    → read_while p (text ++ rest) line ≡ (text, rest, line)
unfolding read_while
read_while-Within p [] rest line w h = read_while-stop p rest line h
read_while-Within p (c ∷ text) rest line w h =
    rw (w.0, w.1, read_while-Within p text rest line w.2 h)

-- A run is read whole and no further.
pub read_run-Within :
    (p : ℕ → Bool) (text rest : Bytes) (line : ℕ) (d : LpcDialect)
    → Within p text
    → Stops p rest
    → read_run p (at (text ++ rest) line d) ≡ (text, at rest line d)
unfolding read_run
read_run-Within p text rest line d w h =
    ap (λ (r : Bytes × Bytes × ℕ). (r.0, at r.1 r.2 d)) (read_while-Within p text rest line w h)

-- A word is taken whole, whatever follows that is no byte of a word, and classified by its text.
pub lex_ident_or_keyword-word :
    (text rest : Bytes) (line : ℕ) (d : LpcDialect)
    → Within is_word text
    → Stops is_word rest
    → lex_ident_or_keyword (at (text ++ rest) line d)
      ≡ (token (classify d text) text line, at rest line d)
unfolding lex_ident_or_keyword
lex_ident_or_keyword-word text rest line d w h =
    ap (λ (r : Bytes × Lexer). (token (classify d r.0) r.0 line, r.1))
      (read_run-Within is_word text rest line d w h)

-- How a string is written in LPC source.
abbrev pub quote_byte : ℕ → Bytes
quote_byte c =
    if c == b'\n'
    then b'\\' ∷ b'n' ∷ []
    else if c == b'\t'
    then b'\\' ∷ b't' ∷ []
    else if c == b'"' || c == b'\\'
    then b'\\' ∷ c ∷ []
    else c ∷ []

abbrev pub quote_bytes : Bytes → Bytes
quote_bytes [] = []
quote_bytes (c ∷ text) = quote_byte c ++ quote_bytes text

abbrev pub quote : Bytes → Bytes
quote text = b'"' ∷ (quote_bytes text ++ b'"' ∷ [])

string_body-quote_byte :
    (c : ℕ) (rest : Bytes) (line : ℕ)
    → string_body false (quote_byte c ++ rest) line ≡ (
      c ∷ (string_body false rest line).0,
      (string_body false rest line).1,
      (string_body false rest line).2,
    )
unfolding string_body
string_body-quote_byte c rest line = ground arith

string_body-quote_bytes :
    (text rest : Bytes) (line : ℕ)
    → string_body false (quote_bytes text ++ b'"' ∷ rest) line ≡ (text, b'"' ∷ rest, line)
string_body-quote_bytes [] rest line = unfold string_body in refl
string_body-quote_bytes (c ∷ text) rest line =
    ap (λ t. string_body false t line)
      (append_assoc (quote_byte c) (quote_bytes text) (b'"' ∷ rest))
    ∙ string_body-quote_byte c (quote_bytes text ++ b'"' ∷ rest) line
    ∙ ap (λ (r : Bytes × Bytes × ℕ). (c ∷ r.0, r.1, r.2)) (string_body-quote_bytes text rest line)

-- A string of any bytes, quoted, is read back as it was, on one line, with what follows it left.
pub lex_string-quote :
    (text rest : Bytes) (line : ℕ) (d : LpcDialect)
    → lex_string (at (quote text ++ rest) line d)
      ≡ returned (token string text line, at rest line d)
unfolding lex_string
lex_string-quote text rest line d =
    ap (λ (t : Bytes). lex_string (at (b'"' ∷ t) line d))
      (append_assoc (quote_bytes text) (b'"' ∷ []) rest)
    ∙ ap (λ (r : Bytes × Bytes × ℕ). finish_string r.0 r.1 line (at r.1 r.2 d))
        (string_body-quote_bytes text rest line)
