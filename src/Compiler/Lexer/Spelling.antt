-- ===== src/Compiler/Lexer/Spelling.antt =====
-- src/compiler/Lexer.cpp: the piece of the source that a token stands for.
use amlp.Base.{
  append_assoc, ◌≢◌, ℕ, Bool, true, false, ◌==◌, [], ◌∷◌, ◌++◌, ◌≡◌, refl, sym, ap, ◌∙◌, Bytes, All,
  arith, Bool-cases, inl, inr,
}
use amlp.Base.Decimal.{show}
use amlp.Base.Result.{returned, thrown}
use amlp.Dialect.{LpcDialect}
use amlp.Compiler.Lexer.{
  Token, Lexer, TokenType, number, string, quoted_symbol, is_word, line_after, advance, read_while,
  read_run,
}
use amlp.Compiler.Lexer.Steps.{at}
use amlp.Compiler.Lexer.Words.{lex_ident_or_keyword, number_tail, classify}
use amlp.Compiler.Lexer.Literals.{Lexed}

-- The byte that `\e` stands for.
pub data Escape : ℕ → ℕ → Type 0 where
  newline : Escape b'n' b'\n'
  tab : Escape b't' b'\t'
  itself : (e : ℕ) → (e == b'n') ≡ false → (e == b't') ≡ false → Escape e e

-- The text between the quotes of a string, and the bytes that it stands for.
pub data Quoted : Bytes → Bytes → Type 0 where
  no_more : Quoted [] []
  plain :
      (c : ℕ) (body text : Bytes)
      → (c == b'"') ≡ false
      → (c == b'\\') ≡ false
      → Quoted body text
      → Quoted (c ∷ body) (c ∷ text)
  escaped :
      (e b : ℕ) (body text : Bytes)
      → Escape e b
      → Quoted body text
      → Quoted (b'\\' ∷ e ∷ body) (b ∷ text)

-- The text between the quotes of a character, and its code.
pub data OneByte : Bytes → ℕ → Type 0 where
  bare : (c : ℕ) → OneByte (c ∷ []) c
  behind : (e b : ℕ) → Escape e b → OneByte (b'\\' ∷ e ∷ []) b

-- The lines of a heredoc and its terminator, which stands at the first line that starts with it; the
-- flag tells whether the source begins a line.
pub data Heredoc (terminator : Bytes) : Bool → Bytes → Bytes → Type 0 where
  closes : Heredoc terminator true terminator []
  byte :
      (start : Bool) (c : ℕ) (source text : Bytes)
      → (start ≡ true → (after : Bytes) → ¬ (c ∷ source ≡ terminator ++ after))
      → Heredoc terminator (c == b'\n') source text
      → Heredoc terminator start (c ∷ source) (c ∷ text)

-- How a token of a type and a text is written.
pub data Spells (type : TokenType) (text piece : Bytes) : Type 0 where
  as_is : type ≢ string → type ≢ quoted_symbol → piece ≡ text → Spells type text piece
  as_char :
      (body : Bytes) (code : ℕ)
      → type ≡ number
      → text ≡ show code
      → OneByte body code
      → piece ≡ b'\'' ∷ body ++ b'\'' ∷ []
      → Spells type text piece
  as_quoted : type ≡ quoted_symbol → piece ≡ b'\'' ∷ text → Spells type text piece
  as_string :
      (body : Bytes)
      → type ≡ string
      → Quoted body text
      → piece ≡ b'"' ∷ body ++ b'"' ∷ []
      → Spells type text piece
  as_heredoc :
      (terminator body : Bytes)
      → type ≡ string
      → All (λ c. (c == b'\n') ≡ false) terminator
      → terminator ≢ []
      → Heredoc terminator true body text
      → piece ≡ b'@' ∷ terminator ++ b'\n' ∷ body
      → Spells type text piece

-- A token is cut from `c` and the bytes `rest` behind it, and leaves `left`.
pub record Cut (c : ℕ) (rest : Bytes) (t : Token) (left : Bytes) : Type 0 where
  pub taken : Bytes
  pub splits : rest ≡ taken ++ left
  pub spelled : Spells t.type t.text (c ∷ taken)

abbrev pub IsCut : ℕ → Bytes → Token × Lexer → Type 0
IsCut c rest r = Cut c rest r.0 r.1.rest

abbrev pub Cuts : ℕ → Bytes → Lexed → Type 0
Cuts c rest (returned r) = IsCut c rest r
Cuts c rest (thrown e) = Unit

pub read_while-splits :
    (p : ℕ → Bool) (rest : Bytes) (line : ℕ)
    → rest ≡ (read_while p rest line).0 ++ (read_while p rest line).1
unfolding read_while
read_while-splits p [] line = refl
read_while-splits p (c ∷ rest) line = elim (Bool-cases (p c)) [
  | inl h ↦ rw h (ap (λ t. c ∷ t) (read_while-splits p rest (line_after c line)))
  | inr h ↦ rw h refl
]

-- A run that takes its first byte.
pub read_while-first :
    (p : ℕ → Bool) (c : ℕ) (rest : Bytes) (line : ℕ)
    → p c ≡ true
    → (text : Bytes) × ((read_while p (c ∷ rest) line).0 ≡ c ∷ text)
      × (rest ≡ text ++ (read_while p (c ∷ rest) line).1)
unfolding read_while
read_while-first p c rest line h =
    let w = read_while p rest (line_after c line) in
    rw h (w.0, refl, read_while-splits p rest (line_after c line))

classify-plain :
    (d : LpcDialect) (text : Bytes) → (classify d text ≢ string) × (classify d text ≢ quoted_symbol)
unfolding classify
classify-plain d text = ground arith

pub lex_ident_or_keyword-IsCut :
    (c : ℕ) (rest : Bytes) (line : ℕ) (d : LpcDialect)
    → is_word c ≡ true
    → IsCut c rest (lex_ident_or_keyword (at (c ∷ rest) line d))
unfolding lex_ident_or_keyword read_run
lex_ident_or_keyword-IsCut c rest line d h =
    let (text, e, s) = read_while-first is_word c rest line h in
    let k = classify-plain d (read_while is_word (c ∷ rest) line).0 in
    record { taken = text; splits = s; spelled = as_is k.0 k.1 (sym e) }

pub number_tail-IsCut :
    (p : ℕ → Bool) (c line : ℕ) (rest front text : Bytes) (y : Lexer) (m : ℕ) (tail : Bytes)
    → y.rest ≡ m ∷ tail
    → text ≡ c ∷ front
    → rest ≡ front ++ y.rest
    → IsCut c rest (number_tail p text line y)
unfolding advance read_run
number_tail-IsCut p c line rest front text y m tail e t s =
    let w = read_while p tail (line_after m y.line) in
    rw e (record {
      taken = front ++ m ∷ w.0;
      splits =
          s
          ∙ rw e (ap (λ r. front ++ m ∷ r) (read_while-splits p tail (line_after m y.line)))
          ∙ sym (append_assoc front (m ∷ w.0) w.1);
      spelled = as_is (λ q. cc q) (λ q. cc q) (ap (λ r. r ++ m ∷ w.0) (sym t));
    })
