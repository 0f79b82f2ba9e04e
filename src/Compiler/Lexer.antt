-- ===== src/Compiler/Lexer.antt =====
-- src/compiler/Lexer.cpp and include/amlp/compiler/Lexer.hpp: the cursor, the tokens and the loops
-- that the token functions share. The cursor is what is left of `src_` from `pos_`.
pub mod Words
pub mod Symbols
pub mod Literals
pub mod Tokenize
pub mod Steps
pub mod Progress
pub mod Scanning
pub mod Spelling
pub mod Cutting
pub mod Closing
pub mod Round
pub mod Gaps
pub mod Skipping
pub mod Positions
pub mod Quoting
pub mod Operators
pub mod Longest
pub mod Items
pub mod Rendering
mod Examples
use amlp.Base.{
  ℕ, zero, suc, ◌+◌, Bool, true, false, ◌&&◌, ◌||◌, List, [], ◌∷◌, Option, none, some, ◌==◌, leb,
  if◌then◌else◌, Bytes, codes, same,
}
use amlp.Base.Decimal.{is_digit}
use amlp.Dialect.{LpcDialect, fluff_os, ld_mud, dgd}

pub data TokenType : Type 0 where
  ident number string symbol quoted_symbol keyword end : TokenType

pub record Token : Type 0 where
  pub type : TokenType
  pub text : Bytes
  pub line : ℕ

pub record Lexer : Type 0 where
  pub rest : Bytes
  pub line : ℕ
  pub dialect : LpcDialect

-- What is thrown, with its line. `out_of_fuel` has no counterpart in the program.
pub data LexError : Type 0 where
  unterminated_string unterminated_char not_one_char missing_terminator : ℕ → LexError
  unterminated_heredoc : Bytes → ℕ → LexError
  unrecognized : ℕ → ℕ → LexError
  array_block out_of_fuel : LexError

abbrev pub token : TokenType → Bytes → ℕ → Token
token type text line = record { type = type; text = text; line = line }

-- The C locale's classes.
abbrev pub is_alpha : ℕ → Bool
is_alpha c = (leb b'a' c && leb c b'z') || (leb b'A' c && leb c b'Z')

abbrev pub is_alnum : ℕ → Bool
is_alnum c = is_alpha c || is_digit c

abbrev pub is_xdigit : ℕ → Bool
is_xdigit c = is_digit c || (leb b'a' c && leb c b'f') || (leb b'A' c && leb c b'F')

-- `isalnum(c) || c == '_'`, `isalpha(c) || c == '_'`.
abbrev pub is_word : ℕ → Bool
is_word c = is_alnum c || c == b'_'

abbrev pub is_word_start : ℕ → Bool
is_word_start c = is_alpha c || c == b'_'

abbrev pub peek : Bytes → ℕ
peek [] = 0
peek (c ∷ _) = c

abbrev pub peek_next : Bytes → ℕ
peek_next [] = 0
peek_next (_ ∷ rest) = peek rest

-- The line behind a byte.
abbrev pub line_after : ℕ → ℕ → ℕ
line_after c line = if c == b'\n' then line + 1 else line

step_over : Bytes → Lexer → Lexer
step_over [] x = x
step_over (c ∷ rest) x = record x { rest = rest; line = line_after c x.line }

-- The byte that `advance` returns is `peek`.
unfoldable pub advance : Lexer → Lexer
unfolding step_over
advance x = step_over x.rest x

-- `while (!atEnd() && p(peek())) text += advance();`
unfoldable pub read_while : (ℕ → Bool) → Bytes → ℕ → Bytes × Bytes × ℕ
read_while p [] line = ([], [], line)
read_while p (c ∷ rest) line =
    let (text, left, last) = read_while p rest (line_after c line) in
    if p c then (c ∷ text, left, last) else ([], c ∷ rest, line)

unfoldable pub read_run : (ℕ → Bool) → Lexer → Bytes × Lexer
unfolding read_while
read_run p x =
    let (text, left, last) = read_while p x.rest x.line in
    (text, record x { rest = left; line = last })

-- Where `skipWhitespaceAndComments` stands: between tokens, in a `//` comment, in a `/*` comment,
-- or before the second byte of `/*` or of `*/`.
pub data SkipMode : Type 0 where
  between line_comment block_comment opening closing : SkipMode

-- The mode behind the byte `c`, which `rest` follows; `none` stops before it.
unfoldable pub skip_byte : SkipMode → ℕ → Bytes → Option SkipMode
skip_byte between c rest =
    if c == b' ' || (c == b'\t' || (c == b'\r' || c == b'\n'))
    then some between
    else if c == b'/' && peek rest == b'/'
    then some line_comment
    else if c == b'/' && peek rest == b'*'
    then some opening
    else none
skip_byte line_comment c rest = some (if c == b'\n' then between else line_comment)
skip_byte opening c rest = some block_comment
skip_byte block_comment c rest =
    some (if c == b'*' && peek rest == b'/' then closing else block_comment)
skip_byte closing c rest = some between

unfoldable pub skip : SkipMode → Bytes → ℕ → Bytes × ℕ
unfolding skip_byte
skip mode [] line = ([], line)
skip mode (c ∷ rest) line = elim (skip_byte mode c rest) [
  | none ↦ (c ∷ rest, line)
  | some next ↦ skip next rest (line_after c line)
]

unfoldable pub skip_whitespace_and_comments : Lexer → Lexer
unfolding skip
skip_whitespace_and_comments x =
    let (left, last) = skip between x.rest x.line in record x { rest = left; line = last }

-- `kKeywords` and `kDgdOnlyKeywords`.
abbrev pub keywords : List Bytes
keywords =
    codes "void"
    ∷ codes "int"
    ∷ codes "string"
    ∷ codes "object"
    ∷ codes "float"
    ∷ codes "mapping"
    ∷ codes "status"
    ∷ codes "mixed"
    ∷ codes "function"
    ∷ codes "return"
    ∷ codes "if"
    ∷ codes "else"
    ∷ codes "while"
    ∷ codes "for"
    ∷ codes "do"
    ∷ codes "static"
    ∷ codes "private"
    ∷ codes "public"
    ∷ codes "protected"
    ∷ codes "nomask"
    ∷ codes "varargs"
    ∷ codes "inherit"
    ∷ codes "break"
    ∷ codes "continue"
    ∷ codes "foreach"
    ∷ codes "in"
    ∷ codes "switch"
    ∷ codes "case"
    ∷ codes "default"
    ∷ []

abbrev pub dgd_only_keywords : List Bytes
dgd_only_keywords = codes "atomic" ∷ codes "nil" ∷ []

unfoldable pub count : Bytes → List Bytes → Bool
count text [] = false
count text (word ∷ words) = same text word || count text words

abbrev pub is_dgd : LpcDialect → Bool
is_dgd dgd = true
is_dgd _ = false
