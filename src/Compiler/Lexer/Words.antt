-- ===== src/Compiler/Lexer/Words.antt =====
-- src/compiler/Lexer.cpp: identifiers, keywords, numbers and lambda parameters.
use amlp.Base.{ℕ, Bool, ◌&&◌, ◌||◌, [], ◌∷◌, ◌++◌, ◌==◌, if◌then◌else◌, Bytes, codes, same}
use amlp.Base.Decimal.{is_digit}
use amlp.Dialect.{LpcDialect}
use amlp.Compiler.Lexer.{
  TokenType, ident, number, symbol, keyword, Token, token, Lexer, is_xdigit, is_word, peek,
  peek_next, advance, read_run, keywords, dgd_only_keywords, count, is_dgd,
}

unfoldable pub classify : LpcDialect → Bytes → TokenType
unfolding count
classify dialect text =
    if count text keywords || (is_dgd dialect && count text dgd_only_keywords)
    then keyword
    else ident

unfoldable pub lex_ident_or_keyword : Lexer → Token × Lexer
unfolding classify read_run
lex_ident_or_keyword x =
    let (text, y) = read_run is_word x in (token (classify x.dialect text) text x.line, y)

-- The digits behind `0x` or behind the point. The mark and `text` are read already; `line` is that
-- of the token's start.
abbrev pub number_tail : (ℕ → Bool) → Bytes → ℕ → Lexer → Token × Lexer
number_tail p text line y =
    let (digits, z) = read_run p (advance y) in
    (token number (text ++ peek y.rest ∷ digits) line, z)

unfoldable pub lex_number : Lexer → Token × Lexer
unfolding read_run advance same
lex_number x =
    let (text, y) = read_run is_digit x in
    let mark = peek y.rest in
    if same text (codes "0") && (mark == b'x' || mark == b'X') && is_xdigit (peek_next y.rest)
    then number_tail is_xdigit text x.line y
    else if mark == b'.' && is_digit (peek_next y.rest)
    then number_tail is_digit text x.line y
    else (token number text x.line, y)

unfoldable pub lex_lambda_param : Lexer → Token × Lexer
unfolding read_run advance
lex_lambda_param x =
    let y = advance x in
    let (digits, z) = read_run is_digit y in
    if is_digit (peek y.rest)
    then (token ident (b'$' ∷ digits) x.line, z)
    else (token symbol (b'$' ∷ []) x.line, y)
