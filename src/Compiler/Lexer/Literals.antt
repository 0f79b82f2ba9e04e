-- ===== src/Compiler/Lexer/Literals.antt =====
-- src/compiler/Lexer.cpp: strings, characters, heredocs and quoted symbols.
use mathlib.Core.Option
use amlp.Base.{
  ℕ, zero, suc, Bool, not, true, false, ◌&&◌, [], ◌∷◌, Option, none, some, ◌==◌, if◌then◌else◌,
  Bytes, length,
}
use amlp.Base.Decimal.{show}
use amlp.Base.Result.{Result, returned, thrown}
use amlp.Compiler.Lexer.{
  number, string, quoted_symbol, Token, token, Lexer, LexError, unterminated_string,
  unterminated_char, not_one_char, missing_terminator, unterminated_heredoc, array_block, is_word,
  is_word_start, peek, line_after, advance, read_run,
}

abbrev pub Lexed : Type 0
Lexed = Result LexError (Token × Lexer)

-- The byte that an escape stands for.
unfoldable pub unescape : ℕ → ℕ
unescape e = if e == b'n' then b'\n' else if e == b't' then b'\t' else e

abbrev pub is_nil : Bytes → Bool
is_nil [] = true
is_nil (_ ∷ _) = false

-- The loop of `lexString`: the value, what is left (at the closing quote or at the end) and the
-- line there. `escaped` holds behind a backslash whose partner is still to be taken.
abbrev pub opens_escape : Bool → ℕ → Bytes → Bool
opens_escape escaped c rest = not escaped && c == b'\\' && not (is_nil rest)

unfoldable pub string_body : Bool → Bytes → ℕ → Bytes × Bytes × ℕ
unfolding unescape
string_body escaped [] line = ([], [], line)
string_body escaped (c ∷ rest) line =
    let opens = opens_escape escaped c rest in
    let (value, left, last) = string_body opens rest (line_after c line) in
    if not escaped && c == b'"'
    then ([], c ∷ rest, line)
    else if opens
    then (value, left, last)
    else ((if escaped then unescape c else c) ∷ value, left, last)

-- Behind the loop: `if (atEnd()) throw …; advance();`
unfoldable pub finish_string : Bytes → Bytes → ℕ → Lexer → Lexed
finish_string value [] line y = thrown (unterminated_string line)
finish_string value (_ ∷ _) line y = returned (token string value line, advance y)

unfoldable pub lex_string : Lexer → Lexed
unfolding string_body finish_string advance
lex_string x =
    let y = advance x in
    let (value, left, last) = string_body false y.rest y.line in
    finish_string value left x.line (record y { rest = left; line = last })

-- The code is read: the closing quote must follow.
unfoldable pub finish_char : ℕ → ℕ → Bytes → Lexer → Lexed
unfolding show
finish_char code line [] y = thrown (not_one_char line)
finish_char code line (q ∷ _) y =
    if q == b'\''
    then returned (token number (show code) line, advance y)
    else thrown (not_one_char line)

-- `y` stands behind the opening quote.
unfoldable pub char_body : Bytes → ℕ → Lexer → Lexed
unfolding unescape finish_char advance
char_body [] line y = thrown (unterminated_char line)
char_body (c ∷ rest) line y =
    let escaped = c == b'\\' && not (is_nil rest) in
    let code = if escaped then unescape (peek rest) else c in
    let z = if escaped then advance (advance y) else advance y in finish_char code line z.rest z

unfoldable pub lex_char : Lexer → Lexed
unfolding char_body advance
lex_char x = let y = advance x in char_body y.rest x.line y

unfoldable pub is_prefix : Bytes → Bytes → Bool
is_prefix [] text = true
is_prefix (_ ∷ _) [] = false
is_prefix (p ∷ prefix) (c ∷ text) = p == c && is_prefix prefix text

abbrev pub advance_by : ℕ → Lexer → Lexer
advance_by zero x = x
advance_by (suc n) x = advance_by n (advance x)

-- The loop of `lexHeredoc`: the value, and the cursor at the terminator; `none` at the end. The
-- terminator is not empty, so at the end of the source it does not match.
unfoldable pub heredoc_body : Bytes → Bool → Bytes → ℕ → Option (Bytes × Bytes × ℕ)
unfolding is_prefix
heredoc_body terminator at_line_start [] line = none
heredoc_body terminator at_line_start (c ∷ rest) line =
    let more = heredoc_body terminator (c == b'\n') rest (line_after c line) in
    if at_line_start && is_prefix terminator (c ∷ rest)
    then some ([], c ∷ rest, line)
    else Option.map (λ (value, left, last). (c ∷ value, left, last)) more

-- `y` stands at the end of the `@TERM` line.
unfoldable pub finish_heredoc : Bytes → ℕ → Bytes → Lexer → Lexed
unfolding heredoc_body advance
finish_heredoc [] line _ y = thrown (missing_terminator line)
finish_heredoc terminator line [] y = thrown (unterminated_heredoc terminator line)
finish_heredoc terminator line (_ ∷ _) y =
    let z = advance y in
    elim (heredoc_body terminator true z.rest z.line) [
      | none ↦ thrown (unterminated_heredoc terminator line)
      | some (value, left, last) ↦ returned (
        token string value line,
        advance_by (length terminator) (record z { rest = left; line = last }),
      )
    ]

unfoldable pub lex_heredoc : Lexer → Lexed
unfolding finish_heredoc read_run advance
lex_heredoc x =
    let y = advance x in
    let (terminator, z) = read_run (λ c. not (c == b'\n')) y in
    if peek y.rest == b'@' then thrown array_block else finish_heredoc terminator x.line z.rest z

-- `lexQuote`: a name of one letter and a quote is a character.
unfoldable pub lex_quote : Lexer → Lexed
unfolding read_run lex_char advance
lex_quote x =
    let y = advance x in
    let (name, z) = read_run is_word y in
    let single = length name == 1 && peek z.rest == b'\'' in
    if is_word_start (peek y.rest) && not single
    then returned (token quoted_symbol name x.line, z)
    else lex_char x
