-- ===== src/Compiler/Lexer/Symbols.antt =====
-- src/compiler/Lexer.cpp: `lexSymbol` and `lexHashQuote`.
use amlp.Base.{ℕ, ◌&&◌, ◌||◌, [], ◌∷◌, ◌==◌, if◌then◌else◌}
use amlp.Compiler.Lexer.{symbol, Token, token, Lexer, peek, advance}

abbrev pub one : ℕ → ℕ → Lexer → Token × Lexer
one c line y = (token symbol (c ∷ []) line, y)

-- The second byte `d` is taken as well; `y` stands before it.
abbrev pub two : ℕ → ℕ → ℕ → Lexer → Token × Lexer
two c d line y = (token symbol (c ∷ d ∷ []) line, advance y)

-- `<<` or `>>`, with a third byte `=`; or `..`, with a third byte `.`.
unfoldable pub three : ℕ → ℕ → ℕ → Lexer → Token × Lexer
three c e line y =
    let z = advance y in
    if peek z.rest == e
    then (token symbol (c ∷ c ∷ e ∷ []) line, advance z)
    else (token symbol (c ∷ c ∷ []) line, z)

-- `c` is taken, `d` follows it. The tests in the order of the source.
unfoldable pub symbol_from : ℕ → ℕ → ℕ → Lexer → Token × Lexer
symbol_from c d line y =
    if c == b'-' && d == b'>'
    then two c d line y
    else if c == b':' && d == b':'
    then two c d line y
    else if c == b'+' && d == b'+'
    then two c d line y
    else if c == b'-' && d == b'-'
    then two c d line y
    else if (c == b'+' || (c == b'-' || (c == b'*' || (c == b'/' || c == b'%')))) && d == b'='
    then two c d line y
    else if (c == b'|' || (c == b'&' || c == b'^')) && d == b'='
    then two c d line y
    else if c == b'=' && d == b'='
    then two c d line y
    else if c == b'!' && d == b'='
    then two c d line y
    else if c == b'<' && d == b'<'
    then three c b'=' line y
    else if c == b'>' && d == b'>'
    then three c b'=' line y
    else if c == b'<' && d == b'='
    then two c d line y
    else if c == b'>' && d == b'='
    then two c d line y
    else if c == b'|' && d == b'|'
    then two c d line y
    else if c == b'&' && d == b'&'
    then two c d line y
    else if c == b'.' && d == b'.'
    then three c b'.' line y
    else one c line y

unfoldable pub lex_symbol : Lexer → Token × Lexer
unfolding symbol_from three advance
lex_symbol x = let y = advance x in symbol_from (peek x.rest) (peek y.rest) x.line y

unfoldable pub lex_hash_quote : Lexer → Token × Lexer
unfolding advance
lex_hash_quote x = (token symbol (b'#' ∷ b'\'' ∷ []) x.line, advance (advance x))
