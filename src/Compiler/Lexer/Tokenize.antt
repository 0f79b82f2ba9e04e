-- ===== src/Compiler/Lexer/Tokenize.antt =====
-- src/compiler/Lexer.cpp: `tokenize`.
use amlp.Base.{
  ℕ, zero, suc, ◌+◌, Bool, true, false, ◌&&◌, ◌||◌, List, [], ◌∷◌, ◌==◌, if◌then◌else◌, Bytes,
  length,
}
use amlp.Base.Decimal.{is_digit}
use amlp.Base.Result.{Result, returned, thrown, ◌>>=◌}
use amlp.Dialect.{LpcDialect, ld_mud}
use amlp.Compiler.Lexer.{
  Token, token, end, Lexer, LexError, out_of_fuel, unrecognized, is_word_start, peek, peek_next,
  skip_whitespace_and_comments,
}
use amlp.Compiler.Lexer.Words.{lex_ident_or_keyword, lex_number, lex_lambda_param}
use amlp.Compiler.Lexer.Symbols.{lex_symbol, lex_hash_quote}
use amlp.Compiler.Lexer.Literals.{Lexed, is_nil, lex_string, lex_char, lex_quote, lex_heredoc}

abbrev pub is_ld_mud : LpcDialect → Bool
is_ld_mud ld_mud = true
is_ld_mud _ = false

-- The bytes that `lexSymbol` is called on.
abbrev pub is_symbol : ℕ → Bool
is_symbol c =
    c == b'('
    || (c == b')'
        || (c == b'{'
            || (c == b'}'
                || (c == b'['
                    || (c == b']'
                        || (c == b':'
                            || (c == b';'
                                || (c == b','
                                    || (c == b'-'
                                        || (c == b'='
                                            || (c == b'!'
                                                || (c == b'<'
                                                    || (c == b'>'
                                                        || (c == b'*'
                                                            || (c == b'+'
                                                            || (c == b'|'
                                                            || (c == b'&'
                                                            || (c == b'/'
                                                            || (c == b'%'
                                                            || (c == b'.'
                                                            || (c == b'?'
                                                            || (c == b'^'
                                                            || c == b'~'))))))))))))))))))))))

-- One round of the loop, at the byte `c`, which `d` follows.
unfoldable pub lex_token : Lexer → Lexed
lex_token x =
    let c = peek x.rest in
    let d = peek_next x.rest in
    if is_word_start c
    then returned (lex_ident_or_keyword x)
    else if is_digit c
    then returned (lex_number x)
    else if c == b'.' && is_digit d
    then returned (lex_number x)
    else if c == b'"'
    then lex_string x
    else if c == b'\''
    then (if is_ld_mud x.dialect then lex_quote x else lex_char x)
    else if c == b'#' && is_ld_mud x.dialect && d == b'\''
    then returned (lex_hash_quote x)
    else if c == b'@'
    then lex_heredoc x
    else if c == b'$'
    then returned (lex_lambda_param x)
    else if is_symbol c
    then returned (lex_symbol x)
    else thrown (unrecognized c x.line)

unfoldable pub tokenize_from : ℕ → Lexer → Result LexError (List Token)
unfolding skip_whitespace_and_comments lex_token
tokenize_from zero x = thrown out_of_fuel
tokenize_from (suc fuel) x =
    let y = skip_whitespace_and_comments x in
    let more = (lex_token y >>= λ (t, z). tokenize_from fuel z >>= λ ts. returned (t ∷ ts)) in
    if is_nil y.rest then returned (token end [] y.line ∷ []) else more

-- Each round takes a byte at least, so the length and one is fuel enough.
unfoldable pub tokenize : Bytes → LpcDialect → Result LexError (List Token)
unfolding tokenize_from lex_ident_or_keyword lex_number lex_lambda_param lex_symbol lex_hash_quote
    lex_string lex_char lex_quote lex_heredoc
tokenize source dialect =
    tokenize_from (length source + 1) (record { rest = source; line = 1; dialect = dialect })
