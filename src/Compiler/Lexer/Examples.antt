-- ===== src/Compiler/Lexer/Examples.antt =====
-- src/compiler/Lexer.cpp: runs of the model, and the theorems at concrete input.
use amlp.Base.{same, ◌≤◌, true, [], ◌∷◌, ◌++◌, List, ◌≡◌, refl, Bytes, codes, length, map, All}
use amlp.Base.Result.{returned, thrown}
use amlp.Dialect.{fluff_os, ld_mud, dgd}
use amlp.Compiler.Lexer.Steps.{at}
use amlp.Compiler.Lexer.Positions.{Located, tokenize-Located}
use amlp.Compiler.Lexer.{
  token, ident, number, string, symbol, quoted_symbol, keyword, end, unterminated_string,
  unrecognized, count,
}
use amlp.Compiler.Lexer.Steps.{at}
use amlp.Compiler.Lexer.Words.{classify, lex_ident_or_keyword}
use amlp.Compiler.Lexer.Symbols.{lex_symbol}
use amlp.Compiler.Lexer.Literals.{is_prefix, lex_string}
use amlp.Compiler.Lexer.Tokenize.{tokenize}
use amlp.Compiler.Lexer.Operators.{operators, Cut}
use amlp.Compiler.Lexer.Longest.{lex_symbol_longest}
use amlp.Compiler.Lexer.Quoting.{quote, lex_string-quote, lex_ident_or_keyword-word}
use amlp.Compiler.Lexer.Items.{Item, word, num, text, op, item_token, render}
use amlp.Compiler.Lexer.Rendering.{tokenize-render}

abbrev source : Bytes
source = codes "int x; // c\n/* \n */ x <<= 0x1F + 1.5;"

tokenize_run :
    tokenize source fluff_os
    ≡ returned (
        token keyword (codes "int") 1
        ∷ token ident (codes "x") 1
        ∷ token symbol (codes ";") 1
        ∷ token ident (codes "x") 3
        ∷ token symbol (codes "<<=") 3
        ∷ token number (codes "0x1F") 3
        ∷ token symbol (codes "+") 3
        ∷ token number (codes "1.5") 3
        ∷ token symbol (codes ";") 3
        ∷ token end [] 3
        ∷ [])
unfolding tokenize
tokenize_run = refl

quotes_run :
    tokenize (codes "'a' 'ab #'f") ld_mud
    ≡ returned (
        token number (codes "97") 1
        ∷ token quoted_symbol (codes "ab") 1
        ∷ token symbol (codes "#'") 1
        ∷ token ident (codes "f") 1
        ∷ token end [] 1
        ∷ [])
unfolding tokenize
quotes_run = refl

heredoc_run :
    tokenize (codes "@END\na\nEND;") fluff_os
    ≡ returned (token string (codes "a\n") 1 ∷ token symbol (codes ";") 3 ∷ token end [] 3 ∷ [])
unfolding tokenize
heredoc_run = refl

errors_run :
    (tokenize (codes "\n\"ab") fluff_os ≡ thrown (unterminated_string 2))
    × (tokenize (codes "#'x") dgd ≡ thrown (unrecognized b'#' 1))
unfolding tokenize
errors_run = (refl, refl)

tokenize-Located_example : Located (at source 1 fluff_os) (tokenize source fluff_os)
tokenize-Located_example = tokenize-Located source fluff_os

abbrev items : List Item
items = word (codes "nil") ∷ op (codes ">>=") ∷ num 120 ∷ text (codes "a\"b") ∷ op (codes ";") ∷ []

tokenize-render_example :
    tokenize (render items) dgd ≡ returned (map (item_token dgd 1) items ++ token end [] 1 ∷ [])
unfolding count same
tokenize-render_example =
    tokenize-render items dgd
      ((refl, (refl, refl, (refl, refl, (refl, refl, tt)))), (refl, (tt, (tt, (refl, tt)))))

lex_symbol_longest_example :
    Cut (codes ">>=1") (lex_symbol (at (codes ">>=1") 1 fluff_os))
    × All
        (λ op.
          is_prefix op (codes ">>=1") ≡ true
          → length op ≤ length (lex_symbol (at (codes ">>=1") 1 fluff_os)).0.text)
        operators
lex_symbol_longest_example = lex_symbol_longest b'>' (codes ">=1") 1 fluff_os

lex_string-quote_example :
    lex_string (at (quote (codes "a\n\"") ++ codes ";") 4 fluff_os)
    ≡ returned (token string (codes "a\n\"") 4, at (codes ";") 4 fluff_os)
lex_string-quote_example = lex_string-quote (codes "a\n\"") (codes ";") 4 fluff_os

lex_ident_or_keyword-word_example :
    lex_ident_or_keyword (at (codes "foreach" ++ codes "(x") 2 fluff_os)
    ≡ (token (classify fluff_os (codes "foreach")) (codes "foreach") 2, at (codes "(x") 2 fluff_os)
lex_ident_or_keyword-word_example =
    lex_ident_or_keyword-word (codes "foreach") (codes "(x") 2 fluff_os
      (
        refl,
        refl,
        (refl, refl, (refl, refl, (refl, refl, (refl, refl, (refl, refl, (refl, refl, tt)))))),
      )
      refl
