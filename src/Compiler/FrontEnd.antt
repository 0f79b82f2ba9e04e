-- ===== src/Compiler/FrontEnd.antt =====
-- src/object/ObjectManager.cpp: the steps of `compile` from the text behind the preprocessor to the
-- syntax tree.
use mathlib.Core.Path.{subst}
use amlp.Base.{refl, ℕ, ◌≢◌, Bytes, List, [], ◌∷◌, Option, none, some}
use amlp.Base.Result.{Result, returned}
use amlp.Dialect.{LpcDialect, dialect_from_string}
use amlp.Compiler.Lexer.{Token, LexError}
use amlp.Compiler.Lexer.Tokenize.{tokenize}
use amlp.Compiler.Lexer.Scanning.{ErrorAt}
use amlp.Compiler.Lexer.{Lexer}
use amlp.Compiler.Lexer.Steps.{at}
use amlp.Compiler.Lexer.Positions.{
  FailsAt-ErrorAt, Positions, stop, next, Located, tokenize-Located,
}
use amlp.Compiler.Ast.{Program}
use amlp.Compiler.Parser.{Outcome}
use amlp.Compiler.Parser.Declarations.{parse}
use amlp.Compiler.Parser.Total.Declarations.{IsComplete, parse-IsComplete}

-- `no_tokens` stands for a parser of an empty vector, which C++ leaves open.
pub data Front : Type 0 where
  unknown_dialect no_tokens : Front
  lexer_threw : LexError → Front
  parser_ended : Outcome Program → Front

unfoldable pub parse_tokens : List Token → LpcDialect → Front
unfolding parse
parse_tokens [] dialect = no_tokens
parse_tokens (t ∷ l) dialect = parser_ended (parse t l dialect)

pub after_lexer : Result LexError (List Token) → LpcDialect → Front
unfolding parse_tokens
after_lexer (Result.thrown e) dialect = lexer_threw e
after_lexer (returned l) dialect = parse_tokens l dialect

pub name_found : Bytes → Option LpcDialect → Front
unfolding tokenize after_lexer
name_found source none = unknown_dialect
name_found source (some dialect) = after_lexer (tokenize source dialect) dialect

unfoldable pub front_end : Bytes → Bytes → Front
unfolding dialect_from_string name_found
front_end source name = name_found source (dialect_from_string name)

-- What `compile` meets: a name that is no dialect's, an error of the lexer, or the parser's outcome.
abbrev pub IsSettled : Front → Type 0
IsSettled unknown_dialect = Unit
IsSettled no_tokens = ⊥
IsSettled (lexer_threw e) = e ≢ LexError.out_of_fuel
IsSettled (parser_ended o) = IsComplete o

ErrorAt-ne : (n : ℕ) (e : LexError) → ErrorAt n e → e ≢ LexError.out_of_fuel
ErrorAt-ne n e h out = subst (λ x. ErrorAt n x) out h

-- The lexer never returns without a token.
not-Positions-nil : {x : Lexer} {l : List Token} → Positions x l → l ≢ []
not-Positions-nil (stop _) e = cc
not-Positions-nil (next c rest _ _ _) e = cc

Positions-IsSettled :
    {x : Lexer} (dialect : LpcDialect) (l : List Token)
    → Positions x l
    → IsSettled (parse_tokens l dialect)
unfolding parse_tokens
Positions-IsSettled dialect [] p = absurd (not-Positions-nil p refl)
Positions-IsSettled dialect (t ∷ l) p = parse-IsComplete t l dialect

after_lexer-IsSettled :
    (source : Bytes) (dialect : LpcDialect) (r : Result LexError (List Token))
    → Located (at source 1 dialect) r
    → IsSettled (after_lexer r dialect)
unfolding after_lexer
after_lexer-IsSettled source dialect (Result.thrown e) h =
    let named = FailsAt-ErrorAt e (at source 1 dialect) h in ErrorAt-ne named.0 e named.1
after_lexer-IsSettled source dialect (returned l) h = Positions-IsSettled dialect l h

name_found-IsSettled : (source : Bytes) (o : Option LpcDialect) → IsSettled (name_found source o)
unfolding name_found
name_found-IsSettled source none = tt
name_found-IsSettled source (some d) =
    after_lexer-IsSettled source d (tokenize source d) (tokenize-Located source d)

-- From any text, under any name of a dialect, lexer and parser together settle: the name is no
-- dialect's, or the lexer throws, not for want of fuel, or it gives the parser a token at least, and
-- the parser throws or returns a program with nothing but the end behind it and no body of a closure
-- left open.
pub front_end-IsSettled : (source name : Bytes) → IsSettled (front_end source name)
unfolding front_end
front_end-IsSettled source name = name_found-IsSettled source (dialect_from_string name)
