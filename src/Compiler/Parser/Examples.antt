-- ===== src/Compiler/Parser/Examples.antt =====
-- Runs of the parser at concrete input.
use amlp.Compiler.Parser.Types.{one_of}
use amlp.Compiler.Parser.Precedence.Reading.{parse_expr-render}
use amlp.Compiler.Parser.Precedence.Atoms.{from}
use amlp.Compiler.Parser.Expressions.{parse_expr}
use amlp.Compiler.Parser.Precedence.{
  name, sym, IsPlain, tree, semicolon, stop_token, render, infix_op, conditional, Expr,
}
use amlp.Base.{same, length, ◌++◌, arith, true, codes, List, [], ◌∷◌, ◌≡◌, refl}
use Prim.Native.String.{String}
use amlp.Dialect.{ld_mud}
use amlp.Compiler.Lexer.{TokenType, token}
use amlp.Compiler.Ast.{
  UnaryOp, Ast, FunctionDecl, block, asts, no_asts, var_ref, null, ternary, binary, lt, mul, sub,
  unary, bit_or, expr_stmt,
}
use amlp.Compiler.Parser.{parsed, thrown, expected_expression}
use amlp.Compiler.Parser.Declarations.{parser, calls_of, parse}
use amlp.Compiler.Parser.Total.Declarations.{IsComplete, parse-IsComplete}
use amlp.Compiler.FrontEnd.{Front, parser_ended, front_end, IsSettled, front_end-IsSettled}

abbrev body_of : List FunctionDecl → Ast
body_of [] = null
body_of (f ∷ _) = f.body

-- The body of the first function.
abbrev body : Front → Ast
body (parser_ended (parsed program _)) = body_of program.functions
body _ = null

-- A statement alone in a function.
abbrev parsed_body : String → Ast
parsed_body source = body (front_end (codes source) (codes "fluffos"))

precedence :
    parsed_body "f() { -a * b - c | d < e ? a : b; }"
    ≡ block
        (asts
          (expr_stmt (
            ternary
              (binary bit_or
                (binary sub
                  (binary mul (unary UnaryOp.neg (var_ref (codes "a"))) (var_ref (codes "b")))
                  (var_ref (codes "c")))
                (binary lt (var_ref (codes "d")) (var_ref (codes "e"))))
              (var_ref (codes "a"))
              (var_ref (codes "b"))))
          no_asts)
        true
unfolding front_end
precedence = refl

-- An assignment keeps nothing of how its index counts.
from_end_dropped : parsed_body "f() { a[<1] = 4; }" ≡ parsed_body "f() { a[1] = 4; }"
unfolding front_end
from_end_dropped = refl

-- As a statement, an assignment to a range is one to its start.
range_dropped : parsed_body "f() { a[1..2] = 4; }" ≡ parsed_body "f() { a[1] = 4; }"
unfolding front_end
range_dropped = refl

-- A string literal behind a bracket is taken for the bracket that it spells.
bracket_literal :
    front_end (codes "f() { g((\"[\")); }") (codes "fluffos")
    ≡ parser_ended (thrown (expected_expression 1 (codes ")")))
unfolding front_end
bracket_literal = refl

parse-IsComplete_example : IsComplete (
    parse
      (token TokenType.keyword (codes "int") 1)
      (token TokenType.ident (codes "x") 1
        ∷ token TokenType.symbol (codes ";") 1
        ∷ token TokenType.end [] 1
        ∷ [])
      ld_mud)
parse-IsComplete_example =
    parse-IsComplete (token TokenType.keyword (codes "int") 1)
      (token TokenType.ident (codes "x") 1
        ∷ token TokenType.symbol (codes ";") 1
        ∷ token TokenType.end [] 1
        ∷ [])
      ld_mud

front_end-IsSettled_example :
    IsSettled (front_end (codes "int f() { return 1 + 2; }") (codes "dgd"))
front_end-IsSettled_example = front_end-IsSettled (codes "int f() { return 1 + 2; }") (codes "dgd")

-- `a - b * c - d ? e : f`
abbrev sample : Expr
sample =
    conditional
      (infix_op sub
        (infix_op sub (name (codes "a")) (infix_op mul (name (codes "b")) (name (codes "c"))))
        (name (codes "d")))
      (name (codes "e")) (name (codes "f"))

sample-IsPlain : IsPlain sample
unfolding one_of same
sample-IsPlain =
    ((((refl, refl), ((refl, refl), (refl, refl))), (refl, refl)), ((refl, refl), (refl, refl)))

length-sample : length (render 11 sample) ≡ 11
unfolding render
length-sample = refl

parse_expr-render_example :
    parse_expr
      (calls_of 20)
      (from (parser (sym ";") [] ld_mud) (render 11 sample ++ stop_token semicolon ∷ []))
    ≡ parsed (tree sample) (from (parser (sym ";") [] ld_mud) (stop_token semicolon ∷ []))
parse_expr-render_example =
    parse_expr-render sample 20 (parser (sym ";") [] ld_mud) semicolon [] sample-IsPlain
      (omega arith) (omega (arith, length-sample))
