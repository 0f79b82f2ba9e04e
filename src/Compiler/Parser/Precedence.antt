-- ===== src/Compiler/Parser/Precedence.antt =====
-- src/compiler/Parser.cpp: expressions written as tokens with the fewest brackets, to be read back.
pub mod Steps
pub mod Stops
pub mod Atoms
pub mod Levels
pub mod Lifts
pub mod Reading
use amlp.Base.{ℕ, zero, suc, ◌-◌, ◌≡◌, Bool, true, false, List, [], ◌∷◌, ◌++◌, Bytes, codes, leb}
use Prim.Native.String.{String}
use amlp.Compiler.Lexer.{Token, TokenType, token}
use amlp.Compiler.Ast.{
  Ast, BinOp, UnaryOp, eq, neq, lt, lte, gt, gte, add, or, and, sub, mul, div, modulo, bit_and,
  bit_or, bit_xor, shl, shr, not, neg, bit_not, var_ref, string_literal, unary, binary, ternary,
}
use amlp.Compiler.Parser.{Parse, Calls}
use amlp.Compiler.Parser.Types.{one_of}
use amlp.Compiler.Parser.Outputs.{is_dollar}
use amlp.Compiler.Parser.Expressions.{
  parse_unary, parse_multiplicative, parse_additive, parse_shift, parse_comparison, parse_equality,
  parse_bit_and, parse_bit_xor, parse_bit_or, parse_logical_and, parse_logical_or, parse_expr,
}

-- The expressions: names, string literals and the operators on them.
pub data Expr : Type 0 where
  name text : Bytes → Expr
  prefix : UnaryOp → Expr → Expr
  infix_op : BinOp → Expr → Expr → Expr
  conditional : Expr → Expr → Expr → Expr

unfoldable pub tree : Expr → Ast
tree (name x) = var_ref x
tree (text s) = string_literal s
tree (prefix o e) = unary o (tree e)
tree (infix_op o l r) = binary o (tree l) (tree r)
tree (conditional c a b) = ternary (tree c) (tree a) (tree b)

-- How loosely an operator binds: its level above `parseUnary`.
abbrev pub level : BinOp → ℕ
level mul = 1
level div = 1
level modulo = 1
level add = 2
level sub = 2
level shl = 3
level shr = 3
level lt = 4
level lte = 4
level gt = 4
level gte = 4
level eq = 5
level neq = 5
level bit_and = 6
level bit_xor = 7
level bit_or = 8
level and = 9
level or = 10

abbrev pub spelling : BinOp → String
spelling mul = "*"
spelling div = "/"
spelling modulo = "%"
spelling add = "+"
spelling sub = "-"
spelling shl = "<<"
spelling shr = ">>"
spelling lt = "<"
spelling lte = "<="
spelling gt = ">"
spelling gte = ">="
spelling eq = "=="
spelling neq = "!="
spelling bit_and = "&"
spelling bit_xor = "^"
spelling bit_or = "|"
spelling and = "&&"
spelling or = "||"

abbrev pub prefix_spelling : UnaryOp → String
prefix_spelling not = "!"
prefix_spelling neg = "-"
prefix_spelling bit_not = "~"

-- A symbol of line 1; the parser reads lines only for its messages.
abbrev pub sym : String → Token
sym s = token TokenType.symbol (codes s) 1

abbrev pub bracketed : Bool → List Token → List Token
bracketed true l = l
bracketed false l = sym "(" ∷ (l ++ sym ")" ∷ [])

-- The tokens of an expression where an operator of level `k` may stand bare.
unfoldable pub render : ℕ → Expr → List Token
render k (name x) = token TokenType.ident x 1 ∷ []
render k (text s) = token TokenType.string s 1 ∷ []
render k (prefix o e) = sym (prefix_spelling o) ∷ render 0 e
render k (infix_op o l r) =
    bracketed (leb (level o) k) (render (level o) l ++ sym (spelling o) ∷ render (level o - 1) r)
render k (conditional c a b) =
    bracketed (leb 11 k) (render 10 c ++ sym "?" ∷ (render 11 a ++ sym ":" ∷ render 11 b))

-- The texts that, behind an opening bracket, are taken for a symbol or for `class`.
abbrev pub misread : List String
misread = "[" ∷ ":" ∷ "*" ∷ "{" ∷ "class" ∷ []

-- The names are no `$N`, and no name or literal is a text that is misread.
abbrev pub IsPlain : Expr → Type 0
IsPlain (name x) = (is_dollar x ≡ false) × (one_of misread x ≡ false)
IsPlain (text s) = one_of misread s ≡ false
IsPlain (prefix o e) = IsPlain e
IsPlain (infix_op o l r) = IsPlain l × IsPlain r
IsPlain (conditional c a b) = IsPlain c × (IsPlain a × IsPlain b)

-- The tokens that may follow an expression: operators, and what ends it.
pub data Stop : Type 0 where
  operator : BinOp → Stop
  question colon close_bracket semicolon no_more : Stop

abbrev pub stop_token : Stop → Token
stop_token (operator o) = sym (spelling o)
stop_token question = sym "?"
stop_token colon = sym ":"
stop_token close_bracket = sym ")"
stop_token semicolon = sym ";"
stop_token no_more = token TokenType.end [] 1

abbrev pub loudness : Stop → ℕ
loudness (operator o) = level o
loudness question = 11
loudness _ = 12

-- The function that reads level `k`.
unfoldable pub parse_at : ℕ → Calls → Parse Ast
parse_at zero calls = parse_unary calls
parse_at (suc zero) calls = parse_multiplicative calls
parse_at (suc (suc zero)) calls = parse_additive calls
parse_at (suc (suc (suc zero))) calls = parse_shift calls
parse_at (suc (suc (suc (suc zero)))) calls = parse_comparison calls
parse_at (suc (suc (suc (suc (suc zero))))) calls = parse_equality calls
parse_at (suc (suc (suc (suc (suc (suc zero)))))) calls = parse_bit_and calls
parse_at (suc (suc (suc (suc (suc (suc (suc zero))))))) calls = parse_bit_xor calls
parse_at (suc (suc (suc (suc (suc (suc (suc (suc zero)))))))) calls = parse_bit_or calls
parse_at (suc (suc (suc (suc (suc (suc (suc (suc (suc zero))))))))) calls = parse_logical_and calls
parse_at (suc (suc (suc (suc (suc (suc (suc (suc (suc (suc zero)))))))))) calls =
    parse_logical_or calls
parse_at _ calls = parse_expr calls
