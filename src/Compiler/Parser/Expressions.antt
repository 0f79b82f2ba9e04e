-- ===== src/Compiler/Parser/Expressions.antt =====
-- src/compiler/Parser.cpp: the functions above `parsePrimary`, a level of precedence each.
use amlp.Base.{
  Bool, true, false, not, ◌||◌, List, [], ◌∷◌, Bytes, codes, same, if◌then◌else◌, ◌$◌, Option, none,
  some,
}
use Prim.Native.String.{String}
use amlp.Base.Int.{pos}
use amlp.Dialect.{fluff_os, ld_mud}
use amlp.Compiler.Lexer.{Token, ident}
use amlp.Compiler.Ast.{
  Ast, BinOp, UnaryOp, IncDecOp, inc, dec, eq, neq, lt, lte, gt, gte, add, or, and, sub, mul, div,
  modulo, bit_and, bit_or, bit_xor, shl, shr, null, string_literal, int_literal, var_ref, binary,
  ternary, call_other, to_asts, member_name_marker, index_expr, inc_dec, type_cast, assign_expr,
  index_assign_expr,
}
use amlp.Compiler.Parser.{
  Parse, Test, Calls, pure, throw, ◌>>=◌, ◌>>◌, on, choose, peek, advance, check_text, type_at,
  text_at, dialect_is, expect, expect_text, ◌also◌, ◌either◌, parsed, thrown, out_of_fuel,
  inc_dec_target, assignment_target,
}
use amlp.Compiler.Parser.Loops.{while_on}
use amlp.Compiler.Parser.Types.{type_keyword_at}
use amlp.Compiler.Parser.Parts.{parse_comma_expr, parse_arg_list}
use amlp.Compiler.Parser.Primary.{parse_primary}

-- `++` or `--` at an expression that can be assigned to.
unfoldable pub make_inc_dec : IncDecOp → Bool → Ast → Parse Ast → Parse Ast
unfolding pure
make_inc_dec op prefix (var_ref name) fail = pure (inc_dec op prefix name null null null)
make_inc_dec op prefix (index_expr target key null _ _ column) fail =
    pure (inc_dec op prefix [] target key column)
make_inc_dec op prefix _ fail = fail

-- The operator of a compound assignment.
abbrev pub compound_ops : List (String × BinOp)
compound_ops =
    ("+=", add)
    ∷ ("-=", sub)
    ∷ ("*=", mul)
    ∷ ("/=", div)
    ∷ ("%=", modulo)
    ∷ ("|=", bit_or)
    ∷ ("&=", bit_and)
    ∷ ("^=", bit_xor)
    ∷ ("<<=", shl)
    ∷ (">>=", shr)
    ∷ []

unfoldable pub check_ops : List (String × BinOp) → Test
unfolding check_text
check_ops [] p = false
check_ops ((text, _) ∷ ops) p = check_text text p || check_ops ops p

unfoldable pub check_assign_op : Test
unfolding check_text check_ops
check_assign_op p = check_text "=" p || check_ops compound_ops p

-- Whether the assignment is compound, and its operator; of `=` the operator is not used.
unfoldable pub assign_op : List (String × BinOp) → Bytes → Bool × BinOp
unfolding same
assign_op [] text = (false, add)
assign_op ((word, op) ∷ ops) text =
    if same text (codes word) then (true, op) else assign_op ops text

unfoldable pub inc_dec_op : Bytes → IncDecOp
unfolding same
inc_dec_op text = if same text (codes "++") then inc else dec

-- `m` from here, and if it gives nothing, `pos_` restored and `other`.
unfoldable pub backtrack : {A : Type 0} → Parse (Option A) → Parse A → Parse A
backtrack m other p = elim (m p) [
  | out_of_fuel ↦ out_of_fuel
  | thrown e ↦ thrown e
  | parsed none q ↦ other (record q { ahead = p.ahead })
  | parsed (some a) q ↦ parsed a q
]

-- `while (isOp) { op = …; right = operand(); left = … }`
unfoldable pub left_assoc : Test → (Bytes → BinOp) → Parse Ast → Parse Ast
unfolding while_on ◌>>=◌
left_assoc is_op op operand =
    operand >>= while_on is_op (λ t l. operand >>= λ r. pure (binary (op t.text) l r))

module _ (calls : Calls) where
  open calls use {expr, unary}

  -- `->`, behind it.
  unfoldable pub parse_arrow : Ast → Parse Ast
  unfolding expect choose ◌also◌ dialect_is check_text expect_text parse_arg_list pure ◌>>=◌
  parse_arrow target = do
    name ← expect ident (codes "call_other operator function name")
    choose (dialect_is fluff_os also (λ p. not (check_text "(" p)))
        (pure (index_expr target (member_name_marker name.text) null false false null))
        (do
          expect_text "(" "call_other operator arguments"
          (args, spread) ← parse_arg_list expr
          expect_text ")" "call_other operator arguments"
          pure (call_other target (string_literal name.text) (to_asts args) spread))

  unfoldable pub parse_from_end : Parse Bool
  unfolding on check_text pure
  parse_from_end = on (check_text "<") (λ _. pure true) (pure false)

  -- The end of a range, and whether it counts from the end.
  unfoldable pub parse_range_end : Parse (Ast × Bool)
  unfolding choose check_text parse_from_end pure ◌>>=◌
  parse_range_end =
      choose (check_text "]") (pure (int_literal (pos 2000000000), false))
        do from_end ← parse_from_end; range_end ← expr; pure (range_end, from_end)

  -- `[`, behind it.
  unfoldable pub parse_index : Ast → Parse Ast
  unfolding parse_from_end choose dialect_is parse_comma_expr on ◌also◌ check_text parse_range_end
      expect_text ◌>>=◌
  parse_index target = do
    from_end ← parse_from_end
    start ← choose (dialect_is ld_mud) expr (parse_comma_expr expr)
    (column, (range_end, end_from_end)) ←
        on (check_text "," also dialect_is ld_mud)
          (λ _. expr >>= λ column. pure (column, (null, false)))
        $ on (check_text "..") (λ _. parse_range_end >>= λ range. pure (null, range))
        $ pure (null, (null, false))
    expect_text "]" "index expression"
    pure (index_expr target start range_end from_end end_from_end column)

  -- One round of the loop, behind `->` or `[`.
  unfoldable pub parse_access : Token → Ast → Parse Ast
  unfolding parse_arrow parse_index same
  parse_access t target =
      if same t.text (codes "->") then parse_arrow target else parse_index target

  unfoldable pub parse_postfix : Parse Ast
  unfolding parse_primary while_on ◌either◌ check_text parse_access on make_inc_dec inc_dec_op throw
      pure ◌>>=◌
  parse_postfix = do
    first ← parse_primary calls
    a ← while_on (check_text "->" either check_text "[") parse_access first
    on (check_text "++" either check_text "--")
        (λ t.
          make_inc_dec (inc_dec_op t.text) false a (throw λ _. inc_dec_target false t.text t.line))
        (pure a)

  -- `(type)` or `(type *)`, behind the bracket.
  unfoldable pub parse_cast : Parse (Option Ast)
  unfolding advance on check_text pure ◌>>=◌
  parse_cast = do
    advance
    on (check_text "*") (λ _. pure tt) (pure tt)
    on (check_text ")") (λ _. unary >>= λ a. pure (some a)) (pure none)

  abbrev cast : Bool → Bytes → Ast → Ast
  cast true name a = a
  cast false name a = type_cast name a

  -- `(class name)` or `(class name *)`, behind the bracket.
  unfoldable pub parse_class_cast : Parse (Option Ast)
  unfolding advance on check_text pure ◌>>=◌
  parse_class_cast = do
    advance
    name ← advance
    star ← on (check_text "*") (λ _. pure true) (pure false)
    on (check_text ")") (λ _. unary >>= λ a. pure (some (cast star name.text a))) (pure none)

  unfoldable pub parse_unary_op : UnaryOp → Parse Ast
  unfolding pure ◌>>=◌
  parse_unary_op op = unary >>= λ a. pure (Ast.unary op a)

  -- `++` or `--`, behind it.
  unfoldable pub parse_prefix : Token → Parse Ast
  unfolding make_inc_dec inc_dec_op throw ◌>>=◌
  parse_prefix t = unary >>= λ a.
      make_inc_dec (inc_dec_op t.text) true a (throw λ p. inc_dec_target true t.text (peek p).line)

  -- The right side of an assignment to `a`, behind the operator `t`.
  unfoldable pub parse_assign_to : Token → Ast → Parse Ast
  unfolding assign_op throw ◌>>=◌
  parse_assign_to t (var_ref name) = expr >>= λ value.
      pure
        (assign_expr name value (assign_op compound_ops t.text).0 (assign_op compound_ops t.text).1)
  parse_assign_to t (index_expr target index null _ _ column) = expr >>= λ value. pure (
      index_assign_expr target index value (assign_op compound_ops t.text).0
        (assign_op compound_ops t.text).1 column)
  parse_assign_to t _ = throw (λ _. assignment_target t.line)

  unfoldable pub parse_operand : Parse Ast
  unfolding parse_postfix on check_assign_op parse_assign_to pure ◌>>=◌
  parse_operand = parse_postfix >>= λ a. on check_assign_op (λ t. parse_assign_to t a) (pure a)

  -- What may stand in front of an operand.
  unfoldable pub parse_prefixed : Parse Ast
  unfolding on ◌either◌ check_text parse_unary_op parse_prefix parse_operand
  parse_prefixed =
      on (check_text "!") (λ _. parse_unary_op UnaryOp.not)
      $ on (check_text "-") (λ _. parse_unary_op UnaryOp.neg)
      $ on (check_text "~") (λ _. parse_unary_op UnaryOp.bit_not)
      $ on (check_text "++" either check_text "--") parse_prefix
      $ parse_operand

  unfoldable pub parse_class_casted : Parse Ast
  unfolding backtrack on ◌also◌ check_text dialect_is type_at text_at parse_class_cast
      parse_prefixed
  parse_class_casted =
      backtrack (
        on
          (check_text "("
            also dialect_is fluff_os
            also type_at 1 ident
            also text_at 1 "class"
            also type_at 2 ident)
          (λ _. parse_class_cast) (pure none))
      $ parse_prefixed

  unfoldable pub parse_unary : Parse Ast
  unfolding backtrack on ◌also◌ check_text type_keyword_at parse_cast parse_class_casted
  parse_unary =
      backtrack (on (check_text "(" also type_keyword_at 1) (λ _. parse_cast) (pure none))
      $ parse_class_casted

  unfoldable pub parse_multiplicative : Parse Ast
  unfolding left_assoc ◌either◌ check_text same parse_unary
  parse_multiplicative =
      left_assoc (check_text "*" either check_text "/" either check_text "%")
        (λ t. if same t (codes "*") then mul else if same t (codes "/") then div else modulo)
        parse_unary

  unfoldable pub parse_additive : Parse Ast
  unfolding left_assoc ◌either◌ check_text same parse_multiplicative
  parse_additive =
      left_assoc (check_text "+" either check_text "-")
        (λ t. if same t (codes "+") then add else sub) parse_multiplicative

  unfoldable pub parse_shift : Parse Ast
  unfolding left_assoc ◌either◌ check_text same parse_additive
  parse_shift =
      left_assoc (check_text "<<" either check_text ">>")
        (λ t. if same t (codes "<<") then shl else shr) parse_additive

  unfoldable pub parse_comparison : Parse Ast
  unfolding left_assoc ◌either◌ check_text same parse_shift
  parse_comparison =
      left_assoc
        (check_text "<" either check_text "<=" either check_text ">" either check_text ">=")
        (λ t.
          if same t (codes "<")
          then lt
          else if same t (codes "<=")
          then lte
          else if same t (codes ">")
          then gt
          else gte)
        parse_shift

  unfoldable pub parse_equality : Parse Ast
  unfolding left_assoc ◌either◌ check_text same parse_comparison
  parse_equality =
      left_assoc (check_text "==" either check_text "!=")
        (λ t. if same t (codes "==") then eq else neq) parse_comparison

  unfoldable pub parse_bit_and : Parse Ast
  unfolding left_assoc check_text parse_equality
  parse_bit_and = left_assoc (check_text "&") (λ _. bit_and) parse_equality

  unfoldable pub parse_bit_xor : Parse Ast
  unfolding left_assoc check_text parse_bit_and
  parse_bit_xor = left_assoc (check_text "^") (λ _. bit_xor) parse_bit_and

  unfoldable pub parse_bit_or : Parse Ast
  unfolding left_assoc check_text parse_bit_xor
  parse_bit_or = left_assoc (check_text "|") (λ _. bit_or) parse_bit_xor

  unfoldable pub parse_logical_and : Parse Ast
  unfolding left_assoc check_text parse_bit_or
  parse_logical_and = left_assoc (check_text "&&") (λ _. and) parse_bit_or

  unfoldable pub parse_logical_or : Parse Ast
  unfolding left_assoc check_text parse_logical_and
  parse_logical_or = left_assoc (check_text "||") (λ _. or) parse_logical_and

  -- `parseExpr` is `parseTernary`.
  unfoldable pub parse_ternary : Parse Ast
  unfolding parse_logical_or on check_text expect_text pure ◌>>=◌
  parse_ternary = do
    condition ← parse_logical_or
    on (check_text "?")
        (λ _. do
          then_branch ← expr
          expect_text ":" "ternary expression"
          else_branch ← expr
          pure (ternary condition then_branch else_branch))
        (pure condition)

  unfoldable pub parse_expr : Parse Ast
  unfolding parse_ternary
  parse_expr = parse_ternary
