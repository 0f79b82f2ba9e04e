-- ===== src/Compiler/Parser/Total/Expressions.antt =====
-- src/compiler/Parser.cpp: `parseExpr` ends, if the functions that it calls behind a token do.
use amlp.Compiler.Parser.Loops.{left}
use amlp.Compiler.Parser.Rounds.{Goes-while_on}
use amlp.Compiler.Parser.Total.Lists.{Goes-parse_arg_list, Goes-parse_comma_expr}
use amlp.Compiler.Parser.Total.Brackets.{Goes-parse_primary}
use amlp.Compiler.Lexer.{Token}
use Prim.Native.String.{String}
use amlp.Compiler.Parser.Expressions.{
  parse_multiplicative, parse_ternary, parse_additive, parse_shift, parse_comparison,
  parse_equality, parse_bit_and, parse_bit_xor, parse_bit_or, parse_logical_and, compound_ops,
  parse_access, parse_arrow, parse_assign_to, parse_cast, parse_class_cast, parse_expr, parse_index,
  parse_logical_or, parse_operand, parse_postfix, parse_prefix, parse_range_end, parse_unary,
  parse_class_casted, parse_prefixed, parse_unary_op, backtrack, left_assoc, make_inc_dec,
  check_assign_op, check_ops,
}
use amlp.Compiler.Ast.{index_expr, var_ref, Ast, BinOp, UnaryOp, IncDecOp, null}
use amlp.Compiler.Parser.{Outcome, Parser, Parse, Test, Calls, out_of_fuel, parsed, thrown}
use amlp.Base.{
  [], ◌∷◌, ◌$◌, codes, ◌<◌, same, case, Bool, Bytes, Option, List, ℕ, arith, none, some, suc,
}
use amlp.Compiler.Parser.Progress.{
  Goes-throw, Follows-trans, Follows, Goes-earlier, Goes-pure, Goes-bind, Goes-on,
  Guards-check_text, Goes, Guards, goes, guards,
}

Guards-check_ops : (ops : List (String × BinOp)) → Guards (check_ops ops)
unfolding check_ops
Guards-check_ops [] = record { at = λ p h. cc }
Guards-check_ops ((text, op) ∷ ops) = record {
  at = λ p h. ground (arith, (Guards-check_text text).at p, (Guards-check_ops ops).at p);
}

pub Guards-check_assign_op : Guards check_assign_op
unfolding check_assign_op
Guards-check_assign_op = record {
  at = λ p h. ground (arith, (Guards-check_text "=").at p, (Guards-check_ops compound_ops).at p);
}

module _ {A : Type 0} {n : ℕ} where
  restored-Follows :
      (other : Parse A) (p : Parser) (o : Outcome (Option A))
      → Goes n other
      → left p < n
      → Follows 0 p o
      → Follows 0 p (backtrack (λ _. o) other p)
  unfolding backtrack
  restored-Follows other p out_of_fuel ho l h = h
  restored-Follows other p (thrown e) ho l h = tt
  restored-Follows other p (parsed none q) ho l h =
      Follows-trans 0 0 _ (record { ahead = omega arith; params = h.params; bounds = h.bounds })
        (ho.at (record q { ahead = p.ahead }) l)
  restored-Follows other p (parsed (some a) q) ho l h = h

  pub Goes-backtrack :
      (m : Parse (Option A)) (other : Parse A)
      → Goes n m
      → Goes n other
      → Goes n (backtrack m other)
  unfolding backtrack
  Goes-backtrack m other hm ho = record {
    at = λ p l. restored-Follows other p (m p) ho l (hm.at p l);
  }

module _ {n : ℕ} where
  pub Goes-left_assoc :
      (t : Test) (op : Bytes → BinOp) (m : Parse Ast)
      → Guards t
      → Goes n m
      → Goes n (left_assoc t op m)
  unfolding left_assoc
  Goes-left_assoc t op m g hm = search (goes, Goes-while_on, Goes-earlier) depth 8

  Goes-make_inc_dec :
      (op : IncDecOp) (prefix : Bool) (a : Ast) (fail : Parse Ast)
      → Goes n fail
      → Goes n (make_inc_dec op prefix a fail)
  unfolding make_inc_dec
  Goes-make_inc_dec op prefix (var_ref name) fail h = Goes-pure _
  Goes-make_inc_dec op prefix (index_expr target key null from to column) fail h = Goes-pure _
  Goes-make_inc_dec op prefix _ fail h = h

module _ {n : ℕ} (calls : Calls) (he : Goes n calls.expr) where
  Goes-parse_arrow : (target : Ast) → Goes n (parse_arrow calls target)
  unfolding parse_arrow
  Goes-parse_arrow target = search (goes, Goes-parse_arg_list) depth 12

  Goes-parse_range_end : Goes n (parse_range_end calls)
  unfolding parse_range_end
  Goes-parse_range_end = search goes depth 12

  Goes-parse_index : (target : Ast) → Goes n (parse_index calls target)
  unfolding parse_index
  Goes-parse_index target = search (goes, Goes-parse_comma_expr, Goes-parse_range_end) depth 16

  Goes-parse_access : (t : Token) (target : Ast) → Goes n (parse_access calls t target)
  unfolding parse_access
  Goes-parse_access t target =
      case (Goes n) (same t.text (codes "->")) (λ _. Goes-parse_arrow target)
      $ Goes-parse_index target

  Goes-parse_assign_to : (t : Token) (a : Ast) → Goes n (parse_assign_to calls t a)
  unfolding parse_assign_to
  Goes-parse_assign_to t (var_ref name) = search goes
  Goes-parse_assign_to t (index_expr target key null from to column) = search goes
  Goes-parse_assign_to t _ = Goes-throw _

module _ {n : ℕ} (calls : Calls) (hu : Goes n calls.unary) where
  Goes-parse_cast : Goes n (parse_cast calls)
  unfolding parse_cast
  Goes-parse_cast = search goes depth 12

  Goes-parse_class_cast : Goes n (parse_class_cast calls)
  unfolding parse_class_cast
  Goes-parse_class_cast = search goes depth 12

  Goes-parse_unary_op : (op : UnaryOp) → Goes n (parse_unary_op calls op)
  unfolding parse_unary_op
  Goes-parse_unary_op op = search goes

  Goes-parse_prefix : (t : Token) → Goes n (parse_prefix calls t)
  unfolding parse_prefix
  Goes-parse_prefix t = search (goes, Goes-make_inc_dec)

module _ {n : ℕ} (calls : Calls) (he : Goes n calls.expr) (hb : Goes n calls.block) where
  pub Goes-parse_postfix : Goes (suc n) (parse_postfix calls)
  unfolding parse_postfix
  Goes-parse_postfix =
      search (goes, Goes-parse_primary, Goes-while_on, Goes-parse_access, Goes-make_inc_dec) depth
        12

  Goes-parse_operand : Goes (suc n) (parse_operand calls)
  unfolding parse_operand
  Goes-parse_operand = Goes-bind (parse_postfix calls) _ Goes-parse_postfix λ a.
      Goes-on check_assign_op _ _ Guards-check_assign_op (λ t. Goes-parse_assign_to calls he t a)
        (Goes-pure a)

module _ {n : ℕ} (calls : Calls) (he : Goes n calls.expr) (hu : Goes n calls.unary)
    (hb : Goes n calls.block) where
  pub Goes-parse_unary : Goes (suc n) (parse_unary calls)
  unfolding parse_unary parse_class_casted parse_prefixed
  Goes-parse_unary =
      search
        (
          Goes-backtrack, Goes-on, Goes-pure, guards, Goes-parse_cast, Goes-parse_class_cast,
          Goes-parse_unary_op, Goes-parse_prefix, Goes-parse_operand,
        )
        depth 20

  pub Goes-parse_logical_or : Goes (suc n) (parse_logical_or calls)
  unfolding parse_logical_or parse_logical_and parse_bit_or parse_bit_xor parse_bit_and
      parse_equality parse_comparison parse_shift parse_additive parse_multiplicative
  Goes-parse_logical_or = search (Goes-left_assoc, guards, Goes-parse_unary) depth 20

  pub Goes-parse_expr : Goes (suc n) (parse_expr calls)
  unfolding parse_expr parse_ternary
  Goes-parse_expr = search (goes, Goes-on, Goes-parse_logical_or) depth 12
