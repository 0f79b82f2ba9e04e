-- ===== src/Compiler/Parser/Total/Statements.antt =====
-- src/compiler/Parser.cpp: a statement ends behind its first token, if the functions that it calls
-- behind a token do.
use amlp.Compiler.Parser.Total.Expressions.{Guards-check_assign_op}
use amlp.Compiler.Parser.Total.Tries.{
  Eats-backtrack, Tries-none, Tries-bind, Tries-on, Tries-choose, Tries,
}
use amlp.Compiler.Ast.{index_expr, Ast}
use amlp.Compiler.Parser.Rounds.{Goes-push, Goes-while_on, Goes-until}
use Prim.Native.String.{String}
use amlp.Compiler.Parser.Expressions.{parse_postfix, parse_expr}
use amlp.Compiler.Parser.{Calls}
use amlp.Compiler.Parser.Total.Lists.{
  Goes-consume_array_marker, Goes-parse_comma_expr, Goes-parse_type_token,
}
use amlp.Compiler.Parser.Statements.{
  parse_statement, continue_statement_comma_chain, parse_assign_index, parse_assign_statement,
  parse_case, parse_chain, parse_comma, parse_comma_expr_chain, parse_do_while_statement,
  parse_expr_statement, parse_for_init, parse_for_statement, parse_foreach_statement,
  parse_if_statement, parse_index_assign, parse_more_var_decls, parse_return_statement,
  parse_single_var_decl, parse_switch_item, parse_switch_statement, parse_var_decl_statement,
  parse_while_statement, parse_block, parse_branch, parse_foreach_var, parse_jump,
}
use amlp.Base.{Bool, Bytes, List, ℕ, suc}
use amlp.Compiler.Parser.Progress.{
  guards, Goes-pure, Eats-on, Eats-Goes, Goes-earlier, Eats-throw, Eats-expect_text, Eats-expect,
  Goes, Eats, goes, Eats-bind_left, Eats-bind_right, Eats-bind_step, Eats-choose, Eats-on_same,
}

ruleset eats = (
  goes, Eats-bind_left, Eats-bind_right, Eats-choose, Eats-on_same, Eats-expect, Eats-expect_text,
  Eats-throw,
)

pub Goes-parse_foreach_var : {n : ℕ} → Goes n parse_foreach_var
unfolding parse_foreach_var
Goes-parse_foreach_var {n} = search (goes, Goes-parse_type_token) depth 12

-- What needs expressions only.
module _ {n : ℕ} (calls : Calls) (hx : Goes n (parse_expr calls)) where
  Goes-parse_comma : Goes n (parse_comma calls)
  unfolding parse_comma
  Goes-parse_comma = Goes-parse_comma_expr (parse_expr calls) hx

  Goes-parse_chain : (l : List Ast) → Goes n (parse_chain calls l)
  unfolding parse_chain
  Goes-parse_chain l = search (goes, Goes-while_on, Goes-earlier, Goes-push) depth 12

  Goes-parse_comma_expr_chain : Goes n (parse_comma_expr_chain calls)
  unfolding parse_comma_expr_chain
  Goes-parse_comma_expr_chain = search (goes, Goes-parse_chain)

  Goes-continue_statement_comma_chain : (a : Ast) → Goes n (continue_statement_comma_chain calls a)
  unfolding continue_statement_comma_chain
  Goes-continue_statement_comma_chain a = search (goes, Goes-parse_chain)

  Goes-parse_single_var_decl :
      (type : Bytes) (is_array : Bool) → Goes n (parse_single_var_decl calls type is_array)
  unfolding parse_single_var_decl
  Goes-parse_single_var_decl type is_array = search goes depth 8

  Goes-parse_more_var_decls :
      (type : Bytes) (l : List Ast) → Goes n (parse_more_var_decls calls type l)
  unfolding parse_more_var_decls
  Goes-parse_more_var_decls type l =
      search
        (
          goes, Goes-while_on, Goes-earlier, Goes-push, Goes-consume_array_marker,
          Goes-parse_single_var_decl,
        )
        depth 12

  Goes-parse_for_init : Goes n (parse_for_init calls)
  unfolding parse_for_init
  Goes-parse_for_init =
      search (goes, Goes-parse_type_token, Goes-parse_single_var_decl, Goes-parse_comma_expr_chain)
        depth 8

  Goes-parse_case : Goes n (parse_case calls)
  unfolding parse_case
  Goes-parse_case = search goes depth 8

  Eats-parse_return_statement : Eats n (parse_return_statement calls)
  unfolding parse_return_statement
  Eats-parse_return_statement = search (eats, Goes-parse_comma) depth 8

  Eats-parse_var_decl_statement : Eats n (parse_var_decl_statement calls)
  unfolding parse_var_decl_statement
  Eats-parse_var_decl_statement =
      search (eats, Goes-parse_type_token, Goes-parse_single_var_decl, Goes-parse_more_var_decls)
        depth 12

  Eats-parse_assign_statement : Eats n (parse_assign_statement calls)
  unfolding parse_assign_statement
  Eats-parse_assign_statement = search (eats, Goes-continue_statement_comma_chain) depth 12

  Eats-parse_expr_statement : Eats n (parse_expr_statement calls)
  unfolding parse_expr_statement
  Eats-parse_expr_statement = search (eats, Goes-continue_statement_comma_chain) depth 12

  Tries-parse_assign_index : (a : Ast) → Tries n (parse_assign_index calls a)
  unfolding parse_assign_index
  Tries-parse_assign_index (index_expr target index range_end from to column) =
      search (goes, Tries-on, Guards-check_assign_op, Goes-continue_statement_comma_chain) depth 8
  Tries-parse_assign_index _ = Tries-none

  Tries-parse_index_assign : Goes n (parse_postfix calls) → Tries n (parse_index_assign calls)
  unfolding parse_index_assign
  Tries-parse_index_assign hp =
      Tries-choose _ _ _ (Tries-bind (parse_postfix calls) _ hp Tries-parse_assign_index) Tries-none

Eats-parse_jump :
    {n : ℕ} (calls : Calls) (word context : String) (jump : Ast)
    → Eats n (parse_jump calls word context jump)
unfolding parse_jump
Eats-parse_jump {n} calls word context jump = search eats depth 8

module _ {n : ℕ} (calls : Calls) (hs : Eats n calls.statement) where
  pub Eats-parse_block : Eats (suc n) (parse_block calls)
  unfolding parse_block
  Eats-parse_block = search (goes, Eats-bind_step, Eats-expect_text, Goes-until) depth 8

  Goes-parse_branch : Goes n (parse_branch calls)
  unfolding parse_branch
  Goes-parse_branch = search (goes, Goes-earlier, Eats-Goes, Eats-parse_block) depth 8

module _ {n : ℕ} (calls : Calls) (hx : Goes n (parse_expr calls))
    (hs : Eats n calls.statement) where
  Eats-parse_if_statement : Eats (suc n) (parse_if_statement calls)
  unfolding parse_if_statement
  Eats-parse_if_statement =
      search (goes, Eats-bind_step, Eats-expect_text, Goes-parse_comma, Goes-parse_branch) depth 12

  Eats-parse_while_statement : Eats (suc n) (parse_while_statement calls)
  unfolding parse_while_statement
  Eats-parse_while_statement =
      search (goes, Eats-bind_step, Eats-expect_text, Goes-parse_comma, Goes-parse_branch) depth 12

  Eats-parse_do_while_statement : Eats (suc n) (parse_do_while_statement calls)
  unfolding parse_do_while_statement
  Eats-parse_do_while_statement =
      search (goes, Eats-bind_step, Eats-expect_text, Goes-parse_comma, Goes-parse_branch) depth 12

  Eats-parse_for_statement : Eats (suc n) (parse_for_statement calls)
  unfolding parse_for_statement
  Eats-parse_for_statement =
      search
        (
          goes, Eats-bind_step, Eats-expect_text, Goes-parse_for_init, Goes-parse_comma,
          Goes-parse_comma_expr_chain, Goes-parse_branch,
        )
        depth 14

  Eats-parse_foreach_statement : Eats (suc n) (parse_foreach_statement calls)
  unfolding parse_foreach_statement
  Eats-parse_foreach_statement =
      search (goes, Eats-bind_step, Eats-expect_text, Goes-parse_foreach_var, Goes-parse_branch)
        depth 14

  Eats-parse_switch_item : Eats n (parse_switch_item calls)
  unfolding parse_switch_item
  Eats-parse_switch_item = search (eats, Goes-parse_case) depth 8

  Eats-parse_switch_statement : Eats (suc n) (parse_switch_statement calls)
  unfolding parse_switch_statement
  Eats-parse_switch_statement =
      search
        (
          goes, Eats-bind_step, Eats-expect_text, Goes-parse_comma, Goes-until,
          Eats-parse_switch_item,
        )
        depth 12

module _ {n : ℕ} (calls : Calls) (hx : Goes (suc n) (parse_expr calls))
    (hp : Goes (suc n) (parse_postfix calls)) (hs : Eats n calls.statement) where
  pub Eats-parse_statement : Eats (suc n) (parse_statement calls)
  unfolding parse_statement
  Eats-parse_statement =
      let hx' : Goes n (parse_expr calls) = Goes-earlier (parse_expr calls) hx in
      search
        (
          Eats-on, Eats-choose, Eats-backtrack, Goes-pure, guards, Eats-parse_block,
          Eats-parse_if_statement, Eats-parse_while_statement, Eats-parse_do_while_statement,
          Eats-parse_for_statement, Eats-parse_foreach_statement, Eats-parse_switch_statement,
          Eats-parse_return_statement, Eats-parse_jump, Eats-parse_var_decl_statement,
          Eats-parse_assign_statement, Eats-parse_expr_statement, Tries-parse_index_assign,
        )
        depth 20
