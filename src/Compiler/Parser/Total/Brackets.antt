-- ===== src/Compiler/Parser/Total/Brackets.antt =====
-- src/compiler/Parser.cpp: `parsePrimary` ends, if the functions that it calls do.
use amlp.Persist.{stoi}
use amlp.Dialect.{fluff_os}
use amlp.Base.Int.{is_below_one}
use amlp.Compiler.Parser.Parts.{any, number_result}
use amlp.Compiler.Parser.Total.Lambdas.{Goes-use_param, Goes-in_lambda, Goes-push_bound_value}
use amlp.Compiler.Parser.Rounds.{Goes-push, Goes-while_on, Goes-comma_list, Goes-comma_loop}
use Prim.Native.String.{String}
use amlp.Compiler.Ast.{Asts, Ast}
use amlp.Compiler.Parser.Total.Lists.{
  Goes-lift, Goes-number_literal, Goes-parse_string, Guards-check_type_keyword, Goes-number_result,
  Goes-parse_arg_list, Goes-parse_comma_expr, Goes-parse_param_list, Goes-parse_spread_list,
}
use amlp.Compiler.Parser.Primary.{parse_name, parse_primary}
use amlp.Compiler.Parser.Brackets.{
  parse_anon_function, parse_array, parse_bare_closure, parse_bound_value, parse_call,
  parse_call_rest, parse_catch, parse_columns, parse_efun_call, parse_entry, parse_field_init,
  parse_lambda, parse_mapping, parse_new_class, parse_parent_call, parse_parenthesized,
  parse_pointer_call, parse_qualified_parent_call, parse_quoted_closure,
}
use amlp.Compiler.Parser.{text_at, check_text, dialect_is, ◌also◌, Calls}
use amlp.Compiler.Parser.Outputs.{
  named, rest_of, same_width, add_entry, make_call, make_call_other, make_sscanf, parse_param_ref,
}
use amlp.Base.{
  [], ◌||◌, ◌∷◌, Bool-cases, ◌$◌, codes, length, same, Option, case, Bool, Bytes, List, ℕ, inl, inr,
  suc,
}
use amlp.Compiler.Parser.Progress.{
  Guards-check_text, Goes-on_same, guards, Goes-on, Goes-pure, Goes-bind, Goes-earlier, Goes-throw,
  Goes-choose, Goes, Eats, Guards, goes,
}

-- What the functions do that a body calls behind a token.
pub record IsTotal (n : ℕ) (calls : Calls) : Type 0 where
  pub expr : Goes n calls.expr
  pub unary : Goes n calls.unary
  pub block : Goes n calls.block
  pub statement : Eats n calls.statement

module _ {n : ℕ} where
  Goes-parse_param_ref : (name : Bytes) → Goes n (parse_param_ref name)
  unfolding parse_param_ref
  Goes-parse_param_ref name = Goes-choose _ _ _ (Goes-throw _) (
      Goes-bind (number_result (stoi (rest_of name))) _ (Goes-number_result _) λ k.
        elim (Bool-cases (is_below_one k)) [
          | inl e ↦ rw e (Goes-throw _)
          | inr e ↦ rw e (Goes-use_param _)
        ])

  Goes-make_sscanf : (args : List Ast) (spread : List Bool) → Goes n (make_sscanf args spread)
  unfolding make_sscanf
  Goes-make_sscanf [] spread = Goes-throw _
  Goes-make_sscanf (_ ∷ []) spread = Goes-throw _
  Goes-make_sscanf (_ ∷ (_ ∷ args)) spread = elim (Bool-cases (any spread)) [
    | inl e ↦ rw e (Goes-throw _)
    | inr e ↦ rw e (search (goes, Goes-lift))
  ]

  Goes-make_call_other :
      (args : List Ast) (spread : List Bool) → Goes n (make_call_other args spread)
  unfolding make_call_other
  Goes-make_call_other [] spread = Goes-throw _
  Goes-make_call_other (_ ∷ []) spread = Goes-throw _
  Goes-make_call_other (_ ∷ (_ ∷ args)) [] = Goes-pure _
  Goes-make_call_other (_ ∷ (_ ∷ args)) (_ ∷ []) = Goes-pure _
  Goes-make_call_other (_ ∷ (_ ∷ args)) (a ∷ b ∷ spread) = elim (Bool-cases (a || b)) [
    | inl e ↦ rw e (Goes-throw _)
    | inr e ↦ rw e (Goes-pure _)
  ]

  Goes-make_call :
      (name : Bytes) (args : List Ast) (spread : List Bool) → Goes n (make_call name args spread)
  unfolding make_call
  Goes-make_call name args spread =
      case (Goes n) (same name (codes "sscanf")) (λ _. Goes-make_sscanf args spread)
      $ case (Goes n) (same name (codes "call_other")) (λ _. Goes-make_call_other args spread)
      $ Goes-pure _

  Goes-add_entry :
      (entries : List (Ast × Asts)) (width : Option ℕ) (key : Ast) (values : List Ast)
      → Goes n (add_entry entries width key values)
  unfolding add_entry
  Goes-add_entry entries width key values =
      case (Goes n) (same_width width (length values)) (λ _. Goes-pure _) $ Goes-throw _

  Goes-parse_quoted_closure : (calls : Calls) → Goes n (parse_quoted_closure calls)
  unfolding parse_quoted_closure
  Goes-parse_quoted_closure calls = search goes depth 12

module _ {n : ℕ} (calls : Calls) (he : Goes n calls.expr) where
  Goes-parse_call_rest : (context : String) → Goes n (parse_call_rest calls context)
  unfolding parse_call_rest
  Goes-parse_call_rest context = search (goes, Goes-parse_arg_list)

  pub Goes-parse_qualified_parent_call : (q : Bytes) → Goes n (parse_qualified_parent_call calls q)
  unfolding parse_qualified_parent_call
  Goes-parse_qualified_parent_call q = search (goes, Goes-parse_call_rest) depth 12

  Goes-parse_parent_call : Goes n (parse_parent_call calls)
  unfolding parse_parent_call
  Goes-parse_parent_call = search (goes, Goes-parse_call_rest) depth 12

  Goes-parse_efun_call : Goes n (parse_efun_call calls)
  unfolding parse_efun_call
  Goes-parse_efun_call = search (goes, Goes-parse_call_rest) depth 12

  Goes-parse_bound_value : Goes n (parse_bound_value calls)
  unfolding parse_bound_value
  Goes-parse_bound_value = search (goes, Goes-parse_comma_expr, Goes-push_bound_value) depth 12

  Goes-parse_columns : (value : Ast) → Goes n (parse_columns calls value)
  unfolding parse_columns
  Goes-parse_columns value = search (goes, Goes-while_on, Goes-earlier, Goes-push) depth 12

  Goes-parse_entry : (e : List (Ast × Asts) × Option ℕ) → Goes n (parse_entry calls e)
  unfolding parse_entry
  Goes-parse_entry (entries, width) = search (goes, Goes-parse_columns, Goes-add_entry) depth 12

  Goes-parse_mapping : Goes n (parse_mapping calls)
  unfolding parse_mapping
  Goes-parse_mapping = search (goes, Goes-comma_loop, Goes-parse_entry) depth 12

  Goes-parse_array : Goes n (parse_array calls)
  unfolding parse_array
  Goes-parse_array = search (goes, Goes-parse_spread_list) depth 12

  Goes-parse_bare_closure : Goes n (parse_bare_closure calls)
  unfolding parse_bare_closure
  Goes-parse_bare_closure = search (goes, Goes-comma_list) depth 12

  Goes-parse_lambda : Goes n (parse_lambda calls)
  unfolding parse_lambda
  Goes-parse_lambda = search (goes, Goes-comma_list, Goes-in_lambda) depth 12

  Goes-parse_pointer_call : Goes n (parse_pointer_call calls)
  unfolding parse_pointer_call
  Goes-parse_pointer_call = search (goes, Goes-parse_arg_list) depth 16

  Goes-parse_parenthesized : Goes n (parse_parenthesized calls)
  unfolding parse_parenthesized
  Goes-parse_parenthesized = search (goes, Goes-parse_comma_expr) depth 12

  Goes-parse_field_init : Goes n (parse_field_init calls)
  unfolding parse_field_init
  Goes-parse_field_init = search goes depth 12

  Goes-parse_new_class : Goes n (parse_new_class calls)
  unfolding parse_new_class
  Goes-parse_new_class = search (goes, Goes-comma_list, Goes-parse_field_init) depth 12

  Goes-parse_catch : Goes n (parse_catch calls)
  unfolding parse_catch
  Goes-parse_catch = search (goes, Goes-parse_comma_expr) depth 12

  Goes-parse_call : (name : Bytes) → Goes n (parse_call calls name)
  unfolding parse_call
  Goes-parse_call name = search (goes, Goes-parse_arg_list, Goes-make_call) depth 12

module _ {n : ℕ} (calls : Calls) (hb : Goes n calls.block) where
  Goes-parse_anon_function : Goes n (parse_anon_function calls)
  unfolding parse_anon_function
  Goes-parse_anon_function = search (goes, Goes-parse_param_list) depth 12

module _ {n : ℕ} (calls : Calls) (he : Goes n calls.expr) (hb : Goes n calls.block) where
  Goes-parse_name : (name : Bytes) → Goes n (parse_name calls name)
  unfolding parse_name
  Goes-parse_name name =
      let new : Guards
          (named name "new" also dialect_is fluff_os also check_text "(" also text_at 1 "class") =
        search guards in
      let efun : Guards (named name "efun" also check_text "::") = search guards in
      let catching : Guards (named name "catch" also check_text "(") = search guards in
      Goes-choose _ _ _ (Goes-parse_param_ref name)
      $ Goes-on_same _ _ _ new (λ _. Goes-parse_new_class calls he)
      $ Goes-on_same _ _ _ efun (λ _. Goes-parse_efun_call calls he)
      $ Goes-choose _ _ _ (Goes-parse_qualified_parent_call calls he name)
      $ Goes-on_same _ _ _ catching (λ _. Goes-parse_catch calls he)
      $ Goes-choose _ _ _ (Goes-bind calls.block _ hb (λ _. Goes-pure _))
      $ Goes-on_same _ _ _ (Guards-check_text "(") (λ _. Goes-parse_call calls he name)
      $ Goes-pure _

  pub Goes-parse_primary : Goes (suc n) (parse_primary calls)
  unfolding parse_primary
  Goes-parse_primary =
      search
        (
          Goes-on, Goes-throw, Goes-pure, guards, Guards-check_type_keyword, Goes-parse_string,
          Goes-number_literal, Goes-parse_bound_value, Goes-parse_mapping,
          Goes-parse_quoted_closure, Goes-parse_bare_closure, Goes-parse_lambda,
          Goes-parse_anon_function, Goes-parse_qualified_parent_call, Goes-parse_pointer_call,
          Goes-parse_array, Goes-parse_parenthesized, Goes-parse_parent_call, Goes-parse_name,
        )
        depth 30
