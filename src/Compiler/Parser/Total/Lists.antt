-- ===== src/Compiler/Parser/Total/Lists.antt =====
-- src/compiler/Parser.cpp: types, parameters and lists end.
use amlp.Compiler.Parser.{Parse, ParseError}
use amlp.Base.{Bytes, ℕ, arith}
use Prim.Native.String.{String}
use amlp.Compiler.Parser.Types.{
  check_type_keyword, check_array, consume_array_marker, starts_class_type, parse_type_token,
  parse_param, parse_param_list,
}
use amlp.Base.Tests.{Bool-cases}
use mathlib.Core.Logic.{inl, inr}
use amlp.Base.Result.{Result, returned}
use amlp.Compiler.Ast.{Ast}
use amlp.Persist.{Error}
use amlp.Compiler.Parser.Parts.{
  lift, number_result, number_literal, has, parse_string, parse_comma_expr, parse_spread,
  parse_spread_list, parse_arg_list,
}
use amlp.Compiler.Parser.Progress.{Goes-earlier, Goes, Guards, goes}
use amlp.Compiler.Parser.Rounds.{Goes-comma_list, Goes-while_on}

pub Guards-check_array : Guards check_array
unfolding check_array
Guards-check_array = search goes

pub Guards-starts_class_type : Guards starts_class_type
unfolding starts_class_type
Guards-starts_class_type = search goes

pub Guards-check_type_keyword : Guards check_type_keyword
unfolding check_type_keyword
Guards-check_type_keyword = record { at = λ p h. ground arith }

module _ {n : ℕ} where
  pub Goes-consume_array_marker : Goes n consume_array_marker
  unfolding consume_array_marker
  Goes-consume_array_marker = search (goes, Guards-check_array)

  pub Goes-parse_type_token : (context : String) → Goes n (parse_type_token context)
  unfolding parse_type_token
  Goes-parse_type_token context =
      search (goes, Guards-check_array, Guards-starts_class_type, Goes-consume_array_marker) depth
        12

  pub Goes-parse_param : Goes n parse_param
  unfolding parse_param
  Goes-parse_param = search (goes, Goes-parse_type_token) depth 12

  pub Goes-parse_param_list : Goes n parse_param_list
  unfolding parse_param_list
  Goes-parse_param_list = search (goes, Goes-parse_param, Goes-comma_list) depth 12

  pub Goes-lift : {A : Type 0} (r : Result ParseError A) → Goes n (lift r)
  unfolding lift
  Goes-lift (Result.thrown e) = search goes
  Goes-lift (returned a) = search goes

  pub Goes-number_result : {A : Type 0} (r : Result Error A) → Goes n (number_result r)
  unfolding number_result
  Goes-number_result (Result.thrown e) = search goes
  Goes-number_result (returned a) = search goes

  pub Goes-number_literal : (text : Bytes) → Goes n (number_literal text)
  unfolding number_literal
  Goes-number_literal text = elim (Bool-cases (has b'.' text)) [
    | inl e ↦ rw e (search goes)
    | inr e ↦ rw e (search (goes, Goes-number_result))
  ]

  pub Goes-parse_string : (text : Bytes) → Goes n (parse_string text)
  unfolding parse_string
  Goes-parse_string text = search (goes, Goes-while_on, Goes-earlier) depth 8

module _ {n : ℕ} (expr : Parse Ast) (h : Goes n expr) where
  -- Behind a token, or at the first one.
  pub Goes-parse_comma_expr : Goes n (parse_comma_expr expr)
  unfolding parse_comma_expr
  Goes-parse_comma_expr = search (goes, Goes-while_on, Goes-earlier) depth 8

  pub Goes-parse_spread : Goes n (parse_spread expr)
  unfolding parse_spread
  Goes-parse_spread = search goes depth 8

  pub Goes-parse_spread_list : (close : String) → Goes n (parse_spread_list expr close)
  unfolding parse_spread_list
  Goes-parse_spread_list close = search (goes, Goes-parse_spread, Goes-comma_list) depth 8

  pub Goes-parse_arg_list : Goes n (parse_arg_list expr)
  unfolding parse_arg_list
  Goes-parse_arg_list = Goes-parse_spread_list ")"
