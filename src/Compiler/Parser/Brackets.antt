-- ===== src/Compiler/Parser/Brackets.antt =====
-- src/compiler/Parser.cpp: the alternatives of `parsePrimary`, each behind its first token. A call of
-- a function that stands behind `parsePrimary` is one of `calls`.
use amlp.Base.{ℕ, Bool, true, false, List, [], ◌∷◌, Bytes, codes, ◌$◌, Option, none}
use Prim.Native.String.{String}
use amlp.Dialect.{ld_mud}
use amlp.Compiler.Lexer.{ident}
use amlp.Compiler.Ast.{
  Ast, Asts, no_asts, asts, to_asts, to_entries, to_inits, call, catch, closure_literal,
  inline_lambda, lambda_param, array_literal, mapping_literal, new_class, anon_function,
}
use amlp.Compiler.Parser.{
  Parse, Calls, pure, throw, ◌>>=◌, ◌>>◌, on, choose, advance, check, check_text, text_is, text_at,
  dialect_is, expect, expect_text, ◌also◌, bound_value_outside,
}
use amlp.Compiler.Parser.Loops.{while_on, comma_loop, comma_list, push, never}
use amlp.Compiler.Parser.Types.{parse_param_list}
use amlp.Compiler.Parser.Parts.{
  parse_comma_expr, parse_spread_list, parse_arg_list, in_lambda, no_lambda, push_bound_value,
  callee_flag,
}
use amlp.Compiler.Parser.Outputs.{make_call, add_entry}

module _ (calls : Calls) where
  open calls use {expr, block}

  -- The rest of a call: its arguments and the bracket behind them.
  unfoldable pub parse_call_rest : String → Parse (List Ast × List Bool)
  unfolding parse_arg_list expect_text ◌>>=◌
  parse_call_rest context = do args ← parse_arg_list expr; expect_text ")" context; pure args

  unfoldable pub parse_qualified_parent_call : Bytes → Parse Ast
  unfolding parse_call_rest advance expect expect_text ◌>>=◌
  parse_qualified_parent_call qualifier = do
    advance
    name ← expect ident (codes "qualifier:: function name")
    expect_text "(" "qualifier:: call arguments"
    args ← parse_call_rest "qualifier:: call arguments"
    pure (call name.text (to_asts args.0) args.1 false true qualifier)

  unfoldable pub parse_parent_call : Parse Ast
  unfolding parse_call_rest expect expect_text ◌>>=◌
  parse_parent_call = do
    name ← expect ident (codes "::name function name")
    expect_text "(" "::name call arguments"
    args ← parse_call_rest "::name call arguments"
    pure (call name.text (to_asts args.0) args.1 false true [])

  unfoldable pub parse_efun_call : Parse Ast
  unfolding parse_call_rest expect expect_text ◌>>=◌
  parse_efun_call = do
    name ← expect ident (codes "efun:: function name")
    expect_text "(" "efun:: call arguments"
    args ← parse_call_rest "efun:: call arguments"
    pure (call name.text (to_asts args.0) args.1 true false [])

  -- `$(…)`, behind the `$`.
  unfoldable pub parse_bound_value : Parse Ast
  unfolding choose no_lambda throw advance parse_comma_expr expect_text push_bound_value ◌>>=◌
  parse_bound_value = choose no_lambda (throw λ _. bound_value_outside) do
    advance
    value ← parse_comma_expr expr
    expect_text ")" "$(...) bound value"
    slot ← push_bound_value value
    pure (lambda_param slot true)

  -- The values behind the first one of an entry.
  unfoldable pub parse_columns : Ast → Parse (List Ast)
  unfolding choose dialect_is while_on check_text push
  parse_columns value =
      choose (dialect_is ld_mud) (while_on (check_text ";") (λ _. push expr) (value ∷ []))
        (pure (value ∷ []))

  unfoldable pub parse_entry : List (Ast × Asts) × Option ℕ → Parse (List (Ast × Asts) × Option ℕ)
  unfolding expect_text parse_columns add_entry ◌>>=◌
  parse_entry (entries, width) = do
    key ← expr
    expect_text ":" "mapping literal entry"
    value ← expr
    values ← parse_columns value
    add_entry entries width key values

  -- `([ … ])`, behind the first bracket.
  unfoldable pub parse_mapping : Parse Ast
  unfolding advance choose check_text comma_loop parse_entry expect_text ◌>>=◌
  parse_mapping = do
    advance
    entries ←
        choose (check_text "]") (pure ([], none))
          (comma_loop (check_text "]") parse_entry ([], none))
    expect_text "]" "mapping literal"
    expect_text ")" "mapping literal"
    pure (mapping_literal (to_entries entries.0))

  -- `({ … })`, behind the first bracket.
  unfoldable pub parse_array : Parse Ast
  unfolding advance parse_spread_list expect_text ◌>>=◌
  parse_array = do
    advance
    elements ← parse_spread_list expr "}"
    expect_text "}" "array literal"
    expect_text ")" "array literal"
    pure (array_literal (to_asts elements.0) elements.1)

  -- `#'name`, behind the quote.
  unfoldable pub parse_quoted_closure : Parse Ast
  unfolding ◌also◌ check text_is text_at on advance expect ◌>>=◌
  parse_quoted_closure =
      on (check ident also text_is "efun" also text_at 1 "::") (λ _. do
        advance
        name ← expect ident (codes "closure literal function name after #'efun::")
        pure (closure_literal name.text no_asts true))
      $ do
        name ← expect ident (codes "closure literal function name after #'")
        pure (closure_literal name.text no_asts false)

  -- `(: name, … :)`, behind the first bracket.
  unfoldable pub parse_bare_closure : Parse Ast
  unfolding advance expect on check_text comma_list never pure expect_text ◌>>=◌
  parse_bare_closure = do
    advance
    name ← expect ident (codes "closure literal function name")
    bound_args ← on (check_text ",") (λ _. comma_list never expr) (pure [])
    expect_text ":" "closure literal"
    expect_text ")" "closure literal"
    pure (closure_literal name.text (to_asts bound_args) false)

  -- `(: … :)`, behind the first bracket.
  unfoldable pub parse_lambda : Parse Ast
  unfolding advance in_lambda comma_list never expect_text ◌>>=◌
  parse_lambda = do
    advance
    (body, (max_param, bound_values)) ← in_lambda (comma_list never expr)
    expect_text ":" "closure literal"
    expect_text ")" "closure literal"
    pure (inline_lambda (to_asts body) max_param (to_asts bound_values))

  -- `function (…) { … }`, behind the keyword.
  unfoldable pub parse_anon_function : Parse Ast
  unfolding advance parse_param_list expect_text ◌>>=◌
  parse_anon_function = do
    advance
    (params, is_varargs) ← parse_param_list
    expect_text ")" "anonymous function parameters"
    body ← block
    pure (anon_function params is_varargs body)

  -- `(*f)(…)`, behind the first bracket.
  unfoldable pub parse_pointer_call : Parse Ast
  unfolding advance expect_text parse_arg_list ◌>>=◌
  parse_pointer_call = do
    advance
    pointer ← expr
    expect_text ")" "function pointer call"
    expect_text "(" "function pointer call"
    (args, spread) ← parse_arg_list expr
    expect_text ")" "function pointer call"
    pure (call (codes "evaluate") (asts pointer (to_asts args)) (callee_flag spread) true false [])

  unfoldable pub parse_parenthesized : Parse Ast
  unfolding parse_comma_expr expect_text ◌>>=◌
  parse_parenthesized = do
    a ← parse_comma_expr expr
    expect_text ")" "parenthesized expression"
    pure a

  unfoldable pub parse_field_init : Parse (Bytes × Ast)
  unfolding expect expect_text ◌>>=◌
  parse_field_init = do
    name ← expect ident (codes "class field initializer name")
    expect_text ":" "class field initializer"
    value ← expr
    pure (name.text, value)

  -- `new(class …)`, behind the first bracket.
  unfoldable pub parse_new_class : Parse Ast
  unfolding advance expect choose check_text comma_list never parse_field_init pure expect_text
      ◌>>=◌
  parse_new_class = do
    advance
    name ← expect ident (codes "new(class ...) class name")
    inits ← choose (check_text ")") (pure []) (comma_list never parse_field_init)
    expect_text ")" "new(class ...) construction"
    pure (new_class name.text (to_inits inits))

  unfoldable pub parse_catch : Parse Ast
  unfolding parse_comma_expr expect_text ◌>>=◌
  parse_catch = do
    guarded ← parse_comma_expr expr
    expect_text ")" "catch expression"
    pure (catch guarded)

  unfoldable pub parse_call : Bytes → Parse Ast
  unfolding parse_arg_list expect_text make_call ◌>>=◌
  parse_call name = do
    (args, spread) ← parse_arg_list expr
    expect_text ")" "call arguments"
    make_call name args spread
