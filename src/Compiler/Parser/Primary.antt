-- ===== src/Compiler/Parser/Primary.antt =====
-- src/compiler/Parser.cpp: `parsePrimary`.
use amlp.Base.{not, Bytes, same, ◌$◌}
use amlp.Dialect.{fluff_os, ld_mud, dgd}
use amlp.Compiler.Lexer.{ident, number, string, quoted_symbol, keyword}
use amlp.Compiler.Ast.{Ast, nil_literal, symbol_literal, var_ref, time_expression}
use amlp.Compiler.Parser.{
  Parse, Calls, pure, throw, ◌>>=◌, on, choose, peek, check, check_text, text_is, text_at,
  dialect_is, ◌also◌, ◌either◌, expected_expression,
}
use amlp.Compiler.Parser.Types.{check_type_keyword}
use amlp.Compiler.Parser.Parts.{number_literal, parse_string, bare_name}
use amlp.Compiler.Parser.Outputs.{parse_param_ref, is_dollar, named}
use amlp.Compiler.Parser.Brackets.{
  parse_parent_call, parse_efun_call, parse_bound_value, parse_mapping, parse_array,
  parse_quoted_closure, parse_bare_closure, parse_lambda, parse_anon_function, parse_pointer_call,
  parse_parenthesized, parse_new_class, parse_catch, parse_call, parse_qualified_parent_call,
}

module _ (calls : Calls) where
  open calls use {block}

  -- Behind a name.
  unfoldable pub parse_name : Bytes → Parse Ast
  unfolding on choose ◌also◌ check_text text_at dialect_is same parse_param_ref parse_new_class
      parse_efun_call parse_qualified_parent_call parse_catch parse_call ◌>>=◌
  parse_name name =
      choose (λ _. is_dollar name) (parse_param_ref name)
      $ on (named name "new" also dialect_is fluff_os also check_text "(" also text_at 1 "class")
          (λ _. parse_new_class calls)
      $ on (named name "efun" also check_text "::") (λ _. parse_efun_call calls)
      $ choose ((λ p. not (named name "efun" p)) also check_text "::")
          (parse_qualified_parent_call calls name)
      $ on (named name "catch" also check_text "(") (λ _. parse_catch calls)
      $ choose (named name "time_expression" also check_text "{")
          (block >>= λ body. pure (time_expression body))
      $ on (check_text "(") (λ _. parse_call calls name)
      $ pure (var_ref name)

  unfoldable pub parse_primary : Parse Ast
  unfolding on ◌also◌ ◌either◌ check check_text text_is text_at dialect_is parse_string
      number_literal parse_bound_value parse_mapping parse_quoted_closure bare_name
      parse_bare_closure parse_lambda parse_anon_function check_type_keyword
      parse_qualified_parent_call parse_pointer_call parse_array parse_parenthesized
      parse_parent_call parse_name throw
  parse_primary =
      on (check string) (λ t. parse_string t.text)
      $ on (check number) (λ t. number_literal t.text)
      $ on (check keyword also text_is "nil" also dialect_is dgd) (λ _. pure nil_literal)
      $ on (check quoted_symbol) (λ t. pure (symbol_literal t.text))
      $ on (check_text "$" also text_at 1 "(") (λ _. parse_bound_value calls)
      $ on (check_text "(" also text_at 1 "[") (λ _. parse_mapping calls)
      $ on (check_text "#'" also dialect_is ld_mud) (λ _. parse_quoted_closure calls)
      $ on (check_text "(" also text_at 1 ":" also bare_name) (λ _. parse_bare_closure calls)
      $ on (check_text "(" also text_at 1 ":") (λ _. parse_lambda calls)
      $ on (check keyword also text_is "function" also text_at 1 "(")
          (λ _. parse_anon_function calls)
      $ on (check_type_keyword also text_at 1 "::") (λ t. parse_qualified_parent_call calls t.text)
      $ on (check_text "(" also text_at 1 "*") (λ _. parse_pointer_call calls)
      $ on (check_text "(" also text_at 1 "{") (λ _. parse_array calls)
      $ on (check_text "(") (λ _. parse_parenthesized calls)
      $ on (check_text "::") (λ _. parse_parent_call calls)
      $ on (check ident) (λ t. parse_name t.text)
      $ throw (λ p. expected_expression (peek p).line (peek p).text)
