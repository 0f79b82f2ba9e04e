-- ===== src/Compiler/Parser/Statements.antt =====
-- src/compiler/Parser.cpp: the statements.
use amlp.Base.{
  Bool, true, false, List, [], ◌∷◌, Bytes, codes, same, if◌then◌else◌, ◌$◌, Option, none, some,
  take, drop,
}
use Prim.Native.String.{String}
use amlp.Compiler.Lexer.{ident, symbol}
use amlp.Compiler.Ast.{
  Ast, no_asts, asts, to_asts, null, expr_stmt, return_stmt, var_decl, assign_stmt, index_expr,
  index_assign_stmt, block, if_stmt, while_stmt, do_while_stmt, for_stmt, break_stmt, continue_stmt,
  case_label, switch_stmt, foreach_stmt,
}
use amlp.Compiler.Parser.{
  Parse, Calls, pure, ◌>>=◌, ◌>>◌, on, choose, check, check_text, type_at, text_at, expect,
  expect_text, ◌also◌, ◌either◌, unterminated_block, unterminated_switch,
}
use amlp.Compiler.Parser.Loops.{while_on, until, push}
use amlp.Compiler.Parser.Types.{starts_type, parse_type_token, consume_array_marker}
use amlp.Compiler.Parser.Parts.{parse_comma_expr}
use amlp.Compiler.Parser.Expressions.{
  parse_expr, parse_postfix, check_assign_op, assign_op, compound_ops, backtrack,
}

-- The name of a class type.
unfoldable pub class_name_of : Bytes → Bytes
unfolding same
class_name_of type = if same (take 6 type) (codes "class:") then drop 6 type else []

-- `ForeachVarSpec`
pub record ForeachVarSpec : Type 0 where
  pub name : Bytes
  pub is_new_decl : Bool
  pub class_type : Bytes

unfoldable pub parse_foreach_var : Parse ForeachVarSpec
unfolding choose starts_type parse_type_token expect class_name_of pure ◌>>=◌
parse_foreach_var =
    choose starts_type
      (do
        type ← parse_type_token "foreach variable type"
        name ← expect ident (codes "foreach variable name")
        pure (record { name = name.text; is_new_decl = true; class_type = class_name_of type.0 }))
      (do
        name ← expect ident (codes "foreach variable name")
        pure (record { name = name.text; is_new_decl = false; class_type = [] }))

-- The statement of a loop over one variable, or over two.
unfoldable pub make_foreach : ForeachVarSpec → Option ForeachVarSpec → Ast → Ast → Ast
make_foreach first none collection body =
    foreach_stmt first.name first.is_new_decl false [] false collection body first.class_type []
make_foreach first (some second) collection body =
    foreach_stmt first.name first.is_new_decl true second.name second.is_new_decl collection body
      first.class_type second.class_type

module _ (calls : Calls) where
  open calls use {statement}

  unfoldable pub parse_comma : Parse Ast
  unfolding parse_comma_expr parse_expr
  parse_comma = parse_comma_expr (parse_expr calls)

  -- `while (checkText(",")) …`, which appends statements.
  unfoldable pub parse_chain : List Ast → Parse Ast
  unfolding while_on check_text push parse_expr ◌>>=◌
  parse_chain statements =
      while_on (check_text ",") (λ _. push (parse_expr calls >>= λ a. pure (expr_stmt a)))
        statements
      >>= λ l. pure (block (to_asts l) false)

  unfoldable pub parse_comma_expr_chain : Parse Ast
  unfolding choose check_text parse_chain parse_expr pure ◌>>=◌
  parse_comma_expr_chain = do
    first ← parse_expr calls
    choose (check_text ",") (parse_chain (expr_stmt first ∷ [])) (pure first)

  unfoldable pub continue_statement_comma_chain : Ast → Parse Ast
  unfolding choose check_text parse_chain pure
  continue_statement_comma_chain first =
      choose (check_text ",") (parse_chain (first ∷ [])) (pure first)

  unfoldable pub parse_return_statement : Parse Ast
  unfolding expect_text choose check_text parse_comma pure ◌>>=◌
  parse_return_statement = do
    expect_text "return" "return statement"
    value ← choose (check_text ";") (pure null) parse_comma
    expect_text ";" "return statement"
    pure (return_stmt value)

  unfoldable pub parse_single_var_decl : Bytes → Bool → Parse Ast
  unfolding expect on check_text parse_expr pure ◌>>=◌
  parse_single_var_decl type is_array = do
    name ← expect ident (codes "variable declaration name")
    initializer ← on (check_text "=") (λ _. parse_expr calls) (pure null)
    pure (var_decl type is_array name.text initializer)

  -- The variables behind the first one, each with a marker of its own.
  unfoldable pub parse_more_var_decls : Bytes → List Ast → Parse (List Ast)
  unfolding while_on check_text push consume_array_marker parse_single_var_decl ◌>>=◌
  parse_more_var_decls type =
      while_on (check_text ",") (λ _. push (consume_array_marker >>= parse_single_var_decl type))

  unfoldable pub parse_var_decl_statement : Parse Ast
  unfolding parse_type_token parse_single_var_decl parse_more_var_decls choose check_text
      expect_text pure ◌>>=◌
  parse_var_decl_statement = do
    type ← parse_type_token "variable declaration type"
    first ← parse_single_var_decl type.0 type.1
    result ←
        choose (check_text ",")
          (parse_more_var_decls type.0 (first ∷ []) >>= λ l. pure (block (to_asts l) false))
          (pure first)
    expect_text ";" "variable declaration"
    pure result

  unfoldable pub parse_assign_statement : Parse Ast
  unfolding expect expect_text parse_expr continue_statement_comma_chain ◌>>=◌
  parse_assign_statement = do
    name ← expect ident (codes "assignment target")
    expect_text "=" "assignment"
    value ← parse_expr calls
    result ← continue_statement_comma_chain (assign_stmt name.text value)
    expect_text ";" "assignment statement"
    pure result

  unfoldable pub parse_block : Parse Ast
  unfolding expect_text until ◌>>=◌
  parse_block = do
    expect_text "{" "function body"
    statements ← until "}" unterminated_block statement
    expect_text "}" "function body"
    pure (block (to_asts statements) true)

  unfoldable pub parse_branch : Parse Ast
  unfolding choose check_text parse_block pure ◌>>=◌
  parse_branch =
      choose (check_text "{") parse_block (statement >>= λ s. pure (block (asts s no_asts) false))

  unfoldable pub parse_if_statement : Parse Ast
  unfolding expect_text parse_comma parse_branch on check_text pure ◌>>=◌
  parse_if_statement = do
    expect_text "if" "if statement"
    expect_text "(" "if condition"
    condition ← parse_comma
    expect_text ")" "if condition"
    then_branch ← parse_branch
    else_branch ← on (check_text "else") (λ _. parse_branch) (pure null)
    pure (if_stmt condition then_branch else_branch)

  unfoldable pub parse_while_statement : Parse Ast
  unfolding expect_text parse_comma parse_branch ◌>>=◌
  parse_while_statement = do
    expect_text "while" "while statement"
    expect_text "(" "while condition"
    condition ← parse_comma
    expect_text ")" "while condition"
    body ← parse_branch
    pure (while_stmt condition body)

  unfoldable pub parse_do_while_statement : Parse Ast
  unfolding expect_text parse_comma parse_branch ◌>>=◌
  parse_do_while_statement = do
    expect_text "do" "do-while statement"
    body ← parse_branch
    expect_text "while" "do-while statement"
    expect_text "(" "do-while condition"
    condition ← parse_comma
    expect_text ")" "do-while condition"
    expect_text ";" "do-while statement"
    pure (do_while_stmt condition body)

  unfoldable pub parse_for_init : Parse Ast
  unfolding choose check_text starts_type parse_type_token parse_single_var_decl
      parse_comma_expr_chain pure ◌>>=◌
  parse_for_init =
      choose (check_text ";") (pure null)
      $ choose starts_type
          (parse_type_token "for statement init clause" >>= λ type.
            parse_single_var_decl type.0 type.1)
          parse_comma_expr_chain

  unfoldable pub parse_for_statement : Parse Ast
  unfolding expect_text parse_for_init choose check_text parse_comma parse_comma_expr_chain
      parse_branch pure ◌>>=◌
  parse_for_statement = do
    expect_text "for" "for statement"
    expect_text "(" "for statement"
    init ← parse_for_init
    expect_text ";" "for statement init clause"
    condition ← choose (check_text ";") (pure null) parse_comma
    expect_text ";" "for statement condition clause"
    update ← choose (check_text ")") (pure null) parse_comma_expr_chain
    expect_text ")" "for statement update clause"
    body ← parse_branch
    pure (for_stmt init condition update body)

  unfoldable pub parse_foreach_statement : Parse Ast
  unfolding expect_text parse_foreach_var on check_text parse_expr parse_branch make_foreach pure
      ◌>>=◌
  parse_foreach_statement = do
    expect_text "foreach" "foreach statement"
    expect_text "(" "foreach statement"
    first ← parse_foreach_var
    second ← on (check_text ",") (λ _. parse_foreach_var >>= λ v. pure (some v)) (pure none)
    expect_text "in" "foreach statement"
    collection ← parse_expr calls
    expect_text ")" "foreach statement"
    body ← parse_branch
    pure (make_foreach first second collection body)

  unfoldable pub parse_case : Parse Ast
  unfolding parse_expr on check_text expect_text pure ◌>>=◌
  parse_case = do
    value ← parse_expr calls
    range_end ← on (check_text "..") (λ _. parse_expr calls) (pure null)
    expect_text ":" "case label"
    pure (case_label value range_end)

  -- A label or a statement.
  unfoldable pub parse_switch_item : Parse Ast
  unfolding on check_text parse_case expect_text pure ◌>>=◌
  parse_switch_item =
      on (check_text "case") (λ _. parse_case)
      $ on (check_text "default")
          (λ _. expect_text ":" "default label" >> pure (case_label null null))
      $ statement

  unfoldable pub parse_switch_statement : Parse Ast
  unfolding expect_text parse_comma until parse_switch_item ◌>>=◌
  parse_switch_statement = do
    expect_text "switch" "switch statement"
    expect_text "(" "switch statement subject"
    subject ← parse_comma
    expect_text ")" "switch statement subject"
    expect_text "{" "switch statement body"
    body ← until "}" unterminated_switch parse_switch_item
    expect_text "}" "switch statement body"
    pure (switch_stmt subject (to_asts body))

  -- `break` and `continue`, and the statement that they are.
  unfoldable pub parse_jump : String → String → Ast → Parse Ast
  unfolding expect_text ◌>>=◌
  parse_jump word context jump = do expect_text word context; expect_text ";" context; pure jump

  -- Any index is a target here, a range too.
  unfoldable pub parse_assign_index : Ast → Parse (Option Ast)
  unfolding on check_assign_op parse_expr assign_op continue_statement_comma_chain expect_text pure
      ◌>>=◌
  parse_assign_index (index_expr target index _ _ _ column) =
      on check_assign_op
        (λ t. do
          value ← parse_expr calls
          result ← continue_statement_comma_chain (
              index_assign_stmt target index value (assign_op compound_ops t.text).0
                (assign_op compound_ops t.text).1 column)
          expect_text ";" "indexed assignment statement"
          pure (some result))
        (pure none)
  parse_assign_index _ = pure none

  unfoldable pub parse_index_assign : Parse (Option Ast)
  unfolding choose ◌also◌ ◌either◌ check type_at text_at parse_postfix parse_assign_index pure ◌>>=◌
  parse_index_assign =
      choose (check ident also type_at 1 symbol also (text_at 1 "[" either text_at 1 "->"))
        (parse_postfix calls >>= parse_assign_index) (pure none)

  unfoldable pub parse_expr_statement : Parse Ast
  unfolding parse_expr continue_statement_comma_chain expect_text ◌>>=◌
  parse_expr_statement = do
    a ← parse_expr calls
    result ← continue_statement_comma_chain (expr_stmt a)
    expect_text ";" "expression statement"
    pure result

  unfoldable pub parse_statement : Parse Ast
  unfolding on choose check_text ◌also◌ check type_at text_at starts_type parse_block
      parse_if_statement parse_while_statement parse_do_while_statement parse_for_statement
      parse_foreach_statement parse_switch_statement parse_return_statement parse_jump
      parse_var_decl_statement parse_assign_statement backtrack parse_index_assign
      parse_expr_statement pure
  parse_statement =
      on (check_text ";") (λ _. pure (block no_asts true))
      $ choose (check_text "{") parse_block
      $ choose (check_text "if") parse_if_statement
      $ choose (check_text "while") parse_while_statement
      $ choose (check_text "do") parse_do_while_statement
      $ choose (check_text "for") parse_for_statement
      $ choose (check_text "foreach") parse_foreach_statement
      $ choose (check_text "switch") parse_switch_statement
      $ choose (check_text "return") parse_return_statement
      $ choose (check_text "break") (parse_jump "break" "break statement" break_stmt)
      $ choose (check_text "continue") (parse_jump "continue" "continue statement" continue_stmt)
      $ choose starts_type parse_var_decl_statement
      $ choose (check ident also type_at 1 symbol also text_at 1 "=") parse_assign_statement
      $ backtrack parse_index_assign parse_expr_statement
