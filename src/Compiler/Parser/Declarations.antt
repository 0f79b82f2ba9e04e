-- ===== src/Compiler/Parser/Declarations.antt =====
-- src/compiler/Parser.cpp: the declarations of a program, and the whole parser.
use amlp.Base.{
  ℕ, zero, suc, ◌+◌, Bool, true, false, ◌||◌, ◌&&◌, ltb, List, [], ◌∷◌, ◌++◌, Bytes, codes, same,
  if◌then◌else◌, ◌$◌, length,
}
use Prim.Native.String.{String}
use amlp.Dialect.{LpcDialect, fluff_os}
use amlp.Compiler.Lexer.{Token, ident, string, keyword}
use amlp.Compiler.Ast.{Ast, null, FunctionDecl, ObjectVarDecl, ClassDecl, Program}
use amlp.Compiler.Parser.{
  Parser, Outcome, Parse, Test, Calls, pure, out_of_fuel, ◌>>=◌, ◌>>◌, on, choose, peek, at_end,
  advance, check, check_text, type_at, text_at, dialect_is, expect, expect_text, is_type, ◌either◌,
  unterminated_class,
}
use amlp.Compiler.Parser.Loops.{while_on, until, comma_list, never, left}
use amlp.Compiler.Parser.Types.{
  is_modifier_keyword, starts_class_type, check_array, parse_type_token, consume_array_marker,
  parse_param_list,
}
use amlp.Compiler.Parser.Expressions.{parse_expr, parse_unary}
use amlp.Compiler.Parser.Statements.{parse_statement, parse_block}

pub record DeclPrefix : Type 0 where
  pub type : Bytes
  pub is_array : Bool
  pub name : Bytes
  pub is_private : Bool

unfoldable pub check_modifier : Test
unfolding check is_modifier_keyword
check_modifier p = check keyword p && is_modifier_keyword (peek p) p

-- Whether one of the modifiers is `private`.
unfoldable pub parse_modifiers : Parse Bool
unfolding while_on check_modifier same
parse_modifiers =
    while_on check_modifier (λ t is_private. pure (is_private || same t.text (codes "private")))
      false

-- The type of a declaration, which may be left out.
unfoldable pub parse_decl_type : Parse (Bytes × Bool)
unfolding on starts_class_type check_array check advance consume_array_marker pure ◌>>=◌
parse_decl_type =
    on starts_class_type (λ _. do
      name ← advance
      is_array ← consume_array_marker
      pure (codes "class:" ++ name.text, is_array))
    $ on check_array (λ _. pure (codes "mixed", true))
    $ on (check keyword) (λ t. consume_array_marker >>= λ is_array. pure (t.text, is_array))
    $ pure (codes "mixed", false)

unfoldable pub parse_decl_prefix : String → Parse DeclPrefix
unfolding parse_modifiers parse_decl_type expect ◌>>=◌
parse_decl_prefix context = do
  is_private ← parse_modifiers
  (type, is_array) ← parse_decl_type
  name ← expect ident (codes context ++ codes " name")
  pure (record { type = type; is_array = is_array; name = name.text; is_private = is_private })

-- A literal behind the first one, with or without a `+`.
unfoldable pub parse_path_part : Token → Bytes → Parse Bytes
unfolding is_type expect ◌>>=◌ pure
parse_path_part t path =
    if is_type t.type string
    then pure (path ++ t.text)
    else (expect string (codes "inherit statement path (string concatenation)") >>= λ s.
        pure (path ++ s.text))

unfoldable pub parse_inherit_path_string : Parse Bytes
unfolding expect while_on ◌either◌ check check_text parse_path_part ◌>>=◌
parse_inherit_path_string = expect string (codes "inherit statement path") >>= λ t.
    while_on (check string either check_text "+") parse_path_part t.text

unfoldable pub parse_inherit_statement : Program → Parse Program
unfolding expect_text parse_inherit_path_string ◌>>=◌
parse_inherit_statement program = do
  expect_text "inherit" "inherit statement"
  path ← parse_inherit_path_string
  expect_text ";" "inherit statement"
  pure (record program { inherits = program.inherits ++ path ∷ [] })

unfoldable pub parse_member_name : Parse Bytes
unfolding consume_array_marker expect ◌>>=◌
parse_member_name = do
  consume_array_marker
  name ← expect ident (codes "class member name")
  pure name.text

-- One declaration of members.
unfoldable pub parse_members : Parse (List Bytes)
unfolding parse_type_token comma_list never parse_member_name expect_text ◌>>=◌
parse_members = do
  parse_type_token "class member type"
  names ← comma_list never parse_member_name
  expect_text ";" "class member declaration"
  pure names

abbrev pub concat : {A : Type 0} → List (List A) → List A
concat [] = []
concat (l ∷ ls) = l ++ concat ls

unfoldable pub parse_class_decl : Parse ClassDecl
unfolding expect expect_text until parse_members ◌>>=◌
parse_class_decl = do
  name ← expect ident (codes "class declaration name")
  expect_text "{" "class declaration body"
  members ← until "}" unterminated_class parse_members
  expect_text "}" "class declaration body"
  pure (record { name = name.text; member_names = concat members })

-- The modifiers from the token ahead on.
pub count_modifiers : List Token → Parser → ℕ
unfolding is_type is_modifier_keyword
count_modifiers [] p = 0
count_modifiers (t ∷ l) p =
    let more = count_modifiers l p in
    if is_type t.type keyword && is_modifier_keyword t p then suc more else 0

unfoldable pub modifiers_ahead : Parser → ℕ
unfolding count_modifiers
modifiers_ahead p = count_modifiers p.ahead p

unfoldable pub inherit_ahead : Test
unfolding modifiers_ahead text_at
inherit_ahead p = ltb 0 (modifiers_ahead p) && text_at (modifiers_ahead p) "inherit" p

unfoldable pub class_ahead : Test
unfolding modifiers_ahead dialect_is type_at text_at
class_ahead p =
    let n = modifiers_ahead p in
    dialect_is fluff_os p
    && (type_at n ident p
        && (text_at n "class" p && (type_at (n + 1) ident p && text_at (n + 2) "{" p)))

unfoldable pub advance_by : ℕ → Parse (Unit {0})
unfolding advance pure ◌>>=◌
advance_by zero = pure tt
advance_by (suc n) = advance >> advance_by n

unfoldable pub advance_modifiers : Parse (Unit {0})
unfolding modifiers_ahead advance_by
advance_modifiers p = advance_by (modifiers_ahead p) p

module _ (calls : Calls) where
  unfoldable pub parse_function_rest : DeclPrefix → Parse FunctionDecl
  unfolding expect_text parse_param_list on check_text parse_block pure ◌>>=◌
  parse_function_rest prefix = do
    expect_text "(" "function declaration parameters"
    (params, is_varargs) ← parse_param_list
    expect_text ")" "function declaration parameters"
    body ← on (check_text ";") (λ _. pure null) (parse_block calls)
    pure (record {
      return_type = prefix.type;
      return_type_is_array = prefix.is_array;
      name = prefix.name;
      params = params;
      is_varargs = is_varargs;
      body = body;
    })

  unfoldable pub parse_initializer : Parse Ast
  unfolding on check_text parse_expr pure
  parse_initializer = on (check_text "=") (λ _. parse_expr calls) (pure null)

  -- A variable behind a comma, with a marker of its own.
  unfoldable pub parse_next_object_var :
      DeclPrefix → List ObjectVarDecl → Parse (List ObjectVarDecl)
  unfolding consume_array_marker expect parse_initializer ◌>>=◌
  parse_next_object_var prefix decls = do
    is_array ← consume_array_marker
    name ← expect ident (codes "object variable declaration name")
    initializer ← parse_initializer
    pure (
        decls
        ++ record {
          type = prefix.type;
          is_array = is_array;
          name = name.text;
          is_private = prefix.is_private;
          initializer = initializer;
        }
          ∷ [])

  unfoldable pub parse_object_var_decl_rest : DeclPrefix → Parse (List ObjectVarDecl)
  unfolding parse_initializer while_on check_text parse_next_object_var expect_text ◌>>=◌
  parse_object_var_decl_rest prefix = do
    initializer ← parse_initializer
    decls ←
        while_on (check_text ",") (λ _. parse_next_object_var prefix)
          (record {
            type = prefix.type;
            is_array = prefix.is_array;
            name = prefix.name;
            is_private = prefix.is_private;
            initializer = initializer;
          }
            ∷ [])
    expect_text ";" "object variable declaration"
    pure decls

  -- A function or variables.
  unfoldable pub parse_plain_declaration : Program → Parse Program
  unfolding parse_decl_prefix choose check_text parse_function_rest parse_object_var_decl_rest pure
      ◌>>=◌
  parse_plain_declaration program = do
    prefix ← parse_decl_prefix "top-level declaration"
    choose (check_text "(")
        (parse_function_rest prefix >>= λ f.
          pure (record program { functions = program.functions ++ f ∷ [] }))
        (parse_object_var_decl_rest prefix >>= λ decls.
          pure (record program { object_vars = program.object_vars ++ decls }))

  -- One round of the loop of `parseProgram`.
  unfoldable pub parse_declaration : Program → Parse Program
  unfolding choose check_text inherit_ahead class_ahead parse_inherit_statement advance_modifiers
      advance parse_class_decl parse_plain_declaration pure ◌>>=◌
  parse_declaration program =
      choose (check_text "inherit") (parse_inherit_statement program)
      $ choose inherit_ahead (advance_modifiers >> parse_inherit_statement program)
      $ choose class_ahead (
          advance_modifiers
          >> (advance
              >> (parse_class_decl >>= λ c.
                  pure (record program { classes = program.classes ++ c ∷ [] }))))
      $ parse_plain_declaration program

  unfoldable pub program_rounds : ℕ → Program → Parse Program
  unfolding choose at_end parse_declaration pure ◌>>=◌
  program_rounds zero program = λ p. out_of_fuel
  program_rounds (suc rounds) program =
      choose at_end (pure program) (parse_declaration program >>= program_rounds rounds)

abbrev pub empty_program : Program
empty_program = record { functions = []; object_vars = []; inherits = []; classes = [] }

unfoldable pub parse_program : Calls → Parse Program
unfolding program_rounds
parse_program calls p = program_rounds calls (suc (left p)) empty_program p

abbrev pub no_calls : Calls
no_calls = record {
  expr = λ p. out_of_fuel;
  unary = λ p. out_of_fuel;
  statement = λ p. out_of_fuel;
  block = λ p. out_of_fuel;
}

unfoldable pub deeper : Calls → Calls
unfolding parse_expr parse_unary parse_statement parse_block
deeper calls = record {
  expr = parse_expr calls;
  unary = parse_unary calls;
  statement = parse_statement calls;
  block = parse_block calls;
}

-- The functions with fuel for `n` calls inside one another.
unfoldable pub calls_of : ℕ → Calls
unfolding deeper
calls_of zero = no_calls
calls_of (suc n) = deeper (calls_of n)

abbrev pub last_of : Token → List Token → Token
last_of t [] = t
last_of _ (t ∷ l) = last_of t l

-- The parser that is made of `tokens`, which are `t` and `l`.
unfoldable pub parser : Token → List Token → LpcDialect → Parser
parser t l dialect = record {
  ahead = t ∷ l;
  last = last_of t l;
  dialect = dialect;
  lambda_param_max_stack = [];
  lambda_bound_values_stack = [];
}

-- A call inside another stands behind a token, so the number of the tokens is fuel enough.
unfoldable pub parse : Token → List Token → LpcDialect → Outcome Program
unfolding parse_program calls_of parser
parse t l dialect = parse_program (calls_of (length l + 1)) (parser t l dialect)
