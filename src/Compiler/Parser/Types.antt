-- ===== src/Compiler/Parser/Types.antt =====
-- src/compiler/Parser.cpp: types, modifiers and parameters.
use amlp.Base.{
  ℕ, Bool, true, false, ◌||◌, ◌&&◌, not, List, [], ◌∷◌, ◌++◌, Bytes, codes, same, if◌then◌else◌,
  ◌$◌,
}
use Prim.Native.String.{String}
use amlp.Dialect.{fluff_os, dgd}
use amlp.Compiler.Lexer.{Token, ident, keyword}
use amlp.Compiler.Ast.{Param}
use amlp.Compiler.Parser.{
  Parser, Parse, Test, pure, ◌>>=◌, on, choose, peek, peek_at, advance, check, check_text, text_is,
  type_at, text_at, dialect_is, expect, is_type, ◌also◌,
}
use amlp.Compiler.Parser.Loops.{comma_list, never}

unfoldable pub one_of : List String → Bytes → Bool
unfolding same
one_of [] text = false
one_of (word ∷ words) text = same text (codes word) || one_of words text

abbrev non_type_keywords : List String
non_type_keywords =
    "return" ∷ "if" ∷ "else" ∷ "while" ∷ "for" ∷ "do" ∷ "inherit" ∷ "break" ∷ "continue" ∷ "foreach"
    ∷ "in" ∷ "switch" ∷ "case" ∷ "default" ∷ "static" ∷ "private" ∷ "public" ∷ "protected"
    ∷ "nomask" ∷ "varargs" ∷ "atomic" ∷ "nil" ∷ []

abbrev modifier_keywords : List String
modifier_keywords = "static" ∷ "private" ∷ "public" ∷ "protected" ∷ "nomask" ∷ "varargs" ∷ []

unfoldable pub is_type_keyword : Token → Bool
unfolding is_type one_of
is_type_keyword t = is_type t.type keyword && not (one_of non_type_keywords t.text)

unfoldable pub is_modifier_keyword : Token → Parser → Bool
unfolding is_type one_of dialect_is same
is_modifier_keyword t p =
    is_type t.type keyword
    && (one_of modifier_keywords t.text || (dialect_is dgd p && same t.text (codes "atomic")))

-- `check(Keyword) && isTypeKeyword(peek())`, of this token or of one further ahead.
unfoldable pub check_type_keyword : Test
unfolding check is_type_keyword
check_type_keyword p = check keyword p && is_type_keyword (peek p)

unfoldable pub type_keyword_at : ℕ → Test
unfolding peek_at is_type_keyword
type_keyword_at offset p = is_type_keyword (peek_at offset p)

unfoldable pub check_array : Test
unfolding ◌also◌ check text_is
check_array = check ident also text_is "array"

unfoldable pub consume_array_marker : Parse Bool
unfolding on check_text check_array pure
consume_array_marker =
    on (check_text "*") (λ _. pure true) $ on check_array (λ _. pure true) $ pure false

unfoldable pub starts_class_type : Test
unfolding ◌also◌ dialect_is check text_is type_at
starts_class_type = check ident also dialect_is fluff_os also text_is "class" also type_at 1 ident

unfoldable pub starts_type : Test
unfolding check_type_keyword text_at starts_class_type check_array
starts_type p =
    if check_type_keyword p && text_at 1 "::" p
    then false
    else check_type_keyword p || (starts_class_type p || check_array p)

-- The text of the type, and whether an array marker follows.
unfoldable pub parse_type_token : String → Parse (Bytes × Bool)
unfolding on starts_class_type check_array advance consume_array_marker expect ◌>>=◌
parse_type_token context =
    on starts_class_type (λ _. do
      name ← advance
      is_array ← consume_array_marker
      pure (codes "class:" ++ name.text, is_array))
    $ on check_array (λ _. pure (codes "mixed", true))
    $ do
      tok ← expect keyword (codes context)
      is_array ← consume_array_marker
      pure (tok.text, is_array)

unfoldable pub parse_param : Parse Param
unfolding parse_type_token on check pure ◌>>=◌
parse_param = do
  type ← parse_type_token "function parameter type"
  name ← on (check ident) (λ t. pure t.text) (pure [])
  pure (record { type = type.0; name = name; is_array = type.1 })

-- The parameters, and whether they end in `...`.
unfoldable pub parse_param_list : Parse (List Param × Bool)
unfolding choose check_text comma_list never parse_param on ◌>>=◌
parse_param_list = choose (check_text ")") (pure ([], false)) do
  params ← comma_list never parse_param
  is_varargs ← on (check_text "...") (λ _. pure true) (pure false)
  pure (params, is_varargs)
