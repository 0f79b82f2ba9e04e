-- ===== src/Compiler/Parser/Parts.antt =====
-- src/compiler/Parser.cpp: the parts of `parsePrimary`: numbers, lists, and the stacks of the bodies
-- of closures.
use amlp.Base.{
  ℕ, ◌+◌, ◌*◌, ◌-◌, ◌^◌, Bool, true, false, ◌||◌, ◌&&◌, not, List, [], ◌∷◌, ◌++◌, Bytes,
  if◌then◌else◌, ltb, leb, ◌==◌, length, drop,
}
use Prim.Native.String.{String}
use amlp.Base.Int.{ℤ, pos}
use amlp.Base.Result.{Result, returned}
use amlp.Base.Decimal.{is_digit}
use amlp.Persist.{Error, out_of_range, stoll}
use amlp.Compiler.Lexer.{ident, string, symbol, is_xdigit}
use amlp.Compiler.Ast.{Ast, string_literal, int_literal, float_literal, comma}
use amlp.Compiler.Parser.{
  ParseError, Parse, Test, pure, throw, parsed, ◌>>=◌, ◌>>◌, on, choose, peek_at, check, check_text,
  type_at, text_at, ◌also◌, ◌either◌, tail, get_or, number_error,
}
use amlp.Compiler.Parser.Loops.{while_on, comma_list}

unfoldable pub lift : {A : Type 0} → Result ParseError A → Parse A
unfolding pure throw
lift (Result.thrown e) = throw (λ _. e)
lift (returned a) = pure a

unfoldable pub number_result : {A : Type 0} → Result Error A → Parse A
unfolding pure throw
number_result (Result.thrown e) = throw (λ _. number_error e)
number_result (returned a) = pure a

unfoldable pub has : ℕ → Bytes → Bool
has c [] = false
has c (d ∷ text) = d == c || has c text

pub hex_digit : ℕ → ℕ
hex_digit c = if is_digit c then c - b'0' else if leb b'a' c then c - b'a' + 10 else c - b'A' + 10

-- The digits that `std::stoll` reads in base 16.
unfoldable pub hex_value : ℕ → Bytes → ℕ
unfolding hex_digit
hex_value n [] = n
hex_value n (c ∷ text) =
    let more = hex_value (16 * n + hex_digit c) text in if is_xdigit c then more else n

unfoldable pub is_hex : Bytes → Bool
is_hex (z ∷ x ∷ _ ∷ _) = z == b'0' && (x == b'x' || x == b'X')
is_hex _ = false

unfoldable pub int_value : Bytes → Result Error ℤ
unfolding is_hex hex_value stoll
int_value raw =
    if is_hex raw
    then (if ltb (hex_value 0 (drop 2 raw)) (2 ^ 63)
        then returned (pos (hex_value 0 (drop 2 raw)))
        else Result.thrown out_of_range)
    else stoll raw

unfoldable pub number_literal : Bytes → Parse Ast
unfolding has int_value number_result ◌>>=◌
number_literal text =
    if has b'.' text
    then pure (float_literal text)
    else (number_result (int_value text) >>= λ n. pure (int_literal n))

-- Adjacent literals are one.
unfoldable pub parse_string : Bytes → Parse Ast
unfolding while_on check ◌>>=◌
parse_string text = while_on (check string) (λ t value. pure (value ++ t.text)) text >>= λ value.
    pure (string_literal value)

-- `parseCommaExpr`, at a given `parseExpr`.
unfoldable pub parse_comma_expr : Parse Ast → Parse Ast
unfolding while_on check_text ◌>>=◌
parse_comma_expr expr = expr >>= while_on (check_text ",") (λ _ l. expr >>= λ r. pure (comma l r))

-- An expression, and whether `...` follows it.
unfoldable pub parse_spread : Parse Ast → Parse (Ast × Bool)
unfolding on check_text pure ◌>>=◌
parse_spread expr = do
  a ← expr
  spread ← on (check_text "...") (λ _. pure true) (pure false)
  pure (a, spread)

abbrev pub values : List (Ast × Bool) → List Ast
values [] = []
values ((a, _) ∷ l) = a ∷ values l

abbrev pub flags : List (Ast × Bool) → List Bool
flags [] = []
flags ((_, b) ∷ l) = b ∷ flags l

abbrev pub any : List Bool → Bool
any [] = false
any (b ∷ l) = b || any l

-- The flags are kept if one is set.
unfoldable pub spread_flags : List (Ast × Bool) → List Bool
spread_flags l = if any (flags l) then flags l else []

unfoldable pub parse_spread_list : Parse Ast → String → Parse (List Ast × List Bool)
unfolding choose check_text comma_list parse_spread spread_flags ◌>>=◌
parse_spread_list expr close =
    choose (check_text close) (pure ([], []))
      (comma_list (check_text close) (parse_spread expr) >>= λ l. pure (values l, spread_flags l))

unfoldable pub parse_arg_list : Parse Ast → Parse (List Ast × List Bool)
unfolding parse_spread_list
parse_arg_list expr = parse_spread_list expr ")"

-- The stacks of the lambda bodies that are open.
unfoldable pub enter_lambda : Parse (Unit {0})
enter_lambda p = parsed tt (record p {
  lambda_param_max_stack = 0 ∷ p.lambda_param_max_stack;
  lambda_bound_values_stack = [] ∷ p.lambda_bound_values_stack;
})

unfoldable pub leave_lambda : Parse (ℕ × List Ast)
leave_lambda p =
    parsed (get_or 0 p.lambda_param_max_stack, get_or [] p.lambda_bound_values_stack)
      (record p {
        lambda_param_max_stack = tail p.lambda_param_max_stack;
        lambda_bound_values_stack = tail p.lambda_bound_values_stack;
      })

unfoldable pub in_lambda : {A : Type 0} → Parse A → Parse (A × (ℕ × List Ast))
unfolding enter_lambda leave_lambda ◌>>=◌
in_lambda body = enter_lambda >> (body >>= λ a. leave_lambda >>= λ top. pure (a, top))

abbrev is_nil : {A : Type 0} → List A → Bool
is_nil [] = true
is_nil (_ ∷ _) = false

unfoldable pub no_lambda : Test
no_lambda p = is_nil p.lambda_bound_values_stack

unfoldable pub push_top : Ast → List (List Ast) → List (List Ast)
push_top a [] = []
push_top a (l ∷ stack) = (l ++ a ∷ []) ∷ stack

-- The slot of the value, which is put on the top of the stack.
unfoldable pub push_bound_value : Ast → Parse ℕ
unfolding push_top
push_bound_value a p =
    parsed (length (get_or [] p.lambda_bound_values_stack))
      (record p { lambda_bound_values_stack = push_top a p.lambda_bound_values_stack })

-- `(*f)(…)`: the expression's flags come first.
abbrev pub callee_flag : List Bool → List Bool
callee_flag [] = []
callee_flag flags = false ∷ flags

-- A name that is no `$N`.
abbrev pub is_plain : Bytes → Bool
is_plain [] = false
is_plain (c ∷ _) = not (c == b'$')

unfoldable pub bare_name : Test
unfolding type_at text_at peek_at ◌also◌ ◌either◌
bare_name =
    type_at 2 ident
    also (λ p. is_plain (peek_at 2 p).text)
    also type_at 3 symbol
    also (text_at 3 "," either text_at 3 ":")
