-- ===== src/Compiler/Parser.antt =====
-- src/compiler/Parser.cpp and include/amlp/compiler/Parser.hpp: the state of the parser, and the
-- looks ahead. `ahead` is what is left of `tokens_` from `pos_`, so that to restore `pos_` is to
-- restore it, and `last` is `tokens_.back()`: the vector is not empty.
pub mod Loops
pub mod Types
pub mod Parts
pub mod Outputs
pub mod Brackets
pub mod Primary
pub mod Expressions
pub mod Statements
pub mod Declarations
pub mod Progress
pub mod Rounds
pub mod Total
pub mod Precedence
mod Examples
use amlp.Base.{
  ℕ, zero, suc, ◌+◌, Bool, true, false, not, ◌&&◌, ◌||◌, List, [], ◌∷◌, if◌then◌else◌, Bytes, codes,
  same, drop, ◌++◌,
}
use amlp.Base.Int.{ℤ}
use Prim.Native.String.{String}
use amlp.Dialect.{LpcDialect, fluff_os, ld_mud, dgd}
use amlp.Compiler.Lexer.{
  Token, TokenType, ident, number, string, symbol, quoted_symbol, keyword, end,
}
use amlp.Compiler.Ast.{Ast}
use amlp.Persist.{Error}

-- `lambda_bound_values_stack` and `lambda_param_max_stack` have their backs in front.
pub record Parser : Type 0 where
  pub ahead : List Token
  pub last : Token
  pub dialect : LpcDialect
  pub lambda_param_max_stack : List ℕ
  pub lambda_bound_values_stack : List (List Ast)

-- What is thrown: the values that its message is made of. `number_error` is thrown by `std::stoi`
-- and its kin. `inc_dec_target` says whether the operator stands in front.
pub data ParseError : Type 0 where
  expected_type : (context : Bytes) (line : ℕ) (got : Bytes) → ParseError
  expected_text : (text context : Bytes) (line : ℕ) (got : Bytes) → ParseError
  expected_expression : (line : ℕ) (got : Bytes) → ParseError
  number_error : Error → ParseError
  bound_value_outside inconsistent_values sscanf_arguments sscanf_spread : ParseError
  param_outside param_below_one : (name : Bytes) → ParseError
  sscanf_range sscanf_target : (argument : ℕ) → ParseError
  call_other_arguments call_other_spread : ParseError
  inc_dec_target : (prefix : Bool) (text : Bytes) (line : ℕ) → ParseError
  assignment_target : (line : ℕ) → ParseError
  unterminated_switch unterminated_block unterminated_class : ParseError

-- What a parse function does. `out_of_fuel` has no counterpart in the program.
pub data Outcome (A : Type 0) : Type 0 where
  out_of_fuel : Outcome A
  thrown : ParseError → Outcome A
  parsed : A → Parser → Outcome A

abbrev pub Parse : Type 0 → Type 0
Parse A = Parser → Outcome A

module _ {A : Type 0} where
  unfoldable pub pure : A → Parse A
  pure a p = parsed a p

  -- The message names the token ahead.
  unfoldable pub throw : (Parser → ParseError) → Parse A
  throw error p = thrown (error p)

  unfoldable pub gets : (Parser → A) → Parse A
  gets f p = parsed (f p) p

abbrev pub after : {A B : Type 0} → Outcome A → (A → Parse B) → Outcome B
after out_of_fuel f = out_of_fuel
after (thrown e) f = thrown e
after (parsed a p) f = f a p

infixl 5 ◌>>=◌ ◌>>◌
unfoldable pub ◌>>=◌ : {A B : Type 0} → Parse A → (A → Parse B) → Parse B
unfolding pure throw gets
◌>>=◌ m f p = after (m p) f

abbrev pub ◌>>◌ : {A B : Type 0} → Parse A → Parse B → Parse B
m >> n = m >>= λ _. n

abbrev pub get_or {ℓ} : {A : Type ℓ} → A → List A → A
get_or d [] = d
get_or d (a ∷ l) = a

-- `peekAt(offset)`, and `peek()` at 0.
unfoldable pub peek_at : ℕ → Parser → Token
peek_at offset p = get_or p.last (drop offset p.ahead)

abbrev pub peek : Parser → Token
peek p = get_or p.last p.ahead

pub is_type : TokenType → TokenType → Bool
is_type ident ident = true
is_type number number = true
is_type string string = true
is_type symbol symbol = true
is_type quoted_symbol quoted_symbol = true
is_type keyword keyword = true
is_type end end = true
is_type _ _ = false

pub none_ahead : List Token → Bool
unfolding is_type
none_ahead [] = true
none_ahead (t ∷ _) = is_type t.type end

unfoldable pub at_end : Parser → Bool
unfolding none_ahead
at_end p = none_ahead p.ahead

abbrev pub tail {ℓ} : {A : Type ℓ} → List A → List A
tail [] = []
tail (_ ∷ l) = l

unfoldable pub step : Parser → Parser
unfolding at_end
step p = if at_end p then p else record p { ahead = tail p.ahead }

unfoldable pub advance : Parse Token
unfolding step
advance p = parsed (peek p) (step p)

-- A condition on what is ahead.
abbrev pub Test : Type 0
Test = Parser → Bool

unfoldable pub check : TokenType → Test
unfolding is_type at_end
check type p = not (at_end p) && is_type (peek p).type type

unfoldable pub check_text : String → Test
unfolding is_type at_end same
check_text text p =
    not (at_end p)
    && ((is_type (peek p).type symbol || is_type (peek p).type keyword)
        && same (peek p).text (codes text))

infixr 6 ◌also◌
infixr 5 ◌either◌
unfoldable pub ◌also◌ : Test → Test → Test
◌also◌ t u p = t p && u p

unfoldable pub ◌either◌ : Test → Test → Test
◌either◌ t u p = t p || u p

-- `peek().text == text`, and the type and the text of a token further ahead.
unfoldable pub text_is : String → Test
unfolding same
text_is text p = same (peek p).text (codes text)

unfoldable pub type_at : ℕ → TokenType → Test
unfolding peek_at is_type
type_at offset type p = is_type (peek_at offset p).type type

unfoldable pub text_at : ℕ → String → Test
unfolding peek_at same
text_at offset text p = same (peek_at offset p).text (codes text)

pub same_dialect : LpcDialect → LpcDialect → Bool
same_dialect fluff_os fluff_os = true
same_dialect ld_mud ld_mud = true
same_dialect dgd dgd = true
same_dialect _ _ = false

unfoldable pub dialect_is : LpcDialect → Test
unfolding same_dialect
dialect_is d p = same_dialect p.dialect d

-- `if (test) { … = advance(); body } other`
unfoldable pub on : {A : Type 0} → Test → (Token → Parse A) → Parse A → Parse A
unfolding step
on test body other p = if test p then body (peek p) (step p) else other p

-- `if (test) body else other`, where `body` is at the same token.
unfoldable pub choose : {A : Type 0} → Test → Parse A → Parse A → Parse A
choose test body other p = if test p then body p else other p

unfoldable pub expect : TokenType → Bytes → Parse Token
unfolding check on pure throw
expect type context =
    on (check type) pure (throw λ p. expected_type context (peek p).line (peek p).text)

unfoldable pub expect_text : String → String → Parse Token
unfolding check_text on pure throw
expect_text text context =
    on (check_text text) pure
      (throw λ p. expected_text (codes text) (codes context) (peek p).line (peek p).text)

-- The functions that a body calls once it has advanced, with the fuel that is left to them.
pub record Calls : Type 0 where
  pub expr : Parse Ast
  pub unary : Parse Ast
  pub statement : Parse Ast
  pub block : Parse Ast
