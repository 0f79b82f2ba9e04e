-- ===== src/Compiler/Parser/Loops.antt =====
-- src/compiler/Parser.cpp: the forms of its loops. A round takes a token at least, so a loop has the
-- number of the tokens ahead and one for its fuel.
use amlp.Base.{ℕ, zero, suc, false, List, [], ◌∷◌, ◌++◌, length}
use Prim.Native.String.{String}
use amlp.Compiler.Lexer.{Token}
use amlp.Compiler.Parser.{
  Parser, ParseError, Parse, Test, pure, throw, out_of_fuel, ◌>>=◌, on, choose, check_text, at_end,
}

abbrev pub left : Parser → ℕ
left p = length p.ahead

module _ {A : Type 0} where
  -- `while (test) { … = advance(); body }`
  unfoldable pub while_rounds : ℕ → Test → (Token → A → Parse A) → A → Parse A
  unfolding on ◌>>=◌
  while_rounds zero test body a = λ p. out_of_fuel
  while_rounds (suc rounds) test body a =
      on test (λ t. body t a >>= while_rounds rounds test body) (pure a)

  unfoldable pub while_on : Test → (Token → A → Parse A) → A → Parse A
  unfolding while_rounds
  while_on test body a p = while_rounds (suc (left p)) test body a p

  -- `for (;;) { body; if (checkText(",")) { advance(); if (stop) break; continue; } break; }`
  unfoldable pub comma_rounds : ℕ → Test → (A → Parse A) → A → Parse A
  unfolding on choose check_text ◌>>=◌
  comma_rounds zero stop body a = λ p. out_of_fuel
  comma_rounds (suc rounds) stop body a = body a >>= λ b.
      on (check_text ",") (λ _. choose stop (pure b) (comma_rounds rounds stop body b)) (pure b)

  unfoldable pub comma_loop : Test → (A → Parse A) → A → Parse A
  unfolding comma_rounds
  comma_loop stop body a p = comma_rounds (suc (left p)) stop body a p

  -- `while (!checkText(close)) { if (atEnd()) throw …; item }`, with what follows the loop.
  unfoldable pub until_rounds : ℕ → String → ParseError → Parse A → Parse (List A)
  unfolding choose check_text at_end ◌>>=◌
  until_rounds zero close error item = λ p. out_of_fuel
  until_rounds (suc rounds) close error item = choose (check_text close) (pure []) do
    choose at_end (throw λ _. error)
        (item >>= λ a. until_rounds rounds close error item >>= λ l. pure (a ∷ l))

  unfoldable pub until : String → ParseError → Parse A → Parse (List A)
  unfolding until_rounds
  until close error item p = until_rounds (suc (left p)) close error item p

-- `push_back` of an item.
unfoldable pub push : {A : Type 0} → Parse A → List A → Parse (List A)
unfolding ◌>>=◌
push item l = item >>= λ a. pure (l ++ a ∷ [])

unfoldable pub comma_list : {A : Type 0} → Test → Parse A → Parse (List A)
unfolding comma_loop push
comma_list stop item = comma_loop stop (push item) []

-- No break behind a comma.
unfoldable pub never : Test
never p = false
