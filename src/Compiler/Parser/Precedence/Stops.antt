-- ===== src/Compiler/Parser/Precedence/Stops.antt =====
-- src/compiler/Parser.cpp: which levels take a token that may follow an expression.
use amlp.Compiler.Ast.{
  BinOp, eq, neq, lt, lte, gt, gte, add, or, and, sub, mul, div, modulo, bit_and, bit_or, bit_xor,
  shl, shr,
}
use amlp.Compiler.Parser.Precedence.{
  Stop, operator, question, colon, close_bracket, semicolon, no_more, stop_token, loudness,
  parse_at,
}
use amlp.Compiler.Lexer.{Token}
use amlp.Compiler.Parser.Expressions.{
  left_assoc, parse_logical_or, parse_logical_and, parse_bit_or, parse_bit_xor, parse_bit_and,
  parse_equality, parse_comparison, parse_shift, parse_additive, parse_multiplicative,
  check_assign_op,
}
use amlp.Compiler.Lexer.{TokenType}
use amlp.Base.{
  ◌∙◌, ◌<◌, if◌then◌else◌, ◌||◌, Bytes, not, ◌&&◌, ◌≡◌, Bool, List, ℕ, arith, false, refl, suc,
  true, zero, ◌∷◌, ◌==◌, codes, same,
}
use amlp.Compiler.Parser.{Calls, check, ◌either◌, check_text, Parser, Test}

-- The operators of level `j + 1`, and what they are in the tree.
unfoldable pub test_at : ℕ → Test
unfolding check_text ◌either◌
test_at zero = check_text "*" either check_text "/" either check_text "%"
test_at (suc zero) = check_text "+" either check_text "-"
test_at (suc (suc zero)) = check_text "<<" either check_text ">>"
test_at (suc (suc (suc zero))) =
    check_text "<" either check_text "<=" either check_text ">" either check_text ">="
test_at (suc (suc (suc (suc zero)))) = check_text "==" either check_text "!="
test_at (suc (suc (suc (suc (suc zero))))) = check_text "&"
test_at (suc (suc (suc (suc (suc (suc zero)))))) = check_text "^"
test_at (suc (suc (suc (suc (suc (suc (suc zero))))))) = check_text "|"
test_at (suc (suc (suc (suc (suc (suc (suc (suc zero)))))))) = check_text "&&"
test_at _ = check_text "||"

unfoldable pub op_at : ℕ → Bytes → BinOp
unfolding same
op_at zero = λ t. if same t (codes "*") then mul else if same t (codes "/") then div else modulo
op_at (suc zero) = λ t. if same t (codes "+") then add else sub
op_at (suc (suc zero)) = λ t. if same t (codes "<<") then shl else shr
op_at (suc (suc (suc zero))) = λ t.
    if same t (codes "<")
    then lt
    else if same t (codes "<=")
    then lte
    else if same t (codes ">")
    then gt
    else gte
op_at (suc (suc (suc (suc zero)))) = λ t. if same t (codes "==") then eq else neq
op_at (suc (suc (suc (suc (suc zero))))) = λ _. bit_and
op_at (suc (suc (suc (suc (suc (suc zero)))))) = λ _. bit_xor
op_at (suc (suc (suc (suc (suc (suc (suc zero))))))) = λ _. bit_or
op_at (suc (suc (suc (suc (suc (suc (suc (suc zero)))))))) = λ _. and
op_at _ = λ _. or

pub parse_at-left :
    (j : ℕ) (calls : Calls)
    → j < 10
    → parse_at (suc j) calls ≡ left_assoc (test_at j) (op_at j) (parse_at j calls)
unfolding parse_at parse_multiplicative parse_additive parse_shift parse_comparison parse_equality
    parse_bit_and parse_bit_xor parse_bit_or parse_logical_and parse_logical_or test_at op_at
parse_at-left zero calls h = refl
parse_at-left (suc zero) calls h = refl
parse_at-left (suc (suc zero)) calls h = refl
parse_at-left (suc (suc (suc zero))) calls h = refl
parse_at-left (suc (suc (suc (suc zero)))) calls h = refl
parse_at-left (suc (suc (suc (suc (suc zero))))) calls h = refl
parse_at-left (suc (suc (suc (suc (suc (suc zero)))))) calls h = refl
parse_at-left (suc (suc (suc (suc (suc (suc (suc zero))))))) calls h = refl
parse_at-left (suc (suc (suc (suc (suc (suc (suc (suc zero)))))))) calls h = refl
parse_at-left (suc (suc (suc (suc (suc (suc (suc (suc (suc zero))))))))) calls h = refl
parse_at-left (suc (suc (suc (suc (suc (suc (suc (suc (suc (suc j)))))))))) calls h =
    absurd (omega arith)

abbrev pub at : Parser → Token → List Token → Parser
at p t l = record p { ahead = t ∷ l }

all_stops : (Stop → Bool) → Bool
all_stops f =
    f (operator mul)
    && (f (operator div)
        && (f (operator modulo)
            && (f (operator add)
                && (f (operator sub)
                    && (f (operator shl)
                        && (f (operator shr)
                            && (f (operator lt)
                                && (f (operator lte)
                                    && (f (operator gt)
                                        && (f (operator gte)
                                            && (f (operator eq)
                                                && (f (operator neq)
                                                    && (f (operator bit_and)
                                                        && (f (operator bit_xor)
                                                            && (f (operator bit_or)
                                                            && (f (operator and)
                                                            && (f (operator or)
                                                            && (f question
                                                            && (f colon
                                                            && (f close_bracket
                                                            && (f semicolon
                                                            && (f no_more))))))))))))))))))))))

all_stops_sound : (f : Stop → Bool) (c : Stop) → all_stops f ≡ true → f c ≡ true
unfolding all_stops
all_stops_sound f (operator mul) h = ground arith
all_stops_sound f (operator div) h = ground arith
all_stops_sound f (operator modulo) h = ground arith
all_stops_sound f (operator add) h = ground arith
all_stops_sound f (operator sub) h = ground arith
all_stops_sound f (operator shl) h = ground arith
all_stops_sound f (operator shr) h = ground arith
all_stops_sound f (operator lt) h = ground arith
all_stops_sound f (operator lte) h = ground arith
all_stops_sound f (operator gt) h = ground arith
all_stops_sound f (operator gte) h = ground arith
all_stops_sound f (operator eq) h = ground arith
all_stops_sound f (operator neq) h = ground arith
all_stops_sound f (operator bit_and) h = ground arith
all_stops_sound f (operator bit_xor) h = ground arith
all_stops_sound f (operator bit_or) h = ground arith
all_stops_sound f (operator and) h = ground arith
all_stops_sound f (operator or) h = ground arith
all_stops_sound f question h = ground arith
all_stops_sound f colon h = ground arith
all_stops_sound f close_bracket h = ground arith
all_stops_sound f semicolon h = ground arith
all_stops_sound f no_more h = ground arith

-- Behind an expression nothing goes on with it but an operator or a question mark.
unfoldable pub ends_operand : Test
unfolding check_text check_assign_op
ends_operand p = not (
    check TokenType.string p
    || (check_text "(" p
        || (check_text "::" p
            || (check_text "{" p
                || (check_text "->" p
                    || (check_text "[" p
                        || (check_text "++" p || (check_text "--" p || check_assign_op p))))))))

same_bool : Bool → Bool → Bool
same_bool true b = b
same_bool false b = not b

-- The levels that take a token are its own.
abbrev takes : Parser → List Token → Stop → ℕ → Bool
takes p l c j = same_bool (test_at j (at p (stop_token c) l)) (loudness c == suc j)

abbrev ten_levels : (ℕ → Bool) → Bool
ten_levels f = f 0 && (f 1 && (f 2 && (f 3 && (f 4 && (f 5 && (f 6 && (f 7 && (f 8 && (f 9)))))))))

stop_table : (p : Parser) (l : List Token) → all_stops (λ c. ten_levels (takes p l c)) ≡ true
unfolding all_stops test_at same_bool
stop_table p l = refl

end_table :
    (p : Parser) (l : List Token) → all_stops (λ c. ends_operand (at p (stop_token c) l)) ≡ true
unfolding all_stops ends_operand check
end_table p l = refl

question_table :
    (p : Parser) (l : List Token)
    → all_stops (λ c. same_bool (check_text "?" (at p (stop_token c) l)) (loudness c == 11)) ≡ true
unfolding all_stops check_text same_bool
question_table p l = refl

ten_levels_sound : (f : ℕ → Bool) (j : ℕ) → j < 10 → ten_levels f ≡ true → f j ≡ true
ten_levels_sound f zero h e = ground arith
ten_levels_sound f (suc zero) h e = ground arith
ten_levels_sound f (suc (suc zero)) h e = ground arith
ten_levels_sound f (suc (suc (suc zero))) h e = ground arith
ten_levels_sound f (suc (suc (suc (suc zero)))) h e = ground arith
ten_levels_sound f (suc (suc (suc (suc (suc zero))))) h e = ground arith
ten_levels_sound f (suc (suc (suc (suc (suc (suc zero)))))) h e = ground arith
ten_levels_sound f (suc (suc (suc (suc (suc (suc (suc zero))))))) h e = ground arith
ten_levels_sound f (suc (suc (suc (suc (suc (suc (suc (suc zero)))))))) h e = ground arith
ten_levels_sound f (suc (suc (suc (suc (suc (suc (suc (suc (suc zero))))))))) h e = ground arith
ten_levels_sound f (suc (suc (suc (suc (suc (suc (suc (suc (suc (suc j)))))))))) h e =
    absurd (omega arith)

same_bool_sound : (a b : Bool) → same_bool a b ≡ true → a ≡ b
unfolding same_bool
same_bool_sound a b h = ground arith

module _ (p : Parser) (c : Stop) (l : List Token) where
  test_at-stop : (j : ℕ) → j < 10 → test_at j (at p (stop_token c) l) ≡ (loudness c == suc j)
  test_at-stop j h = same_bool_sound (test_at j (at p (stop_token c) l)) (loudness c == suc j) (
      ten_levels_sound (takes p l c) j h
        (all_stops_sound (λ c'. ten_levels (takes p l c')) c (stop_table p l)))

  pub passes : (j : ℕ) → j < 10 → suc j < loudness c → test_at j (at p (stop_token c) l) ≡ false
  passes j h k = test_at-stop j h ∙ ground arith

  pub taken : (j : ℕ) → j < 10 → loudness c ≡ suc j → test_at j (at p (stop_token c) l) ≡ true
  taken j h k = test_at-stop j h ∙ ground arith

  pub ends_operand-stop : ends_operand (at p (stop_token c) l) ≡ true
  ends_operand-stop =
      all_stops_sound (λ c'. ends_operand (at p (stop_token c') l)) c (end_table p l)

  pub no_question : 11 < loudness c → check_text "?" (at p (stop_token c) l) ≡ false
  no_question h =
      same_bool_sound (check_text "?" (at p (stop_token c) l)) (loudness c == 11) (
        all_stops_sound
          (λ c'. same_bool (check_text "?" (at p (stop_token c') l)) (loudness c' == 11)) c
          (question_table p l))
      ∙ ground arith
