-- ===== src/Compiler/Parser/Total/Declarations.antt =====
-- src/compiler/Parser.cpp: the whole parser ends.

use amlp.Compiler.Parser.Total.Statements.{Eats-parse_statement, Eats-parse_block}
use amlp.Compiler.Parser.Total.Expressions.{Goes-parse_postfix, Goes-parse_unary, Goes-parse_expr}
use amlp.Compiler.Parser.Loops.{left}
use amlp.Dialect.{LpcDialect}
use amlp.Compiler.Parser.Total.Brackets.{IsTotal}
use amlp.Compiler.Parser.Statements.{parse_block}
use amlp.Compiler.Parser.Rounds.{Goes-comma_list, Goes-until, Goes-while_on}
use amlp.Compiler.Parser.Expressions.{parse_expr}
use amlp.Compiler.Lexer.{TokenType, Token, keyword}
use amlp.Compiler.Parser.Total.Lists.{
  Goes-parse_param_list, Guards-check_array, Goes-consume_array_marker, Goes-parse_type_token,
  Guards-starts_class_type,
}
use Prim.Native.String.{String}
use amlp.Compiler.Ast.{ObjectVarDecl, Program}
use amlp.Compiler.Parser.{
  choose, ◌>>=◌, pure, after, Parse, at_end, Outcome, Parser, out_of_fuel, parsed, thrown, is_type,
  advance, Calls,
}
use amlp.Compiler.Parser.Declarations.{
  empty_program, parse_program, calls_of, parse, parser, program_rounds, parse_plain_declaration,
  DeclPrefix, parse_declaration, parse_function_rest, parse_initializer, parse_next_object_var,
  parse_object_var_decl_rest, modifiers_ahead, advance_by, advance_modifiers, parse_class_decl,
  parse_decl_prefix, parse_decl_type, parse_inherit_path_string, parse_inherit_statement,
  parse_member_name, parse_members, parse_modifiers, parse_path_part, check_modifier,
}
use amlp.Base.{
  false, Bool-cases, ◌+◌, ◌<◌, ◌≡◌, length, [], inl, inr, refl, true, ◌∷◌, ◌$◌, List, case, Bytes,
  ℕ, arith, suc, zero,
}
use amlp.Compiler.Parser.Progress.{
  Behind-none, Eats-Goes, Follows, Behind, Goes-advance, Goes-bind, Goes-earlier, Eats-throw,
  Goes-pure, Eats-expect_text, Guards-check, Eats-expect, Goes, Eats, Guards, goes, Eats-bind_left,
  Eats-bind_right, Eats-choose, Eats-on_same,
}

ruleset eats = (
  goes, Eats-bind_left, Eats-bind_right, Eats-choose, Eats-on_same, Eats-expect, Eats-expect_text,
  Eats-throw,
)

Guards-check_modifier : Guards check_modifier
unfolding check_modifier
Guards-check_modifier = record { at = λ p h. ground (arith, (Guards-check keyword).at p) }

module _ {n : ℕ} where
  Goes-parse_modifiers : Goes n parse_modifiers
  unfolding parse_modifiers
  Goes-parse_modifiers = search (goes, Guards-check_modifier, Goes-while_on, Goes-earlier)

  Goes-parse_decl_type : Goes n parse_decl_type
  unfolding parse_decl_type
  Goes-parse_decl_type =
      search (goes, Guards-starts_class_type, Guards-check_array, Goes-consume_array_marker) depth
        12

  Eats-parse_decl_prefix : (context : String) → Eats n (parse_decl_prefix context)
  unfolding parse_decl_prefix
  Eats-parse_decl_prefix context = search (eats, Goes-parse_modifiers, Goes-parse_decl_type) depth 8

  Goes-parse_path_part : (t : Token) (path : Bytes) → Goes n (parse_path_part t path)
  unfolding parse_path_part is_type
  Goes-parse_path_part t path =
      case (Goes n) (is_type t.type TokenType.string) (λ _. Goes-pure _) $ search goes

  Goes-parse_inherit_path_string : Goes n parse_inherit_path_string
  unfolding parse_inherit_path_string
  Goes-parse_inherit_path_string =
      search (goes, Goes-parse_path_part, Goes-while_on, Goes-earlier) depth 8

  Eats-parse_inherit_statement : (program : Program) → Eats n (parse_inherit_statement program)
  unfolding parse_inherit_statement
  Eats-parse_inherit_statement program = search (eats, Goes-parse_inherit_path_string) depth 8

  Goes-parse_member_name : Goes n parse_member_name
  unfolding parse_member_name
  Goes-parse_member_name = search (goes, Goes-consume_array_marker)

  Eats-parse_members : Eats n parse_members
  unfolding parse_members
  Eats-parse_members =
      search (eats, Goes-parse_type_token, Goes-comma_list, Goes-parse_member_name) depth 8

  Eats-parse_class_decl : Eats n parse_class_decl
  unfolding parse_class_decl
  Eats-parse_class_decl = search (eats, Goes-until, Eats-parse_members) depth 8

  Goes-advance_by : (k : ℕ) → Goes n (advance_by k)
  unfolding advance_by
  Goes-advance_by zero = Goes-pure tt
  Goes-advance_by (suc k) = Goes-bind advance _ Goes-advance λ _. Goes-advance_by k

  Goes-advance_modifiers : Goes n advance_modifiers
  unfolding advance_modifiers
  Goes-advance_modifiers = record { at = λ p h. (Goes-advance_by (modifiers_ahead p)).at p h }

module _ {n : ℕ} (calls : Calls) (hx : Goes n (parse_expr calls)) where
  Goes-parse_initializer : Goes n (parse_initializer calls)
  unfolding parse_initializer
  Goes-parse_initializer = search goes

  Goes-parse_next_object_var :
      (prefix : DeclPrefix) (decls : List ObjectVarDecl)
      → Goes n (parse_next_object_var calls prefix decls)
  unfolding parse_next_object_var
  Goes-parse_next_object_var prefix decls =
      search (goes, Goes-consume_array_marker, Goes-parse_initializer) depth 8

  Goes-parse_object_var_decl_rest :
      (prefix : DeclPrefix) → Goes n (parse_object_var_decl_rest calls prefix)
  unfolding parse_object_var_decl_rest
  Goes-parse_object_var_decl_rest prefix =
      search (goes, Goes-parse_initializer, Goes-parse_next_object_var, Goes-while_on, Goes-earlier)
        depth 8

  module _ (hb : Goes n (parse_block calls)) where
    Goes-parse_function_rest : (prefix : DeclPrefix) → Goes n (parse_function_rest calls prefix)
    unfolding parse_function_rest
    Goes-parse_function_rest prefix = search (goes, Goes-parse_param_list) depth 10

    Eats-parse_declaration : (program : Program) → Eats n (parse_declaration calls program)
    unfolding parse_declaration parse_plain_declaration
    Eats-parse_declaration program =
        search
          (
            eats, Eats-parse_inherit_statement, Goes-advance_modifiers, Eats-parse_class_decl,
            Eats-parse_decl_prefix, Goes-parse_function_rest, Goes-parse_object_var_decl_rest,
          )
          depth 12

-- Behind the loop nothing is ahead, and as many bodies of closures are open as before it.
abbrev Finished : Parser → Outcome Program → Type 0
Finished p out_of_fuel = ⊥
Finished p (thrown e) = Unit
Finished p (parsed program q) = Behind 0 p q × (at_end q ≡ true)

Finished-later : {p q : Parser} (o : Outcome Program) → Behind 1 p q → Finished q o → Finished p o
Finished-later out_of_fuel h k = k
Finished-later (thrown e) h k = tt
Finished-later (parsed program r) h k = (omega arith, k.1)

Finished-after :
    {p : Parser} (o : Outcome Program) (f : Program → Parse Program)
    → Follows 1 p o
    → ((a : Program) (q : Parser) → Behind 1 p q → Finished q (f a q))
    → Finished p (after o f)
Finished-after out_of_fuel f h k = h
Finished-after (thrown e) f h k = tt
Finished-after (parsed a q) f h k = Finished-later (f a q) h (k a q h)

Finished-bind :
    (m : Parse Program) (f : Program → Parse Program) (p : Parser)
    → Follows 1 p (m p)
    → ((a : Program) (q : Parser) → Behind 1 p q → Finished q (f a q))
    → Finished p ((m >>= f) p)
unfolding ◌>>=◌
Finished-bind m f p h k = Finished-after (m p) f h k

Finished-choose :
    (m k : Parse Program) (p : Parser)
    → (at_end p ≡ true → Finished p (m p))
    → (at_end p ≡ false → Finished p (k p))
    → Finished p (choose at_end m k p)
unfolding choose
Finished-choose m k p hm hk = elim (Bool-cases (at_end p)) [
  | inl e ↦ rw e (hm e)
  | inr e ↦ rw e (hk e)
]

module _ {n : ℕ} (calls : Calls)
    (hd : (program : Program) → Eats n (parse_declaration calls program)) where
  program_rounds-Finished :
      (rounds : ℕ) (program : Program) (p : Parser)
      → left p < rounds
      → left p < n
      → Finished p (program_rounds calls rounds program p)
  unfolding program_rounds
  program_rounds-Finished zero program p l h = absurd (omega arith)
  program_rounds-Finished (suc rounds) program p l h =
      Finished-choose (pure program)
        (parse_declaration calls program >>= program_rounds calls rounds) p
        (λ e. unfold pure in (Behind-none p, e))
        λ e.
          Finished-bind (parse_declaration calls program) (program_rounds calls rounds) p
            ((hd program).at p h)
            λ a q b. program_rounds-Finished rounds a q (omega arith) (omega arith)

-- The calls inside one another, with fuel for `n`.
pub calls_of-IsTotal : (n : ℕ) → IsTotal n (calls_of n)
unfolding calls_of
calls_of-IsTotal zero = record {
  expr = record { at = λ p h. absurd (omega arith) };
  unary = record { at = λ p h. absurd (omega arith) };
  block = record { at = λ p h. absurd (omega arith) };
  statement = record { at = λ p h. absurd (omega arith) };
}
calls_of-IsTotal (suc n) =
    let h = calls_of-IsTotal n in
    let calls = calls_of n in
    let hx = Goes-parse_expr calls h.expr h.unary h.block in
    record {
      expr = hx;
      unary = Goes-parse_unary calls h.expr h.unary h.block;
      block = Eats-Goes (parse_block calls) (Eats-parse_block calls h.statement);
      statement =
          Eats-parse_statement calls hx (Goes-parse_postfix calls h.expr h.block) h.statement;
    }

-- The outcome of a whole parse: an error, or a program with nothing but the end behind it and no
-- body of a closure left open.
abbrev pub IsComplete : Outcome Program → Type 0
IsComplete out_of_fuel = ⊥
IsComplete (thrown e) = Unit
IsComplete (parsed program q) =
    (at_end q ≡ true) × (q.lambda_param_max_stack ≡ []) × (q.lambda_bound_values_stack ≡ [])

nil_of_length : {A : Type 0} (l : List A) → length l ≡ 0 → l ≡ []
nil_of_length [] h = refl
nil_of_length (a ∷ l) h = absurd (omega arith)

Finished-IsComplete :
    (t : Token) (l : List Token) (dialect : LpcDialect) (o : Outcome Program)
    → Finished (parser t l dialect) o
    → IsComplete o
unfolding parser
Finished-IsComplete t l dialect out_of_fuel h = h
Finished-IsComplete t l dialect (thrown e) h = tt
Finished-IsComplete t l dialect (parsed program q) h = (
  h.1,
  nil_of_length q.lambda_param_max_stack h.0.params,
  nil_of_length q.lambda_bound_values_stack h.0.bounds,
)

-- The parser ends on every list of tokens in every dialect, with the fuel that it has: it throws, or
-- it returns a program with nothing but the end of the tokens ahead, and every body of a closure
-- that it opened is closed.
pub parse-IsComplete :
    (t : Token) (l : List Token) (dialect : LpcDialect) → IsComplete (parse t l dialect)
unfolding parse parse_program parser
parse-IsComplete t l dialect =
    let n : ℕ = length l + 1 in
    let h : IsTotal n (calls_of n) = calls_of-IsTotal n in
    let hx = Goes-parse_expr (calls_of n) h.expr h.unary h.block in
    let hb = Eats-Goes (parse_block (calls_of n)) (Eats-parse_block (calls_of n) h.statement) in
    Finished-IsComplete t l dialect (parse t l dialect) (
      program_rounds-Finished (calls_of n) (Eats-parse_declaration (calls_of n) hx hb)
        (suc (length (t ∷ l))) empty_program (parser t l dialect) (omega arith) (omega arith))
