-- ===== src/Compiler/Parser/Precedence/Atoms.antt =====
-- src/compiler/Parser.cpp: how `parseUnary` reads names, literals, prefix operators and brackets.
use amlp.Compiler.Parser.Types.{type_keyword_at}
use amlp.Dialect.{fluff_os}
use amlp.Compiler.Parser.Loops.{while_on}
use amlp.Compiler.Parser.Brackets.{parse_parenthesized}
use amlp.Compiler.Parser.Parts.{parse_comma_expr, parse_string}
use amlp.Compiler.Parser.Precedence.Steps.{
  also-false_left, also-false_right, on-false, while_on-stop, bind-parsed,
}
use amlp.Compiler.Parser.Outputs.{named, is_dollar}
use amlp.Compiler.Parser.Primary.{parse_name, parse_primary}
use amlp.Compiler.Parser.Expressions.{
  parse_prefixed, parse_class_casted, parse_class_cast, parse_cast, backtrack, parse_assign_to,
  inc_dec_op, make_inc_dec, parse_access, parse_postfix, check_assign_op, parse_operand,
  parse_unary,
}
use amlp.Compiler.Parser.{
  on, Test, type_at, Parse, text_at, dialect_is, ◌also◌, is_type, check_text, ◌>>=◌, check, Calls,
  Parser, ◌either◌, parsed, pure,
}
use amlp.Compiler.Parser.{inc_dec_target, throw}
use amlp.Base.{
  ap, Option, none, ◌++◌, ◌∙◌, not as flip, Bytes, List, arith, ◌∷◌, codes, same, ◌≡◌, refl, false,
  true,
}
use amlp.Compiler.Lexer.{TokenType, token, Token}
use amlp.Compiler.Ast.{comma, Ast, UnaryOp, not, neg, bit_not, unary, var_ref, string_literal}
use amlp.Compiler.Parser.Precedence.{sym, prefix_spelling}
use amlp.Compiler.Parser.Precedence.Stops.{ends_operand}

abbrev pub from : Parser → List Token → Parser
from p l = record p { ahead = l }

-- What ends an operand, test by test.
pub record Ends (p : Parser) : Type 0 where
  pub string : check TokenType.string p ≡ false
  pub bracket : check_text "(" p ≡ false
  pub scope : check_text "::" p ≡ false
  pub brace : check_text "{" p ≡ false
  pub access : (check_text "->" either check_text "[") p ≡ false
  pub step : (check_text "++" either check_text "--") p ≡ false
  pub assign : check_assign_op p ≡ false

pub ends_operand-Ends : (p : Parser) → ends_operand p ≡ true → Ends p
unfolding ends_operand ◌either◌
ends_operand-Ends p h = record {
  string = ground arith;
  bracket = ground arith;
  scope = ground arith;
  brace = ground arith;
  access = ground arith;
  step = ground arith;
  assign = ground arith;
}

module _ (calls : Calls) (p : Parser) where
  operand_of-primary :
      (q : Parser) (a : Ast)
      → parse_primary calls p ≡ parsed a q
      → Ends q
      → parse_operand calls p ≡ parsed a q
  unfolding parse_operand
  operand_of-primary q a e h =
      let post : parse_postfix calls p ≡ pure a q =
        bind-parsed (parse_primary calls) _ p q a e
        ∙ bind-parsed (while_on (check_text "->" either check_text "[") (parse_access calls) a) _ q
            q a
            (while_on-stop (check_text "->" either check_text "[") (parse_access calls) a q
              h.access)
        ∙ on-false (check_text "++" either check_text "--")
            (λ t.
              make_inc_dec (inc_dec_op t.text) false a
                (throw λ _. inc_dec_target false t.text t.line))
            (pure a) q h.step in
      bind-parsed (parse_postfix calls) _ p q a post
      ∙ on-false check_assign_op (λ t. parse_assign_to calls t a) (pure a) q h.assign

  parse_name-plain :
      (x : Bytes) → is_dollar x ≡ false → Ends p → parse_name calls x p ≡ parsed (var_ref x) p
  unfolding parse_name
  parse_name-plain x d h =
      let new : (named x "new" also dialect_is fluff_os also check_text "(" also text_at 1 "class")
            p
          ≡ false =
        also-false_right (named x "new")
          (dialect_is fluff_os also check_text "(" also text_at 1 "class") p
          (also-false_right (dialect_is fluff_os) (check_text "(" also text_at 1 "class") p
            (also-false_left (check_text "(") (text_at 1 "class") p h.bracket)) in
      let efun : (named x "efun" also check_text "::") p ≡ false =
        also-false_right (named x "efun") (check_text "::") p h.scope in
      let scope : ((λ p'. flip (named x "efun" p')) also check_text "::") p ≡ false =
        also-false_right (λ p'. flip (named x "efun" p')) (check_text "::") p h.scope in
      let catching : (named x "catch" also check_text "(") p ≡ false =
        also-false_right (named x "catch") (check_text "(") p h.bracket in
      let timing : (named x "time_expression" also check_text "{") p ≡ false =
        also-false_right (named x "time_expression") (check_text "{") p h.brace in
      rw (d, new, efun, scope, catching, timing, h.bracket)

  pub unary-name :
      (x : Bytes) (l : List Token)
      → parse_unary calls (from p (token TokenType.ident x 1 ∷ l))
        ≡ parse_operand calls (from p (token TokenType.ident x 1 ∷ l))
  unfolding parse_unary parse_class_casted parse_prefixed
  unary-name x l = refl

  primary-name :
      (x : Bytes) (l : List Token)
      → parse_primary calls (from p (token TokenType.ident x 1 ∷ l)) ≡ parse_name calls x (from p l)
  unfolding parse_primary
  primary-name x l = refl

  pub unary-prefix :
      (o : UnaryOp) (l : List Token)
      → parse_unary calls (from p (sym (prefix_spelling o) ∷ l))
        ≡ (calls.unary >>= λ a. pure (unary o a)) (from p l)
  unfolding parse_unary parse_class_casted parse_prefixed
  unary-prefix not l = refl
  unary-prefix neg l = refl
  unary-prefix bit_not l = refl

  pub unary-text :
      (s : Bytes) (l : List Token)
      → parse_unary calls (from p (token TokenType.string s 1 ∷ l))
        ≡ parse_operand calls (from p (token TokenType.string s 1 ∷ l))
  unfolding parse_unary parse_class_casted parse_prefixed
  unary-text s l = refl

  primary-text :
      (s : Bytes) (l : List Token)
      → parse_primary calls (from p (token TokenType.string s 1 ∷ l)) ≡ parse_string s (from p l)
  unfolding parse_primary
  primary-text s l = refl

  parse_string-plain : (s : Bytes) → Ends p → parse_string s p ≡ parsed (string_literal s) p
  unfolding parse_string
  parse_string-plain s h =
      let more : Token → Bytes → Parse Bytes = λ t value. pure (value ++ t.text) in
      bind-parsed (while_on (check TokenType.string) more s) (λ value. pure (string_literal value))
        p p s (while_on-stop (check TokenType.string) more s p h.string)

-- A token that is no keyword and no text that is misread.
abbrev class_ahead : Test
class_ahead =
    check_text "("
    also dialect_is fluff_os
    also type_at 1 TokenType.ident
    also text_at 1 "class"
    also type_at 2 TokenType.ident

backtrack-none :
    {A : Type 0} (m : Parse (Option A)) (other : Parse A) (p : Parser)
    → m p ≡ parsed none p
    → backtrack m other p ≡ other p
unfolding backtrack
backtrack-none m other p e = ap (λ o. backtrack (λ _. o) other p) e

pub record Opens (t : Token) : Type 0 where
  pub keyword : is_type t.type TokenType.keyword ≡ false
  pub square : same t.text (codes "[") ≡ false
  pub colon : same t.text (codes ":") ≡ false
  pub star : same t.text (codes "*") ≡ false
  pub brace : same t.text (codes "{") ≡ false
  pub class : same t.text (codes "class") ≡ false

module _ (calls : Calls) (p : Parser) (t : Token) (l : List Token) (o : Opens t) where
  primary-bracket :
      parse_primary calls (from p (sym "(" ∷ t ∷ l)) ≡ parse_parenthesized calls (from p (t ∷ l))
  unfolding parse_primary
  primary-bracket = rw (o.square, o.colon, o.star, o.brace)

  no_type : type_keyword_at 1 (from p (sym "(" ∷ t ∷ l)) ≡ false
  unfolding type_keyword_at
  no_type = rw o.keyword

  no_class : class_ahead (from p (sym "(" ∷ t ∷ l)) ≡ false
  unfolding ◌also◌ text_at
  no_class = ground (arith, o.class)

  unary-bracket :
      parse_unary calls (from p (sym "(" ∷ t ∷ l)) ≡ parse_operand calls (from p (sym "(" ∷ t ∷ l))
  unfolding parse_unary parse_class_casted parse_prefixed
  unary-bracket =
      let q : Parser = from p (sym "(" ∷ t ∷ l) in
      backtrack-none
        (on (check_text "(" also type_keyword_at 1) (λ _. parse_cast calls) (pure none))
        (parse_class_casted calls) q
        (on-false (check_text "(" also type_keyword_at 1) (λ _. parse_cast calls) (pure none) q
          (also-false_right (check_text "(") (type_keyword_at 1) q no_type))
      ∙ backtrack-none (on class_ahead (λ _. parse_class_cast calls) (pure none))
          (parse_prefixed calls) q
          (on-false class_ahead (λ _. parse_class_cast calls) (pure none) q no_class)

module _ (calls : Calls) (p : Parser) (a : Ast) where
  -- A name, a literal and an expression in brackets, with what ends it behind.
  pub name-parsed :
      (x : Bytes) (l : List Token)
      → is_dollar x ≡ false
      → Ends (from p l)
      → parse_unary calls (from p (token TokenType.ident x 1 ∷ l)) ≡ parsed (var_ref x) (from p l)
  name-parsed x l d e =
      unary-name calls p x l
      ∙ operand_of-primary calls (from p (token TokenType.ident x 1 ∷ l)) (from p l) (var_ref x)
          (primary-name calls p x l ∙ parse_name-plain calls (from p l) x d e) e

  pub text-parsed :
      (s : Bytes) (l : List Token)
      → Ends (from p l)
      → parse_unary calls (from p (token TokenType.string s 1 ∷ l))
        ≡ parsed (string_literal s) (from p l)
  text-parsed s l e =
      unary-text calls p s l
      ∙ operand_of-primary calls (from p (token TokenType.string s 1 ∷ l)) (from p l)
          (string_literal s) (primary-text calls p s l ∙ parse_string-plain calls (from p l) s e) e

  parenthesized-parsed :
      (q l : List Token)
      → calls.expr (from p q) ≡ parsed a (from p (sym ")" ∷ l))
      → parse_parenthesized calls (from p q) ≡ parsed a (from p l)
  unfolding parse_parenthesized
  parenthesized-parsed q l e =
      bind-parsed (parse_comma_expr calls.expr) _ (from p q) (from p (sym ")" ∷ l)) a (
        bind-parsed calls.expr _ (from p q) (from p (sym ")" ∷ l)) a e
        ∙ while_on-stop (check_text ",") (λ _ l'. calls.expr >>= λ r. pure (comma l' r)) a
            (from p (sym ")" ∷ l)) (unfold check_text in refl))

  pub bracket-parsed :
      (t : Token) (q l : List Token)
      → Opens t
      → calls.expr (from p (t ∷ q)) ≡ parsed a (from p (sym ")" ∷ l))
      → Ends (from p l)
      → parse_unary calls (from p (sym "(" ∷ t ∷ q)) ≡ parsed a (from p l)
  bracket-parsed t q l o e ends =
      unary-bracket calls p t q o
      ∙ operand_of-primary calls (from p (sym "(" ∷ t ∷ q)) (from p l) a
          (primary-bracket calls p t q o ∙ parenthesized-parsed (t ∷ q) l e) ends

  pub prefix-parsed :
      (o : UnaryOp) (q l : List Token)
      → calls.unary (from p q) ≡ parsed a (from p l)
      → parse_unary calls (from p (sym (prefix_spelling o) ∷ q)) ≡ parsed (unary o a) (from p l)
  unfolding pure
  prefix-parsed o q l e =
      unary-prefix calls p o q ∙ bind-parsed calls.unary _ (from p q) (from p l) a e
