-- ===== src/Compiler/Parser/Precedence/Levels.antt =====
-- src/compiler/Parser.cpp: what the function of a level reads, from what the one below it reads.
use mathlib.Core.Path.{subst}
use amlp.Compiler.Parser.Precedence.Stops.{taken}
use amlp.Compiler.Parser.Total.Expressions.{Goes-left_assoc, Goes-parse_unary}
use amlp.Compiler.Parser.Precedence.Atoms.{from}
use amlp.Compiler.Parser.Loops.{while_on}
use amlp.Compiler.Parser.Total.Declarations.{calls_of-IsTotal}
use amlp.Compiler.Parser.Precedence.Steps.{while_on-step, bind-parsed, while_on-stop}
use amlp.Compiler.Parser.Total.Brackets.{IsTotal}
use amlp.Compiler.Parser.Declarations.{calls_of}
use amlp.Compiler.Lexer.{Token}
use amlp.Compiler.Ast.{
  Ast, BinOp, eq, neq, lt, lte, gt, gte, add, or, and, sub, mul, div, modulo, bit_and, bit_or,
  bit_xor, shl, shr, binary,
}
use amlp.Compiler.Parser.Progress.{goes, Goes, guards, Guards}
use amlp.Compiler.Parser.Expressions.{left_assoc}
use amlp.Compiler.Parser.Precedence.{
  sym, operator, spelling, stop_token, loudness, Stop, level, parse_at,
}
use amlp.Compiler.Parser.Precedence.Stops.{passes, op_at, parse_at-left, test_at}
use amlp.Compiler.Parser.{step, ◌>>=◌, Parse, Parser, parsed, pure}
use amlp.Base.{
  ap, ◌-◌, refl, append_assoc, length-append, ◌+◌, length, codes, ◌++◌, ◌∙◌, ◌≡◌, List, ◌<◌, ℕ,
  arith, suc, zero, ◌∷◌,
}

-- The function of level `k` reads the tokens `ts` as `a`, whatever looser token follows.
pub record Reads (k : ℕ) (ts : List Token) (a : Ast) : Type 0 where
  pub at :
      (n : ℕ) (p : Parser) (c : Stop) (us : List Token)
      → k < loudness c
      → length ts + length us < n
      → parse_at k (calls_of n) (from p (ts ++ stop_token c ∷ us))
        ≡ parsed a (from p (stop_token c ∷ us))

abbrev round : ℕ → ℕ → Token → Ast → Parse Ast
round j n t l = parse_at j (calls_of n) >>= λ r. pure (binary (op_at j t.text) l r)

-- The function of level `j + 1` reads `ts` as `a` and goes on from there.
pub record Leads (j : ℕ) (ts : List Token) (a : Ast) : Type 0 where
  pub at :
      (n : ℕ) (p : Parser) (c : Stop) (us : List Token)
      → j < loudness c
      → length ts + length us < n
      → parse_at (suc j) (calls_of n) (from p (ts ++ stop_token c ∷ us))
        ≡ while_on (test_at j) (round j n) a (from p (stop_token c ∷ us))

Guards-test_at : (j : ℕ) → Guards (test_at j)
unfolding test_at
Guards-test_at zero = search guards
Guards-test_at (suc zero) = search guards
Guards-test_at (suc (suc zero)) = search guards
Guards-test_at (suc (suc (suc zero))) = search guards
Guards-test_at (suc (suc (suc (suc zero)))) = search guards
Guards-test_at (suc (suc (suc (suc (suc zero))))) = search guards
Guards-test_at (suc (suc (suc (suc (suc (suc zero)))))) = search guards
Guards-test_at (suc (suc (suc (suc (suc (suc (suc zero))))))) = search guards
Guards-test_at (suc (suc (suc (suc (suc (suc (suc (suc zero)))))))) = search guards
Guards-test_at (suc (suc (suc (suc (suc (suc (suc (suc (suc j))))))))) = search guards

Goes-parse_at : (j n : ℕ) → j < 11 → Goes (suc n) (parse_at j (calls_of n))
unfolding parse_at
Goes-parse_at zero n h =
    let t : IsTotal n (calls_of n) = calls_of-IsTotal n in
    Goes-parse_unary (calls_of n) t.expr t.unary t.block
Goes-parse_at (suc j) n h = rw (parse_at-left j (calls_of n) (omega arith)) (
    Goes-left_assoc (test_at j) (op_at j) (parse_at j (calls_of n)) (Guards-test_at j)
      (Goes-parse_at j n (omega arith)))

Goes-round : (j n : ℕ) (t : Token) (l : Ast) → j < 10 → Goes (suc n) (round j n t l)
Goes-round j n t l h = let g = Goes-parse_at j n (omega arith) in search goes

pub Reads-Leads : (j : ℕ) (ts : List Token) (a : Ast) → j < 10 → Reads j ts a → Leads j ts a
unfolding left_assoc
Reads-Leads j ts a h r = record {
  at = λ n p c us k l. rw (parse_at-left j (calls_of n) h) (
      bind-parsed (parse_at j (calls_of n)) (while_on (test_at j) (round j n))
        (from p (ts ++ stop_token c ∷ us)) (from p (stop_token c ∷ us)) a (r.at n p c us k l));
}

pub Leads-Reads : (j : ℕ) (ts : List Token) (a : Ast) → j < 10 → Leads j ts a → Reads (suc j) ts a
Leads-Reads j ts a h r = record {
  at = λ n p c us k l.
      r.at n p c us (omega arith) l
      ∙ while_on-stop (test_at j) (round j n) a (from p (stop_token c ∷ us)) (passes p c us j h k);
}

op_at-own : (o : BinOp) → op_at (level o - 1) (codes (spelling o)) ≡ o
unfolding op_at
op_at-own mul = refl
op_at-own div = refl
op_at-own modulo = refl
op_at-own add = refl
op_at-own sub = refl
op_at-own shl = refl
op_at-own shr = refl
op_at-own lt = refl
op_at-own lte = refl
op_at-own gt = refl
op_at-own gte = refl
op_at-own eq = refl
op_at-own neq = refl
op_at-own bit_and = refl
op_at-own bit_xor = refl
op_at-own bit_or = refl
op_at-own and = refl
op_at-own or = refl

op_at-level : (j : ℕ) (o : BinOp) → level o ≡ suc j → op_at j (codes (spelling o)) ≡ o
op_at-level j o e =
    let k : level o - 1 ≡ j = omega arith in
    subst (λ i. op_at i (codes (spelling o)) ≡ o) k (op_at-own o)

pub Leads-infix :
    (j : ℕ) (o : BinOp) (ls rs : List Token) (al ar : Ast)
    → j < 10
    → level o ≡ suc j
    → Leads j ls al
    → Reads j rs ar
    → Leads j (ls ++ sym (spelling o) ∷ rs) (binary o al ar)
unfolding step ◌>>=◌
Leads-infix j o ls rs al ar h e hl hr = record {
  at = λ n p c us k l.
      let e1 = length-append ls (sym (spelling o) ∷ rs) in
      let e2 = length-append rs (stop_token c ∷ us) in
      rw (append_assoc ls (sym (spelling o) ∷ rs) (stop_token c ∷ us)) (
        hl.at n p (operator o) (rs ++ stop_token c ∷ us) (omega arith) (omega arith)
        ∙ while_on-step (test_at j) (round j n) (Guards-test_at j) (λ t l'. Goes-round j n t l' h)
            al (binary o al ar) (from p (sym (spelling o) ∷ (rs ++ stop_token c ∷ us)))
            (from p (stop_token c ∷ us)) (taken p (operator o) (rs ++ stop_token c ∷ us) j h e)
            (omega arith)
            (bind-parsed (parse_at j (calls_of n)) _ (from p (rs ++ stop_token c ∷ us))
                (from p (stop_token c ∷ us)) ar (hr.at n p c us k (omega arith))
              ∙ ap (λ o'. parsed (binary o' al ar) (from p (stop_token c ∷ us)))
                  (op_at-level j o e)));
}
