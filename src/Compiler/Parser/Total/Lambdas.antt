-- ===== src/Compiler/Parser/Total/Lambdas.antt =====
-- src/compiler/Parser.cpp: a body of a closure leaves the stacks as long as they were.
use amlp.Compiler.Parser.Progress.{Goes-pure, Follows, Goes}
use amlp.Compiler.Parser.Outputs.{raise_top, use_param}
use amlp.Compiler.Ast.{Ast}
use amlp.Base.{refl, zero, suc, arith, ◌≡◌, length, List, [], ℕ, ◌∷◌}
use amlp.Compiler.Parser.{
  out_of_fuel, parsed, thrown, tail, pure, after, Parse, Outcome, ◌>>=◌, Parser,
}
use amlp.Compiler.Parser.Parts.{in_lambda, push_bound_value, leave_lambda, push_top}

length-raise_top : (k : ℕ) (stack : List ℕ) → length (raise_top k stack) ≡ length stack
length-raise_top k [] = refl
length-raise_top k (m ∷ stack) = refl

length-push_top : (a : Ast) (stack : List (List Ast)) → length (push_top a stack) ≡ length stack
unfolding push_top
length-push_top a [] = refl
length-push_top a (l ∷ stack) = refl

abbrev entered : Parser → Parser
entered p = record p {
  lambda_param_max_stack = 0 ∷ p.lambda_param_max_stack;
  lambda_bound_values_stack = [] ∷ p.lambda_bound_values_stack;
}

length-tail : {A : Type 0} (k : ℕ) (l : List A) → length l ≡ suc k → length (tail l) ≡ k
length-tail k [] h = absurd (omega arith)
length-tail k (a ∷ l) h = omega arith

in_lambda-Follows :
    {A : Type 0} (p : Parser) (o : Outcome A)
    → Follows 0 (entered p) o
    → Follows {A = A × (ℕ × List Ast)} 0 p (after o λ a. leave_lambda >>= λ top. pure (a, top))
unfolding leave_lambda ◌>>=◌
in_lambda-Follows p out_of_fuel h = h
in_lambda-Follows p (thrown e) h = tt
in_lambda-Follows p (parsed a q) h = record {
  ahead = omega arith;
  params = length-tail _ q.lambda_param_max_stack h.params;
  bounds = length-tail _ q.lambda_bound_values_stack h.bounds;
}

module _ {n : ℕ} where
  pub Goes-use_param : (k : ℕ) → Goes n (use_param k)
  unfolding use_param pure
  Goes-use_param zero = Goes-pure _
  Goes-use_param (suc k) = record {
    at = λ p h. record {
      ahead = omega arith;
      params = length-raise_top (suc k) p.lambda_param_max_stack;
      bounds = refl;
    };
  }

  pub Goes-push_bound_value : (a : Ast) → Goes n (push_bound_value a)
  unfolding push_bound_value
  Goes-push_bound_value a = record {
    at = λ p h. record {
      ahead = omega arith;
      params = refl;
      bounds = length-push_top a p.lambda_bound_values_stack;
    };
  }

  pub Goes-in_lambda : {A : Type 0} (body : Parse A) → Goes n body → Goes n (in_lambda body)
  unfolding in_lambda
  Goes-in_lambda body hb = record {
    at = λ p h. in_lambda-Follows p (body (entered p)) (hb.at (entered p) h);
  }
