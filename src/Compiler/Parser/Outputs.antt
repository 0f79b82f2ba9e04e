-- ===== src/Compiler/Parser/Outputs.antt =====
-- src/compiler/Parser.cpp: what `parsePrimary` makes of `$N` and of the arguments that it has read.
use amlp.Base.{
  ℕ, zero, suc, Bool, true, false, ◌||◌, List, [], ◌∷◌, ◌++◌, Bytes, codes, same, if◌then◌else◌,
  ltb, ◌==◌, ◌$◌, Option, none, some, length,
}
use Prim.Native.String.{String}
use amlp.Base.Int.{ℤ, pos, negsuc, is_below_one}
use amlp.Base.Result.{Result, returned}
use amlp.Persist.{stoi}
use amlp.Compiler.Ast.{
  Ast, Asts, no_asts, asts, to_asts, null, var_ref, call, call_other, sscanf, lambda_param,
  index_expr,
}
use amlp.Compiler.Parser.{
  ParseError, Parse, Test, pure, throw, parsed, ◌>>=◌, choose, inconsistent_values, param_outside,
  param_below_one, sscanf_arguments, sscanf_spread, sscanf_range, sscanf_target,
  call_other_arguments, call_other_spread,
}
use amlp.Compiler.Parser.Parts.{lift, number_result, any, no_lambda}

abbrev pub rest_of : Bytes → Bytes
rest_of [] = []
rest_of (_ ∷ text) = text

abbrev pub max : ℕ → ℕ → ℕ
max a b = if ltb a b then b else a

abbrev pub raise_top : ℕ → List ℕ → List ℕ
raise_top n [] = []
raise_top n (m ∷ stack) = max m n ∷ stack

unfoldable pub use_param : ℕ → Parse Ast
use_param zero p = parsed (lambda_param 0 false) p
use_param (suc n) p =
    parsed (lambda_param n false)
      (record p { lambda_param_max_stack = raise_top (suc n) p.lambda_param_max_stack })

abbrev magnitude : ℤ → ℕ
magnitude (pos n) = n
magnitude (negsuc n) = 0

-- `$N`
unfoldable pub parse_param_ref : Bytes → Parse Ast
unfolding choose no_lambda throw stoi number_result use_param ◌>>=◌
parse_param_ref name =
    choose no_lambda (throw λ _. param_outside name)
    $ number_result (stoi (rest_of name)) >>= λ n.
        if is_below_one n then throw (λ _. param_below_one name) else use_param (magnitude n)

abbrev pub is_dollar : Bytes → Bool
is_dollar [] = false
is_dollar (c ∷ _) = c == b'$'

abbrev pub named : Bytes → String → Test
named name word p = same name (codes word)

-- The output arguments of `sscanf` from the `i`-th on.
unfoldable pub sscanf_outputs : ℕ → List Ast → Result ParseError (List Bytes × Asts)
sscanf_outputs i [] = returned ([], no_asts)
sscanf_outputs i (var_ref name ∷ args) = elim (sscanf_outputs (suc i) args) [
  | Result.thrown e ↦ Result.thrown e
  | returned (names, targets) ↦ returned (name ∷ names, asts null targets)
]
sscanf_outputs i (index_expr target index null from_end end_from_end column ∷ args) =
    elim (sscanf_outputs (suc i) args) [
      | Result.thrown e ↦ Result.thrown e
      | returned (names, targets) ↦
          returned
            ([] ∷ names, asts (index_expr target index null from_end end_from_end column) targets)
    ]
sscanf_outputs i (index_expr _ _ _ _ _ _ ∷ args) = Result.thrown (sscanf_range i)
sscanf_outputs i (_ ∷ args) = Result.thrown (sscanf_target i)

unfoldable pub make_sscanf : List Ast → List Bool → Parse Ast
unfolding sscanf_outputs lift throw ◌>>=◌
make_sscanf (target ∷ format ∷ args) spread =
    if any spread
    then throw (λ _. sscanf_spread)
    else (lift (sscanf_outputs 1 args) >>= λ (names, targets).
        pure (sscanf target format names targets))
make_sscanf _ spread = throw (λ _. sscanf_arguments)

-- The flags are none, or as many as the arguments.
unfoldable pub make_call_other : List Ast → List Bool → Parse Ast
unfolding throw pure
make_call_other (target ∷ function ∷ args) (a ∷ b ∷ spread) =
    if a || b
    then throw (λ _. call_other_spread)
    else pure (call_other target function (to_asts args) spread)
make_call_other (target ∷ function ∷ args) _ = pure (call_other target function (to_asts args) [])
make_call_other _ _ = throw (λ _. call_other_arguments)

unfoldable pub make_call : Bytes → List Ast → List Bool → Parse Ast
unfolding make_sscanf make_call_other pure same
make_call name args spread =
    if same name (codes "sscanf")
    then make_sscanf args spread
    else if same name (codes "call_other")
    then make_call_other args spread
    else pure (call name (to_asts args) spread false false [])

-- The width of the entries is `none` before the first one.
abbrev pub same_width : Option ℕ → ℕ → Bool
same_width none n = true
same_width (some m) n = m == n

unfoldable pub add_entry :
    List (Ast × Asts) → Option ℕ → Ast → List Ast → Parse (List (Ast × Asts) × Option ℕ)
unfolding pure throw
add_entry entries width key values =
    if same_width width (length values)
    then pure (entries ++ (key, to_asts values) ∷ [], some (length values))
    else throw (λ _. inconsistent_values)
