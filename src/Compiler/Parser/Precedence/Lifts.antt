-- ===== src/Compiler/Parser/Precedence/Lifts.antt =====
-- src/compiler/Parser.cpp: what `parseUnary` and `parseExpr` read, and the levels between them.
use amlp.Compiler.Parser.Precedence.Stops.{no_question, ends_operand-stop}
use amlp.Compiler.Parser.Precedence.Stops.{ends_operand-stop}
use mathlib.Core.Path.{subst}
use amlp.Compiler.Parser.Precedence.Steps.{on-false, bind-parsed}
use amlp.Compiler.Parser.Precedence.Atoms.{
  bracket-parsed, prefix-parsed, Ends, ends_operand-Ends, from, name-parsed, text-parsed, Opens,
}
use amlp.Compiler.Ast.{unary, ternary, string_literal, var_ref, Ast, UnaryOp}
use amlp.Compiler.Lexer.{TokenType, token, Token}
use amlp.Compiler.Parser.Outputs.{is_dollar}
use amlp.Compiler.Parser.Precedence.Levels.{Reads-Leads, Leads-Reads, Reads}
use amlp.Compiler.Parser.Declarations.{deeper, calls_of}
use amlp.Compiler.Parser.Expressions.{parse_logical_or, parse_ternary, parse_expr}
use amlp.Compiler.Parser.{Parser, parsed, check_text, ◌>>=◌, expect_text, step, pure}
use amlp.Base.{
  ltb, ◌⊎◌, append_assoc, length-append, length, ◌∙◌, Bool-cases, ◌++◌, ◌+◌, ◌<◌, ◌≡◌, ◌≤◌, Bytes,
  List, ℕ, [], arith, false, inl, inr, suc, zero, ◌∷◌,
}
use amlp.Compiler.Parser.Precedence.{
  close_bracket, colon, question, stop_token, prefix_spelling, loudness, Stop, parse_at, sym,
}

lt_cases : (a b : ℕ) → (a < b) ⊎ (b ≤ a)
lt_cases a b = elim (Bool-cases (ltb a b)) [
  | inl e ↦ inl (ground arith)
  | inr e ↦ inr (ground arith)
]

Reads-expr : (ts : List Token) (a : Ast) → Reads 10 ts a → Reads 11 ts a
unfolding parse_at parse_expr parse_ternary
Reads-expr ts a r = record {
  at = λ n p c us k l.
      bind-parsed (parse_logical_or (calls_of n)) _ (from p (ts ++ stop_token c ∷ us))
        (from p (stop_token c ∷ us)) a (r.at n p c us (omega arith) l)
      ∙ on-false (check_text "?")
          (λ _. (calls_of n).expr >>= λ b. expect_text ":" "ternary expression" >>= λ _.
            (calls_of n).expr >>= λ d. pure (ternary a b d))
          (pure a) (from p (stop_token c ∷ us)) (no_question p c us k);
}

module _ (ts : List Token) (a : Ast) where
  Reads-same : (k m : ℕ) → k ≡ m → Reads k ts a → Reads m ts a
  Reads-same k m e r = subst (λ i. Reads i ts a) e r

  Reads-next : (k : ℕ) → k < 11 → Reads k ts a → Reads (suc k) ts a
  Reads-next k h r = elim (lt_cases k 10) [
    | inl e ↦ Leads-Reads k ts a e (Reads-Leads k ts a e r)
    | inr e ↦
        Reads-same 11 (suc k) (omega arith) (Reads-expr ts a (Reads-same k 10 (omega arith) r))
  ]

  -- What a level reads, a looser one reads.
  pub Reads-lift : (k m : ℕ) → k ≤ m → m ≤ 11 → Reads k ts a → Reads m ts a
  Reads-lift k zero h l r = Reads-same k 0 (omega arith) r
  Reads-lift k (suc m) h l r = elim (lt_cases m k) [
    | inl e ↦ Reads-same k (suc m) (omega arith) r
    | inr e ↦ Reads-next m (omega arith) (Reads-lift k m (omega arith) (omega arith) r)
  ]

conditional-parsed :
    (ts us vs ws : List Token) (a b c : Ast) (n : ℕ) (p : Parser) (s : Stop)
    → Reads 10 ts a
    → Reads 11 us b
    → Reads 11 vs c
    → 11 < loudness s
    → length (ts ++ sym "?" ∷ (us ++ sym ":" ∷ vs)) + length ws < n
    → parse_at 11
        (calls_of n)
        (from p ((ts ++ sym "?" ∷ (us ++ sym ":" ∷ vs)) ++ stop_token s ∷ ws))
      ≡ parsed (ternary a b c) (from p (stop_token s ∷ ws))
unfolding parse_at parse_expr parse_ternary calls_of deeper step expect_text pure ◌>>=◌
conditional-parsed ts us vs ws a b c zero p s ht hu hv k l = absurd (omega arith)
conditional-parsed ts us vs ws a b c (suc n) p s ht hu hv k l =
    let rest : List Token = stop_token s ∷ ws in
    let others : List Token = vs ++ rest in
    let e1 = length-append ts (sym "?" ∷ (us ++ sym ":" ∷ vs)) in
    let e2 = length-append us (sym ":" ∷ vs) in
    let e3 = length-append us (sym ":" ∷ others) in
    let e4 = length-append vs rest in
    rw (append_assoc ts (sym "?" ∷ (us ++ sym ":" ∷ vs)) rest, append_assoc us (sym ":" ∷ vs) rest)
      (bind-parsed (parse_logical_or (calls_of (suc n))) _
          (from p (ts ++ sym "?" ∷ (us ++ sym ":" ∷ others)))
          (from p (sym "?" ∷ (us ++ sym ":" ∷ others))) a
          (ht.at (suc n) p question (us ++ sym ":" ∷ others) (omega arith) (omega arith))
        ∙ bind-parsed (parse_expr (calls_of n)) _ (from p (us ++ sym ":" ∷ others))
            (from p (sym ":" ∷ others)) b (hu.at n p colon others (omega arith) (omega arith))
        ∙ bind-parsed (parse_expr (calls_of n)) _ (from p others) (from p rest) c
            (hv.at n p s ws k (omega arith)))

pub Reads-conditional :
    (ts us vs : List Token) (a b c : Ast)
    → Reads 10 ts a
    → Reads 11 us b
    → Reads 11 vs c
    → Reads 11 (ts ++ sym "?" ∷ (us ++ sym ":" ∷ vs)) (ternary a b c)
Reads-conditional ts us vs a b c ht hu hv = record {
  at = λ n p s ws k l. conditional-parsed ts us vs ws a b c n p s ht hu hv k l;
}

module _ (a : Ast) (p : Parser) (c : Stop) (us : List Token) where
  ends : Ends (from p (stop_token c ∷ us))
  ends = ends_operand-Ends (from p (stop_token c ∷ us)) (ends_operand-stop p c us)

  bracket-read :
      (n : ℕ) (t : Token) (ts rest : List Token)
      → Opens t
      → parse_at 11 (calls_of n) (from p (t ∷ ts)) ≡ parsed a (from p (sym ")" ∷ rest))
      → Ends (from p rest)
      → parse_at 0 (calls_of (suc n)) (from p (sym "(" ∷ t ∷ ts)) ≡ parsed a (from p rest)
  unfolding parse_at calls_of deeper
  bracket-read n t ts rest o e h = bracket-parsed (calls_of (suc n)) p a t ts rest o e h

  brackets-parsed :
      (n : ℕ) (t : Token) (ts : List Token)
      → Opens t
      → Reads 11 (t ∷ ts) a
      → length (sym "(" ∷ t ∷ (ts ++ sym ")" ∷ [])) + length us < n
      → parse_at 0 (calls_of n) (from p ((sym "(" ∷ t ∷ (ts ++ sym ")" ∷ [])) ++ stop_token c ∷ us))
        ≡ parsed a (from p (stop_token c ∷ us))
  brackets-parsed zero t ts o r l = absurd (omega arith)
  brackets-parsed (suc n) t ts o r l =
      let rest : List Token = stop_token c ∷ us in
      let e = length-append ts (sym ")" ∷ []) in
      rw (append_assoc ts (sym ")" ∷ []) rest) (
        bracket-read n t (ts ++ sym ")" ∷ rest) rest o
          (r.at n p close_bracket rest (omega arith) (omega arith)) ends)

  prefix-read :
      (n : ℕ) (o : UnaryOp) (ts : List Token)
      → Reads 0 ts a
      → 0 < loudness c
      → length (sym (prefix_spelling o) ∷ ts) + length us < n
      → parse_at 0 (calls_of n) (from p (sym (prefix_spelling o) ∷ (ts ++ stop_token c ∷ us)))
        ≡ parsed (unary o a) (from p (stop_token c ∷ us))
  unfolding parse_at calls_of deeper
  prefix-read zero o ts r k l = absurd (omega arith)
  prefix-read (suc n) o ts r k l =
      prefix-parsed (calls_of (suc n)) p a o (ts ++ stop_token c ∷ us) (stop_token c ∷ us)
        (r.at n p c us k (omega arith))

pub Reads-brackets :
    (t : Token) (ts : List Token) (a : Ast)
    → Opens t
    → Reads 11 (t ∷ ts) a
    → Reads 0 (sym "(" ∷ t ∷ (ts ++ sym ")" ∷ [])) a
Reads-brackets t ts a o r = record { at = λ n p c us k l. brackets-parsed a p c us n t ts o r l }

pub Reads-prefix :
    (o : UnaryOp) (ts : List Token) (a : Ast)
    → Reads 0 ts a
    → Reads 0 (sym (prefix_spelling o) ∷ ts) (unary o a)
Reads-prefix o ts a r = record { at = λ n p c us k l. prefix-read a p c us n o ts r k l }

pub Reads-name :
    (x : Bytes) → is_dollar x ≡ false → Reads 0 (token TokenType.ident x 1 ∷ []) (var_ref x)
unfolding parse_at
Reads-name x h = record {
  at = λ n p c us k l.
      name-parsed (calls_of n) p (var_ref x) x (stop_token c ∷ us) h (ends (var_ref []) p c us);
}

pub Reads-text : (s : Bytes) → Reads 0 (token TokenType.string s 1 ∷ []) (string_literal s)
unfolding parse_at
Reads-text s = record {
  at = λ n p c us k l.
      text-parsed (calls_of n) p (string_literal s) s (stop_token c ∷ us)
        (ends (var_ref []) p c us);
}
