-- ===== src/Compiler/Parser/Precedence/Reading.antt =====
-- src/compiler/Parser.cpp: `parseExpr` reads what is written with the fewest brackets.
use amlp.Compiler.Parser.Declarations.{calls_of}
use amlp.Compiler.Parser.Expressions.{parse_expr}
use mathlib.Core.Path.{subst}
use amlp.Compiler.Ast.{
  Ast, BinOp, UnaryOp, eq, neq, lt, lte, gt, gte, add, or, and, sub, mul, div, modulo, bit_and,
  bit_or, bit_xor, shl, shr, not, neg, bit_not, binary, ternary,
}
use amlp.Compiler.Parser.Precedence.Lifts.{
  Reads-conditional, Reads-prefix, Reads-text, Reads-name, Reads-brackets, Reads-lift,
}
use amlp.Compiler.Parser.Precedence.Levels.{Leads-Reads, Leads-infix, Reads-Leads, Leads, Reads}
use amlp.Compiler.Parser.{Parser, parsed, is_type}
use amlp.Compiler.Ast.{Ast}
use amlp.Compiler.Lexer.{TokenType, Token, token}
use amlp.Compiler.Parser.Types.{one_of}
use amlp.Compiler.Parser.Precedence.Atoms.{from, Opens}
use amlp.Base.{
  ◌+◌, length, ◌==◌, ◌-◌, ◌<◌, suc, Bool-cases, leb, ◌≡◌, ◌≤◌, ◌++◌, Bool, List, ℕ, [], arith,
  false, inl, inr, refl, true, ◌∷◌,
}
use amlp.Compiler.Parser.Precedence.{
  Expr, name, text, prefix, infix_op, conditional, sym, tree, level, spelling, prefix_spelling,
  bracketed, render, misread, IsPlain, Stop, stop_token, loudness, parse_at,
}

-- The first token is one that `Opens` holds of.
abbrev Starts : List Token → Type 0
Starts [] = ⊥
Starts (t ∷ ts) = Opens t

Starts-append : (ts us : List Token) → Starts ts → Starts (ts ++ us)
Starts-append [] us h = absurd h
Starts-append (t ∷ ts) us h = h

Opens-plain :
    (t : Token) → is_type t.type TokenType.keyword ≡ false → one_of misread t.text ≡ false → Opens t
unfolding one_of
Opens-plain t k h = record {
  keyword = k;
  square = ground arith;
  colon = ground arith;
  star = ground arith;
  brace = ground arith;
  class = ground arith;
}

Opens-prefix : (o : UnaryOp) → Opens (sym (prefix_spelling o))
unfolding one_of is_type
Opens-prefix not = Opens-plain (sym "!") refl refl
Opens-prefix neg = Opens-plain (sym "-") refl refl
Opens-prefix bit_not = Opens-plain (sym "~") refl refl

Starts-bracketed : (b : Bool) (ts : List Token) → Starts ts → Starts (bracketed b ts)
unfolding one_of is_type
Starts-bracketed true ts h = h
Starts-bracketed false ts h = Opens-plain (sym "(") refl refl

render-Starts : (k : ℕ) (e : Expr) → IsPlain e → Starts (render k e)
unfolding render is_type
render-Starts k (name x) h = Opens-plain (token TokenType.ident x 1) refl h.1
render-Starts k (text s) h = Opens-plain (token TokenType.string s 1) refl h
render-Starts k (prefix o e) h = Opens-prefix o
render-Starts k (infix_op o l r) h =
    Starts-bracketed (leb (level o) k) _
      (Starts-append (render (level o) l) _ (render-Starts (level o) l h.0))
render-Starts k (conditional c a b) h =
    Starts-bracketed (leb 11 k) _ (Starts-append (render 10 c) _ (render-Starts 10 c h.0))

Reads-in_brackets :
    (ts : List Token) (a : Ast) → Starts ts → Reads 11 ts a → Reads 0 (bracketed false ts) a
Reads-in_brackets [] a s r = absurd s
Reads-in_brackets (t ∷ ts) a s r = Reads-brackets t ts a s r

module _ (ts : List Token) (a : Ast) (s : Starts ts) where
  Reads-bracketed : (m k : ℕ) → m ≤ 11 → k ≤ 11 → Reads m ts a → Reads k (bracketed (leb m k) ts) a
  Reads-bracketed m k h l r = elim (Bool-cases (leb m k)) [
    | inl e ↦ rw e (Reads-lift ts a m k (ground arith) l r)
    | inr e ↦ rw e (
        Reads-lift _ a 0 k (omega arith) l
          (Reads-in_brackets ts a s (Reads-lift ts a m 11 h (omega arith) r)))
  ]

  -- The spine of a level: its own operator bare, and all else as one operand.
  Leads-bracketed :
      (m j : ℕ)
      → m ≤ 11
      → j < 10
      → Reads m ts a
      → (m ≡ suc j → Leads j ts a)
      → Leads j (bracketed (leb m (suc j)) ts) a
  Leads-bracketed m j h l r q = elim (Bool-cases (m == suc j)) [
    | inl e ↦ let own : leb m (suc j) ≡ true = ground arith in rw own (q (ground arith))
    | inr e ↦
        let below : leb m (suc j) ≡ leb m j = ground arith in
        rw below (Reads-Leads j _ a l (Reads-bracketed m j h (omega arith) r))
  ]

-- What is written for each level is read at it, and leads on from the one below.
record Good (f : ℕ → List Token) (a : Ast) : Type 0 where
  reads : (k : ℕ) → k ≤ 11 → Reads k (f k) a
  leads : (j : ℕ) → j < 10 → Leads j (f (suc j)) a

Good-bare : (ts : List Token) (a : Ast) → Reads 0 ts a → Good (λ k. ts) a
Good-bare ts a r = record {
  reads = λ k h. Reads-lift ts a 0 k (omega arith) h r;
  leads = λ j h. Reads-Leads j ts a h (Reads-lift ts a 0 j (omega arith) (omega arith) r);
}

Good-bracketed :
    (ts : List Token) (a : Ast)
    → Starts ts
    → (m : ℕ) → m ≤ 11
    → Reads m ts a
    → ((j : ℕ) → m ≡ suc j → j < 10 → Leads j ts a)
    → Good (λ k. bracketed (leb m k) ts) a
Good-bracketed ts a s m h r q = record {
  reads = λ k l. Reads-bracketed ts a s m k h l r;
  leads = λ j l. Leads-bracketed ts a s m j h l r λ e. q j e l;
}

level-pred : (o : BinOp) → suc (level o - 1) ≡ level o
level-pred mul = omega arith
level-pred div = omega arith
level-pred modulo = omega arith
level-pred add = omega arith
level-pred sub = omega arith
level-pred shl = omega arith
level-pred shr = omega arith
level-pred lt = omega arith
level-pred lte = omega arith
level-pred gt = omega arith
level-pred gte = omega arith
level-pred eq = omega arith
level-pred neq = omega arith
level-pred bit_and = omega arith
level-pred bit_xor = omega arith
level-pred bit_or = omega arith
level-pred and = omega arith
level-pred or = omega arith

below_ten : (o : BinOp) → level o - 1 < 10
below_ten mul = omega arith
below_ten div = omega arith
below_ten modulo = omega arith
below_ten add = omega arith
below_ten sub = omega arith
below_ten shl = omega arith
below_ten shr = omega arith
below_ten lt = omega arith
below_ten lte = omega arith
below_ten gt = omega arith
below_ten gte = omega arith
below_ten eq = omega arith
below_ten neq = omega arith
below_ten bit_and = omega arith
below_ten bit_xor = omega arith
below_ten bit_or = omega arith
below_ten and = omega arith
below_ten or = omega arith

level_bound : (o : BinOp) → level o ≤ 11
level_bound o = omega (arith, level-pred o, below_ten o)

pred_bound : (o : BinOp) → level o - 1 ≤ 11
pred_bound o = omega (arith, below_ten o)

module _ (o : BinOp) (ls rs : List Token) (al ar : Ast) (hl : Leads (level o - 1) ls al)
    (hr : Reads (level o - 1) rs ar) where
  infix-Leads : Leads (level o - 1) (ls ++ sym (spelling o) ∷ rs) (binary o al ar)
  infix-Leads =
      Leads-infix (level o - 1) o ls rs al ar (below_ten o) (omega (arith, level-pred o)) hl hr

  infix-Reads : Reads (level o) (ls ++ sym (spelling o) ∷ rs) (binary o al ar)
  infix-Reads =
      subst (λ i. Reads i (ls ++ sym (spelling o) ∷ rs) (binary o al ar)) (level-pred o)
        (Leads-Reads (level o - 1) _ _ (below_ten o) infix-Leads)

  infix-Leads_at :
      (j : ℕ) → level o ≡ suc j → Leads j (ls ++ sym (spelling o) ∷ rs) (binary o al ar)
  infix-Leads_at j e =
      let q : level o - 1 ≡ j = omega arith in
      subst (λ i. Leads i (ls ++ sym (spelling o) ∷ rs) (binary o al ar)) q infix-Leads

render-Good : (e : Expr) → IsPlain e → Good (λ k. render k e) (tree e)
unfolding render tree
render-Good (name x) h = Good-bare _ _ (Reads-name x h.0)
render-Good (text s) h = Good-bare _ _ (Reads-text s)
render-Good (prefix o e) h =
    Good-bare _ _ (Reads-prefix o (render 0 e) (tree e) ((render-Good e h).reads 0 (omega arith)))
render-Good (infix_op o l r) h =
    let gl = (render-Good l h.0).leads (level o - 1) (below_ten o) in
    let hl : Leads (level o - 1) (render (level o) l) (tree l) =
      subst (λ i. Leads (level o - 1) (render i l) (tree l)) (level-pred o) gl in
    let hr = (render-Good r h.1).reads (level o - 1) (pred_bound o) in
    Good-bracketed (render (level o) l ++ sym (spelling o) ∷ render (level o - 1) r)
      (binary o (tree l) (tree r))
      (Starts-append (render (level o) l) _ (render-Starts (level o) l h.0)) (level o)
      (level_bound o)
      (infix-Reads o (render (level o) l) (render (level o - 1) r) (tree l) (tree r) hl hr)
      λ j e q.
        infix-Leads_at o (render (level o) l) (render (level o - 1) r) (tree l) (tree r) hl hr j e
render-Good (conditional c a b) h =
    Good-bracketed (render 10 c ++ sym "?" ∷ (render 11 a ++ sym ":" ∷ render 11 b))
      (ternary (tree c) (tree a) (tree b)) (Starts-append (render 10 c) _ (render-Starts 10 c h.0))
      11 (omega arith)
      (Reads-conditional (render 10 c) (render 11 a) (render 11 b) (tree c) (tree a) (tree b)
        ((render-Good c h.0).reads 10 (omega arith)) ((render-Good a h.1.0).reads 11 (omega arith))
        ((render-Good b h.1.1).reads 11 (omega arith)))
      λ j e l. absurd (omega arith)

-- An expression of names, string literals and operators, written as tokens with the fewest brackets
-- that the precedence and the associativity of its operators ask for, is read back by `parseExpr` as
-- its own tree. The names are no `$N`, and no name or literal is a text that is taken for a symbol
-- or for `class` behind a bracket. A colon, a closing bracket, a semicolon or the end of the file follows, and the
-- fuel is more than the tokens.
pub parse_expr-render :
    (e : Expr) (n : ℕ) (p : Parser) (c : Stop) (us : List Token)
    → IsPlain e
    → 11 < loudness c
    → length (render 11 e) + length us < n
    → parse_expr (calls_of n) (from p (render 11 e ++ stop_token c ∷ us))
      ≡ parsed (tree e) (from p (stop_token c ∷ us))
unfolding parse_at
parse_expr-render e n p c us h k l = ((render-Good e h).reads 11 (omega arith)).at n p c us k l
