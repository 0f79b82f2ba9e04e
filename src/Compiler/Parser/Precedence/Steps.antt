-- ===== src/Compiler/Parser/Precedence/Steps.antt =====
-- src/compiler/Parser.cpp: a step of a parse function, by what the first part of it does.
use mathlib.Core.Path.{subst}
use amlp.Compiler.Lexer.{Token}
use amlp.Compiler.Parser.Loops.{left, while_rounds, while_on}
use amlp.Compiler.Parser.{
  choose, ◌also◌, after, step, peek, Outcome, Parser, Parse, Test, on, ◌>>=◌, out_of_fuel, parsed,
  pure, thrown,
}
use amlp.Base.{◌∙◌, Bool-cases, ◌<◌, ◌≡◌, ℕ, arith, false, inl, inr, refl, suc, true, zero}
use amlp.Compiler.Parser.Progress.{Follows-trans, step-Behind, Behind, Follows, Goes, Guards}

module _ {A B : Type 0} where
  pub bind-parsed :
      (m : Parse A) (f : A → Parse B) (p q : Parser) (a : A)
      → m p ≡ parsed a q
      → (m >>= f) p ≡ f a q
  unfolding ◌>>=◌
  bind-parsed m f p q a e = rw e

module _ {A : Type 0} where
  pub on-false :
      (t : Test) (f : Token → Parse A) (m : Parse A) (p : Parser) → t p ≡ false → on t f m p ≡ m p
  unfolding on
  on-false t f m p e = rw e

  pub on-true :
      (t : Test) (f : Token → Parse A) (m : Parse A) (p : Parser)
      → t p ≡ true
      → on t f m p ≡ f (peek p) (step p)
  unfolding on
  on-true t f m p e = rw e

  pub choose-false : (t : Test) (m k : Parse A) (p : Parser) → t p ≡ false → choose t m k p ≡ k p
  unfolding choose
  choose-false t m k p e = rw e

  -- The same, to be followed by what the other branch does.
  pub on-skip :
      (t : Test) (f : Token → Parse A) (m : Parse A) (p : Parser) {o : Outcome A}
      → t p ≡ false
      → m p ≡ o
      → on t f m p ≡ o
  on-skip t f m p e h = on-false t f m p e ∙ h

  pub choose-skip :
      (t : Test) (m k : Parse A) (p : Parser) {o : Outcome A}
      → t p ≡ false
      → k p ≡ o
      → choose t m k p ≡ o
  choose-skip t m k p e h = choose-false t m k p e ∙ h

pub also-false_left : (t u : Test) (p : Parser) → t p ≡ false → (t also u) p ≡ false
unfolding ◌also◌
also-false_left t u p e = rw e

pub also-false_right : (t u : Test) (p : Parser) → u p ≡ false → (t also u) p ≡ false
unfolding ◌also◌
also-false_right t u p e = ground arith

-- Fuel above the tokens ahead makes no difference.
module _ {A : Type 0} {n : ℕ} (t : Test) (body : Token → A → Parse A) (g : Guards t)
    (hb : (c : Token) (a : A) → Goes n (body c a)) where
  rounds_after :
      (o : Outcome A) (p : Parser) (f f' : A → Parse A)
      → Follows 1 p o
      → ((a : A) (q : Parser) → Behind 1 p q → f a q ≡ f' a q)
      → after o f ≡ after o f'
  rounds_after out_of_fuel p f f' h k = refl
  rounds_after (thrown e) p f f' h k = refl
  rounds_after (parsed a q) p f f' h k = k a q h

  while_rounds-fuel :
      (r r' : ℕ) (a : A) (p : Parser)
      → left p < r
      → left p < r'
      → left p < suc n
      → while_rounds r t body a p ≡ while_rounds r' t body a p
  unfolding while_rounds
  while_rounds-fuel zero r' a p h h' l = absurd (omega arith)
  while_rounds-fuel (suc r) zero a p h h' l = absurd (omega arith)
  while_rounds-fuel (suc r) (suc r') a p h h' l = elim (Bool-cases (t p)) [
    | inl e ↦
        let s : Behind 1 p (step p) = step-Behind p (g.at p e) in
        rw e (
          rounds_after (body (peek p) a (step p)) p _ _
            (Follows-trans 1 0 (body (peek p) a (step p)) s
              ((hb (peek p) a).at (step p) (omega arith)))
            λ b q k. while_rounds-fuel r r' b q (omega arith) (omega arith) (omega arith))
    | inr e ↦ rw e refl
  ]

  -- A round of the loop.
  pub while_on-step :
      (a b : A) (p q : Parser)
      → t p ≡ true
      → left p < suc n
      → body (peek p) a (step p) ≡ parsed b q
      → while_on t body a p ≡ while_on t body b q
  unfolding while_on while_rounds
  while_on-step a b p q e l s =
      let d : Behind 1 p (step p) = step-Behind p (g.at p e) in
      let k : Follows 0 (step p) (parsed b q) =
        subst (Follows 0 (step p)) s ((hb (peek p) a).at (step p) (omega arith)) in
      rw (e, s)
        (while_rounds-fuel (left p) (suc (left q)) b q (omega arith) (omega arith) (omega arith))

pub while_on-stop :
    {A : Type 0} (t : Test) (body : Token → A → Parse A) (a : A) (p : Parser)
    → t p ≡ false
    → while_on t body a p ≡ parsed a p
unfolding while_on while_rounds pure
while_on-stop t body a p e = rw e
