-- ===== src/Compiler/Parser/Progress.antt =====
-- src/compiler/Parser.cpp: what its functions leave behind, a rule for each way to build one.
use amlp.Base.{
  ℕ, suc, ◌+◌, ◌<◌, ◌≤◌, ◌≡◌, inl, inr, refl, true, false, List, [], ◌∷◌, length, arith, Bytes,
}
use Prim.Native.String.{String}
use amlp.Base.Tests.{Bool-cases}
use amlp.Compiler.Lexer.{Token, TokenType}
use amlp.Compiler.Parser.{
  tail, Parser, ParseError, Outcome, Parse, Test, out_of_fuel, thrown, parsed, pure, throw, after,
  ◌>>=◌, on, choose, step, advance, at_end, none_ahead, check, check_text, expect, expect_text,
  ◌also◌, ◌either◌, peek,
}
use amlp.Compiler.Parser.Loops.{left}

-- `q` is `d` tokens at least behind `p`, and as many bodies of closures are open.
pub record Behind (d : ℕ) (p q : Parser) : Type 0 where
  pub ahead : d + left q ≤ left p
  pub params : length q.lambda_param_max_stack ≡ length p.lambda_param_max_stack
  pub bounds : length q.lambda_bound_values_stack ≡ length p.lambda_bound_values_stack

abbrev pub Follows : {A : Type 0} → ℕ → Parser → Outcome A → Type 0
Follows d p out_of_fuel = ⊥
Follows d p (thrown e) = Unit
Follows d p (parsed a q) = Behind d p q

-- With fewer than `n` tokens ahead, `m` does not run out of fuel.
pub record Goes {A : Type 0} (n : ℕ) (m : Parse A) : Type 0 where
  pub at : (p : Parser) → left p < n → Follows 0 p (m p)

-- If it returns, it has taken a token.
pub record Eats {A : Type 0} (n : ℕ) (m : Parse A) : Type 0 where
  pub at : (p : Parser) → left p < n → Follows 1 p (m p)

-- A condition that does not hold at the end.
pub record Guards (t : Test) : Type 0 where
  pub at : (p : Parser) → t p ≡ true → at_end p ≡ false

pub Behind-trans : (d d' : ℕ) {p q r : Parser} → Behind d p q → Behind d' q r → Behind (d + d') p r
Behind-trans d d' h k = omega arith

pub Behind-none : (p : Parser) → Behind 0 p p
Behind-none p = omega arith

length-tail : (l : List Token) → none_ahead l ≡ false → 1 + length (tail l) ≡ length l
unfolding none_ahead
length-tail [] h = cc
length-tail (t ∷ l) h = omega arith

step-at_end : (p : Parser) → at_end p ≡ true → step p ≡ p
unfolding step at_end
step-at_end p h = rw h

pub step-Behind : (p : Parser) → at_end p ≡ false → Behind 1 p (step p)
unfolding step at_end
step-Behind p h =
    let e : 1 + length (tail p.ahead) ≡ length p.ahead = length-tail p.ahead h in
    rw h (record { ahead = omega arith; params = refl; bounds = refl })

pub Follows-trans :
    {A : Type 0} (d d' : ℕ) {p q : Parser} (o : Outcome A)
    → Behind d p q
    → Follows d' q o
    → Follows (d + d') p o
Follows-trans d d' out_of_fuel h k = k
Follows-trans d d' (thrown e) h k = tt
Follows-trans d d' (parsed a r) h k = Behind-trans d d' h k

pub Follows-after :
    {A B : Type 0} (d d' : ℕ) {p : Parser} (o : Outcome A) (f : A → Parse B)
    → Follows d p o
    → ((a : A) (q : Parser) → Behind d p q → Follows d' q (f a q))
    → Follows (d + d') p (after o f)
Follows-after d d' out_of_fuel f h k = h
Follows-after d d' (thrown e) f h k = tt
Follows-after d d' (parsed a q) f h k = Follows-trans d d' (f a q) h (k a q h)

pub Follows-weaken : {A : Type 0} (p : Parser) (o : Outcome A) → Follows 1 p o → Follows 0 p o
Follows-weaken p out_of_fuel h = h
Follows-weaken p (thrown e) h = tt
Follows-weaken p (parsed a q) h = omega arith

module _ {A : Type 0} {n : ℕ} where
  pub Goes-pure : (a : A) → Goes n (pure a)
  unfolding pure
  Goes-pure a = record { at = λ p h. Behind-none p }

  pub Goes-throw : (e : Parser → ParseError) → Goes n (throw {A = A} e)
  unfolding throw
  Goes-throw e = record { at = λ p h. tt }

  pub Eats-throw : (e : Parser → ParseError) → Eats n (throw {A = A} e)
  unfolding throw
  Eats-throw e = record { at = λ p h. tt }

  pub Goes-choose : (t : Test) (m k : Parse A) → Goes n m → Goes n k → Goes n (choose t m k)
  unfolding choose
  Goes-choose t m k hm hk = record {
    at = λ p h. elim (Bool-cases (t p)) [ inl e ↦ rw e (hm.at p h) | inr e ↦ rw e (hk.at p h) ];
  }

  pub Eats-choose : (t : Test) (m k : Parse A) → Eats n m → Eats n k → Eats n (choose t m k)
  unfolding choose
  Eats-choose t m k hm hk = record {
    at = λ p h. elim (Bool-cases (t p)) [ inl e ↦ rw e (hm.at p h) | inr e ↦ rw e (hk.at p h) ];
  }

  pub Eats-Goes : (m : Parse A) → Eats n m → Goes n m
  Eats-Goes m h = record { at = λ p l. Follows-weaken p (m p) (h.at p l) }

  pub Goes-earlier : (m : Parse A) → Goes (suc n) m → Goes n m
  Goes-earlier m h = record { at = λ p l. h.at p (omega arith) }

  pub Eats-earlier : (m : Parse A) → Eats (suc n) m → Eats n m
  Eats-earlier m h = record { at = λ p l. h.at p (omega arith) }

  pub Follows-step :
      (t : Test) (f : Token → Parse A) (p : Parser)
      → Guards t
      → t p ≡ true
      → ((a : Token) → Goes n (f a))
      → left p < suc n
      → Follows 1 p (f (peek p) (step p))
  Follows-step t f p g e hf h =
      let b : Behind 1 p (step p) = step-Behind p (g.at p e) in
      Follows-trans 1 0 (f (peek p) (step p)) b ((hf (peek p)).at (step p) (omega arith))

  module _ (t : Test) (f : Token → Parse A) (m : Parse A) (g : Guards t)
      (hf : (a : Token) → Goes n (f a)) where
    pub Goes-on : Goes (suc n) m → Goes (suc n) (on t f m)
    unfolding on
    Goes-on hm = record {
      at = λ p h. elim (Bool-cases (t p)) [
        | inl e ↦ rw e (Follows-weaken p (f (peek p) (step p)) (Follows-step t f p g e hf h))
        | inr e ↦ rw e (hm.at p h)
      ];
    }

    pub Goes-on_same : Goes n m → Goes n (on t f m)
    unfolding on
    Goes-on_same hm = record {
      at = λ p h. elim (Bool-cases (t p)) [
        | inl e ↦
            rw e (Follows-weaken p (f (peek p) (step p)) (Follows-step t f p g e hf (omega arith)))
        | inr e ↦ rw e (hm.at p h)
      ];
    }

    pub Eats-on_same : Eats n m → Eats n (on t f m)
    unfolding on
    Eats-on_same hm = record {
      at = λ p h. elim (Bool-cases (t p)) [
        | inl e ↦ rw e (Follows-step t f p g e hf (omega arith))
        | inr e ↦ rw e (hm.at p h)
      ];
    }

    pub Eats-on : Eats (suc n) m → Eats (suc n) (on t f m)
    unfolding on
    Eats-on hm = record {
      at = λ p h. elim (Bool-cases (t p)) [
        | inl e ↦ rw e (Follows-step t f p g e hf h)
        | inr e ↦ rw e (hm.at p h)
      ];
    }

module _ {A B : Type 0} {n : ℕ} (m : Parse A) (f : A → Parse B) where
  pub Goes-bind : Goes n m → ((a : A) → Goes n (f a)) → Goes n (m >>= f)
  unfolding ◌>>=◌
  Goes-bind hm hf = record {
    at = λ p h. Follows-after 0 0 (m p) f (hm.at p h) λ a q b. (hf a).at q (omega arith);
  }

  pub Eats-bind_left : Eats n m → ((a : A) → Goes n (f a)) → Eats n (m >>= f)
  unfolding ◌>>=◌
  Eats-bind_left hm hf = record {
    at = λ p h. Follows-after 1 0 (m p) f (hm.at p h) λ a q b. (hf a).at q (omega arith);
  }

  pub Eats-bind_right : Goes n m → ((a : A) → Eats n (f a)) → Eats n (m >>= f)
  unfolding ◌>>=◌
  Eats-bind_right hm hf = record {
    at = λ p h. Follows-after 0 1 (m p) f (hm.at p h) λ a q b. (hf a).at q (omega arith);
  }

  pub Goes-bind_step : Eats (suc n) m → ((a : A) → Goes n (f a)) → Goes (suc n) (m >>= f)
  unfolding ◌>>=◌
  Goes-bind_step hm hf = record {
    at = λ p h.
        Follows-weaken p (after (m p) f)
          (Follows-after 1 0 (m p) f (hm.at p h) λ a q b. (hf a).at q (omega arith));
  }

  pub Eats-bind_step : Eats (suc n) m → ((a : A) → Goes n (f a)) → Eats (suc n) (m >>= f)
  unfolding ◌>>=◌
  Eats-bind_step hm hf = record {
    at = λ p h. Follows-after 1 0 (m p) f (hm.at p h) λ a q b. (hf a).at q (omega arith);
  }

pub Guards-check : (type : TokenType) → Guards (check type)
unfolding check
Guards-check type = record { at = λ p h. ground arith }

pub Guards-check_text : (text : String) → Guards (check_text text)
unfolding check_text
Guards-check_text text = record { at = λ p h. ground arith }

pub Guards-also_left : (t u : Test) → Guards t → Guards (t also u)
unfolding ◌also◌
Guards-also_left t u g = record { at = λ p h. ground (arith, g.at p) }

pub Guards-also_right : (t u : Test) → Guards u → Guards (t also u)
unfolding ◌also◌
Guards-also_right t u g = record { at = λ p h. ground (arith, g.at p) }

pub Guards-either : (t u : Test) → Guards t → Guards u → Guards (t either u)
unfolding ◌either◌
Guards-either t u g k = record { at = λ p h. ground (arith, g.at p, k.at p) }

pub ruleset guards =
    (Guards-check, Guards-check_text, Guards-also_left, Guards-also_right, Guards-either)

pub Goes-advance : {n : ℕ} → Goes n advance
unfolding advance
Goes-advance = record {
  at = λ p h. elim (Bool-cases (at_end p)) [
    | inl e ↦ rw (step-at_end p e) (Behind-none p)
    | inr e ↦ Follows-weaken p (advance p) (step-Behind p e)
  ];
}

pub Eats-expect : {n : ℕ} (type : TokenType) (context : Bytes) → Eats n (expect type context)
unfolding expect
Eats-expect {n} type context =
    Eats-earlier _ (Eats-on (check type) pure _ (Guards-check type) Goes-pure (Eats-throw _))

pub Eats-expect_text : {n : ℕ} (text context : String) → Eats n (expect_text text context)
unfolding expect_text
Eats-expect_text {n} text context =
    Eats-earlier _
      (Eats-on (check_text text) pure _ (Guards-check_text text) Goes-pure (Eats-throw _))

pub Goes-expect : {n : ℕ} (type : TokenType) (context : Bytes) → Goes n (expect type context)
Goes-expect type context = Eats-Goes _ (Eats-expect type context)

pub Goes-expect_text : {n : ℕ} (text context : String) → Goes n (expect_text text context)
Goes-expect_text text context = Eats-Goes _ (Eats-expect_text text context)

-- At one number of tokens.
pub ruleset goes = (
  Goes-pure, Goes-throw, Goes-choose, Goes-on_same, Goes-bind, Goes-expect, Goes-expect_text,
  Goes-advance, guards,
)
