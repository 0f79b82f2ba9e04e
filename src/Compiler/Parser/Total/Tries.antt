-- ===== src/Compiler/Parser/Total/Tries.antt =====
-- src/compiler/Parser.cpp: what `parseStatement` tries at an indexed assignment.
use amlp.Compiler.Lexer.{Token}
use amlp.Compiler.Parser.Loops.{left}
use amlp.Compiler.Parser.Expressions.{backtrack}
use amlp.Base.{Bool-cases, ◌<◌, Option, ℕ, arith, inl, inr, none, some}
use amlp.Compiler.Parser.{
  step, peek, Test, after, Outcome, Parse, choose, on, Parser, ◌>>=◌, out_of_fuel, parsed, pure,
  thrown,
}
use amlp.Compiler.Parser.Progress.{
  Follows-step, Follows-trans, Behind-none, Behind-trans, Goes, Eats, Guards, Behind, Follows,
}

-- A result is behind the first token; without one, nothing is said of the tokens taken.
abbrev Tried : {A : Type 0} → Parser → Outcome (Option A) → Type 0
Tried p out_of_fuel = ⊥
Tried p (thrown e) = Unit
Tried p (parsed none q) = Behind 0 p q
Tried p (parsed (some a) q) = Behind 1 p q

pub record Tries {A : Type 0} (n : ℕ) (m : Parse (Option A)) : Type 0 where
  pub at : (p : Parser) → left p < n → Tried p (m p)

Tried-later :
    {A : Type 0} {p q : Parser} (o : Outcome (Option A)) → Behind 0 p q → Tried q o → Tried p o
Tried-later out_of_fuel h k = k
Tried-later (thrown e) h k = tt
Tried-later (parsed none r) h k = Behind-trans 0 0 h k
Tried-later (parsed (some a) r) h k = Behind-trans 0 1 h k

Tried-after :
    {A B : Type 0} {p : Parser} (o : Outcome A) (f : A → Parse (Option B))
    → Follows 0 p o
    → ((a : A) (q : Parser) → Behind 0 p q → Tried q (f a q))
    → Tried p (after o f)
Tried-after out_of_fuel f h k = h
Tried-after (thrown e) f h k = tt
Tried-after (parsed a q) f h k = Tried-later (f a q) h (k a q h)

Tried-Follows : {A : Type 0} (p : Parser) (o : Outcome (Option A)) → Follows 1 p o → Tried p o
Tried-Follows p out_of_fuel h = h
Tried-Follows p (thrown e) h = tt
Tried-Follows p (parsed none q) h = omega arith
Tried-Follows p (parsed (some a) q) h = h

module _ {A : Type 0} {n : ℕ} where
  pub Tries-none : Tries n (pure {A = Option A} none)
  unfolding pure
  Tries-none = record { at = λ p h. Behind-none p }

  pub Tries-choose :
      (t : Test) (m k : Parse (Option A)) → Tries n m → Tries n k → Tries n (choose t m k)
  unfolding choose
  Tries-choose t m k hm hk = record {
    at = λ p h. elim (Bool-cases (t p)) [ inl e ↦ rw e (hm.at p h) | inr e ↦ rw e (hk.at p h) ];
  }

  pub Tries-on :
      (t : Test) (f : Token → Parse (Option A))
      → Guards t
      → ((c : Token) → Goes n (f c))
      → Tries n (on t f (pure none))
  unfolding on pure
  Tries-on t f g hf = record {
    at = λ p h. elim (Bool-cases (t p)) [
      | inl e ↦
          rw e (Tried-Follows p (f (peek p) (step p)) (Follows-step t f p g e hf (omega arith)))
      | inr e ↦ rw e (Behind-none p)
    ];
  }

  tried-Follows :
      (other : Parse A) (p : Parser) (o : Outcome (Option A))
      → Eats n other
      → left p < n
      → Tried p o
      → Follows 1 p (backtrack (λ _. o) other p)
  unfolding backtrack
  tried-Follows other p out_of_fuel ho l h = h
  tried-Follows other p (thrown e) ho l h = tt
  tried-Follows other p (parsed none q) ho l h =
      Follows-trans 0 1 _ (record { ahead = omega arith; params = h.params; bounds = h.bounds })
        (ho.at (record q { ahead = p.ahead }) l)
  tried-Follows other p (parsed (some a) q) ho l h = h

  pub Eats-backtrack :
      (m : Parse (Option A)) (other : Parse A)
      → Tries n m
      → Eats n other
      → Eats n (backtrack m other)
  unfolding backtrack
  Eats-backtrack m other hm ho = record { at = λ p l. tried-Follows other p (m p) ho l (hm.at p l) }

pub Tries-bind :
    {A B : Type 0} {n : ℕ} (m : Parse A) (f : A → Parse (Option B))
    → Goes n m
    → ((a : A) → Tries n (f a))
    → Tries n (m >>= f)
unfolding ◌>>=◌
Tries-bind m f hm hf = record {
  at = λ p h. Tried-after (m p) f (hm.at p h) λ a q b. (hf a).at q (omega arith);
}
