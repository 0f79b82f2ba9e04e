-- ===== src/Compiler/Parser/Rounds.antt =====
-- src/compiler/Parser.cpp: what the loops leave behind.
use amlp.Base.{ℕ, zero, suc, ◌<◌, inl, inr, List, [], arith}
use Prim.Native.String.{String}
use amlp.Base.Tests.{Bool-cases}
use amlp.Compiler.Lexer.{Token}
use amlp.Compiler.Parser.{Parser, ParseError, Parse, Test, after, step, at_end, check_text, peek}
use amlp.Compiler.Parser.Loops.{
  left, while_rounds, while_on, comma_rounds, comma_loop, comma_list, push, until_rounds, until,
}
use amlp.Compiler.Parser.Progress.{
  Behind, Follows, Goes, Eats, Guards, Behind-none, step-Behind, Follows-trans, Follows-after,
  Follows-weaken, Goes-bind, Goes-pure, Guards-check_text,
}

-- The loops: a round takes a token, so fuel above the tokens ahead is enough.
module _ {A : Type 0} {n : ℕ} (t : Test) (body : Token → A → Parse A) (g : Guards t) where
  while_rounds-Follows :
      ((c : Token) (a : A) → Goes n (body c a))
      → (rounds : ℕ) (a : A) (p : Parser) → left p < rounds
      → left p < suc n
      → Follows 0 p (while_rounds rounds t body a p)
  unfolding while_rounds
  while_rounds-Follows hb zero a p l h = absurd (omega arith)
  while_rounds-Follows hb (suc rounds) a p l h = elim (Bool-cases (t p)) [
    | inl e ↦
        let b : Behind 1 p (step p) = step-Behind p (g.at p e) in
        rw e (
          Follows-weaken p (after (body (peek p) a (step p)) (while_rounds rounds t body)) (
            Follows-trans 1 0 _ b (
              Follows-after 0 0 (body (peek p) a (step p)) (while_rounds rounds t body)
                ((hb (peek p) a).at (step p) (omega arith))
                λ a' q k. while_rounds-Follows hb rounds a' q (omega arith) (omega arith))))
    | inr e ↦ rw e (Behind-none p)
  ]

  pub Goes-while_on :
      ((c : Token) (a : A) → Goes n (body c a)) → (a : A) → Goes (suc n) (while_on t body a)
  unfolding while_on
  Goes-while_on hb a = record {
    at = λ p h. while_rounds-Follows hb (suc (left p)) a p (omega arith) h;
  }

module _ {A : Type 0} {n : ℕ} (stop : Test) (body : A → Parse A) where
  comma_rounds-Follows :
      ((a : A) → Goes n (body a))
      → (rounds : ℕ) (a : A) (p : Parser) → left p < rounds
      → left p < n
      → Follows 0 p (comma_rounds rounds stop body a p)
  unfolding comma_rounds
  comma_rounds-Follows hb zero a p l h = absurd (omega arith)
  comma_rounds-Follows hb (suc rounds) a p l h =
      Follows-after 0 0 (body a p) _ ((hb a).at p h) λ b q k. elim (Bool-cases (check_text "," q)) [
        | inl e ↦
            let s : Behind 1 q (step q) = step-Behind q ((Guards-check_text ",").at q e) in
            rw e (
              Follows-weaken q _ (
                Follows-trans 1 0 _ s (elim (Bool-cases (stop (step q))) [
                  | inl e' ↦ rw e' (Behind-none (step q))
                  | inr e' ↦
                      rw e' (comma_rounds-Follows hb rounds b (step q) (omega arith) (omega arith))
                ])))
        | inr e ↦ rw e (Behind-none q)
      ]

  pub Goes-comma_loop : ((a : A) → Goes n (body a)) → (a : A) → Goes n (comma_loop stop body a)
  unfolding comma_loop
  Goes-comma_loop hb a = record {
    at = λ p h. comma_rounds-Follows hb (suc (left p)) a p (omega arith) h;
  }

module _ {A : Type 0} {n : ℕ} where
  pub Goes-push : (item : Parse A) (l : List A) → Goes n item → Goes n (push item l)
  unfolding push
  Goes-push item l h = Goes-bind item _ h λ a. Goes-pure _

  pub Goes-comma_list : (stop : Test) (item : Parse A) → Goes n item → Goes n (comma_list stop item)
  unfolding comma_list
  Goes-comma_list stop item h = Goes-comma_loop stop (push item) (λ l. Goes-push item l h) []

  until_rounds-Follows :
      (close : String) (error : ParseError) (item : Parse A)
      → Eats n item
      → (rounds : ℕ) (p : Parser) → left p < rounds
      → left p < n
      → Follows 0 p (until_rounds rounds close error item p)
  unfolding until_rounds
  until_rounds-Follows close error item hi zero p l h = absurd (omega arith)
  until_rounds-Follows close error item hi (suc rounds) p l h =
      elim (Bool-cases (check_text close p)) [
        | inl e ↦ rw e (Behind-none p)
        | inr e ↦ rw e (elim (Bool-cases (at_end p)) [
          | inl e' ↦ rw e' tt
          | inr e' ↦ rw e' (
              Follows-weaken p _ (
                Follows-after 1 0 (item p) _ (hi.at p h) λ a q k.
                  Follows-after 0 0 (until_rounds rounds close error item q) _
                    (until_rounds-Follows close error item hi rounds q (omega arith) (omega arith))
                    λ l' r b. Behind-none r))
        ])
      ]

  pub Goes-until :
      (close : String) (error : ParseError) (item : Parse A)
      → Eats n item
      → Goes n (until close error item)
  unfolding until
  Goes-until close error item hi = record {
    at = λ p h. until_rounds-Follows close error item hi (suc (left p)) p (omega arith) h;
  }
