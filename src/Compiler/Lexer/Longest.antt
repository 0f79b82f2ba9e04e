-- ===== src/Compiler/Lexer/Longest.antt =====
-- src/compiler/Lexer.cpp: `lexSymbol` takes the longest operator that stands at the front.
use amlp.Base.{
  ℕ, ◌≤◌, true, [], ◌∷◌, ◌++◌, ◌≡◌, refl, sym, ◌==◌, ==_iff, Bytes, codes, length, arith, All,
}
use amlp.Dialect.{LpcDialect}
use amlp.Compiler.Lexer.Steps.{at}
use amlp.Compiler.Lexer.Literals.{is_prefix}
use amlp.Compiler.Lexer.Symbols.{lex_symbol}
use amlp.Compiler.Lexer.Operators.{operators, Cut, both, lex_symbol-Cut}

is_prefix-split : (p s : Bytes) → is_prefix p s ≡ true → (r : Bytes) × (s ≡ p ++ r)
unfolding is_prefix
is_prefix-split [] s h = (s, refl)
is_prefix-split (x ∷ p) [] h = cc
is_prefix-split (x ∷ p) (y ∷ s) h =
    let (e, k) = both (x == y) (is_prefix p s) h in
    let (r, q) = is_prefix-split p s k in (r, λ i. sym ((==_iff x y).0 e) i ∷ q i)

module _ (source : Bytes) (line : ℕ) (dialect : LpcDialect) where
  abbrev AtLeast : Bytes → Type 0
  AtLeast op =
      is_prefix op source ≡ true → length op ≤ length (lex_symbol (at source line dialect)).0.text

  at_least :
      (op : Bytes)
      → ((r : Bytes) → length op ≤ length (lex_symbol (at (op ++ r) line dialect)).0.text)
      → AtLeast op
  at_least op f h = let (r, e) = is_prefix-split op source h in rw e (f r)

  operators-AtLeast : All AtLeast operators
  unfolding lex_symbol
  operators-AtLeast = (
    at_least (codes "->") (λ r. omega arith),
    (
      at_least (codes "::") (λ r. omega arith),
      (
        at_least (codes "++") (λ r. omega arith),
        (
          at_least (codes "--") (λ r. omega arith),
          (
            at_least (codes "+=") (λ r. omega arith),
            (
              at_least (codes "-=") (λ r. omega arith),
              (
                at_least (codes "*=") (λ r. omega arith),
                (
                  at_least (codes "/=") (λ r. omega arith),
                  (
                    at_least (codes "%=") (λ r. omega arith),
                    (
                      at_least (codes "|=") (λ r. omega arith),
                      (
                        at_least (codes "&=") (λ r. omega arith),
                        (
                          at_least (codes "^=") (λ r. omega arith),
                          (
                            at_least (codes "==") (λ r. omega arith),
                            (
                              at_least (codes "!=") (λ r. omega arith),
                              (
                                at_least (codes "<<=") (λ r. omega arith),
                                (
                                  at_least (codes "<<") (λ r. ground arith),
                                  (
                                    at_least (codes ">>=") (λ r. omega arith),
                                    (
                                      at_least (codes ">>") (λ r. ground arith),
                                      (
                                        at_least (codes "<=") (λ r. omega arith),
                                        (
                                          at_least (codes ">=") (λ r. omega arith),
                                          (
                                            at_least (codes "||") (λ r. omega arith),
                                            (
                                              at_least (codes "&&") (λ r. omega arith),
                                              (
                                                at_least (codes "...") (λ r. omega arith),
                                                (at_least (codes "..") (λ r. ground arith), tt),
                                              ),
                                            ),
                                          ),
                                        ),
                                      ),
                                    ),
                                  ),
                                ),
                              ),
                            ),
                          ),
                        ),
                      ),
                    ),
                  ),
                ),
              ),
            ),
          ),
        ),
      ),
    ),
  )

-- On a source that is not empty a symbol is one byte or an operator, cut off the front of the source;
-- and no operator that stands at the front is longer.
pub lex_symbol_longest :
    (c : ℕ) (rest : Bytes) (line : ℕ) (dialect : LpcDialect)
    → Cut (c ∷ rest) (lex_symbol (at (c ∷ rest) line dialect))
      × All
          (λ op.
            is_prefix op (c ∷ rest) ≡ true
            → length op ≤ length (lex_symbol (at (c ∷ rest) line dialect)).0.text)
          operators
lex_symbol_longest c rest line dialect =
    (lex_symbol-Cut c rest line dialect, operators-AtLeast (c ∷ rest) line dialect)
