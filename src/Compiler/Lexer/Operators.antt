-- ===== src/Compiler/Lexer/Operators.antt =====
-- src/compiler/Lexer.cpp: the operators, and that `lexSymbol` cuts one of them or one byte off.
use amlp.Base.{
  case, ◌$◌, ℕ, Bool, true, false, ◌&&◌, ◌||◌, List, [], ◌∷◌, ◌++◌, ◌≡◌, refl, ap, ◌⊎◌, inl, inr,
  ◌==◌, ==_iff, Bytes, codes, same, length, arith,
}
use amlp.Dialect.{LpcDialect}
use amlp.Compiler.Lexer.{Token, Lexer, count, line_after, advance}
use amlp.Compiler.Lexer.Steps.{at}
use amlp.Compiler.Lexer.Symbols.{two, three, symbol_from, lex_symbol}

-- The operators of two bytes and of three.
abbrev pub operators : List Bytes
operators =
    codes "->"
    ∷ codes "::"
    ∷ codes "++"
    ∷ codes "--"
    ∷ codes "+="
    ∷ codes "-="
    ∷ codes "*="
    ∷ codes "/="
    ∷ codes "%="
    ∷ codes "|="
    ∷ codes "&="
    ∷ codes "^="
    ∷ codes "=="
    ∷ codes "!="
    ∷ codes "<<="
    ∷ codes "<<"
    ∷ codes ">>="
    ∷ codes ">>"
    ∷ codes "<="
    ∷ codes ">="
    ∷ codes "||"
    ∷ codes "&&"
    ∷ codes "..."
    ∷ codes ".."
    ∷ []

-- The text is a single byte or an operator, and was cut off the front of the source.
pub record Cut (source : Bytes) (r : Token × Lexer) : Type 0 where
  pub splits : source ≡ r.0.text ++ r.1.rest
  pub known : (length r.0.text ≡ 1) ⊎ (count r.0.text operators ≡ true)

Cut-two :
    (c d : ℕ) (rest : Bytes) (line after : ℕ) (dialect : LpcDialect)
    → count (c ∷ d ∷ []) operators ≡ true
    → Cut (c ∷ d ∷ rest) (two c d line (at (d ∷ rest) after dialect))
unfolding advance
Cut-two c d rest line after dialect k = record { splits = refl; known = inr k }

pub both : (a b : Bool) → (a && b) ≡ true → (a ≡ true) × (b ≡ true)
both true b h = (refl, h)
both false b h = cc

pair_of : (c d x y : ℕ) → (c == x && d == y) ≡ true → (c ≡ x) × (d ≡ y)
pair_of c d x y h = let (p, q) = both (c == x) (d == y) h in ((==_iff c x).0 p, (==_iff d y).0 q)

pair_count :
    (c d x y : ℕ)
    → count (x ∷ y ∷ []) operators ≡ true
    → (c == x && d == y) ≡ true
    → count (c ∷ d ∷ []) operators ≡ true
pair_count c d x y k h = let (p, q) = pair_of c d x y h in rw (p, q) k

arithmetic_pair :
    (c d : ℕ)
    → ((c == b'+' || (c == b'-' || (c == b'*' || (c == b'/' || c == b'%')))) && d == b'=') ≡ true
    → count (c ∷ d ∷ []) operators ≡ true
unfolding count same
arithmetic_pair c d h =
    let (p, q) = both _ (d == b'=') h in
    let e : (c ≡ b'+') ⊎ ((c ≡ b'-') ⊎ ((c ≡ b'*') ⊎ ((c ≡ b'/') ⊎ (c ≡ b'%')))) = ground arith in
    let f = (==_iff d b'=').0 q in
    elim e [
      | inl k ↦ rw (k, f)
      | inr (inl k) ↦ rw (k, f)
      | inr (inr (inl k)) ↦ rw (k, f)
      | inr (inr (inr (inl k))) ↦ rw (k, f)
      | inr (inr (inr (inr k))) ↦ rw (k, f)
    ]

bitwise_pair :
    (c d : ℕ)
    → ((c == b'|' || (c == b'&' || c == b'^')) && d == b'=') ≡ true
    → count (c ∷ d ∷ []) operators ≡ true
unfolding count same
bitwise_pair c d h =
    let (p, q) = both _ (d == b'=') h in
    let e : (c ≡ b'|') ⊎ ((c ≡ b'&') ⊎ (c ≡ b'^')) = ground arith in
    let f = (==_iff d b'=').0 q in
    elim e [ inl k ↦ rw (k, f) | inr (inl k) ↦ rw (k, f) | inr (inr k) ↦ rw (k, f) ]

three-Cut :
    (c e : ℕ) (rest : Bytes) (line after : ℕ) (dialect : LpcDialect)
    → count (c ∷ c ∷ []) operators ≡ true
    → count (c ∷ c ∷ e ∷ []) operators ≡ true
    → (0 == e) ≡ false
    → Cut (c ∷ c ∷ rest) (three c e line (at (c ∷ rest) after dialect))
unfolding three advance
three-Cut c e [] line after dialect k m n =
    case (Cut (c ∷ c ∷ [])) (0 == e) (λ h. cc) $ record { splits = refl; known = inr k }
three-Cut c e (x ∷ rest) line after dialect k m n =
    case (Cut (c ∷ c ∷ x ∷ rest)) (x == e)
      (λ h. record { splits = ap (λ z. c ∷ c ∷ z ∷ rest) ((==_iff x e).0 h); known = inr m })
    $ record { splits = refl; known = inr k }

Cut-three :
    (c d x e : ℕ) (rest : Bytes) (line after : ℕ) (dialect : LpcDialect)
    → count (x ∷ x ∷ []) operators ≡ true
    → count (x ∷ x ∷ e ∷ []) operators ≡ true
    → (0 == e) ≡ false
    → (c == x && d == x) ≡ true
    → Cut (c ∷ d ∷ rest) (three c e line (at (d ∷ rest) after dialect))
Cut-three c d x e rest line after dialect k m n h =
    let (p, q) = pair_of c d x x h in rw (p, q) (three-Cut x e rest line after dialect k m n)

symbol_from-Cut :
    (c d : ℕ) (rest : Bytes) (line after : ℕ) (dialect : LpcDialect)
    → Cut (c ∷ d ∷ rest) (symbol_from c d line (at (d ∷ rest) after dialect))
unfolding symbol_from count same
symbol_from-Cut c d rest line after dialect =
    let P = Cut (c ∷ d ∷ rest) in
    let pair = Cut-two c d rest line after dialect in
    case P (c == b'-' && d == b'>') (λ h. pair (pair_count c d b'-' b'>' refl h))
    $ case P (c == b':' && d == b':') (λ h. pair (pair_count c d b':' b':' refl h))
    $ case P (c == b'+' && d == b'+') (λ h. pair (pair_count c d b'+' b'+' refl h))
    $ case P (c == b'-' && d == b'-') (λ h. pair (pair_count c d b'-' b'-' refl h))
    $ case P ((c == b'+' || (c == b'-' || (c == b'*' || (c == b'/' || c == b'%')))) && d == b'=')
        (λ h. pair (arithmetic_pair c d h))
    $ case P ((c == b'|' || (c == b'&' || c == b'^')) && d == b'=') (λ h. pair (bitwise_pair c d h))
    $ case P (c == b'=' && d == b'=') (λ h. pair (pair_count c d b'=' b'=' refl h))
    $ case P (c == b'!' && d == b'=') (λ h. pair (pair_count c d b'!' b'=' refl h))
    $ case P (c == b'<' && d == b'<')
        (Cut-three c d b'<' b'=' rest line after dialect refl refl refl)
    $ case P (c == b'>' && d == b'>')
        (Cut-three c d b'>' b'=' rest line after dialect refl refl refl)
    $ case P (c == b'<' && d == b'=') (λ h. pair (pair_count c d b'<' b'=' refl h))
    $ case P (c == b'>' && d == b'=') (λ h. pair (pair_count c d b'>' b'=' refl h))
    $ case P (c == b'|' && d == b'|') (λ h. pair (pair_count c d b'|' b'|' refl h))
    $ case P (c == b'&' && d == b'&') (λ h. pair (pair_count c d b'&' b'&' refl h))
    $ case P (c == b'.' && d == b'.')
        (Cut-three c d b'.' b'.' rest line after dialect refl refl refl)
    $ record { splits = refl; known = inl refl }

no_pair {ℓ} : {A : Type ℓ} (b : Bool) → (b && false) ≡ true → A
no_pair true h = cc
no_pair false h = cc

symbol_from-Cut_last :
    (c line after : ℕ) (dialect : LpcDialect)
    → Cut (c ∷ []) (symbol_from c 0 line (at [] after dialect))
unfolding symbol_from
symbol_from-Cut_last c line after dialect =
    let P = Cut (c ∷ []) in
    case P (c == b'-' && false) (no_pair (c == b'-'))
    $ case P (c == b':' && false) (no_pair (c == b':'))
    $ case P (c == b'+' && false) (no_pair (c == b'+'))
    $ case P (c == b'-' && false) (no_pair (c == b'-'))
    $ case P ((c == b'+' || (c == b'-' || (c == b'*' || (c == b'/' || c == b'%')))) && false)
        (no_pair ((c == b'+' || (c == b'-' || (c == b'*' || (c == b'/' || c == b'%'))))))
    $ case P ((c == b'|' || (c == b'&' || c == b'^')) && false)
        (no_pair ((c == b'|' || (c == b'&' || c == b'^'))))
    $ case P (c == b'=' && false) (no_pair (c == b'='))
    $ case P (c == b'!' && false) (no_pair (c == b'!'))
    $ case P (c == b'<' && false) (no_pair (c == b'<'))
    $ case P (c == b'>' && false) (no_pair (c == b'>'))
    $ case P (c == b'<' && false) (no_pair (c == b'<'))
    $ case P (c == b'>' && false) (no_pair (c == b'>'))
    $ case P (c == b'|' && false) (no_pair (c == b'|'))
    $ case P (c == b'&' && false) (no_pair (c == b'&'))
    $ case P (c == b'.' && false) (no_pair (c == b'.'))
    $ record { splits = refl; known = inl refl }

pub lex_symbol-Cut :
    (c : ℕ) (rest : Bytes) (line : ℕ) (dialect : LpcDialect)
    → Cut (c ∷ rest) (lex_symbol (at (c ∷ rest) line dialect))
unfolding lex_symbol
lex_symbol-Cut c [] line dialect = symbol_from-Cut_last c line (line_after c line) dialect
lex_symbol-Cut c (d ∷ rest) line dialect = symbol_from-Cut c d rest line (line_after c line) dialect
