-- ===== src/Compiler/Lexer/Positions.antt =====
-- src/compiler/Lexer.cpp: `tokenize` ends on every source, and its tokens and errors carry the lines
-- of the source.
use amlp.Base.{
  ℕ, zero, suc, ◌+◌, ◌<◌, List, [], ◌∷◌, ◌++◌, ◌≡◌, refl, sym, ap, ◌∙◌, if◌then◌else◌, Bytes,
  length, length-append, arith,
}
use amlp.Base.Result.{Result, returned, thrown, ◌>>=◌}
use amlp.Dialect.{LpcDialect}
use amlp.Compiler.Lexer.{
  Token, token, end, Lexer, LexError, line_after, skip_whitespace_and_comments,
}
use amlp.Compiler.Lexer.Steps.{newlines, newlines-append, at, skip_whitespace_and_comments-Steps}
use amlp.Compiler.Lexer.Progress.{Follows}
use amlp.Compiler.Lexer.Scanning.{ErrorAt, Yields, yields, throws, lex_token-Yields}
use amlp.Compiler.Lexer.Literals.{Lexed, is_nil}
use amlp.Compiler.Lexer.Tokenize.{lex_token, tokenize_from, tokenize}
use amlp.Compiler.Lexer.Gaps.{Gap}
use amlp.Compiler.Lexer.Skipping.{skip_whitespace_and_comments-Gap}
use amlp.Compiler.Lexer.Spelling.{Spells, Cuts, Cut}
use amlp.Compiler.Lexer.Round.{lex_token-Cuts}

-- From the cursor `x` all blanks and comments are taken; what is left starts on line `n`.
pub record Skips (x : Lexer) (left : Bytes) (n : ℕ) : Type 0 where
  pub gap : Bytes
  pub splits : x.rest ≡ gap ++ left
  pub blank : Gap x.rest left
  pub counted : n ≡ x.line + newlines gap

-- At the byte `c` on line `n` stands the token `t`: it carries that line, and the piece of the source
-- from `c` to the cursor `z` is how it is written.
pub record Takes (c : ℕ) (rest : Bytes) (n : ℕ) (d : LpcDialect) (t : Token) (z : Lexer)
    : Type 0 where
  pub lexed : lex_token (at (c ∷ rest) n d) ≡ returned (t, z)
  pub stamped : t.line ≡ n
  pub taken : Bytes
  pub splits : rest ≡ taken ++ z.rest
  pub spelled : Spells t.type t.text (c ∷ taken)
  pub counted : z.line ≡ n + newlines (c ∷ taken)

-- The tokens from the cursor on; the last is the end, on the line where the source ends.
pub data Positions : Lexer → List Token → Type 0 where
  stop : {x : Lexer} {n : ℕ} → Skips x [] n → Positions x (token end [] n ∷ [])
  next :
      {x z : Lexer} {n : ℕ} {t : Token} {ts : List Token} (c : ℕ) (rest : Bytes)
      → Skips x (c ∷ rest) n
      → Takes c rest n x.dialect t z
      → Positions z ts
      → Positions x (t ∷ ts)

-- Behind some tokens there is none at the next byte, and the error names the line of that byte.
pub data FailsAt (e : LexError) : Lexer → Type 0 where
  here :
      {x : Lexer} {n : ℕ} (c : ℕ) (rest : Bytes)
      → Skips x (c ∷ rest) n
      → lex_token (at (c ∷ rest) n x.dialect) ≡ thrown e
      → ErrorAt n e
      → FailsAt e x
  later :
      {x z : Lexer} {n : ℕ} {t : Token} (c : ℕ) (rest : Bytes)
      → Skips x (c ∷ rest) n
      → Takes c rest n x.dialect t z
      → FailsAt e z
      → FailsAt e x

pub FailsAt-ErrorAt : (e : LexError) (x : Lexer) → FailsAt e x → (n : ℕ) × ErrorAt n e
FailsAt-ErrorAt e x (here {n = n} c rest s l h) = (n, h)
FailsAt-ErrorAt e x (later {z = z} c rest s t h) = FailsAt-ErrorAt e z h

abbrev pub Located : Lexer → Result LexError (List Token) → Type 0
Located x (returned ts) = Positions x ts
Located x (thrown e) = FailsAt e x

-- A token, then what the rest gives.
Located-next :
    (x z : Lexer) (n : ℕ) (t : Token) (c : ℕ) (rest : Bytes) (r : Result LexError (List Token))
    → Skips x (c ∷ rest) n
    → Takes c rest n x.dialect t z
    → Located z r
    → Located x (r >>= λ ts. returned (t ∷ ts))
Located-next x z n t c rest (returned ts) s k h = next c rest s k h
Located-next x z n t c rest (thrown e) s k h = later c rest s k h

Takes-Cut :
    (c : ℕ) (rest : Bytes) (n : ℕ) (d : LpcDialect) (t : Token) (z : Lexer)
    → lex_token (at (c ∷ rest) n d) ≡ returned (t, z)
    → Follows (at rest (line_after c n) d) n (t, z)
    → Cut c rest t z.rest
    → Takes c rest n d t z
Takes-Cut c rest n d t z e f k = record {
  lexed = e;
  stamped = f.stamped;
  taken = k.taken;
  splits = k.splits;
  spelled = k.spelled;
  counted = ground (
    arith,
    f.steps.eats.counted,
    ap newlines (sym k.splits ∙ f.steps.eats.splits),
    newlines-append k.taken z.rest,
    newlines-append f.steps.eats.taken z.rest,
  );
}

-- The round of the loop behind the whitespace, and what the rest of the loop gives.
module _ (fuel : ℕ)
    (loop : (z : Lexer) → length z.rest < fuel → Located z (tokenize_from fuel z)) where
  round_token :
      (x : Lexer) (c : ℕ) (rest : Bytes) (n : ℕ) (r : Lexed)
      → Skips x (c ∷ rest) n
      → length x.rest < suc fuel
      → lex_token (at (c ∷ rest) n x.dialect) ≡ r
      → Yields (at rest (line_after c n) x.dialect) n r
      → Cuts c rest r
      → Located x (r >>= λ (t, z). tokenize_from fuel z >>= λ ts. returned (t ∷ ts))
  round_token x c rest n _ s short e (throws h) k = here c rest s e h
  round_token x c rest n _ s short e (yields {r = (t, z)} f) k =
      Located-next x z n t c rest (tokenize_from fuel z) s (Takes-Cut c rest n x.dialect t z e f k)
        (loop z (
          omega (
            arith,
            ap (length {0}) s.splits,
            ap (length {0}) k.splits,
            length-append s.gap (c ∷ rest),
            length-append k.taken z.rest,
          )))

  round_at :
      (x : Lexer) (left : Bytes) (n : ℕ)
      → Skips x left n
      → length x.rest < suc fuel
      → Located x (
          if is_nil left
          then returned (token end [] n ∷ [])
          else (lex_token (at left n x.dialect) >>= λ (t, z).
              tokenize_from fuel z >>= λ ts. returned (t ∷ ts)))
  round_at x [] n s short = stop s
  round_at x (c ∷ rest) n s short =
      round_token x c rest n _ s short refl (lex_token-Yields c rest n x.dialect)
        (lex_token-Cuts c rest n x.dialect)

tokenize_from-Located :
    (fuel : ℕ) (x : Lexer) → length x.rest < fuel → Located x (tokenize_from fuel x)
unfolding tokenize_from skip_whitespace_and_comments
tokenize_from-Located zero x h = elim h [ ]
tokenize_from-Located (suc fuel) x h =
    let y = skip_whitespace_and_comments x in
    let s = (skip_whitespace_and_comments-Steps x).eats in
    round_at fuel (tokenize_from-Located fuel) x y.rest y.line
      (record {
        gap = s.taken;
        splits = s.splits;
        blank = skip_whitespace_and_comments-Gap x;
        counted = s.counted;
      })
      h

-- On every source of every dialect the lexer ends, with tokens or with an error, and never for want
-- of fuel. Between the tokens there are blanks and comments only. The piece of the source that a token
-- is read from is how that token is written: as its text; as the character between quotes whose code
-- is its text; as its text between quotes with escapes; as its text behind the quote of a symbol; or
-- as the lines of a heredoc and their terminators. The token carries the line where its piece starts,
-- and the last one is the end, on the line where the source ends. An error comes from the first place
-- where a round of the lexer finds no token, and names the line of that place, if it names one.
pub tokenize-Located :
    (source : Bytes) (dialect : LpcDialect)
    → Located (at source 1 dialect) (tokenize source dialect)
unfolding tokenize
tokenize-Located source dialect =
    tokenize_from-Located (length source + 1) (at source 1 dialect) (omega arith)
