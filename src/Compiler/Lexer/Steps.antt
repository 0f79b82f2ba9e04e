-- ===== src/Compiler/Lexer/Steps.antt =====
-- src/compiler/Lexer.cpp: how the cursor moves. A function that only calls `advance` takes a piece
-- of the source off and counts its newlines.
use amlp.Base.{
  ℕ, ◌+◌, Bool, [], ◌∷◌, ◌++◌, ◌≡◌, refl, sym, ap, ◌∙◌, inl, inr, Bool-cases, Option-cases, ◌==◌,
  if◌then◌else◌, Bytes, arith, append_assoc,
}
use amlp.Dialect.{LpcDialect}
use amlp.Compiler.Lexer.{
  Lexer, SkipMode, between, line_after, advance, read_while, read_run, skip_byte, skip,
  skip_whitespace_and_comments,
}

abbrev pub newlines : Bytes → ℕ
newlines [] = 0
newlines (c ∷ text) = (if c == b'\n' then 1 else 0) + newlines text

pub newlines-append : (xs ys : Bytes) → newlines (xs ++ ys) ≡ newlines xs + newlines ys
newlines-append [] ys = omega arith
newlines-append (x ∷ xs) ys = omega (arith, newlines-append xs ys)

-- From `rest` at `line` to `left` at `last`.
pub record Eats (rest : Bytes) (line : ℕ) (left : Bytes) (last : ℕ) : Type 0 where
  pub taken : Bytes
  pub splits : rest ≡ taken ++ left
  pub counted : last ≡ line + newlines taken

pub Eats-none : (rest : Bytes) (line : ℕ) → Eats rest line rest line
Eats-none rest line = record { taken = []; splits = refl; counted = omega arith }

pub Eats-cons :
    (c : ℕ) {rest left : Bytes} {line last : ℕ}
    → Eats rest (line_after c line) left last
    → Eats (c ∷ rest) line left last
Eats-cons c e = record {
  taken = c ∷ e.taken;
  splits = ap (◌∷◌ c) e.splits;
  counted = ground (arith, e.counted);
}

pub Eats-trans : {a b c : Bytes} {i j k : ℕ} → Eats a i b j → Eats b j c k → Eats a i c k
Eats-trans {c = c} e f = record {
  taken = e.taken ++ f.taken;
  splits = e.splits ∙ ap (λ t. e.taken ++ t) f.splits ∙ sym (append_assoc e.taken f.taken c);
  counted = omega (arith, e.counted, f.counted, newlines-append e.taken f.taken);
}

pub record Steps (x y : Lexer) : Type 0 where
  pub eats : Eats x.rest x.line y.rest y.line
  pub dialect : y.dialect ≡ x.dialect

pub Steps-refl : (x : Lexer) → Steps x x
Steps-refl x = record { eats = Eats-none x.rest x.line; dialect = refl }

pub Steps-trans : {x y z : Lexer} → Steps x y → Steps y z → Steps x z
Steps-trans s t = record { eats = Eats-trans s.eats t.eats; dialect = t.dialect ∙ s.dialect }

-- A cursor by its fields.
abbrev pub at : Bytes → ℕ → LpcDialect → Lexer
at rest line dialect = record { rest = rest; line = line; dialect = dialect }

Steps-at :
    (rest : Bytes) (line : ℕ) (d : LpcDialect) → Steps (at rest line d) (advance (at rest line d))
unfolding advance
Steps-at [] line d = Steps-refl (at [] line d)
Steps-at (c ∷ rest) line d = record {
  eats = Eats-cons c (Eats-none rest (line_after c line));
  dialect = refl;
}

pub advance-Steps : (x : Lexer) → Steps x (advance x)
advance-Steps x = Steps-at x.rest x.line x.dialect

pub read_while-Eats :
    (p : ℕ → Bool) (rest : Bytes) (line : ℕ)
    → Eats rest line (read_while p rest line).1 (read_while p rest line).2
unfolding read_while
read_while-Eats p [] line = Eats-none [] line
read_while-Eats p (c ∷ rest) line = elim (Bool-cases (p c)) [
  | inl h ↦ rw h (Eats-cons c (read_while-Eats p rest (line_after c line)))
  | inr h ↦ rw h (Eats-none (c ∷ rest) line)
]

pub read_run-Steps : (p : ℕ → Bool) (x : Lexer) → Steps x (read_run p x).1
unfolding read_run
read_run-Steps p x = record { eats = read_while-Eats p x.rest x.line; dialect = refl }

skip-Eats :
    (mode : SkipMode) (rest : Bytes) (line : ℕ)
    → Eats rest line (skip mode rest line).0 (skip mode rest line).1
unfolding skip
skip-Eats mode [] line = Eats-none [] line
skip-Eats mode (c ∷ rest) line = elim (Option-cases (skip_byte mode c rest)) [
  | inl e ↦ rw (e, skip) (Eats-none (c ∷ rest) line)
  | inr (next, e) ↦ rw (e, skip) (Eats-cons c (skip-Eats next rest (line_after c line)))
]

pub skip_whitespace_and_comments-Steps : (x : Lexer) → Steps x (skip_whitespace_and_comments x)
unfolding skip_whitespace_and_comments
skip_whitespace_and_comments-Steps x = record {
  eats = skip-Eats between x.rest x.line;
  dialect = refl;
}
