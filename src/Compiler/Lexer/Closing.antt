-- ===== src/Compiler/Lexer/Closing.antt =====
-- src/compiler/Lexer.cpp: the pieces of strings, characters, quoted symbols and heredocs, and of one
-- round of `tokenize`.
use mathlib.Core.Path.{ap₂, subst}
use amlp.Base.{
  ℕ, false, not, ◌==◌, ◌&&◌, [], ◌∷◌, ◌++◌, ◌≡◌, refl, sym, ap, ◌∙◌, Bytes, arith, case, Bool-cases,
  inl, inr, length, append_assoc, ==_iff,
}
use amlp.Dialect.{LpcDialect}
use amlp.Compiler.Lexer.{is_word, is_word_start, peek, line_after, advance, read_while, read_run}
use amlp.Compiler.Lexer.Steps.{at}
use amlp.Compiler.Lexer.Literals.{
  unescape, string_body, finish_string, lex_string, finish_char, char_body, lex_char, lex_quote,
}
use amlp.Compiler.Lexer.Spelling.{
  Escape, newline, tab, itself, Quoted, no_more, plain, escaped, OneByte, bare, behind, Cuts,
  as_char, as_quoted, as_string, read_while-splits,
}

pub unescape-Escape : (e : ℕ) → Escape e (unescape e)
unfolding unescape
unescape-Escape e = elim (Bool-cases (e == b'n')) [
  | inl h ↦ rw h (subst (λ x. Escape x b'\n') (sym ((==_iff e b'n').0 h)) newline)
  | inr h ↦ elim (Bool-cases (e == b't')) [
    | inl k ↦ rw (h, k) (subst (λ x. Escape x b'\t') (sym ((==_iff e b't').0 k)) tab)
    | inr k ↦ rw (h, k) (itself e h k)
  ]
]

-- The loop of `lexString` stops at the end or at a quote.
data Stops (rest value left : Bytes) : Type 0 where
  at_end : left ≡ [] → Stops rest value left
  at_quote :
      (body after : Bytes)
      → left ≡ b'"' ∷ after
      → rest ≡ body ++ left
      → Quoted body value
      → Stops rest value left

Stops-plain :
    (c : ℕ) (rest value left : Bytes)
    → (c == b'"') ≡ false
    → (c == b'\\') ≡ false
    → Stops rest value left
    → Stops (c ∷ rest) (c ∷ value) left
Stops-plain c rest value left h k (at_end e) = at_end e
Stops-plain c rest value left h k (at_quote body after e s q) =
    at_quote (c ∷ body) after e (ap (λ t. c ∷ t) s) (plain c body value h k q)

Stops-escaped :
    (c e b : ℕ) (rest value left : Bytes)
    → c ≡ b'\\'
    → Escape e b
    → Stops rest value left
    → Stops (c ∷ e ∷ rest) (b ∷ value) left
Stops-escaped c e b rest value left h k (at_end p) = at_end p
Stops-escaped c e b rest value left h k (at_quote body after p s q) =
    at_quote (b'\\' ∷ e ∷ body) after p (ap₂ (λ x t. x ∷ e ∷ t) h s) (escaped e b body value k q)

string_body-Stops :
    (rest : Bytes) (line : ℕ)
    → Stops rest (string_body false rest line).0 (string_body false rest line).1
unfolding string_body
string_body-Stops [] line = at_end refl
string_body-Stops (c ∷ []) line = elim (Bool-cases (c == b'"')) [
  | inl h ↦ rw h (at_quote [] [] (ap (λ x. x ∷ []) ((==_iff c b'"').0 h)) refl no_more)
  | inr h ↦ elim (Bool-cases (c == b'\\')) [
    | inl k ↦ rw (h, k) (at_end refl)
    | inr k ↦ rw (h, k) (at_end refl)
  ]
]
string_body-Stops (c ∷ e ∷ rest) line = elim (Bool-cases (c == b'"')) [
  | inl h ↦
      rw h (at_quote [] (e ∷ rest) (ap (λ x. x ∷ e ∷ rest) ((==_iff c b'"').0 h)) refl no_more)
  | inr h ↦ elim (Bool-cases (c == b'\\')) [
    | inl k ↦
        let ih = string_body-Stops rest (line_after e (line_after c line)) in
        rw (h, k)
          (Stops-escaped c e (unescape e) rest _ _ ((==_iff c b'\\').0 k) (unescape-Escape e) ih)
    | inr k ↦
        let ih = string_body-Stops (e ∷ rest) (line_after c line) in
        rw (h, k) (Stops-plain c (e ∷ rest) _ _ h k ih)
  ]
]

finish_string-Cuts :
    (rest value left : Bytes) (line l : ℕ) (d : LpcDialect)
    → Stops rest value left
    → Cuts b'"' rest (finish_string value left line (at left l d))
unfolding finish_string advance
finish_string-Cuts rest value [] line l d s = tt
finish_string-Cuts rest value (q ∷ left) line l d (at_end e) = absurd (ground (arith, e))
finish_string-Cuts rest value (q ∷ left) line l d (at_quote body after e s k) =
    let quote : q ≡ b'"' = ground (arith, e) in
    record {
      taken = body ++ b'"' ∷ [];
      splits = s ∙ ap (λ x. body ++ x ∷ left) quote ∙ sym (append_assoc body (b'"' ∷ []) left);
      spelled = as_string body refl k refl;
    }

pub lex_string-Cuts :
    (rest : Bytes) (line : ℕ) (d : LpcDialect)
    → Cuts b'"' rest (lex_string (at (b'"' ∷ rest) line d))
unfolding lex_string advance
lex_string-Cuts rest line d = finish_string-Cuts rest _ _ line _ d (string_body-Stops rest line)

finish_char-Cuts :
    (code line : ℕ) (body rest left : Bytes) (l : ℕ) (d : LpcDialect)
    → OneByte body code
    → rest ≡ body ++ left
    → Cuts b'\'' rest (finish_char code line left (at left l d))
unfolding finish_char advance
finish_char-Cuts code line body rest [] l d o s = tt
finish_char-Cuts code line body rest (q ∷ left) l d o s =
    case (Cuts b'\'' rest) (q == b'\'')
      (λ h. record {
        taken = body ++ b'\'' ∷ [];
        splits =
            s
            ∙ ap (λ x. body ++ x ∷ left) ((==_iff q b'\'').0 h)
            ∙ sym (append_assoc body (b'\'' ∷ []) left);
        spelled = as_char body code refl refl o refl;
      })
      tt

char_body-Cuts :
    (rest : Bytes) (line l : ℕ) (d : LpcDialect)
    → Cuts b'\'' rest (char_body rest line (at rest l d))
unfolding char_body advance
char_body-Cuts [] line l d = tt
char_body-Cuts (c ∷ []) line l d = elim (Bool-cases (c == b'\\')) [
  | inl h ↦ rw h (finish_char-Cuts c line (c ∷ []) (c ∷ []) [] (line_after c l) d (bare c) refl)
  | inr h ↦ rw h (finish_char-Cuts c line (c ∷ []) (c ∷ []) [] (line_after c l) d (bare c) refl)
]
char_body-Cuts (c ∷ e ∷ rest) line l d = elim (Bool-cases (c == b'\\')) [
  | inl h ↦ rw h (
      finish_char-Cuts (unescape e) line (b'\\' ∷ e ∷ []) (c ∷ e ∷ rest) rest _ d
        (behind e (unescape e) (unescape-Escape e)) (ap (λ x. x ∷ e ∷ rest) ((==_iff c b'\\').0 h)))
  | inr h ↦ rw h (finish_char-Cuts c line (c ∷ []) (c ∷ e ∷ rest) (e ∷ rest) _ d (bare c) refl)
]

pub lex_char-Cuts :
    (rest : Bytes) (line : ℕ) (d : LpcDialect)
    → Cuts b'\'' rest (lex_char (at (b'\'' ∷ rest) line d))
unfolding lex_char advance
lex_char-Cuts rest line d = char_body-Cuts rest line _ d

pub lex_quote-Cuts :
    (rest : Bytes) (line : ℕ) (d : LpcDialect)
    → Cuts b'\'' rest (lex_quote (at (b'\'' ∷ rest) line d))
unfolding lex_quote advance read_run
lex_quote-Cuts rest line d =
    let w = read_while is_word rest line in
    case (Cuts b'\'' rest) (is_word_start (peek rest) && not (length w.0 == 1 && peek w.1 == b'\''))
      (λ _. record {
        taken = w.0;
        splits = read_while-splits is_word rest line;
        spelled = as_quoted refl refl;
      })
      (lex_char-Cuts rest line d)
