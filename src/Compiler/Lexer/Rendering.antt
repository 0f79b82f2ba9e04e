-- ===== src/Compiler/Lexer/Rendering.antt =====
-- src/compiler/Lexer.cpp: source written from words, numbers, strings and symbols lexes to the tokens
-- that it was written from.
use native.Mathlib.Nat.{zero-add, suc-add, add-suc}
use amlp.Base.{
  ℕ, suc, ◌+◌, ◌-◌, ◌≤◌, List, [], ◌∷◌, ◌++◌, ◌≡◌, refl, sym, ap, ◌∙◌, if◌then◌else◌, Bytes, length,
  length-append, map, arith, All,
}
use amlp.Base.Result.{returned, ◌>>=◌}
use amlp.Dialect.{LpcDialect}
use amlp.Compiler.Lexer.{Token, token, end}
use amlp.Compiler.Lexer.Steps.{at}
use amlp.Compiler.Lexer.Literals.{is_nil}
use amlp.Compiler.Lexer.Tokenize.{lex_token, tokenize_from, tokenize}
use amlp.Compiler.Lexer.Items.{Item, IsItem, print, item_token, render, Reads, item-Reads}

-- One round of `tokenize` on a written item.
tokenize_from-Reads :
    (fuel : ℕ) (source rest : Bytes) (t : ℕ → LpcDialect → Token) (line : ℕ) (d : LpcDialect)
    → Reads source t
    → tokenize_from (suc fuel) (at (source ++ b' ' ∷ rest) line d)
      ≡ (tokenize_from fuel (at (b' ' ∷ rest) line d) >>= λ ts. returned (t line d ∷ ts))
unfolding tokenize_from
tokenize_from-Reads fuel [] rest t line d r = let n = r.not_empty in absurd (omega arith)
tokenize_from-Reads fuel (c ∷ source) rest t line d r =
    ap
      (λ (p : Bytes × ℕ).
        if is_nil p.0
        then returned (token end [] p.1 ∷ [])
        else (lex_token (at p.0 p.1 d) >>= λ (u, z).
            tokenize_from fuel z >>= λ ts. returned (u ∷ ts)))
      (r.starts rest line)
    ∙ ap (λ x. x >>= λ (u, z). tokenize_from fuel z >>= λ ts. returned (u ∷ ts))
        (r.lexed rest line d)

tokenize_from_space :
    (fuel : ℕ) (rest : Bytes) (line : ℕ) (d : LpcDialect)
    → tokenize_from (suc fuel) (at (b' ' ∷ rest) line d) ≡ tokenize_from (suc fuel) (at rest line d)
unfolding tokenize_from
tokenize_from_space fuel rest line d = refl

abbrev pub AllItems : List Item → Type 0
AllItems = All IsItem

tokenize_from-render :
    (items : List Item) (fuel line : ℕ) (d : LpcDialect)
    → AllItems items
    → tokenize_from (length items + suc fuel) (at (render items) line d)
      ≡ returned (map (item_token d line) items ++ token end [] line ∷ [])
unfolding tokenize_from
tokenize_from-render [] fuel line d h = rw zero-add
tokenize_from-render (i ∷ items) fuel line d h =
    ap (λ n. tokenize_from n (at (render (i ∷ items)) line d)) (suc-add (length items) (suc fuel))
    ∙ tokenize_from-Reads (length items + suc fuel) (print i) (render items) _ line d
        (item-Reads i h.0)
    ∙ ap (λ r. r >>= λ ts. returned (item_token d line i ∷ ts))
        (ap (λ n. tokenize_from n (at (b' ' ∷ render items) line d)) (add-suc (length items) fuel)
          ∙ tokenize_from_space (length items + fuel) (render items) line d
          ∙ ap (λ n. tokenize_from n (at (render items) line d)) (sym (add-suc (length items) fuel))
          ∙ tokenize_from-render items fuel line d h.1)

length-render : (items : List Item) → length items ≤ length (render items)
length-render [] = omega arith
length-render (i ∷ items) =
    omega (arith, length-render items, length-append (print i) (b' ' ∷ render items))

-- Words, numbers, strings of any bytes and symbols, written with a space behind each, lex to those
-- tokens in that order, with a word classified by the dialect's keywords, all on the first line,
-- and the end.
pub tokenize-render :
    (items : List Item) (d : LpcDialect)
    → AllItems items
    → tokenize (render items) d ≡ returned (map (item_token d 1) items ++ token end [] 1 ∷ [])
unfolding tokenize
tokenize-render items d h =
    let n = length (render items) - length items in
    ap (λ k. tokenize_from k (at (render items) 1 d)) (omega (arith, length-render items))
    ∙ tokenize_from-render items n 1 d h
