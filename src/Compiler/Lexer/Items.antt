-- ===== src/Compiler/Lexer/Items.antt =====
-- src/compiler/Lexer.cpp: words, numbers, strings and symbols as they are written, and that the lexer
-- reads each of them off the front of a source.
use mathlib.Core.Path.{subst}
use amlp.Base.{
  ℕ, ◌<◌, true, false, ◌&&◌, ◌||◌, List, [], ◌∷◌, ◌++◌, ◌≡◌, refl, sym, ap, ◌∙◌, inl, inr,
  Bool-cases, ◌==◌, if◌then◌else◌, Bytes, codes, same, same_iff, length, arith, All,
}
use amlp.Base.Decimal.{is_digit, show, IsDigits, show-IsDigits}
use amlp.Base.Result.{returned}
use amlp.Dialect.{LpcDialect}
use amlp.Compiler.Lexer.{
  Token, token, Lexer, number, string, symbol, count, is_word, is_word_start, is_xdigit, peek,
  peek_next, skip, between,
}
use amlp.Compiler.Lexer.Steps.{at}
use amlp.Compiler.Lexer.Words.{classify, number_tail, lex_number}
use amlp.Compiler.Lexer.Symbols.{lex_symbol}
use amlp.Compiler.Lexer.Tokenize.{lex_token}
use amlp.Compiler.Lexer.Operators.{operators}
use amlp.Compiler.Lexer.Quoting.{
  Within, read_run-Within, lex_ident_or_keyword-word, quote, lex_string-quote,
}

-- One token to be written.
pub data Item : Type 0 where
  word : Bytes → Item
  num : ℕ → Item
  text : Bytes → Item
  op : Bytes → Item

-- The symbols of one byte that the lexer knows.
abbrev pub single_symbols : List Bytes
single_symbols =
    codes "("
    ∷ codes ")"
    ∷ codes "{"
    ∷ codes "}"
    ∷ codes "["
    ∷ codes "]"
    ∷ codes ":"
    ∷ codes ";"
    ∷ codes ","
    ∷ codes "-"
    ∷ codes "="
    ∷ codes "!"
    ∷ codes "<"
    ∷ codes ">"
    ∷ codes "*"
    ∷ codes "+"
    ∷ codes "|"
    ∷ codes "&"
    ∷ codes "/"
    ∷ codes "%"
    ∷ codes "."
    ∷ codes "?"
    ∷ codes "^"
    ∷ codes "~"
    ∷ []

abbrev pub symbols : List Bytes
symbols = operators ++ single_symbols

-- A word has word bytes and does not start with a digit; a symbol is one of the table.
abbrev pub IsItem : Item → Type 0
IsItem (word []) = ⊥
IsItem (word (c ∷ rest)) = (is_word_start c ≡ true) × Within is_word (c ∷ rest)
IsItem (op o) = count o symbols ≡ true
IsItem _ = Unit

abbrev pub print : Item → Bytes
print (word t) = t
print (num n) = show n
print (text t) = quote t
print (op o) = o

abbrev pub item_token : LpcDialect → ℕ → Item → Token
item_token d line (word t) = token (classify d t) t line
item_token d line (num n) = token number (show n) line
item_token d line (text t) = token string t line
item_token d line (op o) = token symbol o line

-- Items with a space behind each.
abbrev pub render : List Item → Bytes
render [] = []
render (i ∷ items) = print i ++ b' ' ∷ render items

-- The lexer reads `source` as one token and stops before the space.
pub record Reads (source : Bytes) (t : ℕ → LpcDialect → Token) : Type 0 where
  pub starts :
      (rest : Bytes) (line : ℕ)
      → skip between (source ++ b' ' ∷ rest) line ≡ (source ++ b' ' ∷ rest, line)
  pub lexed :
      (rest : Bytes) (line : ℕ) (d : LpcDialect)
      → lex_token (at (source ++ b' ' ∷ rest) line d) ≡ returned (t line d, at (b' ' ∷ rest) line d)
  pub not_empty : 0 < length source

abbrev ReadsSymbol : Bytes → Type 0
ReadsSymbol o = Reads o (λ line _. token symbol o line)

All-count :
    (P : Bytes → Type 0) (words : List Bytes) (o : Bytes) → All P words → count o words ≡ true → P o
unfolding count
All-count P [] o a h = cc
All-count P (w ∷ words) o a h = elim (Bool-cases (same o w)) [
  | inl e ↦ subst P (sym ((same_iff o w).0 e)) a.0
  | inr e ↦ All-count P words o a.1 (ground arith)
]

word-Reads :
    (c : ℕ) (t : Bytes)
    → is_word_start c ≡ true
    → Within is_word (c ∷ t)
    → Reads (c ∷ t) (λ line d. token (classify d (c ∷ t)) (c ∷ t) line)
unfolding skip lex_token
word-Reads c t h w = record {
  starts = λ rest line. ground arith;
  lexed = λ rest line d.
      rw h (ap returned (lex_ident_or_keyword-word (c ∷ t) (b' ' ∷ rest) line d w refl));
  not_empty = omega arith;
}

text-Reads : (t : Bytes) → Reads (quote t) (λ line _. token string t line)
unfolding skip lex_token
text-Reads t = record {
  starts = λ rest line. refl;
  lexed = λ rest line d. lex_string-quote t (b' ' ∷ rest) line d;
  not_empty = omega arith;
}

IsDigits-Within : (ds : Bytes) → IsDigits ds → Within is_digit ds
IsDigits-Within [] h = tt
IsDigits-Within (c ∷ ds) h = (h.0, ground arith, IsDigits-Within ds h.1)

lex_number-digits :
    (ds rest : Bytes) (line : ℕ) (d : LpcDialect)
    → Within is_digit ds
    → lex_number (at (ds ++ b' ' ∷ rest) line d) ≡ (token number ds line, at (b' ' ∷ rest) line d)
unfolding lex_number
lex_number-digits ds rest line d w =
    ap
      (λ (r : Bytes × Lexer).
        if same r.0 (codes "0")
          && (peek r.1.rest == b'x' || peek r.1.rest == b'X')
          && is_xdigit (peek_next r.1.rest)
        then number_tail is_xdigit r.0 line r.1
        else if peek r.1.rest == b'.' && is_digit (peek_next r.1.rest)
        then number_tail is_digit r.0 line r.1
        else (token number r.0 line, r.1))
      (read_run-Within is_digit ds (b' ' ∷ rest) line d w refl)
    ∙ ground arith

digit_not_word : (c : ℕ) → is_digit c ≡ true → is_word_start c ≡ false
digit_not_word c h = ground arith

digit_token :
    (c : ℕ) (rest : Bytes) (line : ℕ) (d : LpcDialect)
    → is_digit c ≡ true
    → lex_token (at (c ∷ rest) line d) ≡ returned (lex_number (at (c ∷ rest) line d))
unfolding lex_token
digit_token c rest line d h = rw (digit_not_word c h, h)

digits-Reads :
    (ds : Bytes) → IsDigits ds → 0 < length ds → Reads ds (λ line _. token number ds line)
unfolding skip lex_token
digits-Reads [] h p = absurd (omega arith)
digits-Reads (c ∷ ds) h p = record {
  starts = λ rest line. ground arith;
  lexed = λ rest line d.
      digit_token c (ds ++ b' ' ∷ rest) line d h.0
      ∙ ap returned (lex_number-digits (c ∷ ds) rest line d (IsDigits-Within (c ∷ ds) h));
  not_empty = omega arith;
}

symbol_of :
    (o : Bytes)
    → ((rest : Bytes) (line : ℕ) → skip between (o ++ b' ' ∷ rest) line ≡ (o ++ b' ' ∷ rest, line))
    → ((rest : Bytes) (line : ℕ) (d : LpcDialect)
        → lex_token (at (o ++ b' ' ∷ rest) line d)
          ≡ returned (token symbol o line, at (b' ' ∷ rest) line d))
    → 0 < length o
    → ReadsSymbol o
symbol_of o s l n = record { starts = s; lexed = l; not_empty = n }

symbols-Reads : All ReadsSymbol symbols
unfolding skip lex_token lex_symbol
symbols-Reads = (
  symbol_of _ (λ _ _. refl) (λ _ _ _. refl) (omega arith),
  (
    symbol_of _ (λ _ _. refl) (λ _ _ _. refl) (omega arith),
    (
      symbol_of _ (λ _ _. refl) (λ _ _ _. refl) (omega arith),
      (
        symbol_of _ (λ _ _. refl) (λ _ _ _. refl) (omega arith),
        (
          symbol_of _ (λ _ _. refl) (λ _ _ _. refl) (omega arith),
          (
            symbol_of _ (λ _ _. refl) (λ _ _ _. refl) (omega arith),
            (
              symbol_of _ (λ _ _. refl) (λ _ _ _. refl) (omega arith),
              (
                symbol_of _ (λ _ _. refl) (λ _ _ _. refl) (omega arith),
                (
                  symbol_of _ (λ _ _. refl) (λ _ _ _. refl) (omega arith),
                  (
                    symbol_of _ (λ _ _. refl) (λ _ _ _. refl) (omega arith),
                    (
                      symbol_of _ (λ _ _. refl) (λ _ _ _. refl) (omega arith),
                      (
                        symbol_of _ (λ _ _. refl) (λ _ _ _. refl) (omega arith),
                        (
                          symbol_of _ (λ _ _. refl) (λ _ _ _. refl) (omega arith),
                          (
                            symbol_of _ (λ _ _. refl) (λ _ _ _. refl) (omega arith),
                            (
                              symbol_of _ (λ _ _. refl) (λ _ _ _. refl) (omega arith),
                              (
                                symbol_of _ (λ _ _. refl) (λ _ _ _. refl) (omega arith),
                                (
                                  symbol_of _ (λ _ _. refl) (λ _ _ _. refl) (omega arith),
                                  (
                                    symbol_of _ (λ _ _. refl) (λ _ _ _. refl) (omega arith),
                                    (
                                      symbol_of _ (λ _ _. refl) (λ _ _ _. refl) (omega arith),
                                      (
                                        symbol_of _ (λ _ _. refl) (λ _ _ _. refl) (omega arith),
                                        (
                                          symbol_of _ (λ _ _. refl) (λ _ _ _. refl) (omega arith),
                                          (
                                            symbol_of _ (λ _ _. refl) (λ _ _ _. refl) (omega arith),
                                            (
                                              symbol_of _ (λ _ _. refl) (λ _ _ _. refl)
                                                  (omega arith),
                                              (
                                                symbol_of _ (λ _ _. refl) (λ _ _ _. refl)
                                                    (omega arith),
                                                (
                                                  symbol_of _ (λ _ _. refl) (λ _ _ _. refl)
                                                      (omega arith),
                                                  (
                                                    symbol_of _ (λ _ _. refl) (λ _ _ _. refl)
                                                        (omega arith),
                                                    (
                                                      symbol_of _ (λ _ _. refl) (λ _ _ _. refl)
                                                          (omega arith),
                                                      (
                                                        symbol_of _ (λ _ _. refl) (λ _ _ _. refl)
                                                            (omega arith),
                                                        (
                                                          symbol_of _ (λ _ _. refl) (λ _ _ _. refl)
                                                            (omega arith),
                                                          (
                                                            symbol_of _ (λ _ _. refl)
                                                            (λ _ _ _. refl) (omega arith),
                                                            (
                                                            symbol_of _ (λ _ _. refl)
                                                            (λ _ _ _. refl) (omega arith),
                                                            (
                                                            symbol_of _ (λ _ _. refl)
                                                            (λ _ _ _. refl) (omega arith),
                                                            (
                                                            symbol_of _ (λ _ _. refl)
                                                            (λ _ _ _. refl) (omega arith),
                                                            (
                                                            symbol_of _ (λ _ _. refl)
                                                            (λ _ _ _. refl) (omega arith),
                                                            (
                                                            symbol_of _ (λ _ _. refl)
                                                            (λ _ _ _. refl) (omega arith),
                                                            (
                                                            symbol_of _ (λ _ _. refl)
                                                            (λ _ _ _. refl) (omega arith),
                                                            (
                                                            symbol_of _ (λ _ _. refl)
                                                            (λ _ _ _. refl) (omega arith),
                                                            (
                                                            symbol_of _ (λ _ _. refl)
                                                            (λ _ _ _. refl) (omega arith),
                                                            (
                                                            symbol_of _ (λ _ _. refl)
                                                            (λ _ _ _. refl) (omega arith),
                                                            (
                                                            symbol_of _ (λ _ _. refl)
                                                            (λ _ _ _. refl) (omega arith),
                                                            (
                                                            symbol_of _ (λ _ _. refl)
                                                            (λ _ _ _. refl) (omega arith),
                                                            (
                                                            symbol_of _ (λ _ _. refl)
                                                            (λ _ _ _. refl) (omega arith),
                                                            (
                                                            symbol_of _ (λ _ _. refl)
                                                            (λ _ _ _. refl) (omega arith),
                                                            (
                                                            symbol_of _ (λ _ _. refl)
                                                            (λ _ _ _. refl) (omega arith),
                                                            (
                                                            symbol_of _ (λ _ _. refl)
                                                            (λ _ _ _. refl) (omega arith),
                                                            (
                                                            symbol_of _ (λ _ _. refl)
                                                            (λ _ _ _. refl) (omega arith),
                                                            (
                                                            symbol_of _ (λ _ _. refl)
                                                            (λ _ _ _. refl) (omega arith),
                                                            (
                                                            symbol_of _ (λ _ _. refl)
                                                            (λ _ _ _. refl) (omega arith),
                                                            tt,
                                                            ),
                                                            ),
                                                            ),
                                                            ),
                                                            ),
                                                            ),
                                                            ),
                                                            ),
                                                            ),
                                                            ),
                                                            ),
                                                            ),
                                                            ),
                                                            ),
                                                            ),
                                                            ),
                                                            ),
                                                            ),
                                                          ),
                                                        ),
                                                      ),
                                                    ),
                                                  ),
                                                ),
                                              ),
                                            ),
                                          ),
                                        ),
                                      ),
                                    ),
                                  ),
                                ),
                              ),
                            ),
                          ),
                        ),
                      ),
                    ),
                  ),
                ),
              ),
            ),
          ),
        ),
      ),
    ),
  ),
)

pub item-Reads : (i : Item) → IsItem i → Reads (print i) (λ line d. item_token d line i)
item-Reads (word []) h = elim h [ ]
item-Reads (word (c ∷ t)) h = word-Reads c t h.0 h.1
item-Reads (num n) h = let (ds, some_digit) = show-IsDigits n in digits-Reads (show n) ds some_digit
item-Reads (text t) h = text-Reads t
item-Reads (op o) h = All-count ReadsSymbol symbols o symbols-Reads h
