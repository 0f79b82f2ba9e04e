-- ===== src/Config/Says.antt =====
-- src/config/Config.cpp: what a line says, and which line is the last to say it.
use amlp.Config.{is_comment, split_colon, lines_of, onto_line, trim}
use amlp.Config.Trims.{Trims, Trims-trim}
use amlp.Base.{
  ==_iff, ℕ, false, ◌==◌, List, [], ◌∷◌, ◌++◌, Option, some, ◌≡◌, refl, sym, ap, ◌∙◌, Bytes, All,
  arith, Bool-cases, Option-cases, inl, inr,
}

-- The lines of a text, without their newlines; a last line needs none, if it is not empty.
pub data Lines : Bytes → List Bytes → Type 0 where
  no_line : Lines [] []
  open_line :
      (c : ℕ) (line : Bytes)
      → All (λ x. (x == b'\n') ≡ false) (c ∷ line)
      → Lines (c ∷ line) ((c ∷ line) ∷ [])
  one_line :
      (text line rest : Bytes) (lines : List Bytes)
      → text ≡ line ++ b'\n' ∷ rest
      → All (λ x. (x == b'\n') ≡ false) line
      → Lines rest lines
      → Lines text (line ∷ lines)

onto_line-Lines :
    (c : ℕ) (s : Bytes) (lines : List Bytes)
    → (c == b'\n') ≡ false
    → Lines s lines
    → Lines (c ∷ s) (onto_line c lines)
onto_line-Lines c _ _ h no_line = open_line c [] (h, tt)
onto_line-Lines c _ _ h (open_line d line k) = open_line c (d ∷ line) (h, k)
onto_line-Lines c s _ h (one_line _ line rest lines e k l) =
    one_line (c ∷ s) (c ∷ line) rest lines (ap (λ t. c ∷ t) e) (h, k) l

pub lines_of-Lines : (text : Bytes) → Lines text (lines_of text)
unfolding lines_of
lines_of-Lines [] = no_line
lines_of-Lines (c ∷ s) = elim (Bool-cases (c == b'\n')) [
  | inl h ↦ rw h (
      one_line (c ∷ s) [] s (lines_of s) (ap (λ x. x ∷ s) ((==_iff c b'\n').0 h)) tt
        (lines_of-Lines s))
  | inr h ↦ rw h (onto_line-Lines c s (lines_of s) h (lines_of-Lines s))
]

-- The line is no comment and has a colon; the text before the first colon, trimmed, is the key, which
-- is not empty, and the text behind it, trimmed, is the value.
pub record Says (line key val : Bytes) : Type 0 where
  pub head : Bytes
  pub tail : Bytes
  pub splits : line ≡ head ++ b':' ∷ tail
  pub first : All (λ x. (x == b':') ≡ false) head
  pub no_comment : (rest : Bytes) → ¬ (line ≡ b'#' ∷ rest)
  pub key_of : Trims head key
  pub val_of : Trims tail val
  pub keyed : ¬ (key ≡ [])

split_colon-first :
    (head tail : Bytes)
    → All (λ x. (x == b':') ≡ false) head
    → split_colon (head ++ b':' ∷ tail) ≡ some (head, tail)
unfolding split_colon
split_colon-first [] tail h = refl
split_colon-first (c ∷ head) tail h = rw (split_colon-first head tail h.1, h.0) refl

pub split_colon-splits :
    (line head tail : Bytes)
    → split_colon line ≡ some (head, tail)
    → (line ≡ head ++ b':' ∷ tail) × All (λ x. (x == b':') ≡ false) head
unfolding split_colon
split_colon-splits [] head tail e = ground (arith, e)
split_colon-splits (c ∷ s) head tail e = elim (Bool-cases (c == b':')) [
  | inl h ↦ at_colon head tail ((==_iff c b':').0 h) (rw h at e)
  | inr h ↦ elim (Option-cases (split_colon s)) [
    | inl p ↦ cc (rw (h, p) at e)
    | inr ((front, behind), p) ↦
        behind_byte head tail front behind h (split_colon-splits s front behind p) (rw (h, p) at e)
  ]
]
  where
    at_colon :
        (head tail : Bytes)
        → c ≡ b':'
        → ◌≡◌ {A = Option (Bytes × Bytes)} (some ([], s)) (some (head, tail))
        → (c ∷ s ≡ head ++ b':' ∷ tail) × All (λ x. (x == b':') ≡ false) head
    at_colon [] tail h e = (ground (arith, h, e), tt)
    at_colon (x ∷ head) tail h e = ground (arith, e)

    behind_byte :
        (head tail front behind : Bytes)
        → (c == b':') ≡ false
        → (s ≡ front ++ b':' ∷ behind) × All (λ x. (x == b':') ≡ false) front
        → ◌≡◌ {A = Option (Bytes × Bytes)} (some (c ∷ front, behind)) (some (head, tail))
        → (c ∷ s ≡ head ++ b':' ∷ tail) × All (λ x. (x == b':') ≡ false) head
    behind_byte [] tail front behind h k e = ground (arith, e)
    behind_byte (x ∷ head) tail front behind h k e =
        let f : front ≡ head = ground (arith, e) in
        let b : behind ≡ tail = ground (arith, e) in
        let x' : c ≡ x = ground (arith, e) in
        rw (sym x', sym f, sym b) ((ap (λ t. c ∷ t) k.0), (h, k.1))

-- What a line that says something makes the loop do.
pub Says-split :
    (line key val : Bytes)
    → Says line key val
    → (head : Bytes) × (tail : Bytes) × (split_colon line ≡ some (head, tail))
      × (trim head ≡ key)
      × (trim tail ≡ val)
Says-split line key val s = (
  s.head,
  s.tail,
  ap split_colon s.splits ∙ split_colon-first s.head s.tail s.first,
  Trims-trim s.head key s.key_of,
  Trims-trim s.tail val s.val_of,
)

pub Says-is_comment : (line key val : Bytes) → Says line key val → is_comment line ≡ false
Says-is_comment [] key val s = absurd (no_nil s.head s.splits)
  where
    no_nil : (head : Bytes) → ¬ ([] ≡ head ++ b':' ∷ s.tail)
    no_nil [] e = ground (arith, e)
    no_nil (x ∷ head) e = ground (arith, e)
Says-is_comment (c ∷ line) key val s = elim (Bool-cases (c == b'#')) [
  | inl h ↦ absurd (s.no_comment line (ap (λ x. x ∷ line) ((==_iff c b'#').0 h)))
  | inr h ↦ h
]
