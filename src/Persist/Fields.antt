-- ===== src/Persist/Fields.antt =====
-- src/persist/StateSerializer.cpp: the fields of the format are read back as they are written.
use amlp.Base.{
  ℕ, zero, suc, ◌+◌, ◌-◌, ◌%◌, ◌^◌, ◌<◌, true, false, List, [], ◌∷◌, ◌++◌, some, ◌==◌, ltb, Bytes,
  length, drop, ◌≡◌, refl, sym, ap, ◌∙◌, arith, All, length-append, length-drop, append-nil,
  append_assoc, take-append, ==_refl, drop-append,
}
use amlp.Base.Result.{returned, ◌>>=◌}
use amlp.Base.Decimal.{show, read_digits, is_digit, IsDigits, show-IsDigits, read_digits-show}
use amlp.Base.Int.{ℤ, pos, negsuc}
use amlp.Persist.{
  show_int, skip_spaces, starts_with_digit, magnitude, in_int64, minus, signed, check_int64, stoll,
  unsigned, stoull, split_field, field, int_field, size_field, sized_field,
}

digits-skip_spaces : (ds : Bytes) → IsDigits ds → skip_spaces ds ≡ ds
digits-skip_spaces [] h = refl
digits-skip_spaces (c ∷ ds) h = ground arith

digits-start : (ds : Bytes) → IsDigits ds → 0 < length ds → starts_with_digit ds ≡ true
digits-start [] h k = absurd (omega arith)
digits-start (c ∷ ds) h k = h.0

digits-signed :
    (ds : Bytes)
    → IsDigits ds
    → 0 < length ds
    → signed ds ≡ (magnitude ds >>= λ n. returned (pos n))
digits-signed [] h k = absurd (omega arith)
digits-signed (c ∷ ds) h k = ground (arith, h.0)

magnitude-show : (n : ℕ) → magnitude (show n) ≡ returned n
unfolding magnitude
magnitude-show n =
    let d = show-IsDigits n in
    rw (digits-start (show n) d.0 d.1) (
      ap (λ text. returned (read_digits 0 text).0) (sym (append-nil (show n)))
      ∙ ap (λ r. returned r.0) (read_digits-show n [] tt))

signed-show : (n : ℕ) → signed (skip_spaces (show n)) ≡ returned (pos n)
signed-show n =
    let d = show-IsDigits n in
    ap signed (digits-skip_spaces (show n) d.0)
    ∙ digits-signed (show n) d.0 d.1
    ∙ ap (λ r. r >>= λ k. returned (pos k)) (magnitude-show n)

succ : (n : ℕ) → n + 1 ≡ suc n
succ n = omega arith

stoll-show_int : (z : ℤ) → in_int64 z ≡ true → stoll (show_int z) ≡ returned z
unfolding stoll show_int
stoll-show_int (pos n) h = ap (λ r. r >>= check_int64) (signed-show n) ∙ ground arith
stoll-show_int (negsuc n) h =
    ap (λ r. (r >>= λ k. returned (minus k)) >>= check_int64) (magnitude-show (n + 1))
    ∙ ap (λ k. check_int64 (minus k)) (succ n)
    ∙ ground arith

stoull-show : (n : ℕ) → n < 2 ^ 63 → stoull (show n) ≡ returned n
unfolding stoull
stoull-show n h = ap (λ r. r >>= unsigned) (signed-show n) ∙ ground arith

-- A text without the delimiter.
abbrev pub IsFree : ℕ → Bytes → Type 0
IsFree c text = All (λ x. (x == c) ≡ false) text

split_field-free :
    (c : ℕ) (front after : Bytes)
    → IsFree c front
    → split_field c (front ++ c ∷ after) ≡ some (front, suc (length front))
unfolding split_field
split_field-free c [] after h = rw (==_refl c) refl
split_field-free c (x ∷ front) after h = rw (split_field-free c front after h.1, h.0) refl

pub field-free :
    (c p : ℕ) (s front after : Bytes)
    → drop p s ≡ front ++ c ∷ after
    → IsFree c front
    → field c s p ≡ returned (front, p + suc (length front))
unfolding field
field-free c p s front after h k =
    let inside : ltb (length s) p ≡ false =
      ground (arith, length-drop p s, ap length h, length-append front (c ∷ after)) in
    rw (inside, h, split_field-free c front after k) refl

digits-IsFree : (c : ℕ) (ds : Bytes) → is_digit c ≡ false → IsDigits ds → IsFree c ds
digits-IsFree c [] h k = tt
digits-IsFree c (d ∷ ds) h k = (ground (arith, h, k.0), digits-IsFree c ds h k.1)

show_int-IsFree : (z : ℤ) → IsFree b';' (show_int z)
unfolding show_int
show_int-IsFree (pos n) = digits-IsFree b';' (show n) refl (show-IsDigits n).0
show_int-IsFree (negsuc n) =
    (refl, digits-IsFree b';' (show (n + 1)) refl (show-IsDigits (n + 1)).0)

pub int_field-show :
    (p : ℕ) (s after : Bytes) (z : ℤ)
    → drop p s ≡ show_int z ++ b';' ∷ after
    → in_int64 z ≡ true
    → int_field b';' s p ≡ returned (z, p + suc (length (show_int z)))
unfolding int_field
int_field-show p s after z h k =
    rw (field-free b';' p s (show_int z) after h (show_int-IsFree z), stoll-show_int z k) refl

pub size_field-show :
    (c p n : ℕ) (s after : Bytes)
    → is_digit c ≡ false
    → drop p s ≡ show n ++ c ∷ after
    → n < 2 ^ 63
    → size_field c s p ≡ returned (n, p + suc (length (show n)))
unfolding size_field
size_field-show c p n s after e h k =
    rw
      (
        field-free c p s (show n) after h (digits-IsFree c (show n) e (show-IsDigits n).0),
        stoull-show n k,
      )
      refl

drop-nil {ℓ} : {A : Type ℓ} (n : ℕ) → drop {A = A} n [] ≡ []
drop-nil zero = refl
drop-nil (suc n) = refl

drop-add {ℓ} : {A : Type ℓ} (p q : ℕ) (s : List A) → drop (p + q) s ≡ drop q (drop p s)
drop-add zero q s = ap (λ n. drop n s) (plus q)
  where
    plus : (q : ℕ) → 0 + q ≡ q
    plus q = omega arith
drop-add (suc p) q [] = drop-nil (suc p + q) ∙ sym (drop-nil q)
drop-add (suc p) q (x ∷ s) =
    let moved : suc p + q ≡ suc (p + q) = omega arith in
    ap (λ n. drop n (x ∷ s)) moved ∙ drop-add p q s

-- Behind a part of a text that was read.
pub drop-behind :
    (p : ℕ) (s front after : Bytes) → drop p s ≡ front ++ after → drop (p + length front) s ≡ after
drop-behind p s front after h =
    drop-add p (length front) s ∙ ap (drop (length front)) h ∙ drop-append front after

-- Behind a field and its delimiter.
pub drop-field :
    (c p : ℕ) (s front after : Bytes)
    → drop p s ≡ front ++ c ∷ after
    → drop (p + suc (length front)) s ≡ after
drop-field c p s front after h =
    let size : length (front ++ c ∷ []) ≡ suc (length front) =
      length-append front (c ∷ []) ∙ omega arith in
    ap (λ n. drop (p + n) s) (sym size)
    ∙ drop-behind p s (front ++ c ∷ []) after (h ∙ sym (append_assoc front (c ∷ []) after))

pub sized_field-show :
    (p : ℕ) (s text after : Bytes)
    → drop p s ≡ show (length text) ++ b':' ∷ (text ++ after)
    → length s < 2 ^ 63
    → sized_field s p ≡ returned (text, p + (suc (length (show (length text))) + length text))
unfolding sized_field
sized_field-show p s text after h k =
    let digits = show (length text) in
    let q = p + suc (length digits) in
    let all : length digits + suc (length text + length after) ≡ length s - p = omega (
      arith,
      length-drop p s,
      ap length h,
      length-append digits (b':' ∷ (text ++ after)),
      length-append text after,
    ) in
    let behind = drop-field b':' p s digits (text ++ after) h in
    let fits : (q + length text) % 2 ^ 64 ≡ p + (suc (length digits) + length text) =
      omega (arith, all, k) in
    rw
      (
        size_field-show b':' p (length text) s (text ++ after) refl h (omega (arith, all, k)),
        behind,
        take-append text after,
        fits,
      )
      refl

pub drop-sized :
    (p : ℕ) (s text after : Bytes)
    → drop p s ≡ show (length text) ++ b':' ∷ (text ++ after)
    → drop (p + (suc (length (show (length text))) + length text)) s ≡ after
drop-sized p s text after h =
    let digits = show (length text) in
    let split : p + (suc (length digits) + length text) ≡ p + suc (length digits) + length text =
      omega arith in
    ap (λ n. drop n s) split
    ∙ drop-behind (p + suc (length digits)) s text after
        (drop-field b':' p s digits (text ++ after) h)
