-- ===== src/Persist.antt =====
-- src/persist/StateSerializer.cpp: the text of the values in a statedump, and how it is read.
pub mod Values
pub mod Fields
pub mod Restored
pub mod Reading
pub mod RoundTrip
mod Examples
use amlp.Base.{
  ℕ, zero, suc, ◌+◌, ◌-◌, ◌*◌, ◌%◌, ◌^◌, Bool, true, false, List, [], ◌∷◌, ◌++◌, Option, none, some,
  ◌==◌, leb, ltb, if◌then◌else◌, Bytes, length, take, drop, ◌||◌, ◌&&◌,
}
use amlp.Base.Result.{Result, thrown, returned, ◌>>=◌}
use amlp.Base.Decimal.{show, read_digits, is_digit}
use amlp.Base.Int.{ℤ, pos, negsuc}

-- The errors: those of the standard library, `LpcRuntimeError`, and a reading that does not end.
pub data Error : Type 0 where
  invalid_argument out_of_range : Error
  unknown_value_kind wide_mapping unbound_closure object_not_found : Error
  out_of_fuel : Error

-- A value with all that it holds; `D` is the type of the doubles. The flags `isUndefined` and
-- `isClassInstance` stand where they are ever set, at numbers and arrays. The `null_` constructors are
-- null pointers. `unbound` is a closure with `unboundUntilBound` or a lambda body.
mutual
  pub data Value (D : Type 0) : Type 0 where
    void nil : Value D
    int : (is_undefined : Bool) → ℤ → Value D
    real : D → Value D
    string symbol : Bytes → Value D
    object : Option ℕ → Value D
    array : (is_class_instance : Bool) → Items D → Value D
    mapping : ℕ → Entries D → Value D
    closure : (owner : Option ℕ) (force_efun : Bool) (function_name : Bytes) → Items D → Value D
    unbound null_array null_mapping null_closure : Value D
    buffer : Bytes → Value D

  pub data Items (D : Type 0) : Type 0 where
    no_items : Items D
    item : Value D → Items D → Items D

  pub data Entries (D : Type 0) : Type 0 where
    no_entries : Entries D
    entry : Value D → Value D → Entries D → Entries D

module _ {D : Type 0} where
  unfoldable pub item_count : Items D → ℕ
  item_count no_items = 0
  item_count (item v vs) = suc (item_count vs)

  unfoldable pub entry_count : Entries D → ℕ
  entry_count no_entries = 0
  entry_count (entry k v es) = suc (entry_count es)

-- `operator<<` of an `int64_t`.
unfoldable pub show_int : ℤ → Bytes
unfolding show
show_int (pos n) = show n
show_int (negsuc n) = b'-' ∷ show (n + 1)

abbrev pub is_space : ℕ → Bool
is_space c = c == b' ' || (leb b'\t' c && leb c b'\r')

abbrev pub skip_spaces : Bytes → Bytes
skip_spaces [] = []
skip_spaces (c ∷ text) = let rest = skip_spaces text in if is_space c then rest else c ∷ text

abbrev pub starts_with_digit : Bytes → Bool
starts_with_digit [] = false
starts_with_digit (c ∷ _) = is_digit c

-- The digits at the front, of which there is one at least.
unfoldable pub magnitude : Bytes → Result Error ℕ
unfolding read_digits
magnitude text =
    if starts_with_digit text then returned (read_digits 0 text).0 else thrown invalid_argument

abbrev pub in_int64 : ℤ → Bool
in_int64 (pos n) = ltb n (2 ^ 63)
in_int64 (negsuc n) = ltb n (2 ^ 63)

abbrev pub check_int64 : ℤ → Result Error ℤ
check_int64 z = if in_int64 z then returned z else thrown out_of_range

abbrev pub minus : ℕ → ℤ
minus zero = pos 0
minus (suc n) = negsuc n

abbrev pub signed : Bytes → Result Error ℤ
signed [] = thrown invalid_argument
signed (c ∷ text) =
    if c == b'-'
    then (magnitude text >>= λ n. returned (minus n))
    else if c == b'+'
    then (magnitude text >>= λ n. returned (pos n))
    else (magnitude (c ∷ text) >>= λ n. returned (pos n))

-- `std::stoll`
unfoldable pub stoll : Bytes → Result Error ℤ
unfolding magnitude
stoll text = signed (skip_spaces text) >>= check_int64

-- `std::stoi`
unfoldable pub stoi : Bytes → Result Error ℤ
unfolding stoll
stoi text = elim (stoll text) [
  | thrown e ↦ thrown e
  | returned (pos n) ↦ if ltb n (2 ^ 31) then returned (pos n) else thrown out_of_range
  | returned (negsuc n) ↦ if ltb n (2 ^ 31) then returned (negsuc n) else thrown out_of_range
]

-- `std::stoull` negates modulo 2 ^ 64 behind a minus sign.
abbrev pub unsigned : ℤ → Result Error ℕ
unsigned (pos n) = if ltb n (2 ^ 64) then returned n else thrown out_of_range
unsigned (negsuc n) =
    if ltb (n + 1) (2 ^ 64) then returned (2 ^ 64 - (n + 1)) else thrown out_of_range

unfoldable pub stoull : Bytes → Result Error ℕ
unfolding magnitude
stoull text = signed (skip_spaces text) >>= unsigned

-- `s.find(c, pos)`, `s.substr(pos, end - pos)` and `pos = end + 1`: without a delimiter the text is
-- all the rest, and the position wraps around to 0.
unfoldable pub split_field : ℕ → Bytes → Option (Bytes × ℕ)
split_field c [] = none
split_field c (x ∷ text) =
    let later = split_field c text in
    if x == c
    then some ([], 1)
    else elim later [ none ↦ none | some (front, next) ↦ some (x ∷ front, suc next) ]

unfoldable pub field : ℕ → Bytes → ℕ → Result Error (Bytes × ℕ)
unfolding split_field
field c s p = if ltb (length s) p then thrown out_of_range else elim (split_field c (drop p s)) [
  | none ↦ returned (drop p s, 0)
  | some (front, next) ↦ returned (front, p + next)
]

unfoldable pub int_field : ℕ → Bytes → ℕ → Result Error (ℤ × ℕ)
unfolding field stoll
int_field c s p = field c s p >>= λ (text, q). stoll text >>= λ z. returned (z, q)

unfoldable pub size_field : ℕ → Bytes → ℕ → Result Error (ℕ × ℕ)
unfolding field stoull
size_field c s p = field c s p >>= λ (text, q). stoull text >>= λ n. returned (n, q)

-- A size, a colon, and so many bytes; the sum of positions is a `size_t`.
unfoldable pub sized_field : Bytes → ℕ → Result Error (Bytes × ℕ)
unfolding size_field
sized_field s p = size_field b':' s p >>= λ (n, q). returned (take n (drop q s), (q + n) % 2 ^ 64)
