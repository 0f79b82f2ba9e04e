-- ===== src/Base/Decimal.antt =====
-- `std::to_string` and `operator<<` of a non-negative integer, and the digits that `std::stoll` and
-- `std::stoull` read.
use amlp.Base.Lists.{Bytes, length, length-append}
use amlp.Base.Tests.{ltb, leb, if◌then◌else◌, Bool-cases, ltb→lt}
use Prim.Native.Nat.{ℕ, zero, suc, ◌+◌, ◌-◌, ◌*◌, ◌/◌, ◌%◌, ◌<◌, ◌≤◌}
use mathlib.Core.Path.{◌≡◌, refl, ap, ◌∙◌}
use mathlib.Core.Bool.{Bool, true, false, ◌&&◌}
use mathlib.Core.List.{[], ◌∷◌, ◌++◌}
use mathlib.Core.Logic.{inl, inr}
use native.Mathlib.Omega.{arith}

abbrev pub is_digit : ℕ → Bool
is_digit c = leb b'0' c && leb c b'9'

show_fuel : ℕ → ℕ → Bytes
show_fuel zero n = []
show_fuel (suc fuel) n =
    let front = show_fuel fuel (n / 10) in
    if ltb n 10 then (b'0' + n) ∷ [] else front ++ (b'0' + n % 10) ∷ []

-- A number has no more digits than its value and one.
unfoldable pub show : ℕ → Bytes
unfolding show_fuel
show n = show_fuel (n + 1) n

-- The digits at the front of a text, as a number, and the rest.
unfoldable pub read_digits : ℕ → Bytes → ℕ × Bytes
read_digits acc [] = (acc, [])
read_digits acc (c ∷ text) =
    let more = read_digits (acc * 10 + (c - b'0')) text in
    if is_digit c then more else (acc, c ∷ text)

-- No digit stands at the front.
abbrev pub StartsNoDigit : Bytes → Type 0
StartsNoDigit [] = Unit
StartsNoDigit (c ∷ _) = is_digit c ≡ false

read_digits-stop :
    (acc : ℕ) (rest : Bytes) → StartsNoDigit rest → read_digits acc rest ≡ (acc, rest)
unfolding read_digits
read_digits-stop acc [] h = refl
read_digits-stop acc (c ∷ rest) h = ground arith

abbrev pub IsDigits : Bytes → Type 0
IsDigits [] = Unit
IsDigits (c ∷ cs) = (is_digit c ≡ true) × IsDigits cs

-- Reading on: the digits of `n`, `k` of them, shift what was read.
abbrev value_of : ℕ → Bytes → ℕ
value_of acc [] = acc
value_of acc (c ∷ cs) = value_of (acc * 10 + (c - b'0')) cs

read_digits-value :
    (ds rest : Bytes) (acc : ℕ)
    → IsDigits ds
    → StartsNoDigit rest
    → read_digits acc (ds ++ rest) ≡ (value_of acc ds, rest)
unfolding read_digits
read_digits-value [] rest acc d h = read_digits-stop acc rest h
read_digits-value (c ∷ ds) rest acc d h =
    ground (arith, read_digits-value ds rest (acc * 10 + (c - b'0')) d.1 h)

value_of-append :
    (xs ys : Bytes) (acc : ℕ) → value_of acc (xs ++ ys) ≡ value_of (value_of acc xs) ys
value_of-append [] ys acc = refl
value_of-append (x ∷ xs) ys acc = value_of-append xs ys (acc * 10 + (x - b'0'))

IsDigits-append : (xs ys : Bytes) → IsDigits xs → IsDigits ys → IsDigits (xs ++ ys)
IsDigits-append [] ys h k = k
IsDigits-append (x ∷ xs) ys h k = (h.0, IsDigits-append xs ys h.1 k)

digit-is_digit : (k : ℕ) → k < 10 → is_digit (b'0' + k) ≡ true
digit-is_digit k h = ground arith

show_fuel-IsDigits : (fuel n : ℕ) → IsDigits (show_fuel fuel n)
unfolding show_fuel
show_fuel-IsDigits zero n = tt
show_fuel-IsDigits (suc fuel) n = elim (Bool-cases (ltb n 10)) [
  | inl h ↦ rw h (digit-is_digit n (ltb→lt n 10 h), tt)
  | inr h ↦ rw h (
      IsDigits-append (show_fuel fuel (n / 10)) _ (show_fuel-IsDigits fuel (n / 10))
        (digit-is_digit (n % 10) (omega arith), tt))
]

ltb→le : (a b : ℕ) → ltb a b ≡ false → b ≤ a
ltb→le a b h = ground arith

show_fuel-value : (fuel n : ℕ) → n < fuel → value_of 0 (show_fuel fuel n) ≡ n
unfolding show_fuel
show_fuel-value zero n h = absurd (omega arith)
show_fuel-value (suc fuel) n h = elim (Bool-cases (ltb n 10)) [
  | inl e ↦ rw e (omega arith)
  | inr e ↦ rw e (
      value_of-append (show_fuel fuel (n / 10)) _ 0
      ∙ omega (arith, ltb→le n 10 e, show_fuel-value fuel (n / 10)))
]

show_fuel_pos : (fuel n : ℕ) → 0 < fuel → 0 < length (show_fuel fuel n)
unfolding show_fuel
show_fuel_pos zero n h = elim h [ ]
show_fuel_pos (suc fuel) n h =
    ground (arith, length-append (show_fuel fuel (n / 10)) ((b'0' + n % 10) ∷ []))

-- A number is printed in digits, one at least.
pub show-IsDigits : (n : ℕ) → IsDigits (show n) × (0 < length (show n))
unfolding show
show-IsDigits n = (show_fuel-IsDigits (n + 1) n, show_fuel_pos (n + 1) n (omega arith))

-- What is printed is read back, whatever follows that is no digit.
pub read_digits-show :
    (n : ℕ) (rest : Bytes) → StartsNoDigit rest → read_digits 0 (show n ++ rest) ≡ (n, rest)
unfolding show
read_digits-show n rest h =
    read_digits-value (show_fuel (n + 1) n) rest 0 (show_fuel-IsDigits (n + 1) n) h
    ∙ ap (λ k. (k, rest)) (show_fuel-value (n + 1) n (omega arith))
