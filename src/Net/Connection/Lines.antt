-- ===== src/Net/Connection/Lines.antt =====
-- The lines of a text, stated with no buffer, and that `find`, `substr` and `erase` in
-- src/net/Connection.cpp take off the first one.
use mathlib.Core.Option
use amlp.Base.{
  ℕ, ◌+◌, ◌≤◌, Bool, true, false, ◌&&◌, List, [], ◌∷◌, ◌++◌, Option, none, some, ◌≡◌, refl, sym, ap,
  ◌∙◌, inl, inr, Bool-cases, ◌==◌, if◌then◌else◌, Bytes, length, arith, append-nil, append_assoc,
}
use amlp.Net.Connection.Polling.{break_line}

-- The complete lines of a text, and what follows the last newline.
abbrev pub lines_of : Bytes → Bytes → List Bytes
lines_of line [] = []
lines_of line (b ∷ text) =
    if b == b'\n' then line ∷ lines_of [] text else lines_of (line ++ b ∷ []) text

abbrev pub last_line : Bytes → Bytes → Bytes
last_line line [] = line
last_line line (b ∷ text) =
    if b == b'\n' then last_line [] text else last_line (line ++ b ∷ []) text

abbrev pub is_empty : List Bytes → Bool
is_empty [] = true
is_empty (_ ∷ _) = false

pub lines_of-append :
    (a b line : Bytes) → lines_of line (a ++ b) ≡ lines_of line a ++ lines_of (last_line line a) b
lines_of-append [] b line = refl
lines_of-append (x ∷ a) b line =
    ground (arith, lines_of-append a b [], lines_of-append a b (line ++ x ∷ []))

pub last_line-append : (a b line : Bytes) → last_line line (a ++ b) ≡ last_line (last_line line a) b
last_line-append [] b line = refl
last_line-append (x ∷ a) b line =
    ground (arith, last_line-append a b [], last_line-append a b (line ++ x ∷ []))

-- The found line and the rest, against the specification.
abbrev pub Breaks : Bytes → Bytes → Option (Bytes × Bytes) → Type 0
Breaks line text none = (lines_of line text ≡ []) × (last_line line text ≡ line ++ text)
Breaks line text (some (found, rest)) =
    (lines_of line text ≡ (line ++ found) ∷ lines_of [] rest)
    × (last_line line text ≡ last_line [] rest)
    × (length rest + 1 ≤ length text)

Breaks-cons :
    (b : ℕ) (line text : Bytes) (o : Option (Bytes × Bytes))
    → (b == b'\n') ≡ false
    → Breaks (line ++ b ∷ []) text o
    → Breaks line (b ∷ text) (Option.map (λ (l, r). (b ∷ l, r)) o)
Breaks-cons b line text none e h = rw e (h.0, h.1 ∙ append_assoc line (b ∷ []) text)
Breaks-cons b line text (some (found, rest)) e h = rw e (h.0 ∙ rw append_assoc, h.1, omega arith)

pub break_line-Breaks : (text line : Bytes) → Breaks line text (break_line text)
unfolding break_line
break_line-Breaks [] line = (refl, sym (append-nil line))
break_line-Breaks (b ∷ text) line = elim (Bool-cases (b == b'\n')) [
  | inl here ↦ rw here (rw (here, append-nil), rw here, omega arith)
  | inr later ↦ rw later (Breaks-cons b line text _ later (break_line-Breaks text (line ++ b ∷ [])))
]

-- A text with no newline is its own last line.
abbrev pub IsPartial : Bytes → Type 0
IsPartial line = (lines_of [] line ≡ []) × (last_line [] line ≡ line)

IsPartial-concat :
    (line : Bytes) (b : ℕ) → (b == b'\n') ≡ false → IsPartial line → IsPartial (line ++ b ∷ [])
IsPartial-concat line b e h = (
  lines_of-append line (b ∷ []) [] ∙ rw (h.0, h.1, e),
  last_line-append line (b ∷ []) [] ∙ rw (h.1, e),
)

pub last_line-IsPartial : (text line : Bytes) → IsPartial line → IsPartial (last_line line text)
last_line-IsPartial [] line h = h
last_line-IsPartial (b ∷ text) line h = elim (Bool-cases (b == b'\n')) [
  | inl e ↦ rw e (last_line-IsPartial text [] (refl, refl))
  | inr e ↦ rw e (last_line-IsPartial text (line ++ b ∷ []) (IsPartial-concat line b e h))
]

-- Splitting after a partial line has been set aside.
pub lines_of-last_line :
    (a b : Bytes)
    → (lines_of [] (a ++ b) ≡ lines_of [] a ++ lines_of [] (last_line [] a ++ b))
      × (last_line [] (a ++ b) ≡ last_line [] (last_line [] a ++ b))
lines_of-last_line a b =
    let h = last_line-IsPartial a [] (refl, refl) in
    (
      lines_of-append a b []
          ∙ ap (λ t. lines_of [] a ++ t)
              (sym (lines_of-append (last_line [] a) b [] ∙ rw (h.0, h.1))),
      last_line-append a b [] ∙ sym (last_line-append (last_line [] a) b [] ∙ rw h.1),
    )

pub is_empty-append :
    (e : Bool) (xs ys : List Bytes)
    → (e && is_empty (xs ++ ys)) ≡ ((e && is_empty xs) && is_empty ys)
is_empty-append e [] ys = ground arith
is_empty-append e (_ ∷ _) ys = ground arith
