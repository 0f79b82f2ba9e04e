-- ===== src/Object/LivingNames.antt =====
-- src/object/LivingNameRegistry.cpp: the names of living objects.
use amlp.Base.{
  ℕ, Bool, true, false, ◌&&◌, ◌||◌, not, List, [], ◌∷◌, ◌++◌, Option, none, some, ◌==◌,
  if◌then◌else◌, Bytes, same, ◌≡◌, ◌≢◌, refl, ap, arith, Bool-cases, inl, inr, All, same_iff,
  ==_iff, append-nil,
}
use amlp.Object.{LpcObject, Heap}

-- `obj` is the object of the entry's `weak_ptr`.
pub record Entry : Type 0 where
  pub obj : ℕ
  pub name : Bytes

-- `!locked || locked == obj`
unfoldable pub is_stale_or : Heap → ℕ → Entry → Bool
is_stale_or heap obj e = not (heap e.obj).alive || e.obj == obj

unfoldable pub remove : Heap → Option ℕ → List Entry → List Entry
unfolding is_stale_or
remove heap none registry = registry
remove heap (some obj) [] = []
remove heap (some obj) (e ∷ registry) =
    let left = remove heap (some obj) registry in if is_stale_or heap obj e then left else e ∷ left

unfoldable pub set : Heap → Option ℕ → Bytes → List Entry → List Entry
unfolding remove
set heap none name registry = registry
set heap (some obj) name registry =
    remove heap (some obj) registry ++ (record { obj = obj; name = name }) ∷ []

-- The tests of `find`, behind that of the name.
abbrev pub is_findable : Bool → LpcObject → Bool
is_findable require_once_interactive x =
    x.alive
    && not x.destructed
    && (not require_once_interactive || x.ever_interactive)
    && x.commands_enabled

unfoldable pub find : Heap → Bytes → Bool → List Entry → Option ℕ
find heap name require_once_interactive [] = none
find heap name require_once_interactive (e ∷ registry) =
    let later = find heap name require_once_interactive registry in
    if same e.name name && is_findable require_once_interactive (heap e.obj)
    then some e.obj
    else later

unfoldable pub all_with_commands_enabled : Heap → List Entry → List ℕ
all_with_commands_enabled heap [] = []
all_with_commands_enabled heap (e ∷ registry) =
    let later = all_with_commands_enabled heap registry in
    if is_findable false (heap e.obj) then e.obj ∷ later else later

-- The names under which an object is registered.
abbrev pub names_of : ℕ → List Entry → List Bytes
names_of obj [] = []
names_of obj (e ∷ registry) =
    let later = names_of obj registry in if e.obj == obj then e.name ∷ later else later

names_of-append :
    (o : ℕ) (xs ys : List Entry) → names_of o (xs ++ ys) ≡ names_of o xs ++ names_of o ys
names_of-append o [] ys = refl
names_of-append o (x ∷ xs) ys = ground (arith, names_of-append o xs ys)

names_of-remove :
    (heap : Heap) (obj : ℕ) (registry : List Entry)
    → names_of obj (remove heap (some obj) registry) ≡ []
unfolding remove is_stale_or
names_of-remove heap obj [] = refl
names_of-remove heap obj (e ∷ registry) = ground (arith, names_of-remove heap obj registry)

names_of-remove_other :
    (heap : Heap) (obj p : ℕ) (registry : List Entry)
    → p ≢ obj
    → (heap p).alive ≡ true
    → names_of p (remove heap (some obj) registry) ≡ names_of p registry
unfolding remove is_stale_or
names_of-remove_other heap obj p [] n a = refl
names_of-remove_other heap obj p (e ∷ registry) n a =
    let rest = names_of-remove_other heap obj p registry n a in
    elim (Bool-cases (e.obj == p)) [
      | inl h ↦ ground (arith, rest, ap (λ x. (heap x).alive) ((==_iff e.obj p).0 h))
      | inr h ↦ ground (arith, rest)
    ]

-- Naming an object leaves it registered under that name alone, whatever names it had, and leaves
-- every other object that is alive under the names that it had.
pub set-names_of :
    (heap : Heap) (obj p : ℕ) (name : Bytes) (registry : List Entry)
    → p ≢ obj
    → (heap p).alive ≡ true
    → (names_of obj (set heap (some obj) name registry) ≡ name ∷ [])
      × (names_of p (set heap (some obj) name registry) ≡ names_of p registry)
unfolding set
set-names_of heap obj p name registry n a =
    let added : List Entry = (record { obj = obj; name = name }) ∷ [] in
    let left = remove heap (some obj) registry in
    (
      ground (arith, names_of-append obj left added, names_of-remove heap obj registry),
      ground (
        arith,
        names_of-append p left added,
        names_of-remove_other heap obj p registry n a,
        append-nil (names_of p left),
      ),
    )

-- An entry of that name, whose object is alive, not destructed and takes commands, and was once
-- interactive if that is required.
pub record Answers (heap : Heap) (name : Bytes) (once : Bool) (e : Entry) : Type 0 where
  pub named : e.name ≡ name
  pub alive : (heap e.obj).alive ≡ true
  pub standing : (heap e.obj).destructed ≡ false
  pub commands : (heap e.obj).commands_enabled ≡ true
  pub interactive : once ≡ true → (heap e.obj).ever_interactive ≡ true

-- The outcome of a search: the first entry that answers, or none and there is none.
pub data Finds (heap : Heap) (name : Bytes) (once : Bool) : List Entry → Option ℕ → Type 0 where
  absent :
      {registry : List Entry}
      → All (λ e. Answers heap name once e → ⊥) registry
      → Finds heap name once registry none
  present :
      (before after : List Entry) {e : Entry}
      → All (λ e. Answers heap name once e → ⊥) before
      → Answers heap name once e
      → Finds heap name once (before ++ e ∷ after) (some e.obj)

Finds-later :
    (heap : Heap) (name : Bytes) (once : Bool) (e : Entry) {registry : List Entry} {o : Option ℕ}
    → (Answers heap name once e → ⊥)
    → Finds heap name once registry o
    → Finds heap name once (e ∷ registry) o
Finds-later heap name once e n (absent h) = absent (n, h)
Finds-later heap name once e n (present before after h k) = present (e ∷ before) after (n, h) k

findable :
    (heap : Heap) (name : Bytes) (once : Bool) (e : Entry)
    → Answers heap name once e
    → is_findable once (heap e.obj) ≡ true
findable heap name true e k = ground (arith, k.alive, k.standing, k.commands, k.interactive refl)
findable heap name false e k = ground (arith, k.alive, k.standing, k.commands)

-- A search by name gives the first registered object of that name that is alive, not destructed,
-- takes commands, and was once interactive if that is required; it gives none only if there is none.
pub find-Finds :
    (heap : Heap) (name : Bytes) (once : Bool) (registry : List Entry)
    → Finds heap name once registry (find heap name once registry)
unfolding find
find-Finds heap name once [] = absent tt
find-Finds heap name once (e ∷ registry) =
    elim (Bool-cases (same e.name name && is_findable once (heap e.obj))) [
      | inl h ↦ rw h (
          present [] registry tt (record {
            named = ground (arith, h, same_iff e.name name);
            alive = ground (arith, h);
            standing = ground (arith, h);
            commands = ground (arith, h);
            interactive = λ k. ground (arith, h, k);
          }))
      | inr h ↦ rw h (
          Finds-later heap name once e
            (λ k.
              absurd
                (ground (arith, h, k.named, findable heap name once e k, same_iff e.name name)))
            (find-Finds heap name once registry))
    ]
