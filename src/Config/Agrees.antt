-- ===== src/Config/Agrees.antt =====
-- src/config/Config.cpp: the file, the map of the raw texts and the members agree.
use amlp.Base.{◌∙◌, ==_iff, Bool-cases, ap, if◌then◌else◌}
use amlp.Config.Assignments.{assign-nothing, assign-Sets, this, nothing, which}
use amlp.Config.Says.{Lines, lines_of-Lines}
use amlp.Config.Raw.{Last, load_lines-Last}
use mathlib.Core.Path.{subst}
use amlp.Config.Assignments.{Kept, which, Sets}
use amlp.Base.Result.{returned, thrown, Result}
use amlp.Persist.{Error}
use amlp.Config.Settings.{
  place, place_injective, Value, words_differ, value-with_raw, of_all, settings, word, value, Told,
  all_of, Agrees, Setting,
}
use amlp.Base.{
  ◌==◌, sym, codes, same, All, case, ◌≡◌, List, Bytes, Option, [], false, inl, inr, none, refl,
  some, ◌∷◌,
}
use amlp.Config.{
  assign, split_colon, is_comment, trim, with_raw, and_then, ended, lines_of, set_split, Config,
  initial, Loading, load_from_file, load_line, load_lines, set_pair, not_opened, stopped, loaded,
}

Told-raw : (r : Setting) (x : Value) (a b : Option Bytes) → b ≡ a → Told r a x → Told r b x
Told-raw r x a b e h = subst (λ o. Told r o x) (sym e) h

Told-value : (r : Setting) (o : Option Bytes) (x y : Value) → y ≡ x → Told r o x → Told r o y
Told-value r o x y e h = subst (Told r o) (sym e) h

Sets-Agrees :
    (s : Setting) (v : Bytes) (c d : Config)
    → Agrees c
    → Sets s v (with_raw (codes (word s)) v c) (returned d)
    → Agrees d
Sets-Agrees s v c d a t =
    all_of (λ r. Told r (d.raw (codes (word r))) (value r d))
      λ r.
        let w : same (codes (word s)) (codes (word r)) ≡ (place r == place s) =
          of_all (λ r'. same (codes (word s)) (codes (word r')) ≡ (place r' == place s))
            (words_differ s) r in
        let k =
          of_all
            (λ r'.
              Kept (place r' == place s) (value r' (with_raw (codes (word s)) v c)) (value r' d))
            t.1.0 r in
        let q : d.raw (codes (word r))
            ≡ (if same (codes (word s)) (codes (word r)) then some v else c.raw (codes (word r))) =
          ap (λ f. f (codes (word r))) t.1.1 in
        elim (Bool-cases (place r == place s)) [
          | inl h ↦
              let e : r ≡ s = place_injective r s ((==_iff (place r) (place s)).0 h) in
              let raw : d.raw (codes (word r)) ≡ some v = q ∙ rw (w, h) refl in
              Told-raw r (value r d) (some v) (d.raw (codes (word r))) raw
                (subst (λ x. Told x (some v) (value x d)) (sym e) t.0)
          | inr h ↦
              let raw : d.raw (codes (word r)) ≡ c.raw (codes (word r)) = q ∙ rw (w, h) refl in
              let m : value r d ≡ value r c =
                subst (λ b. Kept b (value r c) (value r d)) h
                  (subst (λ x. Kept (place r == place s) x (value r d))
                    (value-with_raw r (codes (word s)) v c) k) in
              Told-raw r (value r d) (c.raw (codes (word r))) (d.raw (codes (word r))) raw (
                Told-value r (c.raw (codes (word r))) (value r c) (value r d) m
                  (of_all (λ r'. Told r' (c.raw (codes (word r'))) (value r' c)) a r))
        ]

with_raw-Agrees :
    (key v : Bytes) (c : Config)
    → Agrees c
    → All (λ s. same key (codes (word s)) ≡ false) settings
    → Agrees (with_raw key v c)
with_raw-Agrees key v c a n =
    all_of (λ r. Told r ((with_raw key v c).raw (codes (word r))) (value r (with_raw key v c)))
      λ r.
        let m : same key (codes (word r)) ≡ false =
          of_all (λ s. same key (codes (word s)) ≡ false) n r in
        rw m (
          Told-value r (c.raw (codes (word r))) (value r c) (value r (with_raw key v c))
            (value-with_raw r key v c)
            (of_all (λ r'. Told r' (c.raw (codes (word r'))) (value r' c)) a r))

-- What was loaded agrees.
abbrev LoadedAgrees : Loading → Type 0
LoadedAgrees not_opened = Unit
LoadedAgrees (stopped e c) = Unit
LoadedAgrees (loaded c) = Agrees c

assigned-Agrees :
    (s : Setting) (v : Bytes) (c : Config) (o : Result Error Config)
    → Agrees c
    → Sets s v (with_raw (codes (word s)) v c) o
    → LoadedAgrees (ended (with_raw (codes (word s)) v c) o)
assigned-Agrees s v c (thrown e) a t = tt
assigned-Agrees s v c (returned d) a t = Sets-Agrees s v c d a t

pair-Agrees :
    (key v : Bytes) (c : Config)
    → Agrees c
    → LoadedAgrees (ended (with_raw key v c) (assign key v (with_raw key v c)))
pair-Agrees key v c a = elim (which key) [
  | this s e ↦
      subst (λ k. LoadedAgrees (ended (with_raw k v c) (assign k v (with_raw k v c)))) (sym e)
        (assigned-Agrees s v c (assign (codes (word s)) v (with_raw (codes (word s)) v c)) a
          (assign-Sets s v (with_raw (codes (word s)) v c)))
  | nothing n ↦ rw (assign-nothing key v (with_raw key v c) n) (with_raw-Agrees key v c a n)
]

set_pair-Agrees : (key v : Bytes) (c : Config) → Agrees c → LoadedAgrees (set_pair key v c)
unfolding set_pair
set_pair-Agrees [] v c a = a
set_pair-Agrees (k ∷ key) v c a = pair-Agrees (k ∷ key) v c a

set_split-Agrees :
    (o : Option (Bytes × Bytes)) (c : Config) → Agrees c → LoadedAgrees (set_split o c)
set_split-Agrees none c a = a
set_split-Agrees (some kv) c a = set_pair-Agrees (trim kv.0) (trim kv.1) c a

load_line-Agrees : (line : Bytes) (c : Config) → Agrees c → LoadedAgrees (load_line line c)
unfolding load_line
load_line-Agrees line c a =
    case LoadedAgrees (is_comment line) (λ _. a) (set_split-Agrees (split_colon line) c a)

after-Agrees :
    (o : Loading) (f : Config → Loading)
    → LoadedAgrees o
    → ((c : Config) → Agrees c → LoadedAgrees (f c))
    → LoadedAgrees (and_then o f)
after-Agrees not_opened f h k = tt
after-Agrees (stopped e c) f h k = tt
after-Agrees (loaded c) f h k = k c h

load_lines-Agrees : (lines : List Bytes) (c : Config) → Agrees c → LoadedAgrees (load_lines lines c)
unfolding load_lines
load_lines-Agrees [] c a = a
load_lines-Agrees (line ∷ lines) c a =
    after-Agrees (load_line line c) (load_lines lines) (load_line-Agrees line c a)
      λ d b. load_lines-Agrees lines d b

initial-Agrees : Agrees initial
initial-Agrees = all_of (λ s. Told s none (value s initial)) λ s. refl

lines-Agrees : (lines : List Bytes) (c : Config) → load_lines lines initial ≡ loaded c → Agrees c
lines-Agrees lines c h = subst LoadedAgrees h (load_lines-Agrees lines initial initial-Agrees)

-- If a text is loaded into a fresh configuration and nothing throws, then each key, known or not, has
-- in the map the trimmed text behind the first colon of the last line that has the key before it,
-- comments left out, or no text if no line has the key; and every setting has the value that its text
-- in the map is read as, or its first value where it has no text.
pub load_from_file-Agrees :
    (file : Bytes) (c : Config)
    → load_from_file (some file) initial ≡ loaded c
    → (lines : List Bytes) × Lines file lines
      × ((key : Bytes) → Last key lines none (c.raw key))
      × Agrees c
unfolding load_from_file
load_from_file-Agrees file c h = (
  lines_of file,
  lines_of-Lines file,
  λ key. load_lines-Last key (lines_of file) initial c h,
  lines-Agrees (lines_of file) c h,
)
