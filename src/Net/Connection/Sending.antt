-- ===== src/Net/Connection/Sending.antt =====
-- src/net/Connection.cpp: the write loop of `send`, over what each call of `::write` gives.
use native.Mathlib.Nat.{zero-add, suc-add}
use amlp.Base.{ℕ, zero, suc, ◌+◌, List, [], ◌∷◌, ◌++◌, ◌≡◌, refl, sym, ap, ◌∙◌, Bytes, take, drop}

-- `wrote n`: the call took `n` bytes.
pub data WriteResult : Type 0 where
  wrote : ℕ → WriteResult
  interrupted failed : WriteResult

-- The bytes written and those left, where the loop ends. A list that ends stands for a failure.
unfoldable pub write_loop : List WriteResult → Bytes → Bytes × Bytes
write_loop _ [] = ([], [])
write_loop [] data_ = ([], data_)
write_loop (interrupted ∷ results) data_ = write_loop results data_
write_loop (failed ∷ _) data_ = ([], data_)
write_loop (wrote zero ∷ _) data_ = ([], data_)
write_loop (wrote (suc n) ∷ results) data_ =
    let (written, left) = write_loop results (drop (suc n) data_) in
    (take (suc n) data_ ++ written, left)

-- What the calls take before one fails or takes nothing.
abbrev pub capacity : List WriteResult → ℕ
capacity [] = 0
capacity (interrupted ∷ results) = capacity results
capacity (failed ∷ _) = 0
capacity (wrote zero ∷ _) = 0
capacity (wrote (suc n) ∷ results) = suc n + capacity results

take-drop-add :
    (n k : ℕ) (xs : Bytes)
    → (take (n + k) xs ≡ take n xs ++ take k (drop n xs)) × (drop (n + k) xs ≡ drop k (drop n xs))
take-drop-add zero k xs = rw zero-add (refl, refl)
take-drop-add (suc n) zero [] = rw suc-add (refl, refl)
take-drop-add (suc n) (suc k) [] = rw suc-add (refl, refl)
take-drop-add (suc n) k (x ∷ xs) =
    rw suc-add (ap (◌∷◌ x) (take-drop-add n k xs).0, (take-drop-add n k xs).1)

take-drop-nil : (n : ℕ) → (take {A = ℕ} n [] ≡ []) × (drop {A = ℕ} n [] ≡ [])
take-drop-nil zero = (refl, refl)
take-drop-nil (suc n) = (refl, refl)

-- The loop writes exactly the first `capacity` bytes of the data, in order, each once, and leaves
-- the others: interrupted calls change nothing, and with capacity for all of it all is written.
pub write_loop-capacity :
    (results : List WriteResult) (data_ : Bytes)
    → write_loop results data_ ≡ (take (capacity results) data_, drop (capacity results) data_)
unfolding write_loop
write_loop-capacity results [] =
    let h = take-drop-nil (capacity results) in λ i. (sym h.0 i, sym h.1 i)
write_loop-capacity [] (b ∷ data_) = refl
write_loop-capacity (interrupted ∷ results) (b ∷ data_) = write_loop-capacity results (b ∷ data_)
write_loop-capacity (failed ∷ results) (b ∷ data_) = refl
write_loop-capacity (wrote zero ∷ results) (b ∷ data_) = refl
write_loop-capacity (wrote (suc n) ∷ results) (b ∷ data_) =
    let h = take-drop-add (suc n) (capacity results) (b ∷ data_) in
    let rest = write_loop-capacity results (drop n data_) in
    ap (λ (r : Bytes × Bytes). (take (suc n) (b ∷ data_) ++ r.0, r.1)) rest ∙ λ i.
    (sym h.0 i, sym h.1 i)
