-- ===== src/Base/Result.antt =====
-- Code that may throw: it has returned a value of `A`, or has thrown one of `E`.
pub data Result {ℓ κ} (E : Type ℓ) (A : Type κ) : Type (ℓ ⊔ κ) where
  thrown : E → Result E A
  returned : A → Result E A

-- The rest of a body, which a throw skips.
infixl 5 ◌>>=◌
abbrev pub ◌>>=◌ {ℓ κ κ'} :
    {E : Type ℓ} {A : Type κ} {B : Type κ'} → Result E A → (A → Result E B) → Result E B
thrown e >>= rest = thrown e
returned a >>= rest = rest a
