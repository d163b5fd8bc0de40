-- ===== src/Prelude/Result.antt =====
-- Operations that return or raise.
pub data Result {ℓ κ} (E : Type ℓ) (A : Type κ) : Type (ℓ ⊔ κ) where
  ok : A → Result E A
  raise : E → Result E A
