-- ===== src/Common/Results.antt =====
-- `anyhow::Result`: a value, or an error whose text is not modelled.

pub data Result {ℓ} (A : Type ℓ) : Type ℓ where
  ok : A → Result A
  err : Result A
