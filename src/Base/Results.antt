-- ===== src/Base/Results.antt =====
-- `Result` of the source.

pub data Result {ℓ} (E A : Type ℓ) : Type ℓ where
  ok : A → Result E A
  err : E → Result E A
