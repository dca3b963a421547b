-- ===== src/Base/Results.antt =====
-- What fallible code returns: a value, or the error it throws or reports.

pub data Result {ℓ κ} (E : Type ℓ) (A : Type κ) : Type (ℓ ⊔ κ) where
  ok : A → Result E A
  err : E → Result E A
