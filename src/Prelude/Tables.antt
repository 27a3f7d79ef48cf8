-- ===== src/Prelude/Tables.antt =====
-- Checking a test at every number below a bound by evaluation.
use chatwca.Prelude.{Bool, ap, arith, if◌then◌else◌, inl, inr, suc, true, zero, ℕ, ◌<◌, ◌≡◌, ◌⊎◌}

-- The number of values below the bound that fail the test.
unfoldable pub failures : (ℕ → Bool) → ℕ → ℕ
failures test zero = 0
failures test (suc bound) = let rest = failures test bound in if test bound then rest else suc rest

order_cases : (value bound : ℕ) → (value < bound) ⊎ ((bound < value) ⊎ (value ≡ bound))
order_cases value bound = ground arith

pub failures_none :
    (test : ℕ → Bool) (value bound : ℕ)
    → value < bound
    → failures test bound ≡ 0
    → test value ≡ true
unfolding failures
failures_none test value zero below none_fail = absurd (omega arith)
failures_none test value (suc bound) below none_fail = elim (order_cases value bound) [
  | inl before ↦ failures_none test value bound before (ground arith)
  | inr (inl after) ↦ absurd (omega arith)
  | inr (inr last) ↦ ground (arith, ap test last)
]
