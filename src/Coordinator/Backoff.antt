-- ===== src/Coordinator/Backoff.antt =====
-- The backoff of src/coordinator.rs.
use mpris_chroma.Prelude.{ℕ, zero, suc, ◌+◌, ◌-◌, ◌*◌, ◌^◌, ◌≤◌, ◌≡◌, arith, min, ltb, if_cases}
use native.Mathlib.Nat.{pow-suc}
use native.Mathlib.Numerals.{towards_suc}
use mpris_chroma.Coordinator.{backoff_factor, capped_delay_ms, retry_base_ms, retry_cap_ms, u64_max}

pow_pos : (k : ℕ) → 1 ≤ 2 ^ k
pow_pos zero = omega arith
pow_pos (suc k) = omega (arith, pow_pos k, pow-suc 2 k)

pow_split : (k : ℕ) → 2 ^ (k + 5) ≡ 32 * 2 ^ k
pow_split k = simp towards_suc (omega arith)

large_pow : (k : ℕ) → 32 ≤ 2 ^ (k + 5)
large_pow k = omega (arith, pow_split k, pow_pos k)

-- In spite of the checked shift and the saturating product, the delay before the jitter is the
-- documented `min(1000 * 2^(n-1), 30000)` at every attempt, so it never passes the cap.
pub capped_delay_ms-exact :
    (attempt : ℕ)
    → (capped_delay_ms attempt ≡ min (retry_base_ms * 2 ^ (attempt - 1)) retry_cap_ms)
      × (capped_delay_ms attempt ≤ retry_cap_ms)
unfolding capped_delay_ms backoff_factor
capped_delay_ms-exact attempt =
    if_cases
      (λ factor.
        (min (min (retry_base_ms * factor) u64_max) retry_cap_ms
          ≡ min (retry_base_ms * 2 ^ (attempt - 1)) retry_cap_ms)
        × (min (min (retry_base_ms * factor) u64_max) retry_cap_ms ≤ retry_cap_ms))
      (ltb (attempt - 1) 64) _ _ (λ small. (omega arith, omega arith))
      (λ big.
        let k = attempt - 6 in
        let e : attempt - 1 ≡ k + 5 = ground arith in
        rw e (omega (arith, large_pow k), omega arith))
