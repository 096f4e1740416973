-- ===== src/Outbox/Store/Backoff.antt =====
-- The delays between the attempts to publish a row.
use kafka_nest_playground.Prelude.{
  ℕ, zero, suc, ◌+◌, ◌-◌, ◌*◌, ◌^◌, ◌≤◌, min, ◌≡◌, refl, ap, ◌∙◌, arith,
}
use kafka_nest_playground.Outbox.Store.{retry_delay_ms}

power_pos : (n : ℕ) → 1 ≤ 2 ^ n
power_pos zero = omega arith
power_pos (suc n) = omega (arith, power_pos n)

retry_delay_ms-suc : (n : ℕ) → retry_delay_ms (suc n) ≡ min 30000 (1000 * 2 ^ n)
unfolding retry_delay_ms
retry_delay_ms-suc n = ap (λ k. min 30000 (1000 * 2 ^ k)) {x = suc n - 1} {y = n} (omega arith)

power_suc : (m : ℕ) → 2 ^ suc m ≡ 2 * 2 ^ m
power_suc m = omega arith

power_plus5 : (n : ℕ) → 2 ^ (n + 5) ≡ 32 * 2 ^ n
power_plus5 zero = refl
power_plus5 (suc n) =
    let e : 2 ^ (suc n + 5) ≡ 2 * 2 ^ (n + 5) =
      ap (λ k. 2 ^ k) {x = suc n + 5} {y = suc (n + 5)} (omega arith) ∙ power_suc (n + 5) in
    omega (arith, e, power_plus5 n)

-- The retry delay lies between one second and thirty, never shrinks from one attempt to the next,
-- and is thirty seconds from the sixth attempt on.
retry_delay_ms-bounds :
    (n : ℕ)
    → (1000 ≤ retry_delay_ms n)
      × (retry_delay_ms n ≤ 30000)
      × (retry_delay_ms n ≤ retry_delay_ms (suc n))
      × (retry_delay_ms (n + 6) ≡ 30000)
retry_delay_ms-bounds zero = unfold retry_delay_ms in (omega arith, omega arith, omega arith, refl)
retry_delay_ms-bounds (suc n) =
    let p = power_pos n in
    let d0 = retry_delay_ms-suc n in
    let d1 = retry_delay_ms-suc (suc n) in
    let d6 : retry_delay_ms (suc n + 6) ≡ min 30000 (1000 * 2 ^ (n + 6)) =
      ap retry_delay_ms {x = suc n + 6} {y = suc (n + 6)} (omega arith)
      ∙ retry_delay_ms-suc (n + 6) in
    let q = power_plus5 (suc n) in
    let r : 2 ^ (n + 6) ≡ 2 ^ (suc n + 5) =
      ap (λ k. 2 ^ k) {x = n + 6} {y = suc n + 5} (omega arith) in
    (
      omega (arith, p, d0),
      omega (arith, p, d0),
      omega (arith, p, d0, d1),
      omega (arith, p, d6, q, r),
    )
