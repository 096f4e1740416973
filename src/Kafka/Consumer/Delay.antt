-- ===== src/Kafka/Consumer/Delay.antt =====
-- The delay before a message of a retry topic.
use kafka_nest_playground.Prelude.{
  ℕ, zero, suc, ◌+◌, ◌-◌, ◌*◌, ◌≤◌, ◌<◌, ◌≡◌, refl, Bool, true, List, [], ◌∷◌, length, leb, ◌&&◌,
  min, arith,
}
use kafka_nest_playground.Kafka.Consumer.{waits, delay_with_heartbeat}

abbrev pub sum : List ℕ → ℕ
sum [] = 0
sum (n ∷ ns) = n + sum ns

abbrev pub all_at_most : ℕ → List ℕ → Bool
all_at_most m [] = true
all_at_most m (n ∷ ns) = leb n m && all_at_most m ns

waits_lem :
    (fuel n : ℕ)
    → n ≤ fuel
    → (sum (waits fuel n) ≡ n)
      × (all_at_most 3000 (waits fuel n) ≡ true)
      × (length (waits fuel n) * 3000 < n + 3000)
unfolding waits
waits_lem zero n h = (omega (arith, h), refl, omega (arith, h))
waits_lem (suc fuel) zero h = (refl, refl, omega arith)
waits_lem (suc fuel) (suc n) h =
    let (total, short, count) = waits_lem fuel (suc n - min 3000 (suc n)) (omega (arith, h)) in
    (omega (arith, total), ground (arith, short), omega (arith, count))

-- The delay waits for exactly its milliseconds, at most three seconds before each heartbeat, and with
-- no more heartbeats than that takes.
pub delay_with_heartbeat_lem :
    (delay_ms : ℕ)
    → (sum (delay_with_heartbeat delay_ms) ≡ delay_ms)
      × (all_at_most 3000 (delay_with_heartbeat delay_ms) ≡ true)
      × (length (delay_with_heartbeat delay_ms) * 3000 < delay_ms + 3000)
unfolding delay_with_heartbeat
delay_with_heartbeat_lem delay_ms = waits_lem delay_ms delay_ms (omega arith)
