-- ===== src/Sensor/Combination/Pairs.antt =====
-- The values of two sensors in one.
use vfuzz.Prelude.{ℕ, ◌/◌, ◌%◌, ◌^◌, ◌≡◌, arith}
use vfuzz.Codec.Words.{IsU64}
use vfuzz.Sensor.Combination.{final_value}

-- The paired value fits in 64 bits, and has the lowest 32 bits of the two values, the first one's
-- above.
final_value-split :
    (a b : ℕ)
    → (final_value a b / 2 ^ 32 ≡ a % 2 ^ 32)
      × (final_value a b % 2 ^ 32 ≡ b % 2 ^ 32)
      × IsU64 (final_value a b)
unfolding final_value
final_value-split a b = (omega arith, omega arith, omega arith)
