-- ===== src/Codec/Words.antt =====
-- A uint64_t as eight bytes, lowest first.
use native.Mathlib.Nat.{pow-suc}
use vfuzz.Prelude.{
  ℕ, zero, suc, ◌+◌, ◌*◌, ◌/◌, ◌%◌, ◌^◌, ◌<◌, ◌≡◌, refl, ap, List, [], ◌∷◌, length, All, arith,
}

-- std::vector<uint8_t>
abbrev pub Chunk : Type 0
Chunk = List ℕ

abbrev pub IsByte : ℕ → Type 0
IsByte b = b < 256

abbrev pub IsU64 : ℕ → Type 0
IsU64 v = v < 2 ^ 64

-- The lowest `k` bytes of a number.
unfoldable pub le_bytes : ℕ → ℕ → Chunk
le_bytes zero v = []
le_bytes (suc k) v = (v % 256) ∷ le_bytes k (v / 256)

unfoldable pub of_le : Chunk → ℕ
of_le [] = 0
of_le (b ∷ bs) = b + 256 * of_le bs

-- The bytes that memcpy takes from a uint64_t variable.
abbrev pub u64 : ℕ → Chunk
u64 v = le_bytes 8 v

pub length-le_bytes : (k v : ℕ) → length (le_bytes k v) ≡ k
unfolding le_bytes
length-le_bytes zero v = refl
length-le_bytes (suc k) v = ap suc (length-le_bytes k (v / 256))

pub le_bytes-IsByte : (k v : ℕ) → All IsByte (le_bytes k v)
unfolding le_bytes
le_bytes-IsByte zero v = tt
le_bytes-IsByte (suc k) v = (omega arith, le_bytes-IsByte k (v / 256))

of_le-le_bytes : (k v : ℕ) → v < 256 ^ k → of_le (le_bytes k v) ≡ v
unfolding le_bytes of_le
of_le-le_bytes zero v h = omega arith
of_le-le_bytes (suc k) v h =
    let bound : v < 256 ^ k * 256 = rw (pow-suc 256 k) at h in
    omega (arith, of_le-le_bytes k (v / 256) (omega arith))

pub of_le-u64 : (v : ℕ) → IsU64 v → of_le (u64 v) ≡ v
of_le-u64 v h = of_le-le_bytes 8 v h

of_le_bound : (bs : Chunk) → All IsByte bs → of_le bs < 256 ^ length bs
unfolding of_le
of_le_bound [] h = omega arith
of_le_bound (b ∷ bs) h = rw (pow-suc 256 (length bs)) (omega (arith, of_le_bound bs h.1, h.0))

pub of_le-IsU64 : (bs : Chunk) → length bs ≡ 8 → All IsByte bs → IsU64 (of_le bs)
of_le-IsU64 bs e h = rw e at (of_le_bound bs h)

le_bytes-of_le : (bs : Chunk) → All IsByte bs → le_bytes (length bs) (of_le bs) ≡ bs
unfolding le_bytes of_le
le_bytes-of_le [] h = refl
le_bytes-of_le (b ∷ bs) h =
    let low : (b + 256 * of_le bs) % 256 ≡ b = omega arith in
    let high : (b + 256 * of_le bs) / 256 ≡ of_le bs = omega arith in
    rw (low, high) (ap (◌∷◌ b) (le_bytes-of_le bs h.1))

pub u64-of_le : (bs : Chunk) → length bs ≡ 8 → All IsByte bs → u64 (of_le bs) ≡ bs
u64-of_le bs e h = rw e at (le_bytes-of_le bs h)
