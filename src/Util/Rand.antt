-- ===== src/Util/Rand.antt =====
-- util::Random of libvfuzz-core/src/util/random.h. The engine is std::minstd_rand0, of which the
-- model keeps only that it is a sequence of numbers: `tape n` is what its n-th call returns. What
-- is proved holds for every tape.
use vfuzz.Prelude.{ℕ, ◌+◌, ◌-◌, ◌%◌, ◌^◌, ◌≤◌, ◌<◌, Bool, if◌then◌else◌, ◌==◌, arith}

pub record Rand : Type 0 where
  pub tape : ℕ → ℕ
  pub at : ℕ

-- Get(void)
unfoldable pub draw : Rand → ℕ × Rand
draw r = (r.tape r.at, record r { at = r.at + 1 })

-- Get(size_t n), which leaves the engine alone for 0
unfoldable pub below : ℕ → Rand → ℕ × Rand
unfolding draw
below n r = if n == 0 then (0, r) else let (x, r') = draw r in (x % n, r')

-- Get(intptr_t From, intptr_t To), on the bit patterns of its arguments
unfoldable pub between : ℕ → ℕ → Rand → ℕ × Rand
unfolding below
between from to r =
    let size = (to + 2 ^ 64 - from + 1) % 2 ^ 64 in
    let (x, r') = below size r in ((x + from) % 2 ^ 64, r')

-- RandBool() == true
unfoldable pub rand_bool : Rand → Bool × Rand
unfolding draw
rand_bool r = let (x, r') = draw r in (x % 2 == 1, r')

-- `Get(n)` lies below `n`, unless `n` is 0.
pub below_lt : (n : ℕ) (r : Rand) → 0 < n → (below n r).0 < n
unfolding below
below_lt n r h = ground arith

-- `Get(n + 1)` is at most `n`, also where the sum wraps to 0.
pub below_wrapped : (n : ℕ) (r : Rand) → (below ((n + 1) % 2 ^ 64) r).0 ≤ n
unfolding below
below_wrapped n r = ground arith

pub below_le : (n : ℕ) (r : Rand) → (below n r).0 ≤ n
unfolding below
below_le n r = ground arith

-- On a range that does not wrap, `Get(From, To)` lies in it.
pub between_bounds :
    (from to : ℕ) (r : Rand)
    → from ≤ to
    → to < 2 ^ 64 - 1
    → (from ≤ (between from to r).0) × ((between from to r).0 ≤ to)
unfolding between
between_bounds from to r h fits = ground arith
