-- ===== src/AutoDict.antt =====
-- libvfuzz-core/src/dictionary/autodict.h and autodict.cpp: the tables of recent compares, of 4 and
-- of 8 bytes, and the chunk drawn from them.
pub mod Compares
use vfuzz.Prelude.{
  ℕ, zero, suc, ◌+◌, ◌*◌, ◌/◌, ◌%◌, ◌^◌, Bool, true, false, List, [], ◌∷◌, set, nth, replicate,
  Result, ok, ◌==◌, if◌then◌else◌,
}
use vfuzz.Codec.Words.{Chunk}
use vfuzz.Util.Rand.{draw}
use vfuzz.Util.World.{World, M, ◌>>=◌, pure, run, get_bool, with_rand}

-- TableOfRecentCompares<T, 32>: the pairs A and B
abbrev pub Table : Type 0
Table = List (ℕ × ℕ)

-- TORC4 and TORC8, which are static
pub record AutoDict : Type 0 where
  pub torc4 : Table
  pub torc8 : Table

-- `= {}`
abbrev pub new : AutoDict
new = record { torc4 = replicate 32 (0, 0); torc8 = replicate 32 (0, 0) }

-- The exclusive or of the lowest bits.
unfoldable pub xor : ℕ → ℕ → ℕ → ℕ
xor zero a b = 0
xor (suc bits) a b = (a % 2 + b % 2) % 2 + 2 * xor bits (a / 2) (b / 2)

-- TableOfRecentCompares::Insert
unfoldable pub insert : ℕ → ℕ → ℕ → Table → Table
insert index a b t = set t (index % 32) (a, b)

-- InsertTorc, whose arguments are converted to the table's type
unfoldable pub insert_torc : ℕ → ℕ → ℕ → AutoDict → AutoDict
unfolding xor insert
insert_torc a b len d =
    let index = xor 64 a b in
    if len == 4
    then record d { torc4 = insert index (a % 2 ^ 32) (b % 2 ^ 32) d.torc4 }
    else if len == 8
    then record d { torc8 = insert index (a % 2 ^ 64) (b % 2 ^ 64) d.torc8 }
    else d

-- `Chunk(&val, &val + 1)`, a range of one number, each converted to a byte
abbrev pub chunk_of : ℕ → Chunk
chunk_of value = value % 256 ∷ []

-- GetRandom past the choice of the table
unfoldable pub get_from : Table → M Chunk
get_from t = do
  n ← with_rand draw
  (a, b) ← run (nth t (n % 32))
  first ← get_bool
  pure (chunk_of (if first then a else b))

-- GetRandom
unfoldable pub get_random : AutoDict → M Chunk
unfolding get_from
get_random d = do four ← get_bool; get_from (if four then d.torc4 else d.torc8)
