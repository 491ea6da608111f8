-- ===== src/Mutator/Base.antt =====
-- mutator::Base of libvfuzz-core/src/mutator/base.h and base.cpp: random positions and ranges, and
-- the two ways to bring a part of one chunk into another.
pub mod Parts
pub mod Inserting
use vfuzz.Prelude.{
  ℕ, ◌+◌, ◌-◌, ◌++◌, Bool, true, false, List, [], ◌∷◌, length, replicate, min, leb, if◌then◌else◌,
  Result, ok,
}
use vfuzz.Prelude as P
use vfuzz.Codec.Words.{Chunk}
use vfuzz.Codec.Cursor.{memcpy_from}
use vfuzz.Codec.Buffer.{memcpy_to}
use vfuzz.Util.Rand.{Rand}
use vfuzz.Util.History.{Text}
use vfuzz.Util.Text.{to_hex_string, byte_to_hex_string}
use vfuzz.Util.World.{World, M, ◌>>=◌, ◌>>◌, pure, run, get, add_history}

-- What the mutators take from outside the repository: boost's hex, and std::shuffle with the
-- engine, whose order of draws the standard leaves open.
pub record Host : Type 0 where
  pub hex : Chunk → Text
  pub shuffle : Chunk → Rand → Chunk × Rand

-- MutateImpl: the generator, the chunk, the value of `insert` and the length limit, to the new
-- chunk and the new value of `insert`.
abbrev pub MutateImpl : Type 0
MutateImpl = ℕ → Chunk → Chunk → ℕ → M (Chunk × Chunk)

-- RandCh
abbrev pub rand_ch : M ℕ
rand_ch = get 256

-- RandomPos
abbrev pub random_pos : ℕ → M ℕ
random_pos size = get (size + 1)

-- RandomRange
unfoldable pub random_range : ℕ → M (ℕ × ℕ)
random_range size = do
  start ← random_pos size
  count ← random_pos (size - start)
  pure (start, count)

-- CopyPartOf, which gives `dest` and `insert`. Where `aliased` is set, `src` is `dest` itself.
unfoldable pub copy_part_of : Bool → Chunk → Chunk → M (Chunk × Chunk)
copy_part_of aliased dest src = do
  pos ← random_pos (length dest)
  (first, count) ← random_range (min (length src) (length dest - pos))
  bytes ← run (memcpy_from src first count)
  dest' ← run (memcpy_to dest pos bytes)
  insert ← run (memcpy_from (if aliased then dest' else src) first count)
  pure (dest', insert)

-- Split: `count` bytes of room at `pos`.
unfoldable pub split : Chunk → ℕ → ℕ → Result Chunk
split dest pos count =
    let grown = dest ++ replicate count 0 in
    P.◌>>=◌ (memcpy_from grown pos (length dest - pos)) (λ tail. memcpy_to grown (pos + count) tail)

-- InsertPartOf, likewise.
unfoldable pub insert_part_of : Bool → Chunk → Chunk → ℕ → Chunk → M (Chunk × Chunk)
insert_part_of aliased dest src max insert =
    if leb max (length dest) then pure (dest, insert) else (do
      pos ← random_pos (length dest)
      (first, count) ← random_range (min (length src) (max - length dest))
      room ← run (split dest pos count)
      bytes ← run (memcpy_from (if aliased then room else src) first count)
      dest' ← run (memcpy_to room pos bytes)
      insert' ← run (memcpy_from (if aliased then dest' else src) first count)
      pure (dest', insert'))

-- LogHistory of a text, of a chunk and of a byte
abbrev pub log_text : Text → ℕ → Text → M (Unit {0})
log_text name gid desc = add_history gid name desc

abbrev pub log_chunk : Host → Text → ℕ → Chunk → M (Unit {0})
log_chunk host name gid c = add_history gid name (to_hex_string host.hex c)

abbrev pub log_byte : Host → Text → ℕ → ℕ → M (Unit {0})
log_byte host name gid b = add_history gid name (byte_to_hex_string host.hex b)
