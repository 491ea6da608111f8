-- ===== src/Mutator/Edits.antt =====
-- The mutators that insert, erase, move and replace bytes: copy.cpp, copypart.cpp, crossover.cpp,
-- erasebytes.cpp, insertbyte.cpp, insertdictionary.cpp, insertrepeatedbytes.cpp, random.cpp and
-- shufflebytes.cpp of libvfuzz-core/src/mutator. A conduit, by which a mutator fetches a chunk from
-- a corpus or a dictionary, is an action that the mutator is given.
pub mod Limit
pub mod Effect
use Prim.Native.String.{String}
use vfuzz.Prelude.{
  ℕ, zero, suc, ◌+◌, ◌-◌, ◌%◌, ◌^◌, Bool, true, false, List, [], ◌∷◌, ◌++◌, length, take, drop,
  replicate, is_empty, ltb, leb, ◌==◌, if◌then◌else◌, Result, ok, err, fault,
}
use vfuzz.Prelude as P
use vfuzz.Codec.Words.{Chunk}
use vfuzz.Codec.Cursor.{memcpy_from}
use vfuzz.Codec.Buffer.{memcpy_to}
use vfuzz.Util.Rand.{Rand}
use vfuzz.Util.History.{Text}
use vfuzz.Util.Text.{codes}
use vfuzz.Util.World.{World, M, ◌>>=◌, ◌>>◌, pure, run, get, get_bool, with_rand}
use vfuzz.Mutator.Base.{
  Host, MutateImpl, rand_ch, random_pos, random_range, copy_part_of, split, insert_part_of,
  log_chunk, log_byte, log_text,
}

-- `v.insert(v.begin() + pos, b)`
unfoldable pub insert_at : Chunk → ℕ → ℕ → Chunk
insert_at c pos b = take pos c ++ (b ∷ drop pos c)

unfoldable pub random_bytes : ℕ → M Chunk
random_bytes zero = pure []
random_bytes (suc n) = do b ← rand_ch; bytes ← random_bytes n; pure (b ∷ bytes)

-- Copy::MutateImpl
unfoldable pub copy_impl : Host → (ℕ → M Chunk) → MutateImpl
copy_impl host conduit gid input insert max = do
  ret ← conduit gid
  log_chunk host (codes "Copy") gid ret
  pure (ret, ret)

-- CopyPart::MutateImpl
unfoldable pub copy_part_impl : Host → MutateImpl
copy_part_impl host gid input insert max = if is_empty input then pure (input, insert) else (do
  over ← get_bool
  (ret, inserted) ←
      if over then copy_part_of true input input else insert_part_of true input input max insert
  log_chunk host (codes "CopyPart") gid inserted
  pure (ret, inserted))

-- CrossOver::MutateImpl
unfoldable pub cross_over_impl : Host → (ℕ → M Chunk) → MutateImpl
cross_over_impl host conduit gid input insert max =
    if is_empty input then pure (input, insert) else (do
      other ← conduit gid
      (ret, inserted) ← if is_empty other then pure (input, insert) else (do
        over ← get_bool
        if over
            then copy_part_of false input other
            else insert_part_of false input other max insert)
      log_chunk host (codes "CrossOver") gid inserted
      pure (ret, inserted))

-- EraseBytes::MutateImpl. Its LogHistory(gid, {}) logs a byte 0.
unfoldable pub erase_bytes_impl : Host → MutateImpl
erase_bytes_impl host gid input insert max = do
  (first, count) ← random_range (length input)
  erased ← run (memcpy_from input first count)
  log_byte host (codes "EraseBytes") gid 0
  pure (erased, insert)

-- InsertByte::MutateImpl
unfoldable pub insert_byte_impl : Host → MutateImpl
insert_byte_impl host gid input insert max =
    if length input == max then pure (input, insert) else (do
      b ← rand_ch
      pos ← get (length input)
      log_byte host (codes "InsertByte") gid b
      pure (insert_at input pos b, insert ++ (b ∷ [])))

-- The loop of InsertDictionary, which inserts each byte at the same position.
unfoldable pub insert_all : ℕ → Chunk → Chunk → Chunk
insert_all pos [] ret = ret
insert_all pos (b ∷ bytes) ret = insert_all pos bytes (insert_at ret pos b)

abbrev pub dictionary_name : String → Text
dictionary_name name = codes "InsertDictionary (" ++ (codes name ++ codes ")")

-- InsertDictionary::MutateImpl with `replace` set: it logs the hexadecimal text.
unfoldable pub replace_impl : Host → String → (ℕ → M Chunk) → MutateImpl
replace_impl host name conduit gid input insert max = do
  ret ← conduit gid
  log_chunk host (dictionary_name name) gid ret
  pure (ret, ret)

-- InsertDictionary::MutateImpl without `replace`. The difference of the sizes wraps.
unfoldable pub insert_dictionary_impl : Host → String → (ℕ → M Chunk) → MutateImpl
insert_dictionary_impl host name conduit gid input insert max =
    let room = (max + 2 ^ 64 - length input) % 2 ^ 64 in
    if room == 0 then pure (input, insert) else (do
      found ← conduit gid
      if ltb room (length found)
          then pure (input, insert)
          else if is_empty found
          then pure (input, insert)
          else (do
            pos ← get (length input)
            log_chunk host (dictionary_name name) gid found
            pure (insert_all pos found input, found)))

-- InsertRepeatedBytes::MutateImpl
unfoldable pub insert_repeated_bytes_impl : Host → MutateImpl
insert_repeated_bytes_impl host gid input insert max =
    if leb max (length input) then pure (input, insert) else (do
      pos ← random_pos (length input)
      count ← get ((max - length input + 1) % 2 ^ 64)
      room ← run (split input pos count)
      b ← rand_ch
      ret ← run (memcpy_to room pos (replicate count b))
      log_chunk host (codes "InsertRepeatedBytes") gid (replicate count b)
      pure (ret, replicate count b))

-- Random::MutateImpl
unfoldable pub random_impl : Host → MutateImpl
random_impl host gid input insert max = do
  drawn ← get ((max + 1) % 2 ^ 64)
  let size = if drawn == 0 then 1 else drawn
  if ltb max size then pure (input, insert) else (do
    bytes ← random_bytes size
    log_chunk host (codes "Random") gid bytes
    pure (bytes, bytes))

-- ShuffleBytes::MutateImpl. The range that std::shuffle reorders stays where it is.
unfoldable pub shuffle_bytes_impl : Host → MutateImpl
shuffle_bytes_impl host gid input insert max = if is_empty input then pure (input, insert) else (do
  (first, count) ← random_range (length input)
  part ← run (memcpy_from input first count)
  part' ← with_rand (host.shuffle part)
  ret ← run (memcpy_to input first part')
  log_byte host (codes "ShuffleBytes") gid 0
  pure (ret, insert))
