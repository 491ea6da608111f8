-- ===== src/Container/Input.antt =====
-- Input of libvfuzz-core/src/container/input.h and input.cpp: a sequence of chunks with the
-- mutators that were applied to it and the bytes that they inserted.
pub mod Serial
pub mod RoundTrip
pub mod Safety
pub mod Edit
pub mod Mutation
pub mod Largest
use vfuzz.Prelude.{
  ℕ, zero, suc, ◌+◌, ◌-◌, Bool, true, false, ◌&&◌, List, [], ◌∷◌, ◌++◌, length, get_or, set, take,
  is_empty, ltb, leb, ◌==◌, if◌then◌else◌,
}
use vfuzz.OrdMap.{OrdMap, insert}
use vfuzz.Codec.Words.{Chunk}
use vfuzz.Util.World.{World, M, ◌>>=◌, pure, get, get_bool}

-- A mutator::Mutator behind its pointer: its address, and its Mutate, which takes the generator,
-- the chunk, the value of the reference `insert` and the length limit, and gives the new chunk and
-- the new value of `insert`.
pub record Mutator : Type 0 where
  pub address : ℕ
  pub mutate : ℕ → Chunk → Chunk → ℕ → M (Chunk × Chunk)

-- The member Rand is the world's. `mutators` is the std::set of the mutators' addresses.
pub record Input : Type 0 where
  pub chunks : List Chunk
  pub insertions : List Chunk
  pub mutators : OrdMap (Unit {0})

abbrev pub fresh : Input
fresh = record { chunks = []; insertions = []; mutators = [] }

-- Input(const Input&), which leaves the insertions behind
unfoldable pub copy : Input → Input
copy i = record { chunks = i.chunks; insertions = []; mutators = i.mutators }

-- Get
unfoldable pub get_chunk : Input → ℕ → Chunk
get_chunk i index = if leb (length i.chunks) index then [] else get_or i.chunks index []

-- GetRandom
unfoldable pub get_random : Input → M Chunk
unfolding get_chunk
get_random i =
    if is_empty i.chunks
    then pure []
    else (do index ← get (length i.chunks - 1); pure (get_chunk i index))

-- Add
unfoldable pub add_chunk : Chunk → Input → Input
add_chunk c i = record i { chunks = i.chunks ++ (c ∷ []) }

-- `chunks.push_back` past the end, and assignment before it
unfoldable pub put : List Chunk → ℕ → Chunk → List Chunk
put cs index c = if leb (length cs) index then cs ++ (c ∷ []) else set cs index c

-- Set
unfoldable pub set_chunk : ℕ → Chunk → Input → Input
unfolding put
set_chunk index c i = record i { chunks = put i.chunks index c }

-- Size
abbrev pub size : Input → ℕ
size i = length i.chunks

-- The loop of ExpandChunk, for as many rounds as the chunk lacks bytes.
unfoldable pub push_random : ℕ → Chunk → M Chunk
push_random zero c = pure c
push_random (suc n) c = do byte ← get 256; push_random n (c ++ (byte ∷ []))

-- ExpandChunk
unfoldable pub expand_chunk : ℕ → ℕ → Input → M Input
unfolding get_chunk push_random set_chunk
expand_chunk index min i =
    let c = get_chunk i index in
    if ltb (length c) min
    then (do c' ← push_random (min - length c) c; pure (set_chunk index c' i))
    else pure i

-- CropChunk
unfoldable pub crop_chunk : ℕ → ℕ → Input → Input
unfolding get_chunk set_chunk
crop_chunk index max i =
    let c = get_chunk i index in if ltb max (length c) then set_chunk index (take max c) i else i

-- What MutateChunk does with the chunk and the insertion that the mutator gave.
unfoldable pub accept_mutation : ℕ → ℕ → ℕ → Chunk → Chunk → Chunk → Input → Input
unfolding set_chunk insert
accept_mutation address index max_len c mutated inserted i =
    if ltb max_len (length mutated)
    then set_chunk index c i
    else set_chunk index mutated (record i {
      mutators = insert address tt i.mutators;
      insertions = if is_empty inserted then i.insertions else i.insertions ++ (inserted ∷ []);
    })

-- MutateChunk
unfoldable pub mutate_chunk : ℕ → ℕ → Mutator → ℕ → Input → M Input
unfolding get_chunk accept_mutation
mutate_chunk gid index m max_len i = do
  let c = get_chunk i index
  (mutated, inserted) ← m.mutate gid c [] max_len
  pure (accept_mutation m.address index max_len c mutated inserted i)

-- Whether MutateRandom adds a chunk. The random bit is drawn unless there is no chunk at all.
unfoldable pub wants_chunk : ℕ → Input → M Bool
wants_chunk max_chunks i =
    if size i == 0
    then pure true
    else (do heads ← get_bool; pure (heads && ltb (size i) max_chunks))

-- MutateRandom. It changes the input itself and returns it.
unfoldable pub mutate_random : ℕ → Mutator → ℕ → ℕ → Input → M Input
unfolding wants_chunk add_chunk mutate_chunk
mutate_random gid m max_chunks max_len i = do
  add ← wants_chunk max_chunks i
  let i' = if add then add_chunk [] i else i
  index ← get (size i')
  mutate_chunk gid index m max_len i'

-- ClearMutators, ClearInsertions
abbrev pub clear_mutators : Input → Input
clear_mutators i = record i { mutators = [] }

abbrev pub clear_insertions : Input → Input
clear_insertions i = record i { insertions = [] }

unfoldable pub largest_from : ℕ → List Chunk → ℕ
largest_from best [] = best
largest_from best (c ∷ cs) = largest_from (if ltb best (length c) then length c else best) cs

-- GetLargestChunkSize
unfoldable pub largest_chunk_size : Input → ℕ
unfolding largest_from
largest_chunk_size i = largest_from 0 i.chunks
