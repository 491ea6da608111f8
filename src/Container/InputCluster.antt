-- ===== src/Container/InputCluster.antt =====
-- InputCluster of libvfuzz-core/src/container/inputcluster.h and inputcluster.cpp: the inputs of
-- one run of the target, by generator. The inputs stand in the map by value: the program holds
-- them by pointers that no two clusters share, since a cluster is copied input by input.
pub mod Serial
pub mod RoundTrip
pub mod Safety
pub mod Edit
use vfuzz.Prelude.{
  ℕ, Bool, Option, none, some, List, [], ◌∷◌, length, ltb, if◌then◌else◌, min, Result, ok, err,
  exception,
}
use vfuzz.OrdMap.{OrdMap, lookup, contains, insert, assign, keys}
use vfuzz.Util.World.{World, M, ◌>>=◌, pure}
use vfuzz.Container.Input.{Input, Mutator, fresh}
use vfuzz.Container.Input

-- `requestedGids` and `sensorData` are never read.
pub record InputCluster : Type 0 where
  pub cluster : OrdMap Input
  pub max_chunks : ℕ
  pub max_chunk_len : ℕ

-- InputCluster(Rand, maxChunks, maxChunkLen)
abbrev pub empty : ℕ → ℕ → InputCluster
empty max_chunks max_chunk_len = record {
  cluster = [];
  max_chunks = max_chunks;
  max_chunk_len = max_chunk_len;
}

unfoldable pub copy_inputs : OrdMap Input → OrdMap Input → OrdMap Input
copy_inputs done [] = done
copy_inputs done ((gid, i) ∷ m) = copy_inputs (insert gid (Input.copy i) done) m

-- InputCluster(const InputCluster&)
unfoldable pub copy : InputCluster → InputCluster
unfolding copy_inputs
copy c = record c { cluster = copy_inputs [] c.cluster }

-- GetUnsafe
unfoldable pub get_unsafe : ℕ → InputCluster → Result Input
get_unsafe gid c = elim (lookup gid c.cluster) [ none ↦ err exception | some i ↦ ok i ]

-- HaveGID
unfoldable pub have_gid : ℕ → InputCluster → Bool
have_gid gid c = contains gid c.cluster

-- Get: the input behind the pointer, and the cluster, which may have gained it.
unfoldable pub get : ℕ → InputCluster → Input × InputCluster
get gid c = elim (lookup gid c.cluster) [
  | none ↦ (fresh, record c { cluster = insert gid fresh c.cluster })
  | some i ↦ (i, c)
]

-- What a change through the pointer that Get gave does to the cluster.
unfoldable pub update : ℕ → Input → InputCluster → InputCluster
update gid i c = record c { cluster = assign gid i c.cluster }

-- MutateRandom
unfoldable pub mutate_random : ℕ → Mutator → ℕ → InputCluster → M InputCluster
unfolding get update
mutate_random gid m max_chunks c = do
  let (i, c') = get gid c
  i' ← Input.mutate_random gid m (min max_chunks c'.max_chunks) c'.max_chunk_len i
  pure (update gid i' c')

-- GetGIDS
abbrev pub get_gids : InputCluster → List ℕ
get_gids c = keys c.cluster

-- Set, which keeps an input that is there
unfoldable pub set_input : ℕ → Input → InputCluster → InputCluster
set_input gid i c = record c { cluster = insert gid i c.cluster }

-- The loop of GetLargestChunkSize and GetLargestChunkSequence, over the inputs by a measure.
unfoldable pub largest_from : (Input → ℕ) → ℕ → OrdMap Input → ℕ
largest_from measure best [] = best
largest_from measure best ((gid, i) ∷ m) =
    largest_from measure (if ltb best (measure i) then measure i else best) m

-- GetLargestChunkSize
unfoldable pub largest_chunk_size : InputCluster → ℕ
unfolding largest_from
largest_chunk_size c = largest_from Input.largest_chunk_size 0 c.cluster

-- GetLargestChunkSequence
unfoldable pub largest_chunk_sequence : InputCluster → ℕ
unfolding largest_from
largest_chunk_sequence c = largest_from (λ i. length i.chunks) 0 c.cluster
