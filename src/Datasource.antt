-- ===== src/Datasource.antt =====
-- libvfuzz-core/src/datasource: Datasource, by which a target takes chunks from a cluster, and the
-- names that a data source gives to sensors. The class it derives from is outside of the repository.
pub mod Ids
pub mod Requests
use vfuzz.Prelude.{ℕ}
use vfuzz.Codec.Words.{Chunk}
use vfuzz.Util.World.{M, ◌>>=◌, pure}
use vfuzz.Container.Input.{get_chunk, expand_chunk}
use vfuzz.Container.InputCluster.{InputCluster, mutate_random, update}
use vfuzz.Container.InputCluster as InputCluster
use vfuzz.Mutator.Container.{Container, get_random_mutator}

-- Datasource::get, with the cluster behind the pointer. The input that MutateRandom gives is the one
-- in the cluster. The maximum is never used.
unfoldable pub get : Container → ℕ → ℕ → ℕ → InputCluster → M (Chunk × InputCluster)
unfolding mutate_random get_random_mutator
get mutators min max id ic = do
  m ← get_random_mutator mutators
  ic' ← mutate_random id m 0 ic
  let (input, there) = InputCluster.get id ic'
  expanded ← expand_chunk 0 min input
  pure (get_chunk expanded 0, update id expanded there)
