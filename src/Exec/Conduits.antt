-- ===== src/Exec/Conduits.antt =====
-- The conduits that ExecManager::initializeMutators of libvfuzz-runtime/src/exec/execmanager.cpp gives
-- to the mutators, and what they do to the clusters of a corpus.
pub mod Growth
pub mod Fetching
use vfuzz.Prelude.{
  ℕ, List, [], ◌∷◌, length, get_elem?, is_empty, none, some, set, if◌then◌else◌, exception,
}
use vfuzz.Codec.Words.{Chunk}
use vfuzz.Util.World.{M, ◌>>=◌, throw, run, get, note_visit}
use vfuzz.Container.Input.{get_random}
use vfuzz.Container.InputCluster as InputCluster
use vfuzz.Container.Corpus.{Corpus, at}

-- What Get of the cluster at a place does to the corpus: the cluster gains a fresh input for the
-- generator where it has none.
unfoldable pub visit : ℕ × ℕ → Corpus → Corpus
unfolding InputCluster.get
visit (index, gid) c = elim (get_elem? c.corpus index) [
  | none ↦ c
  | some ic ↦ record c { corpus = set c.corpus index (InputCluster.get gid ic).1 }
]

unfoldable pub visit_all : List (ℕ × ℕ) → Corpus → Corpus
unfolding visit
visit_all [] c = c
visit_all (v ∷ vs) c = visit_all vs (visit v c)

-- The conduit of CrossOver and Copy, over the executor's corpus: GetRandomPtr, Get and GetRandom
unfoldable pub corpus_conduit : Corpus → ℕ → M Chunk
unfolding InputCluster.get get_random
corpus_conduit c gid = if is_empty c.corpus then throw exception else (do
  index ← get (length c.corpus)
  ic ← run (at c.corpus index)
  _ ← note_visit index gid
  get_random (InputCluster.get gid ic).0)
