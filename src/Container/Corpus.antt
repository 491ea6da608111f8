-- ===== src/Container/Corpus.antt =====
-- Corpus of libvfuzz-core/src/container/corpus/corpus.h and corpus.cpp.
pub mod Serial
pub mod RoundTrip
pub mod Laws
use vfuzz.Prelude.{
  ℕ, suc, ◌+◌, Bool, true, false, Option, none, some, List, [], ◌∷◌, ◌++◌, length, get_elem?,
  is_empty, if◌then◌else◌, Result, ok, err, exception, fault, leb,
}
use vfuzz.Util.World.{World, M, ◌>>=◌, throw, run, pure, get}
use vfuzz.Container.InputCluster.{InputCluster}
use vfuzz.Container.InputCluster

-- `has_on_new` tells whether a callback was set, and `notified` is what it was called with, in
-- order.
pub record Corpus : Type 0 where
  pub corpus : List InputCluster
  pub has_on_new : Bool
  pub notified : List InputCluster

-- Corpus(Rand, inputCluster), which stores a copy
unfoldable pub new : InputCluster → Corpus
new c = record { corpus = InputCluster.copy c ∷ []; has_on_new = false; notified = [] }

-- `corpus[i]`, a fault out of range
abbrev pub at : List InputCluster → ℕ → Result InputCluster
at cs i = elim (get_elem? cs i) [ none ↦ err fault | some c ↦ ok c ]

-- GetRandomPtr
unfoldable pub get_random_ptr : Corpus → M InputCluster
get_random_ptr c =
    if is_empty c.corpus
    then throw exception
    else (do index ← get (length c.corpus); run (at c.corpus index))

-- GetRandomCopy
unfoldable pub get_random_copy : Corpus → M InputCluster
get_random_copy c = if is_empty c.corpus then throw exception else (do
  index ← get (length c.corpus)
  chosen ← run (at c.corpus index)
  pure (InputCluster.copy chosen))

-- Get
unfoldable pub get_cluster : Corpus → ℕ → Result InputCluster
get_cluster c index = if leb (length c.corpus) index then err exception else at c.corpus index

-- Size
abbrev pub size : Corpus → ℕ
size c = length c.corpus

-- AddInputCluster
unfoldable pub add_input_cluster : InputCluster → Corpus → Corpus
add_input_cluster ic c = record c {
  corpus = c.corpus ++ (ic ∷ []);
  notified = if c.has_on_new then c.notified ++ (ic ∷ []) else c.notified;
}

-- SetOnNew
abbrev pub set_on_new : Corpus → Corpus
set_on_new c = record c { has_on_new = true }
