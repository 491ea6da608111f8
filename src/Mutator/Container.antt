-- ===== src/Mutator/Container.antt =====
-- mutator::Container of libvfuzz-core/src/mutator/container.h and container.cpp: the mutators that
-- an executor draws from.
pub mod Choice
use vfuzz.Prelude.{
  nth, ℕ, Bool, true, false, List, [], ◌∷◌, ◌++◌, length, get_elem?, is_empty, Option, none, some,
  ◌==◌, if◌then◌else◌, Result, ok, err, exception, fault,
}
use vfuzz.Util.World.{World, M, ◌>>=◌, throw, run, get}
use vfuzz.Container.Input.{Mutator}

abbrev pub Container : Type 0
Container = List Mutator

-- std::find over the pointers
unfoldable pub has : ℕ → Container → Bool
has address [] = false
has address (m ∷ ms) = if m.address == address then true else has address ms

-- Add
unfoldable pub add : Mutator → Container → Result Container
unfolding has
add m ms = if has m.address ms then err exception else ok (ms ++ (m ∷ []))

-- GetRandomMutator
unfoldable pub get_random_mutator : Container → M Mutator
get_random_mutator ms =
    if is_empty ms then throw exception else (do index ← get (length ms); run (nth ms index))
