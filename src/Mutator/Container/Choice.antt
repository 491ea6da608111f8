-- ===== src/Mutator/Container/Choice.antt =====
-- What a container of mutators keeps, and what is drawn from it.
use vfuzz.Prelude.{
  nth_inside, ℕ, ◌<◌, ◌≡◌, ◌⊎◌, refl, true, false, [], ◌∷◌, ◌++◌, length, get_elem?, inl, inr,
  Bool-cases, ◌==◌, if◌then◌else◌, some, ok, err, exception, arith, get_elem?_inside,
}
use vfuzz.Util.Rand.{below, below_lt}
use vfuzz.Util.World.{World, run}
use vfuzz.Container.Input.{Mutator}
use vfuzz.Mutator.Container.{Container, has, add, get_random_mutator}

-- The pointers are different ones.
abbrev pub IsDistinct : Container → Type 0
IsDistinct [] = Unit {0}
IsDistinct (m ∷ ms) = (has m.address ms ≡ false) × IsDistinct ms

has-append :
    (address : ℕ) (ms : Container) (m : Mutator)
    → has address (ms ++ (m ∷ [])) ≡ (if has address ms then true else m.address == address)
unfolding has
has-append address [] m = ground arith
has-append address (x ∷ ms) m = ground (arith, has-append address ms m)

append-IsDistinct :
    (ms : Container) (m : Mutator)
    → IsDistinct ms
    → has m.address ms ≡ false
    → IsDistinct (ms ++ (m ∷ []))
unfolding has
append-IsDistinct [] m h new = (refl, tt)
append-IsDistinct (x ∷ ms) m h new =
    (ground (arith, has-append x.address ms m), append-IsDistinct ms m h.1 (ground arith))

-- Add either throws and the container holds the pointer already, or puts the mutator at the end;
-- and a container of different pointers stays one.
add-IsDistinct :
    (m : Mutator) (ms : Container)
    → IsDistinct ms
    → ((add m ms ≡ err exception) × (has m.address ms ≡ true))
      ⊎ ((add m ms ≡ ok (ms ++ (m ∷ []))) × IsDistinct (ms ++ (m ∷ [])))
unfolding add
add-IsDistinct m ms h = elim (Bool-cases (has m.address ms)) [
  | inl old ↦ inl (rw old refl, old)
  | inr new ↦ inr (rw new refl, append-IsDistinct ms m h new)
]

-- From a container that is not empty, GetRandomMutator gives one of its mutators, and changes
-- only the state of the random source.
pub get_random_mutator-Returns :
    (ms : Container) (w : World)
    → 0 < length ms
    → (i : ℕ) × (m : Mutator) × (w' : World) × (get_elem? ms i ≡ some m)
      × (get_random_mutator ms w ≡ ok (m, w'))
unfolding get_random_mutator
get_random_mutator-Returns [] w h = absurd (omega arith)
get_random_mutator-Returns (x ∷ ms) w h =
    let (i, r) = below (length (x ∷ ms)) w.rand in
    let (m, found) = get_elem?_inside (x ∷ ms) i (below_lt (length (x ∷ ms)) w.rand h) in
    (i, m, record w { rand = r }, found, rw (nth_inside (x ∷ ms) i m found, run) refl)
