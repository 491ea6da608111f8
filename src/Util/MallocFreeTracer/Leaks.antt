-- ===== src/Util/MallocFreeTracer/Leaks.antt =====
-- What Stop tells of a run.
use vfuzz.Prelude.{
  ℕ, suc, ◌+◌, ◌^◌, ◌<◌, ◌≡◌, Bool, true, false, List, [], ◌∷◌, ltb, if◌then◌else◌, arith,
}
use vfuzz.Codec.Words.{IsU64}
use vfuzz.Util.MallocFreeTracer.{
  MallocFreeTracer, start, pause, resume, add_malloc, add_free, stop, Event, malloc_event,
  free_event, pause_event, resume_event, trace,
}

-- How many allocations, or releases, happen outside the pauses.
unfoldable pub mallocs_in : Bool → List Event → ℕ
mallocs_in paused [] = 0
mallocs_in paused (malloc_event ∷ events) =
    let rest = mallocs_in paused events in if paused then rest else suc rest
mallocs_in paused (free_event ∷ events) = mallocs_in paused events
mallocs_in paused (pause_event ∷ events) = mallocs_in true events
mallocs_in paused (resume_event ∷ events) = mallocs_in false events

unfoldable pub frees_in : Bool → List Event → ℕ
frees_in paused [] = 0
frees_in paused (free_event ∷ events) =
    let rest = frees_in paused events in if paused then rest else suc rest
frees_in paused (malloc_event ∷ events) = frees_in paused events
frees_in paused (pause_event ∷ events) = frees_in true events
frees_in paused (resume_event ∷ events) = frees_in false events

abbrev running : Bool → ℕ → ℕ → MallocFreeTracer
running paused mallocs frees = record {
  started = true;
  paused = paused;
  mallocs = mallocs;
  frees = frees;
}

counted :
    (events : List Event) (paused : Bool) (m f : ℕ)
    → m + mallocs_in paused events < 2 ^ 64
    → f + frees_in paused events < 2 ^ 64
    → (last : Bool) × (trace events (running paused m f)
        ≡ running last (m + mallocs_in paused events) (f + frees_in paused events))
unfolding trace mallocs_in frees_in pause resume add_malloc add_free
counted [] paused m f h k = (paused, ground arith)
counted (malloc_event ∷ events) true m f h k = counted events true m f h k
counted (malloc_event ∷ events) false m f h k =
    let (last, e) = counted events false (m + 1) f (omega arith) (omega arith) in
    (last, ground (arith, e))
counted (free_event ∷ events) true m f h k = counted events true m f h k
counted (free_event ∷ events) false m f h k =
    let (last, e) = counted events false m (f + 1) (omega arith) (omega arith) in
    (last, ground (arith, e))
counted (pause_event ∷ events) paused m f h k = counted events true m f h k
counted (resume_event ∷ events) paused m f h k = counted events false m f h k

-- From Start to Stop, with fewer than 2^64 calls of each kind, Stop tells whether there were more
-- allocations than releases outside the pauses, whatever the tracer held before.
stop_tells_leak :
    (events : List Event) (t : MallocFreeTracer)
    → IsU64 (mallocs_in false events)
    → IsU64 (frees_in false events)
    → (stop (trace events (start t))).0 ≡ ltb (frees_in false events) (mallocs_in false events)
unfolding stop start
stop_tells_leak events t h k =
    let (last, e) = counted events false 0 0 (omega arith) (omega arith) in ground (arith, e)
