-- ===== src/Tests/Tools.antt =====
-- The tools at concrete inputs.
use vfuzz.Prelude.{true, false, refl, List, [], ◌∷◌, arith}
use vfuzz.Codec.Words.{IsU64}
use vfuzz.Util.AllocationTracker.{new, Call, malloc, free, enable_call, reset_call, total}
use vfuzz.Util.AllocationTracker.Accounting.{IsBalanced}
use vfuzz.Util.MallocFreeTracer.{
  MallocFreeTracer, Event, malloc_event, free_event, pause_event, resume_event,
}
use vfuzz.Util.MallocFreeTracer.Leaks.{mallocs_in, frees_in}

abbrev calls : List Call
calls = enable_call ∷ malloc 1 10 ∷ malloc 2 20 ∷ free 1 ∷ reset_call ∷ malloc 3 5 ∷ []

new-IsBalanced : IsBalanced new
unfolding total
new-IsBalanced = refl

abbrev leaky : List Event
leaky = malloc_event ∷ pause_event ∷ free_event ∷ resume_event ∷ malloc_event ∷ free_event ∷ []

few_mallocs : IsU64 (mallocs_in false leaky)
unfolding mallocs_in
few_mallocs = omega arith

few_frees : IsU64 (frees_in false leaky)
unfolding frees_in
few_frees = omega arith

abbrev stopped : MallocFreeTracer
stopped = record { started = false; paused = true; mallocs = 9; frees = 0 }
