-- ===== src/Util/MallocFreeTracer.antt =====
-- MallocFreeTracer of libvfuzz-runtime/src/util/mallocfreetracer.h: it counts the allocations and
-- releases of one run of the target. The atomic counters are numbers below 2^64.
pub mod Leaks
use vfuzz.Prelude.{ℕ, ◌+◌, ◌%◌, ◌^◌, Bool, true, false, List, [], ◌∷◌, ltb, if◌then◌else◌}

pub record MallocFreeTracer : Type 0 where
  pub started : Bool
  pub paused : Bool
  pub mallocs : ℕ
  pub frees : ℕ

-- Start
unfoldable pub start : MallocFreeTracer → MallocFreeTracer
start t = record { started = true; paused = false; mallocs = 0; frees = 0 }

-- Pause, Resume
unfoldable pub pause : MallocFreeTracer → MallocFreeTracer
pause t = if t.started then record t { paused = true } else t

unfoldable pub resume : MallocFreeTracer → MallocFreeTracer
resume t = if t.started then record t { paused = false } else t

-- AddMalloc, AddFree
unfoldable pub add_malloc : MallocFreeTracer → MallocFreeTracer
add_malloc t = if t.paused then t else record t { mallocs = (t.mallocs + 1) % 2 ^ 64 }

unfoldable pub add_free : MallocFreeTracer → MallocFreeTracer
add_free t = if t.paused then t else record t { frees = (t.frees + 1) % 2 ^ 64 }

-- Stop
unfoldable pub stop : MallocFreeTracer → Bool × MallocFreeTracer
stop t = (ltb t.frees t.mallocs, record t { mallocs = 0; frees = 0; started = false })

-- What happens between Start and Stop.
pub data Event : Type 0 where
  malloc_event free_event pause_event resume_event : Event

unfoldable pub trace : List Event → MallocFreeTracer → MallocFreeTracer
trace [] t = t
trace (malloc_event ∷ events) t = trace events (add_malloc t)
trace (free_event ∷ events) t = trace events (add_free t)
trace (pause_event ∷ events) t = trace events (pause t)
trace (resume_event ∷ events) t = trace events (resume t)
