-- ===== src/Util/AllocationTracker.antt =====
-- AllocationTracker of libvfuzz-core/src/util/allocationtracker.h and allocationtracker.cpp: the
-- live allocations of the target and the most bytes that were live at once.
pub mod Accounting
use vfuzz.Prelude.{
  ℕ, ◌+◌, ◌-◌, ◌%◌, ◌^◌, Bool, true, false, not, Option, none, some, List, [], ◌∷◌, max, ltb,
  if◌then◌else◌,
}
use vfuzz.OrdMap.{OrdMap, lookup, contains, assign, erase}

pub record AllocationTracker : Type 0 where
  pub alloc_map : OrdMap ℕ
  pub enabled : Bool
  pub cur_alloc : ℕ
  pub all_time_max : ℕ

-- AllocationTracker(void)
abbrev pub new : AllocationTracker
new = record { alloc_map = []; enabled = false; cur_alloc = 0; all_time_max = 0 }

-- Enable, Disable
abbrev pub enable : AllocationTracker → AllocationTracker
enable t = record t { enabled = true }

abbrev pub disable : AllocationTracker → AllocationTracker
disable t = record t { enabled = false }

-- AddMalloc. The sum wraps at 64 bits.
unfoldable pub add_malloc : ℕ → ℕ → AllocationTracker → AllocationTracker
add_malloc ptr num t =
    if not t.enabled
    then t
    else if contains ptr t.alloc_map
    then t
    else (let cur = (t.cur_alloc + num) % 2 ^ 64 in
        record {
          alloc_map = assign ptr num t.alloc_map;
          enabled = t.enabled;
          cur_alloc = cur;
          all_time_max = if ltb t.all_time_max cur then cur else t.all_time_max;
        })

-- AddFree. The difference wraps at 64 bits.
unfoldable pub add_free : ℕ → AllocationTracker → AllocationTracker
add_free ptr t = if not t.enabled then t else elim (lookup ptr t.alloc_map) [
  | none ↦ t
  | some num ↦ record t {
    alloc_map = erase ptr t.alloc_map;
    cur_alloc = (t.cur_alloc + (2 ^ 64 - num % 2 ^ 64)) % 2 ^ 64;
  }
]

-- Reset
unfoldable pub reset : AllocationTracker → AllocationTracker
reset t = record t { alloc_map = []; cur_alloc = 0 }

-- GetMax
abbrev pub get_max : AllocationTracker → ℕ
get_max t = t.all_time_max

-- A call of the tracker, and what a sequence of calls leaves.
pub data Call : Type 0 where
  malloc : ℕ → ℕ → Call
  free : ℕ → Call
  enable_call disable_call reset_call : Call

unfoldable pub step : Call → AllocationTracker → AllocationTracker
unfolding add_malloc add_free reset
step (malloc ptr num) t = add_malloc ptr num t
step (free ptr) t = add_free ptr t
step enable_call t = enable t
step disable_call t = disable t
step reset_call t = reset t

unfoldable pub run : List Call → AllocationTracker → AllocationTracker
unfolding step
run [] t = t
run (c ∷ cs) t = run cs (step c t)

-- The bytes that are live.
unfoldable pub total : OrdMap ℕ → ℕ
total [] = 0
total ((ptr, num) ∷ m) = num + total m

-- The bytes that are live after each of the calls.
unfoldable pub totals : List Call → AllocationTracker → List ℕ
unfolding step total
totals [] t = []
totals (c ∷ cs) t = total (step c t).alloc_map ∷ totals cs (step c t)

unfoldable pub largest : ℕ → List ℕ → ℕ
largest best [] = best
largest best (n ∷ ns) = largest (max best n) ns
