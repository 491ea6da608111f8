-- ===== src/Sensor/FlowTrace.antt =====
-- FlowTracker and FlowtraceSensor of libvfuzz-core/src/sensor/sensor/flowtrace.h and
-- flowtrace.cpp: the last callers, in a ring.
pub mod Ring
use vfuzz.Prelude.{
  ℕ, zero, suc, ◌+◌, ◌-◌, Bool, List, [], ◌∷◌, length, get_or, set, replicate, ◌==◌, if◌then◌else◌,
}

-- TrackSize is the length of `callers`.
pub record FlowTracker : Type 0 where
  pub callers : List ℕ
  pub index : ℕ

-- FlowTracker<TrackSize>
abbrev pub new : ℕ → FlowTracker
new track_size = record { callers = replicate track_size 0; index = 0 }

-- Reset, which leaves the index
unfoldable pub reset : FlowTracker → FlowTracker
reset t = record t { callers = replicate (length t.callers) 0 }

-- Add
unfoldable pub add : ℕ → FlowTracker → FlowTracker
add pc t =
    let next = if t.index + 1 == length t.callers then 0 else t.index + 1 in
    record { callers = set t.callers next pc; index = next }

-- The loop of GetTrack, for as many rounds as are left.
unfoldable pub track_from : ℕ → ℕ → List ℕ → List ℕ
track_from zero cur callers = []
track_from (suc left) cur callers =
    get_or callers cur 0 ∷ track_from left ((if cur == 0 then length callers else cur) - 1) callers

-- GetTrack
unfoldable pub get_track : FlowTracker → List ℕ
unfolding track_from
get_track t = track_from (length t.callers) t.index t.callers

-- The calls of Add, the first one first.
unfoldable pub add_all : List ℕ → FlowTracker → FlowTracker
add_all [] t = t
add_all (pc ∷ pcs) t = add_all pcs (add pc t)
