-- ===== src/Tests/Sensors.antt =====
-- The processors and the tracker at concrete inputs.
use vfuzz.Prelude.{
  false, map, refl, ℕ, ◌≡◌, List, [], ◌∷◌, ◌++◌, length, take, reverse, some, ok, arith,
}
use vfuzz.OrdMap.{OrdMap}
use vfuzz.Sensor.Processor.{
  Event, highest, lowest, unique, unique_max, new_highest, new_lowest, new_unique, new_unique_max,
  receive_all,
}
use vfuzz.Sensor.Processor.Novelty.{unique_max_agrees}
use vfuzz.Sensor.Processor.Extremes.{largest_of, smallest_of, extremes_hold}
use vfuzz.Sensor.FlowTrace.{reset, get_track, add_all}
use vfuzz.Sensor.FlowTrace.Ring.{ring, reset-get_track}
use vfuzz.Sensor.Base as Base
use vfuzz.Sensor.Kinds.{StackSensor, delta, depth_of, update_stacks}
use vfuzz.Sensor.Kinds.Depth as Depth
use vfuzz.Sensor.Kinds.Depth.{IsRisingFrom, IsMeasuring, update_stacks-IsRising}

unique_max_agrees_example :
    (events : List Event) × (seen : OrdMap (Unit {0})) × (vals : List ℕ) × (receive_all 0
        (3 ∷ 1 ∷ 3 ∷ [])
        new_unique
      ≡ ok (unique seen, events))
    × (receive_all 0 (3 ∷ 1 ∷ 3 ∷ []) (new_unique_max 5)
        ≡ ok (unique_max 5 (length seen) vals, events))
unique_max_agrees_example =
    unique_max_agrees 0 5 (3 ∷ 1 ∷ 3 ∷ []) (omega arith, (omega arith, (omega arith, tt)))

extremes_hold_example :
    (above below : List Event) × (receive_all 0 (3 ∷ 1 ∷ 4 ∷ []) new_highest
      ≡ ok (highest (largest_of 3 (1 ∷ 4 ∷ [])), above))
    × (receive_all 0 (3 ∷ 1 ∷ 4 ∷ []) new_lowest
        ≡ ok (lowest (some (smallest_of 3 (1 ∷ 4 ∷ []))), below))
extremes_hold_example = extremes_hold 0 3 (1 ∷ 4 ∷ [])

reset-get_track_example :
    get_track (add_all (8 ∷ 9 ∷ []) (reset (ring 1 2 3 2)))
    ≡ take 3 (reverse (8 ∷ 9 ∷ []) ++ (0 ∷ 0 ∷ 0 ∷ []))
reset-get_track_example = reset-get_track (8 ∷ 9 ∷ []) 1 2 3 2 (omega arith)

-- A sensor with the base 10, which it has reached.
abbrev measuring : StackSensor
measuring = record { base = Base.new 100 false 9; stack_depth_record = 10; stack_depth_base = 10 }

measuring-IsMeasuring : IsMeasuring measuring
measuring-IsMeasuring = record {
  enabled = refl;
  based = omega arith;
  reaches = omega arith;
  fits = omega arith;
}

-- The pointers lie 8, 30 and 20 below the top.
abbrev pointers : List ℕ
pointers = 9223372036854775800 ∷ 9223372036854775778 ∷ 9223372036854775788 ∷ []

update_stacks-IsRising_example :
    let (last, values) = update_stacks pointers measuring in
    IsRisingFrom (delta measuring) values
    × (last.stack_depth_record ≡ Depth.largest 10 (map depth_of pointers))
    × IsMeasuring last
update_stacks-IsRising_example = update_stacks-IsRising pointers measuring measuring-IsMeasuring
