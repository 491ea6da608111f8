-- ===== src/Sensor/Processor.antt =====
-- BaseProcessor and its five classes, of libvfuzz-core/src/sensor/processor. The state that a
-- class adds is a data type with one constructor per class.
pub mod Novelty
pub mod Extremes
use vfuzz.Prelude.{
  ℕ, ◌+◌, Bool, true, false, Option, none, some, List, [], ◌∷◌, ◌++◌, length, get_elem?, set,
  replicate, ltb, leb, ◌==◌, if◌then◌else◌, Result, ok, err, exception, fault, ◌>>=◌,
}
use vfuzz.OrdMap.{OrdMap, insert}

-- What receiveInput does besides: a call of onAddVal, or of onNew with the value before and after.
pub data Event : Type 0 where
  added : ℕ → Event
  updated : ℕ → ℕ → Event

-- `lowest` is absent until it is set. `unique_vals` of ProcessorUnique is a set, of which only the
-- size and what it holds count, and of ProcessorUniqueMax an array.
pub data State : Type 0 where
  noop : State
  highest : ℕ → State
  lowest : Option ℕ → State
  unique : OrdMap (Unit {0}) → State
  unique_max : ℕ → ℕ → List ℕ → State

-- The constructors.
abbrev pub new_highest : State
new_highest = highest 0

abbrev pub new_lowest : State
new_lowest = lowest none

abbrev pub new_unique : State
new_unique = unique []

abbrev pub new_unique_max : ℕ → State
new_unique_max max_size = unique_max max_size 0 (replicate max_size 0)

-- ProcessorUnique::receiveInput, from the set before and after the insertion
unfoldable pub unique_step : OrdMap (Unit {0}) → OrdMap (Unit {0}) → State × List Event
unique_step before after =
    if ltb (length before) (length after)
    then (unique after, added (length after) ∷ updated (length before) (length after) ∷ [])
    else (unique after, [])

-- ProcessorNoop::receiveInput
unfoldable pub receive_noop : ℕ → Result (State × List Event)
receive_noop value = ok (noop, added value ∷ [])

-- ProcessorHighest::receiveInput
unfoldable pub receive_highest : ℕ → ℕ → Result (State × List Event)
receive_highest value best =
    if ltb best value
    then ok (highest value, added value ∷ updated best value ∷ [])
    else ok (highest best, [])

-- ProcessorLowest::receiveInput. `lowest` is not initialized: `junk` is what it holds until it is
-- set, and what onNew is told.
unfoldable pub receive_lowest : ℕ → ℕ → Option ℕ → Result (State × List Event)
receive_lowest junk value none = ok (lowest (some value), added value ∷ updated junk value ∷ [])
receive_lowest junk value (some best) =
    if ltb value best
    then ok (lowest (some value), added value ∷ updated best value ∷ [])
    else ok (lowest (some best), [])

-- ProcessorUniqueMax::receiveInput
unfoldable pub receive_unique_max : ℕ → ℕ → ℕ → List ℕ → Result (State × List Event)
receive_unique_max value max_size prev vals =
    if leb max_size value then err exception else elim (get_elem? vals value) [
      | none ↦ err fault
      | some seen ↦
          if seen == 0
          then ok (
            unique_max max_size (prev + 1) (set vals value 1),
            added (prev + 1) ∷ updated prev (prev + 1) ∷ [],
          )
          else ok (unique_max max_size prev vals, [])
    ]

-- The virtual receiveInput.
unfoldable pub receive : ℕ → ℕ → State → Result (State × List Event)
unfolding unique_step receive_noop receive_highest receive_lowest receive_unique_max
receive junk value noop = receive_noop value
receive junk value (highest best) = receive_highest value best
receive junk value (lowest best) = receive_lowest junk value best
receive junk value (unique vals) = ok (unique_step vals (insert value tt vals))
receive junk value (unique_max max_size prev vals) = receive_unique_max value max_size prev vals

-- receiveInput for each value in turn: the state and all the events.
unfoldable pub receive_all : ℕ → List ℕ → State → Result (State × List Event)
receive_all junk [] s = ok (s, [])
receive_all junk (value ∷ more) s = do
  (s, events) ← receive junk value s
  (s, later) ← receive_all junk more s
  ok (s, events ++ later)

-- BaseProcessor: `on_add_val` tells whether SetOnAddVal replaced the callback, and then `passed`
-- is what the callback was given.
pub record Processor : Type 0 where
  pub state : State
  pub disabled : Bool
  pub on_add_val : Bool
  pub vals : List ℕ
  pub passed : List ℕ

-- GetNumValues
abbrev pub num_values : Processor → ℕ
num_values p = length p.vals

-- Start, whose virtual `start` does nothing
abbrev pub start : Processor → Processor
start p = record p { vals = [] }

-- SetOnAddVal
abbrev pub set_on_add_val : Processor → Processor
set_on_add_val p = record p { on_add_val = true }

-- What onAddVal is given, in order.
unfoldable pub added_values : List Event → List ℕ
added_values [] = []
added_values (added v ∷ events) = v ∷ added_values events
added_values (updated a b ∷ events) = added_values events

-- onAddVal
unfoldable pub deliver : List ℕ → Processor → Processor
deliver values p =
    if p.on_add_val
    then record p { passed = p.passed ++ values }
    else record p { vals = p.vals ++ values }

-- ReceiveInput
unfoldable pub receive_input : ℕ → ℕ → Processor → Result Processor
unfolding receive deliver added_values
receive_input junk value p = if p.disabled then ok p else (do
  (s, events) ← receive junk value p.state
  ok (deliver (added_values events) (record p { state = s })))
