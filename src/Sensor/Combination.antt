-- ===== src/Sensor/Combination.antt =====
-- SensorProcessor of libvfuzz-core/src/sensor/processor/sensor.h and sensor.cpp: one sensor with
-- its processor, or two sensors whose values are paired. The sensors stand in it by value.
pub mod Pairs
pub mod Recording
use vfuzz.Prelude.{
  ℕ, ◌+◌, ◌*◌, ◌%◌, ◌^◌, Bool, true, false, ◌||◌, List, [], ◌∷◌, ◌++◌, map, length, is_empty,
  Result, ok, err, ◌>>=◌, fault, ◌==◌, if◌then◌else◌,
}
use vfuzz.Sensor.Base.{BaseSensor, get_id, set_on_ready, enable, disable, start, stop, subordinate}
use vfuzz.Sensor.Processor.{Processor, receive_input, set_on_add_val}
use vfuzz.Sensor.Processor as Processor

-- `base` is the BaseSensor that the class derives from.
pub record SensorProcessor : Type 0 where
  pub base : BaseSensor
  pub sensors : List BaseSensor
  pub processor : Processor
  pub data_sensor1 : List ℕ
  pub data_sensor2 : List ℕ
  pub disabled : Bool
  pub first_sensor_id : ℕ

-- addSensor
unfoldable pub add_sensor : BaseSensor → SensorProcessor → SensorProcessor
add_sensor s p =
    let sensors = p.sensors ++ (set_on_ready s ∷ []) in
    record p {
      sensors = sensors;
      first_sensor_id = if length sensors == 1 then get_id s else p.first_sensor_id;
    }

abbrev pub add_sensors : List BaseSensor → SensorProcessor → SensorProcessor
add_sensors [] p = p
add_sensors (s ∷ ss) p = add_sensors ss (add_sensor s p)

-- SensorProcessor(ID, sensorData, processor, sensor1, sensor2), with the sensors that are not null
unfoldable pub new : BaseSensor → Processor → List BaseSensor → SensorProcessor
unfolding add_sensor
new base processor given = add_sensors given (record {
  base = set_on_ready base;
  sensors = [];
  processor = set_on_add_val processor;
  data_sensor1 = [];
  data_sensor2 = [];
  disabled = false;
  first_sensor_id = 0;
})

-- internalReceiveInput
unfoldable pub internal_receive_input : ℕ → ℕ → ℕ → SensorProcessor → Result SensorProcessor
unfolding receive_input
internal_receive_input junk id value p =
    if length p.sensors == 1
    then (do q ← receive_input junk value p.processor; ok (record p { processor = q }))
    else if length p.sensors == 2
    then ok (
        if id == p.first_sensor_id
        then record p { data_sensor1 = p.data_sensor1 ++ (value ∷ []) }
        else record p { data_sensor2 = p.data_sensor2 ++ (value ∷ []) })
    else err fault

-- Enable, Disable
abbrev pub enable_all : SensorProcessor → SensorProcessor
enable_all p = record p { sensors = map enable p.sensors; disabled = false }

abbrev pub disable_all : SensorProcessor → SensorProcessor
disable_all p = record p { sensors = map disable p.sensors; disabled = true }

-- Start
abbrev pub start_all : SensorProcessor → SensorProcessor
start_all p = record p { sensors = map start p.sensors; processor = Processor.start p.processor }

-- `finalVal` of Stop
unfoldable pub final_value : ℕ → ℕ → ℕ
final_value a b = ((a % 2 ^ 32 * 2 ^ 32) % 2 ^ 64 + b % 2 ^ 32) % 2 ^ 64

-- The inner loop of Stop.
unfoldable pub receive_row : ℕ → ℕ → List ℕ → Processor → Result Processor
unfolding receive_input final_value
receive_row junk a [] q = ok q
receive_row junk a (b ∷ bs) q = do
  q ← receive_input junk (final_value a b) q
  receive_row junk a bs q

-- The outer loop of Stop.
unfoldable pub receive_rows : ℕ → List ℕ → List ℕ → Processor → Result Processor
unfolding receive_row
receive_rows junk [] bs q = ok q
receive_rows junk (a ∷ more) bs q = do q ← receive_row junk a bs q; receive_rows junk more bs q

-- Stop
unfoldable pub stop_all : ℕ → SensorProcessor → Result SensorProcessor
unfolding receive_rows
stop_all junk p = do
  q ←
      if p.disabled || length p.sensors == 1 || is_empty p.data_sensor1 || is_empty p.data_sensor2
      then ok p.processor
      else receive_rows junk p.data_sensor1 p.data_sensor2 p.processor
  ok (record p {
    sensors = map stop p.sensors;
    processor = q;
    data_sensor1 = [];
    data_sensor2 = [];
  })

-- Subordinate
abbrev pub subordinate_all : SensorProcessor → SensorProcessor
subordinate_all p = record p { base = subordinate p.base }

-- internalReceiveInput for each call of onReady in turn.
unfoldable pub receive_calls : ℕ → List (ℕ × ℕ) → SensorProcessor → Result SensorProcessor
unfolding internal_receive_input
receive_calls junk [] p = ok p
receive_calls junk ((id, value) ∷ calls) p = do
  p ← internal_receive_input junk id value p
  receive_calls junk calls p
