-- ===== src/Sensor/Store.antt =====
-- The sensors of libvfuzz-core/src/sensor as objects that point at one another: each has an onReady
-- callback, and a SensorProcessor of sensor/processor/sensor.cpp holds other sensors. An object is
-- known by its place in the store, which is the order of creation.
pub mod Shapes
pub mod Telling
pub mod Working
pub mod Nodes
pub mod Growth
use vfuzz.Prelude.{
  ℕ, zero, suc, ◌+◌, Bool, true, false, ◌||◌, List, [], ◌∷◌, ◌++◌, map, length, is_empty, set, nth,
  Option, some, none, Result, ok, err, ◌>>=◌, fault, ◌==◌, if◌then◌else◌,
}
use vfuzz.Util.History.{Text}
use vfuzz.Util.AllocationTracker as Tracker
use vfuzz.Sensor.Base.{BaseSensor, Data, get_id, data_receive, custom_update}
use vfuzz.Sensor.Base as Base
use vfuzz.Sensor.Processor.{Processor, added_values}
use vfuzz.Sensor.Processor as Processor
use vfuzz.Sensor.Combination.{final_value}
use vfuzz.Sensor.FlowTrace as FlowTrace
use vfuzz.Sensor.Kinds.{
  CodeIntensitySensor, StackSensor, FlowtraceSensor, AllocationGlobalMaxSensor, start_intensity,
  start_global_max, stop_global_max, start_flowtrace,
}
use vfuzz.Sensor.Profile.{ValueBitMap, ValueProfileSensor, start_profile, stop_profile}
use vfuzz.Sensor.Auto.{AutoSensor, AutoCodeIntensitySensor, start_auto_intensity}

-- What SensorProcessor adds to BaseSensor. `name` is that of its processor.
pub record Node : Type 0 where
  pub sensors : List ℕ
  pub processor : Processor
  pub name : Text
  pub data_sensor1 : List ℕ
  pub data_sensor2 : List ℕ
  pub disabled : Bool
  pub first_sensor_id : ℕ

-- The classes of sensors.
pub data Sensor (B : Type 0) : Type 0 where
  custom coverage : BaseSensor → Sensor B
  intensity : CodeIntensitySensor → Sensor B
  stack : StackSensor → Sensor B
  flowtrace : FlowtraceSensor → Sensor B
  global_max : AllocationGlobalMaxSensor → Sensor B
  single_max cmp_diff : AutoSensor → Sensor B
  auto_intensity : AutoCodeIntensitySensor → Sensor B
  value_profile : ValueProfileSensor B → Sensor B
  processor : BaseSensor → Node → Sensor B

-- What onReady is bound to: nothing yet, Data::ReceiveInput, or the internalReceiveInput of the
-- SensorProcessor at a place.
pub data Receiver : Type 0 where
  nobody the_data : Receiver
  to : ℕ → Receiver

pub record Object (B : Type 0) : Type 0 where
  pub sensor : Sensor B
  pub receiver : Receiver

pub record Store (B : Type 0) : Type 0 where
  pub objects : List (Object B)
  pub sensor_data : Data

module _ {B : Type 0} where
  -- The BaseSensor that a class derives from.
  unfoldable pub base_of : Sensor B → BaseSensor
  base_of (custom b) = b
  base_of (coverage b) = b
  base_of (intensity s) = s.base
  base_of (stack s) = s.base
  base_of (flowtrace s) = s.base
  base_of (global_max s) = s.base
  base_of (single_max s) = s.base
  base_of (cmp_diff s) = s.base
  base_of (auto_intensity s) = s.auto_sensor.base
  base_of (value_profile s) = s.base
  base_of (processor b n) = b

  -- A change of the BaseSensor only, as by a method that is not virtual.
  unfoldable pub on_base : (BaseSensor → BaseSensor) → Sensor B → Sensor B
  on_base f (custom b) = custom (f b)
  on_base f (coverage b) = coverage (f b)
  on_base f (intensity s) = intensity (record s { base = f s.base })
  on_base f (stack s) = stack (record s { base = f s.base })
  on_base f (flowtrace s) = flowtrace (record s { base = f s.base })
  on_base f (global_max s) = global_max (record s { base = f s.base })
  on_base f (single_max s) = single_max (record s { base = f s.base })
  on_base f (cmp_diff s) = cmp_diff (record s { base = f s.base })
  on_base f (auto_intensity s) =
      auto_intensity
        (record s { auto_sensor = record s.auto_sensor { base = f s.auto_sensor.base } })
  on_base f (value_profile s) = value_profile (record s { base = f s.base })
  on_base f (processor b n) = processor (f b) n

  abbrev pub id_of : Object B → ℕ
  id_of o = get_id (base_of o.sensor)

  abbrev pub put : ℕ → Object B → Store B → Store B
  put k o s = record s { objects = set s.objects k o }

  -- A change of the object at a place.
  unfoldable pub modify : (Object B → Object B) → ℕ → Store B → Result (Store B)
  modify f k s = do o ← nth s.objects k; ok (put k (f o) s)

  -- A step for each place in turn.
  unfoldable pub for_each : (ℕ → Store B → Result (Store B)) → List ℕ → Store B → Result (Store B)
  for_each f [] s = ok s
  for_each f (k ∷ ks) s = do s ← f k s; for_each f ks s

  -- SetOnReady
  abbrev pub bind_to : Receiver → Object B → Object B
  bind_to r o = record o { sensor = on_base Base.set_on_ready o.sensor; receiver = r }

-- ReceiveInput of a processor, and the values that it gives to onAddVal.
unfoldable pub feed : ℕ → ℕ → Processor → Result (Processor × List ℕ)
unfolding added_values
feed junk value p = if p.disabled then ok (p, []) else (do
  (s, events) ← Processor.receive junk value p.state
  ok (Processor.deliver (added_values events) (record p { state = s }), added_values events))

-- internalReceiveInput, and the values that it passes on.
unfoldable pub node_receive : ℕ → ℕ → ℕ → Node → Result (Node × List ℕ)
node_receive junk id value n =
    if length n.sensors == 1
    then (do (q, values) ← feed junk value n.processor; ok (record n { processor = q }, values))
    else if length n.sensors == 2
    then ok (
      if id == n.first_sensor_id
          then record n { data_sensor1 = n.data_sensor1 ++ (value ∷ []) }
          else record n { data_sensor2 = n.data_sensor2 ++ (value ∷ []) },
      [],
    )
    else err fault

module _ {B : Type 0} where
  unfoldable pub take_in : ℕ → ℕ → ℕ → Object B → Result (Object B × List ℕ)
  take_in junk id value o = elim o.sensor [
    | processor b n ↦ do
      (n, values) ← node_receive junk id value n
      ok (record o { sensor = processor b n }, values)
    | _ ↦ err fault
  ]

  -- A call for each value in turn.
  unfoldable pub tell_each : (ℕ → Store B → Result (Store B)) → List ℕ → Store B → Result (Store B)
  tell_each f [] s = ok s
  tell_each f (value ∷ values) s = do s ← f value s; tell_each f values s

  -- A call of onReady, and what follows from it through processorOnAddVal, over at most so many
  -- objects. A call of an empty function, which throws, is a fault.
  unfoldable pub deliver : ℕ → ℕ → Receiver → ℕ → ℕ → Store B → Result (Store B)
  deliver junk fuel nobody id value s = err fault
  deliver junk fuel the_data id value s = ok (record s { sensor_data = data_receive s.sensor_data })
  deliver junk zero (to k) id value s = err fault
  deliver junk (suc fuel) (to k) id value s = do
    o ← nth s.objects k
    (o', values) ← take_in junk id value o
    tell_each (deliver junk fuel o'.receiver (id_of o')) values (put k o' s)

  -- No chain of callbacks is longer than the store.
  abbrev pub tell : ℕ → Receiver → ℕ → ℕ → Store B → Result (Store B)
  tell junk r id value s = deliver junk (length s.objects) r id value s

  -- The calls of onReady that a sensor makes.
  unfoldable pub tell_calls : ℕ → Receiver → List (ℕ × ℕ) → Store B → Result (Store B)
  tell_calls junk r [] s = ok s
  tell_calls junk r ((id, value) ∷ calls) s = do
    s ← tell junk r id value s
    tell_calls junk r calls s

  -- A sensor replaced by its new state, and then the calls that it makes.
  abbrev pub settle : ℕ → ℕ → Object B → Sensor B × List (ℕ × ℕ) → Store B → Result (Store B)
  settle junk k o (sensor, calls) s =
      tell_calls junk o.receiver calls (put k (record o { sensor = sensor }) s)

-- The list of a call that may not be made.
abbrev pub at_most {ℓ} : {A : Type ℓ} → Option A → List A
at_most none = []
at_most (some a) = a ∷ []

module _ {B : Type 0} (bitmap : ValueBitMap B) where
  -- BaseSensor::Start, which calls the virtual `start`
  unfoldable pub start_sensor : Sensor B → Sensor B
  unfolding on_base
  start_sensor (intensity s) = intensity (start_intensity s)
  start_sensor (flowtrace s) = flowtrace (start_flowtrace s)
  start_sensor (global_max s) = global_max (start_global_max s)
  start_sensor (auto_intensity s) = on_base Base.start (auto_intensity (start_auto_intensity s))
  start_sensor (value_profile s) = on_base Base.start (value_profile (start_profile bitmap s))
  start_sensor s = on_base Base.start s

  -- BaseSensor::Stop, which calls the virtual `stop`, and the calls of onReady that this makes
  unfoldable pub stop_sensor : Sensor B → Sensor B × List (ℕ × ℕ)
  unfolding on_base
  stop_sensor (global_max s) = let (s', call) = stop_global_max s in (global_max s', at_most call)
  stop_sensor (value_profile s) =
      let (s', calls) = stop_profile bitmap s in (on_base Base.stop (value_profile s'), calls)
  stop_sensor s = (on_base Base.stop s, [])

  abbrev pub start_at : ℕ → Store B → Result (Store B)
  start_at k s = modify (λ o. record o { sensor = start_sensor o.sensor }) k s

  unfoldable pub stop_at : ℕ → ℕ → Store B → Result (Store B)
  stop_at junk k s = do o ← nth s.objects k; settle junk k o (stop_sensor o.sensor) s

-- `finalVal` of each pair, in the order of the loops of Stop
unfoldable pub combined_values : List ℕ → List ℕ → List ℕ
combined_values [] bs = []
combined_values (a ∷ more) bs = map (final_value a) bs ++ combined_values more bs

-- The SensorProcessor at a place.
module _ {B : Type 0} where
  abbrev pub as_node : Object B → Result Node
  as_node o = elim o.sensor [ processor b n ↦ ok n | _ ↦ err fault ]

  unfoldable pub node_at : ℕ → Store B → Result Node
  node_at k s = do o ← nth s.objects k; as_node o

  abbrev pub with_node : (Node → Node) → Sensor B → Sensor B
  with_node f (processor b n) = processor b (f n)
  with_node f s = s

  abbrev pub modify_node : (Node → Node) → ℕ → Store B → Result (Store B)
  modify_node f k s = modify (λ o. record o { sensor = with_node f o.sensor }) k s

  abbrev pub modify_base : (BaseSensor → BaseSensor) → ℕ → Store B → Result (Store B)
  modify_base f k s = modify (λ o. record o { sensor = on_base f o.sensor }) k s

  -- SensorProcessor::Enable and Disable. Those of its sensors are BaseSensor's, since they are not
  -- virtual.
  unfoldable pub enable_node : ℕ → Store B → Result (Store B)
  enable_node k s = do
    n ← node_at k s
    s ← for_each (modify_base Base.enable) n.sensors s
    modify_node (λ n. record n { disabled = false }) k s

  unfoldable pub disable_node : ℕ → Store B → Result (Store B)
  disable_node k s = do
    n ← node_at k s
    s ← for_each (modify_base Base.disable) n.sensors s
    modify_node (λ n. record n { disabled = true }) k s

  -- SensorProcessor::SetName, Subordinate
  abbrev pub set_name_at : Text → ℕ → Store B → Result (Store B)
  set_name_at name k s = modify_node (λ n. record n { name = name }) k s

  abbrev pub subordinate_at : ℕ → Store B → Result (Store B)
  subordinate_at k s = modify_base Base.subordinate k s

  -- ReceiveInput of the processor at a place, and what follows.
  unfoldable pub feed_at : ℕ → ℕ → ℕ → Store B → Result (Store B)
  feed_at junk k value s = do
    o ← nth s.objects k
    n ← as_node o
    (q, values) ← feed junk value n.processor
    tell_each (λ v. tell junk o.receiver (id_of o) v) values
        (put k (record o { sensor = with_node (λ n. record n { processor = q }) o.sensor }) s)

-- SensorProcessor::Start and Stop
module _ {B : Type 0} (bitmap : ValueBitMap B) where
  unfoldable pub start_node : ℕ → Store B → Result (Store B)
  start_node k s = do
    n ← node_at k s
    s ← for_each (start_at bitmap) n.sensors s
    modify_node (λ n. record n { processor = Processor.start n.processor }) k s

  unfoldable pub stop_node : ℕ → ℕ → Store B → Result (Store B)
  unfolding combined_values
  stop_node junk k s = do
    n ← node_at k s
    s ← for_each (stop_at bitmap junk) n.sensors s
    n ← node_at k s
    s ←
        if n.disabled || length n.sensors == 1 || is_empty n.data_sensor1 || is_empty n.data_sensor2
        then ok s
        else tell_each (feed_at junk k) (combined_values n.data_sensor1 n.data_sensor2) s
    modify_node (λ n. record n { data_sensor1 = []; data_sensor2 = [] }) k s
