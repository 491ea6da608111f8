-- ===== src/Sensor/Container.antt =====
-- Container of libvfuzz-core/src/sensor/container.h and container.cpp, over the store of sensors.
-- The sets of pointers are keyed by place, since nothing goes through them in order.
pub mod Validity
pub mod Switching
pub mod Adding
pub mod Combining
pub mod Customs
use vfuzz.Prelude.{
  ℕ, zero, suc, ◌+◌, Bool, true, false, not, ◌&&◌, ◌||◌, List, [], ◌∷◌, ◌++◌, length, Option, none,
  some, Result, ok, err, ◌>>=◌, runtime_error, fault, nth, ◌==◌, if◌then◌else◌,
}
use vfuzz.OrdMap.{OrdMap, lookup, contains, insert, assign, erase}
use vfuzz.Util.History.{Text}
use vfuzz.Sensor.Base.{BaseSensor, get_last_value, was_updated}
use vfuzz.Sensor.Base as Base
use vfuzz.Sensor.Processor.{Processor, State, new_highest, new_lowest, new_unique}
use vfuzz.Sensor.Processor as Processor
use vfuzz.Sensor.Profile.{ValueBitMap}
use vfuzz.Sensor.Auto.{highest_type, lowest_type, unique_type, noop_type}
use vfuzz.Sensor.Store.{
  Store, Object, Sensor, Node, Receiver, base_of, id_of, bind_to, put, for_each, enable_node,
  disable_node, start_node, stop_node, set_name_at, subordinate_at,
}
use vfuzz.Sensor.Store as Store

-- The lists PCSensors to CMPSensors, and `builtin_type_to_sensors` with the number of the enum.
pub record Container (B : Type 0) : Type 0 where
  pub store : Store B
  pub id_to_sensor_processor : OrdMap ℕ
  pub id_to_custom_sensor : OrdMap ℕ
  pub builtin_type_to_sensors : OrdMap (OrdMap (Unit {0}))
  pub custom_to_processor_type : OrdMap ℕ
  pub pending_set_sensor_name : OrdMap Text
  pub pending_combine_sensors : OrdMap (ℕ × ℕ × ℕ × ℕ)
  pub created_sensors : OrdMap (Unit {0})
  pub pc_sensors : List ℕ
  pub stack_sensors : List ℕ
  pub flowtrace_sensors : List ℕ
  pub allocation_sensors : List ℕ
  pub value_profile_sensors : List ℕ
  pub cmp_sensors : List ℕ

-- What the machine decides: the address of the object that is created as the n-th, what the memory
-- of a new sensor and of a new ProcessorLowest holds.
pub record Memory : Type 0 where
  pub address : ℕ → ℕ
  pub is_updated : ℕ → Bool
  pub lowest : ℕ

-- The constructor of BaseProcessor with that of a class.
abbrev pub new_processor : State → Processor
new_processor s = record { state = s; disabled = false; on_add_val = false; vals = []; passed = [] }

-- The switches on a ProcessorType.
unfoldable pub processor_of : ℕ → Option Processor
processor_of t =
    if t == highest_type
    then some (new_processor new_highest)
    else if t == lowest_type
    then some (new_processor new_lowest)
    else if t == unique_type
    then some (new_processor new_unique)
    else if t == noop_type
    then some (new_processor Processor.noop)
    else none

abbrev pub set_of : ℕ → OrdMap (OrdMap (Unit {0})) → OrdMap (Unit {0})
set_of type m = elim (lookup type m) [ none ↦ [] | some set ↦ set ]

abbrev pub erase_all : List ℕ → OrdMap (Unit {0}) → OrdMap (Unit {0})
erase_all [] m = m
erase_all (k ∷ ks) m = erase_all ks (erase k m)

-- The places in the order of the IDs.
abbrev pub places : OrdMap ℕ → List ℕ
places [] = []
places ((id, k) ∷ m) = k ∷ places m

module _ {B : Type 0} where
  -- haveID
  abbrev pub have_id : ℕ → Container B → Bool
  have_id id c = contains id c.id_to_sensor_processor

  -- The numbers of BaseSensor::BuiltinType, by the virtual GetBuiltinType
  unfoldable pub builtin_type : Sensor B → ℕ
  builtin_type (Store.custom b) = 0
  builtin_type (Store.coverage b) = 3
  builtin_type (Store.intensity s) = 3
  builtin_type (Store.stack s) = 1
  builtin_type (Store.flowtrace s) = 2
  builtin_type (Store.global_max s) = 4
  builtin_type (Store.single_max s) = 4
  builtin_type (Store.cmp_diff s) = 6
  builtin_type (Store.auto_intensity s) = 3
  builtin_type (Store.value_profile s) = 5
  builtin_type (Store.processor b n) = 0

  -- The switch of addSensor
  unfoldable pub register : ℕ → ℕ → Container B → Container B
  register k type c =
      if type == 1
      then record c { stack_sensors = c.stack_sensors ++ (k ∷ []) }
      else if type == 2
      then record c { flowtrace_sensors = c.flowtrace_sensors ++ (k ∷ []) }
      else if type == 3
      then record c { pc_sensors = c.pc_sensors ++ (k ∷ []) }
      else if type == 4
      then record c { allocation_sensors = c.allocation_sensors ++ (k ∷ []) }
      else if type == 5
      then record c { value_profile_sensors = c.value_profile_sensors ++ (k ∷ []) }
      else if type == 6
      then record c { cmp_sensors = c.cmp_sensors ++ (k ∷ []) }
      else c

  -- addSensor, of a sensor that is not null
  unfoldable pub add_sensor : ℕ → Container B → Result (Container B)
  unfolding register builtin_type
  add_sensor k c = do
    o ← nth c.store.objects k
    let type = builtin_type o.sensor
    let c' = register k type c
    ok (record c' {
      builtin_type_to_sensors =
          assign type (insert k tt (set_of type c'.builtin_type_to_sensors))
            c'.builtin_type_to_sensors;
    })

  unfoldable pub add_sensors : List ℕ → Container B → Result (Container B)
  unfolding add_sensor
  add_sensors [] c = ok c
  add_sensors (k ∷ ks) c = do c ← add_sensor k c; add_sensors ks c

  -- A new object at the end of the store.
  abbrev pub create : Object B → Store B → Store B
  create o s = record s { objects = s.objects ++ (o ∷ []) }

  -- The calls of SetOnReady in the constructor of SensorProcessor.
  abbrev pub bind_sensor : ℕ → ℕ → Store B → Result (Store B)
  bind_sensor p k s = Store.modify (bind_to (Receiver.to p)) k s

  -- `firstSensorID`, of the first of the given sensors
  unfoldable pub first_id : List ℕ → Store B → Result ℕ
  first_id [] s = ok 0
  first_id (k ∷ ks) s = do o ← nth s.objects k; ok (id_of o)

  -- SetSensorName
  unfoldable pub set_sensor_name : ℕ → Text → Container B → Result (Container B)
  set_sensor_name id name c = elim (lookup id c.id_to_sensor_processor) [
    | none ↦ ok (record c { pending_set_sensor_name = assign id name c.pending_set_sensor_name })
    | some k ↦ do s ← set_name_at name k c.store; ok (record c { store = s })
  ]

  -- setPendingSensorName, which AddSensorProcessor has written out
  unfoldable pub apply_pending_name : ℕ → Container B → Result (Container B)
  unfolding set_sensor_name
  apply_pending_name id c = elim (lookup id c.pending_set_sensor_name) [
    | none ↦ ok c
    | some name ↦
        set_sensor_name id name
          (record c { pending_set_sensor_name = erase id c.pending_set_sensor_name })
  ]

  -- Enable, Disable
  unfoldable pub enable : ℕ → Container B → Result (Container B)
  enable id c = elim (lookup id c.id_to_sensor_processor) [
    | none ↦ ok c
    | some k ↦ do s ← enable_node k c.store; ok (record c { store = s })
  ]

  unfoldable pub disable : ℕ → Container B → Result (Container B)
  disable id c = elim (lookup id c.id_to_sensor_processor) [
    | none ↦ ok c
    | some k ↦ do s ← disable_node k c.store; ok (record c { store = s })
  ]

  -- SensorWasUpdated, SensorGetValue
  unfoldable pub sensor_was_updated : ℕ → Container B → Result Bool
  sensor_was_updated id c = elim (lookup id c.id_to_sensor_processor) [
    | none ↦ err runtime_error
    | some k ↦ do o ← nth c.store.objects k; ok (was_updated (base_of o.sensor))
  ]

  unfoldable pub sensor_get_value : ℕ → Container B → Result ℕ
  sensor_get_value id c = elim (lookup id c.id_to_sensor_processor) [
    | none ↦ err runtime_error
    | some k ↦ do o ← nth c.store.objects k; get_last_value (base_of o.sensor)
  ]

  -- `IDToCustomSensor[ID]`, whose null pointer the caller would read through
  abbrev pub custom_of : ℕ → Container B → Result ℕ
  custom_of id c = elim (lookup id c.id_to_custom_sensor) [ none ↦ err fault | some k ↦ ok k ]

module _ {B : Type 0} (memory : Memory) where
  -- The BaseSensor of the next object.
  abbrev pub new_base : ℕ → Store B → BaseSensor
  new_base id s = let n = length s.objects in Base.new (memory.address n) (memory.is_updated n) id

  -- AddSensorProcessor, on the places of the sensors that are not null
  unfoldable pub add_sensor_processor : ℕ → Processor → List ℕ → Container B → Result (Container B)
  unfolding add_sensors apply_pending_name first_id
  add_sensor_processor id processor sensors c =
      let p = length c.store.objects in
      if have_id id c then err runtime_error else (do
        s ← for_each (bind_sensor p) sensors c.store
        first ← first_id sensors s
        let node : Node = record {
          sensors = sensors;
          processor = Processor.set_on_add_val processor;
          name = [];
          data_sensor1 = [];
          data_sensor2 = [];
          disabled = false;
          first_sensor_id = first;
        }
        let made : Object B = record {
          sensor = Store.processor (Base.set_on_ready (new_base id s)) node;
          receiver = Receiver.the_data;
        }
        c ← add_sensors sensors (record c {
          store = create made s;
          created_sensors = erase_all sensors (insert p tt c.created_sensors);
          id_to_sensor_processor = assign id p c.id_to_sensor_processor;
        })
        apply_pending_name id c)

  -- CombineSensors, where one of the sensors is not there yet
  abbrev pub combine_later : ℕ → ℕ → ℕ → ℕ → Container B → Container B
  combine_later id id1 id2 type c = record c {
    pending_combine_sensors =
        assign id2 (id, id1, id2, type) (assign id1 (id, id1, id2, type) c.pending_combine_sensors);
  }

  -- CombineSensors, of the SensorProcessors at two places
  unfoldable pub combine_now : ℕ → ℕ → ℕ → ℕ → ℕ → ℕ → Container B → Result (Container B)
  unfolding processor_of apply_pending_name
  combine_now id id1 id2 k1 k2 type c = do
    s ← subordinate_at k1 c.store
    s ← subordinate_at k2 s
    c ← elim (processor_of type) [
      | none ↦ err runtime_error
      | some processor ↦ add_sensor_processor id processor (k1 ∷ k2 ∷ []) (record c { store = s })
    ]
    apply_pending_name id
        (record c { pending_combine_sensors = erase id2 (erase id1 c.pending_combine_sensors) })

  -- CombineSensors
  unfoldable pub combine_sensors : ℕ → ℕ → ℕ → ℕ → Container B → Result (Container B)
  unfolding combine_now
  combine_sensors id id1 id2 type c = elim (lookup id1 c.id_to_sensor_processor) [
    | none ↦ ok (combine_later id id1 id2 type c)
    | some k1 ↦ elim (lookup id2 c.id_to_sensor_processor) [
      | none ↦ ok (combine_later id id1 id2 type c)
      | some k2 ↦ combine_now id id1 id2 k1 k2 type c
    ]
  ]

  -- addCustomIfNotExists_helper
  unfoldable pub add_custom : ℕ → ℕ → Processor → Container B → Result (Container B)
  unfolding add_sensor_processor
  add_custom id type processor c =
      let k = length c.store.objects in
      let made : Object B = record {
        sensor = Store.custom (new_base 0 c.store);
        receiver = Receiver.nobody;
      } in
      add_sensor_processor id processor (k ∷ []) (record c {
        store = create made c.store;
        id_to_custom_sensor = assign id k c.id_to_custom_sensor;
        custom_to_processor_type = assign id type c.custom_to_processor_type;
      })

  -- The first part of AddCustomIfNotExists.
  unfoldable pub ensure_custom : ℕ → ℕ → Container B → Result (Container B)
  unfolding add_custom processor_of
  ensure_custom id type c =
      if have_id id c
      then elim (lookup id c.custom_to_processor_type) [
        | none ↦ err runtime_error
        | some t ↦ if t == type then ok c else err runtime_error
      ]
      else elim (processor_of type) [
        | none ↦ err runtime_error
        | some processor ↦ add_custom id type processor c
      ]

  -- The pending combination of AddCustomIfNotExists.
  unfoldable pub apply_pending_combination : ℕ → Container B → Result (Container B)
  unfolding combine_sensors
  apply_pending_combination id c = elim (lookup id c.pending_combine_sensors) [
    | none ↦ ok c
    | some (id', id1, id2, type) ↦ combine_sensors id' id1 id2 type c
  ]

  -- AddCustomIfNotExists: the place of the sensor
  unfoldable pub add_custom_if_not_exists : ℕ → ℕ → Container B → Result (ℕ × Container B)
  unfolding ensure_custom apply_pending_combination apply_pending_name
  add_custom_if_not_exists id type c = do
    c ← ensure_custom id type c
    c ← apply_pending_combination id c
    c ← apply_pending_name id c
    k ← custom_of id c
    ok (k, c)

module _ {B : Type 0} (bitmap : ValueBitMap B) (memory : Memory) where
  -- Start, Stop
  unfoldable pub start : Container B → Result (Container B)
  start c = do
    s ← for_each (start_node bitmap) (places c.id_to_sensor_processor) c.store
    ok (record c { store = s })

  unfoldable pub stop : Container B → Result (Container B)
  stop c = do
    s ← for_each (stop_node bitmap memory.lowest) (places c.id_to_sensor_processor) c.store
    ok (record c { store = s })
