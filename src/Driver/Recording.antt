-- ===== src/Driver/Recording.antt =====
-- Driver of libvfuzz-runtime/src/sensor/driver.cpp, continued: its constructor, the built-in
-- sensors, StartRecord and StopRecord, and the functions that a target calls.
use vfuzz.Prelude.{
  ℕ, Bool, true, false, List, [], ◌∷◌, length, Option, none, some, ltb, ◌==◌, if◌then◌else◌, Result,
  ok, err, ◌>>=◌, exception,
}
use vfuzz.Util.History.{Text}
use vfuzz.Util.AllocationTracker as Tracker
use vfuzz.Util.Text.{codes}
use vfuzz.Sensor.Base.{BaseSensor}
use vfuzz.Sensor.Processor.{Processor, new_highest, new_unique}
use vfuzz.Sensor.Processor as Processor
use vfuzz.Sensor.FlowTrace as FlowTrace
use vfuzz.Sensor.Kinds.{new_stack}
use vfuzz.Sensor.Auto.{AutoSensor, unique_type, noop_type}
use vfuzz.Sensor.Store.{Sensor, Receiver, Store}
use vfuzz.Sensor.Store as Store
use vfuzz.Sensor.Container.{
  Container, new_processor, new_base, create, add_sensor_processor, set_sensor_name,
  combine_sensors, sensor_was_updated, sensor_get_value,
}
use vfuzz.Sensor.Container as Container
use vfuzz.Driver.{
  BuiltinType, code_coverage, stack_depth, stack_unique, flowtrace, intensity, alloc_single_max,
  alloc_global_max, alloc_unique, value_profile, func_enter, cmp_diff, auto_code_intensity,
  Platform, Driver, on_container, get_num_pcs,
}

-- kSensorTypeCodeCoverage and kSensorTypeValueProfile of SensorCoreBuiltinType
abbrev pub core_code_coverage : ℕ
core_code_coverage = 1

abbrev pub core_value_profile : ℕ
core_value_profile = 5

abbrev pub auto_sensor : BaseSensor → AutoSensor
auto_sensor base = record { base = base; pc_seen = [] }

-- Container(sensorData, loggerChain)
abbrev pub new_container : {B : Type 0} → Container B
new_container = record {
  store = record { objects = []; sensor_data = record { increase = 0 } };
  id_to_sensor_processor = [];
  id_to_custom_sensor = [];
  builtin_type_to_sensors = [];
  custom_to_processor_type = [];
  pending_set_sensor_name = [];
  pending_combine_sensors = [];
  created_sensors = [];
  pc_sensors = [];
  stack_sensors = [];
  flowtrace_sensors = [];
  allocation_sensors = [];
  value_profile_sensors = [];
  cmp_sensors = [];
}

-- What the constructor of Driver creates, in its order.
abbrev pub builtins : List (BuiltinType × Text)
builtins =
    (value_profile, codes "value profile")
    ∷ (cmp_diff, codes "cmp diff")
    ∷ (intensity, codes "intensity")
    ∷ (auto_code_intensity, codes "auto code intensity")
    ∷ (code_coverage, codes "code coverage")
    ∷ (stack_depth, codes "stack depth")
    ∷ (stack_unique, codes "stack unique")
    ∷ (alloc_global_max, codes "highest mem usage")
    ∷ (alloc_single_max, codes "single highest mem usage")
    ∷ (flowtrace, codes "flow trace")
    ∷ []

module _ {B : Type 0} (platform : Platform B) where
  abbrev pub new_value_profile : ℕ → BaseSensor → Sensor B
  new_value_profile num_guards base =
      Store.value_profile (record {
        base = base;
        value_profile_map = platform.bits;
        num_pcs = get_num_pcs num_guards;
      })

  -- The switch of createBuiltin: the sensor that is made, and its processor
  unfoldable pub builtin_of : ℕ → BuiltinType → BaseSensor → Result (Sensor B × Processor)
  unfolding get_num_pcs
  builtin_of guards code_coverage base = ok (Store.coverage base, new_processor new_unique)
  builtin_of guards stack_depth base = ok (Store.stack (new_stack base), new_processor new_highest)
  builtin_of guards stack_unique base = ok (Store.stack (new_stack base), new_processor new_unique)
  builtin_of guards flowtrace base = ok (
    Store.flowtrace (record { base = base; flow_tracker = FlowTrace.new 3; stack_traces = [] }),
    new_processor new_highest,
  )
  builtin_of guards intensity base =
      ok (Store.intensity (record { base = base; val = 0 }), new_processor new_highest)
  builtin_of guards alloc_single_max base =
      ok (Store.single_max (auto_sensor base), new_processor new_highest)
  builtin_of guards alloc_global_max base = ok (
    Store.global_max (record { base = base; allocation_tracker = Tracker.new }),
    new_processor new_highest,
  )
  builtin_of guards alloc_unique base = err exception
  builtin_of guards value_profile base =
      ok (new_value_profile guards base, new_processor new_unique)
  builtin_of guards func_enter base = err exception
  builtin_of guards cmp_diff base =
      ok (Store.cmp_diff (auto_sensor base), new_processor Processor.noop)
  builtin_of guards auto_code_intensity base = ok (
    Store.auto_intensity (record { auto_sensor = auto_sensor base; pc_to_intensity = [] }),
    new_processor Processor.noop,
  )

  -- addSensorProcessor
  unfoldable pub add_made : ℕ → Sensor B → Processor → Container B → Result (Container B)
  add_made id sensor processor c =
      add_sensor_processor platform.memory id processor (length c.store.objects ∷ []) (record c {
        store = create (record { sensor = sensor; receiver = Receiver.nobody }) c.store;
      })

  -- createBuiltin
  unfoldable pub create_builtin :
      ℕ → ℕ → BuiltinType → Option Text → Container B → Result (Container B)
  unfolding builtin_of add_made
  create_builtin guards id type name c = do
    (sensor, processor) ← builtin_of guards type (new_base platform.memory 0 c.store)
    c ← add_made id sensor processor c
    c ← Container.disable id c
    elim name [ none ↦ ok c | some text ↦ set_sensor_name id text c ]

  -- createBuiltin for each of the types, under its own number
  unfoldable pub create_builtins :
      ℕ → List (BuiltinType × Text) → Container B → Result (Container B)
  unfolding create_builtin
  create_builtins guards [] c = ok c
  create_builtins guards ((type, name) ∷ more) c = do
    c ← create_builtin guards (platform.builtin_id type) type (some name) c
    create_builtins guards more c

  -- Driver(loggerChain)
  unfoldable pub new_driver : ℕ → Result (Driver B)
  unfolding create_builtins
  new_driver guards = do
    c ← create_builtins guards builtins new_container
    ok (record { container = c; is_global = false })

  -- StartRecord
  unfoldable pub start_record : Driver B → Result (Driver B)
  start_record d = do
    let store = record d.container.store { sensor_data = record { increase = 0 } }
    c ← Container.start platform.bitmap platform.memory (record d.container { store = store })
    ok (record { container = c; is_global = true })

  -- StopRecord: whether new data was registered
  unfoldable pub stop_record : Driver B → Result (Bool × Driver B)
  stop_record d = do
    c ← Container.stop platform.bitmap platform.memory d.container
    ok (ltb 0 c.store.sensor_data.increase, record { container = c; is_global = false })

  -- SensorFromCoreBuiltin
  unfoldable pub core_sensor_of : ℕ → ℕ → BaseSensor → Result (Sensor B)
  core_sensor_of guards core base =
      if core == core_code_coverage
      then ok (Store.coverage base)
      else if core == core_value_profile
      then ok (new_value_profile guards base)
      else err exception

  unfoldable pub core_processor_of : ℕ → Result Processor
  core_processor_of type =
      if type == unique_type
      then ok (new_processor new_unique)
      else if type == noop_type
      then ok (new_processor Processor.noop)
      else err exception

  unfoldable pub sensor_from_core_builtin : ℕ → ℕ → ℕ → ℕ → Container B → Result (Container B)
  unfolding core_sensor_of core_processor_of add_made
  sensor_from_core_builtin guards id core type c = do
    sensor ← core_sensor_of guards core (new_base platform.memory 0 c.store)
    processor ← core_processor_of type
    add_made id sensor processor c

-- The functions that a target calls: each does nothing without a driver, but for the last two.
module _ {B : Type 0} where
  abbrev pub with_global : (Container B → Result (Container B)) → Driver B → Result (Driver B)
  with_global f d = if d.is_global then on_container f d else ok d

  abbrev pub sensor_enable : ℕ → Driver B → Result (Driver B)
  sensor_enable id d = with_global (Container.enable id) d

  abbrev pub sensor_disable : ℕ → Driver B → Result (Driver B)
  sensor_disable id d = with_global (Container.disable id) d

  abbrev pub sensor_unbind_builtin : ℕ → Driver B → Result (Driver B)
  sensor_unbind_builtin id d = with_global (λ c. err exception) d

  abbrev pub sensor_was_updated_by : ℕ → Driver B → Result Bool
  sensor_was_updated_by id d =
      if d.is_global then sensor_was_updated id d.container else err exception

  abbrev pub sensor_get_value_by : ℕ → Driver B → Result ℕ
  sensor_get_value_by id d = if d.is_global then sensor_get_value id d.container else err exception

module _ {B : Type 0} (platform : Platform B) where
  abbrev pub sensor_from_core : ℕ → ℕ → ℕ → ℕ → Driver B → Result (Driver B)
  sensor_from_core guards id core type d =
      with_global (sensor_from_core_builtin platform guards id core type) d

  abbrev pub sensor_bind_builtin : ℕ → ℕ → BuiltinType → Driver B → Result (Driver B)
  sensor_bind_builtin guards id type d = with_global (create_builtin platform guards id type none) d

  abbrev pub sensor_combine : ℕ → ℕ → ℕ → ℕ → Driver B → Result (Driver B)
  sensor_combine id id1 id2 type d = with_global (combine_sensors platform.memory id id1 id2 type) d
