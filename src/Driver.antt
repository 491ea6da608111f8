-- ===== src/Driver.antt =====
-- Driver of libvfuzz-runtime/src/sensor/driver.h and driver.cpp: the recording of what the sensors
-- see, the built-in sensors, and the functions by which a target speaks to the sensors.
pub mod Recording
pub mod Callbacks
pub mod Hooks
pub mod Histories
use vfuzz.Prelude.{
  ℕ, ◌+◌, ◌%◌, ◌^◌, Bool, true, false, List, [], ◌∷◌, length, Option, none, some, min, ltb, ◌==◌,
  if◌then◌else◌, Result, ok, err, ◌>>=◌, exception, fault, nth,
}
use vfuzz.OrdMap.{OrdMap}
use vfuzz.Codec.Words.{Chunk}
use vfuzz.Util.History.{Text}
use vfuzz.Util.AllocationTracker as Tracker
use vfuzz.Util.Text.{codes}
use vfuzz.Sensor.Base.{BaseSensor, Data, custom_update}
use vfuzz.Sensor.Processor.{Processor, State, new_highest, new_unique}
use vfuzz.Sensor.Processor as Processor
use vfuzz.Sensor.FlowTrace as FlowTrace
use vfuzz.Sensor.Kinds.{
  new_stack, update_stack, update_coverage, update_intensity, update_flowtrace,
  add_malloc_global_max, add_free_global_max,
}
use vfuzz.Sensor.Profile.{
  ValueBitMap, handle_caller_callee, add_value_for_memcmp, handle_cmp_profile,
}
use vfuzz.Sensor.Auto.{
  Call, set_name, callback, AutoSensor, unique_type, noop_type, add_malloc_single_max,
  update_cmp_diff, update_auto_intensity,
}
use vfuzz.Sensor.Store.{Sensor, Object, Receiver, Store, base_of, tell_calls, settle, at_most}
use vfuzz.Sensor.Store as Store
use vfuzz.Sensor.Container.{
  Container, Memory, new_processor, new_base, create, add_sensor_processor, set_sensor_name,
  combine_sensors, add_custom_if_not_exists, sensor_was_updated, sensor_get_value,
}
use vfuzz.Sensor.Container as Container

-- SensorBuiltinType, whose numbers are computed outside of the repository.
pub data BuiltinType : Type 0 where
  code_coverage stack_depth stack_unique flowtrace intensity : BuiltinType
  alloc_single_max alloc_global_max alloc_unique value_profile : BuiltinType
  func_enter cmp_diff auto_code_intensity : BuiltinType

-- What is outside of the repository, or left to the machine: the bitmap, the memory of a new one,
-- and the numbers of the built-in sensors and of the classes that give rise to sensors.
pub record Platform (B : Type 0) : Type 0 where
  pub bitmap : ValueBitMap B
  pub memory : Memory
  pub bits : B
  pub builtin_id : BuiltinType → ℕ
  pub single_max_id : ℕ
  pub cmp_diff_id : ℕ
  pub auto_intensity_id : ℕ

-- `is_global` tells whether g_sensor_driver points to the driver.
pub record Driver (B : Type 0) : Type 0 where
  pub container : Container B
  pub is_global : Bool

-- What an update of a sensor changes: the sensor, the calls of onReady, and those of the driver.
pub record Effect (B : Type 0) : Type 0 where
  pub sensor : Sensor B
  pub calls : List (ℕ × ℕ)
  pub requests : List Call

-- GetNumPCs
unfoldable pub get_num_pcs : ℕ → ℕ
get_num_pcs num_guards =
    if num_guards == 0 then 2 ^ 18 else min (2 ^ 21) ((num_guards + 1) % 2 ^ 64)

abbrev pub on_container :
    {B : Type 0} → (Container B → Result (Container B)) → Driver B → Result (Driver B)
on_container f d = do c ← f d.container; ok (record d { container = c })

module _ {B : Type 0} where
  -- The result of an update that asks nothing of the driver.
  abbrev pub quiet : {A : Type 0} → (A → Sensor B) → A × Option (ℕ × ℕ) → Result (Effect B)
  quiet class (s, call) = ok (record { sensor = class s; calls = at_most call; requests = [] })

  abbrev pub silent : {A : Type 0} → (A → Sensor B) → A → Result (Effect B)
  silent class s = ok (record { sensor = class s; calls = []; requests = [] })

  abbrev pub asking : {A : Type 0} → (A → Sensor B) → A × List Call → Result (Effect B)
  asking class (s, requests) = ok (record { sensor = class s; calls = []; requests = requests })

  -- Update of a StackSensor and of a FlowtraceSensor. Another class stands for a null pointer.
  unfoldable pub update_stack_sensor : ℕ → Sensor B → Result (Effect B)
  update_stack_sensor sp (Store.stack s) = quiet Store.stack (update_stack sp s)
  update_stack_sensor sp s = err fault

  unfoldable pub update_flowtrace_sensor : ℕ → Sensor B → Result (Effect B)
  update_flowtrace_sensor caller (Store.flowtrace s) =
      quiet Store.flowtrace (update_flowtrace caller s)
  update_flowtrace_sensor caller s = err fault

  -- The virtual AddFree of an AllocationSensor
  unfoldable pub add_free_sensor : ℕ → Sensor B → Result (Effect B)
  add_free_sensor ptr (Store.global_max s) = silent Store.global_max (add_free_global_max ptr s)
  add_free_sensor ptr (Store.single_max s) = silent Store.single_max s
  add_free_sensor ptr s = err fault

module _ {B : Type 0} (platform : Platform B) where
  -- The virtual Update of a PCSensor
  unfoldable pub update_pc_sensor : ℕ → Sensor B → Result (Effect B)
  update_pc_sensor pc (Store.coverage s) = quiet Store.coverage (update_coverage pc s)
  update_pc_sensor pc (Store.intensity s) = quiet Store.intensity (update_intensity s)
  update_pc_sensor pc (Store.auto_intensity s) =
      asking Store.auto_intensity (update_auto_intensity platform.auto_intensity_id pc s)
  update_pc_sensor pc s = err fault

  -- The virtual AddMalloc of an AllocationSensor
  unfoldable pub add_malloc_sensor : ℕ → ℕ → ℕ → Sensor B → Result (Effect B)
  add_malloc_sensor pc ptr size (Store.global_max s) =
      silent Store.global_max (add_malloc_global_max ptr size s)
  add_malloc_sensor pc ptr size (Store.single_max s) =
      asking Store.single_max (add_malloc_single_max platform.single_max_id pc size s)
  add_malloc_sensor pc ptr size s = err fault

  -- HandleCallerCallee, AddValueForMemcmp and HandleCmp of a ValueProfileSensor
  unfoldable pub caller_callee_sensor : ℕ → ℕ → Sensor B → Result (Effect B)
  caller_callee_sensor caller callee (Store.value_profile s) =
      silent Store.value_profile (handle_caller_callee platform.bitmap caller callee s)
  caller_callee_sensor caller callee s = err fault

  unfoldable pub memcmp_sensor : ℕ → Chunk → Chunk → ℕ → Bool → Sensor B → Result (Effect B)
  memcmp_sensor pc s1 s2 n stop_at_zero (Store.value_profile s) = do
    s ← add_value_for_memcmp platform.bitmap pc s1 s2 n stop_at_zero s
    silent Store.value_profile s
  memcmp_sensor pc s1 s2 n stop_at_zero s = err fault

  unfoldable pub profile_cmp_sensor : ℕ → ℕ → ℕ → Sensor B → Result (Effect B)
  profile_cmp_sensor pc arg1 arg2 (Store.value_profile s) =
      silent Store.value_profile (handle_cmp_profile platform.bitmap pc arg1 arg2 s)
  profile_cmp_sensor pc arg1 arg2 s = err fault

  -- The virtual Update of a CMPSensor
  unfoldable pub update_cmp_sensor : ℕ → ℕ → ℕ → Sensor B → Result (Effect B)
  update_cmp_sensor pc arg1 arg2 (Store.cmp_diff s) =
      asking Store.cmp_diff (update_cmp_diff platform.cmp_diff_id pc arg1 arg2 s)
  update_cmp_sensor pc arg1 arg2 s = err fault

  -- CustomCallback
  unfoldable pub custom_callback : ℕ → ℕ → ℕ → Driver B → Result (Driver B)
  custom_callback id value type d = do
    (k, c) ← add_custom_if_not_exists platform.memory id type d.container
    o ← nth c.store.objects k
    s ←
        tell_calls platform.memory.lowest o.receiver
          (at_most (custom_update value (base_of o.sensor))) c.store
    ok (record d { container = record c { store = s } })

  -- sensor_callback, sensor_set_name
  unfoldable pub sensor_callback : ℕ → ℕ → ℕ → Driver B → Result (Driver B)
  unfolding custom_callback
  sensor_callback id value type d = if d.is_global then custom_callback id value type d else ok d

  abbrev pub sensor_set_name : ℕ → Text → Driver B → Result (Driver B)
  sensor_set_name id name d = if d.is_global then on_container (set_sensor_name id name) d else ok d

  unfoldable pub perform : List Call → Driver B → Result (Driver B)
  unfolding sensor_callback
  perform [] d = ok d
  perform (set_name id name ∷ more) d = do d ← sensor_set_name id name d; perform more d
  perform (callback id value type ∷ more) d = do d ← sensor_callback id value type d; perform more d

  -- An update of the sensor at a place, and what follows.
  unfoldable pub update_at : (Sensor B → Result (Effect B)) → ℕ → Driver B → Result (Driver B)
  unfolding perform
  update_at f k d = do
    o ← nth d.container.store.objects k
    e ← f o.sensor
    s ← settle platform.memory.lowest k o (e.sensor, e.calls) d.container.store
    perform e.requests (record d { container = record d.container { store = s } })

  -- ForEachPCSensor to ForEachCMPSensor
  unfoldable pub update_all : (Sensor B → Result (Effect B)) → List ℕ → Driver B → Result (Driver B)
  unfolding update_at
  update_all f [] d = ok d
  update_all f (k ∷ ks) d = do d ← update_at f k d; update_all f ks d

  -- builtin_AddPC to builtin_HandleCmp. builtin_AddFuncEnter does nothing. The stack pointer is
  -- read in each StackSensor::Update.
  abbrev pub builtin_add_pc : ℕ → Driver B → Result (Driver B)
  builtin_add_pc pc d = update_all (update_pc_sensor pc) d.container.pc_sensors d

  abbrev pub builtin_add_stack : ℕ → Driver B → Result (Driver B)
  builtin_add_stack sp d = update_all (update_stack_sensor sp) d.container.stack_sensors d

  abbrev pub builtin_handle_stacktrace : ℕ → Driver B → Result (Driver B)
  builtin_handle_stacktrace caller d =
      update_all (update_flowtrace_sensor caller) d.container.flowtrace_sensors d

  abbrev pub builtin_malloc : ℕ → ℕ → ℕ → Driver B → Result (Driver B)
  builtin_malloc pc ptr size d =
      update_all (add_malloc_sensor pc ptr size) d.container.allocation_sensors d

  abbrev pub builtin_free : ℕ → Driver B → Result (Driver B)
  builtin_free ptr d = update_all (add_free_sensor ptr) d.container.allocation_sensors d

  abbrev pub builtin_handle_caller_callee : ℕ → ℕ → Driver B → Result (Driver B)
  builtin_handle_caller_callee caller callee d =
      update_all (caller_callee_sensor caller callee) d.container.value_profile_sensors d

  abbrev pub builtin_add_value_for_memcmp :
      ℕ → Chunk → Chunk → ℕ → Bool → Driver B → Result (Driver B)
  builtin_add_value_for_memcmp pc s1 s2 n stop d =
      update_all (memcmp_sensor pc s1 s2 n stop) d.container.value_profile_sensors d

  unfoldable pub builtin_handle_cmp : ℕ → ℕ → ℕ → Driver B → Result (Driver B)
  unfolding update_all
  builtin_handle_cmp pc arg1 arg2 d = do
    d ← update_all (profile_cmp_sensor pc arg1 arg2) d.container.value_profile_sensors d
    update_all (update_cmp_sensor pc arg1 arg2) d.container.cmp_sensors d
