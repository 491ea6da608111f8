-- ===== src/Sensor/Kinds.antt =====
-- Sensors of libvfuzz-core/src/sensor/sensor: StackSensor, CodeCoverageSensor, CodeIntensitySensor,
-- AllocationGlobalMaxSensor and FlowtraceSensor. An update gives the call of onReady, if there is
-- one.
pub mod Depth
use vfuzz.Prelude.{
  ℕ, ◌+◌, ◌-◌, ◌%◌, ◌^◌, Bool, true, false, not, List, [], ◌∷◌, ◌++◌, length, Option, none, some,
  ltb, ◌==◌, if◌then◌else◌,
}
use vfuzz.Codec.Words.{Chunk}
use vfuzz.Dictionary.{insert_chunk}
use vfuzz.Util.AllocationTracker.{AllocationTracker}
use vfuzz.Util.AllocationTracker as Tracker
use vfuzz.Sensor.Base.{BaseSensor, is_effectively_enabled, propagate}
use vfuzz.Sensor.Base as Base
use vfuzz.Sensor.FlowTrace.{FlowTracker}
use vfuzz.Sensor.FlowTrace as FlowTrace

pub record StackSensor : Type 0 where
  pub base : BaseSensor
  pub stack_depth_record : ℕ
  pub stack_depth_base : ℕ

-- StackSensor(ID)
abbrev pub new_stack : BaseSensor → StackSensor
new_stack base = record { base = base; stack_depth_record = 0; stack_depth_base = 0 }

-- delta
abbrev pub delta : StackSensor → ℕ
delta s = (s.stack_depth_record + 2 ^ 64 - s.stack_depth_base) % 2 ^ 64

-- The depth that StackSensor::Update takes from the stack pointer.
abbrev pub depth_of : ℕ → ℕ
depth_of sp = (2 ^ 63 + 2 ^ 64 - sp) % 2 ^ 64

-- The records that StackSensor::Update keeps of a depth above all others.
abbrev pub deepen : ℕ → StackSensor → StackSensor
deepen p s = record s {
  stack_depth_record = p;
  stack_depth_base = if s.stack_depth_base == 0 then p else s.stack_depth_base;
}

-- StackSensor::Update, on the stack pointer that it reads
unfoldable pub update_stack : ℕ → StackSensor → StackSensor × Option (ℕ × ℕ)
unfolding propagate
update_stack sp s =
    if not (is_effectively_enabled s.base)
    then (s, none)
    else if ltb s.stack_depth_record (depth_of sp)
    then (let s' = deepen (depth_of sp) s in
        let (base, call) = propagate (delta s') s'.base in (record s' { base = base }, call))
    else (s, none)

-- CodeCoverageSensor::Update
abbrev pub update_coverage : ℕ → BaseSensor → BaseSensor × Option (ℕ × ℕ)
update_coverage pc s = if not (is_effectively_enabled s) then (s, none) else propagate pc s

pub record CodeIntensitySensor : Type 0 where
  pub base : BaseSensor
  pub val : ℕ

-- Start of CodeIntensitySensor
abbrev pub start_intensity : CodeIntensitySensor → CodeIntensitySensor
start_intensity s = record s { val = 0; base = Base.start s.base }

-- CodeIntensitySensor::Update
unfoldable pub update_intensity : CodeIntensitySensor → CodeIntensitySensor × Option (ℕ × ℕ)
unfolding propagate
update_intensity s =
    if not (is_effectively_enabled s.base)
    then (s, none)
    else (let val = (s.val + 1) % 2 ^ 64 in
        let (base, call) = propagate val s.base in (record { base = base; val = val }, call))

pub record AllocationGlobalMaxSensor : Type 0 where
  pub base : BaseSensor
  pub allocation_tracker : AllocationTracker

-- Start and Stop of AllocationGlobalMaxSensor
abbrev pub start_global_max : AllocationGlobalMaxSensor → AllocationGlobalMaxSensor
start_global_max s = record s {
  allocation_tracker = Tracker.enable (Tracker.reset s.allocation_tracker);
  base = Base.start s.base;
}

unfoldable pub stop_global_max :
    AllocationGlobalMaxSensor → AllocationGlobalMaxSensor × Option (ℕ × ℕ)
unfolding propagate
stop_global_max s =
    let tracker = Tracker.disable s.allocation_tracker in
    let (base, call) = propagate (Tracker.get_max tracker) s.base in
    (record { base = Base.stop base; allocation_tracker = tracker }, call)

-- AllocationGlobalMaxSensor::AddMalloc, AddFree
abbrev pub add_malloc_global_max : ℕ → ℕ → AllocationGlobalMaxSensor → AllocationGlobalMaxSensor
add_malloc_global_max ptr size s =
    if not (is_effectively_enabled s.base)
    then s
    else record s { allocation_tracker = Tracker.add_malloc ptr size s.allocation_tracker }

abbrev pub add_free_global_max : ℕ → AllocationGlobalMaxSensor → AllocationGlobalMaxSensor
add_free_global_max ptr s =
    if not (is_effectively_enabled s.base)
    then s
    else record s { allocation_tracker = Tracker.add_free ptr s.allocation_tracker }

-- FlowtraceSensor, whose `stackTraces` is a set of vectors of numbers
pub record FlowtraceSensor : Type 0 where
  pub base : BaseSensor
  pub flow_tracker : FlowTracker
  pub stack_traces : List (List ℕ)

-- Start of FlowtraceSensor
abbrev pub start_flowtrace : FlowtraceSensor → FlowtraceSensor
start_flowtrace s = record s {
  flow_tracker = FlowTrace.reset s.flow_tracker;
  base = Base.start s.base;
}

-- FlowtraceSensor::Update
unfoldable pub update_flowtrace : ℕ → FlowtraceSensor → FlowtraceSensor × Option (ℕ × ℕ)
unfolding propagate
update_flowtrace caller s =
    if not (is_effectively_enabled s.base)
    then (s, none)
    else (let tracker = FlowTrace.add caller s.flow_tracker in
        let traces = insert_chunk (FlowTrace.get_track tracker) s.stack_traces in
        let (base, call) = propagate (length traces) s.base in
        (record { base = base; flow_tracker = tracker; stack_traces = traces }, call))

-- StackSensor::Update for each stack pointer in turn: the sensor, and the values that it tells.
unfoldable pub update_stacks : List ℕ → StackSensor → StackSensor × List ℕ
unfolding update_stack
update_stacks [] s = (s, [])
update_stacks (sp ∷ sps) s =
    let (s', call) = update_stack sp s in
    let (last, values) = update_stacks sps s' in
    (last, elim call [ none ↦ values | some (id, value) ↦ value ∷ values ])
