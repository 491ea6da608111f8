-- ===== src/Sensor/Auto.antt =====
-- The sensors of libvfuzz-core/src/sensor/sensor/auto, which give rise to new sensors: AutoSensor,
-- AllocationSingleMaxSensor, CMPDiffSensor and AutoCodeIntensitySensor. What an update asks of the
-- driver is a list of calls. The IDs of the classes are computed outside of the repository.
use vfuzz.Prelude.{
  ℕ, zero, suc, ◌+◌, ◌-◌, ◌/◌, ◌%◌, ◌^◌, Bool, true, not, List, [], ◌∷◌, ◌++◌, some, none, ltb,
  if◌then◌else◌,
}
use vfuzz.OrdMap.{OrdMap, lookup, contains, assign}
use vfuzz.Util.History.{Text}
use vfuzz.Util.Text.{codes}
use vfuzz.Sensor.Base.{BaseSensor, is_effectively_enabled}

-- kProcessorTypeHighest to kProcessorTypeNoop, of an enum that may hold any number
abbrev pub highest_type : ℕ
highest_type = 1

abbrev pub lowest_type : ℕ
lowest_type = 2

abbrev pub unique_type : ℕ
unique_type = 3

abbrev pub noop_type : ℕ
noop_type = 4

-- sensor_set_name, and sensor_callback with the type of the processor
pub data Call : Type 0 where
  set_name : ℕ → Text → Call
  callback : ℕ → ℕ → ℕ → Call

-- A BaseSensor that is an AutoSensor.
pub record AutoSensor : Type 0 where
  pub base : BaseSensor
  pub pc_seen : OrdMap Bool

-- The digits of a number below 16 to the power of the first argument, as std::hex writes them.
unfoldable pub hexadecimal : ℕ → ℕ → Text
hexadecimal zero n = []
hexadecimal (suc k) n =
    let digit = if ltb (n % 16) 10 then 48 + n % 16 else 87 + n % 16 in
    let more = hexadecimal k (n / 16) ++ (digit ∷ []) in if ltb n 16 then digit ∷ [] else more

-- setAutoSensorName
unfoldable pub set_auto_sensor_name : Text → ℕ → ℕ → AutoSensor → AutoSensor × List Call
unfolding hexadecimal
set_auto_sensor_name prefix id pc s = if contains pc s.pc_seen then (s, []) else (
  record s { pc_seen = assign pc true s.pc_seen },
  set_name id (prefix ++ (codes "/" ++ (codes "0x" ++ hexadecimal 16 pc))) ∷ [],
)

-- AllocationSingleMaxSensor::AddMalloc. AddFree does nothing.
unfoldable pub add_malloc_single_max : ℕ → ℕ → ℕ → AutoSensor → AutoSensor × List Call
unfolding set_auto_sensor_name
add_malloc_single_max class_id pc size s =
    let new_id = (pc + class_id) % 2 ^ 64 in
    if not (is_effectively_enabled s.base)
    then (s, [])
    else (let (s', named) = set_auto_sensor_name (codes "AllocationSingleMax") new_id pc s in
        (s', named ++ (callback new_id size highest_type ∷ [])))

-- CMPDiffSensor::Update
unfoldable pub update_cmp_diff : ℕ → ℕ → ℕ → ℕ → AutoSensor → AutoSensor × List Call
unfolding set_auto_sensor_name
update_cmp_diff class_id pc a b s =
    let new_id = (pc + class_id) % 2 ^ 64 in
    let diff = if ltb b a then a - b else b - a in
    if not (is_effectively_enabled s.base)
    then (s, [])
    else (let (s', named) = set_auto_sensor_name (codes "CMPDiff") new_id pc s in
        (s', named ++ (callback new_id diff lowest_type ∷ [])))

pub record AutoCodeIntensitySensor : Type 0 where
  pub auto_sensor : AutoSensor
  pub pc_to_intensity : OrdMap ℕ

-- `start` of AutoCodeIntensitySensor
abbrev pub start_auto_intensity : AutoCodeIntensitySensor → AutoCodeIntensitySensor
start_auto_intensity s = record s { pc_to_intensity = [] }

-- `PCToIntensity[PC]`, which starts at 0
abbrev pub intensity_of : ℕ → OrdMap ℕ → ℕ
intensity_of pc m = elim (lookup pc m) [ none ↦ 0 | some n ↦ n ]

-- AutoCodeIntensitySensor::Update
unfoldable pub update_auto_intensity :
    ℕ → ℕ → AutoCodeIntensitySensor → AutoCodeIntensitySensor × List Call
unfolding set_auto_sensor_name
update_auto_intensity class_id pc s =
    let new_id = (pc + class_id) % 2 ^ 64 in
    if not (is_effectively_enabled s.auto_sensor.base)
    then (s, [])
    else (let (auto, named) =
          set_auto_sensor_name (codes "AutoCodeIntensity") new_id pc s.auto_sensor in
        let n = (intensity_of pc s.pc_to_intensity + 1) % 2 ^ 64 in
        (
          record { auto_sensor = auto; pc_to_intensity = assign pc n s.pc_to_intensity },
          named ++ (callback new_id n highest_type ∷ []),
        ))
