-- ===== src/Sensor/Base.antt =====
-- BaseSensor and CustomSensor of libvfuzz-core/src/sensor/sensor/base.h, base.cpp and custom.cpp,
-- and Data of sensor/data/data.h and data.cpp. What a sensor tells onReady is a value.
use vfuzz.Prelude.{
  ℕ, ◌+◌, ◌%◌, ◌^◌, Bool, true, false, not, ◌&&◌, ◌||◌, Option, none, some, Result, ok, err,
  runtime_error, ◌==◌, if◌then◌else◌,
}

-- `address` is what `this` converts to.
pub record BaseSensor : Type 0 where
  pub address : ℕ
  pub id : ℕ
  pub subordinated : Bool
  pub last_value : Option ℕ
  pub is_updated : Bool
  pub has_on_ready : Bool
  pub stopped : Bool
  pub disabled : Bool

-- BaseSensor(ID), which leaves `isUpdated` as it is in memory
abbrev pub new : ℕ → Bool → ℕ → BaseSensor
new address junk id = record {
  address = address;
  id = id;
  subordinated = false;
  last_value = none;
  is_updated = junk;
  has_on_ready = false;
  stopped = false;
  disabled = false;
}

-- GetID
unfoldable pub get_id : BaseSensor → ℕ
get_id s = if s.id == 0 || s.subordinated then s.address else s.id

abbrev pub subordinate : BaseSensor → BaseSensor
subordinate s = record s { subordinated = true }

abbrev pub set_on_ready : BaseSensor → BaseSensor
set_on_ready s = record s { has_on_ready = true }

abbrev pub enable : BaseSensor → BaseSensor
enable s = record s { disabled = false }

abbrev pub disable : BaseSensor → BaseSensor
disable s = record s { disabled = true }

-- Start and Stop, of a class whose `start` and `stop` do nothing
abbrev pub start : BaseSensor → BaseSensor
start s = record s { is_updated = false; stopped = false }

abbrev pub stop : BaseSensor → BaseSensor
stop s = record s { stopped = true }

-- isEffectivelyEnabled
abbrev pub is_effectively_enabled : BaseSensor → Bool
is_effectively_enabled s = not s.stopped && not s.disabled

-- propagate: the sensor, and the call of onReady, if there is one
unfoldable pub propagate : ℕ → BaseSensor → BaseSensor × Option (ℕ × ℕ)
unfolding get_id
propagate value s =
    if not (is_effectively_enabled s)
    then (s, none)
    else (record s { is_updated = true; last_value = some value }, some (get_id s, value))

-- CustomSensor::Update: the call of onReady, if there is one
unfoldable pub custom_update : ℕ → BaseSensor → Option (ℕ × ℕ)
unfolding get_id
custom_update value s =
    if not (is_effectively_enabled s)
    then none
    else if s.has_on_ready
    then some (get_id s, value)
    else none

-- GetLastValue
unfoldable pub get_last_value : BaseSensor → Result ℕ
get_last_value s = elim s.last_value [ none ↦ err runtime_error | some value ↦ ok value ]

-- WasUpdated
abbrev pub was_updated : BaseSensor → Bool
was_updated s = s.is_updated

-- Data. `increase_per_sensor` never gets an entry.
pub record Data : Type 0 where
  pub increase : ℕ

-- Data::ReceiveInput
abbrev pub data_receive : Data → Data
data_receive d = record d { increase = (d.increase + 1) % 2 ^ 64 }
