-- ===== src/Sensor/Profile.antt =====
-- ValueProfileSensor of libvfuzz-core/src/sensor/sensor/valueprofile.h and valueprofile.cpp. The
-- bitmap is a copy of another project's code and an interface.
use vfuzz.Prelude.{
  ℕ, zero, suc, ◌+◌, ◌*◌, ◌/◌, ◌%◌, ◌^◌, Bool, not, ◌&&◌, ◌||◌, List, [], ◌∷◌, length, take, min,
  some, none, ltb, ◌==◌, if◌then◌else◌, Result, ok, err, fault,
}
use vfuzz.Codec.Words.{Chunk}
use vfuzz.AutoDict.{xor}
use vfuzz.Sensor.Base.{BaseSensor, is_effectively_enabled, propagate}

-- ValueBitMap: Reset, AddValue, AddValueModPrime, and what ForEach goes through.
pub record ValueBitMap (B : Type 0) : Type 0 where
  pub reset : B → B
  pub add_value : ℕ → B → B
  pub add_value_mod_prime : ℕ → B → B
  pub set_bits : B → List ℕ

pub record ValueProfileSensor (B : Type 0) : Type 0 where
  pub base : BaseSensor
  pub value_profile_map : B
  pub num_pcs : ℕ

-- propagate for each value in turn: the sensor, and the calls of onReady.
unfoldable pub propagate_all : List ℕ → BaseSensor → BaseSensor × List (ℕ × ℕ)
propagate_all [] s = (s, [])
propagate_all (value ∷ values) s =
    let (s', call) = propagate value s in
    let (last, calls) = propagate_all values s' in
    (last, elim call [ none ↦ calls | some c ↦ c ∷ calls ])

abbrev pub profile_values : ℕ → List ℕ → List ℕ
profile_values num_pcs [] = []
profile_values num_pcs (index ∷ more) = (num_pcs * 8 + index) % 2 ^ 64 ∷ profile_values num_pcs more

-- `(pc & 4095) | (high << 12)`, of which no bits meet
abbrev pub index_of : ℕ → ℕ → ℕ
index_of pc high = (pc % 4096 + high * 4096) % 2 ^ 64

-- __builtin_popcountll, of so many bits
unfoldable pub popcount : ℕ → ℕ → ℕ
popcount zero n = 0
popcount (suc bits) n = n % 2 + popcount bits (n / 2)

-- The second loop of AddValueForMemcmp: the first place where the texts differ, or end at zero.
unfoldable pub first_difference : Bool → Chunk → Chunk → ℕ
first_difference stop_at_zero [] bs = 0
first_difference stop_at_zero (a ∷ as') [] = 0
first_difference stop_at_zero (a ∷ as') (b ∷ bs) =
    let rest = first_difference stop_at_zero as' bs in
    if not (a == b) || (stop_at_zero && a == 0) then 0 else suc rest

module _ {B : Type 0} (bitmap : ValueBitMap B) where
  -- `start` of ValueProfileSensor
  abbrev pub start_profile : ValueProfileSensor B → ValueProfileSensor B
  start_profile s = record s { value_profile_map = bitmap.reset s.value_profile_map }

  -- `stop` of ValueProfileSensor
  unfoldable pub stop_profile : ValueProfileSensor B → ValueProfileSensor B × List (ℕ × ℕ)
  stop_profile s =
      let values = profile_values s.num_pcs (bitmap.set_bits s.value_profile_map) in
      let (base, calls) = propagate_all values s.base in (record s { base = base }, calls)

  -- HandleCallerCallee
  unfoldable pub handle_caller_callee : ℕ → ℕ → ValueProfileSensor B → ValueProfileSensor B
  handle_caller_callee caller callee s =
      if not (is_effectively_enabled s.base) then s else record s {
        value_profile_map =
            bitmap.add_value_mod_prime (index_of caller (callee % 4096)) s.value_profile_map;
      }

  -- AddValueForMemcmp, on the memory that the pointers lead to. The hash is not used.
  unfoldable pub add_value_for_memcmp :
      ℕ → Chunk → Chunk → ℕ → Bool → ValueProfileSensor B → Result (ValueProfileSensor B)
  unfolding first_difference
  add_value_for_memcmp caller_pc s1 s2 n stop_at_zero s =
      let len = min n 64 in
      if not (is_effectively_enabled s.base) || n == 0
      then ok s
      else if ltb (length s1) len || ltb (length s2) len
      then err fault
      else ok (record s {
        value_profile_map =
            bitmap.add_value
              (index_of caller_pc (first_difference stop_at_zero (take len s1) (take len s2)))
              s.value_profile_map;
      })

  -- HandleCmp of ValueProfileSensor
  unfoldable pub handle_cmp_profile : ℕ → ℕ → ℕ → ValueProfileSensor B → ValueProfileSensor B
  unfolding popcount
  handle_cmp_profile pc arg1 arg2 s = if not (is_effectively_enabled s.base) then s else record s {
    value_profile_map =
        bitmap.add_value (((pc % 4096 + 1) * (popcount 64 (xor 64 arg1 arg2) + 1)) % 2 ^ 64)
          s.value_profile_map;
  }
