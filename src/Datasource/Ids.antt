-- ===== src/Datasource/Ids.antt =====
-- libvfuzz-core/src/datasource/id.cpp. ApplyGeneratorIDSet does nothing.
use vfuzz.Prelude.{ℕ, List, [], ◌∷◌, Result, ok, ◌>>=◌}
use vfuzz.Util.History.{Text}
use vfuzz.Driver.{Driver, Platform, sensor_set_name}

-- ApplySensorIDSet, over the IDs by name
unfoldable pub apply_sensor_id_set :
    {B : Type 0} → Platform B → List (Text × ℕ) → Driver B → Result (Driver B)
apply_sensor_id_set platform [] d = ok d
apply_sensor_id_set platform ((name, id) ∷ more) d = do
  d ← sensor_set_name platform id name d
  apply_sensor_id_set platform more d
