-- ===== src/Driver/Histories.antt =====
-- What holds after any sequence of calls of libvfuzz-runtime/src/sensor/driver.cpp, the built-in
-- sensors set aside.
use vfuzz.Prelude.{
  ℕ, get_elem?, some, ◌≡◌, sym, Bool, List, [], ◌∷◌, Result, ok, err, ◌>>=◌, runtime_error,
}
use mathlib.Core.Path.{subst}
use vfuzz.OrdMap.{lookup}
use vfuzz.Sensor.Store.Shapes.{Shape}
use vfuzz.Util.History.{Text}
use vfuzz.Sensor.Container.{
  Container, combine_sensors, enable, disable, set_sensor_name, sensor_get_value,
}
use vfuzz.Sensor.Container.Validity.{Orderly, >>=-Orderly, Orderly-map, IsValid}
use vfuzz.Sensor.Container.Switching.{
  Switches, enable-Switches, disable-Switches, set_sensor_name-Switches, start-Switches,
  stop-Switches, sensor_get_value-throws,
}
use vfuzz.Sensor.Container.Combining.{Combines, combine_sensors-Orderly}
use vfuzz.Driver.{Driver, Platform, sensor_callback, sensor_set_name, on_container}
use vfuzz.Driver.Recording.{
  new_container, start_record, stop_record, with_global, sensor_combine, sensor_enable,
  sensor_disable,
}
use vfuzz.Driver.Callbacks.{sensor_callback-Orderly, guarded}

nothing : (i : ℕ) (h : Shape) → get_elem? [] i ≡ some h → ⊥
nothing i h at = absurd cc

no_entry : (id t : ℕ) → lookup id [] ≡ some t → ⊥
unfolding lookup
no_entry id t at = absurd cc

pub new_container-IsValid : {B : Type 0} → IsValid {B = B} new_container
new_container-IsValid = (
  record {
    linked = record {
      leads = λ i h at. absurd (nothing i h at);
      wired = λ i h at. absurd (nothing i h at);
    };
    fit = tt;
  },
  (tt, (λ id t at. absurd (no_entry id t at), tt), (tt, tt, tt, tt, tt, tt)),
)

-- The calls of a target, and StartRecord and StopRecord around its run.
pub data Step : Type 0 where
  callback : ℕ → ℕ → ℕ → Step
  name : ℕ → Text → Step
  combine : ℕ → ℕ → ℕ → ℕ → Step
  switch_on switch_off : ℕ → Step
  record_on record_off : Step

-- The driver's sensors are linked as they should be.
abbrev HasValid : {B : Type 0} → Driver B → Type 0
HasValid d = IsValid d.container

abbrev pub unset : {B : Type 0} → Bool → Driver B
unset b = record { container = new_container; is_global = b }

module _ {B : Type 0} (platform : Platform B) where
  unfoldable pub take_step : Step → Driver B → Result (Driver B)
  take_step (callback id value type) d = sensor_callback platform id value type d
  take_step (name id text) d = sensor_set_name platform id text d
  take_step (combine id id1 id2 type) d = sensor_combine platform id id1 id2 type d
  take_step (switch_on id) d = sensor_enable id d
  take_step (switch_off id) d = sensor_disable id d
  take_step record_on d = start_record platform d
  take_step record_off d = do (increase, d) ← stop_record platform d; ok d

  unfoldable pub take_steps : List Step → Driver B → Result (Driver B)
  unfolding take_step
  take_steps [] d = ok d
  take_steps (s ∷ steps) d = do d ← take_step s d; take_steps steps d

  on_container-Orderly :
      (f : Container B → Result (Container B)) (d : Driver B)
      → Orderly IsValid (f d.container)
      → Orderly HasValid (on_container f d)
  on_container-Orderly f d h = >>=-Orderly IsValid HasValid (f d.container) _ h (λ c v. v)

  with_global-Orderly :
      (f : Container B → Result (Container B)) (d : Driver B)
      → HasValid d
      → Orderly IsValid (f d.container)
      → Orderly HasValid (with_global f d)
  with_global-Orderly f d v h =
      guarded d.is_global d v (on_container f d) (on_container-Orderly f d h)

  Switches-Orderly :
      (f : Container B → Result (Container B)) (c : Container B)
      → Switches f c
      → Orderly IsValid (f c)
  Switches-Orderly f c (c', e, v, same) = subst (Orderly IsValid) (sym e) v

  take_step-Orderly : (s : Step) (d : Driver B) → HasValid d → Orderly HasValid (take_step s d)
  unfolding take_step start_record stop_record
  take_step-Orderly (callback id value type) d v =
      sensor_callback-Orderly platform id value type d v
  take_step-Orderly (name id text) d v = with_global-Orderly (set_sensor_name id text) d v (
      Switches-Orderly (set_sensor_name id text) d.container
        (set_sensor_name-Switches id text d.container v))
  take_step-Orderly (combine id id1 id2 type) d v =
      let f = combine_sensors platform.memory id id1 id2 type in
      with_global-Orderly f d v (
        Orderly-map (Combines id id1 id2 type d.container) IsValid (f d.container) (λ c h. h.0.0)
          (combine_sensors-Orderly platform.memory id id1 id2 type d.container v))
  take_step-Orderly (switch_on id) d v =
      with_global-Orderly (enable id) d v
        (Switches-Orderly (enable id) d.container (enable-Switches id d.container v))
  take_step-Orderly (switch_off id) d v =
      with_global-Orderly (disable id) d v
        (Switches-Orderly (disable id) d.container (disable-Switches id d.container v))
  take_step-Orderly record_on d v =
      let c : Container B = record d.container {
        store = record d.container.store { sensor_data = record { increase = 0 } };
      } in
      let valid : IsValid c = (record { linked = v.0.linked; fit = v.0.fit }, v.1) in
      let (c', e, v', same) = start-Switches platform.bitmap platform.memory c valid in rw e v'
  take_step-Orderly record_off d v =
      let (c', e, v', same) = stop-Switches platform.bitmap platform.memory d.container v in rw e v'

  take_steps-Orderly :
      (steps : List Step) (d : Driver B) → HasValid d → Orderly HasValid (take_steps steps d)
  unfolding take_steps
  take_steps-Orderly [] d v = v
  take_steps-Orderly (s ∷ steps) d v =
      >>=-Orderly HasValid HasValid (take_step s d) (take_steps steps) (take_step-Orderly s d v)
        (λ d' v'. take_steps-Orderly steps d' v')

  -- From a driver without sensors, after any calls of sensor_callback, sensor_set_name, sensor_combine,
  -- sensor_enable, sensor_disable, StartRecord and StopRecord, in any order: one of them throws an
  -- exception, or SensorGetValue then throws std::runtime_error for every ID, since none of them
  -- gives a SensorProcessor a value of its own.
  pub get_value-throws_always :
      (b : Bool) (steps : List Step) (id : ℕ)
      → Orderly
          (λ (d : Driver B). sensor_get_value id d.container ≡ err runtime_error)
          (take_steps steps (unset b))
  get_value-throws_always b steps id =
      Orderly-map HasValid (λ (d : Driver B). sensor_get_value id d.container ≡ err runtime_error)
        (take_steps steps (unset b)) (λ d v. sensor_get_value-throws id d.container v)
        (take_steps-Orderly steps (unset b) new_container-IsValid)
