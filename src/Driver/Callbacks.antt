-- ===== src/Driver/Callbacks.antt =====
-- sensor_callback of libvfuzz-runtime/src/sensor/driver.cpp keeps the sensors valid.
use vfuzz.Prelude.{
  ℕ, refl, sym, Bool, true, false, Result, ok, ◌>>=◌, nth, nth_inside, if◌then◌else◌,
}
use mathlib.Core.Path.{subst}
use vfuzz.Sensor.Base.{custom_update}
use vfuzz.Sensor.Store.{base_of, tell_calls, at_most}
use vfuzz.Sensor.Store.Shapes.{shape, shapes, get_elem?-map}
use vfuzz.Sensor.Store.Working.{object_at, tell_calls-Works}
use vfuzz.Sensor.Container.{Container, add_custom_if_not_exists}
use vfuzz.Sensor.Container.Validity.{Orderly, >>=-Orderly, Indexes, IsValid}
use vfuzz.Sensor.Container.Customs.{CustomAt, add_custom_if_not_exists-Orderly}
use vfuzz.Driver.{Driver, Platform, custom_callback, sensor_callback}

pub guarded :
    {B : Type 0} (b : Bool) (d : Driver B)
    → IsValid d.container
    → (m : Result (Driver B)) → Orderly (λ (d' : Driver B). IsValid d'.container) m
    → Orderly (λ (d' : Driver B). IsValid d'.container) (if b then m else ok d)
guarded true d v m h = h
guarded false d v m h = v

module _ {B : Type 0} (platform : Platform B) where
  -- The update of the custom sensor at a place, and what follows from it.
  abbrev updated : ℕ → Driver B → ℕ × Container B → Result (Driver B)
  updated value d (k, c) = do
    o ← nth c.store.objects k
    s ←
        tell_calls platform.memory.lowest o.receiver
          (at_most (custom_update value (base_of o.sensor))) c.store
    ok (record d { container = record c { store = s } })

  updated-Orderly :
      (id value : ℕ) (d : Driver B) (r : ℕ × Container B)
      → CustomAt id d.container r
      → Orderly (λ (d' : Driver B). IsValid d'.container) (updated value d r)
  updated-Orderly id value d (k, c) h =
      let hs = shapes c.store in
      let (o, at, eo) = object_at hs k c.store h.2 refl in
      let leads = h.0.0.0.linked.leads k (shape o) (get_elem?-map shape c.store.objects k o at) in
      let (s, eq, sound, same) =
        tell_calls-Works hs platform.memory.lowest k o.receiver
          (at_most (custom_update value (base_of o.sensor))) leads c.store h.0.0.0 refl in
      let valid : IsValid (record c { store = s }) =
        (sound, subst (λ xs. Indexes xs (record c { store = s })) (sym same) h.0.0.1) in
      rw (nth_inside c.store.objects k o at) (rw eq valid)

  -- In a valid state a call of sensor_callback, with any ID, value and type of processor, throws an
  -- exception or returns in a valid state: the chain of callbacks comes to an end, none of them is
  -- empty, and no place is read that is not there.
  pub sensor_callback-Orderly :
      (id value type : ℕ) (d : Driver B)
      → IsValid d.container
      → Orderly (λ (d' : Driver B). IsValid d'.container) (sensor_callback platform id value type d)
  unfolding sensor_callback custom_callback
  sensor_callback-Orderly id value type d v =
      guarded d.is_global d v (custom_callback platform id value type d) (
        >>=-Orderly (CustomAt id d.container) (λ (d' : Driver B). IsValid d'.container)
          (add_custom_if_not_exists platform.memory id type d.container) (updated value d)
          (add_custom_if_not_exists-Orderly platform.memory id type d.container v)
          (λ r h. updated-Orderly id value d r h))
