-- ===== src/Sensor/Container/Switching.antt =====
-- Enable, Disable, Start, Stop and SetSensorName of the container return and keep the invariant.
-- SensorGetValue never gives a value.
use vfuzz.Prelude.{
  ℕ, ◌≡◌, refl, ap, ◌∙◌, List, [], ◌∷◌, Option, none, some, All, All-get_elem?, Result, ok, err,
  ◌>>=◌, runtime_error, Option-cases, inl, inr, nth_inside,
}
use mathlib.Core.Path.{subst}
use vfuzz.OrdMap.{OrdMap, lookup, assign, erase}
use vfuzz.Util.History.{Text}
use vfuzz.Sensor.Base.{get_last_value}
use vfuzz.Sensor.Profile.{ValueBitMap}
use vfuzz.Sensor.Store.{
  Store, Object, base_of, for_each, set_name_at, enable_node, disable_node, start_node, stop_node,
}
use vfuzz.Sensor.Store as Store
use vfuzz.Sensor.Store.Shapes.{Shape, shapes, kind_of, NodeAt}
use vfuzz.Sensor.Store.Telling.{IsFit, node-of}
use vfuzz.Sensor.Store.Working.{Works, for_each-Works, object_at}
use vfuzz.Sensor.Store.Nodes.{
  modify_node-Works, enable_node-Works, disable_node-Works, start_node-Works, stop_node-Works,
}
use vfuzz.Sensor.Container.{
  Container, Memory, set_sensor_name, apply_pending_name, enable, disable, start, stop, places,
  sensor_get_value,
}
use vfuzz.Sensor.Container.Validity.{IsValid, SameLinks, with_store, lookup-NodeAt}

places-All :
    (hs : List Shape) (m : OrdMap ℕ)
    → All (λ (e : ℕ × ℕ). NodeAt hs e.1) m
    → All (NodeAt hs) (places m)
places-All hs [] a = tt
places-All hs ((id, k) ∷ m) a = (a.0, places-All hs m a.1)

Works-All :
    {B : Type 0} (hs : List Shape) (f : ℕ → Store B → Result (Store B)) (ks : List ℕ)
    → ((k : ℕ) → NodeAt hs k → Works hs (f k))
    → All (NodeAt hs) ks
    → All (λ k. Works hs (f k)) ks
Works-All hs f [] w a = tt
Works-All hs f (k ∷ ks) w a = (w k a.0, Works-All hs f ks w a.1)

module _ {B : Type 0} where
  -- The step returns a valid container with the same links.
  abbrev pub Switches : (Container B → Result (Container B)) → Container B → Type 0
  Switches f c = (c' : Container B) × (f c ≡ ok c') × IsValid c' × SameLinks c c'

  -- A step at the SensorProcessor of an ID, or nothing where there is none.
  at_id :
      (id : ℕ) (g : ℕ → Store B → Result (Store B)) (c : Container B)
      → ((k : ℕ) → NodeAt (shapes c.store) k → Works (shapes c.store) (g k))
      → IsValid c
      → Switches
          (λ c. elim (lookup id c.id_to_sensor_processor) [
            | none ↦ ok c
            | some k ↦ do s ← g k c.store; ok (record c { store = s })
          ])
          c
  at_id id g c w v = elim (Option-cases (lookup id c.id_to_sensor_processor)) [
    | inl e ↦ (c, rw e, v, (refl, refl))
    | inr (k, e) ↦
        let i = lookup-NodeAt (shapes c.store) id k c.id_to_sensor_processor v.1.0 e in
        let (c', eq, v', same) = with_store (g k) c (w k i) v in (c', rw e eq, v', same)
  ]

  pub enable-Switches : (id : ℕ) (c : Container B) → IsValid c → Switches (enable id) c
  unfolding enable
  enable-Switches id c v = at_id id enable_node c (enable_node-Works (shapes c.store)) v

  pub disable-Switches : (id : ℕ) (c : Container B) → IsValid c → Switches (disable id) c
  unfolding disable
  disable-Switches id c v = at_id id disable_node c (disable_node-Works (shapes c.store)) v

  pub set_sensor_name-Switches :
      (id : ℕ) (name : Text) (c : Container B) → IsValid c → Switches (set_sensor_name id name) c
  unfolding set_sensor_name
  set_sensor_name-Switches id name c v = elim (Option-cases (lookup id c.id_to_sensor_processor)) [
    | inl e ↦ (
      record c { pending_set_sensor_name = assign id name c.pending_set_sensor_name },
      rw (e, set_sensor_name),
      v,
      (refl, refl),
    )
    | inr (k, e) ↦
        let i = lookup-NodeAt (shapes c.store) id k c.id_to_sensor_processor v.1.0 e in
        let w =
          modify_node-Works (shapes c.store) k (λ n. record n { name = name }) (i.0, i.1)
            (λ n. (refl, λ t. t)) in
        let (c', eq, v', same) = with_store (set_name_at name k) c w v in
        (c', rw (e, set_sensor_name) eq, v', same)
  ]

  pub apply_pending_name-Switches :
      (id : ℕ) (c : Container B) → IsValid c → Switches (apply_pending_name id) c
  unfolding apply_pending_name
  apply_pending_name-Switches id c v = elim (Option-cases (lookup id c.pending_set_sensor_name)) [
    | inl e ↦ (c, rw (e, apply_pending_name), v, (refl, refl))
    | inr (name, e) ↦
        let erased = record c { pending_set_sensor_name = erase id c.pending_set_sensor_name } in
        let (c', eq, v', same) = set_sensor_name-Switches id name erased v in
        (c', rw (e, apply_pending_name) eq, v', same)
  ]

  unset_throws :
      (x : Store.Sensor B)
      → kind_of x ≡ 10
      → IsFit x
      → get_last_value (base_of x) ≡ err runtime_error
  unfolding base_of get_last_value
  unset_throws x is_node fit =
      let (b, n, en) = node-of x is_node in
      let unset = (subst IsFit en fit).1 in
      ap (λ y. get_last_value (base_of y)) en
      ∙ ap (λ (o : Option ℕ). elim o [ none ↦ err runtime_error | some value ↦ ok value ]) unset

  -- In every valid container SensorGetValue throws std::runtime_error, for every ID: no
  -- SensorProcessor ever gets a value of its own.
  pub sensor_get_value-throws :
      (id : ℕ) (c : Container B) → IsValid c → sensor_get_value id c ≡ err runtime_error
  unfolding sensor_get_value get_last_value base_of
  sensor_get_value-throws id c v = elim (Option-cases (lookup id c.id_to_sensor_processor)) [
    | inl e ↦ rw (e, sensor_get_value)
    | inr (k, e) ↦
        let i = lookup-NodeAt (shapes c.store) id k c.id_to_sensor_processor v.1.0 e in
        let (o, at, eo) = object_at (shapes c.store) k c.store (i.0, i.1) refl in
        let is_node : kind_of o.sensor ≡ 10 = ap (λ (x : Shape). x.kind) eo ∙ i.2 in
        let fit = All-get_elem? (λ x. IsFit x.sensor) c.store.objects k o v.0.fit at in
        rw (e, sensor_get_value)
          (rw (nth_inside c.store.objects k o at) (unset_throws o.sensor is_node fit))
  ]

module _ {B : Type 0} (bitmap : ValueBitMap B) (memory : Memory) where
  pub start-Switches : (c : Container B) → IsValid c → Switches (start bitmap memory) c
  unfolding start
  start-Switches c v =
      let hs = shapes c.store in
      with_store (for_each (start_node bitmap) (places c.id_to_sensor_processor)) c
        (for_each-Works hs (start_node bitmap) _ (
          Works-All hs (start_node bitmap) _ (start_node-Works bitmap hs)
            (places-All hs c.id_to_sensor_processor v.1.0)))
        v

  -- Stop returns in every valid container, whatever the sensors tell while they stop, and leaves a
  -- valid one with the same links and the same custom sensors.
  pub stop-Switches : (c : Container B) → IsValid c → Switches (stop bitmap memory) c
  unfolding stop
  stop-Switches c v =
      let hs = shapes c.store in
      with_store (for_each (stop_node bitmap memory.lowest) (places c.id_to_sensor_processor)) c
        (for_each-Works hs (stop_node bitmap memory.lowest) _ (
          Works-All hs (stop_node bitmap memory.lowest) _
            (λ k. stop_node-Works bitmap hs memory.lowest k)
            (places-All hs c.id_to_sensor_processor v.1.0)))
        v
