-- ===== src/Sensor/Container/Adding.antt =====
-- AddSensorProcessor, CombineSensors and AddCustomIfNotExists keep the invariant of the container.
use vfuzz.Prelude.{
  ℕ, ◌≡◌, refl, sym, ap, ◌∙◌, true, false, List, [], ◌∷◌, ◌++◌, length, All, All-imp, All-append,
  ok, ltb, ◌==◌, ==_iff, Bool-cases, inl, inr, nth_inside, arith,
}
use mathlib.Core.Path.{subst}
use vfuzz.OrdMap.{OrdMap, lookup, assign, insert}
use vfuzz.Sensor.Base as Base
use vfuzz.Sensor.Processor.{Processor}
use vfuzz.Sensor.Processor as Processor
use vfuzz.Sensor.Store.{Store, Object, Node, Receiver, for_each, bind_to, id_of}
use vfuzz.Sensor.Store as Store
use vfuzz.Sensor.Store.Shapes.{
  Shape, shape, shapes, kind_of, sensors_of, NodeAt, IsFew, IsLinked, length-map,
}
use vfuzz.Sensor.Store.Telling.{IsTame, IsFit, IsSound}
use vfuzz.Sensor.Store.Working.{Inside, object_at}
use vfuzz.Sensor.Store.Growth.{
  Joined, bound-Joined, Grows, AllFit, IsLinkedBut, IsBound, bind-IsBound, bound-Grows,
  bound-IsLinked, node_there, map-append_one,
}
use vfuzz.Sensor.Container.{
  Container, Memory, builtin_type, register, set_of, erase_all, create, add_sensor, add_sensors,
  first_id, new_base, have_id, add_sensor_processor,
}
use vfuzz.Sensor.Container.Validity.{
  IsOfType, Indexes, IsValid, Extends, Indexes-Grows, builtin_type-kind, type_of_kind,
}
use vfuzz.Sensor.Container.Switching.{apply_pending_name-Switches}

pub assign-All :
    (Q : ℕ → Type 0) (id k : ℕ) (m : OrdMap ℕ)
    → All (λ (e : ℕ × ℕ). Q e.1) m
    → Q k
    → All (λ (e : ℕ × ℕ). Q e.1) (assign id k m)
unfolding assign
assign-All Q id k [] a h = (h, tt)
assign-All Q id k ((j, w) ∷ m) a h = elim (Bool-cases (ltb id j)) [
  | inl e ↦ rw e (h, (a.0, a.1))
  | inr e ↦ rw e (elim (Bool-cases (id == j)) [
    | inl e' ↦ rw e' (h, a.1)
    | inr e' ↦ rw e' (a.0, assign-All Q id k m a.1 h)
  ])
]

module _ {B : Type 0} where
  -- addSensor puts a sensor into the list of its type.
  register-Indexes :
      (hs : List Shape) (k type : ℕ) (c : Container B)
      → IsOfType hs type k
      → Indexes hs c
      → Indexes hs (register k type c)
  unfolding register
  register-Indexes hs k type c i x = elim (Bool-cases (type == 1)) [
    | inl e ↦ rw e (
      x.0,
      x.1,
      (
        x.2.0,
        All-append (IsOfType hs 1) c.stack_sensors (k ∷ []) x.2.1 (at 1 e, tt),
        x.2.2,
        x.2.3,
        x.2.4,
        x.2.5,
      ),
    )
    | inr e1 ↦ rw e1 (elim (Bool-cases (type == 2)) [
      | inl e ↦ rw e (
        x.0,
        x.1,
        (
          x.2.0,
          x.2.1,
          All-append (IsOfType hs 2) c.flowtrace_sensors (k ∷ []) x.2.2 (at 2 e, tt),
          x.2.3,
          x.2.4,
          x.2.5,
        ),
      )
      | inr e2 ↦ rw e2 (elim (Bool-cases (type == 3)) [
        | inl e ↦ rw e (
          x.0,
          x.1,
          (
            All-append (IsOfType hs 3) c.pc_sensors (k ∷ []) x.2.0 (at 3 e, tt),
            x.2.1,
            x.2.2,
            x.2.3,
            x.2.4,
            x.2.5,
          ),
        )
        | inr e3 ↦ rw e3 (elim (Bool-cases (type == 4)) [
          | inl e ↦ rw e (
            x.0,
            x.1,
            (
              x.2.0,
              x.2.1,
              x.2.2,
              All-append (IsOfType hs 4) c.allocation_sensors (k ∷ []) x.2.3 (at 4 e, tt),
              x.2.4,
              x.2.5,
            ),
          )
          | inr e4 ↦ rw e4 (elim (Bool-cases (type == 5)) [
            | inl e ↦ rw e (
              x.0,
              x.1,
              (
                x.2.0,
                x.2.1,
                x.2.2,
                x.2.3,
                All-append (IsOfType hs 5) c.value_profile_sensors (k ∷ []) x.2.4 (at 5 e, tt),
                x.2.5,
              ),
            )
            | inr e5 ↦ rw e5 (elim (Bool-cases (type == 6)) [
              | inl e ↦ rw e (
                x.0,
                x.1,
                (
                  x.2.0,
                  x.2.1,
                  x.2.2,
                  x.2.3,
                  x.2.4,
                  All-append (IsOfType hs 6) c.cmp_sensors (k ∷ []) x.2.5 (at 6 e, tt),
                ),
              )
              | inr e6 ↦ rw e6 x
            ])
          ])
        ])
      ])
    ])
  ]
    where
      at : (n : ℕ) → (type == n) ≡ true → IsOfType hs n k
      at n e = subst (λ t. IsOfType hs t k) ((==_iff type n).0 e) i

  register-store : (k type : ℕ) (c : Container B) → (register k type c).store ≡ c.store
  unfolding register
  register-store k type c = ground arith

  register-customs :
      (k type : ℕ) (c : Container B)
      → (register k type c).id_to_custom_sensor ≡ c.id_to_custom_sensor
  unfolding register
  register-customs k type c = ground arith

  add_sensors-Returns :
      (hs : List Shape) (ks : List ℕ) (c : Container B)
      → shapes c.store ≡ hs
      → Indexes hs c
      → All (Inside hs) ks
      → (c' : Container B) × (add_sensors ks c ≡ ok c')
        × Indexes hs c'
        × (c'.store ≡ c.store)
        × (c'.id_to_custom_sensor ≡ c.id_to_custom_sensor)
  unfolding add_sensors add_sensor
  add_sensors-Returns hs [] c e x ins = (c, refl, x, refl, refl)
  add_sensors-Returns hs (k ∷ ks) c e x ins =
      let (o, at, eo) = object_at hs k c.store ins.0 e in
      let type = builtin_type o.sensor in
      let of : IsOfType hs type k = (ins.0.0, ins.0.1, kind-type o ins.0.0 eo) in
      let c1 = register k type c in
      let c2 : Container B = record c1 {
        builtin_type_to_sensors =
            assign type (insert k tt (set_of type c1.builtin_type_to_sensors))
              c1.builtin_type_to_sensors;
      } in
      let same = register-store k type c in
      let (c', eq, x', same', same'') =
        add_sensors-Returns hs ks c2 (ap shapes same ∙ e) (register-Indexes hs k type c of x)
          ins.1 in
      (
        c',
        rw (nth_inside c.store.objects k o at) eq,
        x',
        same' ∙ same,
        same'' ∙ register-customs k type c,
      )
    where
      kind-type :
          (o : Object B) (h : Shape) → shape o ≡ h → type_of_kind h.kind ≡ builtin_type o.sensor
      kind-type o h e =
          ap (λ (g : Shape). type_of_kind g.kind) (sym e) ∙ sym (builtin_type-kind o.sensor)

  first_id-Returns :
      (hs : List Shape) (ks : List ℕ) (s : Store B)
      → shapes s ≡ hs
      → All (Inside hs) ks
      → (n : ℕ) × (first_id ks s ≡ ok n)
  unfolding first_id
  first_id-Returns hs [] s e ins = (0, refl)
  first_id-Returns hs (k ∷ ks) s e ins =
      let (o, at, eo) = object_at hs k s ins.0 e in (id_of o, rw (nth_inside s.objects k o at))

  -- A store whose given sensors wait for a SensorProcessor.
  pub record IsRaw (ks : List ℕ) (c : Container B) : Type 0 where
    pub fit : AllFit c.store
    pub linked : IsLinkedBut ks (shapes c.store)
    pub few : IsFew ks
    pub inside : All (Inside (shapes c.store)) ks
    pub indexes : Indexes (shapes c.store) c

  -- The step throws, or gives a valid container that the old one has grown to.
  abbrev pub GrowsTo : Container B → Container B → Type 0
  GrowsTo c c' = IsValid c' × Extends c c'

  -- The container has grown to the other, and a SensorProcessor of the given sensors is new in it.
  abbrev pub Joins : List ℕ → Container B → Container B → Type 0
  Joins ks c c' = GrowsTo c c' × Joined ks (length c.store.objects) (shapes c'.store)

  Extends-lem :
      (c c' : Container B) (hs : List Shape)
      → shapes c'.store ≡ hs
      → c'.id_to_custom_sensor ≡ c.id_to_custom_sensor
      → Grows (shapes c.store) hs
      → Extends c c'
  Extends-lem c c' hs e e' g =
      (subst (Grows (shapes c.store)) (sym e) g, λ i k h. (k, ap (lookup i) e' ∙ h))

module _ {B : Type 0} (memory : Memory) where
  pub add_sensor_processor-Returns :
      (id : ℕ) (p : Processor) (ks : List ℕ) (c : Container B)
      → have_id id c ≡ false
      → IsTame p.state
      → IsRaw ks c
      → (c' : Container B) × (add_sensor_processor memory id p ks c ≡ ok c') × Joins ks c c'
  unfolding add_sensor_processor kind_of sensors_of
  add_sensor_processor-Returns id p ks c new tame raw =
      let hs = shapes c.store in
      let place = length c.store.objects in
      let size : length hs ≡ place = length-map shape c.store.objects in
      let (s, eq, fit, bound, _) = bind-IsBound place ks c.store raw.fit raw.inside in
      let bound' = subst (λ n. IsBound n ks hs (shapes s)) (sym size) bound in
      let ins =
        All-imp (Inside hs) (Inside (shapes s)) ks (λ k i. (_, bound.at k i.0 i.1)) raw.inside in
      let (first, eq1) = first_id-Returns (shapes s) ks s refl ins in
      let node : Node = record {
        sensors = ks;
        processor = Processor.set_on_add_val p;
        name = [];
        data_sensor1 = [];
        data_sensor2 = [];
        disabled = false;
        first_sensor_id = first;
      } in
      let made : Object B = record {
        sensor = Store.processor (Base.set_on_ready (new_base memory id s)) node;
        receiver = Receiver.the_data;
      } in
      let grown = shapes s ++ (shape made ∷ []) in
      let e : shapes (create made s) ≡ grown = map-append_one shape s.objects made in
      let linked = bound-IsLinked ks hs (shapes s) raw.linked raw.few raw.inside bound' in
      let grows = bound-Grows ks hs (shapes s) raw.linked raw.few raw.inside bound' in
      let joined =
        subst (λ n. Joined ks n grown) size
          (bound-Joined ks hs (shapes s) raw.linked raw.few raw.inside bound') in
      let at_place = node_there ks hs (shapes s) raw.linked raw.few raw.inside bound' in
      let c1 : Container B = record c {
        store = create made s;
        created_sensors = erase_all ks (insert place tt c.created_sensors);
        id_to_sensor_processor = assign id place c.id_to_sensor_processor;
      } in
      let x = Indexes-Grows hs grown c grows raw.indexes in
      let x1 : Indexes grown c1 = (
        assign-All (NodeAt grown) id place c.id_to_sensor_processor x.0
            (subst (NodeAt grown) size at_place),
        x.1,
        x.2,
      ) in
      let ins1 =
        All-imp (Inside hs) (Inside grown) ks (λ k i. let (h', at, _) = grows k i.0 i.1 in (h', at))
          raw.inside in
      let (c2, eq2, x2, same2, customs2) = add_sensors-Returns grown ks c1 e x1 ins1 in
      let sound : IsSound (create made s) = record {
        linked = subst IsLinked (sym e) linked;
        fit = All-append (λ o. IsFit o.sensor) s.objects (made ∷ []) fit ((tame, refl), tt);
      } in
      let e2 = ap shapes same2 ∙ e in
      let valid : IsValid c2 =
        (subst IsSound (sym same2) sound, subst (λ hs. Indexes hs c2) (sym e2) x2) in
      let (c3, eq3, valid3, same3) = apply_pending_name-Switches id c2 valid in
      (
        c3,
        rw (new, add_sensor_processor) (rw eq (rw eq1 (rw eq2 eq3))),
        (
          (valid3, Extends-lem c c3 grown (same3.0 ∙ e2) (same3.1 ∙ customs2) grows),
          subst (Joined ks place) (sym (same3.0 ∙ e2)) joined,
        ),
      )
