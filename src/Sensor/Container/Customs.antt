-- ===== src/Sensor/Container/Customs.antt =====
-- A new sensor with its own SensorProcessor, and AddCustomIfNotExists, keep the container valid.
use vfuzz.Prelude.{
  fault, ℕ, ◌≡◌, refl, sym, ap, ◌∙◌, true, false, List, [], ◌∷◌, ◌++◌, length, get_elem?, Option,
  none, some, All-append, ok, err, ◌>>=◌, runtime_error, ◌==◌, ==_refl, if◌then◌else◌, Bool-cases,
  Option-cases, inl, inr, get_elem?-append_end, arith,
}
use mathlib.Core.Path.{subst}
use vfuzz.OrdMap.{OrdMap, lookup, assign}
use vfuzz.OrdMap.Laws.{lookup-assign}
use vfuzz.Sensor.Processor.{Processor}
use vfuzz.Sensor.Store.{Store, Object, Sensor, Receiver}
use vfuzz.Sensor.Store as Store
use vfuzz.Sensor.Store.Shapes.{Shape, shape, shapes, kind_of, length-map}
use vfuzz.Sensor.Store.Telling.{IsTame, IsFit}
use vfuzz.Sensor.Store.Working.{Inside}
use vfuzz.Sensor.Store.Growth.{
  Grows, Grows-Leads, LeadsBut, IsLinkedBut, elem, map-append_one, get_elem?-append_old,
  get_elem?-append_cases,
}
use vfuzz.Sensor.Container.{
  combine_sensors, Container, Memory, processor_of, create, new_base, have_id, add_sensor_processor,
  add_custom, ensure_custom, apply_pending_combination, custom_of, add_custom_if_not_exists,
  apply_pending_name,
}
use vfuzz.Sensor.Container.Validity.{
  Orderly, >>=-Orderly, Orderly-map, lookup-All, IsValid, Extends, Extends-refl, Indexes-Grows,
  HasCustoms,
}
use vfuzz.Sensor.Container.Adding.{IsRaw, GrowsTo, assign-All}
use vfuzz.Sensor.Container.Combining.{
  Leads-but, processor_of-IsTame, GrowsTo-trans, name-Orderly, add_sensor_processor-Orderly,
  Combines, combine_sensors-Orderly,
}

append-Grows : (hs ys : List Shape) → Grows hs (hs ++ ys)
append-Grows hs ys i h at = (h, get_elem?-append_old hs ys i h at, refl)

elem-one : (i k : ℕ) → i ≡ k → elem i (k ∷ []) ≡ true
elem-one i k e = ground arith

module _ {B : Type 0} (o : Object B) (unbound : o.receiver ≡ Store.nobody)
    (plain : kind_of o.sensor ≡ 10 → ⊥) (fit : IsFit o.sensor) (c : Container B)
    (v : IsValid c) where
  -- A new sensor waits for its SensorProcessor.
  pub created-Grows : Grows (shapes c.store) (shapes (create o c.store))
  created-Grows =
      subst (Grows (shapes c.store)) (sym (map-append_one shape c.store.objects o))
        (append-Grows (shapes c.store) (shape o ∷ []))

  created-linked : IsLinkedBut (length c.store.objects ∷ []) (shapes c.store ++ (shape o ∷ []))
  created-linked =
      let hs = shapes c.store in
      let k = length c.store.objects in
      record {
        leads = λ i h at. elim (get_elem?-append_cases hs (shape o) i h at) [
          | inl old ↦ Leads-but (k ∷ []) (hs ++ (shape o ∷ [])) i h.receiver (
              Grows-Leads hs (hs ++ (shape o ∷ [])) i h.receiver (append-Grows hs (shape o ∷ []))
                (v.0.linked.leads i h old))
          | inr new ↦
              subst (λ (g : Shape). LeadsBut (k ∷ []) (hs ++ (shape o ∷ [])) i g.receiver) new.1
                (subst (LeadsBut (k ∷ []) (hs ++ (shape o ∷ [])) i) (sym unbound)
                  (elem-one i k (new.0 ∙ length-map shape c.store.objects)))
        ];
        wired = λ i h at. elim (get_elem?-append_cases hs (shape o) i h at) [
          | inl old ↦ v.0.linked.wired i h old
          | inr new ↦ λ e. absurd (plain (ap (λ (g : Shape). g.kind) new.1 ∙ e))
        ];
      }

  created-Inside : Inside (shapes (create o c.store)) (length c.store.objects)
  created-Inside = (
    shape o,
    subst (λ hs. get_elem? hs (length c.store.objects) ≡ some (shape o))
        (sym (map-append_one shape c.store.objects o))
        (subst (λ n. get_elem? (shapes c.store ++ (shape o ∷ [])) n ≡ some (shape o))
          (length-map shape c.store.objects) (get_elem?-append_end (shapes c.store) (shape o) [])),
  )

  pub created-IsRaw : IsRaw (length c.store.objects ∷ []) (record c { store = create o c.store })
  created-IsRaw = record {
    fit = All-append (λ x. IsFit x.sensor) c.store.objects (o ∷ []) v.0.fit (fit, tt);
    linked =
        subst (IsLinkedBut (length c.store.objects ∷ []))
          (sym (map-append_one shape c.store.objects o)) created-linked;
    few = tt;
    inside = (created-Inside, tt);
    indexes =
        Indexes-Grows (shapes c.store) (shapes (create o c.store))
          (record c { store = create o c.store }) created-Grows v.1;
  }

-- The maps of the custom sensors, with a new one.
lookup-assign_same :
    {V : Type 0} (id j : ℕ) (v : V) (m : OrdMap V)
    → (j == id) ≡ true
    → lookup j (assign id v m) ≡ some v
lookup-assign_same id j v m e =
    lookup-assign id j v m ∙ ap (λ b. if b then some v else lookup j m) e

lookup-assign_other :
    {V : Type 0} (id j : ℕ) (v : V) (m : OrdMap V)
    → (j == id) ≡ false
    → lookup j (assign id v m) ≡ lookup j m
lookup-assign_other id j v m e =
    lookup-assign id j v m ∙ ap (λ b. if b then some v else lookup j m) e

lookup-assign-some :
    (id j v w : ℕ) (m : OrdMap ℕ)
    → lookup j m ≡ some w
    → (u : ℕ) × (lookup j (assign id v m) ≡ some u)
lookup-assign-some id j v w m h = elim (Bool-cases (j == id)) [
  | inl e ↦ (v, lookup-assign_same id j v m e)
  | inr e ↦ (w, lookup-assign_other id j v m e ∙ h)
]

customs-assign :
    (hs : List Shape) (id type k : ℕ) (customs types : OrdMap ℕ)
    → HasCustoms hs customs types
    → Inside hs k
    → HasCustoms hs (assign id k customs) (assign id type types)
customs-assign hs id type k customs types h ins = (
  λ j t at. elim (Bool-cases (j == id)) [
    | inl e ↦ (k, lookup-assign_same id j k customs e)
    | inr e ↦
        let (k', at') = h.0 j t (sym (lookup-assign_other id j type types e) ∙ at) in
        (k', lookup-assign_other id j k customs e ∙ at')
  ],
  assign-All (Inside hs) id k customs h.1 ins,
)

-- The container has grown, and the ID has a custom sensor.
abbrev Customs : {B : Type 0} → ℕ → Container B → Container B → Type 0
Customs id c c' = GrowsTo c c' × ((k : ℕ) × (lookup id c'.id_to_custom_sensor ≡ some k))

-- The container has grown, and the custom sensor of the ID stands at the place.
abbrev pub CustomAt : {B : Type 0} → ℕ → Container B → ℕ × Container B → Type 0
CustomAt id c r =
    GrowsTo c r.1 × (lookup id r.1.id_to_custom_sensor ≡ some r.0) × Inside (shapes r.1.store) r.0

found :
    {B : Type 0} (id k : ℕ) (c c' : Container B)
    → GrowsTo c c'
    → lookup id c'.id_to_custom_sensor ≡ some k
    → Orderly (CustomAt id c) (custom_of id c' >>= λ k. ok (k, c'))
found id k c c' h at =
    subst
      (λ (o : Option ℕ).
        Orderly (CustomAt id c) (elim o [ none ↦ err fault | some k ↦ ok k ] >>= λ k. ok (k, c')))
      (sym at)
      (h, at, lookup-All (Inside (shapes c'.store)) id k c'.id_to_custom_sensor h.0.1.1.1 at)

module _ {B : Type 0} (memory : Memory) where
  custom_object : Container B → Object B
  custom_object c = record {
    sensor = Store.custom (new_base memory 0 c.store);
    receiver = Store.nobody;
  }

  not_a_node : (c : Container B) → kind_of (custom_object c).sensor ≡ 10 → ⊥
  unfolding kind_of custom_object
  not_a_node c e = omega arith

  new_custom :
      (id k : ℕ) (c c1 c2 : Container B)
      → c1.id_to_custom_sensor ≡ assign id k c.id_to_custom_sensor
      → Grows (shapes c.store) (shapes c1.store)
      → GrowsTo c1 c2
      → Customs id c c2
  new_custom id k c c1 c2 e g h =
      let found =
        ap (lookup id) e ∙ lookup-assign_same id id k c.id_to_custom_sensor (==_refl id) in
      let kept : Extends c c1 = (
        g,
        λ j k' at.
            let (u, at') = lookup-assign-some id j k k' c.id_to_custom_sensor at in
            (u, ap (lookup j) e ∙ at'),
      ) in
      (GrowsTo-trans c c1 c2 kept h, h.1.1 id k found)

  add_custom-Orderly :
      (id type : ℕ) (p : Processor) (c : Container B)
      → IsTame p.state
      → IsValid c
      → Orderly (Customs id c) (add_custom memory id type p c)
  unfolding add_custom custom_object
  add_custom-Orderly id type p c tame v =
      let o = custom_object c in
      let k = length c.store.objects in
      let raw = created-IsRaw o refl (not_a_node c) tt c v in
      let grows = created-Grows o refl (not_a_node c) tt c v in
      let c1 : Container B = record c {
        store = create o c.store;
        id_to_custom_sensor = assign id k c.id_to_custom_sensor;
        custom_to_processor_type = assign id type c.custom_to_processor_type;
      } in
      let x = raw.indexes in
      let raw1 : IsRaw (k ∷ []) c1 = record {
        fit = raw.fit;
        linked = raw.linked;
        few = tt;
        inside = raw.inside;
        indexes = (
          x.0,
          customs-assign (shapes c1.store) id type k c.id_to_custom_sensor
              c.custom_to_processor_type x.1 raw.inside.0,
          x.2,
        );
      } in
      Orderly-map (GrowsTo c1) (Customs id c) (add_sensor_processor memory id p (k ∷ []) c1)
        (λ c2 h. new_custom id k c c1 c2 refl grows h)
        (add_sensor_processor-Orderly memory id p (k ∷ []) c1 tame raw1)

  made_or_not :
      (id type : ℕ) (c : Container B) (q : Option Processor)
      → processor_of type ≡ q
      → IsValid c
      → Orderly
          (Customs id c)
          (elim q [ none ↦ err runtime_error | some p ↦ add_custom memory id type p c ])
  made_or_not id type c none e v = tt
  made_or_not id type c (some p) e v =
      add_custom-Orderly id type p c (processor_of-IsTame type p e) v

  of_the_type :
      (id type : ℕ) (c : Container B) (q : Option ℕ)
      → lookup id c.custom_to_processor_type ≡ q
      → IsValid c
      → Orderly (Customs id c) (elim q [
        | none ↦ err runtime_error
        | some t ↦ if t == type then ok c else err runtime_error
      ])
  of_the_type id type c none at v = tt
  of_the_type id type c (some t) at v = elim (Bool-cases (t == type)) [
    | inl e ↦ rw e ((v, Extends-refl c), v.1.1.0 id t at)
    | inr e ↦ rw e tt
  ]

  ensure_custom-Orderly :
      (id type : ℕ) (c : Container B)
      → IsValid c
      → Orderly (Customs id c) (ensure_custom memory id type c)
  unfolding ensure_custom
  ensure_custom-Orderly id type c v = elim (Bool-cases (have_id id c)) [
    | inl e ↦
        rw (e, ensure_custom) (of_the_type id type c (lookup id c.custom_to_processor_type) refl v)
    | inr e ↦ rw (e, ensure_custom) (made_or_not id type c (processor_of type) refl v)
  ]

  pending-Orderly :
      (id : ℕ) (c : Container B)
      → IsValid c
      → Orderly (GrowsTo c) (apply_pending_combination memory id c)
  unfolding apply_pending_combination
  pending-Orderly id c v = elim (Option-cases (lookup id c.pending_combine_sensors)) [
    | inl e ↦ rw (e, apply_pending_combination) (v, Extends-refl c)
    | inr ((id', id1, id2, type), e) ↦
        rw (e, apply_pending_combination)
          (Orderly-map (Combines id' id1 id2 type c) (GrowsTo c)
            (combine_sensors memory id' id1 id2 type c) (λ c' h. h.0)
            (combine_sensors-Orderly memory id' id1 id2 type c v))
  ]

  -- The rest of AddCustomIfNotExists, once the ID has a custom sensor.
  after_ensured :
      (id : ℕ) (c c1 : Container B)
      → Customs id c c1
      → Orderly (CustomAt id c) (
          apply_pending_combination memory id c1 >>= λ c2.
          apply_pending_name id c2 >>= λ c3. custom_of id c3 >>= λ k. ok (k, c3))
  after_ensured id c c1 h1 =
      >>=-Orderly (GrowsTo c1) (CustomAt id c) (apply_pending_combination memory id c1)
        (λ c2. apply_pending_name id c2 >>= λ c3. custom_of id c3 >>= λ k. ok (k, c3))
        (pending-Orderly id c1 h1.0.0)
        (λ c2 h2.
          >>=-Orderly (GrowsTo c2) (CustomAt id c) (apply_pending_name id c2)
            (λ c3. custom_of id c3 >>= λ k. ok (k, c3)) (name-Orderly id c2 h2.0)
            (λ c3 h3.
              let (k2, at2) = h2.1.1 id h1.1.0 h1.1.1 in
              let (k3, at3) = h3.1.1 id k2 at2 in
              found id k3 c c3 (GrowsTo-trans c c1 c3 h1.0.1 (GrowsTo-trans c1 c2 c3 h2.1 h3)) at3))

  -- AddCustomIfNotExists on a valid container throws an exception, or gives the place of the custom
  -- sensor of the ID and a valid container, in which the classes at the places are those of before.
  pub add_custom_if_not_exists-Orderly :
      (id type : ℕ) (c : Container B)
      → IsValid c
      → Orderly (CustomAt id c) (add_custom_if_not_exists memory id type c)
  unfolding add_custom_if_not_exists
  add_custom_if_not_exists-Orderly id type c v =
      >>=-Orderly (Customs id c) (CustomAt id c) (ensure_custom memory id type c)
        (λ c1. apply_pending_combination memory id c1 >>= λ c2.
          apply_pending_name id c2 >>= λ c3. custom_of id c3 >>= λ k. ok (k, c3))
        (ensure_custom-Orderly id type c v) (λ c1 h1. after_ensured id c c1 h1)
