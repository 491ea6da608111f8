-- ===== src/Sensor/Container/Combining.antt =====
-- CombineSensors and AddCustomIfNotExists throw std::runtime_error, or leave a valid container.
use vfuzz.Prelude.{
  ℕ, ◌≡◌, refl, sym, ap, ◌∙◌, ◌⊎◌, arith, length, Bool, true, false, List, [], ◌∷◌, Option, none,
  some, some_path, All, err, runtime_error, ◌==◌, if◌then◌else◌, Bool-cases, Option-cases, inl, inr,
}
use mathlib.Core.Path.{subst}
use vfuzz.OrdMap.{lookup, assign, erase}
use vfuzz.OrdMap.Laws.{lookup-assign}
use vfuzz.Sensor.Base as Base
use vfuzz.Sensor.Processor.{Processor}
use vfuzz.Sensor.Auto.{highest_type, lowest_type, unique_type, noop_type}
use vfuzz.Sensor.Store.{Store, Object, Receiver, subordinate_at}
use vfuzz.Sensor.Store as Store
use vfuzz.Sensor.Store.Shapes.{Shape, shape, shapes, length-map, NodeAt, Leads, IsLinked}
use vfuzz.Sensor.Store.Telling.{IsTame}
use vfuzz.Sensor.Store.Working.{Inside}
use vfuzz.Sensor.Store.Nodes.{modify_base-Works}
use vfuzz.Sensor.Store.Growth.{Joined, LeadsBut, IsLinkedBut}
use vfuzz.Sensor.Container.{
  Container, Memory, processor_of, have_id, add_sensor_processor, combine_now, combine_later,
  combine_sensors, apply_pending_name,
}
use vfuzz.Sensor.Container.Validity.{
  Orderly, >>=-Orderly, Orderly-map, IsValid, Extends, Extends-refl, Extends-trans, Extends-same,
  Indexes, lookup-NodeAt,
}
use vfuzz.Sensor.Container.Switching.{apply_pending_name-Switches}
use vfuzz.Sensor.Container.Adding.{IsRaw, GrowsTo, Joins, add_sensor_processor-Returns}

IsTame-if :
    (b : Bool) (q : Processor) (rest : Option Processor)
    → IsTame q.state
    → ((p : Processor) → rest ≡ some p → IsTame p.state)
    → (p : Processor) → (if b then some q else rest) ≡ some p
    → IsTame p.state
IsTame-if true q rest t k p h = subst (λ (x : Processor). IsTame x.state) (some_path h) t
IsTame-if false q rest t k p h = k p h

-- The processors of the switches do not throw.
pub processor_of-IsTame : (t : ℕ) (p : Processor) → processor_of t ≡ some p → IsTame p.state
unfolding processor_of
processor_of-IsTame t p h =
    IsTame-if (t == highest_type) _ _ tt
      (IsTame-if (t == lowest_type) _ _ tt (
        IsTame-if (t == unique_type) _ _ tt
          (IsTame-if (t == noop_type) _ none tt (λ p h. absurd cc))))
      p h

pub Leads-but :
    (ks : List ℕ) (hs : List Shape) (i : ℕ) (r : Receiver) → Leads hs i r → LeadsBut ks hs i r
Leads-but ks hs i Store.nobody l = absurd l
Leads-but ks hs i Store.the_data l = tt
Leads-but ks hs i (Store.to k) l = l

-- A valid store whose sensors may be given to a new SensorProcessor.
linked-but : (ks : List ℕ) (hs : List Shape) → IsLinked hs → IsLinkedBut ks hs
linked-but ks hs l = record {
  leads = λ i h at. Leads-but ks hs i h.receiver (l.leads i h at);
  wired = l.wired;
}

module _ {B : Type 0} where
  pub GrowsTo-trans : (c c' c'' : Container B) → Extends c c' → GrowsTo c' c'' → GrowsTo c c''
  GrowsTo-trans c c' c'' g h = (h.0, Extends-trans c c' c'' g h.1)

  pub name-Orderly :
      (id : ℕ) (c : Container B) → IsValid c → Orderly (GrowsTo c) (apply_pending_name id c)
  name-Orderly id c v =
      let (c', eq, v', same) = apply_pending_name-Switches id c v in
      subst (Orderly (GrowsTo c)) (sym eq) (v', Extends-same c c' same)

  -- A pending name that is applied at the end changes no link.
  named-Joins :
      (ks : List ℕ) (id : ℕ) (c c3 : Container B)
      → Joins ks c c3
      → Orderly (Joins ks c) (apply_pending_name id c3)
  named-Joins ks id c c3 h =
      let (c', eq, v', same) = apply_pending_name-Switches id c3 h.0.0 in
      subst (Orderly (Joins ks c)) (sym eq) (
        (v', Extends-trans c c3 c' h.0.1 (Extends-same c3 c' same)),
        subst (Joined ks (length c.store.objects)) (sym same.0) h.1,
      )

  -- What CombineSensors leaves: a valid container that has grown, the new SensorProcessor where both
  -- sensors are there, and else the combination as a pending one for both IDs.
  abbrev pub Combines : ℕ → ℕ → ℕ → ℕ → Container B → Container B → Type 0
  Combines id id1 id2 type c c' =
      GrowsTo c c'
      × ((k1 k2 : ℕ)
          → lookup id1 c.id_to_sensor_processor ≡ some k1
          → lookup id2 c.id_to_sensor_processor ≡ some k2
          → Joined (k1 ∷ k2 ∷ []) (length c.store.objects) (shapes c'.store))
      × ((lookup id1 c.id_to_sensor_processor ≡ none) ⊎ (lookup id2 c.id_to_sensor_processor ≡ none)
          → (lookup id1 c'.pending_combine_sensors ≡ some (id, id1, id2, type))
            × (lookup id2 c'.pending_combine_sensors ≡ some (id, id1, id2, type)))

  later :
      (memory : Memory) (id id1 id2 type : ℕ) (c : Container B)
      → IsValid c
      → ((k1 k2 : ℕ)
          → lookup id1 c.id_to_sensor_processor ≡ some k1
          → lookup id2 c.id_to_sensor_processor ≡ some k2
          → ⊥)
      → Combines id id1 id2 type c (combine_later memory id id1 id2 type c)
  later memory id id1 id2 type c v missing = (
    (v, Extends-refl c),
    λ k1 k2 e1 e2. absurd (missing k1 k2 e1 e2),
    λ h.
        let pair : ℕ × ℕ × ℕ × ℕ = (id, id1, id2, type) in
        let m = assign id1 pair c.pending_combine_sensors in
        (
          ground (
            arith,
            lookup-assign id2 id1 pair m,
            lookup-assign id1 id1 pair c.pending_combine_sensors,
          ),
          ground (arith, lookup-assign id2 id2 pair m),
        ),
  )

  now :
      (id id1 id2 type k1 k2 : ℕ) (c c' : Container B)
      → lookup id1 c.id_to_sensor_processor ≡ some k1
      → lookup id2 c.id_to_sensor_processor ≡ some k2
      → Joins (k1 ∷ k2 ∷ []) c c'
      → Combines id id1 id2 type c c'
  now id id1 id2 type k1 k2 c c' at1 at2 h = (
    h.0,
    λ j1 j2 e1 e2.
        subst (λ x. Joined (x ∷ j2 ∷ []) (length c.store.objects) (shapes c'.store))
          (some_path (sym at1 ∙ e1))
          (subst (λ x. Joined (k1 ∷ x ∷ []) (length c.store.objects) (shapes c'.store))
            (some_path (sym at2 ∙ e2)) h.1),
    λ missing. elim missing [ inl e ↦ absurd cc | inr e ↦ absurd cc ],
  )

module _ {B : Type 0} (memory : Memory) where
  taken_throws :
      (id : ℕ) (p : Processor) (ks : List ℕ) (c : Container B)
      → have_id id c ≡ true
      → add_sensor_processor memory id p ks c ≡ err runtime_error
  unfolding add_sensor_processor
  taken_throws id p ks c e = rw (e, add_sensor_processor)

  add_sensor_processor-Joins :
      (id : ℕ) (p : Processor) (ks : List ℕ) (c : Container B)
      → IsTame p.state
      → IsRaw ks c
      → Orderly (Joins ks c) (add_sensor_processor memory id p ks c)
  add_sensor_processor-Joins id p ks c tame raw = elim (Bool-cases (have_id id c)) [
    | inl e ↦ subst (Orderly (Joins ks c)) (sym (taken_throws id p ks c e)) tt
    | inr e ↦
        let (c', eq, h) = add_sensor_processor-Returns memory id p ks c e tame raw in
        subst (Orderly (Joins ks c)) (sym eq) h
  ]

  pub add_sensor_processor-Orderly :
      (id : ℕ) (p : Processor) (ks : List ℕ) (c : Container B)
      → IsTame p.state
      → IsRaw ks c
      → Orderly (GrowsTo c) (add_sensor_processor memory id p ks c)
  add_sensor_processor-Orderly id p ks c tame raw =
      Orderly-map (Joins ks c) (GrowsTo c) (add_sensor_processor memory id p ks c) (λ c' h. h.0)
        (add_sensor_processor-Joins id p ks c tame raw)

  -- The switch of CombineSensors.
  combined :
      (id type k1 k2 : ℕ) (c c2 : Container B) (q : Option Processor)
      → processor_of type ≡ q
      → IsRaw (k1 ∷ k2 ∷ []) c2
      → Extends c c2
      → length c2.store.objects ≡ length c.store.objects
      → Orderly (Joins (k1 ∷ k2 ∷ []) c) (elim q [
        | none ↦ err runtime_error
        | some p ↦ add_sensor_processor memory id p (k1 ∷ k2 ∷ []) c2
      ])
  combined id type k1 k2 c c2 none e raw g same = tt
  combined id type k1 k2 c c2 (some p) e raw g same =
      let ks : List ℕ = k1 ∷ k2 ∷ [] in
      Orderly-map (Joins ks c2) (Joins ks c) (add_sensor_processor memory id p ks c2)
        (λ c3 h. (GrowsTo-trans c c2 c3 g h.0, subst (λ n. Joined ks n (shapes c3.store)) same h.1))
        (add_sensor_processor-Joins id p ks c2 (processor_of-IsTame type p e) raw)

  combine_now-Orderly :
      (id id1 id2 k1 k2 type : ℕ) (c : Container B)
      → IsValid c
      → NodeAt (shapes c.store) k1
      → NodeAt (shapes c.store) k2
      → Orderly (Joins (k1 ∷ k2 ∷ []) c) (combine_now memory id id1 id2 k1 k2 type c)
  unfolding combine_now
  combine_now-Orderly id id1 id2 k1 k2 type c v i1 i2 =
      let hs = shapes c.store in
      let at1 : Inside hs k1 = (i1.0, i1.1) in
      let at2 : Inside hs k2 = (i2.0, i2.1) in
      let (s1, eq1, h1, e1) =
        modify_base-Works hs k1 Base.subordinate at1 (λ b. refl) c.store v.0 refl in
      let (s2, eq2, h2, e2) = modify_base-Works hs k2 Base.subordinate at2 (λ b. refl) s1 h1 e1 in
      let c2 : Container B = record c { store = s2 } in
      let raw : IsRaw (k1 ∷ k2 ∷ []) c2 = record {
        fit = h2.fit;
        linked = linked-but (k1 ∷ k2 ∷ []) (shapes s2) h2.linked;
        few = tt;
        inside = subst (λ xs. All (Inside xs) (k1 ∷ k2 ∷ [])) (sym e2) (at1, (at2, tt));
        indexes = subst (λ xs. Indexes xs c2) (sym e2) v.1;
      } in
      let ks : List ℕ = k1 ∷ k2 ∷ [] in
      let same : length s2.objects ≡ length c.store.objects =
        sym (length-map shape s2.objects) ∙ ap length e2 ∙ length-map shape c.store.objects in
      rw (eq1, combine_now)
        (rw eq2 (
          >>=-Orderly (Joins ks c) (Joins ks c) _ _
            (combined id type k1 k2 c c2 (processor_of type) refl raw (Extends-same c c2 (e2, refl))
              same)
            (λ c3 g3.
              let erased : Container B = record c3 {
                pending_combine_sensors = erase id2 (erase id1 c3.pending_combine_sensors);
              } in
              named-Joins ks id c erased g3)))

  -- On a valid container CombineSensors, with any IDs and type of processor, throws an exception, or
  -- leaves a valid container, in which the class of each object is that of before, and each ID that
  -- had a custom sensor has one. Where both IDs have a SensorProcessor, a new SensorProcessor, whose
  -- sensors are these two, stands behind the objects of before, and both lead to it. Where one of them
  -- has none, the combination is pending for both IDs.
  pub combine_sensors-Orderly :
      (id id1 id2 type : ℕ) (c : Container B)
      → IsValid c
      → Orderly (Combines id id1 id2 type c) (combine_sensors memory id id1 id2 type c)
  unfolding combine_sensors
  combine_sensors-Orderly id id1 id2 type c v =
      elim (Option-cases (lookup id1 c.id_to_sensor_processor)) [
        | inl e ↦
            rw (e, combine_sensors) (later memory id id1 id2 type c v (λ k1 k2 e1 e2. absurd cc))
        | inr (k1, e) ↦ elim (Option-cases (lookup id2 c.id_to_sensor_processor)) [
          | inl e' ↦
              rw (e, combine_sensors)
                (rw e' (later memory id id1 id2 type c v (λ k1 k2 e1 e2. absurd cc)))
          | inr (k2, e') ↦
              rw (e, combine_sensors)
                (rw e' (
                  Orderly-map (Joins (k1 ∷ k2 ∷ []) c) (Combines id id1 id2 type c)
                    (combine_now memory id id1 id2 k1 k2 type c)
                    (λ c' h. now id id1 id2 type k1 k2 c c' e e' h)
                    (combine_now-Orderly id id1 id2 k1 k2 type c v
                      (lookup-NodeAt (shapes c.store) id1 k1 c.id_to_sensor_processor v.1.0 e)
                      (lookup-NodeAt (shapes c.store) id2 k2 c.id_to_sensor_processor v.1.0 e'))))
        ]
      ]
