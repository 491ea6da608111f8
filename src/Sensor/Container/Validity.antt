-- ===== src/Sensor/Container/Validity.antt =====
-- The invariant of the container of sensors, and the operations that leave the links as they are.
use vfuzz.Prelude.{
  ℕ, ◌≡◌, refl, sym, ap, ◌∙◌, List, [], ◌∷◌, get_or, get_elem?, some, some_path, All, All-imp,
  Result, ok, err, ◌>>=◌, deserialization, exception, runtime_error, construction, length_error,
  fault, ◌==◌, if◌then◌else◌, inl, inr, true, false, Bool-cases,
}
use mathlib.Core.Path.{subst}
use vfuzz.OrdMap.{OrdMap, lookup}
use vfuzz.Sensor.Store.{
  Store, Sensor, Object, for_each, enable_node, disable_node, start_node, stop_node,
}
use vfuzz.Sensor.Store as Store
use vfuzz.Sensor.Store.Shapes.{Shape, shapes, kind_of, NodeAt}
use vfuzz.Sensor.Store.Telling.{IsSound}
use vfuzz.Sensor.Store.Working.{Inside, Works}
use vfuzz.Sensor.Store.Growth.{Grows, Grows-NodeAt, Grows-refl, Grows-trans}
use vfuzz.Sensor.Container.{Container, builtin_type}

-- The result of a step that may throw std::runtime_error or vfuzz::Exception, and does nothing
-- whose behaviour is undefined.
abbrev pub Orderly {ℓ} : {A : Type ℓ} → (A → Type 0) → Result A → Type 0
Orderly P (ok a) = P a
Orderly P (err runtime_error) = Unit {0}
Orderly P (err exception) = Unit {0}
Orderly P (err deserialization) = ⊥
Orderly P (err construction) = ⊥
Orderly P (err length_error) = ⊥
Orderly P (err fault) = ⊥

pub >>=-Orderly {ℓ κ} :
    {A : Type ℓ} {C : Type κ} (P : A → Type 0) (Q : C → Type 0) (m : Result A) (f : A → Result C)
    → Orderly P m
    → ((a : A) → P a → Orderly Q (f a))
    → Orderly Q (m >>= f)
>>=-Orderly P Q (ok a) f h k = k a h
>>=-Orderly P Q (err runtime_error) f h k = tt
>>=-Orderly P Q (err exception) f h k = tt
>>=-Orderly P Q (err deserialization) f h k = absurd h
>>=-Orderly P Q (err construction) f h k = absurd h
>>=-Orderly P Q (err length_error) f h k = absurd h
>>=-Orderly P Q (err fault) f h k = absurd h

pub Orderly-map {ℓ} :
    {A : Type ℓ} (P Q : A → Type 0) (m : Result A)
    → ((a : A) → P a → Q a)
    → Orderly P m
    → Orderly Q m
Orderly-map P Q (ok a) f h = f a h
Orderly-map P Q (err runtime_error) f h = tt
Orderly-map P Q (err exception) f h = tt
Orderly-map P Q (err deserialization) f h = absurd h
Orderly-map P Q (err construction) f h = absurd h
Orderly-map P Q (err length_error) f h = absurd h
Orderly-map P Q (err fault) f h = absurd h

-- The BuiltinType of each class, by its number among the shapes.
abbrev pub type_of_kind : ℕ → ℕ
type_of_kind kind = get_or (0 ∷ 3 ∷ 3 ∷ 1 ∷ 2 ∷ 4 ∷ 4 ∷ 6 ∷ 3 ∷ 5 ∷ 0 ∷ []) kind 0

-- A sensor of the type stands at the place.
abbrev pub IsOfType : List Shape → ℕ → ℕ → Type 0
IsOfType hs type k = (h : Shape) × (get_elem? hs k ≡ some h) × (type_of_kind h.kind ≡ type)

-- Each of the six lists holds sensors of its type.
abbrev pub Listed : {B : Type 0} → List Shape → Container B → Type 0
Listed hs c =
    All (IsOfType hs 3) c.pc_sensors
    × All (IsOfType hs 1) c.stack_sensors
    × All (IsOfType hs 2) c.flowtrace_sensors
    × All (IsOfType hs 4) c.allocation_sensors
    × All (IsOfType hs 5) c.value_profile_sensors
    × All (IsOfType hs 6) c.cmp_sensors

-- An ID that has a type of processor has a custom sensor, and each of those is in the store.
abbrev pub HasCustoms : List Shape → OrdMap ℕ → OrdMap ℕ → Type 0
HasCustoms hs customs types =
    ((id t : ℕ) → lookup id types ≡ some t → (k : ℕ) × (lookup id customs ≡ some k))
    × All (λ (e : ℕ × ℕ). Inside hs e.1) customs

-- What holds of the maps and the lists of the container when these shapes stand in the store.
abbrev pub Indexes : {B : Type 0} → List Shape → Container B → Type 0
Indexes hs c =
    All (λ (e : ℕ × ℕ). NodeAt hs e.1) c.id_to_sensor_processor
    × HasCustoms hs c.id_to_custom_sensor c.custom_to_processor_type
    × Listed hs c

-- The invariant: the objects are linked so that every call of onReady comes to an end, and the maps
-- and lists lead to objects of the right class.
abbrev pub IsValid : {B : Type 0} → Container B → Type 0
IsValid c = IsSound c.store × Indexes (shapes c.store) c

-- The links and the custom sensors are the same.
abbrev pub SameLinks : {B : Type 0} → Container B → Container B → Type 0
SameLinks c c' =
    (shapes c'.store ≡ shapes c.store) × (c'.id_to_custom_sensor ≡ c.id_to_custom_sensor)

-- The classes at the places are the same, and an ID with a custom sensor has one still.
abbrev pub Extends : {B : Type 0} → Container B → Container B → Type 0
Extends c c' =
    Grows (shapes c.store) (shapes c'.store)
    × ((id k : ℕ)
        → lookup id c.id_to_custom_sensor ≡ some k
        → (k' : ℕ) × (lookup id c'.id_to_custom_sensor ≡ some k'))

module _ {B : Type 0} where
  pub Extends-refl : (c : Container B) → Extends c c
  Extends-refl c = (Grows-refl (shapes c.store), λ id k h. (k, h))

  pub Extends-trans : (c c' c'' : Container B) → Extends c c' → Extends c' c'' → Extends c c''
  Extends-trans c c' c'' x y = (
    Grows-trans (shapes c.store) (shapes c'.store) (shapes c''.store) x.0 y.0,
    λ id k h. let (k', h') = x.1 id k h in y.1 id k' h',
  )

  pub Extends-same : (c c' : Container B) → SameLinks c c' → Extends c c'
  Extends-same c c' e = (
    subst (Grows (shapes c.store)) (sym e.0) (Grows-refl (shapes c.store)),
    λ id k h. (k, ap (lookup id) e.1 ∙ h),
  )

IsOfType-Grows :
    (hs hs' : List Shape) (type : ℕ) (ks : List ℕ)
    → Grows hs hs'
    → All (IsOfType hs type) ks
    → All (IsOfType hs' type) ks
IsOfType-Grows hs hs' type ks g =
    All-imp (IsOfType hs type) (IsOfType hs' type) ks
      (λ k i. let (h', at, e) = g k i.0 i.1 in (h', at, ap type_of_kind e ∙ i.2))

-- What holds of every entry holds of the one that is found.
pub lookup-All :
    (Q : ℕ → Type 0) (id k : ℕ) (m : OrdMap ℕ)
    → All (λ (e : ℕ × ℕ). Q e.1) m
    → lookup id m ≡ some k
    → Q k
unfolding lookup
lookup-All Q id k [] a h = absurd cc
lookup-All Q id k ((j, p) ∷ m) a h = elim (Bool-cases (id == j)) [
  | inl e ↦ subst Q (some_path (sym (found e) ∙ h)) a.0
  | inr e ↦ lookup-All Q id k m a.1 (sym (missed e) ∙ h)
]
  where
    found : (id == j) ≡ true → (if id == j then some p else lookup id m) ≡ some p
    found e = rw e

    missed : (id == j) ≡ false → (if id == j then some p else lookup id m) ≡ lookup id m
    missed e = rw e

-- The SensorProcessor of an ID.
pub lookup-NodeAt :
    (hs : List Shape) (id k : ℕ) (m : OrdMap ℕ)
    → All (λ (e : ℕ × ℕ). NodeAt hs e.1) m
    → lookup id m ≡ some k
    → NodeAt hs k
lookup-NodeAt hs id k m a h = lookup-All (NodeAt hs) id k m a h

module _ {B : Type 0} where
  pub Indexes-Grows :
      (hs hs' : List Shape) (c : Container B) → Grows hs hs' → Indexes hs c → Indexes hs' c
  Indexes-Grows hs hs' c g x =
      let l = x.2 in
      (
        All-imp (λ (e : ℕ × ℕ). NodeAt hs e.1) (λ (e : ℕ × ℕ). NodeAt hs' e.1)
            c.id_to_sensor_processor (λ e. Grows-NodeAt hs hs' e.1 g) x.0,
        (
          x.1.0,
          All-imp (λ (e : ℕ × ℕ). Inside hs e.1) (λ (e : ℕ × ℕ). Inside hs' e.1)
              c.id_to_custom_sensor (λ e i. let (h', at, _) = g e.1 i.0 i.1 in (h', at)) x.1.1,
        ),
        (
          IsOfType-Grows hs hs' 3 c.pc_sensors g l.0,
          IsOfType-Grows hs hs' 1 c.stack_sensors g l.1,
          IsOfType-Grows hs hs' 2 c.flowtrace_sensors g l.2,
          IsOfType-Grows hs hs' 4 c.allocation_sensors g l.3,
          IsOfType-Grows hs hs' 5 c.value_profile_sensors g l.4,
          IsOfType-Grows hs hs' 6 c.cmp_sensors g l.5,
        ),
      )

  pub builtin_type-kind : (x : Sensor B) → builtin_type x ≡ type_of_kind (kind_of x)
  unfolding builtin_type kind_of
  builtin_type-kind (Store.custom b) = refl
  builtin_type-kind (Store.coverage b) = refl
  builtin_type-kind (Store.intensity s) = refl
  builtin_type-kind (Store.stack s) = refl
  builtin_type-kind (Store.flowtrace s) = refl
  builtin_type-kind (Store.global_max s) = refl
  builtin_type-kind (Store.single_max s) = refl
  builtin_type-kind (Store.cmp_diff s) = refl
  builtin_type-kind (Store.auto_intensity s) = refl
  builtin_type-kind (Store.value_profile s) = refl
  builtin_type-kind (Store.processor b n) = refl

  -- A step of the store that works is a step of the container that does.
  pub with_store :
      (f : Store B → Result (Store B)) (c : Container B)
      → Works (shapes c.store) f
      → IsValid c
      → (c' : Container B) × ((f c.store >>= λ s. ok (record c { store = s })) ≡ ok c')
        × IsValid c'
        × SameLinks c c'
  with_store f c w v =
      let (s', eq, h, e) = w c.store v.0 refl in
      (
        record c { store = s' },
        rw eq,
        (h, subst (λ hs. Indexes hs (record c { store = s' })) (sym e) v.1),
        (e, refl),
      )
