-- ===== src/Sensor/Store/Shapes.antt =====
-- How the objects of the store are linked, apart from their state, and changes that keep it.
use vfuzz.Prelude.{
  ℕ, zero, suc, ◌<◌, ◌≡◌, refl, sym, ap, ◌∙◌, List, [], ◌∷◌, map, length, set, get_elem?, some,
  some_path, All, arith,
}
use vfuzz.Sensor.Store.{Sensor, Node, Object, Receiver, Store, nobody, the_data, to}
use vfuzz.Sensor.Store as Store

-- The class, what onReady is bound to, and the sensors of a SensorProcessor.
pub record Shape : Type 0 where
  pub kind : ℕ
  pub receiver : Receiver
  pub sensors : List ℕ

module _ {B : Type 0} where
  unfoldable pub kind_of : Sensor B → ℕ
  kind_of (Store.custom b) = 0
  kind_of (Store.coverage b) = 1
  kind_of (Store.intensity s) = 2
  kind_of (Store.stack s) = 3
  kind_of (Store.flowtrace s) = 4
  kind_of (Store.global_max s) = 5
  kind_of (Store.single_max s) = 6
  kind_of (Store.cmp_diff s) = 7
  kind_of (Store.auto_intensity s) = 8
  kind_of (Store.value_profile s) = 9
  kind_of (Store.processor b n) = 10

  unfoldable pub sensors_of : Sensor B → List ℕ
  sensors_of (Store.processor b n) = n.sensors
  sensors_of (Store.custom b) = []
  sensors_of s = []

  abbrev pub shape : Object B → Shape
  shape o = record { kind = kind_of o.sensor; receiver = o.receiver; sensors = sensors_of o.sensor }

  abbrev pub shapes : Store B → List Shape
  shapes s = map shape s.objects

-- A SensorProcessor stands at the place.
abbrev pub NodeAt : List Shape → ℕ → Type 0
NodeAt hs k = (h : Shape) × (get_elem? hs k ≡ some h) × (h.kind ≡ 10)

-- What a sensor at a place tells goes to the data, or to a SensorProcessor that is younger.
abbrev pub Leads : List Shape → ℕ → Receiver → Type 0
Leads hs i nobody = ⊥
Leads hs i the_data = Unit {0}
Leads hs i (to k) = (i < k) × NodeAt hs k

-- One sensor or two.
abbrev pub IsFew : List ℕ → Type 0
IsFew [] = ⊥
IsFew (a ∷ []) = Unit {0}
IsFew (a ∷ b ∷ []) = Unit {0}
IsFew (a ∷ b ∷ c ∷ ks) = ⊥

-- A SensorProcessor has one sensor or two, which are older.
abbrev pub Wired : ℕ → Shape → Type 0
Wired i h = h.kind ≡ 10 → IsFew h.sensors × All (λ k. k < i) h.sensors

pub record IsLinked (hs : List Shape) : Type 0 where
  pub leads : (i : ℕ) (h : Shape) → get_elem? hs i ≡ some h → Leads hs i h.receiver
  pub wired : (i : ℕ) (h : Shape) → get_elem? hs i ≡ some h → Wired i h

module _ {ℓ κ} {A : Type ℓ} {C : Type κ} (f : A → C) where
  pub get_elem?-map :
      (xs : List A) (i : ℕ) (x : A) → get_elem? xs i ≡ some x → get_elem? (map f xs) i ≡ some (f x)
  get_elem?-map [] i x h = cc
  get_elem?-map (y ∷ xs) zero x h = ap (λ z. some (f z)) (some_path h)
  get_elem?-map (y ∷ xs) (suc i) x h = get_elem?-map xs i x h

  pub get_elem?-map_inv :
      (xs : List A) (i : ℕ) (c : C)
      → get_elem? (map f xs) i ≡ some c
      → (x : A) × (get_elem? xs i ≡ some x) × (f x ≡ c)
  get_elem?-map_inv [] i c h = cc
  get_elem?-map_inv (y ∷ xs) zero c h = (y, refl, some_path h)
  get_elem?-map_inv (y ∷ xs) (suc i) c h = get_elem?-map_inv xs i c h

  pub map-set_same :
      (xs : List A) (i : ℕ) (x y : A)
      → get_elem? xs i ≡ some x
      → f y ≡ f x
      → map f (set xs i y) ≡ map f xs
  map-set_same [] i x y h e = refl
  map-set_same (z ∷ xs) zero x y h e = ap (λ c. c ∷ map f xs) (e ∙ ap f (sym (some_path h)))
  map-set_same (z ∷ xs) (suc i) x y h e = ap (◌∷◌ (f z)) (map-set_same xs i x y h e)

  pub length-map : (xs : List A) → length (map f xs) ≡ length xs
  length-map [] = refl
  length-map (x ∷ xs) = ap suc (length-map xs)

module _ {ℓ} {A : Type ℓ} where
  pub All-set {κ} :
      (P : A → Type κ) (xs : List A) (i : ℕ) (x : A) → All P xs → P x → All P (set xs i x)
  All-set P [] i x h p = tt
  All-set P (y ∷ xs) zero x h p = (p, h.1)
  All-set P (y ∷ xs) (suc i) x h p = (h.0, All-set P xs i x h.1 p)

  pub get_elem?-set_below :
      (xs : List A) (i j : ℕ) (x : A) → i < j → get_elem? (set xs j x) i ≡ get_elem? xs i
  get_elem?-set_below [] i j x h = refl
  get_elem?-set_below (y ∷ xs) i zero x h = absurd (omega arith)
  get_elem?-set_below (y ∷ xs) zero (suc j) x h = refl
  get_elem?-set_below (y ∷ xs) (suc i) (suc j) x h = get_elem?-set_below xs i j x (omega arith)

  pub get_elem?_lt : (xs : List A) (i : ℕ) (x : A) → get_elem? xs i ≡ some x → i < length xs
  get_elem?_lt [] i x h = absurd cc
  get_elem?_lt (y ∷ xs) zero x h = omega arith
  get_elem?_lt (y ∷ xs) (suc i) x h = omega (arith, get_elem?_lt xs i x h)
