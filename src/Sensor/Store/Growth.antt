-- ===== src/Sensor/Store/Growth.antt =====
-- A new SensorProcessor at the end of the store, to which the onReady of its sensors is bound.
use vfuzz.Prelude.{
  ℕ, zero, suc, ◌<◌, ◌≡◌, refl, sym, ap, ◌∙◌, Bool, true, false, ◌||◌, List, [], ◌∷◌, ◌++◌, map,
  length, set, nth_inside, get_elem?, get_elem?_inside, some, some_path, All, All-imp,
  All-get_elem?, length-set, get_elem?-append_end, ok, ◌⊎◌, inl, inr, Bool-cases, ◌==◌, ==_iff,
  ==_refl, if◌then◌else◌, arith,
}
use mathlib.Core.Path.{subst}
use vfuzz.Sensor.Base as Base
use vfuzz.Sensor.Store.{Receiver, Store, nobody, the_data, to, for_each, bind_to, modify, put}
use vfuzz.Sensor.Store.Shapes.{
  Shape, shape, shapes, NodeAt, Leads, IsFew, Wired, IsLinked, get_elem?-map, All-set, get_elem?_lt,
}
use vfuzz.Sensor.Store.Telling.{IsFit}
use vfuzz.Sensor.Store.Working.{Inside, object_at, on_base-IsLike}

abbrev pub elem : ℕ → List ℕ → Bool
elem i [] = false
elem i (k ∷ ks) = i == k || elem i ks

-- The class of what stands at a place does not change.
abbrev pub Grows : List Shape → List Shape → Type 0
Grows hs hs' =
    (i : ℕ) (h : Shape)
    → get_elem? hs i ≡ some h
    → (h' : Shape) × (get_elem? hs' i ≡ some h') × (h'.kind ≡ h.kind)

pub Grows-refl : (hs : List Shape) → Grows hs hs
Grows-refl hs i h at = (h, at, refl)

pub Grows-trans : (hs hs' hs'' : List Shape) → Grows hs hs' → Grows hs' hs'' → Grows hs hs''
Grows-trans hs hs' hs'' g g' i h at =
    let (h', at', e) = g i h at in let (h'', at'', e') = g' i h' at' in (h'', at'', e' ∙ e)

pub Grows-NodeAt : (hs hs' : List Shape) (k : ℕ) → Grows hs hs' → NodeAt hs k → NodeAt hs' k
Grows-NodeAt hs hs' k g i = let (h', at, e) = g k i.0 i.1 in (h', at, e ∙ i.2)

pub Grows-Leads :
    (hs hs' : List Shape) (i : ℕ) (r : Receiver) → Grows hs hs' → Leads hs i r → Leads hs' i r
Grows-Leads hs hs' i nobody g l = l
Grows-Leads hs hs' i the_data g l = l
Grows-Leads hs hs' i (to k) g l = (l.0, Grows-NodeAt hs hs' k g l.1)

-- The links of a store in which the given sensors may still be bound to nobody.
abbrev pub LeadsBut : List ℕ → List Shape → ℕ → Receiver → Type 0
LeadsBut ks hs i nobody = elem i ks ≡ true
LeadsBut ks hs i the_data = Unit {0}
LeadsBut ks hs i (to k) = (i < k) × NodeAt hs k

pub record IsLinkedBut (ks : List ℕ) (hs : List Shape) : Type 0 where
  pub leads : (i : ℕ) (h : Shape) → get_elem? hs i ≡ some h → LeadsBut ks hs i h.receiver
  pub wired : (i : ℕ) (h : Shape) → get_elem? hs i ≡ some h → Wired i h

-- A shape whose receiver is replaced, if its place is one of the given ones.
abbrev pub rebound : ℕ → List ℕ → ℕ → Shape → Shape
rebound p ks i h = if elem i ks then record h { receiver = to p } else h

pub record IsBound (p : ℕ) (ks : List ℕ) (hs hs' : List Shape) : Type 0 where
  pub size : length hs' ≡ length hs
  pub at : (i : ℕ) (h : Shape) → get_elem? hs i ≡ some h → get_elem? hs' i ≡ some (rebound p ks i h)

-- At the place stands a SensorProcessor of the given sensors, and each of them leads to it.
abbrev pub Joined : List ℕ → ℕ → List Shape → Type 0
Joined ks p hs =
    ((h : Shape) × (get_elem? hs p ≡ some h) × (h.kind ≡ 10) × (h.sensors ≡ ks))
    × All (λ k. (h : Shape) × (get_elem? hs k ≡ some h) × (h.receiver ≡ to p)) ks

module _ {ℓ} {A : Type ℓ} where
  get_elem?-set :
      (xs : List A) (i j : ℕ) (x y : A)
      → get_elem? xs i ≡ some x
      → get_elem? (set xs j y) i ≡ some (if i == j then y else x)
  get_elem?-set [] i j x y h = absurd cc
  get_elem?-set (z ∷ xs) zero zero x y h = ground arith
  get_elem?-set (z ∷ xs) zero (suc j) x y h = ground arith
  get_elem?-set (z ∷ xs) (suc i) zero x y h = ground arith
  get_elem?-set (z ∷ xs) (suc i) (suc j) x y h = ground (arith, get_elem?-set xs i j x y)

  pub get_elem?-append_old :
      (xs ys : List A) (i : ℕ) (x : A) → get_elem? xs i ≡ some x → get_elem? (xs ++ ys) i ≡ some x
  get_elem?-append_old [] ys i x h = absurd cc
  get_elem?-append_old (z ∷ xs) ys zero x h = h
  get_elem?-append_old (z ∷ xs) ys (suc i) x h = get_elem?-append_old xs ys i x h

  -- What stands in a list with one more element.
  pub get_elem?-append_cases :
      (xs : List A) (y : A) (i : ℕ) (x : A)
      → get_elem? (xs ++ (y ∷ [])) i ≡ some x
      → (get_elem? xs i ≡ some x) ⊎ ((i ≡ length xs) × (y ≡ x))
  get_elem?-append_cases [] y zero x h = inr (refl, some_path h)
  get_elem?-append_cases [] y (suc i) x h = absurd cc
  get_elem?-append_cases (z ∷ xs) y zero x h = inl h
  get_elem?-append_cases (z ∷ xs) y (suc i) x h = elim (get_elem?-append_cases xs y i x h) [
    | inl old ↦ inl old
    | inr new ↦ inr (ap suc new.0, new.1)
  ]

  pub map-append_one {κ} :
      {C : Type κ} (f : A → C) (xs : List A) (y : A)
      → map f (xs ++ (y ∷ [])) ≡ map f xs ++ (f y ∷ [])
  map-append_one f [] y = refl
  map-append_one f (x ∷ xs) y = ap (◌∷◌ (f x)) (map-append_one f xs y)

  pub map-set {κ} :
      {C : Type κ} (f : A → C) (xs : List A) (i : ℕ) (y : A)
      → map f (set xs i y) ≡ set (map f xs) i (f y)
  map-set f [] i y = refl
  map-set f (x ∷ xs) zero y = refl
  map-set f (x ∷ xs) (suc i) y = ap (◌∷◌ (f x)) (map-set f xs i y)

rebound-cons :
    (p k : ℕ) (ks : List ℕ) (i : ℕ) (g h : Shape)
    → (i ≡ k → g ≡ h)
    → rebound p ks i (if i == k then record h { receiver = to p } else g) ≡ rebound p (k ∷ ks) i g
rebound-cons p k ks i g h same = elim (Bool-cases (i == k)) [
  | inl e ↦
      let eq = same ((==_iff i k).0 e) in
      elim (Bool-cases (elem i ks)) [ inl m ↦ rw (e, m, eq) | inr m ↦ rw (e, m, eq) ]
  | inr e ↦ rw e
]

-- One more sensor is bound before the others.
IsBound-cons :
    (p k : ℕ) (ks : List ℕ) (hs hs' : List Shape) (h : Shape)
    → get_elem? hs k ≡ some h
    → IsBound p ks (set hs k (record h { receiver = to p })) hs'
    → IsBound p (k ∷ ks) hs hs'
IsBound-cons p k ks hs hs' h atk b = record {
  size = b.size ∙ length-set hs k (record h { receiver = to p });
  at = λ i g ati.
      b.at i _ (get_elem?-set hs i k g (record h { receiver = to p }) ati)
      ∙ ap some (rebound-cons p k ks i g h (λ e. some_path (sym ati ∙ ap (get_elem? hs) e ∙ atk)));
}

set-Inside : (hs : List Shape) (k : ℕ) (h : Shape) (j : ℕ) → Inside hs j → Inside (set hs k h) j
set-Inside hs k h j i = (_, get_elem?-set hs j k i.0 h i.1)

abbrev pub AllFit : {B : Type 0} → Store B → Type 0
AllFit s = All (λ o. IsFit o.sensor) s.objects

module _ {B : Type 0} where
  -- SetOnReady for each of the sensors.
  pub bind-IsBound :
      (p : ℕ) (ks : List ℕ) (s : Store B)
      → AllFit s
      → All (λ k. Inside (shapes s) k) ks
      → (s' : Store B) × (for_each (modify (bind_to (to p))) ks s ≡ ok s')
        × AllFit s'
        × IsBound p ks (shapes s) (shapes s')
        × (s'.sensor_data ≡ s.sensor_data)
  unfolding for_each modify
  bind-IsBound p [] s fit ins = (s, refl, fit, record { size = refl; at = λ i h at. at }, refl)
  bind-IsBound p (k ∷ ks) s fit ins =
      let (o, at, eo) = object_at (shapes s) k s ins.0 refl in
      let o' = bind_to (to p) o in
      let like = on_base-IsLike Base.set_on_ready (λ b. refl) o.sensor in
      let s1 = put k o' s in
      let fit1 =
        All-set (λ x. IsFit x.sensor) s.objects k o' fit
          (like.2 (All-get_elem? (λ x. IsFit x.sensor) s.objects k o fit at)) in
      let eo' : shape o' ≡ record (shape o) { receiver = to p } =
        λ i. record { kind = like.0 i; receiver = to p; sensors = like.1 i } in
      let e1 : shapes s1 ≡ set (shapes s) k (record (shape o) { receiver = to p }) =
        map-set shape s.objects k o' ∙ ap (set (shapes s) k) eo' in
      let g1 = set-Inside (shapes s) k (record (shape o) { receiver = to p }) in
      let ins1 =
        All-imp (Inside (shapes s)) (Inside (shapes s1)) ks
          (λ j i. subst (λ hs. Inside hs j) (sym e1) (g1 j i)) ins.1 in
      let (s', eq, fit', bound, same) = bind-IsBound p ks s1 fit1 ins1 in
      (
        s',
        rw (nth_inside s.objects k o at) eq,
        fit',
        IsBound-cons p k ks (shapes s) (shapes s') (shape o) (get_elem?-map shape s.objects k o at)
            (subst (λ hs. IsBound p ks hs (shapes s')) e1 bound),
        same,
      )

-- The links after a new SensorProcessor was put behind its sensors.
module _ (ks : List ℕ) (hs hs' : List Shape) (linked : IsLinkedBut ks hs) (few : IsFew ks)
    (ins : All (Inside hs) ks) (bound : IsBound (length hs) ks hs hs') where
  abbrev pub node_shape : Shape
  node_shape = record { kind = 10; receiver = the_data; sensors = ks }

  abbrev pub grown : List Shape
  grown = hs' ++ (node_shape ∷ [])

  pub bound-Grows : Grows hs grown
  bound-Grows i h at = elim (Bool-cases (elem i ks)) [
    | inl m ↦ (_, get_elem?-append_old hs' (node_shape ∷ []) i _ (bound.at i h at), rw m)
    | inr m ↦ (_, get_elem?-append_old hs' (node_shape ∷ []) i _ (bound.at i h at), rw m)
  ]

  node_placed : get_elem? grown (length hs) ≡ some node_shape
  node_placed =
      subst (λ n. get_elem? grown n ≡ some node_shape) bound.size
        (get_elem?-append_end hs' node_shape [])

  pub node_there : NodeAt grown (length hs)
  node_there = (node_shape, node_placed, refl)

  -- The given sensors lead to the new one.
  bound-All :
      (js : List ℕ)
      → ((k : ℕ) → elem k js ≡ true → elem k ks ≡ true)
      → All (Inside hs) js
      → All (λ k. (h : Shape) × (get_elem? grown k ≡ some h) × (h.receiver ≡ to (length hs))) js
  bound-All [] given ins = tt
  bound-All (k ∷ js) given ins =
      let there = get_elem?-append_old hs' (node_shape ∷ []) k _ (bound.at k ins.0.0 ins.0.1) in
      let own : elem k (k ∷ js) ≡ true = rw (==_refl k) refl in
      ((_, there, rw (given k own) refl), bound-All js (λ j m. given j (ground (arith, m))) ins.1)

  pub bound-Joined : Joined ks (length hs) grown
  bound-Joined = ((node_shape, node_placed, refl, refl), bound-All ks (λ k m. m) ins)

  Leads-old : (i : ℕ) (r : Receiver) → elem i ks ≡ false → LeadsBut ks hs i r → Leads grown i r
  Leads-old i nobody e l = absurd cc
  Leads-old i the_data e l = tt
  Leads-old i (to k) e l = (l.0, Grows-NodeAt hs grown k bound-Grows l.1)

  Leads-on :
      (i : ℕ) (h : Shape)
      → get_elem? hs i ≡ some h
      → Leads grown i (rebound (length hs) ks i h).receiver
  Leads-on i h at = elim (Bool-cases (elem i ks)) [
    | inl m ↦ rw m (get_elem?_lt hs i h at, node_there)
    | inr m ↦ rw m (Leads-old i h.receiver m (linked.leads i h at))
  ]

  Wired-on : (i : ℕ) (h : Shape) → get_elem? hs i ≡ some h → Wired i (rebound (length hs) ks i h)
  Wired-on i h at = elim (Bool-cases (elem i ks)) [
    | inl m ↦ rw m (linked.wired i h at)
    | inr m ↦ rw m (linked.wired i h at)
  ]

  -- What stands in the store now is a shape of before, or the new one.
  grown-cases :
      (i : ℕ) (g : Shape)
      → get_elem? grown i ≡ some g
      → ((h : Shape) × (get_elem? hs i ≡ some h) × (rebound (length hs) ks i h ≡ g))
        ⊎ ((i ≡ length hs) × (node_shape ≡ g))
  grown-cases i g at = elim (get_elem?-append_cases hs' node_shape i g at) [
    | inl old ↦
        let lt = get_elem?_lt hs' i g old in
        let size = bound.size in
        let (h, at') = get_elem?_inside hs i (omega arith) in
        inl (h, at', some_path (sym (bound.at i h at') ∙ old))
    | inr new ↦ inr (new.0 ∙ bound.size, new.1)
  ]

  pub bound-IsLinked : IsLinked grown
  bound-IsLinked = record {
    leads = λ i g at. elim (grown-cases i g at) [
      | inl old ↦ subst (λ (h : Shape). Leads grown i h.receiver) old.2 (Leads-on i old.0 old.1)
      | inr new ↦ subst (λ (h : Shape). Leads grown i h.receiver) new.1 tt
    ];
    wired = λ i g at. elim (grown-cases i g at) [
      | inl old ↦ subst (Wired i) old.2 (Wired-on i old.0 old.1)
      | inr new ↦ subst (Wired i) new.1 (λ e. (
        few,
        All-imp (Inside hs) (λ k. k < i) ks
            (λ k inside.
              let lt = get_elem?_lt hs k inside.0 inside.1 in let e = new.0 in omega arith)
            ins,
      ))
    ];
  }
