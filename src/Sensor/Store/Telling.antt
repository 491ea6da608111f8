-- ===== src/Sensor/Store/Telling.antt =====
-- A value that a sensor tells goes through the SensorProcessors above it, and to an end.
use vfuzz.Prelude.{
  ℕ, zero, suc, ◌+◌, ◌<◌, ◌≤◌, ◌≡◌, refl, sym, ap, ◌∙◌, List, [], ◌∷◌, ◌++◌, length, nth_inside,
  get_elem?, none, some, All, All-get_elem?, Result, ok, Bool-cases, inl, inr, ◌⊎◌, ltb, length-set,
  ◌==◌, arith,
}
use mathlib.Core.Path.{subst}
use vfuzz.OrdMap.{insert}
use vfuzz.Sensor.Base.{BaseSensor}
use vfuzz.Sensor.Processor.{
  Processor, State, Event, noop, highest, lowest, unique, unique_max, receive, added_values, added,
  updated,
}
use vfuzz.Sensor.Processor as Processor
use vfuzz.Sensor.Store.{
  Sensor, Node, Object, Receiver, Store, nobody, the_data, to, feed, node_receive, take_in, put,
  tell_each, deliver, tell_calls, id_of,
}
use vfuzz.Sensor.Store as Store
use vfuzz.Sensor.Store.Shapes.{
  Shape, shape, shapes, kind_of, sensors_of, Leads, IsFew, IsLinked, get_elem?-map,
  get_elem?-map_inv, map-set_same, All-set, get_elem?-set_below, get_elem?_lt,
}

-- The processors that a container makes, none of which throws.
abbrev pub IsTame : State → Type 0
IsTame noop = Unit {0}
IsTame (highest best) = Unit {0}
IsTame (lowest best) = Unit {0}
IsTame (unique vals) = Unit {0}
IsTame (unique_max size prev vals) = ⊥

-- The state of a SensorProcessor: its processor does not throw, and it has no value of its own.
abbrev pub IsFit : {B : Type 0} → Sensor B → Type 0
IsFit (Store.processor b n) = IsTame n.processor.state × (b.last_value ≡ none)
IsFit (Store.custom b) = Unit {0}
IsFit (Store.coverage b) = Unit {0}
IsFit (Store.intensity s) = Unit {0}
IsFit (Store.stack s) = Unit {0}
IsFit (Store.flowtrace s) = Unit {0}
IsFit (Store.global_max s) = Unit {0}
IsFit (Store.single_max s) = Unit {0}
IsFit (Store.cmp_diff s) = Unit {0}
IsFit (Store.auto_intensity s) = Unit {0}
IsFit (Store.value_profile s) = Unit {0}

pub record IsSound {B : Type 0} (s : Store B) : Type 0 where
  pub linked : IsLinked (shapes s)
  pub fit : All (λ o. IsFit o.sensor) s.objects

-- What a call that starts behind a place may change: no link, no object up to there, and the state
-- stays fit.
pub record IsTold {B : Type 0} (b : ℕ) (s s' : Store B) : Type 0 where
  pub same : shapes s' ≡ shapes s
  pub fit : All (λ o. IsFit o.sensor) s'.objects
  pub below : (i : ℕ) → i ≤ b → get_elem? s'.objects i ≡ get_elem? s.objects i
  pub size : length s'.objects ≡ length s.objects

receive-IsTame :
    (junk value : ℕ) (st : State)
    → IsTame st
    → (st' : State) × (events : List Event) × (receive junk value st ≡ ok (st', events))
      × IsTame st'
unfolding receive
receive-IsTame junk value noop h = (noop, _, refl, tt)
receive-IsTame junk value (highest best) h = elim (Bool-cases (ltb best value)) [
  | inl e ↦ (highest value, added value ∷ updated best value ∷ [], rw e, tt)
  | inr e ↦ (highest best, [], rw e, tt)
]
receive-IsTame junk value (lowest none) h = (_, _, refl, tt)
receive-IsTame junk value (lowest (some best)) h = elim (Bool-cases (ltb value best)) [
  | inl e ↦ (lowest (some value), added value ∷ updated best value ∷ [], rw e, tt)
  | inr e ↦ (lowest (some best), [], rw e, tt)
]
receive-IsTame junk value (unique vals) h =
    let after = insert value tt vals in
    elim (Bool-cases (ltb (length vals) (length after))) [
      | inl e ↦
          (unique after, added (length after) ∷ updated (length vals) (length after) ∷ [], rw e, tt)
      | inr e ↦ (unique after, [], rw e, tt)
    ]
receive-IsTame junk value (unique_max size prev vals) h = absurd h

deliver-state : (values : List ℕ) (p : Processor) → (Processor.deliver values p).state ≡ p.state
unfolding Processor.deliver
deliver-state values p = ground arith

pub feed-IsTame :
    (junk value : ℕ) (p : Processor)
    → IsTame p.state
    → (p' : Processor) × (values : List ℕ) × (feed junk value p ≡ ok (p', values)) × IsTame p'.state
unfolding feed
feed-IsTame junk value p h = elim (Bool-cases p.disabled) [
  | inl e ↦ (p, [], rw e, h)
  | inr e ↦
      let (st, events, eq, tame) = receive-IsTame junk value p.state h in
      (
        Processor.deliver (added_values events) (record p { state = st }),
        added_values events,
        rw (e, eq),
        subst IsTame (sym (deliver-state (added_values events) (record p { state = st }))) tame,
      )
]

few-cases : (ks : List ℕ) → IsFew ks → (length ks ≡ 1) ⊎ (length ks ≡ 2)
few-cases [] h = absurd h
few-cases (a ∷ []) h = inl refl
few-cases (a ∷ b ∷ []) h = inr refl
few-cases (a ∷ b ∷ c ∷ ks) h = absurd h

node_receive-IsFit :
    (junk id value : ℕ) (n : Node)
    → IsTame n.processor.state
    → IsFew n.sensors
    → (n' : Node) × (values : List ℕ) × (node_receive junk id value n ≡ ok (n', values))
      × (n'.sensors ≡ n.sensors)
      × IsTame n'.processor.state
unfolding node_receive
node_receive-IsFit junk id value n h few = elim (few-cases n.sensors few) [
  | inl one ↦
      let (q, values, eq, tame) = feed-IsTame junk value n.processor h in
      (record n { processor = q }, values, rw (one, eq), refl, tame)
  | inr two ↦ elim (Bool-cases (id == n.first_sensor_id)) [
    | inl e ↦ (record n { data_sensor1 = n.data_sensor1 ++ (value ∷ []) }, [], rw (two, e), refl, h)
    | inr e ↦ (record n { data_sensor2 = n.data_sensor2 ++ (value ∷ []) }, [], rw (two, e), refl, h)
  ]
]

module _ {B : Type 0} where
  -- Nothing changes.
  pub IsTold-refl : (b : ℕ) (s : Store B) → IsSound s → IsTold b s s
  IsTold-refl b s h = record { same = refl; fit = h.fit; below = λ i le. refl; size = refl }

  pub IsTold-IsSound : (b : ℕ) (s s' : Store B) → IsSound s → IsTold b s s' → IsSound s'
  IsTold-IsSound b s s' h t = record { linked = subst IsLinked (sym t.same) h.linked; fit = t.fit }

  -- One call after another, of which the second starts no lower.
  pub IsTold-trans :
      (b c : ℕ) (s s' s'' : Store B) → b ≤ c → IsTold b s s' → IsTold c s' s'' → IsTold b s s''
  IsTold-trans b c s s' s'' le t u = record {
    same = u.same ∙ t.same;
    fit = u.fit;
    below = λ i h. u.below i (omega arith) ∙ t.below i h;
    size = u.size ∙ t.size;
  }

  -- An object replaced by one of its shape, which is fit.
  pub put-IsTold :
      (b k : ℕ) (o o' : Object B) (s : Store B)
      → IsSound s
      → get_elem? s.objects k ≡ some o
      → shape o' ≡ shape o
      → IsFit o'.sensor
      → b < k
      → IsTold b s (put k o' s)
  put-IsTold b k o o' s h at e fit lt = record {
    same = map-set_same shape s.objects k o o' at e;
    fit = All-set (λ x. IsFit x.sensor) s.objects k o' h.fit fit;
    below = λ i le. get_elem?-set_below s.objects i k o' (omega arith);
    size = length-set s.objects k o';
  }

  pub node-of :
      (x : Sensor B) → kind_of x ≡ 10 → (b : BaseSensor) × (n : Node) × (x ≡ Store.processor b n)
  unfolding kind_of
  node-of (Store.custom b) e = absurd (omega arith)
  node-of (Store.coverage b) e = absurd (omega arith)
  node-of (Store.intensity s) e = absurd (omega arith)
  node-of (Store.stack s) e = absurd (omega arith)
  node-of (Store.flowtrace s) e = absurd (omega arith)
  node-of (Store.global_max s) e = absurd (omega arith)
  node-of (Store.single_max s) e = absurd (omega arith)
  node-of (Store.cmp_diff s) e = absurd (omega arith)
  node-of (Store.auto_intensity s) e = absurd (omega arith)
  node-of (Store.value_profile s) e = absurd (omega arith)
  node-of (Store.processor b n) e = (b, n, refl)

  abbrev TakesIn : ℕ → ℕ → ℕ → Object B → Type 0
  TakesIn junk id value o =
      IsFit o.sensor
      → IsFew (sensors_of o.sensor)
      → (o' : Object B) × (values : List ℕ) × (take_in junk id value o ≡ ok (o', values))
        × (shape o' ≡ shape o)
        × IsFit o'.sensor

  take_in-node :
      (junk id value : ℕ) (b : BaseSensor) (n : Node) (r : Receiver)
      → TakesIn junk id value (record { sensor = Store.processor b n; receiver = r })
  unfolding take_in kind_of sensors_of
  take_in-node junk id value b n r fit few =
      let (n', values, eq, same, tame) = node_receive-IsFit junk id value n fit.0 few in
      (
        record { sensor = Store.processor b n'; receiver = r },
        values,
        rw eq,
        ap (λ ks. record { kind = 10; receiver = r; sensors = ks }) same,
        (tame, fit.1),
      )

  take_in-IsFit :
      (junk id value : ℕ) (o : Object B) → kind_of o.sensor ≡ 10 → TakesIn junk id value o
  take_in-IsFit junk id value o e =
      let (b, n, is_node) = node-of o.sensor e in
      subst (TakesIn junk id value)
        (ap (λ x. record { sensor = x; receiver = o.receiver }) (sym is_node))
        (take_in-node junk id value b n o.receiver)

  -- Calls for one value after another, each of which is told after those before.
  pub tell_each-IsTold :
      (b : ℕ) (f : ℕ → Store B → Result (Store B)) (start : Store B)
      → IsSound start
      → ((v : ℕ) (s : Store B)
          → IsTold b start s
          → (s' : Store B) × (f v s ≡ ok s') × IsTold b s s')
      → (values : List ℕ) (s : Store B) → IsTold b start s
      → (s' : Store B) × (tell_each f values s ≡ ok s') × IsTold b start s'
  unfolding tell_each
  tell_each-IsTold b f start h step [] s t = (s, refl, t)
  tell_each-IsTold b f start h step (v ∷ values) s t =
      let (s', eq, u) = step v s t in
      let (s'', eq', t') =
        tell_each-IsTold b f start h step values s'
          (IsTold-trans b b start s s' (omega arith) t u) in
      (s'', rw eq eq', t')

  -- In a store whose sensors are linked to younger SensorProcessors, with processors that do not
  -- throw, a call of onReady from a place returns within as many steps as there are objects behind
  -- the place: the links and the number of objects stay the same, no object up to the place
  -- changes, and no SensorProcessor gets a processor that throws or a value of its own.
  pub deliver-IsTold :
      (junk fuel b : ℕ) (r : Receiver) (id value : ℕ) (s : Store B)
      → length s.objects ≤ fuel + b + 1
      → IsSound s
      → Leads (shapes s) b r
      → (s' : Store B) × (deliver junk fuel r id value s ≡ ok s') × IsTold b s s'
  unfolding deliver
  deliver-IsTold junk fuel b nobody id value s enough h l = absurd l
  deliver-IsTold junk fuel b the_data id value s enough h l =
      (_, refl, record { same = refl; fit = h.fit; below = λ i le. refl; size = refl })
  deliver-IsTold junk zero b (to k) id value s enough h l =
      let (o, at, e) = get_elem?-map_inv shape s.objects k l.1.0 l.1.1 in
      absurd (omega (arith, get_elem?_lt s.objects k o at, l.0))
  deliver-IsTold junk (suc fuel) b (to k) id value s enough h l =
      let (o, at, e) = get_elem?-map_inv shape s.objects k l.1.0 l.1.1 in
      let is_node : kind_of o.sensor ≡ 10 = ap (λ (x : Shape). x.kind) e ∙ l.1.2 in
      let at_shape = get_elem?-map shape s.objects k o at in
      let few = (h.linked.wired k (shape o) at_shape is_node).0 in
      let fit = All-get_elem? (λ x. IsFit x.sensor) s.objects k o h.fit at in
      let (o', values, eq, same, fit') = take_in-IsFit junk id value o is_node fit few in
      let moved = put-IsTold b k o o' s h at same fit' l.0 in
      let sound = IsTold-IsSound b s (put k o' s) h moved in
      let leads : Leads (shapes s) k o'.receiver =
        subst (λ (x : Shape). Leads (shapes s) k x.receiver) (sym same)
          (h.linked.leads k (shape o) at_shape) in
      let (s', eq', told) =
        tell_each-IsTold k (deliver junk fuel o'.receiver (id_of o')) (put k o' s) sound
          (λ v t u.
            deliver-IsTold junk fuel k o'.receiver (id_of o') v t
              (omega (arith, u.size, length-set s.objects k o', l.0))
              (IsTold-IsSound k (put k o' s) t sound u)
              (subst (λ hs. Leads hs k o'.receiver) (sym (u.same ∙ moved.same)) leads))
          values (put k o' s) (IsTold-refl k (put k o' s) sound) in
      (
        s',
        rw (nth_inside s.objects k o at) (rw eq eq'),
        IsTold-trans b k s (put k o' s) s' (omega (arith, l.0)) moved told,
      )
