-- ===== src/Sensor/Store/Nodes.antt =====
-- The methods of SensorProcessor return, and keep the store sound and its links as they are.
use vfuzz.Prelude.{
  ℕ, ◌<◌, ◌≡◌, refl, ap, ◌∙◌, Bool, true, false, ◌||◌, List, [], length, is_empty, nth_inside,
  get_elem?, get_elem?_inside, some, All, All-imp, All-get_elem?, ok, ◌>>=◌, ◌==◌, if◌then◌else◌,
  arith,
}
use mathlib.Core.Path.{subst}
use vfuzz.Sensor.Base.{BaseSensor}
use vfuzz.Sensor.Base as Base
use vfuzz.Sensor.Processor as Processor
use vfuzz.Sensor.Profile.{ValueBitMap}
use vfuzz.Sensor.Store.{
  Sensor, Node, Object, Receiver, Store, put, for_each, tell, tell_each, feed, as_node, node_at,
  with_node, modify_node, modify_base, enable_node, disable_node, feed_at, combined_values,
  start_node, stop_node, id_of, start_at, stop_at,
}
use vfuzz.Sensor.Store as Store
use vfuzz.Sensor.Store.Shapes.{
  Shape, shape, shapes, kind_of, sensors_of, NodeAt, Leads, get_elem?-map, get_elem?_lt,
}
use vfuzz.Sensor.Store.Telling.{IsTame, IsFit, IsSound, feed-IsTame, node-of}
use vfuzz.Sensor.Store.Working.{
  KeepsValue, Inside, IsLike, Works, on_base-IsLike, object_at, put-IsSound, shape-IsLike,
  modify-Works, for_each-Works, tell_each-Works, tell-Works, start_at-Works, stop_at-Works,
}

-- Changes of a SensorProcessor that leave its sensors and the fitness of its processor.
abbrev pub KeepsNode : (Node → Node) → Type 0
KeepsNode f =
    (n : Node)
    → ((f n).sensors ≡ n.sensors) × (IsTame n.processor.state → IsTame (f n).processor.state)

module _ {B : Type 0} where
  with_node-IsLike : (f : Node → Node) → KeepsNode f → (x : Sensor B) → IsLike (with_node f x) x
  unfolding kind_of sensors_of
  with_node-IsLike f keep (Store.custom b) = (refl, refl, λ h. h)
  with_node-IsLike f keep (Store.coverage b) = (refl, refl, λ h. h)
  with_node-IsLike f keep (Store.intensity s) = (refl, refl, λ h. h)
  with_node-IsLike f keep (Store.stack s) = (refl, refl, λ h. h)
  with_node-IsLike f keep (Store.flowtrace s) = (refl, refl, λ h. h)
  with_node-IsLike f keep (Store.global_max s) = (refl, refl, λ h. h)
  with_node-IsLike f keep (Store.single_max s) = (refl, refl, λ h. h)
  with_node-IsLike f keep (Store.cmp_diff s) = (refl, refl, λ h. h)
  with_node-IsLike f keep (Store.auto_intensity s) = (refl, refl, λ h. h)
  with_node-IsLike f keep (Store.value_profile s) = (refl, refl, λ h. h)
  with_node-IsLike f keep (Store.processor b n) = (refl, (keep n).0, λ h. ((keep n).1 h.0, h.1))

  pub modify_node-Works :
      (hs : List Shape) (k : ℕ) (f : Node → Node)
      → Inside hs k
      → KeepsNode f
      → Works {B = B} hs (modify_node f k)
  modify_node-Works hs k f i keep = modify-Works hs k (with_node f) i (with_node-IsLike f keep)

  pub modify_base-Works :
      (hs : List Shape) (k : ℕ) (f : BaseSensor → BaseSensor)
      → Inside hs k
      → KeepsValue f
      → Works {B = B} hs (modify_base f k)
  modify_base-Works hs k f i keep = modify-Works hs k (Store.on_base f) i (on_base-IsLike f keep)

  as_node-of :
      (o : Object B) (b : BaseSensor) (n : Node) → o.sensor ≡ Store.processor b n → as_node o ≡ ok n
  as_node-of o b n e = ap (λ x. as_node (record { sensor = x; receiver = o.receiver })) e

  -- What stands at the place of a SensorProcessor.
  record IsNodeOf (hs : List Shape) (k : ℕ) (s : Store B) (o : Object B) (n : Node) : Type 0 where
    at : get_elem? s.objects k ≡ some o
    node : as_node o ≡ ok n
    tame : IsTame n.processor.state
    inside : All (Inside hs) n.sensors

  node_here :
      (hs : List Shape) (k : ℕ) (s : Store B)
      → IsSound s
      → shapes s ≡ hs
      → NodeAt hs k
      → (o : Object B) × (n : Node) × IsNodeOf hs k s o n
  unfolding sensors_of
  node_here hs k s h e i =
      let (o, at, eo) = object_at hs k s (i.0, i.1) e in
      let is_node : kind_of o.sensor ≡ 10 = ap (λ (x : Shape). x.kind) eo ∙ i.2 in
      let (b, n, en) = node-of o.sensor is_node in
      let fit = All-get_elem? (λ x. IsFit x.sensor) s.objects k o h.fit at in
      let at_shape = get_elem?-map shape s.objects k o at in
      let older = (h.linked.wired k (shape o) at_shape is_node).1 in
      let older' = subst (λ x. All (λ j. j < k) (sensors_of x)) en older in
      let size = get_elem?_lt hs k i.0 i.1 in
      (
        o,
        n,
        record {
          at = at;
          node = as_node-of o b n en;
          tame = (subst IsFit en fit).0;
          inside =
              All-imp (λ j. j < k) (Inside hs) n.sensors
                (λ j lt. get_elem?_inside hs j (omega (arith, lt, size))) older';
        },
      )

  node_at-here :
      (hs : List Shape) (k : ℕ) (s : Store B) (o : Object B) (n : Node)
      → IsNodeOf hs k s o n
      → node_at k s ≡ ok n
  unfolding node_at
  node_at-here hs k s o n i = rw (nth_inside s.objects k o i.at) i.node

  -- A step on the sensors of a SensorProcessor, and then one on itself.
  switch-Works :
      (hs : List Shape) (k : ℕ) (f : BaseSensor → BaseSensor) (g : Node → Node)
      → NodeAt hs k
      → KeepsValue f
      → KeepsNode g
      → Works {B = B} hs
          (λ s. node_at k s >>= λ n. for_each (modify_base f) n.sensors s >>= modify_node g k)
  switch-Works hs k f g i keep keep' s h e =
      let (o, n, here) = node_here hs k s h e i in
      let (s', eq, h', e') =
        for_each-Works hs (modify_base f) n.sensors
          (All-imp (Inside hs) (λ j. Works hs (modify_base f j)) n.sensors
            (λ j inside. modify_base-Works hs j f inside keep) here.inside)
          s h e in
      let (s'', eq', h'', e'') = modify_node-Works hs k g (i.0, i.1) keep' s' h' e' in
      (s'', rw (node_at-here hs k s o n here) (rw eq eq'), h'', e'')

  pub enable_node-Works : (hs : List Shape) (k : ℕ) → NodeAt hs k → Works {B = B} hs (enable_node k)
  unfolding enable_node
  enable_node-Works hs k i =
      switch-Works hs k Base.enable (λ n. record n { disabled = false }) i (λ b. refl)
        (λ n. (refl, λ h. h))

  pub disable_node-Works :
      (hs : List Shape) (k : ℕ) → NodeAt hs k → Works {B = B} hs (disable_node k)
  unfolding disable_node
  disable_node-Works hs k i =
      switch-Works hs k Base.disable (λ n. record n { disabled = true }) i (λ b. refl)
        (λ n. (refl, λ h. h))

  pub feed_at-Works :
      (hs : List Shape) (junk k value : ℕ) → NodeAt hs k → Works {B = B} hs (feed_at junk k value)
  unfolding feed_at
  feed_at-Works hs junk k value i s h e =
      let (o, n, here) = node_here hs k s h e i in
      let (q, values, eq, tame) = feed-IsTame junk value n.processor here.tame in
      let x = with_node (λ n. record n { processor = q }) o.sensor in
      let o' : Object B = record o { sensor = x } in
      let like =
        with_node-IsLike (λ n. record n { processor = q }) (λ n. (refl, λ t. tame)) o.sensor in
      let kept = put-IsSound hs k o o' s h e here.at (shape-IsLike o x like) like.2 in
      let leads = h.linked.leads k (shape o) (get_elem?-map shape s.objects k o here.at) in
      let (s', eq', h', e') =
        tell_each-Works hs (λ v. tell junk o.receiver (id_of o) v)
          (λ v.
            tell-Works hs junk k o.receiver (id_of o) v
              (subst (λ xs. Leads xs k o.receiver) e leads))
          values (put k o' s) kept.0 kept.1 in
      (s', rw (nth_inside s.objects k o here.at) (rw here.node (rw eq eq')), h', e')

module _ {B : Type 0} (bitmap : ValueBitMap B) where
  pub start_node-Works : (hs : List Shape) (k : ℕ) → NodeAt hs k → Works hs (start_node bitmap k)
  unfolding start_node
  start_node-Works hs k i s h e =
      let (o, n, here) = node_here hs k s h e i in
      let (s', eq, h', e') =
        for_each-Works hs (start_at bitmap) n.sensors
          (All-imp (Inside hs) (λ j. Works hs (start_at bitmap j)) n.sensors
            (start_at-Works bitmap hs) here.inside)
          s h e in
      let (s'', eq', h'', e'') =
        modify_node-Works hs k (λ n. record n { processor = Processor.start n.processor })
          (i.0, i.1) (λ n. (refl, λ t. t)) s' h' e' in
      (s'', rw (node_at-here hs k s o n here) (rw eq eq'), h'', e'')

  -- The part of Stop that passes the pairs of values on, or does not.
  pairs-Works :
      (hs : List Shape) (junk k : ℕ) (idle : Bool) (values : List ℕ)
      → NodeAt hs k
      → Works {B = B} hs (λ s. if idle then ok s else tell_each (feed_at junk k) values s)
  pairs-Works hs junk k true values i s h e = (s, refl, h, e)
  pairs-Works hs junk k false values i s h e =
      tell_each-Works hs (feed_at junk k) (λ v. feed_at-Works hs junk k v i) values s h e

  pub stop_node-Works :
      (hs : List Shape) (junk k : ℕ) → NodeAt hs k → Works hs (stop_node bitmap junk k)
  unfolding stop_node
  stop_node-Works hs junk k i s h e =
      let (o, n, here) = node_here hs k s h e i in
      let (s', eq, h', e') =
        for_each-Works hs (stop_at bitmap junk) n.sensors
          (All-imp (Inside hs) (λ j. Works hs (stop_at bitmap junk j)) n.sensors
            (λ j. stop_at-Works bitmap hs junk j) here.inside)
          s h e in
      let (o', n', here') = node_here hs k s' h' e' i in
      let idle =
        n'.disabled
        || length n'.sensors == 1
        || is_empty n'.data_sensor1
        || is_empty n'.data_sensor2 in
      let (t, eq', ht, et) =
        pairs-Works hs junk k idle (combined_values n'.data_sensor1 n'.data_sensor2) i s' h' e' in
      let (u, eq'', hu, eu) =
        modify_node-Works hs k (λ n. record n { data_sensor1 = []; data_sensor2 = [] }) (i.0, i.1)
          (λ n. (refl, λ t. t)) t ht et in
      (
        u,
        rw (node_at-here hs k s o n here)
            (rw eq (rw (node_at-here hs k s' o' n' here') (rw eq' eq''))),
        hu,
        eu,
      )
