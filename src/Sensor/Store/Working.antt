-- ===== src/Sensor/Store/Working.antt =====
-- Steps on a store whose links stay as they are: they return, and leave it sound.
use vfuzz.Prelude.{
  ℕ, ◌≡◌, refl, sym, ap, ◌∙◌, List, [], ◌∷◌, length, nth_inside, get_elem?, some, All,
  All-get_elem?, Result, ok, arith,
}
use mathlib.Core.Path.{subst}
use vfuzz.Sensor.Base.{BaseSensor}
use vfuzz.Sensor.Profile.{ValueBitMap}
use vfuzz.Sensor.Store.{
  Sensor, Node, Object, Receiver, Store, to, on_base, modify, put, for_each, tell, tell_calls,
  start_sensor, stop_sensor, start_at, stop_at, settle,
}
use vfuzz.Sensor.Store as Store
use vfuzz.Sensor.Store.Shapes.{
  Shape, shape, shapes, kind_of, sensors_of, Leads, IsLinked, get_elem?-map, get_elem?-map_inv,
  map-set_same, All-set,
}
use vfuzz.Sensor.Store.Telling.{IsFit, IsSound, IsTold-IsSound, deliver-IsTold}

abbrev pub KeepsValue : (BaseSensor → BaseSensor) → Type 0
KeepsValue f = (b : BaseSensor) → (f b).last_value ≡ b.last_value

abbrev pub Inside : List Shape → ℕ → Type 0
Inside hs k = (h : Shape) × (get_elem? hs k ≡ some h)

module _ {B : Type 0} where
  -- What a sensor is, apart from its state.
  abbrev pub IsLike : Sensor B → Sensor B → Type 0
  IsLike x y = (kind_of x ≡ kind_of y) × (sensors_of x ≡ sensors_of y) × (IsFit y → IsFit x)

  pub on_base-IsLike :
      (f : BaseSensor → BaseSensor) → KeepsValue f → (x : Sensor B) → IsLike (on_base f x) x
  unfolding on_base kind_of sensors_of
  on_base-IsLike f keep (Store.custom b) = (refl, refl, λ h. h)
  on_base-IsLike f keep (Store.coverage b) = (refl, refl, λ h. h)
  on_base-IsLike f keep (Store.intensity s) = (refl, refl, λ h. h)
  on_base-IsLike f keep (Store.stack s) = (refl, refl, λ h. h)
  on_base-IsLike f keep (Store.flowtrace s) = (refl, refl, λ h. h)
  on_base-IsLike f keep (Store.global_max s) = (refl, refl, λ h. h)
  on_base-IsLike f keep (Store.single_max s) = (refl, refl, λ h. h)
  on_base-IsLike f keep (Store.cmp_diff s) = (refl, refl, λ h. h)
  on_base-IsLike f keep (Store.auto_intensity s) = (refl, refl, λ h. h)
  on_base-IsLike f keep (Store.value_profile s) = (refl, refl, λ h. h)
  on_base-IsLike f keep (Store.processor b n) = (refl, refl, λ h. (h.0, keep b ∙ h.1))

  -- A step that returns in every sound store with the given links, and keeps both.
  abbrev pub Works : List Shape → (Store B → Result (Store B)) → Type 0
  Works hs f =
      (s : Store B)
      → IsSound s
      → shapes s ≡ hs
      → (s' : Store B) × (f s ≡ ok s') × IsSound s' × (shapes s' ≡ hs)

  -- The object at a place.
  pub object_at :
      (hs : List Shape) (k : ℕ) (s : Store B) (i : Inside hs k)
      → shapes s ≡ hs
      → (o : Object B) × (get_elem? s.objects k ≡ some o) × (shape o ≡ i.0)
  object_at hs k s i e = get_elem?-map_inv shape s.objects k i.0 (ap (λ xs. get_elem? xs k) e ∙ i.1)

  pub put-IsSound :
      (hs : List Shape) (k : ℕ) (o o' : Object B) (s : Store B)
      → IsSound s
      → shapes s ≡ hs
      → get_elem? s.objects k ≡ some o
      → shape o' ≡ shape o
      → (IsFit o.sensor → IsFit o'.sensor)
      → IsSound (put k o' s) × (shapes (put k o' s) ≡ hs)
  put-IsSound hs k o o' s h e at like fit =
      let same = map-set_same shape s.objects k o o' at like in
      let fit' = fit (All-get_elem? (λ x. IsFit x.sensor) s.objects k o h.fit at) in
      (
        record {
          linked = subst IsLinked (sym same) h.linked;
          fit = All-set (λ x. IsFit x.sensor) s.objects k o' h.fit fit';
        },
        same ∙ e,
      )

  pub shape-IsLike :
      (o : Object B) (x : Sensor B) → IsLike x o.sensor → shape (record o { sensor = x }) ≡ shape o
  shape-IsLike o x l = λ i. record { kind = l.0 i; receiver = o.receiver; sensors = l.1 i }

  pub modify-Works :
      (hs : List Shape) (k : ℕ) (f : Sensor B → Sensor B)
      → Inside hs k
      → ((x : Sensor B) → IsLike (f x) x)
      → Works hs (modify (λ o. record o { sensor = f o.sensor }) k)
  unfolding modify
  modify-Works hs k f i like s h e =
      let (o, at, eo) = object_at hs k s i e in
      let o' : Object B = record o { sensor = f o.sensor } in
      let kept =
        put-IsSound hs k o o' s h e at (shape-IsLike o (f o.sensor) (like o.sensor))
          (like o.sensor).2 in
      (put k o' s, rw (nth_inside s.objects k o at), kept.0, kept.1)

  pub for_each-Works :
      (hs : List Shape) (f : ℕ → Store B → Result (Store B)) (ks : List ℕ)
      → All (λ k. Works hs (f k)) ks
      → Works hs (for_each f ks)
  unfolding for_each
  for_each-Works hs f [] w s h e = (s, refl, h, e)
  for_each-Works hs f (k ∷ ks) w s h e =
      let (s', eq, h', e') = w.0 s h e in
      let (s'', eq', h'', e'') = for_each-Works hs f ks w.1 s' h' e' in (s'', rw eq eq', h'', e'')

  pub tell_each-Works :
      (hs : List Shape) (f : ℕ → Store B → Result (Store B))
      → ((v : ℕ) → Works hs (f v))
      → (vs : List ℕ) → Works hs (Store.tell_each f vs)
  unfolding Store.tell_each
  tell_each-Works hs f w [] s h e = (s, refl, h, e)
  tell_each-Works hs f w (v ∷ vs) s h e =
      let (s', eq, h', e') = w v s h e in
      let (s'', eq', h'', e'') = tell_each-Works hs f w vs s' h' e' in (s'', rw eq eq', h'', e'')

  -- A call of onReady by the sensor at a place.
  pub tell-Works :
      (hs : List Shape) (junk b : ℕ) (r : Receiver) (id value : ℕ)
      → Leads hs b r
      → Works hs (λ s. tell junk r id value s)
  tell-Works hs junk b r id value l s h e =
      let (s', eq, t) =
        deliver-IsTold junk (length s.objects) b r id value s (omega arith) h
          (subst (λ xs. Leads xs b r) (sym e) l) in
      (s', eq, IsTold-IsSound b s s' h t, t.same ∙ e)

  pub tell_calls-Works :
      (hs : List Shape) (junk b : ℕ) (r : Receiver) (calls : List (ℕ × ℕ))
      → Leads hs b r
      → Works hs (tell_calls junk r calls)
  unfolding tell_calls
  tell_calls-Works hs junk b r [] l s h e = (s, refl, h, e)
  tell_calls-Works hs junk b r ((id, value) ∷ calls) l s h e =
      let (s', eq, h', e') = tell-Works hs junk b r id value l s h e in
      let (s'', eq', h'', e'') = tell_calls-Works hs junk b r calls l s' h' e' in
      (s'', rw eq eq', h'', e'')

  -- A sensor's new state, and the calls that it makes.
  pub settle-Works :
      (hs : List Shape) (junk k : ℕ) (o : Object B) (x : Sensor B) (calls : List (ℕ × ℕ))
      (s : Store B)
      → IsSound s
      → shapes s ≡ hs
      → get_elem? s.objects k ≡ some o
      → IsLike x o.sensor
      → (s' : Store B) × (settle junk k o (x, calls) s ≡ ok s') × IsSound s' × (shapes s' ≡ hs)
  settle-Works hs junk k o x calls s h e at like =
      let o' : Object B = record o { sensor = x } in
      let kept = put-IsSound hs k o o' s h e at (shape-IsLike o x like) like.2 in
      let leads = h.linked.leads k (shape o) (get_elem?-map shape s.objects k o at) in
      tell_calls-Works hs junk k o.receiver calls (subst (λ xs. Leads xs k o.receiver) e leads)
        (put k o' s) kept.0 kept.1

module _ {B : Type 0} (bitmap : ValueBitMap B) where
  start_sensor-IsLike : (x : Sensor B) → IsLike (start_sensor bitmap x) x
  unfolding start_sensor on_base kind_of sensors_of
  start_sensor-IsLike (Store.custom b) = (refl, refl, λ h. h)
  start_sensor-IsLike (Store.coverage b) = (refl, refl, λ h. h)
  start_sensor-IsLike (Store.intensity s) = (refl, refl, λ h. h)
  start_sensor-IsLike (Store.stack s) = (refl, refl, λ h. h)
  start_sensor-IsLike (Store.flowtrace s) = (refl, refl, λ h. h)
  start_sensor-IsLike (Store.global_max s) = (refl, refl, λ h. h)
  start_sensor-IsLike (Store.single_max s) = (refl, refl, λ h. h)
  start_sensor-IsLike (Store.cmp_diff s) = (refl, refl, λ h. h)
  start_sensor-IsLike (Store.auto_intensity s) = (refl, refl, λ h. h)
  start_sensor-IsLike (Store.value_profile s) = (refl, refl, λ h. h)
  start_sensor-IsLike (Store.processor b n) = (refl, refl, λ h. h)

  stop_sensor-IsLike : (x : Sensor B) → IsLike (stop_sensor bitmap x).0 x
  unfolding stop_sensor on_base kind_of sensors_of
  stop_sensor-IsLike (Store.custom b) = (refl, refl, λ h. h)
  stop_sensor-IsLike (Store.coverage b) = (refl, refl, λ h. h)
  stop_sensor-IsLike (Store.intensity s) = (refl, refl, λ h. h)
  stop_sensor-IsLike (Store.stack s) = (refl, refl, λ h. h)
  stop_sensor-IsLike (Store.flowtrace s) = (refl, refl, λ h. h)
  stop_sensor-IsLike (Store.global_max s) = (refl, refl, λ h. h)
  stop_sensor-IsLike (Store.single_max s) = (refl, refl, λ h. h)
  stop_sensor-IsLike (Store.cmp_diff s) = (refl, refl, λ h. h)
  stop_sensor-IsLike (Store.auto_intensity s) = (refl, refl, λ h. h)
  stop_sensor-IsLike (Store.value_profile s) = (refl, refl, λ h. h)
  stop_sensor-IsLike (Store.processor b n) = (refl, refl, λ h. h)

  pub start_at-Works : (hs : List Shape) (k : ℕ) → Inside hs k → Works hs (start_at bitmap k)
  start_at-Works hs k i = modify-Works hs k (start_sensor bitmap) i start_sensor-IsLike

  pub stop_at-Works :
      (hs : List Shape) (junk k : ℕ) → Inside hs k → Works hs (stop_at bitmap junk k)
  unfolding stop_at
  stop_at-Works hs junk k i s h e =
      let (o, at, eo) = object_at hs k s i e in
      let x = stop_sensor bitmap o.sensor in
      let (s', eq, h', e') =
        settle-Works hs junk k o x.0 x.1 s h e at (stop_sensor-IsLike o.sensor) in
      (s', rw (nth_inside s.objects k o at) eq, h', e')
