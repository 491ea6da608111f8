-- ===== src/Sensor/Kinds/Depth.antt =====
-- What a StackSensor tells of the depth of the stack.
use vfuzz.Prelude.{
  ℕ, ◌^◌, ◌≤◌, ◌<◌, ◌≡◌, refl, sym, ap, ◌∙◌, Bool, true, false, not, List, [], ◌∷◌, map, Option,
  none, some, ltb, inl, inr, Bool-cases, ltb→lt, ◌==◌, if◌then◌else◌, arith,
}
use mathlib.Core.Path.{subst}
use vfuzz.Codec.Words.{IsU64}
use vfuzz.Sensor.Base.{get_id, is_effectively_enabled, propagate, BaseSensor}
use vfuzz.Sensor.Kinds.{StackSensor, delta, depth_of, deepen, update_stack, update_stacks}

-- Each value lies above the one before it, the first one above `b`.
abbrev pub IsRisingFrom : ℕ → List ℕ → Type 0
IsRisingFrom b [] = Unit {0}
IsRisingFrom b (v ∷ values) = (b < v) × IsRisingFrom v values

abbrev pub largest : ℕ → List ℕ → ℕ
largest best [] = best
largest best (n ∷ ns) = largest (if ltb best n then n else best) ns

-- A sensor that is enabled and has its base, which its record reaches.
pub record IsMeasuring (s : StackSensor) : Type 0 where
  pub enabled : is_effectively_enabled s.base ≡ true
  pub based : 0 < s.stack_depth_base
  pub reaches : s.stack_depth_base ≤ s.stack_depth_record
  pub fits : IsU64 s.stack_depth_record

-- The sensor after a depth above all others.
abbrev told : ℕ → StackSensor → StackSensor
told p s = record (deepen p s) {
  base = record s.base { is_updated = true; last_value = some (delta (deepen p s)) };
}

-- How the sensor tells a depth above all others.
abbrev telling : ℕ → StackSensor → StackSensor × Option (ℕ × ℕ)
telling p s =
    let s' = deepen p s in
    let (base, call) = propagate (delta s') s'.base in (record s' { base = base }, call)

propagate-enabled :
    (value : ℕ) (b : BaseSensor)
    → is_effectively_enabled b ≡ true
    → propagate value b
      ≡ (record b { is_updated = true; last_value = some value }, some (get_id b, value))
unfolding propagate get_id
propagate-enabled value b h =
    ap
      (λ e.
        if not e
        then (b, none)
        else (record b { is_updated = true; last_value = some value }, some (get_id b, value)))
      h

update_stack-told :
    (sp : ℕ) (s : StackSensor)
    → is_effectively_enabled s.base ≡ true
    → ltb s.stack_depth_record (depth_of sp) ≡ true
    → update_stack sp s
      ≡ (told (depth_of sp) s, some (get_id s.base, delta (deepen (depth_of sp) s)))
unfolding update_stack
update_stack-told sp s on deeper =
    let p = depth_of sp in
    ap
      (λ e.
        if not e
        then (s, none)
        else (if ltb s.stack_depth_record p then telling p s else (s, none)))
      on
    ∙ ap (λ e. if e then telling p s else (s, none)) deeper
    ∙ ap (λ r. (record (deepen p s) { base = r.0 }, r.1))
        (propagate-enabled (delta (deepen p s)) s.base on)

update_stack-silent :
    (sp : ℕ) (s : StackSensor)
    → ltb s.stack_depth_record (depth_of sp) ≡ false
    → update_stack sp s ≡ (s, none)
unfolding update_stack
update_stack-silent sp s flat =
    ap
      (λ e.
        if not (is_effectively_enabled s.base)
        then (s, none)
        else (if e then telling (depth_of sp) s else (s, none)))
      flat
    ∙ same (is_effectively_enabled s.base) (s, none)
  where
    same : {A : Type 0} (b : Bool) (a : A) → (if not b then a else a) ≡ a
    same true a = refl
    same false a = refl

told-IsMeasuring :
    (sp : ℕ) (s : StackSensor)
    → IsMeasuring s
    → ltb s.stack_depth_record (depth_of sp) ≡ true
    → IsMeasuring (told (depth_of sp) s) × (delta s < delta (told (depth_of sp) s))
told-IsMeasuring sp s m deeper =
    let over = ltb→lt s.stack_depth_record (depth_of sp) deeper in
    let has_base : (s.stack_depth_base == 0) ≡ false = ground (arith, m.based) in
    let low : depth_of sp < 2 ^ 64 = omega arith in
    rw has_base (
      record {
        enabled = m.enabled;
        based = m.based;
        reaches = omega (arith, m.reaches);
        fits = low;
      },
      omega (arith, m.reaches, m.fits),
    )

-- Of a StackSensor that is enabled and has its base, which its record, a number of 64 bits,
-- reaches, on any stack pointers: the values that it tells rise strictly, from above the depth that
-- it had, its record ends as the largest of what it was and the depths of the pointers, and the
-- conditions hold again.
pub update_stacks-IsRising :
    (sps : List ℕ) (s : StackSensor)
    → IsMeasuring s
    → let (last, values) = update_stacks sps s in
      IsRisingFrom (delta s) values
      × (last.stack_depth_record ≡ largest s.stack_depth_record (map depth_of sps))
      × IsMeasuring last
unfolding update_stacks
update_stacks-IsRising [] s m = (tt, refl, m)
update_stacks-IsRising (sp ∷ sps) s m =
    let next : Bool → ℕ =
      λ b. largest (if b then depth_of sp else s.stack_depth_record) (map depth_of sps) in
    let after : StackSensor × Option (ℕ × ℕ) → StackSensor × List ℕ = λ r.
      let (last, values) = update_stacks sps r.0 in
      (last, elim r.1 [ none ↦ values | some (id, value) ↦ value ∷ values ]) in
    let holds : StackSensor × Option (ℕ × ℕ) → Type 0 = λ r.
      IsRisingFrom (delta s) (after r).1
      × ((after r).0.stack_depth_record ≡ next (ltb s.stack_depth_record (depth_of sp)))
      × IsMeasuring (after r).0 in
    elim (Bool-cases (ltb s.stack_depth_record (depth_of sp))) [
      | inl deeper ↦
          let (measuring, above) = told-IsMeasuring sp s m deeper in
          let (rising, record_is, ends) =
            update_stacks-IsRising sps (told (depth_of sp) s) measuring in
          subst holds (sym (update_stack-told sp s m.enabled deeper))
            ((above, rising), record_is ∙ ap next (sym deeper), ends)
      | inr flat ↦
          let (rising, record_is, ends) = update_stacks-IsRising sps s m in
          subst holds (sym (update_stack-silent sp s flat))
            (rising, record_is ∙ ap next (sym flat), ends)
    ]
