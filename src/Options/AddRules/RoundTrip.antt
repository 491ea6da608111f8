-- ===== src/Options/AddRules/RoundTrip.antt =====
-- The parser of add rules against the format of addrules.md.
use vfuzz.Prelude.{
  ℕ, ◌≡◌, refl, ap, ◌∙◌, true, false, List, [], ◌∷◌, ◌++◌, map, Option, none, some, All, All-imp,
  ◌==◌, Result, ok, err, construction, append-nil, append_assoc,
}
use vfuzz.OrdMap.{OrdMap}
use vfuzz.OrdMap.Laws.{IsSorted, assign_end}
use vfuzz.Codec.Words.{IsU64}
use vfuzz.Util.History.{Text}
use vfuzz.Util.Text.{is_space, to_lower, to_string}
use vfuzz.Options.AddRules.{
  Constraint, sensor, generator, each, have_duplicate, is_circular, new_selector, new_rewrite_rule,
  id_of, constraint_of, constraint_of_kind, constraint_set_from_string, constraint_set_of,
  selector_from_string, selector_of, rewrite_rule_of, rewrite_of, rewrites,
  rewrite_rule_from_string, from_parts, add_rule,
}
use vfuzz.Options.AddRules.Format.{
  join, IsSplit, IsCast, IsPlain, print_constraint, print_rewrite, print_rule,
  remove_whitespace_plain, to_lowercase_plain,
}
use vfuzz.Options.AddRules.Characters.{
  number-IsInner, number-IsFree, constraint-IsInner, rewrite-IsInner, parts-IsFree,
  component-IsPlain, components-IsFree, components-IsPlain,
}

each-map {ℓ} :
    {A : Type ℓ} (f : Text → Result A) (print : A → Text) (xs : List A)
    → All (λ x. f (print x) ≡ ok x) xs
    → each f (map print xs) ≡ ok xs
unfolding each
each-map f print [] h = refl
each-map f print (x ∷ xs) h = rw (h.0, each-map f print xs h.1) refl

abbrev pub HasIds : Constraint → Type 0
HasIds (sensor b n) = IsU64 n
HasIds (generator b n) = IsU64 n

abbrev pub HaveIds : OrdMap ℕ → Type 0
HaveIds [] = Unit {0}
HaveIds ((from, to) ∷ mapping) = IsU64 from × IsU64 to × HaveIds mapping

module _ (split : ℕ → Text → List Text) (cast : Text → Option ℕ) (splits : IsSplit split)
    (casts : IsCast cast) where
  id_of-to_string : (n : ℕ) → IsU64 n → id_of split cast (to_string n) ≡ ok n
  unfolding id_of
  id_of-to_string n h = ap (λ o. elim o [ none ↦ err construction | some m ↦ ok m ]) (casts n h)

  constraint_of-print :
      (c : Constraint) → HasIds c → constraint_of split cast (print_constraint c) ≡ ok c
  unfolding constraint_of constraint_of_kind
  constraint_of-print (sensor true n) h = rw (id_of-to_string n h) refl
  constraint_of-print (sensor false n) h = rw (id_of-to_string n h) refl
  constraint_of-print (generator true n) h = rw (id_of-to_string n h) refl
  constraint_of-print (generator false n) h = rw (id_of-to_string n h) refl

  rewrite_of-print :
      (from to : ℕ)
      → IsU64 from
      → IsU64 to
      → rewrite_of split cast (split 61 (print_rewrite (from, to))) ≡ ok (from, to)
  unfolding rewrite_of
  rewrite_of-print from to h k =
      let e =
        splits 61 (to_string from) (to_string to ∷ [])
          (number-IsFree from, (number-IsFree to, tt)) in
      rw (e, id_of-to_string from h, id_of-to_string to k) refl

  rewrites-print :
      (done mapping : OrdMap ℕ)
      → IsSorted (done ++ mapping)
      → HaveIds mapping
      → rewrites split cast done (map print_rewrite mapping) ≡ ok (done ++ mapping)
  unfolding rewrites
  rewrites-print done [] s h = rw append-nil refl
  rewrites-print done ((from, to) ∷ mapping) s h =
      let e = assign_end 0 from to to done mapping s in
      let same : (done ++ ((from, to) ∷ [])) ++ mapping ≡ done ++ ((from, to) ∷ mapping) =
        append_assoc done ((from, to) ∷ []) mapping in
      rw (rewrite_of-print from to h.0 h.1, e)
        (rewrites-print (done ++ ((from, to) ∷ [])) mapping (rw same s) h.2 ∙ ap ok same)

  All-ids : (gids : List ℕ) → All IsU64 gids → All (λ n. id_of split cast (to_string n) ≡ ok n) gids
  All-ids gids = All-imp IsU64 (λ n. id_of split cast (to_string n) ≡ ok n) gids id_of-to_string

  constraints-print :
      (c : Constraint) (cs : List Constraint)
      → All HasIds (c ∷ cs)
      → constraint_set_from_string split cast (join 44 (map print_constraint (c ∷ cs)))
        ≡ ok (some (c ∷ cs))
  unfolding constraint_set_from_string constraint_set_of
  constraints-print c cs h =
      let s = join 44 (map print_constraint (c ∷ cs)) in
      let plain : All IsPlain s =
        All-imp (λ a. IsPlain a × ((a == 124) ≡ false)) IsPlain s (λ a k. k.0)
          (component-IsPlain print_constraint constraint-IsInner (c ∷ cs)) in
      let parsed = each-map (constraint_of split cast) print_constraint (c ∷ cs) (
        All-imp HasIds (λ a. constraint_of split cast (print_constraint a) ≡ ok a) (c ∷ cs)
          constraint_of-print h) in
      rw (remove_whitespace_plain s plain) (
        rw (to_lowercase_plain s plain) (
          rw
            (splits 44 (print_constraint c) (map print_constraint cs)
              (parts-IsFree print_constraint constraint-IsInner (c ∷ cs)))
            (rw parsed refl)))

  selector-print :
      (g : ℕ) (gids : List ℕ)
      → All IsU64 (g ∷ gids)
      → have_duplicate (g ∷ gids) ≡ false
      → selector_from_string split cast (join 44 (map to_string (g ∷ gids))) ≡ ok (some (g ∷ gids))
  unfolding selector_from_string selector_of new_selector
  selector-print g gids h single =
      rw
        (splits 44 (to_string g) (map to_string gids)
          (parts-IsFree to_string number-IsInner (g ∷ gids)))
        (rw (each-map (id_of split cast) to_string (g ∷ gids) (All-ids (g ∷ gids) h))
          (rw single refl))

  rewrite_rule-print :
      (m : ℕ × ℕ) (mapping : OrdMap ℕ)
      → HaveIds (m ∷ mapping)
      → IsSorted (m ∷ mapping)
      → is_circular (m ∷ mapping) ≡ false
      → rewrite_rule_from_string split cast (join 44 (map print_rewrite (m ∷ mapping)))
        ≡ ok (some (m ∷ mapping))
  unfolding rewrite_rule_from_string rewrite_rule_of new_rewrite_rule
  rewrite_rule-print m mapping h sorted open_end =
      rw
        (splits 44 (print_rewrite m) (map print_rewrite mapping)
          (parts-IsFree print_rewrite rewrite-IsInner (m ∷ mapping)))
        (rw (rewrites-print [] (m ∷ mapping) sorted h) (rw open_end refl))

  -- Where Split finds the parts that a delimiter joins, and the conversion reads decimal digits:
  -- for constraints, generators to select and a mapping in order, none of them empty, with IDs of 64
  -- bits, no generator twice in a row and none mapped to itself, AddRule reads back the text that
  -- the documented format writes for them.
  pub add_rule-print :
      (c : Constraint) (cs : List Constraint) (g : ℕ) (gids : List ℕ) (m : ℕ × ℕ)
      (mapping : OrdMap ℕ)
      → All HasIds (c ∷ cs)
      → All IsU64 (g ∷ gids)
      → HaveIds (m ∷ mapping)
      → have_duplicate (g ∷ gids) ≡ false
      → IsSorted (m ∷ mapping)
      → is_circular (m ∷ mapping) ≡ false
      → add_rule split cast (print_rule (c ∷ cs) (g ∷ gids) (m ∷ mapping))
        ≡ ok (record {
          constraint_set = some (c ∷ cs);
          selector = some (g ∷ gids);
          rewrite_rule = some (m ∷ mapping);
        })
  unfolding add_rule from_parts is_space to_lower
  add_rule-print c cs g gids m mapping hc hg hm single sorted open_end =
      let a = join 44 (map print_constraint (c ∷ cs)) in
      let b = join 44 (map to_string (g ∷ gids)) in
      let d = join 44 (map print_rewrite (m ∷ mapping)) in
      let s = join 124 (a ∷ b ∷ d ∷ []) in
      let pa = component-IsPlain print_constraint constraint-IsInner (c ∷ cs) in
      let pb = component-IsPlain to_string number-IsInner (g ∷ gids) in
      let pd = component-IsPlain print_rewrite rewrite-IsInner (m ∷ mapping) in
      let plain : All IsPlain s = components-IsPlain (a ∷ b ∷ d ∷ []) (pa, (pb, (pd, tt))) in
      rw (remove_whitespace_plain s plain) (
        rw (to_lowercase_plain s plain) (
          rw (splits 124 a (b ∷ d ∷ []) (components-IsFree (a ∷ b ∷ d ∷ []) (pa, (pb, (pd, tt))))) (
            rw
              (
                constraints-print c cs hc,
                selector-print g gids hg single,
                rewrite_rule-print m mapping hm sorted open_end,
              )
              refl)))
