-- ===== src/Options/AddRules/Uses.antt =====
-- What a constructed add rule maps, and components that are empty.
use vfuzz.Prelude.{
  ℕ, ◌≡◌, ◌≢◌, ◌⊎◌, refl, ap, ◌∙◌, false, List, [], ◌∷◌, Option, none, some, All, ◌==◌, Result, ok,
  err, ◌>>=◌, construction, length_error, deserialization, exception, runtime_error, fault, arith,
  inl, inr,
}
use mathlib.Core.Path.{subst}
use vfuzz.OrdMap.{OrdMap, lookup}
use vfuzz.Util.History.{Text}
use vfuzz.Util.Text.{remove_whitespace, to_lowercase}
use vfuzz.Options.AddRules.{
  AddRule, each, is_circular, id_of, constraint_of, constraint_of_kind, mapped, map_to,
  constraint_set_from_string, constraint_set_of, selector_from_string, selector_of, rewrite_of,
  rewrites, rewrite_rule_from_string, rewrite_rule_of, from_parts, add_rule,
}
use vfuzz.Options.AddRules.Format.{
  join, IsSplit, IsPlain, remove_whitespace_plain, to_lowercase_plain,
}
use vfuzz.Options.AddRules.Characters.{components-IsPlain, components-IsFree}
use vfuzz.Options.AddRules.Rules.{
  Yields, Anything, IsSingle, set-Yields, selector-Yields, IsOpen, IsValid, add_rule-Yields,
}

lookup-open :
    (gid to : ℕ) (mapping : OrdMap ℕ)
    → is_circular mapping ≡ false
    → lookup gid mapping ≡ some to
    → to ≢ gid
unfolding lookup is_circular
lookup-open gid to [] h e = absurd cc
lookup-open gid to ((from, t) ∷ mapping) h e = ground (arith, lookup-open gid to mapping)

module _ (split : ℕ → Text → List Text) (cast : Text → Option ℕ) where
  -- A constructed add rule maps each generator that its mapping names to the one that the mapping
  -- gives it, which is another one.
  pub map_to-moves :
      (s : Text) (r : AddRule) (mapping : OrdMap ℕ) (gid to : ℕ)
      → add_rule split cast s ≡ ok r
      → r.rewrite_rule ≡ some mapping
      → lookup gid mapping ≡ some to
      → (map_to gid r ≡ to) × (to ≢ gid)
  unfolding map_to mapped
  map_to-moves s r mapping gid to built has found =
      let valid : IsValid split cast r =
        subst (Yields (IsValid split cast)) built (add_rule-Yields split cast s) in
      let not_circular : is_circular mapping ≡ false = subst IsOpen has valid.1 in
      (
        ap (λ o. elim o [ none ↦ gid | some m ↦ mapped gid m ]) has
            ∙ ap (λ o. elim o [ none ↦ gid | some t ↦ t ]) found,
        lookup-open gid to mapping not_circular found,
      )

module _ (split : ℕ → Text → List Text) (cast : Text → Option ℕ) (splits : IsSplit split)
    (refuses : cast [] ≡ none) where
  id_of_empty : id_of split cast [] ≡ err construction
  unfolding id_of
  id_of_empty = ap (λ o. elim o [ none ↦ err construction | some n ↦ ok n ]) refuses

  constraint_set_empty : constraint_set_from_string split cast [] ≡ err construction
  unfolding constraint_set_from_string constraint_set_of each constraint_of constraint_of_kind
      to_lowercase remove_whitespace
  constraint_set_empty = rw (splits 44 [] [] (tt, tt)) refl

  selector_empty : selector_from_string split cast [] ≡ err construction
  unfolding selector_from_string selector_of each
  selector_empty = rw (splits 44 [] [] (tt, tt)) (rw id_of_empty refl)

  rewrite_rule_empty : rewrite_rule_from_string split cast [] ≡ err construction
  unfolding rewrite_rule_from_string rewrite_rule_of rewrites rewrite_of
  rewrite_rule_empty = rw (splits 44 [] [] (tt, tt)) (rw (splits 61 [] [] (tt, tt)) refl)

Yields-cases {ℓ} :
    {A : Type ℓ} (P : A → Type 0) (m : Result A)
    → Yields P m
    → ((a : A) × (m ≡ ok a)) ⊎ (m ≡ err construction)
Yields-cases P (ok a) h = inl (a, refl)
Yields-cases P (err construction) h = inr refl
Yields-cases P (err deserialization) h = absurd h
Yields-cases P (err exception) h = absurd h
Yields-cases P (err runtime_error) h = absurd h
Yields-cases P (err length_error) h = absurd h
Yields-cases P (err fault) h = absurd h

-- A step that fails ends the chain.
fails-here {ℓ κ} :
    {A : Type ℓ} {B : Type κ} (m : Result A) (f : A → Result B)
    → m ≡ err construction
    → (m >>= f) ≡ err construction
fails-here m f e = ap (λ x. x >>= f) e

-- A failure behind a step that yields.
fails-behind {ℓ κ} :
    {A : Type ℓ} {B : Type κ} (P : A → Type 0) (m : Result A) (f : A → Result B)
    → Yields P m
    → ((a : A) → f a ≡ err construction)
    → (m >>= f) ≡ err construction
fails-behind P m f h k = elim (Yields-cases P m h) [
  | inl (a, e) ↦ ap (λ x. x >>= f) e ∙ k a
  | inr e ↦ ap (λ x. x >>= f) e
]

module _ (split : ℕ → Text → List Text) (cast : Text → Option ℕ) (splits : IsSplit split)
    (refuses : cast [] ≡ none) where
  from_parts_empty :
      (p q r : Text)
      → (p ≡ []) ⊎ (q ≡ []) ⊎ (r ≡ [])
      → from_parts split cast (p ∷ q ∷ r ∷ []) ≡ err construction
  unfolding from_parts constraint_set_from_string selector_from_string
  from_parts_empty p q r (inl e) = rw e (
      fails-here (constraint_set_from_string split cast []) _
        (constraint_set_empty split cast splits refuses))
  from_parts_empty p q r (inr (inl e)) =
      fails-behind Anything (constraint_set_from_string split cast p) _
        (set-Yields split cast (split 44 (to_lowercase (remove_whitespace p))))
        λ _. rw e (
          fails-here (selector_from_string split cast []) _
            (selector_empty split cast splits refuses))
  from_parts_empty p q r (inr (inr e)) =
      fails-behind Anything (constraint_set_from_string split cast p) _
        (set-Yields split cast (split 44 (to_lowercase (remove_whitespace p))))
        λ _.
          fails-behind IsSingle (selector_from_string split cast q) _
            (selector-Yields split cast (split 44 q))
            λ _. rw e (
              fails-here (rewrite_rule_from_string split cast []) _
                (rewrite_rule_empty split cast splits refuses))

  -- Where Split finds the parts that a delimiter joins, and the conversion refuses an empty text: a text
  -- of three components without whitespace and capitals, one of which is empty, constructs no rule.
  pub add_rule_empty_component :
      (p q r : Text)
      → All (All (λ c. IsPlain c × ((c == 124) ≡ false))) (p ∷ q ∷ r ∷ [])
      → (p ≡ []) ⊎ (q ≡ []) ⊎ (r ≡ [])
      → add_rule split cast (join 124 (p ∷ q ∷ r ∷ [])) ≡ err construction
  unfolding add_rule
  add_rule_empty_component p q r h missing =
      let s = join 124 (p ∷ q ∷ r ∷ []) in
      let plain : All IsPlain s = components-IsPlain (p ∷ q ∷ r ∷ []) h in
      rw (remove_whitespace_plain s plain) (
        rw (to_lowercase_plain s plain) (
          rw (splits 124 p (q ∷ r ∷ []) (components-IsFree (p ∷ q ∷ r ∷ []) h))
            (from_parts_empty p q r missing)))
