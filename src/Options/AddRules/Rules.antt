-- ===== src/Options/AddRules/Rules.antt =====
-- What every add rule that is constructed keeps to, and which texts construct none.
use vfuzz.Prelude.{
  ℕ, ◌≡◌, Bool, true, false, List, [], ◌∷◌, Option, none, some, ◌==◌, Result, ok, err, ◌>>=◌,
  deserialization, exception, runtime_error, construction, length_error, fault, inl, inr,
  Bool-cases,
}
use vfuzz.OrdMap.{OrdMap, assign}
use vfuzz.Util.History.{Text}
use vfuzz.Util.Text.{remove_whitespace, to_lowercase}
use vfuzz.Options.AddRules.{
  AddRule, each, have_duplicate, is_circular, new_selector, new_rewrite_rule, id_of, constraint_of,
  constraint_of_kind, constraint_set_from_string, constraint_set_of, selector_from_string,
  selector_of, rewrite_of, rewrites, rewrite_rule_from_string, rewrite_rule_of, from_parts,
  add_rule,
}

-- The result is a value with the property, or an AddRuleConstructionException.
abbrev pub Yields {ℓ} : {A : Type ℓ} → (A → Type 0) → Result A → Type 0
Yields P (ok a) = P a
Yields P (err construction) = Unit {0}
Yields P (err deserialization) = ⊥
Yields P (err exception) = ⊥
Yields P (err runtime_error) = ⊥
Yields P (err length_error) = ⊥
Yields P (err fault) = ⊥

>>=-Yields {ℓ κ} :
    {A : Type ℓ} {B : Type κ} (P : A → Type 0) (Q : B → Type 0) (m : Result A) (f : A → Result B)
    → Yields P m
    → ((a : A) → P a → Yields Q (f a))
    → Yields Q (m >>= f)
>>=-Yields P Q (ok a) f h k = k a h
>>=-Yields P Q (err construction) f h k = tt
>>=-Yields P Q (err deserialization) f h k = absurd h
>>=-Yields P Q (err exception) f h k = absurd h
>>=-Yields P Q (err runtime_error) f h k = absurd h
>>=-Yields P Q (err length_error) f h k = absurd h
>>=-Yields P Q (err fault) f h k = absurd h

-- Any value.
abbrev pub Anything {ℓ} : {A : Type ℓ} → A → Type 0
Anything a = Unit {0}

each-Yields {ℓ} :
    {A : Type ℓ} (f : Text → Result A) (parts : List Text)
    → ((p : Text) → Yields Anything (f p))
    → Yields Anything (each f parts)
unfolding each
each-Yields f [] h = tt
each-Yields f (p ∷ parts) h =
    >>=-Yields Anything Anything (f p) (λ a. each f parts >>= λ rest. ok (a ∷ rest)) (h p)
      λ a _.
        >>=-Yields Anything Anything (each f parts) (λ rest. ok (a ∷ rest)) (each-Yields f parts h)
          λ _ _. tt

-- A selector does not name a generator twice in a row.
abbrev pub IsSingle : Option (List ℕ) → Type 0
IsSingle none = Unit {0}
IsSingle (some gids) = have_duplicate gids ≡ false

-- A mapping maps no generator to itself.
abbrev pub IsOpen : Option (OrdMap ℕ) → Type 0
IsOpen none = Unit {0}
IsOpen (some mapping) = is_circular mapping ≡ false

read-Yields :
    (o : Option ℕ) → Yields {A = ℕ} Anything (elim o [ none ↦ err construction | some n ↦ ok n ])
read-Yields none = tt
read-Yields (some n) = tt

module _ (split : ℕ → Text → List Text) (cast : Text → Option ℕ) where
  id_of-Yields : (p : Text) → Yields Anything (id_of split cast p)
  unfolding id_of
  id_of-Yields p = read-Yields (cast p)

  kind-Yields : (b : Bool) (p : Text) → Yields Anything (constraint_of_kind split cast b p)
  unfolding constraint_of_kind
  kind-Yields b [] = tt
  kind-Yields b (c ∷ p) = elim (Bool-cases (c == 115)) [
    | inl e ↦ rw e (>>=-Yields Anything Anything (id_of split cast p) _ (id_of-Yields p) λ _ _. tt)
    | inr e ↦ elim (Bool-cases (c == 103)) [
      | inl k ↦
          rw (e, k) (>>=-Yields Anything Anything (id_of split cast p) _ (id_of-Yields p) λ _ _. tt)
      | inr k ↦ rw (e, k) tt
    ]
  ]

  constraint-Yields : (p : Text) → Yields Anything (constraint_of split cast p)
  unfolding constraint_of
  constraint-Yields [] = kind-Yields false []
  constraint-Yields (c ∷ p) = elim (Bool-cases (c == 33)) [
    | inl e ↦ rw e (kind-Yields true p)
    | inr e ↦ rw e (kind-Yields false (c ∷ p))
  ]

  pub set-Yields : (parts : List Text) → Yields Anything (constraint_set_of split cast parts)
  unfolding constraint_set_of
  set-Yields [] = tt
  set-Yields (p ∷ parts) =
      >>=-Yields Anything Anything (each (constraint_of split cast) (p ∷ parts))
        (λ cs. ok (some cs)) (each-Yields (constraint_of split cast) (p ∷ parts) constraint-Yields)
        λ _ _. tt

  pub selector-Yields : (parts : List Text) → Yields IsSingle (selector_of split cast parts)
  unfolding selector_of new_selector
  selector-Yields [] = tt
  selector-Yields (p ∷ parts) =
      >>=-Yields Anything IsSingle (each (id_of split cast) (p ∷ parts)) _
        (each-Yields (id_of split cast) (p ∷ parts) id_of-Yields)
        λ gids _. elim (Bool-cases (have_duplicate gids)) [ inl e ↦ rw e tt | inr e ↦ rw e e ]

  rewrite-Yields : (parts : List Text) → Yields Anything (rewrite_of split cast parts)
  unfolding rewrite_of
  rewrite-Yields [] = tt
  rewrite-Yields (p ∷ []) = tt
  rewrite-Yields (p ∷ q ∷ []) =
      >>=-Yields Anything Anything (id_of split cast p) _ (id_of-Yields p)
        λ a _. >>=-Yields Anything Anything (id_of split cast q) _ (id_of-Yields q) λ b _. tt
  rewrite-Yields (p ∷ q ∷ r ∷ parts) = tt

  rewrites-Yields :
      (mapping : OrdMap ℕ) (parts : List Text) → Yields Anything (rewrites split cast mapping parts)
  unfolding rewrites
  rewrites-Yields mapping [] = tt
  rewrites-Yields mapping (p ∷ parts) =
      >>=-Yields Anything Anything (rewrite_of split cast (split 61 p)) _
        (rewrite-Yields (split 61 p)) λ (from, to) _. rewrites-Yields (assign from to mapping) parts

  rule-Yields : (parts : List Text) → Yields IsOpen (rewrite_rule_of split cast parts)
  unfolding rewrite_rule_of new_rewrite_rule
  rule-Yields [] = tt
  rule-Yields (p ∷ parts) =
      >>=-Yields Anything IsOpen (rewrites split cast [] (p ∷ parts)) _
        (rewrites-Yields [] (p ∷ parts))
        λ mapping _. elim (Bool-cases (is_circular mapping)) [ inl e ↦ rw e tt | inr e ↦ rw e e ]

  -- What is promised of an add rule that is constructed.
  abbrev pub IsValid : AddRule → Type 0
  IsValid r = IsSingle r.selector × IsOpen r.rewrite_rule

  parts-Yields : (parts : List Text) → Yields IsValid (from_parts split cast parts)
  unfolding from_parts constraint_set_from_string selector_from_string rewrite_rule_from_string
  parts-Yields [] = tt
  parts-Yields (p ∷ []) =
      >>=-Yields Anything IsValid (constraint_set_from_string split cast p) _
        (set-Yields (split 44 (to_lowercase (remove_whitespace p)))) λ _ _. (tt, tt)
  parts-Yields (p ∷ q ∷ []) =
      >>=-Yields Anything IsValid (constraint_set_from_string split cast p) _
        (set-Yields (split 44 (to_lowercase (remove_whitespace p))))
        λ _ _.
          >>=-Yields IsSingle IsValid (selector_from_string split cast q) _
            (selector-Yields (split 44 q)) λ _ h. (h, tt)
  parts-Yields (p ∷ q ∷ r ∷ []) =
      >>=-Yields Anything IsValid (constraint_set_from_string split cast p) _
        (set-Yields (split 44 (to_lowercase (remove_whitespace p))))
        λ _ _.
          >>=-Yields IsSingle IsValid (selector_from_string split cast q) _
            (selector-Yields (split 44 q))
            λ _ h.
              >>=-Yields IsOpen IsValid (rewrite_rule_from_string split cast r) _
                (rule-Yields (split 44 r)) λ _ k. (h, k)
  parts-Yields (p ∷ q ∷ r ∷ x ∷ parts) = tt

  -- On every text, whatever Split and the conversion give: AddRule constructs a rule whose selector
  -- does not name a generator twice in a row and whose mapping maps none to itself, or throws
  -- AddRuleConstructionException, and nothing else.
  pub add_rule-Yields : (s : Text) → Yields IsValid (add_rule split cast s)
  unfolding add_rule
  add_rule-Yields s = parts-Yields (split 124 (to_lowercase (remove_whitespace s)))
