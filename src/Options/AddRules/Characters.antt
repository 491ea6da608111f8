-- ===== src/Options/AddRules/Characters.antt =====
-- Which characters the format of add rules uses where.
use vfuzz.Prelude.{
  ℕ, ◌≡◌, refl, true, false, List, [], ◌∷◌, map, All, All-append, All-imp, ◌==◌, arith,
}
use vfuzz.Util.History.{Text}
use vfuzz.Util.Text.{is_space, to_lower, to_string}
use vfuzz.Options.AddRules.{Constraint, sensor, generator}
use vfuzz.Options.AddRules.Format.{join, join-All, IsFree, IsPlain, print_constraint, print_rewrite}
use vfuzz.Options.AddRules.Numbers.{IsDigit, decimal-IsDigit}

-- A character of a part of a component, which neither delimits nor is changed.
pub IsInner : ℕ → Type 0
IsInner c = IsPlain c × ((c == 124) ≡ false) × ((c == 44) ≡ false)

digit-IsInner : (c : ℕ) → IsDigit c → IsInner c
unfolding IsInner is_space to_lower
digit-IsInner c h = ground arith

pub number-IsInner : (n : ℕ) → All IsInner (to_string n)
number-IsInner n = All-imp IsDigit IsInner (to_string n) digit-IsInner (decimal-IsDigit 20 n)

pub number-IsFree : (n : ℕ) → IsFree 61 (to_string n)
number-IsFree n =
    All-imp IsDigit (λ c. (c == 61) ≡ false) (to_string n) (λ c h. ground arith)
      (decimal-IsDigit 20 n)

pub constraint-IsInner : (c : Constraint) → All IsInner (print_constraint c)
unfolding IsInner is_space to_lower
constraint-IsInner (sensor true n) =
    (((refl, refl), refl, refl), (((refl, refl), refl, refl), number-IsInner n))
constraint-IsInner (sensor false n) = (((refl, refl), refl, refl), number-IsInner n)
constraint-IsInner (generator true n) =
    (((refl, refl), refl, refl), (((refl, refl), refl, refl), number-IsInner n))
constraint-IsInner (generator false n) = (((refl, refl), refl, refl), number-IsInner n)

pub rewrite-IsInner : (m : ℕ × ℕ) → All IsInner (print_rewrite m)
unfolding IsInner is_space to_lower
rewrite-IsInner (from, to) =
    All-append IsInner (to_string from) (61 ∷ to_string to) (number-IsInner from)
      (((refl, refl), refl, refl), number-IsInner to)

All-map {ℓ} :
    {A : Type ℓ} (P : Text → Type 0) (f : A → Text) (xs : List A)
    → ((x : A) → P (f x))
    → All P (map f xs)
All-map P f [] h = tt
All-map P f (x ∷ xs) h = (h x, All-map P f xs h)

module _ {ℓ} {A : Type ℓ} (print : A → Text) (inner : (a : A) → All IsInner (print a)) where
  -- The parts of a component are free of its delimiter.
  pub parts-IsFree : (xs : List A) → All (IsFree 44) (map print xs)
  unfolding IsInner
  parts-IsFree xs =
      All-map (IsFree 44) print xs
        (λ a. All-imp IsInner (λ c. (c == 44) ≡ false) (print a) (λ c h. h.2) (inner a))

  -- A component is plain, and free of the delimiter of components.
  pub component-IsPlain :
      (xs : List A) → All (λ c. IsPlain c × ((c == 124) ≡ false)) (join 44 (map print xs))
  unfolding IsInner is_space to_lower
  component-IsPlain xs =
      join-All (λ c. IsPlain c × ((c == 124) ≡ false)) 44 (map print xs) ((refl, refl), refl)
        (All-map (All (λ c. IsPlain c × ((c == 124) ≡ false))) print xs (λ a.
          All-imp IsInner (λ c. IsPlain c × ((c == 124) ≡ false)) (print a) (λ c h. (h.0, h.1))
            (inner a)))

pub components-IsFree :
    (parts : List Text)
    → All (All (λ c. IsPlain c × ((c == 124) ≡ false))) parts
    → All (IsFree 124) parts
components-IsFree parts =
    All-imp (All (λ c. IsPlain c × ((c == 124) ≡ false))) (IsFree 124) parts (λ p.
      All-imp (λ c. IsPlain c × ((c == 124) ≡ false)) (λ c. (c == 124) ≡ false) p (λ c h. h.1))

pub components-IsPlain :
    (parts : List Text)
    → All (All (λ c. IsPlain c × ((c == 124) ≡ false))) parts
    → All IsPlain (join 124 parts)
unfolding is_space to_lower
components-IsPlain parts h =
    join-All IsPlain 124 parts (refl, refl)
      (All-imp (All (λ c. IsPlain c × ((c == 124) ≡ false))) (All IsPlain) parts
        (λ p. All-imp (λ c. IsPlain c × ((c == 124) ≡ false)) IsPlain p (λ c k. k.0)) h)
