-- ===== src/Prelude/Results.antt =====
-- The exceptions of the program as values, and the chaining of steps that may throw.
-- `deserialization` is DeserializationException, `exception` any other vfuzz::Exception,
-- `runtime_error` std::runtime_error, `construction` AddRuleConstructionException, `length_error` std::length_error, and `fault` a
-- step whose behaviour C++ leaves undefined, or a call of abort().
use Prim.Native.Nat.{ℕ}
use mathlib.Core.Path.{◌≡◌, refl, ap}
use mathlib.Core.List.{List}
use mathlib.Core.Option.{none, some}
use vfuzz.Prelude.Lists.{get_elem?}

pub data Error : Type 0 where
  deserialization exception runtime_error construction length_error fault : Error

pub data Result {ℓ} (A : Type ℓ) : Type ℓ where
  ok : A → Result A
  err : Error → Result A

infixl 5 ◌>>=◌
abbrev pub ◌>>=◌ {ℓ κ} : {A : Type ℓ} {B : Type κ} → Result A → (A → Result B) → Result B
err raised >>= next = err raised
ok value >>= next = next value

-- The result is a value or a DeserializationException.
abbrev pub IsSafe {ℓ} : {A : Type ℓ} → Result A → Type 0
IsSafe (ok a) = Unit {0}
IsSafe (err deserialization) = Unit {0}
IsSafe (err exception) = ⊥
IsSafe (err runtime_error) = ⊥
IsSafe (err construction) = ⊥
IsSafe (err length_error) = ⊥
IsSafe (err fault) = ⊥

-- A safe step followed by steps that are safe after each of its results is safe.
pub >>=-IsSafe {ℓ κ} :
    {A : Type ℓ} {B : Type κ} (m : Result A) (f : A → Result B)
    → IsSafe m
    → ((a : A) → m ≡ ok a → IsSafe (f a))
    → IsSafe (m >>= f)
>>=-IsSafe (ok a) f h k = k a refl
>>=-IsSafe (err deserialization) f h k = tt
>>=-IsSafe (err exception) f h k = h
>>=-IsSafe (err runtime_error) f h k = h
>>=-IsSafe (err construction) f h k = h
>>=-IsSafe (err length_error) f h k = h
>>=-IsSafe (err fault) f h k = h

-- Inversion of a successful chain.
pub >>=-eq-ok {ℓ κ} :
    {A : Type ℓ} {B : Type κ} (first : Result A) (next : A → Result B) {out : B}
    → (first >>= next) ≡ ok out
    → (value : A) × (first ≡ ok value) × (next value ≡ ok out)
>>=-eq-ok (err raised) next chain = cc
>>=-eq-ok (ok value) next chain = (value, refl, chain)

-- `v[i]` and `*std::advance(begin(), i)`, a fault out of range
unfoldable pub nth {ℓ} : {A : Type ℓ} → List A → ℕ → Result A
nth xs i = elim (get_elem? xs i) [ none ↦ err fault | some x ↦ ok x ]

pub nth_inside {ℓ} :
    {A : Type ℓ} (xs : List A) (i : ℕ) (x : A) → get_elem? xs i ≡ some x → nth xs i ≡ ok x
unfolding nth
nth_inside xs i x h = ap (λ o. elim o [ none ↦ err fault | some x ↦ ok x ]) h
