-- ===== src/Util/World.antt =====
-- What the components share by pointer and change by calls: the random source, which every
-- component holds, and the history of the current run, which the mutators write if they have one.
-- The conduits by which mutators read a corpus change its clusters: `visited` has the places and the
-- generators of their calls of InputCluster::Get, which the executor carries out.
-- A step takes the world and gives a value and the new world, or an exception.
use vfuzz.Prelude.{
  ℕ, List, [], ◌∷◌, ◌++◌, ◌≡◌, refl, Option, none, some, Bool, Result, ok, err, Error,
}
use vfuzz.Util.Rand.{Rand, below, between, rand_bool}
use vfuzz.Util.History.{History, Text}
use vfuzz.Util.History

pub record World : Type 0 where
  pub rand : Rand
  pub history : Option History
  pub visited : List (ℕ × ℕ)

abbrev pub M : Type 0 → Type 0
M A = World → Result (A × World)

infixl 5 ◌>>=◌ ◌>>◌
abbrev pub ◌>>=◌ : {A B : Type 0} → M A → (A → M B) → M B
◌>>=◌ m f w = elim (m w) [ err e ↦ err e | ok (a, w') ↦ f a w' ]

abbrev pub ◌>>◌ : {B : Type 0} → M (Unit {0}) → M B → M B
m >> k = m >>= λ _. k

abbrev pub pure : {A : Type 0} → A → M A
pure a w = ok (a, w)

abbrev pub throw : {A : Type 0} → Error → M A
throw e w = err e

-- A step that may throw and touches nothing.
abbrev pub run : {A : Type 0} → Result A → M A
run (ok a) w = ok (a, w)
run (err e) w = err e

abbrev pub with_rand : {A : Type 0} → (Rand → A × Rand) → M A
with_rand f w = let (a, r) = f w.rand in ok (a, record w { rand = r })

-- Rand->Get(n)
abbrev pub get : ℕ → M ℕ
get n = with_rand (below n)

-- Rand->Get(from, to)
abbrev pub get_between : ℕ → ℕ → M ℕ
get_between from to = with_rand (between from to)

-- Rand->RandBool()
abbrev pub get_bool : M Bool
get_bool = with_rand rand_bool

-- A call of Get by a conduit
abbrev pub note_visit : ℕ → ℕ → M (Unit {0})
note_visit index gid w = ok (tt, record w { visited = w.visited ++ ((index, gid) ∷ []) })

-- The calls of Get since this was last asked
abbrev pub take_visits : M (List (ℕ × ℕ))
take_visits w = ok (w.visited, record w { visited = [] })

-- `history` of mutator::Base, where there is one
unfoldable pub add_history : ℕ → Text → Text → M (Unit {0})
add_history gid name desc w = elim w.history [
  | none ↦ ok (tt, w)
  | some h ↦ ok (tt, record w { history = some (History.add gid name desc h) })
]

-- Inversion of a successful chain.
chain-eq-ok :
    {A B : Type 0} (r : Result (A × World)) (f : A → M B) {b : B × World}
    → elim r [ err e ↦ err e | ok (a, w') ↦ f a w' ] ≡ ok b
    → (a : A) × (w' : World) × (r ≡ ok (a, w')) × (f a w' ≡ ok b)
chain-eq-ok (ok (a, w')) f h = (a, w', refl, h)
chain-eq-ok (err e) f h = cc

pub >>=-eq-ok :
    {A B : Type 0} (m : M A) (f : A → M B) (w : World) {b : B × World}
    → (m >>= f) w ≡ ok b
    → (a : A) × (w' : World) × (m w ≡ ok (a, w')) × (f a w' ≡ ok b)
>>=-eq-ok m f w h = chain-eq-ok (m w) f h
