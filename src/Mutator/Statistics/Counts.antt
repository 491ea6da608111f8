-- ===== src/Mutator/Statistics/Counts.antt =====
-- SortMutators counts exactly, and sorts.
use vfuzz.Prelude.{
  All-imp, ℕ, suc, ◌+◌, ◌<◌, ◌≤◌, ◌≡◌, refl, ap, false, List, [], ◌∷◌, length, map, none, some,
  ◌==◌, All, if◌then◌else◌, arith,
}
use vfuzz.OrdMap.{OrdMap, lookup, assign, contains}
use vfuzz.OrdMap.Laws.{IsSortedFrom, IsSorted, lookup-assign, assign-IsSortedFrom}
use vfuzz.Container.Input.{Input}
use vfuzz.Mutator.Statistics.{insert_desc, count_all, count_mutators, by_count, sort_mutators}

-- The count of a mutator in a table, and the number of inputs that it was applied to.
abbrev pub count_of : ℕ → OrdMap ℕ → ℕ
count_of a counts = elim (lookup a counts) [ none ↦ 0 | some n ↦ n ]

unfoldable pub uses : ℕ → List Input → ℕ
uses a [] = 0
uses a (i ∷ is) = (if contains a i.mutators then 1 else 0) + uses a is

contains_below_key :
    (b k : ℕ) (m : OrdMap (Unit {0})) → k < b → IsSortedFrom b m → contains k m ≡ false
unfolding contains
contains_below_key b k [] h s = refl
contains_below_key b k ((j, w) ∷ m) h s = ground (arith, contains_below_key (suc j) k m)

count_of-assign :
    (a k n : ℕ) (counts : OrdMap ℕ)
    → count_of a (assign k n counts) ≡ (if a == k then n else count_of a counts)
count_of-assign a k n counts = ground (arith, lookup-assign k a n counts)

count_of-count_all :
    (a b : ℕ) (ms : OrdMap (Unit {0})) (counts : OrdMap ℕ)
    → IsSortedFrom b ms
    → count_of a (count_all ms counts) ≡ (if contains a ms then 1 else 0) + count_of a counts
unfolding count_all contains
count_of-count_all a b [] counts s = omega arith
count_of-count_all a b ((k, u) ∷ ms) counts s =
    let counts' = assign k (count_of k counts + 1) counts in
    ground (
      arith,
      count_of-count_all a (suc k) ms counts' s.1,
      count_of-assign a k (count_of k counts + 1) counts,
      contains_below_key (suc k) k ms,
    )

count_of-count_mutators :
    (a : ℕ) (inputs : List Input) (counts : OrdMap ℕ)
    → All (λ i. IsSorted i.mutators) inputs
    → count_of a (count_mutators inputs counts) ≡ uses a inputs + count_of a counts
unfolding count_mutators uses
count_of-count_mutators a [] counts s = omega arith
count_of-count_mutators a (i ∷ is) counts s =
    let first = count_of-count_all a 0 i.mutators counts s.0 in
    let rest = count_of-count_mutators a is (count_all i.mutators counts) s.1 in omega arith

count_all-IsSorted :
    (ms : OrdMap (Unit {0})) (counts : OrdMap ℕ) → IsSorted counts → IsSorted (count_all ms counts)
unfolding count_all
count_all-IsSorted [] counts s = s
count_all-IsSorted ((k, u) ∷ ms) counts s =
    count_all-IsSorted ms _ (assign-IsSortedFrom 0 k _ counts (omega arith) s)

count_mutators-IsSorted :
    (inputs : List Input) (counts : OrdMap ℕ)
    → IsSorted counts
    → IsSorted (count_mutators inputs counts)
unfolding count_mutators
count_mutators-IsSorted [] counts s = s
count_mutators-IsSorted (i ∷ is) counts s =
    count_mutators-IsSorted is _ (count_all-IsSorted i.mutators counts s)

-- The counts fall from one entry to the next, all below a bound.
abbrev pub IsFalling {ℓ} : {A : Type ℓ} → ℕ → List (A × ℕ) → Type 0
IsFalling bound [] = Unit {0}
IsFalling bound ((a, n) ∷ sorted) = (n < bound) × IsFalling n sorted

module _ {A : Type 0} where
  swap : List (ℕ × A) → List (A × ℕ)
  swap = map (λ (n, a). (a, n))

  insert_desc-IsFalling :
      (bound n : ℕ) (a : A) (m : List (ℕ × A))
      → n < bound
      → IsFalling bound (swap m)
      → IsFalling bound (swap (insert_desc n a m))
  unfolding insert_desc swap
  insert_desc-IsFalling bound n a [] h s = (h, tt)
  insert_desc-IsFalling bound n a ((j, b) ∷ m) h s = ground (arith, insert_desc-IsFalling j n a m)

  by_count-IsFalling :
      (bound : ℕ) (counts : List (A × ℕ)) (sorted : List (ℕ × A))
      → All (λ e. e.1 < bound) counts
      → IsFalling bound (swap sorted)
      → IsFalling bound (swap (by_count counts sorted))
  unfolding by_count
  by_count-IsFalling bound [] sorted h s = s
  by_count-IsFalling bound ((a, n) ∷ counts) sorted h s =
      by_count-IsFalling bound counts _ h.1 (insert_desc-IsFalling bound n a sorted h.0 s)

  insert_desc-All :
      (P : A × ℕ → Type 0) (n : ℕ) (a : A) (m : List (ℕ × A))
      → P (a, n)
      → All P (swap m)
      → All P (swap (insert_desc n a m))
  unfolding insert_desc swap
  insert_desc-All P n a [] h s = (h, tt)
  insert_desc-All P n a ((j, b) ∷ m) h s = ground (arith, insert_desc-All P n a m)

  by_count-All :
      (P : A × ℕ → Type 0) (counts : List (A × ℕ)) (sorted : List (ℕ × A))
      → All P counts
      → All P (swap sorted)
      → All P (swap (by_count counts sorted))
  unfolding by_count
  by_count-All P [] sorted h s = s
  by_count-All P ((a, n) ∷ counts) sorted h s =
      by_count-All P counts _ h.1 (insert_desc-All P n a sorted h.0 s)

-- An entry of a table in order: its key is not below the bound, and is found.
abbrev IsEntry : ℕ → OrdMap ℕ → ℕ × ℕ → Type 0
IsEntry b m e = (b ≤ e.0) × (lookup e.0 m ≡ some e.1)

entries-IsEntry : (b : ℕ) (m : OrdMap ℕ) → IsSortedFrom b m → All (IsEntry b m) m
unfolding lookup
entries-IsEntry b [] s = tt
entries-IsEntry b ((k, n) ∷ m) s = (
  (s.0, ground arith),
  All-imp (IsEntry (suc k) m) (IsEntry b ((k, n) ∷ m)) m (λ e h. ground arith)
      (entries-IsEntry (suc k) m s.1),
)

uses_bound : (a : ℕ) (inputs : List Input) → uses a inputs ≤ length inputs
unfolding uses
uses_bound a [] = omega arith
uses_bound a (i ∷ is) = ground (arith, uses_bound a is)

exact_entry :
    (inputs : List Input)
    → All (λ i. IsSorted i.mutators) inputs
    → (e : ℕ × ℕ) → lookup e.0 (count_mutators inputs []) ≡ some e.1
    → e.1 ≡ uses e.0 inputs
unfolding lookup
exact_entry inputs sets e h =
    let total = count_of-count_mutators e.0 inputs [] sets in
    let here : count_of e.0 (count_mutators inputs []) ≡ e.1 =
      ap (λ o. elim o [ none ↦ 0 | some n ↦ n ]) h in
    omega arith

-- On inputs that are sets of mutators, the entries of SortMutators have strictly falling counts,
-- and the count of an entry is the number of inputs that its mutator was applied to.
pub sort_mutators-IsFalling :
    (inputs : List Input)
    → All (λ i. IsSorted i.mutators) inputs
    → IsFalling (suc (length inputs)) (sort_mutators inputs).0
      × All (λ e. e.1 ≡ uses e.0 inputs) (sort_mutators inputs).0
unfolding sort_mutators swap
sort_mutators-IsFalling inputs sets =
    let counts = count_mutators inputs [] in
    let sorted = count_mutators-IsSorted inputs [] tt in
    let exact : All (λ e. e.1 ≡ uses e.0 inputs) counts =
      All-imp (IsEntry 0 counts) (λ e. e.1 ≡ uses e.0 inputs) counts
        (λ e h. exact_entry inputs sets e h.1) (entries-IsEntry 0 counts sorted) in
    let small : All (λ e. e.1 < suc (length inputs)) counts =
      All-imp (λ e. e.1 ≡ uses e.0 inputs) (λ e. e.1 < suc (length inputs)) counts
        (λ e h. omega (arith, uses_bound e.0 inputs)) exact in
    (by_count-IsFalling _ counts [] small tt, by_count-All _ counts [] exact tt)
