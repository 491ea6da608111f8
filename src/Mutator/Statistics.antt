-- ===== src/Mutator/Statistics.antt =====
-- libvfuzz-core/src/mutator/util.cpp: how often the mutators and the insertions of some inputs were
-- used, and a choice of a mutator by weight. The inputs are different objects.
pub mod Counts
pub mod Weights
use vfuzz.Prelude.{
  nth, ℕ, zero, suc, ◌+◌, ◌-◌, ◌%◌, ◌^◌, Bool, true, false, List, [], ◌∷◌, ◌++◌, length, get_elem?,
  drop, map, Option, none, some, ltb, leb, ◌==◌, if◌then◌else◌, Result, ok, err, fault,
}
use vfuzz.OrdMap.{OrdMap, lookup, assign}
use vfuzz.Codec.Words.{Chunk}
use vfuzz.Util.World.{World, M, ◌>>=◌, throw, run, get}
use vfuzz.Container.Input.{Input, clear_mutators, clear_insertions}
use vfuzz.Dictionary.{chunk_less, insert_chunk}

-- `insert` into a std::map ordered by std::greater, which keeps an entry that is there
unfoldable pub insert_desc {ℓ} : {A : Type ℓ} → ℕ → A → List (ℕ × A) → List (ℕ × A)
insert_desc k v [] = (k, v) ∷ []
insert_desc k v ((j, w) ∷ m) =
    if ltb j k
    then (k, v) ∷ (j, w) ∷ m
    else if k == j
    then (j, w) ∷ m
    else (j, w) ∷ insert_desc k v m

-- `mutatorCount[M]++` for each mutator of a set
unfoldable pub count_all : OrdMap (Unit {0}) → OrdMap ℕ → OrdMap ℕ
count_all [] counts = counts
count_all ((a, u) ∷ ms) counts =
    count_all ms (assign a ((elim (lookup a counts) [ none ↦ 0 | some n ↦ n ]) + 1) counts)

unfoldable pub count_mutators : List Input → OrdMap ℕ → OrdMap ℕ
count_mutators [] counts = counts
count_mutators (i ∷ is) counts = count_mutators is (count_all i.mutators counts)

unfoldable pub by_count {ℓ} : {A : Type ℓ} → List (A × ℕ) → List (ℕ × A) → List (ℕ × A)
by_count [] sorted = sorted
by_count ((a, n) ∷ counts) sorted = by_count counts (insert_desc n a sorted)

-- SortMutators, which gives the addresses with their counts, and the inputs without their mutators
unfoldable pub sort_mutators : List Input → List (ℕ × ℕ) × List Input
sort_mutators inputs =
    (map (λ (n, a). (a, n)) (by_count (count_mutators inputs []) []), map clear_mutators inputs)

unfoldable pub weight_sum {ℓ} : {A : Type ℓ} → List (A × ℕ) → ℕ
weight_sum [] = 0
weight_sum ((a, n) ∷ counts) = n + weight_sum counts

-- `mutatorCount[i].second`, with 0 past the end, where it is not read
unfoldable pub weight_at {ℓ} : {A : Type ℓ} → List (A × ℕ) → ℕ → ℕ
weight_at [] i = 0
weight_at ((a, n) ∷ counts) zero = n
weight_at ((a, n) ∷ counts) (suc i) = weight_at counts i

-- `while ( it != begin() && it->second == prev ) it--`
unfoldable pub back {ℓ} : {A : Type ℓ} → List (A × ℕ) → ℕ → ℕ → ℕ
back counts prev zero = zero
back counts prev (suc i) =
    let before = back counts prev i in if weight_at counts (suc i) == prev then before else suc i

-- The mutators of the weight `prev` up to the first of another weight.
unfoldable pub run_of {ℓ} : {A : Type ℓ} → ℕ → List (A × ℕ) → List A
run_of prev [] = []
run_of prev ((a, n) ∷ counts) = if n == prev then a ∷ run_of prev counts else []

-- The vector that a hit at the index `i` fills: the mutator there, and then all of its run.
unfoldable pub eligible {ℓ} : {A : Type ℓ} → List (A × ℕ) → A → ℕ → ℕ → List A
eligible counts a prev i =
    let j = back counts prev i in
    let start = if weight_at counts j == prev then j else j + 1 in
    a ∷ run_of prev (drop start counts)

-- The outer loop, at the index `i`. Where it ends, the code calls abort().
unfoldable pub pick {ℓ} : {A : Type ℓ} → List (A × ℕ) → ℕ → ℕ → List (A × ℕ) → Result (List A)
pick counts num i [] = err fault
pick counts num i ((a, n) ∷ rest) =
    let later = pick counts (num - n) (i + 1) rest in
    if leb num n then ok (eligible counts a n i) else later

-- RandMutatorByWeight. The sum wraps at 64 bits.
unfoldable pub rand_mutator_by_weight : {A : Type 0} → List (A × ℕ) → M A
rand_mutator_by_weight counts = do
  num ← get ((weight_sum counts + 1) % 2 ^ 64)
  chosen ← run (pick counts num 0 counts)
  index ← get (length chosen)
  run (nth chosen index)

-- `insertionFrequency[c]++`, in the order of the chunks
unfoldable pub count_chunk : Chunk → List (Chunk × ℕ) → List (Chunk × ℕ)
count_chunk c [] = (c, 1) ∷ []
count_chunk c ((d, n) ∷ m) =
    let rest = count_chunk c m in
    if chunk_less c d
    then (c, 1) ∷ (d, n) ∷ m
    else if chunk_less d c
    then (d, n) ∷ rest
    else (d, n + 1) ∷ m

unfoldable pub count_insertions : List Input → List (Chunk × ℕ) → List (Chunk × ℕ)
count_insertions [] counts = counts
count_insertions (i ∷ is) counts = count_insertions is (go i.insertions counts)
  where
    go : List Chunk → List (Chunk × ℕ) → List (Chunk × ℕ)
    go [] counts = counts
    go (c ∷ cs) counts = go cs (count_chunk c counts)

unfoldable pub chunk_set : List (ℕ × Chunk) → List Chunk → List Chunk
chunk_set [] s = s
chunk_set ((n, c) ∷ sorted) s = chunk_set sorted (insert_chunk c s)

-- GetTopInsertions, which does not read its second argument, and the inputs without insertions
unfoldable pub get_top_insertions : List Input → List Chunk × List Input
get_top_insertions inputs =
    (chunk_set (by_count (count_insertions inputs []) []) [], map clear_insertions inputs)
