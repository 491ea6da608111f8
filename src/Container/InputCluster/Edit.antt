-- ===== src/Container/InputCluster/Edit.antt =====
-- The operations of InputCluster that look inputs up and change them.
use vfuzz.Prelude.{
  ℕ, suc, ◌≤◌, ◌<◌, ◌≡◌, ◌≢◌, refl, ◌∙◌, true, not, ◌&&◌, inl, inr, none, some, [], ◌∷◌, min, ◌==◌,
  if◌then◌else◌, ok, arith, Option-cases, ==_refl,
}
use vfuzz.OrdMap.{OrdMap, lookup, insert}
use vfuzz.OrdMap.Laws.{
  IsSorted, IsSortedFrom, lookup-assign, lookup-insert_new, lookup-insert_old, contains-lookup,
  contains-lookup-none, lookup_below,
}
use vfuzz.Util.World.{World, >>=-eq-ok}
use vfuzz.Container.Input.{Input, Mutator, fresh, size}
use vfuzz.Container.Input
use vfuzz.Container.Input.Mutation.{mutate_random-size}
use vfuzz.Container.InputCluster.{
  InputCluster, copy, copy_inputs, get_unsafe, have_gid, get, update, mutate_random, set_input,
}

-- Get gives the input of the generator, a fresh one where there was none; the cluster then has
-- that input, a second Get changes nothing, and any other generator has what it had.
get-lookup :
    (gid other : ℕ) (c : InputCluster)
    → other ≢ gid
    → let (i, d) = get gid c in
      (i ≡ (elim (lookup gid c.cluster) [ none ↦ fresh | some i ↦ i ]))
      × (get_unsafe gid d ≡ ok i)
      × (have_gid gid d ≡ true)
      × (get gid d ≡ (i, d))
      × (lookup other d.cluster ≡ lookup other c.cluster)
unfolding get get_unsafe have_gid
get-lookup gid other c ne = elim (Option-cases (lookup gid c.cluster)) [
  | inl missing ↦
      let new = lookup-insert_new gid gid fresh c.cluster missing in
      ground (
        arith,
        missing,
        new,
        lookup-insert_new gid other fresh c.cluster missing,
        contains-lookup gid (insert gid fresh c.cluster) fresh,
      )
  | inr (i, found) ↦ ground (arith, found, contains-lookup gid c.cluster i)
]

-- On a map in order, Set gives its generator the input where it had none and keeps the one that
-- it had, and every other generator has what it had.
set_input-lookup :
    (gid other : ℕ) (i : Input) (c : InputCluster)
    → IsSorted c.cluster
    → lookup other (set_input gid i c).cluster
      ≡ (if other == gid && not (have_gid gid c) then some i else lookup other c.cluster)
unfolding set_input have_gid
set_input-lookup gid other i c sorted = elim (Option-cases (lookup gid c.cluster)) [
  | inl missing ↦ ground (
    arith,
    lookup-insert_new gid other i c.cluster missing,
    contains-lookup-none gid c.cluster missing,
  )
  | inr (old, found) ↦ ground (
    arith,
    lookup-insert_old 0 gid other i old c.cluster sorted found,
    contains-lookup gid c.cluster old found,
  )
]

copy_inputs-lookup :
    (gid : ℕ) (done m : OrdMap Input) (b : ℕ)
    → IsSortedFrom b m
    → ((k : ℕ) → b ≤ k → lookup k done ≡ none)
    → lookup gid (copy_inputs done m)
      ≡ (elim (lookup gid m) [ none ↦ lookup gid done | some i ↦ some (Input.copy i) ])
unfolding copy_inputs lookup
copy_inputs-lookup gid done [] b s h = refl
copy_inputs-lookup gid done ((k, i) ∷ m) b s h =
    let free = h k s.0 in
    let later : (q : ℕ) → suc k ≤ q → lookup q (insert k (Input.copy i) done) ≡ none =
      λ q hq. ground (arith, h q, lookup-insert_new k q (Input.copy i) done free) in
    ground (
      arith,
      copy_inputs-lookup gid (insert k (Input.copy i) done) m (suc k) s.1 later,
      lookup-insert_new k gid (Input.copy i) done free,
      lookup_below (suc k) k m,
    )

-- The copy of a cluster whose map is in order has for each generator the copy of its input, and
-- the same limits.
copy-lookup :
    (gid : ℕ) (c : InputCluster)
    → IsSorted c.cluster
    → (lookup gid (copy c).cluster
        ≡ (elim (lookup gid c.cluster) [ none ↦ none | some i ↦ some (Input.copy i) ]))
      × ((copy c).max_chunks ≡ c.max_chunks)
      × ((copy c).max_chunk_len ≡ c.max_chunk_len)
unfolding copy lookup
copy-lookup gid c sorted = (copy_inputs-lookup gid [] c.cluster 0 sorted (λ k h. refl), refl, refl)

get-max_chunks : (gid : ℕ) (c : InputCluster) → (get gid c).1.max_chunks ≡ c.max_chunks
unfolding get
get-max_chunks gid c = ground arith

-- Where the maxima are not 0, the input of the generator keeps to the smaller of them and
-- MutateRandom returns, that input has a chunk at least and as many as that maximum at most, and
-- the input of any other generator is as it was.
pub mutate_random-lookup :
    (gid other : ℕ) (m : Mutator) (max_chunks : ℕ) (c d : InputCluster) (w w' : World)
    → other ≢ gid
    → 0 < max_chunks
    → 0 < c.max_chunks
    → size (get gid c).0 ≤ min max_chunks c.max_chunks
    → mutate_random gid m max_chunks c w ≡ ok (d, w')
    → ((i : Input) × (lookup gid d.cluster ≡ some i)
        × (0 < size i)
        × (size i ≤ min max_chunks c.max_chunks))
      × (lookup other d.cluster ≡ lookup other c.cluster)
unfolding mutate_random update
mutate_random-lookup gid other m max_chunks c d w w' ne h k fits r =
    let i = (get gid c).0 in
    let c' = (get gid c).1 in
    let bound = min max_chunks c'.max_chunks in
    let same : c'.max_chunks ≡ c.max_chunks = get-max_chunks gid c in
    let (i', w1, mutated, rest) =
      >>=-eq-ok (Input.mutate_random gid m bound c'.max_chunk_len i) _ w r in
    let (_, some_chunk, few) =
      mutate_random-size gid m bound c'.max_chunk_len i i' w w1 (omega arith) (omega arith)
        mutated in
    let updated : update gid i' c' ≡ d = ground (arith, rest) in
    let own = lookup-assign gid gid i' c'.cluster in
    let others = lookup-assign gid other i' c'.cluster in
    rw (← updated) (
      (i', own ∙ rw (==_refl gid), some_chunk, omega arith),
      ground (arith, others, (get-lookup gid other c ne).4),
    )
