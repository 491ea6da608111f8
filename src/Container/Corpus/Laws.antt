-- ===== src/Container/Corpus/Laws.antt =====
-- The operations of Corpus that choose and add clusters.
use vfuzz.Prelude.{
  ℕ, zero, suc, ◌+◌, ◌<◌, ◌≤◌, ◌≡◌, refl, none, some, List, [], ◌∷◌, ◌++◌, length, get_elem?, ok,
  err, exception, arith, leb, leb→le, leb→lt, Bool-cases, inl, inr, if◌then◌else◌, length-append,
}
use vfuzz.Util.Rand.{below, below_lt}
use vfuzz.Util.World.{World}
use vfuzz.Container.InputCluster.{InputCluster}
use vfuzz.Container.InputCluster
use vfuzz.Container.Corpus.{
  Corpus, at, get_random_ptr, get_random_copy, get_cluster, size, add_input_cluster,
}

get_elem?_inside :
    (cs : List InputCluster) (i : ℕ)
    → i < length cs
    → (c : InputCluster) × (get_elem? cs i ≡ some c)
get_elem?_inside [] i h = elim h [ ]
get_elem?_inside (c ∷ cs) zero h = (c, refl)
get_elem?_inside (c ∷ cs) (suc i) h = get_elem?_inside cs i (omega arith)

get_elem?_past : (cs : List InputCluster) (i : ℕ) → length cs ≤ i → get_elem? cs i ≡ none
get_elem?_past [] i h = refl
get_elem?_past (c ∷ cs) zero h = absurd (omega arith)
get_elem?_past (c ∷ cs) (suc i) h = get_elem?_past cs i (omega arith)

get_elem?_end :
    (cs : List InputCluster) (c : InputCluster) → get_elem? (cs ++ (c ∷ [])) (length cs) ≡ some c
get_elem?_end [] c = refl
get_elem?_end (x ∷ cs) c = get_elem?_end cs c

get_elem?_before :
    (cs : List InputCluster) (c : InputCluster) (i : ℕ)
    → i < length cs
    → get_elem? (cs ++ (c ∷ [])) i ≡ get_elem? cs i
get_elem?_before [] c i h = elim h [ ]
get_elem?_before (x ∷ cs) c zero h = refl
get_elem?_before (x ∷ cs) c (suc i) h = get_elem?_before cs c i (omega arith)

-- From a corpus with a cluster, GetRandomPtr gives one of its clusters, the one at the index that
-- is drawn, and GetRandomCopy gives the copy of the same cluster; neither throws.
pub get_random-Returns :
    (c : Corpus) (w : World)
    → 0 < size c
    → let (i, r) = below (size c) w.rand in
      (ic : InputCluster) × (get_elem? c.corpus i ≡ some ic)
      × (get_random_ptr c w ≡ ok (ic, record w { rand = r }))
      × (get_random_copy c w ≡ ok (InputCluster.copy ic, record w { rand = r }))
unfolding get_random_ptr get_random_copy
get_random-Returns c w h =
    let i = (below (size c) w.rand).0 in
    let (ic, e) = get_elem?_inside c.corpus i (below_lt (size c) w.rand h) in
    (ic, e, ground (arith, e), ground (arith, e))

-- Get throws exactly past the end, and never faults.
pub get_cluster-lookup :
    (c : Corpus) (index : ℕ)
    → get_cluster c index
      ≡ (elim (get_elem? c.corpus index) [ none ↦ err exception | some ic ↦ ok ic ])
unfolding get_cluster
get_cluster-lookup c index = elim (Bool-cases (leb (length c.corpus) index)) [
  | inl past ↦ rw (past, get_elem?_past c.corpus index (leb→le _ _ past))
  | inr before ↦
      let (ic, e) = get_elem?_inside c.corpus index (leb→lt _ _ before) in rw before (rw (e, at))
]

-- A cluster that is added is the last of the corpus, a cluster before it keeps its place, the
-- size grows by one, and the callback, where one is set, is called once, with the cluster.
add_input_cluster-get :
    (ic : InputCluster) (c : Corpus) (index : ℕ)
    → index < size c
    → (get_cluster (add_input_cluster ic c) (size c) ≡ ok ic)
      × (get_cluster (add_input_cluster ic c) index ≡ get_cluster c index)
      × (size (add_input_cluster ic c) ≡ size c + 1)
      × ((add_input_cluster ic c).notified
          ≡ (if c.has_on_new then c.notified ++ (ic ∷ []) else c.notified))
unfolding add_input_cluster get_cluster
add_input_cluster-get ic c index h =
    let cs = c.corpus ++ (ic ∷ []) in
    let longer = length-append c.corpus (ic ∷ []) in
    (
      ground (arith, get_elem?_end c.corpus ic, longer),
      ground (arith, get_elem?_before c.corpus ic index h, longer),
      longer,
      refl,
    )
