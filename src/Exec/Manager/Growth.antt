-- ===== src/Exec/Manager/Growth.antt =====
-- A corpus that only grows: clusters at its end, and inputs in its clusters.
use vfuzz.Prelude.{
  ℕ, zero, suc, ◌+◌, ◌≤◌, ◌≡◌, ap, ◌∙◌, Bool, true, false, List, [], ◌∷◌, ◌++◌, get_elem?, some,
  if◌then◌else◌, arith, length-append,
}
use vfuzz.Container.InputCluster.{InputCluster}
use vfuzz.Container.Corpus.{Corpus, size, add_input_cluster}
use vfuzz.Exec.Conduits.Growth.{
  HoldsAll, HoldsAll-refl, HoldsAll-trans, visit_all-HoldsAll, visit_all-size,
}
use vfuzz.Exec.Executor.Adjusting.{IsVisited}

-- The second corpus holds the clusters of the first in their places, with the inputs that they had,
-- and `n` clusters more at most.
abbrev pub IsGrown : ℕ → Corpus → Corpus → Type 0
IsGrown n c d = (size c ≤ size d) × (size d ≤ size c + n) × HoldsAll c d

pub IsGrown-refl : (n : ℕ) (c : Corpus) → IsGrown n c c
IsGrown-refl n c = (omega arith, omega arith, HoldsAll-refl c)

pub IsGrown-trans : (m n : ℕ) (c d e : Corpus) → IsGrown m c d → IsGrown n d e → IsGrown (m + n) c e
IsGrown-trans m n c d e (more, few, held) (more', few', held') =
    (omega arith, omega arith, HoldsAll-trans c d e held held')

get_elem?-append :
    (cs : List InputCluster) (c : InputCluster) (k : ℕ) (x : InputCluster)
    → get_elem? cs k ≡ some x
    → get_elem? (cs ++ (c ∷ [])) k ≡ some x
get_elem?-append [] c k x h = absurd cc
get_elem?-append (y ∷ cs) c zero x h = h
get_elem?-append (y ∷ cs) c (suc k) x h = get_elem?-append cs c k x h

add-HoldsAll : (ic : InputCluster) (c : Corpus) → HoldsAll c (add_input_cluster ic c)
unfolding add_input_cluster
add-HoldsAll ic c k jc h = (jc, get_elem?-append c.corpus ic k jc h, λ gid i e. e)

-- What a run leaves: what the conduits made of the corpus, and a cluster more at most.
pub add-IsGrown :
    (dynamic b : Bool) (ic : InputCluster) (c d e : Corpus)
    → IsVisited dynamic c d
    → e ≡ (if b then add_input_cluster ic d else d)
    → IsGrown 1 c e
unfolding add_input_cluster
add-IsGrown dynamic true ic c d e (visits, made, _) added =
    let longer : size e ≡ size d + 1 = ap size added ∙ length-append d.corpus (ic ∷ []) in
    let same : size d ≡ size c = ap size made ∙ visit_all-size visits c in
    (
      omega arith,
      omega arith,
      rw added (
          HoldsAll-trans c d (add_input_cluster ic d) (rw made (visit_all-HoldsAll visits c))
            (add-HoldsAll ic d)),
    )
add-IsGrown dynamic false ic c d e (visits, made, _) added =
    let same : size e ≡ size c = ap size added ∙ ap size made ∙ visit_all-size visits c in
    (omega arith, omega arith, rw (added, made) (visit_all-HoldsAll visits c))

-- A run that adds a cluster at most, before `n` more of them.
pub IsGrown-step : (n : ℕ) (c d e : Corpus) → IsGrown 1 c d → IsGrown n d e → IsGrown (suc n) c e
IsGrown-step n c d e h k =
    let (more, few, held) = IsGrown-trans 1 n c d e h k in (more, omega arith, held)
