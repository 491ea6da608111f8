-- ===== src/Exec/Conduits/Growth.antt =====
-- What the conduits leave of a corpus: its clusters, each with the inputs that it had.
use vfuzz.Prelude.{
  ℕ, zero, suc, ◌++◌, ◌≡◌, refl, ◌∙◌, List, [], ◌∷◌, get_elem?, some, set, arith, Option-cases,
  length-set, ◌==◌, if◌then◌else◌, Bool-cases, inl, inr,
}
use vfuzz.OrdMap.{lookup}
use vfuzz.OrdMap.Laws.{lookup-insert_new}
use vfuzz.Container.Input.{Input, fresh}
use vfuzz.Container.InputCluster.{InputCluster}
use vfuzz.Container.InputCluster as InputCluster
use vfuzz.Container.Corpus.{Corpus, size}
use vfuzz.Exec.Conduits.{visit, visit_all}

-- The second cluster has the inputs of the first, and may have more.
abbrev pub HasInputs : InputCluster → InputCluster → Type 0
HasInputs c d =
    (gid : ℕ) (i : Input) → lookup gid c.cluster ≡ some i → lookup gid d.cluster ≡ some i

-- The clusters of the first corpus are in their places in the second, with the inputs they had.
abbrev pub HoldsAll : Corpus → Corpus → Type 0
HoldsAll c d =
    (k : ℕ) (ic : InputCluster)
    → get_elem? c.corpus k ≡ some ic
    → (jc : InputCluster) × (get_elem? d.corpus k ≡ some jc) × HasInputs ic jc

pub HoldsAll-refl : (c : Corpus) → HoldsAll c c
HoldsAll-refl c k ic h = (ic, h, λ gid i e. e)

pub HoldsAll-trans : (c d e : Corpus) → HoldsAll c d → HoldsAll d e → HoldsAll c e
HoldsAll-trans c d e f g k ic h =
    let (jc, at, has) = f k ic h in
    let (kc, at', has') = g k jc at in (kc, at', λ gid i q. has' gid i (has gid i q))

get-HasInputs : (gid : ℕ) (c : InputCluster) → HasInputs c (InputCluster.get gid c).1
unfolding InputCluster.get
get-HasInputs gid c other i h = elim (Option-cases (lookup gid c.cluster)) [
  | inl missing ↦ ground (arith, missing, h, lookup-insert_new gid other fresh c.cluster missing)
  | inr (old, found) ↦ ground (arith, found, h)
]

get_elem?-set :
    (cs : List InputCluster) (i k : ℕ) (old new : InputCluster)
    → get_elem? cs i ≡ some old
    → get_elem? (set cs i new) k ≡ (if k == i then some new else get_elem? cs k)
get_elem?-set [] i k old new h = absurd cc
get_elem?-set (c ∷ cs) zero zero old new h = refl
get_elem?-set (c ∷ cs) zero (suc k) old new h = ground arith
get_elem?-set (c ∷ cs) (suc i) zero old new h = ground arith
get_elem?-set (c ∷ cs) (suc i) (suc k) old new h = ground (arith, get_elem?-set cs i k old new h)

visit-size : (v : ℕ × ℕ) (c : Corpus) → size (visit v c) ≡ size c
unfolding visit
visit-size (index, gid) c = elim (Option-cases (get_elem? c.corpus index)) [
  | inl past ↦ rw (visit, past) refl
  | inr (ic, at) ↦ rw (visit, at) (length-set c.corpus index (InputCluster.get gid ic).1)
]

visit-HoldsAll : (v : ℕ × ℕ) (c : Corpus) → HoldsAll c (visit v c)
unfolding visit
visit-HoldsAll (index, gid) c k ic h = elim (Option-cases (get_elem? c.corpus index)) [
  | inl past ↦ rw (visit, past) (ic, h, λ g i e. e)
  | inr (old, at) ↦
      let new = (InputCluster.get gid old).1 in
      let there = get_elem?-set c.corpus index k old new at in
      elim (Bool-cases (k == index)) [
        | inl same ↦
            let e : k ≡ index = ground (arith, same) in
            let own : old ≡ ic = cc in
            rw (visit, at) (new, there ∙ rw same refl, rw (← own) (get-HasInputs gid old))
        | inr other ↦ rw (visit, at) (ic, there ∙ rw other h, λ g i e. e)
      ]
]

pub visit_all-size : (vs : List (ℕ × ℕ)) (c : Corpus) → size (visit_all vs c) ≡ size c
unfolding visit_all
visit_all-size [] c = refl
visit_all-size (v ∷ vs) c = visit_all-size vs (visit v c) ∙ visit-size v c

-- Whatever the conduits ask for, the corpus holds all that it held.
pub visit_all-HoldsAll : (vs : List (ℕ × ℕ)) (c : Corpus) → HoldsAll c (visit_all vs c)
unfolding visit_all
visit_all-HoldsAll [] c = HoldsAll-refl c
visit_all-HoldsAll (v ∷ vs) c =
    HoldsAll-trans c (visit v c) (visit_all vs (visit v c)) (visit-HoldsAll v c)
      (visit_all-HoldsAll vs (visit v c))

pub visit_all-append :
    (us vs : List (ℕ × ℕ)) (c : Corpus) → visit_all vs (visit_all us c) ≡ visit_all (us ++ vs) c
unfolding visit_all
visit_all-append [] vs c = refl
visit_all-append (u ∷ us) vs c = visit_all-append us vs (visit u c)
