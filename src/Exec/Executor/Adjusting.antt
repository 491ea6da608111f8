-- ===== src/Exec/Executor/Adjusting.antt =====
-- What GetNextChunk does to the input before it hands a chunk out.
use vfuzz.Prelude.{
  Bool, false, List, is_empty, All-get_elem?, ℕ, zero, suc, ◌≤◌, ◌<◌, ◌≡◌, refl, ap, ◌∙◌, inl, inr,
  [], ◌∷◌, ◌++◌, length, ltb, if◌then◌else◌, ok, arith, tests, All, Bool-cases, length-append,
  length-take, ◌⊎◌, lt→ltb,
}
use vfuzz.OrdMap.{insert}
use vfuzz.Codec.Words.{Chunk}
use vfuzz.Util.Rand.{between}
use vfuzz.Util.World.{World, ◌>>=◌, pure}
use vfuzz.Container.Input.{
  Mutator, Input, get_chunk, size, expand_chunk, crop_chunk, mutate_chunk, accept_mutation,
}
use vfuzz.Container.Input.Edit.{get_chunk-set_chunk, expand_chunk-Returns, crop_chunk-take}
use vfuzz.Mutator.Container.{Container}
use vfuzz.Mutator.Container.Choice.{get_random_mutator-Returns}
use vfuzz.Container.Corpus.{Corpus}
use vfuzz.Container.Corpus
use vfuzz.Exec.Conduits.{visit_all}
use vfuzz.Exec.Conduits.Growth.{visit_all-size, visit_all-append}
use vfuzz.Exec.Executor.{Executor, mutate_rounds, mutate_input, adjust}

-- The mutator returns, whatever it is given.
abbrev pub IsTotal : Mutator → Type 0
IsTotal m =
    (gid : ℕ) (c inserted : Chunk) (max_len : ℕ) (w : World)
    → (out : Chunk × Chunk) × (w' : World) × (m.mutate gid c inserted max_len w ≡ ok (out, w'))

-- Mutators to draw from: one at least, and all total.
abbrev pub IsReady : Container → Type 0
IsReady ms = (0 < length ms) × All IsTotal ms

-- The same on every corpus that is not empty.
abbrev pub AreReady : (Corpus → Container) → Type 0
AreReady mutators = (c : Corpus) → 0 < Corpus.size c → IsReady (mutators c)

-- The input has as many chunks at least.
accept_mutation-size :
    (address index max_len : ℕ) (c mutated inserted : Chunk) (i : Input)
    → size i ≤ size (accept_mutation address index max_len c mutated inserted i)
unfolding accept_mutation
accept_mutation-size address index max_len c mutated inserted i =
    let noted = record i {
      mutators = insert address tt i.mutators;
      insertions = if is_empty inserted then i.insertions else i.insertions ++ (inserted ∷ []);
    } in
    ground
      (arith, (get_chunk-set_chunk index 0 c i).2, (get_chunk-set_chunk index 0 mutated noted).2)

pub mutate_chunk-Returns :
    (gid index : ℕ) (m : Mutator) (max_len : ℕ) (i : Input) (w : World)
    → IsTotal m
    → (j : Input) × (w' : World) × (mutate_chunk gid index m max_len i w ≡ ok (j, w'))
      × (size i ≤ size j)
unfolding mutate_chunk
mutate_chunk-Returns gid index m max_len i w total =
    let ((mutated, inserted), w', e) = total gid (get_chunk i index) [] max_len w in
    (
      accept_mutation m.address index max_len (get_chunk i index) mutated inserted i,
      w',
      rw (e, ◌>>=◌) refl,
      accept_mutation-size m.address index max_len (get_chunk i index) mutated inserted i,
    )

mutate_rounds-Returns :
    (ms : Container) (gid index limit n : ℕ) (i : Input) (w : World)
    → IsReady ms
    → (j : Input) × (w' : World) × (mutate_rounds ms gid index limit n i w ≡ ok (j, w'))
      × (size i ≤ size j)
unfolding mutate_rounds
mutate_rounds-Returns ms gid index limit zero i w ready = (i, w, refl, omega arith)
mutate_rounds-Returns ms gid index limit (suc n) i w ready =
    let (k, m, w1, found, drawn) = get_random_mutator-Returns ms w ready.0 in
    let total = All-get_elem? IsTotal ms k m ready.1 found in
    let (i1, w2, mutated, grown) = mutate_chunk-Returns gid index m limit i w1 total in
    let (j, w3, rest, more) = mutate_rounds-Returns ms gid index limit n i1 w2 ready in
    (j, w3, rw (drawn, ◌>>=◌) (rw (mutated, ◌>>=◌) rest), omega arith)

-- What stays of the corpus while the executor works: what the conduits did to it in dynamic mode, and
-- nothing else.
abbrev pub IsVisited : Bool → Corpus → Corpus → Type 0
IsVisited dynamic c d =
    (visits : List (ℕ × ℕ)) × (d ≡ visit_all visits c) × (dynamic ≡ false → visits ≡ [])

pub IsVisited-refl : (dynamic : Bool) (c : Corpus) → IsVisited dynamic c c
unfolding visit_all
IsVisited-refl dynamic c = ([], refl, λ static. refl)

pub IsVisited-trans :
    (dynamic : Bool) (c d e : Corpus)
    → IsVisited dynamic c d
    → IsVisited dynamic d e
    → IsVisited dynamic c e
IsVisited-trans dynamic c d e (us, first, none_first) (vs, second, none_second) = (
  us ++ vs,
  second ∙ ap (visit_all vs) first ∙ visit_all-append us vs c,
  λ static. rw (none_first static, none_second static) refl,
)

pub IsVisited-size :
    (dynamic : Bool) (c d : Corpus) → IsVisited dynamic c d → Corpus.size d ≡ Corpus.size c
IsVisited-size dynamic c d (vs, e, _) = ap Corpus.size e ∙ visit_all-size vs c

-- In static mode nothing changes.
pub IsVisited-static : (c d : Corpus) → IsVisited false c d → d ≡ c
unfolding visit_all
IsVisited-static c d (vs, e, none_then) = e ∙ ap (λ us. visit_all us c) (none_then refl)

-- The mutations in dynamic mode, and nothing else.
mutations-Returns :
    {D : Type 0} (e : Executor D) (gid index hi : ℕ) (i : Input) (w : World)
    → IsReady (e.mutators e.corpus)
    → (j : Input) × (d : Corpus) × (w' : World) × (mutate_input e gid index hi i w
        ≡ ok ((j, d), w'))
      × (size i ≤ size j)
      × IsVisited e.dynamic e.corpus d
unfolding mutate_input visit_all
mutations-Returns e gid index hi i w ready = elim (Bool-cases e.dynamic) [
  | inl dynamic ↦
      let (n, r) = between 0 e.max_mutations w.rand in
      let (j, w', ran, more) =
        mutate_rounds-Returns (e.mutators e.corpus) gid index hi n i (record w { rand = r })
          ready in
      (
        j,
        visit_all w'.visited e.corpus,
        record w' { visited = [] },
        rw (dynamic, ◌>>=◌) (rw (ran, ◌>>=◌) refl),
        more,
        (w'.visited, refl, λ static. absurd cc),
      )
  | inr static ↦ (i, e.corpus, w, rw static refl, omega arith, ([], refl, λ s. refl))
]

-- The step that expands, where there is a minimum.
expansion-Returns :
    (index lo : ℕ) (i : Input) (w : World)
    → (lo ≡ 0) ⊎ (index ≤ size i)
    → (j : Input) × (w' : World) × ((if ltb 0 lo then expand_chunk index lo i else pure i) w
        ≡ ok (j, w'))
      × (lo ≤ length (get_chunk j index))
expansion-Returns index lo i w h = elim (Bool-cases (ltb 0 lo)) [
  | inl positive ↦
      let near : index ≤ size i = elim h [
        | inl none_asked ↦ absurd (ground (arith, none_asked, positive))
        | inr k ↦ k
      ] in
      let (tail, j, w', e, bytes, len) = expand_chunk-Returns index lo i w near in
      (j, w', rw positive e, rw bytes (omega (arith, len, length-append (get_chunk i index) tail)))
  | inr free ↦ (i, w, rw free refl, omega (tests, free))
]

pub adjust-Returns :
    {D : Type 0} (e : Executor D) (gid index lo hi : ℕ) (i : Input) (w : World)
    → IsReady (e.mutators e.corpus)
    → (lo ≡ 0) ⊎ (index ≤ size i)
    → lo ≤ hi
    → 0 < hi
    → (j : Input) × (d : Corpus) × (w' : World) × (adjust e gid index lo hi i w ≡ ok ((j, d), w'))
      × (lo ≤ length (get_chunk j index))
      × (length (get_chunk j index) ≤ hi)
      × IsVisited e.dynamic e.corpus d
unfolding adjust
adjust-Returns e gid index lo hi i w ready near order positive =
    let (i1, d, w1, mutated, grown, visited) = mutations-Returns e gid index hi i w ready in
    let near' : (lo ≡ 0) ⊎ (index ≤ size i1) = elim near [
      | inl e ↦ inl e
      | inr k ↦ inr (omega arith)
    ] in
    let (i2, w2, expanded, long) = expansion-Returns index lo i1 w1 near' in
    let cropped = (crop_chunk-take index hi index i2).0 in
    (
      crop_chunk index hi i2,
      d,
      w2,
      rw (mutated, ◌>>=◌) (rw (expanded, ◌>>=◌) (rw (lt→ltb 0 hi positive) refl)),
      rw cropped (omega (arith, length-take hi (get_chunk i2 index))),
      rw cropped (omega (arith, length-take hi (get_chunk i2 index))),
      visited,
    )
