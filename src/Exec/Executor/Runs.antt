-- ===== src/Exec/Executor/Runs.antt =====
-- The target at work: which requests are always met, and what a run leaves as it was.
use vfuzz.Prelude.{
  ℕ, zero, suc, ◌+◌, ◌≤◌, ◌<◌, ◌≡◌, refl, true, false, inl, inr, some, ◌==◌, if◌then◌else◌, ok,
  arith, Bool-cases, Option-cases,
}
use vfuzz.OrdMap.{OrdMap, lookup, assign}
use vfuzz.OrdMap.Laws.{lookup-assign, lookup-insert_new}
use vfuzz.Codec.Words.{Chunk}
use vfuzz.Util.World.{World, ◌>>=◌}
use vfuzz.Container.Input.{Input, size, get_chunk, fresh}
use vfuzz.Container.Input.Edit.{chunk_inside}
use vfuzz.Container.InputCluster.{InputCluster, get, update}
use vfuzz.Exec.Executor.{
  Executor, Target, done, request, discard, keep, observe, index_of, advance, run_target,
}
use vfuzz.Exec.Executor.Adjusting.{
  AreReady, IsVisited, IsVisited-refl, IsVisited-trans, IsVisited-size,
}
use vfuzz.Container.Corpus
use vfuzz.Exec.Executor.Chunks.{get_next_chunk-Returns, limits-min}

-- The target asks for a chunk `n` times at most, each time with a minimum that is not 0.
abbrev pub AsksFor : {D : Type 0} → ℕ → Target D → Type 0
AsksFor n done = Unit {0}
AsksFor zero (request gid lo hi next) = ⊥
AsksFor (suc n) (request gid lo hi next) = (0 < lo) × ((c : Chunk) → AsksFor n (next c))
AsksFor n (discard t) = AsksFor n t
AsksFor n (keep t) = AsksFor n t
AsksFor n (observe f t) = AsksFor n t

-- No generator has a chunk missing before its next one, and each may ask for `n` chunks more.
abbrev pub IsInStep : {D : Type 0} → ℕ → Executor D → InputCluster → Type 0
IsInStep n e c =
    (gid : ℕ)
    → (index_of gid e.indexes + n ≤ e.max_chunks) × (index_of gid e.indexes ≤ size (get gid c).0)

-- What a target cannot change: what was reported of the corpus, the mutators and the limits, and the
-- corpus but for the fresh inputs that the conduits give it in dynamic mode.
abbrev pub IsKept : {D : Type 0} → Executor D → Executor D → Type 0
IsKept e e' =
    IsVisited e.dynamic e.corpus e'.corpus
    × (e'.reported ≡ e.reported)
    × (e'.has_on_new ≡ e.has_on_new)
    × (e'.mutators ≡ e.mutators)
    × (e'.max_chunks ≡ e.max_chunks)
    × (e'.max_chunk_len ≡ e.max_chunk_len)

index_of-assign :
    (g gid v : ℕ) (m : OrdMap ℕ)
    → index_of g (assign gid v m) ≡ (if g == gid then v else index_of g m)
index_of-assign g gid v m = ground (arith, lookup-assign gid g v m)

get-update :
    (g gid : ℕ) (i : Input) (c : InputCluster)
    → (get g (update gid i (get gid c).1)).0 ≡ (if g == gid then i else (get g c).0)
unfolding get update
get-update g gid i c = elim (Option-cases (lookup gid c.cluster)) [
  | inl missing ↦ ground (
    arith,
    missing,
    lookup-assign gid g i (get gid c).1.cluster,
    lookup-insert_new gid g fresh c.cluster missing,
  )
  | inr (old, found) ↦ ground (arith, found, lookup-assign gid g i c.cluster)
]

advance-IsInStep :
    {D : Type 0} (n gid : ℕ) (chunk : Chunk) (j : Input) (e : Executor D) (c : InputCluster)
    → IsInStep (suc n) e c
    → index_of gid e.indexes < size j
    → let c' = update gid j (get gid c).1 in IsInStep n (advance gid chunk c' e) c'
advance-IsInStep n gid chunk j e c h more g =
    let (room, near) = h g in
    let counted = index_of-assign g gid (index_of gid e.indexes + 1) e.indexes in
    let held = get-update g gid j c in
    elim (Bool-cases (g == gid)) [
      | inl same ↦
          let e : g ≡ gid = ground (arith, same) in
          rw (counted, held, same) (rw (← e) (omega arith), omega arith)
      | inr other ↦ rw (counted, held, other) (omega arith, near)
    ]

-- While a cluster is loaded, the corpus is not empty, the limit on a chunk's length is not 0, there
-- are on every such corpus mutators to draw from, which all return, and the chunks already handed out are where they belong: a target that
-- asks for as many chunks as are left or fewer, each with a minimum that is not 0, is served to its end,
-- and what was reported, the mutators and the limits are as before. So is the corpus, but for the
-- fresh inputs that conduits give its clusters, in dynamic mode only.
pub run_target-Returns :
    {D : Type 0} (t : Target D) (n : ℕ) (c : InputCluster) (e : Executor D) (w : World)
    → e.current ≡ some c
    → 0 < e.max_chunk_len
    → 0 < Corpus.size e.corpus
    → AreReady e.mutators
    → IsInStep n e c
    → AsksFor n t
    → (c' : InputCluster) × (e' : Executor D) × (w' : World) × (run_target t e w ≡ ok (e', w'))
      × (e'.current ≡ some c')
      × IsKept e e'
unfolding run_target
run_target-Returns done n c e w loaded positive some_cluster ready steps asks =
    (c, e, w, refl, loaded, (IsVisited-refl e.dynamic e.corpus, refl, refl, refl, refl, refl))
run_target-Returns (request gid lo hi next) zero c e w loaded positive some_cluster ready steps
      asks =
    absurd asks
run_target-Returns (request gid lo hi next) (suc n) c e w loaded positive some_cluster ready steps
      asks =
    let index = index_of gid e.indexes in
    let (room, near) = steps gid in
    let (j, d1, w1, served, long, _, visited) =
      get_next_chunk-Returns gid lo hi c e w loaded positive (ready e.corpus some_cluster)
        (omega arith) (inr near) in
    let (_, _, _, some_min, _) = limits-min e.max_chunk_len lo hi positive in
    let inside : index < size j = chunk_inside j index (omega (arith, some_min asks.0)) in
    let chunk = get_chunk j index in
    let d = update gid j (get gid c).1 in
    let e1 = record e { corpus = d1 } in
    let same = IsVisited-size e.dynamic e.corpus d1 visited in
    let (c', e', w', rest, held, kept) =
      run_target-Returns (next chunk) n d (advance gid chunk d e1) w1 refl positive
        (omega (arith, same, some_cluster)) ready (advance-IsInStep n gid chunk j e1 c steps inside)
        (asks.1 chunk) in
    (
      c',
      e',
      w',
      rw (served, ◌>>=◌) rest,
      held,
      (
        IsVisited-trans e.dynamic e.corpus d1 e'.corpus visited kept.0,
        kept.1,
        kept.2,
        kept.3,
        kept.4,
        kept.5,
      ),
    )
run_target-Returns (discard t) n c e w loaded positive some_cluster ready steps asks =
    run_target-Returns t n c (record e { do_discard = true }) w loaded positive some_cluster ready
      steps asks
run_target-Returns (keep t) n c e w loaded positive some_cluster ready steps asks =
    run_target-Returns t n c (record e { do_discard = false }) w loaded positive some_cluster ready
      steps asks
run_target-Returns (observe f t) n c e w loaded positive some_cluster ready steps asks =
    run_target-Returns t n c (record e { sensors = f e.sensors }) w loaded positive some_cluster
      ready steps asks
