-- ===== src/Exec/Executor/Outcome.antt =====
-- What a run of the executor leaves: the corpus, and an executor that is ready for the next run.
use vfuzz.Prelude.{
  ℕ, ◌≤◌, ◌<◌, ◌≡◌, refl, ap, ◌∙◌, Bool, true, false, not, ◌&&◌, [], ◌∷◌, ◌++◌, get_elem?, none,
  some, if◌then◌else◌, ok, arith, length-append,
}
use vfuzz.OrdMap.{lookup}
use vfuzz.Util.World.{World, ◌>>=◌}
use vfuzz.Util.Rand.{below}
use vfuzz.Container.InputCluster.{InputCluster, get}
use vfuzz.Container.InputCluster as InputCluster
use vfuzz.Container.Corpus.{Corpus, size, add_input_cluster, get_random_copy}
use vfuzz.Container.Corpus.Laws.{get_random-Returns}
use vfuzz.Exec.Executor.{
  Executor, Driver, Target, run_target, prepare, finish, conclude, run, index_of,
}
use vfuzz.Exec.Executor.Adjusting.{AreReady, IsVisited, IsVisited-size}
use vfuzz.Exec.Executor.Runs.{AsksFor, IsInStep, IsKept, run_target-Returns}

-- Between two runs no chunk is out, no cluster is loaded, and every generator starts at its first
-- chunk.
abbrev pub IsIdle : {D : Type 0} → Executor D → Type 0
IsIdle e = (e.indexes ≡ []) × (e.to_free ≡ []) × (e.current ≡ none)

-- What a run needs: a limit on the length that is not 0, a cluster to start from, and mutators, which
-- return, on every corpus with a cluster.
abbrev pub CanRun : {D : Type 0} → Executor D → Type 0
CanRun e = (0 < e.max_chunk_len) × (0 < size e.corpus) × AreReady e.mutators

pub start-IsInStep :
    {D : Type 0} (e : Executor D) (c : InputCluster) → e.indexes ≡ [] → IsInStep e.max_chunks e c
unfolding lookup
start-IsInStep e c idle gid =
    let first : index_of gid e.indexes ≡ 0 = ap (index_of gid) idle in
    (omega (arith, first), omega (arith, first))

module _ {D : Type 0} (driver : Driver D) where
  conclude-IsIdle :
      (increase : Bool) (e : Executor D) (c : InputCluster)
      → e.current ≡ some c
      → let e' = conclude driver increase e in
        (e'.current ≡ none)
        × (e'.indexes ≡ e.indexes)
        × (e'.to_free ≡ e.to_free)
        × (e'.mutators ≡ e.mutators)
        × (e'.max_chunks ≡ e.max_chunks)
        × (e'.max_chunk_len ≡ e.max_chunk_len)
        × (e'.corpus
            ≡ (if not e.do_discard && increase then add_input_cluster c e.corpus else e.corpus))
        × (e'.reported ≡ (
            if not e.do_discard && increase && e.has_on_new
            then e.reported ++ (c ∷ [])
            else e.reported))
  unfolding conclude
  conclude-IsIdle increase e c loaded = ground (arith, loaded)

  -- The executor that Run starts the target with.
  abbrev pub loaded_with : InputCluster → Executor D → Executor D
  loaded_with c e = record (prepare driver (record e { dynamic = true })) { current = some c }

  abbrev pub sees_new : Executor D → Bool
  sees_new e = not e.do_discard && (driver.stop_record e.sensors).0

  run-steps :
      (t : Target D) (e e1 : Executor D) (c : InputCluster) (w w1 w2 : World)
      → get_random_copy e.corpus w ≡ ok (c, w1)
      → run_target t (loaded_with c e) w1 ≡ ok (e1, w2)
      → run driver t e w ≡ ok (conclude driver (finish driver e1).0 (finish driver e1).1, w2)
  unfolding run prepare
  run-steps t e e1 c w w1 w2 drawn ran = rw (drawn, ◌>>=◌) (rw (ran, ◌>>=◌) refl)

  pub grown-size :
      (b : Bool) (c : InputCluster) (corpus : Corpus)
      → size corpus ≤ size (if b then add_input_cluster c corpus else corpus)
  unfolding add_input_cluster
  grown-size true c corpus = omega (arith, length-append corpus.corpus (c ∷ []))
  grown-size false c corpus = omega arith

  -- The end of Run, from where the target stopped.
  conclude-finish :
      (e e1 : Executor D) (c : InputCluster)
      → CanRun e
      → IsKept (record e { dynamic = true }) e1
      → e1.current ≡ some c
      → let e' = conclude driver (finish driver e1).0 (finish driver e1).1 in
        (e'.corpus ≡ (if sees_new e1 then add_input_cluster c e1.corpus else e1.corpus))
        × (e'.reported
            ≡ (if sees_new e1 && e.has_on_new then e.reported ++ (c ∷ []) else e.reported))
        × IsIdle e'
        × CanRun e'
        × (e'.max_chunks ≡ e.max_chunks)
  unfolding finish
  conclude-finish e e1 c can kept held =
      let (visited, same_reported, same_on_new, same_mutators, same_chunks, same_len) = kept in
      let (increase, e2) = finish driver e1 in
      let e' = conclude driver increase e2 in
      let (none_left, indexes, to_free, mutators, chunks, len, corpus, reported) =
        conclude-IsIdle increase e2 c held in
      let same = IsVisited-size true e.corpus e1.corpus visited in
      let more : size e1.corpus ≤ size e'.corpus =
        rw corpus (grown-size (sees_new e1) c e1.corpus) in
      (
        corpus,
        ground (arith, reported, same_reported, same_on_new),
        (indexes, to_free, none_left),
        (
          ground (arith, len, same_len, can.0),
          omega (arith, can.1, same, more),
          rw (mutators, same_mutators) can.2,
        ),
        chunks ∙ same_chunks,
      )

  -- On an executor between two runs that has what a run needs, for a target that asks for no more
  -- chunks than the limit, each with a minimum that is not 0: Run returns. Its target is served to its
  -- end from a copy of one of the corpus's clusters, while the corpus stays as it was but for the
  -- fresh inputs that the conduits give it; the cluster as the target left it is added to the corpus,
  -- behind the others, and reported where onNew is set, if and only if the target did not discard it
  -- and the sensors saw something new; and the executor is again between two runs and has what a run
  -- needs.
  pub run-Returns :
      (t : Target D) (e : Executor D) (w : World)
      → CanRun e
      → e.indexes ≡ []
      → AsksFor e.max_chunks t
      → (i : ℕ) × (ic : InputCluster) × (e1 : Executor D) × (c : InputCluster) × (e' : Executor D)
        × (w1 w' : World) × (get_elem? e.corpus.corpus i ≡ some ic)
        × (run_target t (loaded_with (InputCluster.copy ic) e) w1 ≡ ok (e1, w'))
        × (e1.current ≡ some c)
        × IsVisited true e.corpus e1.corpus
        × (run driver t e w ≡ ok (e', w'))
        × (e'.corpus ≡ (if sees_new e1 then add_input_cluster c e1.corpus else e1.corpus))
        × (e'.reported
            ≡ (if sees_new e1 && e.has_on_new then e.reported ++ (c ∷ []) else e.reported))
        × IsIdle e'
        × CanRun e'
        × (e'.max_chunks ≡ e.max_chunks)
  unfolding prepare finish
  run-Returns t e w can idle asks =
      let (i, r) = below (size e.corpus) w.rand in
      let w1 = record w { rand = r } in
      let (ic, found, _, drawn) = get_random-Returns e.corpus w can.1 in
      let start = InputCluster.copy ic in
      let (c, e1, w', ran, held, kept) =
        run_target-Returns t e.max_chunks start (loaded_with start e) w1 refl can.0 can.1 can.2
          (start-IsInStep (loaded_with start e) start idle) asks in
      let (corpus, reported, at_rest, again, chunks) = conclude-finish e e1 c can kept held in
      (
        i,
        ic,
        e1,
        c,
        conclude driver (finish driver e1).0 (finish driver e1).1,
        w1,
        w',
        found,
        ran,
        held,
        kept.0,
        run-steps t e e1 start w w1 w' drawn ran,
        corpus,
        reported,
        at_rest,
        again,
        chunks,
      )
