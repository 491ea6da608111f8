-- ===== src/Exec/Executor/Static.antt =====
-- What a run on a given cluster leaves.
use vfuzz.Prelude.{
  ◌≡◌, refl, ap, Bool, true, false, [], none, some, if◌then◌else◌, Result, ok, arith,
}
use vfuzz.Util.World.{World, ◌>>=◌}
use vfuzz.Container.InputCluster.{InputCluster}
use vfuzz.Container.InputCluster as InputCluster
use vfuzz.Container.Corpus.{size, add_input_cluster}
use vfuzz.Exec.Executor.{Executor, Driver, Target, run_target, prepare, finish, run_input_cluster}
use vfuzz.Exec.Executor.Adjusting.{IsVisited-static}
use vfuzz.Exec.Executor.Runs.{AsksFor, IsKept, run_target-Returns}
use vfuzz.Exec.Executor.Outcome.{CanRun, sees_new, start-IsInStep, grown-size}

module _ {D : Type 0} (driver : Driver D) where
  -- The executor that RunInputCluster starts the target with.
  abbrev pub loaded_statically : InputCluster → Executor D → Executor D
  loaded_statically ic e = prepare driver (record e { dynamic = false; current = some ic })

  static-steps :
      (t : Target D) (ic c : InputCluster) (e e1 : Executor D) (w w1 : World)
      → run_target t (loaded_statically ic e) w ≡ ok (e1, w1)
      → e1.current ≡ some c
      → let (increase, e2) = finish driver e1 in
        run_input_cluster driver t ic e w
        ≡ ok (
          (
            increase,
            c,
            if sees_new driver e1
                then record e2 { corpus = add_input_cluster (InputCluster.copy c) e1.corpus }
                else e2,
          ),
          w1,
        )
  unfolding run_input_cluster prepare finish
  static-steps t ic c e e1 w w1 ran held =
      let out : InputCluster → Result ((Bool × InputCluster × Executor D) × World) = λ d. ok (
        (
          (finish driver e1).0,
          d,
          if sees_new driver e1
              then record (finish driver e1).1 {
                corpus = add_input_cluster (InputCluster.copy d) e1.corpus;
              }
              else (finish driver e1).1,
        ),
        w1,
      ) in
      rw (ran, ◌>>=◌) (ap (λ o. out (elim o [ none ↦ ic | some d ↦ d ])) held)

  -- The executor at the end of RunInputCluster, which has `ic` to add.
  abbrev at_end : Bool → InputCluster → Executor D → Executor D
  at_end b ic e1 =
      let e2 = (finish driver e1).1 in
      if b then record e2 { corpus = add_input_cluster ic e1.corpus } else e2

  at_end-CanRun :
      (b : Bool) (ic : InputCluster) (e e1 : Executor D)
      → CanRun e
      → IsKept (record e { dynamic = false }) e1
      → let e' = at_end b ic e1 in
        (e'.corpus ≡ (if b then add_input_cluster ic e.corpus else e.corpus))
        × (e'.indexes ≡ [])
        × CanRun e'
        × (e'.max_chunks ≡ e.max_chunks)
  unfolding finish
  at_end-CanRun true ic e e1 can (visited, _, _, mutators, chunks, len) =
      let corpus = IsVisited-static e.corpus e1.corpus visited in
      (
        ap (add_input_cluster ic) corpus,
        refl,
        (
          rw len can.0,
          omega (arith, can.1, grown-size driver true ic e1.corpus, ap size corpus),
          rw mutators can.2,
        ),
        chunks,
      )
  at_end-CanRun false ic e e1 can (visited, _, _, mutators, chunks, len) =
      let corpus = IsVisited-static e.corpus e1.corpus visited in
      (corpus, refl, (rw len can.0, rw corpus can.1, rw mutators can.2), chunks)

  -- On an executor that has what a run needs and hands out every generator's first chunk next, for
  -- a target that asks for no more chunks than the limit, each with a minimum that is not 0:
  -- RunInputCluster returns whether the sensors saw something new. Its target is served to its end
  -- from the given cluster; a copy of the cluster as the target left it is added to the corpus if
  -- and only if the target did not discard it and the sensors saw something new.
  pub run_input_cluster-Returns :
      (t : Target D) (ic : InputCluster) (e : Executor D) (w : World)
      → CanRun e
      → e.indexes ≡ []
      → AsksFor e.max_chunks t
      → (e1 : Executor D) × (c : InputCluster) × (e' : Executor D) × (w' : World) × (run_target t
            (loaded_statically ic e)
            w
          ≡ ok (e1, w'))
        × (e1.current ≡ some c)
        × (run_input_cluster driver t ic e w ≡ ok (((driver.stop_record e1.sensors).0, c, e'), w'))
        × (e'.corpus ≡ (
            if sees_new driver e1
            then add_input_cluster (InputCluster.copy c) e.corpus
            else e.corpus))
        × (e'.indexes ≡ [])
        × CanRun e'
        × (e'.max_chunks ≡ e.max_chunks)
  unfolding prepare finish
  run_input_cluster-Returns t ic e w can idle asks =
      let (c, e1, w', ran, held, kept) =
        run_target-Returns t e.max_chunks ic (loaded_statically ic e) w refl can.0 can.1 can.2
          (start-IsInStep (loaded_statically ic e) ic idle) asks in
      let kept_corpus = InputCluster.copy c in
      let b = sees_new driver e1 in
      let (corpus, indexes, again, chunks) = at_end-CanRun b kept_corpus e e1 can kept in
      (
        e1,
        c,
        at_end b kept_corpus e1,
        w',
        ran,
        held,
        static-steps t ic c e e1 w w' ran held,
        corpus,
        indexes,
        again,
        chunks,
      )
