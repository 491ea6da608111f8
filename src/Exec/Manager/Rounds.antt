-- ===== src/Exec/Manager/Rounds.antt =====
-- The loops of ExecManager::Run.
use vfuzz.Prelude.{
  ℕ, zero, suc, ◌+◌, ◌≤◌, ◌<◌, ◌≡◌, refl, sym, ap, ◌∙◌, Bool, true, false, not, [], Option, none,
  some, if◌then◌else◌, ok, err, runtime_error, arith, length-set, get_elem?_inside,
}
use mathlib.Core.Path.{subst}
use vfuzz.Util.World.{World, ◌>>=◌, run, pure, throw}
use vfuzz.Container.InputCluster.{InputCluster}
use vfuzz.Container.InputCluster as InputCluster
use vfuzz.Container.Corpus.{Corpus, size, get_cluster}
use vfuzz.Container.Corpus.Laws.{get_cluster-lookup}
use vfuzz.Exec.Executor.{Executor, Driver, Target}
use vfuzz.Exec.Executor
use vfuzz.Exec.Executor.Adjusting.{IsVisited-refl}
use vfuzz.Exec.Executor.Runs.{AsksFor}
use vfuzz.Exec.Executor.Outcome.{CanRun, run-Returns, sees_new}
use vfuzz.Exec.Executor.Static.{run_input_cluster-Returns}
use vfuzz.Exec.Manager.{
  ExecManager, goes_on, at_end, write_back, clear_history, run_disk, run_rounds, run_loops,
  run_manager,
}
use vfuzz.Exec.Manager.Growth.{IsGrown, IsGrown-refl, IsGrown-trans, IsGrown-step, add-IsGrown}

-- Between two runs, and with what a run needs.
abbrev pub IsResting : {D : Type 0} → Executor D → Type 0
IsResting e = CanRun e × (e.indexes ≡ [])

-- Every call of the target stays within the limit on the number of chunks, with minima that are
-- not 0.
abbrev pub StaysWithin : {D : Type 0} → ℕ → (ℕ → Target D) → Type 0
StaysWithin n target = (call : ℕ) → AsksFor n (target call)

cluster_inside : (c : Corpus) (i : ℕ) → i < size c → (ic : InputCluster) × (get_cluster c i ≡ ok ic)
cluster_inside c i h =
    let (ic, found) = get_elem?_inside c.corpus i h in (ic, rw (get_cluster-lookup c i, found) refl)

goes_on-before : (num cur : ℕ) → cur < num → goes_on num cur ≡ true
goes_on-before num cur h = ground arith

goes_on-end : (num cur : ℕ) → 0 < num → num ≤ cur → goes_on num cur ≡ false
goes_on-end num cur positive h = ground arith

module _ {D : Type 0} (driver : Driver D) where
  -- One round of the dynamic loop.
  round-Returns :
      (target : ℕ → Target D) (call : ℕ) (e : Executor D) (w : World)
      → IsResting e
      → StaysWithin e.max_chunks target
      → (e' : Executor D) × (w' : World) × (Executor.run driver (target call) e (clear_history w)
          ≡ ok (e', w'))
        × IsResting e'
        × StaysWithin e'.max_chunks target
        × IsGrown 1 e.corpus e'.corpus
  round-Returns target call e w rest within =
      let (_, _, e1, c, e', _, w', _, _, _, visited, ran, corpus, _, idle, can, chunks) =
        run-Returns driver (target call) e (clear_history w) rest.0 rest.1 (within call) in
      (
        e',
        w',
        ran,
        (can, idle.0),
        λ k. subst (λ m. AsksFor m (target k)) (sym chunks) (within k),
        add-IsGrown true (sees_new driver e1) c e.corpus e1.corpus e'.corpus visited corpus,
      )

  pub run_rounds-Returns :
      (target : ℕ → Target D) (fuel left num cur call : ℕ) (e : Executor D) (w : World)
      → 0 < num
      → cur + left ≡ num
      → left ≤ fuel
      → IsResting e
      → StaysWithin e.max_chunks target
      → (e' : Executor D) × (w' : World) × (run_rounds driver target fuel num cur call e w
          ≡ ok (some e', w'))
        × IsResting e'
        × IsGrown left e.corpus e'.corpus
  unfolding run_rounds
  run_rounds-Returns target zero zero num cur call e w positive sum enough rest within =
      (e, w, rw (goes_on-end num cur positive (omega arith)) refl, rest, IsGrown-refl 0 e.corpus)
  run_rounds-Returns target zero (suc left) num cur call e w positive sum enough rest within =
      absurd (omega arith)
  run_rounds-Returns target (suc fuel) zero num cur call e w positive sum enough rest within =
      (e, w, rw (goes_on-end num cur positive (omega arith)) refl, rest, IsGrown-refl 0 e.corpus)
  run_rounds-Returns target (suc fuel) (suc left) num cur call e w positive sum enough rest within =
      let (e', w', ran, rest', within', grown) = round-Returns target call e w rest within in
      let (e2, w2, more, rest2, grown2) =
        run_rounds-Returns target fuel left num (cur + 1) (call + 1) e' w' positive (omega arith)
          (omega arith) rest' within' in
      (
        e2,
        w2,
        rw (goes_on-before num cur (omega arith)) (rw (ran, ◌>>=◌) more),
        rest2,
        IsGrown-step left e.corpus e'.corpus e2.corpus grown grown2,
      )

  -- With NumRuns 0 the loop is never at its end.
  run_rounds-endless :
      (target : ℕ → Target D) (fuel cur call : ℕ) (e : Executor D) (w : World)
      → IsResting e
      → StaysWithin e.max_chunks target
      → (w' : World) × (run_rounds driver target fuel 0 cur call e w ≡ ok (none, w'))
  unfolding run_rounds
  run_rounds-endless target zero cur call e w rest within = (w, refl)
  run_rounds-endless target (suc fuel) cur call e w rest within =
      let (e', w', ran, rest', within', _) = round-Returns target call e w rest within in
      let (w2, more) = run_rounds-endless target fuel (cur + 1) (call + 1) e' w' rest' within' in
      (w2, rw (ran, ◌>>=◌) more)

  pub run_disk-Returns :
      (target : ℕ → Target D) (n i : ℕ) (disk : Corpus) (e : Executor D) (w : World)
      → i + n ≤ size disk
      → IsResting e
      → StaysWithin e.max_chunks target
      → (disk' : Corpus) × (e' : Executor D) × (w' : World) × (run_disk driver target n i disk e w
          ≡ ok ((disk', e'), w'))
        × (size disk' ≡ size disk)
        × IsResting e'
        × IsGrown n e.corpus e'.corpus
        × (e'.max_chunks ≡ e.max_chunks)
  unfolding run_disk
  run_disk-Returns target zero i disk e w room rest within =
      (disk, e, w, refl, refl, rest, IsGrown-refl 0 e.corpus, refl)
  run_disk-Returns target (suc n) i disk e w room rest within =
      let (ic, got) = cluster_inside disk i (omega arith) in
      let (e1, c, e', w', _, _, ran, corpus, idle, can, chunks) =
        run_input_cluster-Returns driver (target i) ic e w rest.0 rest.1 (within i) in
      let within' : StaysWithin e'.max_chunks target =
        λ k. subst (λ m. AsksFor m (target k)) (sym chunks) (within k) in
      let written = write_back i c disk in
      let same : size written ≡ size disk = length-set disk.corpus i c in
      let (disk2, e2, w2, more, kept, rest2, grown, chunks2) =
        run_disk-Returns target n (i + 1) written e' w' (omega arith) (can, idle) within' in
      (
        disk2,
        e2,
        w2,
        rw (got, run, ◌>>=◌) (rw (ran, ◌>>=◌) more),
        kept ∙ same,
        rest2,
        IsGrown-step n e.corpus e'.corpus e2.corpus
            (add-IsGrown false (sees_new driver e1) (InputCluster.copy c) e.corpus e.corpus
              e'.corpus (IsVisited-refl false e.corpus) corpus)
            grown,
        chunks2 ∙ chunks,
      )

-- The rounds that Run takes through each of its loops.
abbrev pub disk_rounds : {D : Type 0} → ExecManager D → ℕ
disk_rounds m = if m.run_static then size m.corpus_disk else 0

abbrev pub dynamic_rounds : {D : Type 0} → ExecManager D → ℕ
dynamic_rounds m = if m.run_dynamic then m.num_runs else 0

module _ {D : Type 0} (driver : Driver D) where
  dynamic-Returns :
      (b : Bool) (target : ℕ → Target D) (fuel num call : ℕ) (e : Executor D) (w : World)
      → (b ≡ true → 0 < num)
      → num ≤ fuel
      → IsResting e
      → StaysWithin e.max_chunks target
      → (e' : Executor D) × (w' : World) × ((if b
              then run_rounds driver target fuel num 0 call e
              else pure (some e))
            w
          ≡ ok (some e', w'))
        × IsResting e'
        × IsGrown (if b then num else 0) e.corpus e'.corpus
  dynamic-Returns true target fuel num call e w finite enough rest within =
      run_rounds-Returns driver target fuel num num 0 call e w (finite refl) (omega arith) enough
        rest within
  dynamic-Returns false target fuel num call e w finite enough rest within =
      (e, w, refl, rest, IsGrown-refl 0 e.corpus)

  endless-steps :
      (b : Bool) (target : ℕ → Target D) (fuel num call : ℕ) (e : Executor D) (w : World)
      → b ≡ true
      → num ≡ 0
      → (if b then run_rounds driver target fuel num 0 call e else pure (some e)) w
        ≡ run_rounds driver target fuel 0 0 call e w
  endless-steps b target fuel num call e w dynamic endless = rw (dynamic, endless) refl

  disk-fits : (m : ExecManager D) → 0 + disk_rounds m ≤ size m.corpus_disk
  disk-fits m = ground arith

  loops-steps :
      (target : ℕ → Target D) (fuel : ℕ) (m : ExecManager D) (disk : Corpus) (e : Executor D)
      (ended : Option (Executor D)) (w w1 w' : World)
      → run_disk driver target (disk_rounds m) 0 m.corpus_disk m.executor w ≡ ok ((disk, e), w1)
      → (if m.run_dynamic
            then run_rounds driver target fuel m.num_runs 0 (disk_rounds m) e
            else pure (some e))
          w1
        ≡ ok (ended, w')
      → run_loops driver target fuel m w ≡ ok (at_end driver m disk ended, w')
  unfolding run_loops
  loops-steps target fuel m disk e ended w w1 w' ran more = rw (ran, ◌>>=◌) (rw (more, ◌>>=◌) refl)

  initialized-loops :
      (target : ℕ → Target D) (fuel : ℕ) (m : ExecManager D)
      → m.is_initialized ≡ true
      → run_manager driver target fuel m ≡ run_loops driver target fuel m
  unfolding run_manager
  initialized-loops target fuel m ready =
      ap (λ b. if not b then throw runtime_error else run_loops driver target fuel m) ready

  -- An ExecManager that is initialized, with an executor between two runs that has what a run
  -- needs, a NumRuns that is not 0 if the dynamic mode is on, and a target whose every call asks for
  -- no more chunks than the limit, each with a minimum that is not 0: Run returns, with NumRuns as
  -- fuel or more. The corpus keeps its clusters in their places, with the inputs that they had, and
  -- gains as many clusters at most as there are rounds: one for each cluster from disk where the
  -- mode is static, and NumRuns where it is dynamic. The clusters from disk stay as many as they
  -- were, and the executor is again between two runs and has what a run needs.
  pub run_manager-Returns :
      (target : ℕ → Target D) (fuel : ℕ) (m : ExecManager D) (w : World)
      → m.is_initialized ≡ true
      → (m.run_dynamic ≡ true → 0 < m.num_runs)
      → m.num_runs ≤ fuel
      → IsResting m.executor
      → StaysWithin m.executor.max_chunks target
      → (m' : ExecManager D) × (w' : World) × (run_manager driver target fuel m w
          ≡ ok (some m', w'))
        × IsResting m'.executor
        × (size m'.corpus_disk ≡ size m.corpus_disk)
        × IsGrown (disk_rounds m + dynamic_rounds m) m.executor.corpus m'.executor.corpus
  run_manager-Returns target fuel m w ready finite enough rest within =
      let loaded = disk_rounds m in
      let (disk, e, w1, ran, same, rest1, grown1, chunks) =
        run_disk-Returns driver target loaded 0 m.corpus_disk m.executor w (disk-fits m) rest
          within in
      let within1 : StaysWithin e.max_chunks target =
        λ k. subst (λ n. AsksFor n (target k)) (sym chunks) (within k) in
      let (e', w', more, rest2, grown2) =
        dynamic-Returns m.run_dynamic target fuel m.num_runs loaded e w1 finite enough rest1
          within1 in
      (
        record m { executor = e'; corpus_disk = disk },
        w',
        ap (λ f. f w) (initialized-loops target fuel m ready)
            ∙ loops-steps target fuel m disk e (some e') w w1 w' ran more,
        rest2,
        same,
        IsGrown-trans loaded (dynamic_rounds m) m.executor.corpus e.corpus e'.corpus grown1 grown2,
      )

  -- Where the dynamic mode is on, NumRuns is 0, and all else is as for a Run that returns, Run goes on
  -- for ever: after any number of rounds, none of which throws, the loop is not at its end.
  run_manager_goes_on :
      (target : ℕ → Target D) (fuel : ℕ) (m : ExecManager D) (w : World)
      → m.is_initialized ≡ true
      → m.run_dynamic ≡ true
      → m.num_runs ≡ 0
      → IsResting m.executor
      → StaysWithin m.executor.max_chunks target
      → (w' : World) × (run_manager driver target fuel m w ≡ ok (none, w'))
  run_manager_goes_on target fuel m w ready dynamic endless rest within =
      let loaded = disk_rounds m in
      let (disk, e, w1, ran, _, rest1, _, chunks) =
        run_disk-Returns driver target loaded 0 m.corpus_disk m.executor w (disk-fits m) rest
          within in
      let within1 : StaysWithin e.max_chunks target =
        λ k. subst (λ n. AsksFor n (target k)) (sym chunks) (within k) in
      let (w', more) = run_rounds-endless driver target fuel 0 loaded e w1 rest1 within1 in
      (
        w',
        ap (λ f. f w) (initialized-loops target fuel m ready)
            ∙ loops-steps target fuel m disk e none w w1 w' ran (
                endless-steps m.run_dynamic target fuel m.num_runs loaded e w1 dynamic endless
                ∙ more),
      )

  -- Before initialization Run throws, whatever there is to run.
  run_manager-throws :
      (target : ℕ → Target D) (fuel : ℕ) (m : ExecManager D) (w : World)
      → m.is_initialized ≡ false
      → run_manager driver target fuel m w ≡ err runtime_error
  unfolding run_manager
  run_manager-throws target fuel m w early = rw early refl
