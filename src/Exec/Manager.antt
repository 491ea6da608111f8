-- ===== src/Exec/Manager.antt =====
-- ExecManager::Run of libvfuzz-runtime/src/exec/execmanager.h and execmanager.cpp. The corpus that
-- the runs add to is the executor's. The logger is left out.
pub mod Growth
pub mod Rounds
use vfuzz.Prelude.{
  ℕ, zero, suc, ◌+◌, Bool, true, false, not, Option, none, some, set, ltb, Result, ok, err,
  runtime_error, ◌==◌, if◌then◌else◌,
}
use vfuzz.Util.World.{World, M, ◌>>=◌, pure, throw, run}
use vfuzz.Util.History
use vfuzz.Container.InputCluster.{InputCluster}
use vfuzz.Container.Corpus.{Corpus, get_cluster, size}
use vfuzz.Exec.Executor.{Executor, Driver, Target, run_input_cluster}
use vfuzz.Exec.Executor as Executor

-- `corpus_disk` is corpusManagerExec's corpus, whose clusters are held by pointer.
pub record ExecManager (D : Type 0) : Type 0 where
  pub executor : Executor D
  pub corpus_disk : Corpus
  pub run_static : Bool
  pub run_dynamic : Bool
  pub num_runs : ℕ
  pub is_initialized : Bool

-- What a run changes of the cluster behind the pointer that Get(i) gave.
abbrev pub write_back : ℕ → InputCluster → Corpus → Corpus
write_back i ic c = record c { corpus = set c.corpus i ic }

-- `mutatorHistory.Clear()`
unfoldable pub clear_history : World → World
clear_history w = elim w.history [
  | none ↦ w
  | some h ↦ record w { history = some (History.clear h) }
]

-- `numRuns ? curRuns < numRuns : true`
abbrev pub goes_on : ℕ → ℕ → Bool
goes_on num_runs cur_runs = if num_runs == 0 then true else ltb cur_runs num_runs

module _ {D : Type 0} (driver : Driver D) where
  -- The static loop, with `left` clusters to go from `i` on. The n-th call of VFuzzRun is
  -- `target n`.
  unfoldable pub run_disk : (ℕ → Target D) → ℕ → ℕ → Corpus → Executor D → M (Corpus × Executor D)
  run_disk target zero i disk e = pure (disk, e)
  run_disk target (suc left) i disk e = do
    ic ← run (get_cluster disk i)
    (_, ic', e) ← run_input_cluster driver (target i) ic e
    run_disk target left (i + 1) (write_back i ic' disk) e

  -- The dynamic loop at curRuns, on fuel: `none` where the loop is not at its end when the fuel is.
  -- The round is VFuzzRun's `call`-th call.
  unfoldable pub run_rounds : (ℕ → Target D) → ℕ → ℕ → ℕ → ℕ → Executor D → M (Option (Executor D))
  run_rounds target zero num_runs cur_runs call e w =
      if goes_on num_runs cur_runs then pure none w else pure (some e) w
  run_rounds target (suc fuel) num_runs cur_runs call e w =
      if not (goes_on num_runs cur_runs)
      then pure (some e) w
      else (do
        e ← Executor.run driver (target call) e
        run_rounds target fuel num_runs (cur_runs + 1) (call + 1) e)
          (clear_history w)

  -- The manager at the end of Run
  abbrev pub at_end : ExecManager D → Corpus → Option (Executor D) → Option (ExecManager D)
  at_end m disk ended = elim ended [
    | none ↦ none
    | some e ↦ some (record m { executor = e; corpus_disk = disk })
  ]

  -- The loops of Run, the dynamic one on fuel
  unfoldable pub run_loops : (ℕ → Target D) → ℕ → ExecManager D → M (Option (ExecManager D))
  run_loops target fuel m = do
    let loaded = if m.run_static then size m.corpus_disk else 0
    (disk, e) ← run_disk target loaded 0 m.corpus_disk m.executor
    ended ← if m.run_dynamic then run_rounds target fuel m.num_runs 0 loaded e else pure (some e)
    pure (at_end m disk ended)

  -- Run
  unfoldable pub run_manager : (ℕ → Target D) → ℕ → ExecManager D → M (Option (ExecManager D))
  unfolding run_loops
  run_manager target fuel m =
      if not m.is_initialized then throw runtime_error else run_loops target fuel m
