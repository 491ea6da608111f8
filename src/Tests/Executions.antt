-- ===== src/Tests/Executions.antt =====
-- An executor with one mutator, a corpus of one cluster, and a target that asks for two chunks.
use vfuzz.Prelude.{
  ℕ, suc, ◌+◌, ◌≤◌, ◌<◌, ◌≡◌, refl, true, false, ◌&&◌, [], ◌∷◌, ◌++◌, length, get_elem?, none, some,
  ok, err, fault, ltb, if◌then◌else◌, arith, inl, inr, Bool-cases,
}
use vfuzz.OrdMap.{lookup}
use vfuzz.Codec.Words.{Chunk}
use vfuzz.Util.World.{World}
use vfuzz.Container.Input.{Input, Mutator, get_chunk, size}
use vfuzz.Container.InputCluster.{InputCluster, empty, get, update}
use vfuzz.Container.InputCluster as InputCluster
use vfuzz.Container.Corpus.{Corpus, add_input_cluster}
use vfuzz.Container.Corpus as Corpus
use vfuzz.Exec.Executor.{
  adjust, Executor, Driver, Target, done, request, discard, observe, limits, index_of, advance,
  get_next_chunk, run_target, run, run_input_cluster,
}
use vfuzz.Exec.Executor.Adjusting.{IsTotal, IsReady, IsVisited}
use vfuzz.Datasource
use vfuzz.Datasource.Requests.{get-Returns}
use vfuzz.Exec.Executor.Chunks.{get_next_chunk-Returns}
use vfuzz.Exec.Executor.Runs.{AsksFor, IsInStep, IsKept, run_target-Returns}
use vfuzz.Exec.Executor.Gaps.{get_next_chunk_aborts}
use vfuzz.Exec.Executor.Outcome.{CanRun, IsIdle, loaded_with, sees_new, run-Returns}
use vfuzz.Exec.Executor.Static.{loaded_statically, run_input_cluster-Returns}
use vfuzz.Exec.Manager.{ExecManager, run_manager}
use vfuzz.Exec.Manager.Growth.{IsGrown}
use vfuzz.Exec.Manager.Rounds.{IsResting, disk_rounds, dynamic_rounds, run_manager-Returns}

abbrev world : World
world = record { rand = record { tape = λ n. n; at = 5 }; history = some []; visited = [] }

-- A driver that counts, and whose count above 0 is new.
abbrev counter : Driver ℕ
counter = record { start_record = λ n. 0; stop_record = λ n. (ltb 0 n, n) }

-- A mutator that puts a byte in front.
abbrev prefix : Mutator
prefix = record { address = 1; mutate = λ gid c inserted max_len w. ok ((7 ∷ c, inserted), w) }

prefix-IsTotal : IsTotal prefix
prefix-IsTotal gid c inserted max_len w = ((7 ∷ c, inserted), w, refl)

abbrev start : InputCluster
start = empty 4 8

abbrev stored : Corpus
stored = record { corpus = start ∷ []; has_on_new = false; notified = [] }

abbrev executor : Executor ℕ
executor = record {
  corpus = stored;
  current = none;
  mutators = λ c. prefix ∷ [];
  sensors = 0;
  indexes = [];
  to_free = [];
  dynamic = false;
  have_generated = false;
  do_discard = false;
  max_chunks = 4;
  max_chunk_len = 8;
  max_mutations = 3;
  dictionary = some [];
  has_on_new = true;
  reported = [];
}

abbrev target : Target ℕ
target =
    request 0 1 4
      λ c. observe suc (request 0 2 0 λ d. if ltb 3 (length d) then discard done else done)

ready : IsReady (prefix ∷ [])
ready = (omega arith, (prefix-IsTotal, tt))

asked : (d : Chunk) → AsksFor {D = ℕ} 2 (if ltb 3 (length d) then discard done else done)
asked d = elim (Bool-cases (ltb 3 (length d))) [ inl e ↦ rw e tt | inr e ↦ rw e tt ]

first_steps : IsInStep 4 (record executor { current = some start }) start
unfolding lookup get
first_steps gid = (omega arith, omega arith)

target-AsksFor : AsksFor 4 target
target-AsksFor = (omega arith, λ c. (omega arith, λ d. asked d))

get_next_chunk-Returns_example :
    let (lo', hi') = limits 8 1 4 in
    (i : Input) × (d : Corpus) × (w' : World) × (get_next_chunk 0 1 4
        (record executor { current = some start })
        world
      ≡ ok (
        (
          get_chunk i 0,
          advance 0
              (get_chunk i 0)
              (update 0 i (get 0 start).1)
              (record executor { current = some start; corpus = d }),
        ),
        w',
      ))
    × (lo' ≤ length (get_chunk i 0))
    × (length (get_chunk i 0) ≤ hi')
    × IsVisited false stored d
unfolding lookup
get_next_chunk-Returns_example =
    get_next_chunk-Returns 0 1 4 start (record executor { current = some start }) world refl
      (omega arith) ready (omega arith) (inr (omega arith))

run_target-Returns_example :
    (c' : InputCluster) × (e' : Executor ℕ) × (w' : World) × (run_target target
        (record executor { current = some start })
        world
      ≡ ok (e', w'))
    × (e'.current ≡ some c')
    × IsKept (record executor { current = some start }) e'
run_target-Returns_example =
    run_target-Returns target 4 start (record executor { current = some start }) world refl
      (omega arith) (omega arith) (λ c h. ready) first_steps target-AsksFor

-- A generator whose third chunk is next and which has none.
abbrev gap : Executor ℕ
gap = record executor { current = some start; indexes = (0, 2) ∷ [] }

gap_before : size (get 0 start).0 < index_of 0 gap.indexes
unfolding get lookup
gap_before = omega arith

get_next_chunk_aborts_example :
    let (lo', hi') = limits 8 1 4 in
    (0 < lo')
    × ((j : Input) × (w' : World) × (adjust gap 0 2 lo' hi' (get 0 start).0 world
          ≡ ok ((j, stored), w'))
        × (length (get_chunk j (size (get 0 start).0)) ≡ lo')
        × (get_chunk j 2 ≡ []))
    × (get_next_chunk 0 1 4 gap world ≡ err fault)
unfolding lookup
get_next_chunk_aborts_example =
    get_next_chunk_aborts 0 1 4 start gap world refl refl (omega arith) (omega arith) gap_before

can : CanRun executor
can = (omega arith, omega arith, λ c h. ready)

run-Returns_example :
    (i : ℕ) × (ic : InputCluster) × (e1 : Executor ℕ) × (c : InputCluster) × (e' : Executor ℕ) × (w1
      w' : World)
    × (get_elem? stored.corpus i ≡ some ic)
    × (run_target target (loaded_with counter (InputCluster.copy ic) executor) w1 ≡ ok (e1, w'))
    × (e1.current ≡ some c)
    × IsVisited true stored e1.corpus
    × (run counter target executor world ≡ ok (e', w'))
    × (e'.corpus ≡ (if sees_new counter e1 then add_input_cluster c e1.corpus else e1.corpus))
    × (e'.reported ≡ (if sees_new counter e1 && true then [] ++ (c ∷ []) else []))
    × IsIdle e'
    × CanRun e'
    × (e'.max_chunks ≡ 4)
run-Returns_example = run-Returns counter target executor world can refl target-AsksFor

run_input_cluster-Returns_example :
    (e1 : Executor ℕ) × (c : InputCluster) × (e' : Executor ℕ) × (w' : World) × (run_target target
        (loaded_statically counter start executor)
        world
      ≡ ok (e1, w'))
    × (e1.current ≡ some c)
    × (run_input_cluster counter target start executor world
        ≡ ok (((counter.stop_record e1.sensors).0, c, e'), w'))
    × (e'.corpus
        ≡ (if sees_new counter e1 then add_input_cluster (InputCluster.copy c) stored else stored))
    × (e'.indexes ≡ [])
    × CanRun e'
    × (e'.max_chunks ≡ 4)
run_input_cluster-Returns_example =
    run_input_cluster-Returns counter target start executor world can refl target-AsksFor

abbrev manager : ExecManager ℕ
manager = record {
  executor = executor;
  corpus_disk = stored;
  run_static = true;
  run_dynamic = true;
  num_runs = 3;
  is_initialized = true;
}

run_manager-Returns_example :
    (m' : ExecManager ℕ) × (w' : World) × (run_manager counter (λ call. target) 9 manager world
      ≡ ok (some m', w'))
    × IsResting m'.executor
    × (Corpus.size m'.corpus_disk ≡ Corpus.size stored)
    × IsGrown (disk_rounds manager + dynamic_rounds manager) stored m'.executor.corpus
run_manager-Returns_example =
    run_manager-Returns counter (λ call. target) 9 manager world refl (λ e. omega arith)
      (omega arith) (can, refl) (λ call. target-AsksFor)

get-Returns_example :
    (bytes : Chunk) × (jc : InputCluster) × (w' : World) × (Datasource.get
        (prefix ∷ [])
        3
        6
        0
        start
        world
      ≡ ok ((bytes, jc), w'))
    × (3 ≤ length bytes)
    × ((i : Input) × (lookup 0 jc.cluster ≡ some i) × (get_chunk i 0 ≡ bytes))
get-Returns_example = get-Returns (prefix ∷ []) 3 6 0 start world ready
