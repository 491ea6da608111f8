-- ===== src/Exec/Executor.antt =====
-- Executor of libvfuzz-runtime/src/exec/executor.h and executor.cpp. The target, which is outside of
-- the repository, is a tree of what it asks of the executor, and the sensors are an interface.
pub mod Adjusting
pub mod Chunks
pub mod Runs
pub mod Outcome
pub mod Gaps
pub mod Static
use vfuzz.Prelude.{
  ℕ, zero, suc, ◌+◌, Bool, true, false, not, ◌&&◌, ◌||◌, List, [], ◌∷◌, ◌++◌, length, Option, none,
  some, min, ltb, ◌==◌, if◌then◌else◌, Result, ok, err, exception, fault,
}
use vfuzz.OrdMap.{OrdMap, lookup, assign}
use vfuzz.Codec.Words.{Chunk}
use vfuzz.Util.World.{World, M, ◌>>=◌, pure, throw, get_between, take_visits}
use vfuzz.Container.Input.{Input, get_chunk, expand_chunk, crop_chunk, mutate_chunk}
use vfuzz.Container.InputCluster.{InputCluster, get, update}
use vfuzz.Container.InputCluster as InputCluster
use vfuzz.Container.Corpus.{Corpus, get_random_copy, add_input_cluster}
use vfuzz.Mutator.Container.{Container, get_random_mutator}
use vfuzz.Dictionary.{Dictionary, clear_set}
use vfuzz.Exec.Conduits.{visit_all}

-- sensor::Driver as the executor uses it: StartRecord and StopRecord.
pub record Driver (D : Type 0) : Type 0 where
  pub start_record : D → D
  pub stop_record : D → Bool × D

-- VFuzzRun: requests for a chunk by generator, minimum and maximum, the calls vfuzz_discard and
-- vfuzz_dont_discard, and signals to the sensors.
pub data Target (D : Type 0) : Type 0 where
  done : Target D
  request : ℕ → ℕ → ℕ → (Chunk → Target D) → Target D
  discard keep : Target D → Target D
  observe : (D → D) → Target D → Target D

-- `corpus` is the object behind icPushPullCB, and `reported` what onNew was called with, if it is
-- set. `current` is the cluster that curInputCluster points to. The mutators see the corpus, which
-- some of them hold by pointer.
pub record Executor (D : Type 0) : Type 0 where
  pub corpus : Corpus
  pub current : Option InputCluster
  pub mutators : Corpus → Container
  pub sensors : D
  pub indexes : OrdMap ℕ
  pub to_free : List Chunk
  pub dynamic : Bool
  pub have_generated : Bool
  pub do_discard : Bool
  pub max_chunks : ℕ
  pub max_chunk_len : ℕ
  pub max_mutations : ℕ
  pub dictionary : Option Dictionary
  pub has_on_new : Bool
  pub reported : List InputCluster

-- The limits of GetNextChunk, the lower and the upper one, within the global limit.
unfoldable pub limits : ℕ → ℕ → ℕ → ℕ × ℕ
limits max_chunk_len lo hi =
    let hi' = min (if hi == 0 then max_chunk_len else hi) max_chunk_len in (min lo hi', hi')

-- `gidToCurrentIndex[gid]`, which starts at 0
abbrev pub index_of : ℕ → OrdMap ℕ → ℕ
index_of gid indexes = elim (lookup gid indexes) [ none ↦ 0 | some index ↦ index ]

-- The loop of mutations. The build defines NDEBUG, so its assertion is no code.
unfoldable pub mutate_rounds : Container → ℕ → ℕ → ℕ → ℕ → Input → M Input
mutate_rounds ms gid index limit zero i = pure i
mutate_rounds ms gid index limit (suc n) i = do
  m ← get_random_mutator ms
  i ← mutate_chunk gid index m limit i
  mutate_rounds ms gid index limit n i

-- The mutations in dynamic mode, and the corpus after them. What the conduits' calls of Get do to it is
-- done at the end, since a generator without an input reads like one with a fresh input.
unfoldable pub mutate_input : {D : Type 0} → Executor D → ℕ → ℕ → ℕ → Input → M (Input × Corpus)
mutate_input e gid index hi i = if not e.dynamic then pure (i, e.corpus) else (do
  n ← get_between 0 e.max_mutations
  i ← mutate_rounds (e.mutators e.corpus) gid index hi n i
  visits ← take_visits
  pure (i, visit_all visits e.corpus))

-- What happens to the input before its chunk is handed out.
unfoldable pub adjust : {D : Type 0} → Executor D → ℕ → ℕ → ℕ → ℕ → Input → M (Input × Corpus)
adjust e gid index lo hi i = do
  (i, corpus) ← mutate_input e gid index hi i
  i ← if ltb 0 lo then expand_chunk index lo i else pure i
  pure (if ltb 0 hi then crop_chunk index hi i else i, corpus)

-- What handing a chunk out changes in the executor.
abbrev pub advance : {D : Type 0} → ℕ → Chunk → InputCluster → Executor D → Executor D
advance gid chunk c e = record e {
  current = some c;
  to_free = e.to_free ++ (chunk ∷ []);
  have_generated = true;
  indexes = assign gid (index_of gid e.indexes + 1) e.indexes;
}

-- The end of GetNextChunk, from the input on that was adjusted.
unfoldable pub hand_out :
    {D : Type 0} → ℕ → ℕ → ℕ → ℕ → Input → InputCluster → Executor D → M (Chunk × Executor D)
hand_out gid index lo hi i c e =
    let chunk = get_chunk i index in
    if ltb (length chunk) lo || ltb hi (length chunk)
    then throw fault
    else if ltb index e.max_chunks
    then pure (chunk, advance gid chunk (update gid i c) e)
    else throw exception

-- GetNextChunk for a cluster, its changes to the input and the cluster included.
unfoldable pub serve : {D : Type 0} → ℕ → ℕ → ℕ → Executor D → InputCluster → M (Chunk × Executor D)
serve gid lo hi e c =
    let (lo', hi') = limits e.max_chunk_len lo hi in
    let index = index_of gid e.indexes in
    let (i, c') = get gid c in
    (do
      (i, corpus) ← adjust e gid index lo' hi' i
      hand_out gid index lo' hi' i c' (record e { corpus = corpus }))

-- GetNextChunk. It reads through curInputCluster, which must not be null.
unfoldable pub get_next_chunk : {D : Type 0} → ℕ → ℕ → ℕ → Executor D → M (Chunk × Executor D)
get_next_chunk gid lo hi e = elim e.current [ none ↦ throw fault | some c ↦ serve gid lo hi e c ]

-- GetNextChunk without limits
abbrev pub get_next_chunk_unlimited : {D : Type 0} → ℕ → Executor D → M (Chunk × Executor D)
get_next_chunk_unlimited gid e = get_next_chunk gid 0 0 e

-- SetDiscard, but for the logger
abbrev pub set_discard : {D : Type 0} → Bool → Executor D → Executor D
set_discard b e = record e { do_discard = b }

-- The target at work.
unfoldable pub run_target : {D : Type 0} → Target D → Executor D → M (Executor D)
run_target done e = pure e
run_target (request gid lo hi next) e = do
  (chunk, e) ← get_next_chunk gid lo hi e
  run_target (next chunk) e
run_target (discard t) e = run_target t (set_discard true e)
run_target (keep t) e = run_target t (set_discard false e)
run_target (observe f t) e = run_target t (record e { sensors = f e.sensors })

module _ {D : Type 0} (driver : Driver D) where
  -- prepare, with kDictionaryTypeMemcmp and kDictionaryTypeCmp
  unfoldable pub prepare : Executor D → Executor D
  prepare e = record e {
    dictionary = elim e.dictionary [ none ↦ none | some d ↦ some (clear_set 2 (clear_set 1 d)) ];
    sensors = driver.start_record e.sensors;
    do_discard = false;
    have_generated = false;
  }

  -- finish, and whether a sensor saw something new
  unfoldable pub finish : Executor D → Bool × Executor D
  finish e =
      let (increase, sensors) = driver.stop_record e.sensors in
      (increase, record e { indexes = []; to_free = []; sensors = sensors })

  -- What Run does with the cluster after the run.
  unfoldable pub conclude : Bool → Executor D → Executor D
  conclude increase e =
      if not e.do_discard && increase
      then elim e.current [
        | none ↦ e
        | some c ↦ record e {
          corpus = add_input_cluster c e.corpus;
          reported = if e.has_on_new then e.reported ++ (c ∷ []) else e.reported;
          current = none;
        }
      ]
      else record e { current = none }

  -- Run, with HaveLeakSanitizer false, as Initialize always sets it
  unfoldable pub run : Target D → Executor D → M (Executor D)
  unfolding prepare finish conclude
  run t e = do
    let e = prepare (record e { dynamic = true })
    c ← get_random_copy e.corpus
    e ← run_target t (record e { current = some c })
    let (increase, e) = finish e
    pure (conclude increase e)

  -- RunInputCluster: whether a sensor saw something new, the cluster as the run left it, which the
  -- caller still holds, and the executor, whose corpus may have gained a copy
  unfoldable pub run_input_cluster :
      Target D → InputCluster → Executor D → M (Bool × InputCluster × Executor D)
  unfolding prepare finish
  run_input_cluster t ic e = do
    let e = prepare (record e { dynamic = false; current = some ic })
    e ← run_target t e
    let (increase, e) = finish e
    let ic' : InputCluster = elim e.current [ none ↦ ic | some c ↦ c ]
    pure (
      increase,
      ic',
      if not e.do_discard && increase
          then record e { corpus = add_input_cluster (InputCluster.copy ic') e.corpus }
          else e,
    )
