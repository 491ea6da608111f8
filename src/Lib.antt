-- ===== src/Lib.antt =====
-- vfuzz: the containers, mutators, sensor processors and dictionary of libvfuzz-core, the executor,
-- its manager, the loading of corpora and the add rules of libvfuzz-runtime, and tools of both, with
-- what is proved of them.
--
-- The program is a fuzzer in two parts. libvfuzz-core holds what a run feeds to its target (chunks,
-- inputs, clusters, corpora), what changes it (mutators) and what watches the target (sensors);
-- libvfuzz-runtime drives executions. An executor takes a cluster from a corpus, asks a mutator to
-- change the input of one of its generators, hands the chunks of the input to the target, and adds
-- the cluster to the corpus where a sensor saw something new.
--
-- Files and sources:
-- - Container/Input: libvfuzz-core/src/container/input.cpp. `get_chunk`, `set_chunk`, `add_chunk` are
--   Get, Set and Add; the others have the names of the methods. Serial is Serialize and Deserialize,
--   RoundTrip and Safety prove them, Edit, Mutation and Largest the rest.
-- - Container/InputCluster: libvfuzz-core/src/container/inputcluster.cpp, laid out likewise.
-- - Container/Corpus: libvfuzz-core/src/container/corpus/corpus.cpp, likewise.
-- - Codec: the reads and writes by memcpy that the three formats share.
-- - Mutator/Base: libvfuzz-core/src/mutator/base.cpp, with Parts and Inserting for its theorems.
-- - Mutator/Ranged: ranged.h, range_based.h and range_based.cpp of libvfuzz-core/src/mutator, as one
--   type of operations; Laws is about the loop, Bytes about single bytes.
-- - Mutator/Container: mutator/container.cpp; Choice proves it. Mutator/Statistics: mutator/util.cpp
--   but for GetDefaultContainer; Counts and Weights prove it.
-- - Mutator/Edits: the mutators that insert, erase and move bytes; Limit is about the length limit,
--   Effect about the bytes that come out.
-- - Util: random.h, string/string.cpp and allocationtracker.cpp of libvfuzz-core/src/util,
--   mutator/history.cpp, and libvfuzz-runtime/src/util/mallocfreetracer.h.
-- - Util/Io: what libvfuzz-core/src/util/io.cpp reads.
-- - Dictionary: libvfuzz-core/src/dictionary/dictionary.cpp. AutoDict: dictionary/autodict.cpp;
--   Compares proves it.
-- - Sensor/Base: BaseSensor, CustomSensor and Data of libvfuzz-core/src/sensor. Sensor/Combination:
--   SensorProcessor of sensor/processor/sensor.cpp; Pairs and Recording prove it.
-- - Sensor/Processor: the other classes of libvfuzz-core/src/sensor/processor, as one type of states;
--   Novelty is about ProcessorUnique and ProcessorUniqueMax, Extremes about the highest and the
--   lowest. Sensor/FlowTrace: FlowTracker of sensor/sensor/flowtrace.h; Ring proves it.
--   Sensor/Kinds: the stack, coverage, intensity, allocation maximum and flow trace sensors of
--   sensor/sensor; Depth is about the stack.
-- - Sensor/Profile: sensor/sensor/valueprofile.cpp. Sensor/Auto: the sensors of sensor/sensor/auto,
--   which ask the driver for new sensors.
-- - Sensor/Store: all sensors as objects in order of creation, each with the place that its onReady
--   leads to, and SensorProcessor over them, with sensors by place where Sensor/Combination has them
--   by value. Shapes are the links, Telling the chain of callbacks, Working and Nodes the steps that
--   keep the links, Growth a new SensorProcessor.
-- - Sensor/Container: sensor/container.cpp. Validity is its invariant, Switching, Adding, Combining and
--   Customs prove its operations.
-- - Driver: libvfuzz-runtime/src/sensor/driver.cpp; `update_all` is ForEachPCSensor and the like.
--   Recording has its constructor, StartRecord, StopRecord and the functions that a target calls,
--   Hooks is interface/callbacks.cpp, Callbacks proves sensor_callback, and Histories is about
--   sequences of calls.
-- - Exec/Executor: libvfuzz-runtime/src/exec/executor.cpp; `get_next_chunk`, `prepare`, `finish`, `run`
--   and `run_input_cluster` are its methods, and `run_target` the target at work. Adjusting, Chunks and
--   Gaps are about one chunk, Runs about one call of the target, Outcome and Static about one run.
-- - Exec/Conduits: a conduit of initializeMutators in exec/execmanager.cpp; Growth is about what it does
--   to a corpus, Fetching about what it gives. Exec/Manager: Run of the same file; Growth is about the
--   corpus, Rounds about the loops.
-- - Exec/Loading: libvfuzz-runtime/src/container/corpus/manager.cpp; Files and Processing prove it.
-- - Options/AddRules: libvfuzz-runtime/src/options/addrules.cpp. Format is the format of addrules.md,
--   Characters its characters, RoundTrip the parser on it, Rules and Uses what any rule keeps to, and
--   Numbers a Split and a conversion that meet the hypotheses.
-- - Datasource: libvfuzz-core/src/datasource; Requests proves `get`, Ids is id.cpp.
-- - OrdMap: std::map, as the list of its entries in order of the keys. Prelude: shared helpers.
-- - Tests: the theorems at concrete inputs.
--
-- How the model stands to the code:
-- - The engine std::minstd_rand0 is a tape of numbers, and every theorem holds for every tape. The
--   shared random source and the history are the state of a small monad (Util/World).
-- - Exceptions are values. A read or write outside a vector is the value `err fault`, and so is a
--   call of abort: a theorem that a call returns, or is safe, says that it does neither.
-- - What is not in the repository is a parameter: boost's hex and std::shuffle (Mutator/Base), boost's
--   split and lexical_cast (Options/AddRules), the operating system (Util/Io) and the target, which is a
--   tree of what it asks for (Exec/Executor).
-- - A class of the repository that takes another by pointer or as a function may have it as an argument
--   too: the mutators take their conduit as any action (Mutator/Edits), the executor takes any mutators,
--   which see the corpus, and the sensor driver as an interface. The conduit of CrossOver and Copy is
--   defined in Exec/Conduits.
-- - Assertions are no code, since the build defines NDEBUG. HaveLeakSanitizer is false, as Initialize
--   always sets it.
-- - size_t and uint64_t are natural numbers, with `% 2 ^ 64` where the code relies on them or can
--   wrap: the difference of InsertDictionary, the sums of the allocation tracker, the signed range of
--   Random. A number is written to bytes with the lowest first, as on the machines the build targets.
-- - A chain of callbacks takes fuel: as many steps as there are sensors, which is enough, since each
--   call goes to a sensor that was created later.
-- - The dynamic loop of the manager takes as fuel the rounds that it may go, and gives `none` where they
--   do not suffice. NumRuns of them do; with NumRuns 0 the loop of the code has no end. Any other loop is
--   recursion on the list or on the number of rounds.
-- - While the target runs, conduits of the mutators change the corpus: their calls of InputCluster::Get
--   give its clusters fresh inputs. The world keeps a log of these calls, and the executor carries them
--   out after the mutations of a chunk (`mutate_input`). Until then the conduits read the corpus of
--   before, which is the same to them, since a missing input reads like a fresh one.
-- - Where a Deserialize throws, the object that it was filling is dropped: no caller uses it.
--
-- Not modelled: loggers, the writing of files, hashing, the glue to the C library and to the target's
-- symbols, the command-line options, and the vendored libraries of the examples, all of which are output or
-- calls of code outside the repository; and the crash handler and the rest of the
-- set-up of the manager. The generators are empty classes.
pub mod Prelude
pub mod OrdMap
pub mod Codec
pub mod Util
pub mod Container
pub mod Mutator
pub mod Dictionary
pub mod AutoDict
pub mod Sensor
pub mod Driver
pub mod Datasource
pub mod Exec
pub mod Options
pub mod Tests
