-- ===== src/Driver/Hooks.antt =====
-- libvfuzz-runtime/src/interface/callbacks.cpp, which the compiler's instrumentation calls, and the
-- static functions of Driver in sensor/driver.cpp. The addresses that the compiler gives, and the
-- memory behind pointers, are arguments. The flag by which the malloc hooks are held back is not
-- part of the state.
use vfuzz.Prelude.{
  ℕ, zero, suc, ◌+◌, ◌%◌, ◌^◌, Bool, true, false, not, ◌&&◌, ◌||◌, List, [], ◌∷◌, length, min, leb,
  ltb, ◌==◌, if◌then◌else◌, Result, ok, err, ◌>>=◌, fault, nth,
}
use vfuzz.Codec.Words.{Chunk}
use vfuzz.AutoDict.{xor, AutoDict, insert_torc}
use vfuzz.Driver.{
  Driver, Platform, builtin_add_pc, builtin_add_stack, builtin_handle_stacktrace, builtin_malloc,
  builtin_free, builtin_handle_caller_callee, builtin_add_value_for_memcmp, builtin_handle_cmp,
}

-- InternalStrnlen, on the memory behind the pointer. A read past it is a fault.
unfoldable pub internal_strnlen : ℕ → Chunk → Result ℕ
internal_strnlen zero s = ok 0
internal_strnlen (suc left) [] = err fault
internal_strnlen (suc left) (c ∷ s) =
    let rest = (do n ← internal_strnlen left s; ok (suc n)) in if c == 0 then ok 0 else rest

-- InternalStrnlen2
unfoldable pub internal_strnlen2 : Chunk → Chunk → Result ℕ
internal_strnlen2 [] bs = err fault
internal_strnlen2 (a ∷ as') [] = if a == 0 then ok 0 else err fault
internal_strnlen2 (a ∷ as') (b ∷ bs) =
    let rest = (do n ← internal_strnlen2 as' bs; ok (suc n)) in
    if a == 0 || b == 0 then ok 0 else rest

-- The loop of __sanitizer_cov_trace_switch: the index where it stops, and the last token.
unfoldable pub switch_loop : ℕ → ℕ → ℕ → List ℕ → ℕ × ℕ
switch_loop val i token [] = (i, token)
switch_loop val i token (v ∷ vals) =
    let token' = xor 64 val v in
    let rest = switch_loop val (i + 1) token' vals in if ltb val v then (i, token') else rest

-- The loop of __sanitizer_cov_trace_pc_guard_init: the guards, numbered from the one after N.
unfoldable pub number_guards : ℕ → List ℕ → List ℕ
number_guards n [] = []
number_guards n (x ∷ xs) = (n + 1) % 2 ^ 32 ∷ number_guards (n + 1) xs

-- __sanitizer_cov_trace_pc_guard_init, on the static N, NumGuards and the guards
unfoldable pub guard_init : ℕ → ℕ → List ℕ → (ℕ × ℕ) × List ℕ
unfolding number_guards
guard_init n num_guards [] = ((n, num_guards), [])
guard_init n num_guards (x ∷ xs) =
    if not (x == 0)
    then ((n, num_guards), x ∷ xs)
    else ((n + length (x ∷ xs), num_guards + length (x ∷ xs)), number_guards n (x ∷ xs))

module _ {B : Type 0} (platform : Platform B) where
  abbrev pub where_global : (Driver B → Result (Driver B)) → Driver B → Result (Driver B)
  where_global f d = if d.is_global then f d else ok d

  -- MallocHook, FreeHook, HandleCallerCallee, AddValueForMemcmp and HandleCmp
  abbrev pub malloc_hook : ℕ → ℕ → ℕ → Driver B → Result (Driver B)
  malloc_hook pc ptr size d = where_global (builtin_malloc platform pc ptr size) d

  abbrev pub free_hook : ℕ → Driver B → Result (Driver B)
  free_hook ptr d = where_global (builtin_free platform ptr) d

  abbrev pub handle_caller_callee_hook : ℕ → ℕ → Driver B → Result (Driver B)
  handle_caller_callee_hook caller callee d =
      where_global (builtin_handle_caller_callee platform caller callee) d

  abbrev pub memcmp_hook : ℕ → Chunk → Chunk → ℕ → Bool → Driver B → Result (Driver B)
  memcmp_hook pc s1 s2 n stop d =
      where_global (builtin_add_value_for_memcmp platform pc s1 s2 n stop) d

  abbrev pub cmp_hook : ℕ → ℕ → ℕ → Driver B → Result (Driver B)
  cmp_hook pc arg1 arg2 d = where_global (builtin_handle_cmp platform pc arg1 arg2) d

  -- __sanitizer_cov_trace_pc_guard
  unfoldable pub trace_pc_guard : ℕ → ℕ → ℕ → Driver B → Result (Driver B)
  trace_pc_guard guard sp caller d = if not d.is_global || guard == 0 then ok d else (do
    d ← builtin_add_pc platform guard d
    d ← builtin_add_stack platform sp d
    builtin_handle_stacktrace platform caller d)

  -- __sanitizer_cov_trace_pc_indir
  unfoldable pub trace_pc_indir : ℕ → ℕ → Driver B → Result (Driver B)
  trace_pc_indir pc callee d = if d.is_global then handle_caller_callee_hook pc callee d else ok d

  -- __sanitizer_cov_trace_div4, div8 and gep
  unfoldable pub trace_div : ℕ → ℕ → Driver B → Result (Driver B)
  trace_div pc val d = cmp_hook pc val 0 d

  -- generic_cmp_handler, for numbers of so many bytes
  unfoldable pub generic_cmp_handler :
      ℕ → ℕ → ℕ → ℕ → Driver B → AutoDict → Result (Driver B × AutoDict)
  generic_cmp_handler size pc a b d dict = do
    d ← cmp_hook pc a b d
    ok (d, insert_torc a b size dict)

  -- __sanitizer_cov_trace_switch, on the number of bits and the values of the cases, which follow
  -- it in memory: without a case, Vals[N - 1] is the number of bits.
  unfoldable pub trace_switch : ℕ → ℕ → ℕ → List ℕ → Driver B → Result (Driver B)
  unfolding switch_loop
  trace_switch pc val bits vals d = do
    last ← nth (bits ∷ vals) (length vals)
    let (i, token) = switch_loop val 0 0 vals
    let token' = if bits == 16 then token % 2 ^ 16 else if bits == 32 then token % 2 ^ 32 else token
    (if ltb last 256 && ltb val 256 then ok d else cmp_hook ((pc + i) % 2 ^ 64) token' 0 d)

  -- __sanitizer_weak_hook_memcmp, strncmp and strcmp, by what the function returned
  unfoldable pub weak_hook_memcmp : ℕ → Chunk → Chunk → ℕ → Bool → Driver B → Result (Driver B)
  weak_hook_memcmp pc s1 s2 n differs d =
      if not differs || leb n 1 then ok d else memcmp_hook pc s1 s2 n false d

  unfoldable pub weak_hook_strncmp : ℕ → Chunk → Chunk → ℕ → Bool → Driver B → Result (Driver B)
  unfolding internal_strnlen
  weak_hook_strncmp pc s1 s2 n differs d = if not differs then ok d else (do
    len1 ← internal_strnlen n s1
    len2 ← internal_strnlen n s2
    let n' = min (min n len1) len2
    if leb n' 1 then ok d else memcmp_hook pc s1 s2 n' true d)

  unfoldable pub weak_hook_strcmp : ℕ → Chunk → Chunk → Bool → Driver B → Result (Driver B)
  unfolding internal_strnlen2
  weak_hook_strcmp pc s1 s2 differs d =
      if not differs
      then ok d
      else (do n ← internal_strnlen2 s1 s2; if leb n 1 then ok d else memcmp_hook pc s1 s2 n true d)
