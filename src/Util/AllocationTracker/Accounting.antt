-- ===== src/Util/AllocationTracker/Accounting.antt =====
-- AllocationTracker counts what is live and remembers the peak.
use vfuzz.Prelude.{
  ℕ, ◌+◌, ◌%◌, ◌^◌, ◌≡◌, refl, false, some, List, [], ◌∷◌, inl, inr, Option-cases, arith,
}
use vfuzz.OrdMap.{OrdMap, lookup, contains, assign, erase}
use vfuzz.Util.AllocationTracker.{
  AllocationTracker, add_malloc, add_free, reset, Call, malloc, free, enable_call, disable_call,
  reset_call, step, run, total,
}

total-assign :
    (ptr num : ℕ) (m : OrdMap ℕ) → contains ptr m ≡ false → total (assign ptr num m) ≡ total m + num
unfolding total assign contains
total-assign ptr num [] h = omega arith
total-assign ptr num ((j, n) ∷ m) h = ground (arith, total-assign ptr num m)

total-erase :
    (ptr num : ℕ) (m : OrdMap ℕ) → lookup ptr m ≡ some num → total (erase ptr m) + num ≡ total m
unfolding total erase lookup
total-erase ptr num [] h = cc
total-erase ptr num ((j, n) ∷ m) h = ground (arith, total-erase ptr num m)

-- `curAlloc` is the number of live bytes, modulo 2^64.
abbrev pub IsBalanced : AllocationTracker → Type 0
IsBalanced t = t.cur_alloc ≡ total t.alloc_map % 2 ^ 64

reset_total : 0 ≡ total [] % 2 ^ 64
unfolding total
reset_total = refl

step-IsBalanced : (c : Call) (t : AllocationTracker) → IsBalanced t → IsBalanced (step c t)
unfolding step add_malloc add_free reset
step-IsBalanced (malloc ptr num) t h = ground (arith, total-assign ptr num t.alloc_map)
step-IsBalanced (free ptr) t h = elim (Option-cases (lookup ptr t.alloc_map)) [
  | inl missing ↦ ground (arith, missing)
  | inr (num, found) ↦ ground (arith, found, total-erase ptr num t.alloc_map found)
]
step-IsBalanced enable_call t h = h
step-IsBalanced disable_call t h = h
step-IsBalanced reset_call t h = reset_total

-- After any calls on a tracker whose `curAlloc` is the sum of the sizes in the map, modulo 2^64,
-- it is so again.
run-IsBalanced :
    (calls : List Call) (t : AllocationTracker) → IsBalanced t → IsBalanced (run calls t)
unfolding run
run-IsBalanced [] t h = h
run-IsBalanced (c ∷ calls) t h = run-IsBalanced calls (step c t) (step-IsBalanced c t h)
