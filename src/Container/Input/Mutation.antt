-- ===== src/Container/Input/Mutation.antt =====
-- MutateChunk and MutateRandom of Input, for any mutator.
use vfuzz.Prelude.{
  ℕ, ◌+◌, ◌≤◌, ◌<◌, ◌≡◌, ◌≢◌, ◌⊎◌, inl, inr, refl, ◌∙◌, Bool, true, false, not, ◌&&◌, List, [], ◌∷◌,
  ◌++◌, length, is_empty, leb, ltb, if◌then◌else◌, ok, arith, length-append, Bool-cases,
}
use vfuzz.OrdMap.{insert}
use vfuzz.Codec.Words.{Chunk}
use vfuzz.Util.Rand.{below, below_lt}
use vfuzz.Util.World.{World, >>=-eq-ok}
use vfuzz.Container.Input.{
  Input, Mutator, get_chunk, put, size, accept_mutation, mutate_chunk, wants_chunk, mutate_random,
  add_chunk,
}
use vfuzz.Container.Input.Edit.{slot, put-get_or, get_chunk-set_chunk}

if_not {ℓ} : {A : Type ℓ} (b : Bool) (x y : A) → (if b then x else y) ≡ (if not b then y else x)
if_not true x y = refl
if_not false x y = refl

length-put_before :
    (cs : List Chunk) (index : ℕ) (c : Chunk)
    → index < length cs
    → length (put cs index c) ≡ length cs
length-put_before cs index c h =
    let fits : leb (length cs) index ≡ false = ground arith in (put-get_or cs index 0 c).2 ∙ rw fits

-- A mutation leaves in its slot the mutator's chunk if that is within the limit, and else the
-- chunk that was there, and in any other slot what it held; the mutator and its insertion are
-- noted only in the first case, and an empty insertion never.
pub accept_mutation-slot :
    (address index max_len j : ℕ) (mutated inserted : Chunk) (i : Input)
    → j ≢ slot index i
    → let k = accept_mutation address index max_len (get_chunk i index) mutated inserted i in
      let kept = leb (length mutated) max_len in
      (get_chunk k (slot index i) ≡ (if kept then mutated else get_chunk i index))
      × (get_chunk k j ≡ get_chunk i j)
      × (k.mutators ≡ (if kept then insert address tt i.mutators else i.mutators))
      × (k.insertions ≡ (
          if kept && not (is_empty inserted)
          then i.insertions ++ (inserted ∷ [])
          else i.insertions))
unfolding accept_mutation get_chunk
accept_mutation-slot address index max_len j mutated inserted i ne =
    let insertions = if is_empty inserted then i.insertions else i.insertions ++ (inserted ∷ []) in
    let noted = record i { mutators = insert address tt i.mutators; insertions = insertions } in
    let (own, other, _) = get_chunk-set_chunk index j (get_chunk i index) i in
    let (own', other', _) = get_chunk-set_chunk index j mutated noted in
    elim (Bool-cases (ltb max_len (length mutated))) [
      | inl long ↦
          let e : leb (length mutated) max_len ≡ false = ground arith in
          rw (long, e) (own, other ne, refl, refl)
      | inr short ↦
          let e : leb (length mutated) max_len ≡ true = ground arith in
          rw (short, e) (own', other' ne, refl, if_not (is_empty inserted) _ _)
    ]

mutate_chunk-size :
    (gid index : ℕ) (m : Mutator) (max_len : ℕ) (i j : Input) (w w' : World)
    → index < size i
    → mutate_chunk gid index m max_len i w ≡ ok (j, w')
    → size j ≡ size i
unfolding mutate_chunk accept_mutation
mutate_chunk-size gid index m max_len i j w w' h r =
    let ((mutated, inserted), w1, _, e) =
      >>=-eq-ok (m.mutate gid (get_chunk i index) [] max_len) _ w r in
    ground (
      arith,
      e,
      length-put_before i.chunks index mutated,
      length-put_before i.chunks index (get_chunk i index),
    )

wants_chunk-eq-ok :
    (max_chunks : ℕ) (i : Input) (w w' : World) (add : Bool)
    → wants_chunk max_chunks i w ≡ ok (add, w')
    → (add ≡ true → (size i ≡ 0) ⊎ (size i < max_chunks)) × (add ≡ false → 0 < size i)
unfolding wants_chunk
wants_chunk-eq-ok max_chunks i w w' add r = ground arith

size-grown :
    (add : Bool) (i : Input)
    → size (if add then add_chunk [] i else i) ≡ (if add then size i + 1 else size i)
unfolding add_chunk
size-grown true i = length-append i.chunks ([] ∷ [])
size-grown false i = refl

-- Where the maximum is not 0, the input keeps to it and MutateRandom returns, the input has a
-- chunk at least, as many as before at least, and as many as the maximum at most, whatever the
-- mutator does.
pub mutate_random-size :
    (gid : ℕ) (m : Mutator) (max_chunks max_len : ℕ) (i j : Input) (w w' : World)
    → 0 < max_chunks
    → size i ≤ max_chunks
    → mutate_random gid m max_chunks max_len i w ≡ ok (j, w')
    → (size i ≤ size j) × (0 < size j) × (size j ≤ max_chunks)
unfolding mutate_random
mutate_random-size gid m max_chunks max_len i j w w' h k r =
    let (add, w1, wanted, r1) = >>=-eq-ok (wants_chunk max_chunks i) _ w r in
    let i' = if add then add_chunk [] i else i in
    let (grown, plain) = wants_chunk-eq-ok max_chunks i w w1 add wanted in
    let size' : size i' ≡ (if add then size i + 1 else size i) = size-grown add i in
    let some_chunk : 0 < size i' = ground (arith, size', plain) in
    let kept : size j ≡ size i' =
      mutate_chunk-size gid (below (size i') w1.rand).0 m max_len i' j _ w'
        (below_lt (size i') w1.rand some_chunk) r1 in
    (ground (arith, size'), omega arith, ground (arith, size', grown, plain))
