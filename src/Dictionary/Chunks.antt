-- ===== src/Dictionary/Chunks.antt =====
-- Adding to a set of a dictionary and clearing it.
use vfuzz.Prelude.{
  ℕ, zero, suc, ◌≡◌, inl, inr, refl, sym, ap, ◌∙◌, false, none, some, List, [], ◌∷◌, get_elem?,
  ◌==◌, if◌then◌else◌, Bool-cases, ==_refl, arith,
}
use vfuzz.OrdMap.{lookup, assign}
use vfuzz.OrdMap.Laws.{lookup-assign}
use vfuzz.Codec.Words.{Chunk}
use vfuzz.Dictionary.{chunk_less, insert_chunk, Dictionary, set_of, add, clear_set}

-- The chunk is an element.
abbrev pub IsIn : Chunk → List Chunk → Type 0
IsIn c s = (k : ℕ) × (get_elem? s k ≡ some c)

chunk_less_total : (c d : Chunk) → chunk_less c d ≡ false → chunk_less d c ≡ false → c ≡ d
unfolding chunk_less
chunk_less_total [] [] h k = refl
chunk_less_total (x ∷ c) [] h k = absurd cc
chunk_less_total [] (y ∷ d) h k = absurd cc
chunk_less_total (x ∷ c) (y ∷ d) h k = ground (arith, chunk_less_total c d)

insert_chunk-IsIn : (c : Chunk) (s : List Chunk) → IsIn c (insert_chunk c s)
unfolding insert_chunk
insert_chunk-IsIn c [] = (0, refl)
insert_chunk-IsIn c (d ∷ s) = elim (Bool-cases (chunk_less c d)) [
  | inl less ↦ rw less (0, refl)
  | inr not_less ↦ rw not_less (elim (Bool-cases (chunk_less d c)) [
    | inl more ↦ let (k, e) = insert_chunk-IsIn c s in rw more (suc k, e)
    | inr not_more ↦ rw not_more (0, ap some (sym (chunk_less_total c d not_less not_more)))
  ])
]

insert_chunk-keeps : (c x : Chunk) (s : List Chunk) → IsIn x s → IsIn x (insert_chunk c s)
unfolding insert_chunk
insert_chunk-keeps c x [] (k, e) = absurd cc
insert_chunk-keeps c x (d ∷ s) (zero, e) = elim (Bool-cases (chunk_less c d)) [
  | inl less ↦ rw less (1, e)
  | inr not_less ↦ rw not_less (elim (Bool-cases (chunk_less d c)) [
    | inl more ↦ rw more (0, e)
    | inr not_more ↦ rw not_more (0, e)
  ])
]
insert_chunk-keeps c x (d ∷ s) (suc k, e) = elim (Bool-cases (chunk_less c d)) [
  | inl less ↦ rw less (suc (suc k), e)
  | inr not_less ↦ rw not_less (elim (Bool-cases (chunk_less d c)) [
    | inl more ↦ let (j, f) = insert_chunk-keeps c x s (k, e) in rw more (suc j, f)
    | inr not_more ↦ rw not_more (suc k, e)
  ])
]

set_of-assign : (id : ℕ) (s : List Chunk) (d : Dictionary) → set_of id (assign id s d) ≡ s
set_of-assign id s d =
    let e : (if id == id then some s else lookup id d) ≡ some s = rw (==_refl id) refl in
    ap (λ o. elim o [ none ↦ [] | some s ↦ s ]) (lookup-assign id id s d ∙ e)

set_of-clear_set : (id : ℕ) (d : Dictionary) → set_of id (clear_set id d) ≡ []
unfolding clear_set
set_of-clear_set id d = ground (arith, set_of-assign id [] d)

-- Where a set holds a chunk, Add to the set leaves it there and adds the new chunk, and every
-- other set is as it was; ClearSet leaves the set empty.
add-IsIn :
    (id other : ℕ) (c x : Chunk) (d : Dictionary)
    → IsIn x (set_of id d)
    → IsIn c (set_of id (add id c d))
      × IsIn x (set_of id (add id c d))
      × (lookup other (add id c d)
          ≡ (if other == id then some (insert_chunk c (set_of id d)) else lookup other d))
      × (set_of id (clear_set id d) ≡ [])
unfolding add
add-IsIn id other c x d held =
    let after = set_of-assign id (insert_chunk c (set_of id d)) d in
    (
      rw after (insert_chunk-IsIn c (set_of id d)),
      rw after (insert_chunk-keeps c x (set_of id d) held),
      lookup-assign id other _ d,
      set_of-clear_set id d,
    )
