-- ===== src/Container/Input/Largest.antt =====
-- GetLargestChunkSize of Input.
use vfuzz.Prelude.{
  ℕ, suc, ◌≤◌, ◌<◌, ◌≡◌, ◌⊎◌, inl, inr, refl, List, [], ◌∷◌, length, get_or, All, ltb,
  if◌then◌else◌, arith, Bool-cases,
}
use vfuzz.Codec.Words.{Chunk}
use vfuzz.Container.Input.{Input, largest_from, largest_chunk_size}

-- Nothing exceeds the result, and it is the start value or attained.
abbrev pub IsLargest : ℕ → List Chunk → ℕ → Type 0
IsLargest best cs n =
    (best ≤ n)
    × All (λ c. length c ≤ n) cs
    × ((n ≡ best) ⊎ ((k : ℕ) × (k < length cs) × (length (get_or cs k []) ≡ n)))

All-le_trans :
    (m n : ℕ) (cs : List Chunk) → m ≤ n → All (λ c. length c ≤ m) cs → All (λ c. length c ≤ n) cs
All-le_trans m n [] h a = tt
All-le_trans m n (c ∷ cs) h a = (omega arith, All-le_trans m n cs h a.1)

IsLargest-cons :
    (best n : ℕ) (c : Chunk) (cs : List Chunk)
    → IsLargest (if ltb best (length c) then length c else best) cs n
    → IsLargest best (c ∷ cs) n
IsLargest-cons best n c cs (low, bounds, inl e) = elim (Bool-cases (ltb best (length c))) [
  | inl more ↦ (ground arith, (ground arith, bounds), inr (0, omega arith, ground arith))
  | inr same ↦ (ground arith, (ground arith, bounds), inl (ground arith))
]
IsLargest-cons best n c cs (low, bounds, inr (k, inside, e)) =
    (ground arith, (ground arith, bounds), inr (suc k, omega arith, e))

largest_from-IsLargest : (best : ℕ) (cs : List Chunk) → IsLargest best cs (largest_from best cs)
unfolding largest_from
largest_from-IsLargest best [] = (omega arith, tt, inl refl)
largest_from-IsLargest best (c ∷ cs) =
    IsLargest-cons best _ c cs
      (largest_from-IsLargest (if ltb best (length c) then length c else best) cs)

-- GetLargestChunkSize is the length of a longest chunk, or 0 where there is none.
largest_chunk_size-IsLargest : (i : Input) → IsLargest 0 i.chunks (largest_chunk_size i)
unfolding largest_chunk_size
largest_chunk_size-IsLargest i = largest_from-IsLargest 0 i.chunks
