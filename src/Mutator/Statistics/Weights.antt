-- ===== src/Mutator/Statistics/Weights.antt =====
-- RandMutatorByWeight finds a mutator of its list.
use vfuzz.Prelude.{
  All-get_elem?, nth_inside, ℕ, zero, suc, ◌+◌, ◌-◌, ◌%◌, ◌^◌, ◌≤◌, ◌<◌, ◌≡◌, ◌⊎◌, inl, inr, refl,
  List, [], ◌∷◌, length, drop, All, leb, ◌==◌, ok, Bool-cases, leb→lt, arith, get_elem?_inside,
}
use vfuzz.Util.Rand.{below, below_lt, below_wrapped}
use vfuzz.Util.World.{World, ◌>>=◌, run}
use vfuzz.Mutator.Statistics.{weight_sum, run_of, eligible, pick, rand_mutator_by_weight}

module _ {A : Type 0} where
  -- The mutator is one of the list.
  abbrev pub Holds : A → List (A × ℕ) → Type 0
  Holds a [] = ⊥
  Holds a ((b, n) ∷ counts) = (a ≡ b) ⊎ Holds a counts

  Holds-drop : (a : A) (k : ℕ) (counts : List (A × ℕ)) → Holds a (drop k counts) → Holds a counts
  Holds-drop a zero counts h = h
  Holds-drop a (suc k) [] h = h
  Holds-drop a (suc k) (x ∷ counts) h = inr (Holds-drop a k counts h)

  run_of-Holds :
      (prev : ℕ) (rest counts : List (A × ℕ))
      → ((a : A) → Holds a rest → Holds a counts)
      → All (λ a. Holds a counts) (run_of prev rest)
  unfolding run_of
  run_of-Holds prev [] counts h = tt
  run_of-Holds prev ((a, n) ∷ rest) counts h = elim (Bool-cases (n == prev)) [
    | inl same ↦ rw same (h a (inl refl), run_of-Holds prev rest counts (λ b k. h b (inr k)))
    | inr other ↦ rw other tt
  ]

  pick-Returns :
      (counts rest : List (A × ℕ)) (num i : ℕ)
      → 0 < length rest
      → num ≤ weight_sum rest
      → ((a : A) → Holds a rest → Holds a counts)
      → (chosen : List A) × (pick counts num i rest ≡ ok chosen)
        × (0 < length chosen)
        × All (λ a. Holds a counts) chosen
  unfolding pick weight_sum eligible
  pick-Returns counts [] num i some_left le h = absurd (omega arith)
  pick-Returns counts ((a, n) ∷ rest) num i some_left le h = elim (Bool-cases (leb num n)) [
    | inl hit ↦ (
      eligible counts a n i,
      rw hit refl,
      omega arith,
      (h a (inl refl), run_of-Holds n _ counts (λ b. Holds-drop b _ counts)),
    )
    | inr miss ↦
        let left = more rest num n le (leb→lt num n miss) in
        let (chosen, e, filled, held) =
          pick-Returns counts rest (num - n) (i + 1) left (omega arith) (λ b k. h b (inr k)) in
        (chosen, rw miss e, filled, held)
  ]
    where
      more :
          (rest : List (A × ℕ)) (num n : ℕ) → num ≤ n + weight_sum rest → n < num → 0 < length rest
      more [] num n le lt = absurd (omega arith)
      more (x ∷ rest) num n le lt = omega arith

  -- From a list that is not empty, RandMutatorByWeight returns and gives a mutator of the list: it
  -- does not reach its call of abort. The weights are so small that their sum does not wrap.
  pub rand_mutator_by_weight-Returns :
      (counts : List (A × ℕ)) (w : World)
      → 0 < length counts
      → weight_sum counts + 1 < 2 ^ 64
      → (a : A) × (w' : World) × (rand_mutator_by_weight counts w ≡ ok (a, w')) × Holds a counts
  unfolding rand_mutator_by_weight
  rand_mutator_by_weight-Returns counts w h fits =
      let total = (weight_sum counts + 1) % 2 ^ 64 in
      let (num, r) = below total w.rand in
      let num_le = below_wrapped (weight_sum counts) w.rand in
      let (chosen, picked, filled, held) = pick-Returns counts counts num 0 h num_le (λ a k. k) in
      let (index, r') = below (length chosen) r in
      let (a, found) = get_elem?_inside chosen index (below_lt (length chosen) r filled) in
      (
        a,
        record w { rand = r' },
        rw (picked, run, ◌>>=◌) (rw (nth_inside chosen index a found, run) refl),
        All-get_elem? (λ a. Holds a counts) chosen index a held found,
      )
