-- ===== src/Sensor/Processor/Extremes.antt =====
-- ProcessorHighest and ProcessorLowest.
use vfuzz.Prelude.{
  ℕ, ◌≡◌, refl, none, some, inl, inr, List, [], ◌∷◌, ◌++◌, ltb, ok, Bool-cases, arith, max, min,
}
use vfuzz.Sensor.Processor.{
  Event, added, updated, highest, lowest, new_highest, new_lowest, receive, receive_all,
}

-- The largest of a number and the values after it, and the smallest.
unfoldable pub largest_of : ℕ → List ℕ → ℕ
largest_of best [] = best
largest_of best (v ∷ vs) = largest_of (max best v) vs

unfoldable pub smallest_of : ℕ → List ℕ → ℕ
smallest_of best [] = best
smallest_of best (v ∷ vs) = smallest_of (min best v) vs

highest_step :
    (junk v best : ℕ)
    → (events : List Event) × (receive junk v (highest best) ≡ ok (highest (max best v), events))
unfolding receive
highest_step junk v best = elim (Bool-cases (ltb best v)) [
  | inl up ↦ (added v ∷ updated best v ∷ [], ground (arith, up))
  | inr down ↦ ([], ground (arith, down))
]

lowest_step :
    (junk v best : ℕ)
    → (events : List Event) × (receive junk v (lowest (some best))
        ≡ ok (lowest (some (min best v)), events))
unfolding receive
lowest_step junk v best = elim (Bool-cases (ltb v best)) [
  | inl down ↦ (added v ∷ updated best v ∷ [], ground (arith, down))
  | inr up ↦ ([], ground (arith, up))
]

highest_from :
    (junk best : ℕ) (values : List ℕ)
    → (events : List Event) × (receive_all junk values (highest best)
        ≡ ok (highest (largest_of best values), events))
unfolding receive_all largest_of
highest_from junk best [] = ([], refl)
highest_from junk best (v ∷ values) =
    let (events, first) = highest_step junk v best in
    let (later, rest) = highest_from junk (max best v) values in
    (events ++ later, rw first (rw rest))

lowest_from :
    (junk best : ℕ) (values : List ℕ)
    → (events : List Event) × (receive_all junk values (lowest (some best))
        ≡ ok (lowest (some (smallest_of best values)), events))
unfolding receive_all smallest_of
lowest_from junk best [] = ([], refl)
lowest_from junk best (v ∷ values) =
    let (events, first) = lowest_step junk v best in
    let (later, rest) = lowest_from junk (min best v) values in
    (events ++ later, rw first (rw rest))

lowest_first :
    (junk v : ℕ)
    → receive junk v (lowest none) ≡ ok (lowest (some v), added v ∷ updated junk v ∷ [])
unfolding receive
lowest_first junk v = refl

-- After any values, with one at least, ProcessorHighest holds the largest of them and
-- ProcessorLowest the smallest, and neither has thrown.
pub extremes_hold :
    (junk v : ℕ) (values : List ℕ)
    → (above below : List Event) × (receive_all junk (v ∷ values) new_highest
        ≡ ok (highest (largest_of v values), above))
      × (receive_all junk (v ∷ values) new_lowest
          ≡ ok (lowest (some (smallest_of v values)), below))
unfolding receive_all
extremes_hold junk v values =
    let (events, first) = highest_step junk v 0 in
    let zero_max : max 0 v ≡ v = omega arith in
    let (later, rest) = highest_from junk v values in
    let (below, rest') = lowest_from junk v values in
    (
      events ++ later,
      added v ∷ updated junk v ∷ below,
      rw first (rw zero_max (rw rest)),
      rw (lowest_first junk v) (rw rest'),
    )
