-- ===== src/Sensor/Processor/Novelty.antt =====
-- ProcessorUnique and ProcessorUniqueMax: the set and the array tell the same values apart.
use vfuzz.Prelude.{
  ℕ, zero, suc, ◌+◌, ◌<◌, ◌≡◌, refl, ◌∙◌, true, false, some, inl, inr, List, [], ◌∷◌, length,
  get_elem?, set, replicate, All, ◌==◌, if◌then◌else◌, ok, Bool-cases, arith, length-set,
  length-replicate,
}
use vfuzz.OrdMap.{OrdMap, insert, contains}
use vfuzz.OrdMap.Laws.{IsSortedFrom, IsSorted, insert-IsSortedFrom}
use vfuzz.Sensor.Processor.{
  Event, added, updated, unique, unique_max, new_unique, new_unique_max, unique_step, receive,
  receive_all,
}

contains_below : (b k : ℕ) (m : OrdMap (Unit {0})) → k < b → IsSortedFrom b m → contains k m ≡ false
unfolding contains
contains_below b k [] h s = refl
contains_below b k ((j, w) ∷ m) h s = ground (arith, contains_below (suc j) k m)

insert_same :
    (b k : ℕ) (m : OrdMap (Unit {0})) → IsSortedFrom b m → contains k m ≡ true → insert k tt m ≡ m
unfolding contains insert
insert_same b k [] s h = cc
insert_same b k ((j, w) ∷ m) s h =
    ground (arith, insert_same (suc j) k m s.1, contains_below (suc j) k m)

length-insert_new :
    (k : ℕ) (m : OrdMap (Unit {0})) → contains k m ≡ false → length (insert k tt m) ≡ suc (length m)
unfolding contains insert
length-insert_new k [] h = refl
length-insert_new k ((j, w) ∷ m) h = ground (arith, length-insert_new k m)

contains-insert :
    (k j : ℕ) (m : OrdMap (Unit {0}))
    → contains j (insert k tt m) ≡ (if j == k then true else contains j m)
unfolding contains insert
contains-insert k j [] = ground arith
contains-insert k j ((i, w) ∷ m) = ground (arith, contains-insert k j m)

get_elem?-set :
    (xs : List ℕ) (k j v : ℕ)
    → k < length xs
    → get_elem? (set xs k v) j ≡ (if j == k then some v else get_elem? xs j)
get_elem?-set [] k j v h = absurd (omega arith)
get_elem?-set (x ∷ xs) zero zero v h = ground arith
get_elem?-set (x ∷ xs) zero (suc j) v h = ground arith
get_elem?-set (x ∷ xs) (suc k) zero v h = ground arith
get_elem?-set (x ∷ xs) (suc k) (suc j) v h = get_elem?-set xs k j v (omega arith) ∙ ground arith

get_elem?-replicate : (n j v : ℕ) → j < n → get_elem? (replicate n v) j ≡ some v
get_elem?-replicate zero j v h = absurd (omega arith)
get_elem?-replicate (suc n) zero v h = refl
get_elem?-replicate (suc n) (suc j) v h = get_elem?-replicate n j v (omega arith)

-- The array marks what the set holds.
record IsMarked (m : ℕ) (seen : OrdMap (Unit {0})) (vals : List ℕ) : Type 0 where
  sorted : IsSorted seen
  size : length vals ≡ m
  marks : (k : ℕ) → k < m → get_elem? vals k ≡ some (if contains k seen then 1 else 0)

-- From marked states both processors give the same events, and are left in marked states.
abbrev Agree : ℕ → ℕ → List ℕ → OrdMap (Unit {0}) → List ℕ → Type 0
Agree junk m xs seen vals =
    (events : List Event) × (seen' : OrdMap (Unit {0})) × (vals' : List ℕ) × (receive_all junk xs
        (unique seen)
      ≡ ok (unique seen', events))
    × (receive_all junk xs (unique_max m (length seen) vals)
        ≡ ok (unique_max m (length seen') vals', events))
    × IsMarked m seen' vals'

mark_new :
    (m v : ℕ) (seen : OrdMap (Unit {0})) (vals : List ℕ)
    → v < m
    → IsMarked m seen vals
    → IsMarked m (insert v tt seen) (set vals v 1)
mark_new m v seen vals h marked = record {
  sorted = insert-IsSortedFrom 0 v tt seen (omega arith) marked.sorted;
  size = length-set vals v 1 ∙ marked.size;
  marks = λ k lt.
      let fits : v < length vals = omega (arith, marked.size) in
      ground (arith, get_elem?-set vals v k 1 fits, contains-insert v k seen, marked.marks k lt);
}

unique_old :
    (junk v : ℕ) (seen : OrdMap (Unit {0}))
    → insert v tt seen ≡ seen
    → receive junk v (unique seen) ≡ ok (unique seen, [])
unfolding receive unique_step
unique_old junk v seen h = rw h (ground arith)

unique_new :
    (junk v : ℕ) (seen : OrdMap (Unit {0}))
    → length (insert v tt seen) ≡ suc (length seen)
    → receive junk v (unique seen)
      ≡ ok (
        unique (insert v tt seen),
        added (length seen + 1) ∷ updated (length seen) (length seen + 1) ∷ [],
      )
unfolding receive unique_step
unique_new junk v seen h = ground (arith, h)

unique_max_old :
    (junk m v prev : ℕ) (vals : List ℕ)
    → v < m
    → get_elem? vals v ≡ some 1
    → receive junk v (unique_max m prev vals) ≡ ok (unique_max m prev vals, [])
unfolding receive
unique_max_old junk m v prev vals h e = ground (arith, e)

unique_max_new :
    (junk m v prev : ℕ) (vals : List ℕ)
    → v < m
    → get_elem? vals v ≡ some 0
    → receive junk v (unique_max m prev vals)
      ≡ ok (unique_max m (prev + 1) (set vals v 1), added (prev + 1) ∷ updated prev (prev + 1) ∷ [])
unfolding receive
unique_max_new junk m v prev vals h e = ground (arith, e)

agree :
    (junk m : ℕ) (xs : List ℕ) (seen : OrdMap (Unit {0})) (vals : List ℕ)
    → All (λ v. v < m) xs
    → IsMarked m seen vals
    → Agree junk m xs seen vals
unfolding receive_all
agree junk m [] seen vals h marked = ([], seen, vals, refl, refl, marked)
agree junk m (v ∷ xs) seen vals h marked = elim (Bool-cases (contains v seen)) [
  | inl old ↦
      let (events, seen', vals', first, second, after) = agree junk m xs seen vals h.1 marked in
      let mark : get_elem? vals v ≡ some 1 = marked.marks v h.0 ∙ rw old refl in
      (
        events,
        seen',
        vals',
        rw (unique_old junk v seen (insert_same 0 v seen marked.sorted old)) (rw first),
        rw (unique_max_old junk m v (length seen) vals h.0 mark) (rw second),
        after,
      )
  | inr fresh ↦
      let longer = length-insert_new v seen fresh in
      let (events, seen', vals', first, second, after) =
        agree junk m xs (insert v tt seen) (set vals v 1) h.1 (mark_new m v seen vals h.0 marked) in
      let mark : get_elem? vals v ≡ some 0 = marked.marks v h.0 ∙ rw fresh refl in
      let count : length seen + 1 ≡ length (insert v tt seen) = omega arith in
      (
        added (length seen + 1) ∷ updated (length seen) (length seen + 1) ∷ events,
        seen',
        vals',
        rw (unique_new junk v seen longer) (rw first),
        rw (unique_max_new junk m v (length seen) vals h.0 mark) (rw (rw (← count) at second)),
        after,
      )
]

-- On values below its size, ProcessorUniqueMax does what ProcessorUnique does: after any of them
-- both have made the same calls of onAddVal and onNew, neither has thrown, and the number that the
-- one keeps is the size of the set of the other.
pub unique_max_agrees :
    (junk max_size : ℕ) (values : List ℕ)
    → All (λ v. v < max_size) values
    → (events : List Event) × (seen : OrdMap (Unit {0})) × (vals : List ℕ) × (receive_all junk
          values new_unique
        ≡ ok (unique seen, events))
      × (receive_all junk values (new_unique_max max_size)
          ≡ ok (unique_max max_size (length seen) vals, events))
unfolding contains
unique_max_agrees junk max_size values h =
    let (events, seen, vals, first, second, _) =
      agree junk max_size values [] (replicate max_size 0) h (record {
        sorted = tt;
        size = length-replicate max_size 0;
        marks = λ k lt. get_elem?-replicate max_size k 0 lt;
      }) in
    (events, seen, vals, first, second)
