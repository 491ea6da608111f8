-- ===== src/OrdMap/Laws.antt =====
-- Laws of the ordered map. Those that need the keys in order take `IsSortedFrom`.
use vfuzz.Prelude.{
  ℕ, suc, ◌≤◌, ◌<◌, ◌≡◌, refl, true, false, none, some, [], ◌∷◌, ◌++◌, ◌==◌, if◌then◌else◌, arith,
}
use vfuzz.OrdMap.{OrdMap, lookup, contains, insert, assign, erase}

-- The keys rise strictly, and none is below the bound.
abbrev pub IsSortedFrom {ℓ} : {V : Type ℓ} → ℕ → OrdMap V → Type 0
IsSortedFrom b [] = Unit {0}
IsSortedFrom b ((k, v) ∷ m) = (b ≤ k) × IsSortedFrom (suc k) m

abbrev pub IsSorted {ℓ} : {V : Type ℓ} → OrdMap V → Type 0
IsSorted m = IsSortedFrom 0 m

module _ {ℓ} {V : Type ℓ} where
  pub IsSortedFrom-mono : (b c : ℕ) (m : OrdMap V) → b ≤ c → IsSortedFrom c m → IsSortedFrom b m
  IsSortedFrom-mono b c [] h s = tt
  IsSortedFrom-mono b c ((k, v) ∷ m) h s = (omega arith, s.1)

  pub insert-IsSortedFrom :
      (b k : ℕ) (v : V) (m : OrdMap V) → b ≤ k → IsSortedFrom b m → IsSortedFrom b (insert k v m)
  unfolding insert
  insert-IsSortedFrom b k v [] h s = (h, tt)
  insert-IsSortedFrom b k v ((j, w) ∷ m) h s = ground (arith, insert-IsSortedFrom (suc j) k v m)

  pub assign-IsSortedFrom :
      (b k : ℕ) (v : V) (m : OrdMap V) → b ≤ k → IsSortedFrom b m → IsSortedFrom b (assign k v m)
  unfolding assign
  assign-IsSortedFrom b k v [] h s = (h, tt)
  assign-IsSortedFrom b k v ((j, w) ∷ m) h s = ground (arith, assign-IsSortedFrom (suc j) k v m)

  pub erase-IsSortedFrom : (b k : ℕ) (m : OrdMap V) → IsSortedFrom b m → IsSortedFrom b (erase k m)
  unfolding erase
  erase-IsSortedFrom b k [] s = tt
  erase-IsSortedFrom b k ((j, w) ∷ m) s =
      ground (arith, erase-IsSortedFrom (suc j) k m, IsSortedFrom-mono b (suc j) m)

  pub lookup_below : (b k : ℕ) (m : OrdMap V) → k < b → IsSortedFrom b m → lookup k m ≡ none
  unfolding lookup
  lookup_below b k [] h s = refl
  lookup_below b k ((j, w) ∷ m) h s = ground (arith, lookup_below (suc j) k m)

  pub lookup-assign :
      (k j : ℕ) (v : V) (m : OrdMap V)
      → lookup j (assign k v m) ≡ (if j == k then some v else lookup j m)
  unfolding lookup assign
  lookup-assign k j v [] = refl
  lookup-assign k j v ((i, w) ∷ m) = ground (arith, lookup-assign k j v m)

  -- An entry that is there is kept.
  pub lookup-insert_old :
      (b k j : ℕ) (v w : V) (m : OrdMap V)
      → IsSortedFrom b m
      → lookup k m ≡ some w
      → lookup j (insert k v m) ≡ lookup j m
  unfolding lookup insert
  lookup-insert_old b k j v w [] s h = cc
  lookup-insert_old b k j v w ((i, x) ∷ m) s h =
      ground (arith, lookup-insert_old (suc i) k j v w m, lookup_below (suc i) k m)

  pub lookup-insert_new :
      (k j : ℕ) (v : V) (m : OrdMap V)
      → lookup k m ≡ none
      → lookup j (insert k v m) ≡ (if j == k then some v else lookup j m)
  unfolding lookup insert
  lookup-insert_new k j v [] h = refl
  lookup-insert_new k j v ((i, x) ∷ m) h = ground (arith, lookup-insert_new k j v m)

  pub lookup-erase :
      (b k j : ℕ) (m : OrdMap V)
      → IsSortedFrom b m
      → lookup j (erase k m) ≡ (if j == k then none else lookup j m)
  unfolding lookup erase
  lookup-erase b k j [] s = ground arith
  lookup-erase b k j ((i, x) ∷ m) s =
      ground (arith, lookup-erase (suc i) k j m, lookup_below (suc i) k m)

  pub contains-lookup : (k : ℕ) (m : OrdMap V) (w : V) → lookup k m ≡ some w → contains k m ≡ true
  unfolding lookup contains
  contains-lookup k [] w h = cc
  contains-lookup k ((i, x) ∷ m) w h = ground (arith, contains-lookup k m w)

  pub contains-lookup-none : (k : ℕ) (m : OrdMap V) → lookup k m ≡ none → contains k m ≡ false
  unfolding lookup contains
  contains-lookup-none k [] h = refl
  contains-lookup-none k ((i, x) ∷ m) h = ground (arith, contains-lookup-none k m)

  IsSortedFrom-append :
      (b k : ℕ) (v : V) (m n : OrdMap V) → IsSortedFrom b (m ++ ((k, v) ∷ n)) → b ≤ k
  IsSortedFrom-append b k v [] n s = s.0
  IsSortedFrom-append b k v ((j, w) ∷ m) n s =
      omega (arith, IsSortedFrom-append (suc j) k v m n s.1, s.0)

  -- A key above all others goes to the end.
  pub insert_end :
      (b k : ℕ) (v x : V) (m n : OrdMap V)
      → IsSortedFrom b (m ++ ((k, v) ∷ n))
      → insert k x m ≡ m ++ ((k, x) ∷ [])
  unfolding insert
  insert_end b k v x [] n s = refl
  insert_end b k v x ((j, w) ∷ m) n s =
      ground (arith, insert_end (suc j) k v x m n s.1, IsSortedFrom-append (suc j) k v m n s.1)

  pub assign_end :
      (b k : ℕ) (v x : V) (m n : OrdMap V)
      → IsSortedFrom b (m ++ ((k, v) ∷ n))
      → assign k x m ≡ m ++ ((k, x) ∷ [])
  unfolding assign
  assign_end b k v x [] n s = refl
  assign_end b k v x ((j, w) ∷ m) n s =
      ground (arith, assign_end (suc j) k v x m n s.1, IsSortedFrom-append (suc j) k v m n s.1)

  pub contains_end :
      (b k : ℕ) (v : V) (m n : OrdMap V) → IsSortedFrom b (m ++ ((k, v) ∷ n)) → contains k m ≡ false
  unfolding contains
  contains_end b k v [] n s = refl
  contains_end b k v ((j, w) ∷ m) n s =
      ground (arith, contains_end (suc j) k v m n s.1, IsSortedFrom-append (suc j) k v m n s.1)
