-- ===== src/Sensor/FlowTrace/Ring.antt =====
-- The ring of three callers, which FlowtraceSensor has, as the list of the last three.
use mathlib.Core.List.{reverse-cons}
use vfuzz.Prelude.{
  ℕ, zero, suc, ◌+◌, ◌≤◌, ◌<◌, ◌≡◌, refl, sym, ◌∙◌, ap, List, [], ◌∷◌, ◌++◌, length, take, reverse,
  append_assoc, length-append, take-take_le, arith,
}
use vfuzz.Sensor.FlowTrace.{FlowTracker, add, reset, get_track, add_all}

-- A tracker of three callers.
abbrev pub ring : ℕ → ℕ → ℕ → ℕ → FlowTracker
ring a b c i = record { callers = a ∷ b ∷ c ∷ []; index = i }

-- Add keeps a ring of three a ring of three, puts the caller before the track and drops the oldest.
abbrev Pushed : ℕ → FlowTracker → Type 0
Pushed pc t =
    (a b c i : ℕ) × (add pc t ≡ ring a b c i)
    × (i < 3)
    × (get_track (ring a b c i) ≡ pc ∷ take 2 (get_track t))

push : (pc a b c i : ℕ) → i < 3 → Pushed pc (ring a b c i)
unfolding add get_track
push pc a b c zero h = (a, pc, c, 1, refl, omega arith, refl)
push pc a b c (suc zero) h = (a, b, pc, 2, refl, omega arith, refl)
push pc a b c (suc (suc zero)) h = (pc, b, c, 0, refl, omega arith, refl)
push pc a b c (suc (suc (suc i))) h = absurd (omega arith)

take-append-take :
    {A : Type 0} (n m : ℕ) (xs ys : List A)
    → n ≤ length xs + m
    → take n (xs ++ take m ys) ≡ take n (xs ++ ys)
take-append-take n m [] ys h = take-take_le n m ys (omega arith)
take-append-take zero m (x ∷ xs) ys h = refl
take-append-take (suc n) m (x ∷ xs) ys h = ap (◌∷◌ x) (take-append-take n m xs ys (omega arith))

track_step :
    (pc : ℕ) (pcs track : List ℕ)
    → take 3 (reverse pcs ++ (pc ∷ take 2 track)) ≡ take 3 (reverse (pc ∷ pcs) ++ track)
track_step pc pcs track =
    let xs = reverse pcs ++ (pc ∷ []) in
    let e : reverse pcs ++ (pc ∷ take 2 track) ≡ xs ++ take 2 track = simp append_assoc in
    let many : 3 ≤ length xs + 2 = omega (arith, length-append (reverse pcs) (pc ∷ [])) in
    ap (take 3) e ∙ take-append-take 3 2 xs track many ∙ rw reverse-cons refl

whole : (a b c i : ℕ) → i < 3 → take 3 (get_track (ring a b c i)) ≡ get_track (ring a b c i)
unfolding get_track
whole a b c zero h = refl
whole a b c (suc zero) h = refl
whole a b c (suc (suc zero)) h = refl
whole a b c (suc (suc (suc i))) h = absurd (omega arith)

zeros : (i : ℕ) → i < 3 → get_track (ring 0 0 0 i) ≡ 0 ∷ 0 ∷ 0 ∷ []
unfolding get_track
zeros zero h = refl
zeros (suc zero) h = refl
zeros (suc (suc zero)) h = refl
zeros (suc (suc (suc i))) h = absurd (omega arith)

add_all-get_track :
    (pcs : List ℕ) (a b c i : ℕ)
    → i < 3
    → get_track (add_all pcs (ring a b c i)) ≡ take 3 (reverse pcs ++ get_track (ring a b c i))
unfolding add_all
add_all-get_track [] a b c i h = sym (whole a b c i h)
add_all-get_track (pc ∷ pcs) a b c i h =
    let (a', b', c', i', pushed, h', track) = push pc a b c i h in
    rw pushed (
      add_all-get_track pcs a' b' c' i' h'
      ∙ ap (λ t. take 3 (reverse pcs ++ t)) track
      ∙ track_step pc pcs (get_track (ring a b c i)))

-- In a ring of three whose index lies in it, after Reset and any calls of Add, GetTrack gives the
-- last three callers since Reset, the latest first, filled up with zeros.
pub reset-get_track :
    (pcs : List ℕ) (a b c i : ℕ)
    → i < 3
    → get_track (add_all pcs (reset (ring a b c i))) ≡ take 3 (reverse pcs ++ (0 ∷ 0 ∷ 0 ∷ []))
unfolding reset
reset-get_track pcs a b c i h =
    add_all-get_track pcs 0 0 0 i h ∙ ap (λ t. take 3 (reverse pcs ++ t)) (zeros i h)
