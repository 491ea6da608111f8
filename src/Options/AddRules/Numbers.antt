-- ===== src/Options/AddRules/Numbers.antt =====
-- Functions that split and convert the way the parser asks it of boost's.
use vfuzz.Prelude.{
  ℕ, zero, suc, ◌+◌, ◌-◌, ◌*◌, ◌/◌, ◌%◌, ◌^◌, ◌≤◌, ◌<◌, ◌≡◌, refl, sym, ap, ◌∙◌, ◌&&◌, List, [],
  ◌∷◌, ◌++◌, Option, none, some, some_path, All, All-append, inl, inr, Bool-cases, ltb, leb, ◌==◌,
  if◌then◌else◌, arith, tests, length, length-append, append-nil, ==_refl,
}
use vfuzz.Util.History.{Text}
use vfuzz.Util.Text.{decimal, to_string}
use vfuzz.Options.AddRules.Format.{join, IsFree, IsSplit, IsCast}

-- The current part and the parts behind it.
abbrev split_from : ℕ → Text → List Text × Text
split_from d [] = ([], [])
split_from d (c ∷ s) =
    let (parts, p) = split_from d s in if c == d then (p ∷ parts, []) else (parts, c ∷ p)

abbrev pub split : ℕ → Text → List Text
split d s = let (parts, p) = split_from d s in p ∷ parts

split_from-free :
    (d : ℕ) (p s : Text)
    → IsFree d p
    → split_from d (p ++ s) ≡ ((split_from d s).0, p ++ (split_from d s).1)
split_from-free d [] s h = refl
split_from-free d (c ∷ p) s h = rw (split_from-free d p s h.1, h.0) refl

split_from-join :
    (d : ℕ) (p : Text) (parts : List Text)
    → All (IsFree d) (p ∷ parts)
    → split_from d (join d (p ∷ parts)) ≡ (parts, p)
split_from-join d p [] h =
    ap (split_from d) (sym (append-nil p)) ∙ split_from-free d p [] h.0 ∙ rw append-nil refl
split_from-join d p (q ∷ parts) h =
    split_from-free d p (d ∷ join d (q ∷ parts)) h.0
    ∙ rw (split_from-join d q parts h.1, ==_refl d, append-nil) refl

pub split-IsSplit : IsSplit split
split-IsSplit d p parts h = rw (split_from-join d p parts h) refl

abbrev pub IsDigit : ℕ → Type 0
IsDigit c = (48 ≤ c) × (c ≤ 57)

pub decimal-IsDigit : (k n : ℕ) → All IsDigit (decimal k n)
unfolding decimal
decimal-IsDigit zero n = tt
decimal-IsDigit (suc k) n = elim (Bool-cases (ltb n 10)) [
  | inl small ↦ rw small ((omega arith, omega (tests, small)), tt)
  | inr large ↦ rw large (
      All-append IsDigit (decimal k (n / 10)) ((48 + n % 10) ∷ []) (decimal-IsDigit k (n / 10))
        ((omega arith, omega arith), tt))
]

-- The number that the digits stand for behind those that were read.
abbrev value_from : ℕ → Text → Option ℕ
value_from n [] = some n
value_from n (c ∷ s) =
    let rest = value_from (10 * n + (c - 48)) s in if leb 48 c && leb c 57 then rest else none

abbrev pub cast : Text → Option ℕ
cast [] = none
cast (c ∷ s) = value_from 0 (c ∷ s)

value_from-end :
    (m v c : ℕ) (s : Text)
    → value_from m s ≡ some v
    → IsDigit c
    → value_from m (s ++ (c ∷ [])) ≡ some (10 * v + (c - 48))
value_from-end m v c [] e h = let same = some_path e in ground (arith, same, h)
value_from-end m v c (x ∷ s) e h = elim (Bool-cases (leb 48 x && leb x 57)) [
  | inl digit ↦ rw digit (value_from-end (10 * m + (x - 48)) v c s (rw digit at e) h)
  | inr other ↦ absurd (ground (arith, rw other at e))
]

value-decimal : (k n : ℕ) → n < 10 ^ k → value_from 0 (decimal k n) ≡ some n
unfolding decimal
value-decimal zero n h = ap some (omega arith)
value-decimal (suc k) n h = elim (Bool-cases (ltb n 10)) [
  | inl small ↦ rw small (
      value_from-end 0 0 (48 + n) [] refl (omega arith, omega (tests, small))
      ∙ ap some (omega arith))
  | inr large ↦
      let part = value-decimal k (n / 10) (omega arith) in
      let e : 10 * (n / 10) + (48 + n % 10 - 48) ≡ n = omega arith in
      rw large (
        value_from-end 0 (n / 10) (48 + n % 10) (decimal k (n / 10)) part (omega arith, omega arith)
        ∙ ap some e)
]

cast-value : (s : Text) → 0 < length s → cast s ≡ value_from 0 s
cast-value [] h = absurd (omega arith)
cast-value (c ∷ s) h = refl

decimal-some : (k n : ℕ) → 0 < length (decimal (suc k) n)
unfolding decimal
decimal-some k n = elim (Bool-cases (ltb n 10)) [
  | inl small ↦ rw small (omega arith)
  | inr large ↦ rw large (omega (arith, length-append (decimal k (n / 10)) ((48 + n % 10) ∷ [])))
]

pub cast-IsCast : IsCast cast
cast-IsCast n h =
    cast-value (to_string n) (decimal-some 19 n) ∙ value-decimal 20 n (omega (arith, h))
