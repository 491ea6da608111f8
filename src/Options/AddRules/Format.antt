-- ===== src/Options/AddRules/Format.antt =====
-- The text of an add rule, as addrules.md describes it, and what the parser asks of the functions
-- of boost.
use vfuzz.Prelude.{
  ℕ, ◌≡◌, refl, ap, Bool, false, List, [], ◌∷◌, ◌++◌, map, Option, some, All, All-append, ◌==◌,
  if◌then◌else◌,
}
use vfuzz.OrdMap.{OrdMap}
use vfuzz.Codec.Words.{IsU64}
use vfuzz.Util.History.{Text}
use vfuzz.Util.Text.{remove_whitespace, to_lowercase, is_space, to_lower, to_string}
use vfuzz.Options.AddRules.{Constraint, sensor, generator}

-- The parts with the delimiter between them.
abbrev pub join : ℕ → List Text → Text
join d [] = []
join d (p ∷ []) = p
join d (p ∷ q ∷ parts) = p ++ (d ∷ join d (q ∷ parts))

abbrev pub IsFree : ℕ → Text → Type 0
IsFree d s = All (λ c. (c == d) ≡ false) s

-- Split finds the parts again that a delimiter joins and that are free of it.
abbrev pub IsSplit : (ℕ → Text → List Text) → Type 0
IsSplit split =
    (d : ℕ) (p : Text) (parts : List Text)
    → All (IsFree d) (p ∷ parts)
    → split d (join d (p ∷ parts)) ≡ p ∷ parts

-- The conversion reads the decimal digits of a number of 64 bits.
abbrev pub IsCast : (Text → Option ℕ) → Type 0
IsCast cast = (n : ℕ) → IsU64 n → cast (to_string n) ≡ some n

abbrev pub print_sign : Bool → Text
print_sign b = if b then 33 ∷ [] else []

abbrev pub print_constraint : Constraint → Text
print_constraint (sensor b sid) = print_sign b ++ (115 ∷ to_string sid)
print_constraint (generator b gid) = print_sign b ++ (103 ∷ to_string gid)

abbrev pub print_rewrite : ℕ × ℕ → Text
print_rewrite (from, to) = join 61 (to_string from ∷ to_string to ∷ [])

-- `constraintset|selectorset|rewriteruleset`
abbrev pub print_rule : List Constraint → List ℕ → OrdMap ℕ → Text
print_rule cs gids mapping = join 124 (
    join 44 (map print_constraint cs)
    ∷ join 44 (map to_string gids)
    ∷ join 44 (map print_rewrite mapping)
    ∷ [])

-- What whitespace removal and the lower case leave alone.
abbrev pub IsPlain : ℕ → Type 0
IsPlain c = (is_space c ≡ false) × (to_lower c ≡ c)

pub remove_whitespace_plain : (s : Text) → All IsPlain s → remove_whitespace s ≡ s
unfolding remove_whitespace
remove_whitespace_plain [] h = refl
remove_whitespace_plain (c ∷ s) h = rw h.0.0 (ap (◌∷◌ c) (remove_whitespace_plain s h.1))

pub to_lowercase_plain : (s : Text) → All IsPlain s → to_lowercase s ≡ s
unfolding to_lowercase
to_lowercase_plain [] h = refl
to_lowercase_plain (c ∷ s) h = rw h.0.1 (ap (◌∷◌ c) (to_lowercase_plain s h.1))

pub join-All :
    (P : ℕ → Type 0) (d : ℕ) (parts : List Text) → P d → All (All P) parts → All P (join d parts)
join-All P d [] h k = tt
join-All P d (p ∷ []) h k = k.0
join-All P d (p ∷ q ∷ parts) h k =
    All-append P p (d ∷ join d (q ∷ parts)) k.0 (h, join-All P d (q ∷ parts) h k.1)
