-- ===== src/Tests/Rules.antt =====
-- An add rule with a constraint, a selector and a mapping, and a folder with a file of a cluster.
use vfuzz.Prelude.{
  ℕ, ◌≡◌, ◌≢◌, refl, true, false, [], ◌∷◌, some, ok, err, construction, All, ◌==◌, arith, inl, inr,
}
use vfuzz.OrdMap.{lookup}
use vfuzz.Util.History.{Text}
use vfuzz.Util.Text.{is_space, to_lower}
use vfuzz.Options.AddRules.{sensor, AddRule, add_rule, map_to, have_duplicate, is_circular}
use vfuzz.Options.AddRules.Format.{print_rule, join}
use vfuzz.Options.AddRules.Numbers.{split, cast, split-IsSplit, cast-IsCast}
use vfuzz.Options.AddRules.RoundTrip.{add_rule-print}
use vfuzz.Options.AddRules.Rules.{Yields, IsValid, add_rule-Yields}
use vfuzz.Options.AddRules.Uses.{map_to-moves, add_rule_empty_component}

abbrev rule : AddRule
rule = record {
  constraint_set = some (sensor true 1 ∷ []);
  selector = some (1 ∷ 2 ∷ []);
  rewrite_rule = some ((1, 2) ∷ []);
}

-- `!s1|1,2|1=2`
abbrev text : Text
text = print_rule (sensor true 1 ∷ []) (1 ∷ 2 ∷ []) ((1, 2) ∷ [])

different : have_duplicate (1 ∷ 2 ∷ []) ≡ false
unfolding have_duplicate
different = refl

open_end : is_circular ((1, 2) ∷ []) ≡ false
unfolding is_circular
open_end = refl

add_rule-print_example : add_rule split cast text ≡ ok rule
add_rule-print_example =
    add_rule-print split cast split-IsSplit cast-IsCast (sensor true 1) [] 1 (2 ∷ []) (1, 2) []
      (omega arith, tt) (omega arith, (omega arith, tt)) (omega arith, omega arith, tt) different
      (omega arith, tt) open_end

add_rule-Yields_example : Yields (IsValid split cast) (add_rule split cast text)
add_rule-Yields_example = add_rule-Yields split cast text

found : lookup {V = ℕ} 1 ((1, 2) ∷ []) ≡ some 2
unfolding lookup
found = refl

map_to-moves_example : (map_to 1 rule ≡ 2) × (◌≢◌ {A = ℕ} 2 1)
map_to-moves_example =
    map_to-moves split cast text rule ((1, 2) ∷ []) 1 2 add_rule-print_example refl found

plain_g1 :
    All
      (All (λ c. ((is_space c ≡ false) × (to_lower c ≡ c)) × ((c == 124) ≡ false)))
      ((103 ∷ 49 ∷ []) ∷ [] ∷ (49 ∷ 61 ∷ 50 ∷ []) ∷ [])
unfolding is_space to_lower
plain_g1 = (
  (((refl, refl), refl), (((refl, refl), refl), tt)),
  (tt, ((((refl, refl), refl), (((refl, refl), refl), (((refl, refl), refl), tt))), tt)),
)

-- `g1||1=2`
add_rule_empty_component_example :
    add_rule split cast (join 124 ((103 ∷ 49 ∷ []) ∷ [] ∷ (49 ∷ 61 ∷ 50 ∷ []) ∷ []))
    ≡ err construction
add_rule_empty_component_example =
    add_rule_empty_component split cast split-IsSplit refl (103 ∷ 49 ∷ []) [] (49 ∷ 61 ∷ 50 ∷ [])
      plain_g1 (inr (inl refl))
