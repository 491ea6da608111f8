-- ===== src/Options/AddRules.antt =====
-- libvfuzz-runtime/src/options/addrules.h and addrules.cpp: the rules that say for which runs a
-- generator's data goes to another one. boost::split and boost::lexical_cast are parameters.
pub mod Format
pub mod Numbers
pub mod Characters
pub mod RoundTrip
pub mod Rules
pub mod Uses
use vfuzz.Prelude.{
  ℕ, zero, suc, ◌<◌, Bool, true, false, not, ◌&&◌, ◌||◌, List, [], ◌∷◌, Option, none, some, Result,
  ok, err, ◌>>=◌, construction, ◌==◌, if◌then◌else◌,
}
use vfuzz.OrdMap.{OrdMap, lookup, assign}
use vfuzz.Util.History.{Text}
use vfuzz.Util.Text.{remove_whitespace, to_lowercase}

-- SensorConstraint and GeneratorConstraint, with `invert` of Constraint. No limit is ever set.
pub data Constraint : Type 0 where
  sensor generator : Bool → ℕ → Constraint

-- The `test` of the two classes, which is not written yet
abbrev pub test : Constraint → Bool
test c = true

abbrev pub invert : Constraint → Bool
invert (sensor b sid) = b
invert (generator b gid) = b

-- Constraint::Test
unfoldable pub test_constraint : Constraint → Bool
test_constraint c = if not (invert c) then test c else not (test c)

-- `std::unique(begin, end) != end`, which compares neighbours
unfoldable pub have_duplicate : List ℕ → Bool
have_duplicate [] = false
have_duplicate (a ∷ []) = false
have_duplicate (a ∷ b ∷ gids) = (a == b) || have_duplicate (b ∷ gids)

-- Selector(gids), with validate
unfoldable pub new_selector : List ℕ → Result (List ℕ)
unfolding have_duplicate
new_selector gids = if have_duplicate gids then err construction else ok gids

-- `std::find(begin, end, gid) != end`
unfoldable pub has_gid : ℕ → List ℕ → Bool
has_gid gid [] = false
has_gid gid (g ∷ gids) = if g == gid then true else has_gid gid gids

-- The loop of RewriteRule::validate
unfoldable pub is_circular : OrdMap ℕ → Bool
is_circular [] = false
is_circular ((from, to) ∷ mapping) = if from == to then true else is_circular mapping

-- RewriteRule(mapping), with validate
unfoldable pub new_rewrite_rule : OrdMap ℕ → Result (OrdMap ℕ)
unfolding is_circular
new_rewrite_rule mapping = if is_circular mapping then err construction else ok mapping

-- RewriteRule::MapTo
unfoldable pub mapped : ℕ → OrdMap ℕ → ℕ
mapped gid mapping = elim (lookup gid mapping) [ none ↦ gid | some to ↦ to ]

pub record AddRule : Type 0 where
  pub constraint_set : Option (List Constraint)
  pub selector : Option (List ℕ)
  pub rewrite_rule : Option (OrdMap ℕ)

-- AddRule::Select
unfoldable pub select : ℕ → AddRule → Bool
unfolding has_gid
select gid r = elim r.selector [ none ↦ false | some gids ↦ has_gid gid gids ]

-- AddRule::MapTo
unfoldable pub map_to : ℕ → AddRule → ℕ
unfolding mapped
map_to gid r = elim r.rewrite_rule [ none ↦ gid | some mapping ↦ mapped gid mapping ]

-- A loop over the parts that appends what each stands for.
unfoldable pub each {ℓ} : {A : Type ℓ} → (Text → Result A) → List Text → Result (List A)
each f [] = ok []
each f (p ∷ parts) = do a ← f p; rest ← each f parts; ok (a ∷ rest)

-- util::string::Split with a delimiter of one character, and lexical_cast to an ID.
module _ (split : ℕ → Text → List Text) (lexical_cast : Text → Option ℕ) where
  -- An ID, with its bad_lexical_cast caught
  unfoldable pub id_of : Text → Result ℕ
  id_of p = elim (lexical_cast p) [ none ↦ err construction | some n ↦ ok n ]

  -- The body of the loop of constraintSetFromString past the exclamation mark
  unfoldable pub constraint_of_kind : Bool → Text → Result Constraint
  unfolding id_of
  constraint_of_kind b [] = err construction
  constraint_of_kind b (c ∷ p) =
      if c == 115
      then (do sid ← id_of p; ok (sensor b sid))
      else if c == 103
      then (do gid ← id_of p; ok (generator b gid))
      else err construction

  -- The body of the loop of constraintSetFromString
  unfoldable pub constraint_of : Text → Result Constraint
  unfolding constraint_of_kind
  constraint_of [] = constraint_of_kind false []
  constraint_of (c ∷ p) =
      if c == 33 then constraint_of_kind true p else constraint_of_kind false (c ∷ p)

  -- constraintSetFromString, past the splitting
  unfoldable pub constraint_set_of : List Text → Result (Option (List Constraint))
  unfolding constraint_of each
  constraint_set_of [] = ok none
  constraint_set_of (p ∷ parts) = do cs ← each constraint_of (p ∷ parts); ok (some cs)

  -- constraintSetFromString
  unfoldable pub constraint_set_from_string : Text → Result (Option (List Constraint))
  unfolding constraint_set_of
  constraint_set_from_string s = constraint_set_of (split 44 (to_lowercase (remove_whitespace s)))

  -- selectorFromString, past the splitting
  unfoldable pub selector_of : List Text → Result (Option (List ℕ))
  unfolding id_of each new_selector
  selector_of [] = ok none
  selector_of (p ∷ parts) = do
    gids ← each id_of (p ∷ parts)
    selector ← new_selector gids
    ok (some selector)

  -- selectorFromString
  unfoldable pub selector_from_string : Text → Result (Option (List ℕ))
  unfolding selector_of
  selector_from_string s = selector_of (split 44 s)

  -- The body of the loop of rewriteRuleFromString
  unfoldable pub rewrite_of : List Text → Result (ℕ × ℕ)
  unfolding id_of
  rewrite_of (p ∷ q ∷ []) = do from ← id_of p; to ← id_of q; ok (from, to)
  rewrite_of sub_parts = err construction

  -- The loop of rewriteRuleFromString
  unfoldable pub rewrites : OrdMap ℕ → List Text → Result (OrdMap ℕ)
  unfolding rewrite_of
  rewrites mapping [] = ok mapping
  rewrites mapping (p ∷ parts) = do
    (from, to) ← rewrite_of (split 61 p)
    rewrites (assign from to mapping) parts

  -- rewriteRuleFromString, past the splitting
  unfoldable pub rewrite_rule_of : List Text → Result (Option (OrdMap ℕ))
  unfolding rewrites new_rewrite_rule
  rewrite_rule_of [] = ok none
  rewrite_rule_of (p ∷ parts) = do
    mapping ← rewrites [] (p ∷ parts)
    rule ← new_rewrite_rule mapping
    ok (some rule)

  -- rewriteRuleFromString
  unfoldable pub rewrite_rule_from_string : Text → Result (Option (OrdMap ℕ))
  unfolding rewrite_rule_of
  rewrite_rule_from_string s = rewrite_rule_of (split 44 s)

  -- The end of AddRule(addRuleStr), by the number of its parts
  unfoldable pub from_parts : List Text → Result AddRule
  unfolding constraint_set_from_string selector_from_string rewrite_rule_from_string
  from_parts [] = err construction
  from_parts (p ∷ []) = do
    cs ← constraint_set_from_string p
    ok (record { constraint_set = cs; selector = none; rewrite_rule = none })
  from_parts (p ∷ q ∷ []) = do
    cs ← constraint_set_from_string p
    s ← selector_from_string q
    ok (record { constraint_set = cs; selector = s; rewrite_rule = none })
  from_parts (p ∷ q ∷ r ∷ []) = do
    cs ← constraint_set_from_string p
    s ← selector_from_string q
    rule ← rewrite_rule_from_string r
    ok (record { constraint_set = cs; selector = s; rewrite_rule = rule })
  from_parts (p ∷ q ∷ r ∷ x ∷ parts) = err construction

  -- AddRule(addRuleStr)
  unfoldable pub add_rule : Text → Result AddRule
  unfolding from_parts
  add_rule s = from_parts (split 124 (to_lowercase (remove_whitespace s)))
