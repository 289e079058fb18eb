-- ===== src/Views/Apart.antt =====
-- The names that the platform keeps for itself, and those that an app's policies may give to views
-- (`validate` of src/runtime/access.rs).
use toolsite.Common.{
  ◌≡◌, ◌≢◌, refl, true, false, ◌++◌, arith, ◌==◌, Text, any, map, starts_with, All,
}
use native.Mathlib.Decide.{ℕ_discrete}
use toolsite.Views.{
  Database, Policy, ok, validate, valid_identifier, is_ts, inner_name, trigger_names, ts,
  to_lowercase,
}
use toolsite.Views.Scanner.{lower, eq_ignore_ascii_case}
use toolsite.Views.Moved.{lowercase_from-word, valid_identifier-word}

-- Not the same name to SQLite, which compares names without case.
abbrev pub Differ : Text → Text → Type 0
Differ view name = map lower name ≢ map lower view

ts-Differ :
    (rest view : Text)
    → valid_identifier view ≡ true
    → is_ts view ≡ false
    → Differ view (ts ++ rest)
unfolding to_lowercase ℕ_discrete
ts-Differ rest view v t e =
    let low = lowercase_from-word view (valid_identifier-word view v) in
    let q : starts_with (map lower view) ts ≡ true = rw (← e) refl in cc

record IsAccepted (p : Policy) : Type 0 where
  identifier : valid_identifier p.view ≡ true
  not_ts : is_ts p.view ≡ false
  not_table : eq_ignore_ascii_case p.view p.table ≡ false
  one_statement : any (λ c. c == 59) p.where_ ≡ false

validate-IsAccepted : (db : Database) (p : Policy) → validate db p ≡ ok tt → IsAccepted p
unfolding validate
validate-IsAccepted db p h = ground arith

-- The view of a policy that is accepted is none of the platform's own objects, whatever the salt and
-- whichever view these stand behind, no inner view and no trigger; nor is it the table; and its `where`
-- holds no semicolon.
pub accepted_names_apart :
    (db : Database) (p : Policy) (salt name : Text)
    → validate db p ≡ ok tt
    → Differ p.view (inner_name salt name)
      × All (Differ p.view) (trigger_names salt name)
      × (map lower p.table ≢ map lower p.view)
      × (any (λ c. c == 59) p.where_ ≡ false)
unfolding inner_name trigger_names
accepted_names_apart db p salt name h =
    let a = validate-IsAccepted db p h in
    let d = λ (rest : Text). ts-Differ rest p.view a.identifier a.not_ts in
    (d _, (d _, (d _, (d _, tt))), (λ e. let f : ⊥ = ground arith in f), a.one_statement)
