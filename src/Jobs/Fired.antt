-- ===== src/Jobs/Fired.antt =====
-- Of all the claims of a job's turns, by any schedulers, one of each turn succeeds (`fire` of
-- src/platform/records/postgres.rs).
use toolsite.Common.{
  ℕ, ◌<◌, ◌&&◌, Option, none, some, List, [], ◌∷◌, arith, if◌then◌else◌, Text, same, Assoc, lookup,
  insert, lookup-insert,
}
use toolsite.Jobs.{fire}

-- Which turns of the job were fired, in order, by a sequence of claims of (job, turn).
unfoldable pub fired : Text → Assoc ℕ → List (Text × ℕ) → List ℕ
fired job turns [] = []
fired job turns ((j, due) ∷ claims) =
    let (won, turns') = fire turns j due in
    let rest = fired job turns' claims in if same j job && won then due ∷ rest else rest

-- Each later than `from` and than all before it.
abbrev pub IsRising : Option ℕ → List ℕ → Type 0
IsRising from [] = Unit
IsRising none (t ∷ ts) = IsRising (some t) ts
IsRising (some from) (t ∷ ts) = (from < t) × IsRising (some t) ts

-- The turns of a job that fire rise: no turn fires twice, and none that is older than one that fired,
-- whichever schedulers claim which turns of it in whatever order, and whatever claims of other jobs
-- come between; none is at or before the latest that the table holds at first.
pub fired-IsRising :
    (job : Text) (turns : Assoc ℕ) (claims : List (Text × ℕ))
    → IsRising (lookup job turns) (fired job turns claims)
unfolding fired fire
fired-IsRising job turns [] = tt
fired-IsRising job turns ((j, due) ∷ claims) = ground (
  arith,
  fired-IsRising job (insert j due turns) claims,
  fired-IsRising job turns claims,
  lookup-insert j job due turns,
)
