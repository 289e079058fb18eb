-- ===== src/Jobs/Ticks.antt =====
-- The scheduler's round: `Scheduler::tick` and `take_over` of src/platform/schedule.rs. What `all_jobs`
-- listed is an argument. The source answers the handles of the runs; here each job's outcome is
-- answered too.
use toolsite.Common.{
  ℕ, Bool, true, false, Option, none, some, List, [], ◌∷◌, ◌++◌, Text, codes, strip_prefix,
}
use toolsite.Leases
use toolsite.Leases.{Lease}
use toolsite.Jobs.{Cron, Job, turn}
use toolsite.Jobs.Site.{
  M, ◌>>=◌, ◌>>◌, pure, Jobs, Claimed, took, busy, slot, passed, claim, begin, begin_at, skip_at,
  fire_turn, spawn_runs,
}

pub record Entry : Type 0 where
  pub app : Text
  pub name : Text
  pub job : Job

-- What a round did about a job: it is not due, another scheduler has its turn, a run of it began, or
-- its turn was skipped.
pub data Tick : Type 0 where
  idle elsewhere skips : Tick
  runs : Lease → Tick

module _ (jobs : Jobs) (at : ℕ) where
  unfoldable pub on_claim : Entry → Claimed → M Tick
  on_claim e (took l) = do
    begin_at jobs e.app e.name at
    spawn_runs jobs e.app e.name l
    pure (runs l)
  on_claim e (busy why) = do skip_at jobs e.app e.name at; pure skips

  unfoldable pub on_fired : Entry → Bool → M Tick
  on_fired e false = pure elsewhere
  on_fired e true = do got ← claim jobs e.app e.name; on_claim e got

  abbrev pub on_turn : Entry → Option ℕ → M Tick
  on_turn e none = pure idle
  on_turn e (some due) = do won ← fire_turn jobs e.app e.name due; on_fired e won

  module _ {S : Type 0} (cron : Cron S) where
    unfoldable pub tick_jobs : List Entry → M (List Tick)
    tick_jobs [] = pure []
    tick_jobs (e ∷ listed) = do
      t ← on_turn e (turn cron e.job at)
      ts ← tick_jobs listed
      pure (t ∷ ts)

  -- An orphan's app and the job's name, where its group and its slot are those of a job.
  abbrev owed : Text × Option Text → Option (Text × Text)
  owed (l, none) = none
  owed (l, some app) = elim (strip_prefix l (slot app [])) [
    | none ↦ none
    | some name ↦ some (app, name)
  ]

  abbrev on_owed : Text → Text → Claimed → M (List Lease)
  on_owed app name (busy why) = pure []
  on_owed app name (took l) = do begin jobs app name; spawn_runs jobs app name l; pure (l ∷ [])

  abbrev take_one : Option (Text × Text) → M (List Lease)
  take_one none = pure []
  take_one (some (app, name)) = do got ← claim jobs app name; on_owed app name got

  unfoldable pub take_all : List (Text × Option Text) → M (List Lease)
  take_all [] = pure []
  take_all (o ∷ orphans) = do
    started ← take_one (owed o)
    more ← take_all orphans
    pure (started ++ more)

  abbrev orphans : M (List (Text × Option Text))
  orphans w = let w' = passed w in (Leases.orphans w'.leases (codes "job:") w'.clock, w')

  unfoldable pub take_over : M (List Lease)
  unfolding take_all
  take_over = do found ← orphans; take_all found

  unfoldable pub tick : {S : Type 0} → Cron S → List Entry → M (List Tick × List Lease)
  unfolding take_over tick_jobs
  tick cron listed = do ticks ← tick_jobs cron listed; more ← take_over; pure (ticks, more)
