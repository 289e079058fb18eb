-- ===== src/Jobs/Ticked.antt =====
-- What a round of the scheduler leaves behind (`Scheduler::tick` of src/platform/schedule.rs).
use toolsite.Common.{
  ℕ, ◌≡◌, true, false, Option, none, List, [], ◌∷◌, Text, Assoc, lookup, IfSome, is_some,
}
use toolsite.Leases.{Lease}
use toolsite.Jobs.{Cron, CronLaws, Job, is_due}
use toolsite.Jobs.Site.{Jobs, slot}
use toolsite.Jobs.Ticks.{Entry, Tick, idle, elsewhere, skips, runs}
use toolsite.Jobs.Rounds.{run_of}

module _ (jobs : Jobs) (at : ℕ) where
  module _ {S : Type 0} (cron : Cron S) (laws : CronLaws cron) where
    -- The job under a name is not due at `at`, if it is still there.
    abbrev pub NotDue : Text → Assoc Job → Type 0
    NotDue key records = IfSome (λ (j : Job). is_due cron j at ≡ false) (lookup key records)

    abbrev Outcome : Assoc Job → Entry → Tick → Type 0
    Outcome records e idle = is_due cron e.job at ≡ false
    Outcome records e elsewhere = is_due cron e.job at ≡ true
    Outcome records e skips = (is_due cron e.job at ≡ true) × NotDue (slot e.app e.name) records
    Outcome records e (runs l) = (is_due cron e.job at ≡ true) × NotDue (slot e.app e.name) records

    -- Job by job: one that the round did not touch was not due as listed, or another has its turn;
    -- one that it started or skipped is not due in these records.
    abbrev pub Settled : Assoc Job → List Entry → List Tick → Type 0
    Settled records [] [] = Unit
    Settled records (e ∷ listed) (t ∷ ticks) = Outcome records e t × Settled records listed ticks
    Settled records listed ticks = ⊥

    -- The slots of the runs that began, the last first, and those of before.
    abbrev pub begun_runs : List Tick → List Lease → List Lease
    begun_runs [] before = before
    begun_runs (t ∷ ticks) before = begun_runs ticks (run_of jobs at t before)

    abbrev Fits : Tick → Option ℕ → Type 0
    Fits idle o = o ≡ none
    Fits elsewhere o = is_some o ≡ true
    Fits skips o = is_some o ≡ true
    Fits (runs l) o = is_some o ≡ true
