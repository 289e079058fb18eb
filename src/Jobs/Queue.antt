-- ===== src/Jobs/Queue.antt =====
-- Runs behind a run: `run_once`, `run_queued` and `run_job` of src/platform/schedule.rs. What the app's
-- handler answers is an argument; none where the app has no handler. The renewals of the slot while a run
-- goes are another task's: they are among what others do.
use toolsite.Common.{
  ℕ, zero, suc, ◌+◌, ◌-◌, ◌/◌, Bool, true, false, Option, none, some, Text, lookup, modify,
}
use toolsite.Leases.{Lease}
use toolsite.Jobs.{Job}
use toolsite.Jobs.Site.{
  World, M, ◌>>=◌, ◌>>◌, pure, Jobs, running, app, Claimed, took, busy, slot, passed, ask_again,
  claim, again_or_release, begin, spawn_runs,
}

-- `update`, at the end of a run.
abbrev pub finished : ℕ → ℕ → Text → Job → Job
finished started_ms finished_ms status job = record job {
  last_run = some (finished_ms / 1000);
  last_finished_at = some (finished_ms / 1000);
  last_duration_ms = some (finished_ms - started_ms);
  last_status = some status;
}

pub data Ran : Type 0 where
  ended : Option Text → Ran
  queued no_job changed_hands : Ran
  too_many : ℕ → Ran

module _ (jobs : Jobs) (app_name name : Text) (handler : Option Text) where
  abbrev pub ran : World → World → Option Job → Option Text → Option Text × World
  ran w w' none status = (none, w)
  ran w w' (some job) none = (none, w)
  ran w w' (some job) (some status) = (
    some status,
    record w' {
      records = modify (slot app_name name) (finished w.clock w'.clock status) w'.records;
    },
  )

  -- The status, or none where there was nothing to run; others go on while it runs.
  unfoldable pub run_once : M (Option Text)
  run_once w = ran w (passed w) (lookup (slot app_name name) w.records) handler

  abbrev pub next_run : ℕ → Option ℕ → Option ℕ
  next_run n none = none
  next_run n (some k) = some (k + n)

  -- How many runs there were, or none where the fuel ran out.
  module _ (l : Lease) where
    abbrev pub go_on : M (Option ℕ) → Bool → M (Option ℕ)
    go_on rest false = pure (some 0)
    go_on rest true = do begin jobs app_name name; run_once; k ← rest; pure (next_run 1 k)

    unfoldable pub run_queued : ℕ → M (Option ℕ)
    run_queued zero = pure none
    run_queued (suc fuel) = do
      more ← again_or_release jobs app_name name l
      go_on (run_queued fuel) more

  abbrev pub settle : Lease → Option Text → Bool → M Ran
  settle l outcome false = pure (ended outcome)
  settle l outcome true = do
    begin jobs app_name name
    spawn_runs jobs app_name name l
    pure (ended outcome)

  module _ (rest : M Ran) where
    abbrev pub on_asked : Option Bool → M Ran
    on_asked none = rest
    on_asked (some old) = pure queued

    unfoldable pub on_claim : Claimed → M Ran
    unfolding run_once
    on_claim (took l) = do
      begin jobs app_name name
      outcome ← run_once
      more ← again_or_release jobs app_name name l
      settle l outcome more
    on_claim (busy running) = do answer ← ask_again jobs app_name name; on_asked answer
    on_claim (busy (app n)) = pure (too_many n)

  unfoldable pub person_rounds : ℕ → M Ran
  unfolding on_claim
  person_rounds zero = pure changed_hands
  person_rounds (suc n) = do got ← claim jobs app_name name; on_claim (person_rounds n) got

  abbrev pub if_known : Option Job → M Ran
  if_known none = pure no_job
  if_known (some job) = person_rounds 8

  unfoldable pub run_job : M Ran
  unfolding person_rounds
  run_job w = if_known (lookup (slot app_name name) w.records) w
