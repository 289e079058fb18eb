-- ===== src/Jobs.antt =====
-- When the jobs of an app are due and who fires a turn: the planning of src/platform/schedule.rs, and
-- `fire` of src/platform/records/postgres.rs. Reading a cron expression is another library's work: a
-- parameter, with what the planning relies on in `CronLaws`. Times are Unix seconds, of which every
-- one has a calendar date.
mod Tests
pub mod Turns
pub mod Fired
pub mod Site
pub mod Starts
pub mod Sides
pub mod Settled
pub mod Ticks
pub mod Rounds
pub mod Ticked
pub mod Queue
pub mod Drained
pub mod Person
use toolsite.Common.{
  ℕ, suc, ◌+◌, ◌-◌, ◌*◌, ◌/◌, ◌≤◌, ◌<◌, ◌≡◌, Bool, true, false, Option, none, some, List, [], ◌∷◌,
  leb, ltb, max, min, if◌then◌else◌, Text, Assoc, lookup, insert, filter_option, ◌&&◌, is_some,
}

-- `Schedule::from_str`, and the first time after a moment and the last before it.
pub record Cron (S : Type 0) : Type 0 where
  pub parse : Text → Option S
  pub after : S → ℕ → Option ℕ
  pub before : S → ℕ → Option ℕ
  pub on : S → ℕ → Bool

pub record CronLaws {S : Type 0} (cron : Cron S) : Type 0 where
  pub after-on : (s : S) (t n : ℕ) → cron.after s t ≡ some n → (cron.on s n ≡ true) × (t < n)
  pub after-first :
      (s : S) (t m : ℕ) → cron.on s m ≡ true → t < m → (n : ℕ) × (cron.after s t ≡ some n) × (n ≤ m)
  pub before-on : (s : S) (t n : ℕ) → cron.before s t ≡ some n → (cron.on s n ≡ true) × (n < t)
  pub before-last :
      (s : S) (t m : ℕ)
      → cron.on s m ≡ true
      → m < t
      → (n : ℕ) × (cron.before s t ≡ some n) × (m ≤ n)

pub record Job : Type 0 where
  pub schedule : Text
  pub path : Text
  pub last_run : Option ℕ
  pub last_status : Option Text
  pub last_started_at : Option ℕ
  pub last_finished_at : Option ℕ
  pub last_duration_ms : Option ℕ
  pub last_skipped_at : Option ℕ

abbrev pub fallback_window : ℕ
fallback_window = 30

abbrev pub latest : Option ℕ → Option ℕ → Option ℕ
latest none o = o
latest (some a) none = some a
latest (some a) (some b) = some (if leb a b then b else a)

abbrev or_back : ℕ → Option ℕ → ℕ
or_back at none = at - fallback_window
or_back at (some t) = t

unfoldable pub since : Job → ℕ → ℕ
since job at = or_back at (latest job.last_run (latest job.last_started_at job.last_skipped_at))

-- `begin`, and the record of a skipped turn.
abbrev pub begun : ℕ → Job → Job
begun at job = record job { last_started_at = some at }

abbrev pub skipped : ℕ → Job → Job
skipped at job = record job { last_skipped_at = some at }

module _ {S : Type 0} (cron : Cron S) where
  abbrev pub next_of : Option S → ℕ → Option ℕ
  next_of none t = none
  next_of (some s) t = cron.after s t

  unfoldable pub next_due : Job → ℕ → Option ℕ
  unfolding since
  next_due job at = next_of (cron.parse job.schedule) (since job at)

  abbrev pub due_by : ℕ → Option ℕ → Bool
  due_by at none = false
  due_by at (some next) = leb next at

  unfoldable pub is_due : Job → ℕ → Bool
  unfolding next_due
  is_due job at = due_by at (next_due job at)

  abbrev pub last_of : Option S → ℕ → Option ℕ
  last_of none t = none
  last_of (some s) t = cron.before s t

  abbrev pub pick : ℕ → ℕ → Option ℕ → ℕ
  pick first at none = first
  pick first at (some latest) = if leb first latest && leb latest at then latest else first

  abbrev pub turn_from : Option S → ℕ → Option ℕ → Option ℕ
  turn_from none at first = none
  turn_from (some s) at none = none
  turn_from (some s) at (some first) = some (pick first at (cron.before s (at + 1)))

  unfoldable pub turn : Job → ℕ → Option ℕ
  unfolding is_due next_due
  turn job at =
      if is_due job at then turn_from (cron.parse job.schedule) at (next_due job at) else none

  -- `until_next`, in milliseconds, of the jobs that the records list.
  abbrev pub soonest : ℕ → List Job → Option ℕ
  soonest at [] = none
  soonest at (job ∷ jobs) = elim (next_due job at) [
    | none ↦ soonest at jobs
    | some n ↦ elim (soonest at jobs) [ none ↦ some n | some m ↦ some (min n m) ]
  ]

  unfoldable pub until_next : List Job → ℕ → ℕ
  unfolding next_due
  until_next jobs at_ms = elim (soonest (at_ms / 1000) jobs) [
    | none ↦ 60000
    | some next ↦ max 100 (min 60000 (next * 1000 - at_ms))
  ]

-- `platform.job_turns`, by job: the latest turn that was claimed.
unfoldable pub fire : Assoc ℕ → Text → ℕ → Bool × Assoc ℕ
fire turns job due_at = elim (lookup job turns) [
  | none ↦ (true, insert job due_at turns)
  | some claimed ↦ if ltb claimed due_at then (true, insert job due_at turns) else (false, turns)
]
