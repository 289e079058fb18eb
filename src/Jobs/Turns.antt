-- ===== src/Jobs/Turns.antt =====
-- Which turn of a job is due (src/platform/schedule.rs, `is_due` and `turn`).
use toolsite.Common.{
  Option, ℕ, ◌≤◌, ◌<◌, ◌≡◌, true, false, none, some, arith, Option-cases, inl, inr,
}
use toolsite.Jobs.{Cron, CronLaws, Job, since, next_due, is_due, begun, skipped}

pub since-begun : (job : Job) (at : ℕ) → at ≤ since (begun at job) at
unfolding since
since-begun job at = ground arith

pub since-skipped : (job : Job) (at : ℕ) → at ≤ since (skipped at job) at
unfolding since
since-skipped job at = ground arith

module _ {S : Type 0} (cron : Cron S) (laws : CronLaws cron) where
  -- The turn of a schedule that is due at a time: the latest of its times up to then, and after `from`.
  pub record IsTurn (s : S) (from at t : ℕ) : Type 0 where
    pub on : cron.on s t ≡ true
    pub after_from : from < t
    pub by_now : t ≤ at
    pub last : (m : ℕ) → cron.on s m ≡ true → m ≤ at → m ≤ t

  due-eq :
      (job : Job) (s : S) (at m : ℕ)
      → cron.parse job.schedule ≡ some s
      → cron.on s m ≡ true
      → since job at < m
      → m ≤ at
      → is_due cron job at ≡ true
  unfolding is_due next_due
  due-eq job s at m p o l h =
      let (n, f, k) = laws.after-first s (since job at) m o l in ground (arith, p, f)

  -- Which turn of a schedule is due at a time, where all up to `from` is done: the one that is named, or
  -- none is waiting.
  abbrev pub WhichTurn : S → ℕ → ℕ → Option ℕ → Type 0
  WhichTurn s from at none = (m : ℕ) → cron.on s m ≡ true → m ≤ at → m ≤ from
  WhichTurn s from at (some t) = IsTurn s from at t

  -- Two that both name a turn name the same.
  abbrev pub Agree : Option ℕ → Option ℕ → Type 0
  Agree (some t) (some t') = t ≡ t'
  Agree a b = Unit {0}

  pub not_due : (job : Job) (at : ℕ) → at ≤ since job at → is_due cron job at ≡ false
  unfolding is_due next_due
  not_due job at h = elim (Option-cases (cron.parse job.schedule)) [
    | inl p ↦ ground (arith, p)
    | inr (s, p) ↦ elim (Option-cases (cron.after s (since job at))) [
      | inl f ↦ ground (arith, p, f)
      | inr (n, f) ↦ let (o, l) = laws.after-on s (since job at) n f in ground (arith, p, f)
    ]
  ]

  -- A job is due while a turn of it is waiting, and it stops being due as it is started or skipped: it
  -- is due at `at` if a time of its schedule after all it last did came by then, and neither once it
  -- is recorded as started at `at`, nor once it is recorded as skipped then.
  pub due_until_begun :
      (job : Job) (s : S) (at m : ℕ)
      → cron.parse job.schedule ≡ some s
      → cron.on s m ≡ true
      → since job at < m
      → m ≤ at
      → (is_due cron job at ≡ true)
        × (is_due cron (begun at job) at ≡ false)
        × (is_due cron (skipped at job) at ≡ false)
  due_until_begun job s at m p o l h = (
    due-eq job s at m p o l h,
    not_due (begun at job) at (since-begun job at),
    not_due (skipped at job) at (since-skipped job at),
  )
