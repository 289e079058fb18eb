-- ===== src/Jobs/Tests.antt =====
-- Schedules of every ten seconds: the theorems on src/platform/schedule.rs applied there.
use toolsite.Common.{
  remove, ℕ, ◌+◌, ◌-◌, ◌*◌, ◌/◌, ◌%◌, ◌≡◌, refl, false, Option, none, some, List, [], ◌∷◌, arith,
  ◌==◌, if◌then◌else◌, Text, codes, lookup, insert, modify, text_discrete,
}
use toolsite.Jobs.{Cron, Job, since, next_due, is_due, turn, fire}
use toolsite.Leases
use toolsite.Leases.{Lease}
use toolsite.Rate
use native.Mathlib.Decide.{ℕ_discrete}
use toolsite.Jobs.Site.{
  Gap, World, Jobs, slot, passed, slot_state, claim, again_or_release, count_start, begin, begin_at,
  spawn_runs,
}
use toolsite.Jobs.Starts.{started, start, rounds, on_state, on_claim, count_unless}
use toolsite.Jobs.Settled.{Settles}
use toolsite.Jobs.Person.{SettlesRan, starts_settle}
use toolsite.Jobs.Queue.{run_once, run_queued, run_job}
use toolsite.Jobs.Drained.{Drains, run_queued-Drains}
use toolsite.Jobs.Ticks.{Entry, Tick, tick_jobs}
use toolsite.Jobs.Ticked.{Settled}
use toolsite.Jobs.Fired.{fired, IsRising, fired-IsRising}

abbrev tens : Cron Unit
tens = record {
  parse = λ text. some tt;
  after = λ s t. some ((t / 10) * 10 + 10);
  before = λ s t. if t == 0 then none else some (((t - 1) / 10) * 10);
  on = λ s m. m % 10 == 0;
}

abbrev job : Option ℕ → Job
job last = record {
  schedule = codes "*/10 * * * * *";
  path = codes "/tick";
  last_run = last;
  last_status = none;
  last_started_at = last;
  last_finished_at = last;
  last_duration_ms = none;
  last_skipped_at = none;
}

turn_after_outage : turn tens (job (some 12)) 57 ≡ some 50
unfolding turn is_due next_due since
turn_after_outage = refl

turn_as_read_late : turn tens (job (some 31)) 57 ≡ some 50
unfolding turn is_due next_due since
turn_as_read_late = refl

abbrev turn_time : ℕ
turn_time = 50

abbrev claims : List (Text × ℕ)
claims =
    (codes "a", 50) ∷ (codes "b", 50) ∷ (codes "a", 50) ∷ (codes "a", 40) ∷ (codes "a", 60) ∷ []

fired_twice : fired (codes "a") [] claims ≡ 50 ∷ 60 ∷ []
unfolding fired fire lookup insert text_discrete
fired_twice = refl

fired-IsRising_example : IsRising (lookup (codes "a") []) (fired (codes "a") [] claims)
fired-IsRising_example = fired-IsRising (codes "a") [] claims

-- A site with one job, and another runner that asks for it once and then lets it be.
abbrev limits : Jobs
limits = record { starts_per_minute = 600; running_per_app = 4; slot_ttl = 30000 }

abbrev farm : Text
farm = codes "farm"

abbrev hourly : Text
hourly = codes "hourly"

abbrev asking : Gap
asking = record {
  now = 1020000;
  later = 1020001;
  leases = λ rows. (Leases.ask_again rows (slot farm hourly) 1020000).1;
  rates = λ spends. spends;
  turns = λ turns. turns;
  records = λ records. records;
}

abbrev site : List Gap → World
site gaps = record {
  leases = [];
  rates = [];
  turns = [];
  records = (slot farm hourly, job (some 1005)) ∷ [];
  clock = 1010000;
  later = 1010001;
  gaps = gaps;
  counted = 0;
  holds = 0;
  runs = [];
}

starts_settle_example :
    Settles limits farm hourly false
      (site (asking ∷ []))
      (start limits farm hourly (site (asking ∷ [])))
    × SettlesRan limits farm hourly
        (some (codes "200"))
        (site (asking ∷ []))
        (run_job limits farm hourly (some (codes "200")) (site (asking ∷ [])))
starts_settle_example = starts_settle limits farm hourly (some (codes "200")) (site (asking ∷ []))

start_quiet : (start limits farm hourly (site [])).0 ≡ started
unfolding start rounds on_state on_claim slot_state claim count_unless count_start begin begin_at
    spawn_runs passed Leases.state Leases.acquire Leases.give Rate.spend Rate.spend_recent
    Rate.drop_old slot lookup insert modify text_discrete ℕ_discrete
start_quiet = refl

abbrev listed : List Entry
listed = record { app = farm; name = hourly; job = job (some 1005) } ∷ []

-- Meanwhile somebody removes another job.
abbrev removing : Gap
removing = record asking { records = λ records. remove (slot farm (codes "nightly")) records }

abbrev round : List Tick × World
round = tick_jobs limits 1010 tens listed (site (removing ∷ []))

-- A run that holds the slot, and one request behind it.
abbrev lease_now : Lease
lease_now = record { name = slot farm hourly; epoch = 1 }

abbrev held_site : World
held_site = record (site (asking ∷ [])) {
  leases = (Leases.acquire [] (slot farm hourly) (some (farm, 4)) 30000 1010000).1;
  holds = 1;
}

run_queued-Drains_example :
    Drains limits farm hourly
      (some (codes "200"))
      lease_now
      held_site
      2
      (run_queued limits farm hourly (some (codes "200")) lease_now 3 held_site)
run_queued-Drains_example =
    run_queued-Drains limits farm hourly (some (codes "200")) lease_now 3 held_site (omega arith)

two_runs : (run_queued limits farm hourly (some (codes "200")) lease_now 3 held_site).0 ≡ some 1
unfolding run_queued run_once again_or_release begin begin_at passed Leases.acquire Leases.give
    Leases.ask_again Leases.again_or_release slot lookup insert modify text_discrete ℕ_discrete
two_runs = refl
