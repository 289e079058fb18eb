-- ===== src/Jobs/Site.antt =====
-- The site's shared state as the starts of jobs use it (src/platform/schedule.rs): the leases, the rates
-- and the job records, and what others do to them between two calls. A call of a store is one step on
-- what it finds; before each, the next of the `gaps` passes, in which the clock moves and others change
-- the stores in any way. The stores are those of memory, which do not fail.
use toolsite.Common.{
  ℕ, ◌+◌, ◌-◌, ◌/◌, Bool, true, false, Option, none, some, List, [], ◌∷◌, ◌++◌, Text, codes, Assoc,
  modify,
}
use toolsite.Leases
use toolsite.Leases.{Lease, lease, held, full, Taken, Ended, again, released, lost}
use toolsite.Rate
use toolsite.Rate.{Outcome, spent, refused}
use toolsite.Jobs.{Job, begun, skipped, fire}

abbrev pub Spends : Type 0
Spends = Assoc (List ℕ)

pub record Gap : Type 0 where
  pub now : ℕ
  pub later : ℕ
  pub leases : Leases.Rows → Leases.Rows
  pub rates : Spends → Spends
  pub turns : Assoc ℕ → Assoc ℕ
  pub records : Assoc Job → Assoc Job

-- With what the caller has done so far: the starts that it counted, the slots that it holds, and the
-- runs that it set going.
pub record World : Type 0 where
  pub leases : Leases.Rows
  pub rates : Spends
  pub turns : Assoc ℕ
  pub records : Assoc Job
  pub clock : ℕ
  pub later : ℕ
  pub gaps : List Gap
  pub counted : ℕ
  pub holds : ℕ
  pub runs : List Lease

abbrev pub M : Type 0 → Type 0
M A = World → A × World

infixl 5 ◌>>=◌ ◌>>◌
abbrev pub ◌>>=◌ : {A B : Type 0} → M A → (A → M B) → M B
◌>>=◌ m f w = let (a, w') = m w in f a w'

abbrev pub ◌>>◌ : {A B : Type 0} → M A → M B → M B
m >> k = m >>= λ _. k

abbrev pub pure : {A : Type 0} → A → M A
pure a w = (a, w)

-- `Jobs`, as far as starts read it: times in milliseconds.
pub record Jobs : Type 0 where
  pub starts_per_minute : ℕ
  pub running_per_app : ℕ
  pub slot_ttl : ℕ

-- Why a job's slot could not be taken.
pub data Busy : Type 0 where
  running : Busy
  app : ℕ → Busy

pub data Claimed : Type 0 where
  took : Lease → Claimed
  busy : Busy → Claimed

unfoldable pub slot : Text → Text → Text
slot app_name name = codes "job:" ++ (app_name ++ (codes "/" ++ name))

abbrev pub pass_gap : List Gap → World → World
pass_gap [] w = w
pass_gap (g ∷ gaps) w = record w {
  leases = g.leases w.leases;
  rates = g.rates w.rates;
  turns = g.turns w.turns;
  records = g.records w.records;
  clock = g.now;
  later = g.later;
  gaps = gaps;
}

unfoldable pub passed : World → World
passed w = pass_gap w.gaps w

module _ (jobs : Jobs) (app_name name : Text) where
  unfoldable pub slot_state : M (Option Bool)
  slot_state w = let w' = passed w in (Leases.state w'.leases (slot app_name name) w'.clock, w')

  unfoldable pub ask_again : M (Option Bool)
  ask_again w =
      let w' = passed w in
      let (answer, rows) = Leases.ask_again w'.leases (slot app_name name) w'.clock in
      (answer, record w' { leases = rows })

  abbrev pub claimed : World → Taken × Leases.Rows → Claimed × World
  claimed w (lease l, rows) = (took l, record w { leases = rows; holds = w.holds + 1 })
  claimed w (held, rows) = (busy running, record w { leases = rows })
  claimed w (full n, rows) = (busy (app n), record w { leases = rows })

  unfoldable pub claim : M Claimed
  claim w =
      let w' = passed w in
      claimed w' (
        Leases.acquire w'.leases (slot app_name name) (some (app_name, jobs.running_per_app))
          jobs.slot_ttl w'.clock)

  abbrev pub settled : World → Ended × Leases.Rows → Bool × World
  settled w (again, rows) = (true, record w { leases = rows })
  settled w (released, rows) = (false, record w { leases = rows; holds = w.holds - 1 })
  settled w (lost, rows) = (false, record w { leases = rows; holds = w.holds - 1 })

  unfoldable pub again_or_release : Lease → M Bool
  again_or_release l w =
      let w' = passed w in settled w' (Leases.again_or_release w'.leases l jobs.slot_ttl w'.clock)

  abbrev pub counts : World → Outcome × Spends → Option ℕ × World
  counts w (spent, rates) = (none, record w { rates = rates; counted = w.counted + 1 })
  counts w (refused count, rates) = (some count, record w { rates = rates })

  -- The count that was too much, or none.
  unfoldable pub count_start : M (Option ℕ)
  count_start w =
      let w' = passed w in
      counts w' (
        Rate.spend w'.rates (codes "job-starts:" ++ app_name) jobs.starts_per_minute 60000 w'.clock
          w'.later)

  unfoldable pub begin_at : ℕ → M (Unit {0})
  begin_at at w =
      let w' = passed w in
      (tt, record w' { records = modify (slot app_name name) (begun at) w'.records })

  -- With the present time.
  unfoldable pub begin : M (Unit {0})
  unfolding begin_at
  begin w = begin_at ((passed w).clock / 1000) w

  -- A turn that was not taken.
  unfoldable pub skip_at : ℕ → M (Unit {0})
  skip_at at w =
      let w' = passed w in
      (tt, record w' { records = modify (slot app_name name) (skipped at) w'.records })

  unfoldable pub fire_turn : ℕ → M Bool
  fire_turn due w =
      let w' = passed w in
      let (won, turns) = fire w'.turns (slot app_name name) due in
      (won, record w' { turns = turns })

  -- The run has the slot from here on.
  unfoldable pub spawn_runs : Lease → M (Unit {0})
  spawn_runs l w = (tt, record w { holds = w.holds - 1; runs = l ∷ w.runs })
