-- ===== src/Jobs/Rounds.antt =====
-- What a round of the scheduler does about one job, in the stores and in the job's record
-- (`Scheduler::tick` of src/platform/schedule.rs).
use toolsite.Common.{
  ℕ, ◌≤◌, ◌≡◌, refl, ◌∙◌, ap, Bool, true, false, Option, none, some, List, [], ◌∷◌, arith, Text,
  Assoc, lookup, modify, lookup-modify, map_option, IfSome, same, same_refl, Bool-cases, inl, inr,
}
use toolsite.Leases
use toolsite.Leases.{Lease, Rows, Taken, lease, held, full}
use toolsite.Jobs.{Job, since, begun, skipped}
use toolsite.Jobs.Turns.{since-begun, since-skipped}
use toolsite.Jobs.Site.{
  World, Gap, Jobs, Claimed, took, busy, slot, passed, pass_gap, claimed, claim, begin_at, skip_at,
  fire_turn, spawn_runs,
}
use toolsite.Jobs.Sides.{passed-Same, Claims, claim-Claims}
use toolsite.Jobs.Ticks.{Entry, Tick, idle, elsewhere, skips, runs, on_claim, on_fired, on_turn}

module _ (jobs : Jobs) (at : ℕ) where
  -- The job under a name, if it is still there, counts from `at` or later.
  abbrev pub Past : Text → Assoc Job → Type 0
  Past key records = IfSome (λ (j : Job). at ≤ since j at) (lookup key records)

  modified :
      (f : Job → Job) (o : Option Job)
      → ((j : Job) → at ≤ since (f j) at)
      → IfSome (λ (j : Job). at ≤ since j at) (map_option f o)
  modified f none h = tt
  modified f (some j) h = h j

  modify-Past :
      (k : Text) (f : Job → Job) (records : Assoc Job)
      → ((j : Job) → at ≤ since (f j) at)
      → Past k (modify k f records)
  modify-Past k f records h =
      rw (lookup-modify k k f records, same_refl k) (modified f (lookup k records) h)

  Past-modify :
      (key k : Text) (f : Job → Job) (records : Assoc Job)
      → ((j : Job) → at ≤ since (f j) at)
      → Past key records
      → Past key (modify k f records)
  Past-modify key k f records h p = elim (Bool-cases (same k key)) [
    | inl e ↦ rw (lookup-modify k key f records, e) (modified f (lookup key records) h)
    | inr e ↦ rw (lookup-modify k key f records, e) p
  ]

  -- What others do in the gaps removes jobs, adds them under new names or changes them, but sets none that
  -- counts from `at` or later back to before.
  abbrev pub NoneSetBack : List Gap → Type 0
  NoneSetBack [] = Unit
  NoneSetBack (g ∷ gaps) =
      ((key : Text) (records : Assoc Job) → Past key records → Past key (g.records records))
      × NoneSetBack gaps

  pub record Onward (w w' : World) : Type 0 where
    pub past : (key : Text) → Past key w.records → Past key w'.records
    pub calm : NoneSetBack w'.gaps

  stays : (w : World) → NoneSetBack w.gaps → Onward w w
  stays w c = record { past = λ key p. p; calm = c }

  after_that : (u v w : World) → Onward u v → Onward v w → Onward u w
  after_that u v w a b = record { past = λ key p. b.past key (a.past key p); calm = b.calm }

  passed-Onward : (w : World) → NoneSetBack w.gaps → Onward w (passed w)
  unfolding passed
  passed-Onward w c = from_gaps w.gaps refl c
    where
      from_gaps : (gaps : List Gap) → w.gaps ≡ gaps → NoneSetBack gaps → Onward w (pass_gap gaps w)
      from_gaps [] e c = record { past = λ key p. p; calm = rw e tt }
      from_gaps (g ∷ gaps) e c = record { past = λ key p. c.0 key w.records p; calm = c.1 }

  marked-Onward :
      (k : Text) (f : Job → Job) (w : World)
      → ((j : Job) → at ≤ since (f j) at)
      → NoneSetBack w.gaps
      → Onward w (record w { records = modify k f w.records })
  marked-Onward k f w h c = record { past = λ key p. Past-modify key k f w.records h p; calm = c }

  claim-Onward :
      (e : Entry) (w : World) → NoneSetBack w.gaps → Onward w (claim jobs e.app e.name w).1
  unfolding claim
  claim-Onward e w c = of_taken (
      Leases.acquire (passed w).leases (slot e.app e.name) (some (e.app, jobs.running_per_app))
        jobs.slot_ttl (passed w).clock)
    where
      of_taken : (t : Taken × Rows) → Onward w (claimed jobs e.app e.name (passed w) t).1
      of_taken (lease l, rows) =
          let o = passed-Onward w c in record { past = o.past; calm = o.calm }
      of_taken (held, rows) = let o = passed-Onward w c in record { past = o.past; calm = o.calm }
      of_taken (full n, rows) = let o = passed-Onward w c in record { past = o.past; calm = o.calm }

  abbrev pub Marked : Tick → Type 0 → Type 0
  Marked idle P = Unit
  Marked elsewhere P = Unit
  Marked skips P = P
  Marked (runs l) P = P

  abbrev pub run_of : Tick → List Lease → List Lease
  run_of (runs l) before = l ∷ before
  run_of t before = before

  -- What an outcome says of the caller's side and of the job's record.
  pub record Does (e : Entry) (w : World) (t : Tick) (w' : World) : Type 0 where
    pub holds : w'.holds ≡ w.holds
    pub runs : w'.runs ≡ run_of t w.runs
    pub onward : Onward w w'
    pub marked : Marked t (Past (slot e.app e.name) w'.records)

  on_claim-Does :
      (e : Entry) (w : World) (got : Claimed) (v : World)
      → Claims jobs e.app e.name w got v
      → Onward w v
      → Does e w (on_claim jobs at e got v).0 (on_claim jobs at e got v).1
  unfolding on_claim spawn_runs begin_at skip_at
  on_claim-Does e w (took l) v k o =
      let s = passed-Same v in
      let p = passed-Onward v o.calm in
      let m =
        marked-Onward (slot e.app e.name) (begun at) (passed v) (λ j. since-begun j at) p.calm in
      record {
        holds = omega (arith, s.holds, k.0);
        runs = ap (λ (x : List Lease). l ∷ x) (s.runs ∙ k.2);
        onward = record { past = λ key q. m.past key (p.past key (o.past key q)); calm = p.calm };
        marked =
            modify-Past (slot e.app e.name) (begun at) (passed v).records (λ j. since-begun j at);
      }
  on_claim-Does e w (busy why) v k o =
      let s = passed-Same v in
      let p = passed-Onward v o.calm in
      let m =
        marked-Onward (slot e.app e.name) (skipped at) (passed v) (λ j. since-skipped j at)
          p.calm in
      record {
        holds = s.holds ∙ k.holds;
        runs = s.runs ∙ k.runs;
        onward = record { past = λ key q. m.past key (p.past key (o.past key q)); calm = p.calm };
        marked =
            modify-Past (slot e.app e.name) (skipped at) (passed v).records
              (λ j. since-skipped j at);
      }

  on_fired-Does :
      (e : Entry) (w : World) (won : Bool)
      → NoneSetBack w.gaps
      → Does e w (on_fired jobs at e won w).0 (on_fired jobs at e won w).1
  unfolding on_fired
  on_fired-Does e w false c = record { holds = refl; runs = refl; onward = stays w c; marked = tt }
  on_fired-Does e w true c =
      on_claim-Does e w _ _ (claim-Claims jobs e.app e.name w) (claim-Onward e w c)

  Does-later :
      (e : Entry) (w v : World) (t : Tick) (w' : World)
      → v.holds ≡ w.holds
      → v.runs ≡ w.runs
      → Onward w v
      → Does e v t w'
      → Does e w t w'
  Does-later e w v t w' h r o d = record {
    holds = d.holds ∙ h;
    runs = d.runs ∙ ap (λ x. run_of t x) r;
    onward = after_that w v w' o d.onward;
    marked = d.marked;
  }

  pub on_turn-Does :
      (e : Entry) (o : Option ℕ) (w : World)
      → NoneSetBack w.gaps
      → Does e w (on_turn jobs at e o w).0 (on_turn jobs at e o w).1
  unfolding fire_turn
  on_turn-Does e none w c = record { holds = refl; runs = refl; onward = stays w c; marked = tt }
  on_turn-Does e (some due) w c =
      let s = passed-Same w in
      let p = passed-Onward w c in
      let (won, v) = fire_turn jobs e.app e.name due w in
      Does-later e w v _ _ s.holds s.runs (record { past = p.past; calm = p.calm })
        (on_fired-Does e v won p.calm)
