-- ===== src/Jobs/Sides.antt =====
-- What the calls of src/platform/schedule.rs leave on the caller's side, whatever others do to the stores
-- between them: the slots it holds, the starts it counted and the runs it set going.
use toolsite.Common.{
  ℕ, ◌+◌, ◌-◌, ◌≡◌, refl, Bool, true, false, Option, none, some, List, [], ◌∷◌, arith, Text,
  lookup-modify,
}
use toolsite.Leases
use toolsite.Leases.{Lease, Rows, Taken, lease, held, full, Ended, again, released, lost}
use toolsite.Rate.{Outcome, spent, refused}
use toolsite.Jobs.Site.{
  World, Gap, Jobs, Claimed, took, busy, slot, passed, pass_gap, claimed, settled, counts, Spends,
  slot_state, ask_again, claim, again_or_release, count_start, begin,
}

-- What the caller did so far is the same.
pub record Same (w w' : World) : Type 0 where
  pub counted : w'.counted ≡ w.counted
  pub holds : w'.holds ≡ w.holds
  pub runs : w'.runs ≡ w.runs

pub passed-Same : (w : World) → Same w (passed w)
unfolding passed
passed-Same w = from_gaps w.gaps
  where
    from_gaps : (gaps : List Gap) → Same w (pass_gap gaps w)
    from_gaps [] = record { counted = refl; holds = refl; runs = refl }
    from_gaps (g ∷ gaps) = record { counted = refl; holds = refl; runs = refl }

-- A request that was taken is there.
ask_again-state :
    (rows : Rows) (name : Text) (now : ℕ) (old : Bool)
    → (Leases.ask_again rows name now).0 ≡ some old
    → Leases.state (Leases.ask_again rows name now).1 name now ≡ some true
unfolding Leases.ask_again Leases.state
ask_again-state rows name now old h = ground (arith, lookup-modify name name Leases.asked rows)

module _ (jobs : Jobs) (app_name name : Text) where
  pub slot_state-Same : (w : World) → Same w (slot_state jobs app_name name w).1
  unfolding slot_state
  slot_state-Same w = passed-Same w

  pub slot_state-is :
      (w : World)
      → Leases.state
          (slot_state jobs app_name name w).1.leases
          (slot app_name name)
          (slot_state jobs app_name name w).1.clock
        ≡ (slot_state jobs app_name name w).0
  unfolding slot_state
  slot_state-is w = refl

  pub ask_again-Same : (w : World) → Same w (ask_again jobs app_name name w).1
  unfolding ask_again
  ask_again-Same w =
      let s = passed-Same w in record { counted = s.counted; holds = s.holds; runs = s.runs }

  pub ask_again-there :
      (w : World) (old : Bool)
      → (ask_again jobs app_name name w).0 ≡ some old
      → Leases.state
          (ask_again jobs app_name name w).1.leases
          (slot app_name name)
          (ask_again jobs app_name name w).1.clock
        ≡ some true
  unfolding ask_again
  ask_again-there w old e =
      ask_again-state (passed w).leases (slot app_name name) (passed w).clock old e

  pub begin-Same : (w : World) → Same w (begin jobs app_name name w).1
  unfolding begin
  begin-Same w =
      let s = passed-Same w in record { counted = s.counted; holds = s.holds; runs = s.runs }

  -- What a claim does to the caller's side.
  abbrev pub Claims : World → Claimed → World → Type 0
  Claims w (took l) w' = (w'.holds ≡ w.holds + 1) × (w'.counted ≡ w.counted) × (w'.runs ≡ w.runs)
  Claims w (busy why) w' = Same w w'

  claimed-Claims :
      (w v : World) (t : Taken × Rows)
      → Same w v
      → Claims w (claimed jobs app_name name v t).0 (claimed jobs app_name name v t).1
  claimed-Claims w v (lease l, rows) s = (omega (arith, s.holds), s.counted, s.runs)
  claimed-Claims w v (held, rows) s = record { counted = s.counted; holds = s.holds; runs = s.runs }
  claimed-Claims w v (full n, rows) s = record {
    counted = s.counted;
    holds = s.holds;
    runs = s.runs;
  }

  pub claim-Claims :
      (w : World) → Claims w (claim jobs app_name name w).0 (claim jobs app_name name w).1
  unfolding claim
  claim-Claims w = claimed-Claims w (passed w) _ (passed-Same w)

  abbrev pub GivesBack : World → Bool → World → Type 0
  GivesBack w true w' = Same w w'
  GivesBack w false w' = (w'.holds ≡ w.holds - 1) × (w'.counted ≡ w.counted) × (w'.runs ≡ w.runs)

  settled-GivesBack :
      (w v : World) (e : Ended × Rows)
      → Same w v
      → GivesBack w (settled jobs app_name name v e).0 (settled jobs app_name name v e).1
  settled-GivesBack w v (again, rows) s = record {
    counted = s.counted;
    holds = s.holds;
    runs = s.runs;
  }
  settled-GivesBack w v (released, rows) s = (omega (arith, s.holds), s.counted, s.runs)
  settled-GivesBack w v (lost, rows) s = (omega (arith, s.holds), s.counted, s.runs)

  pub again_or_release-GivesBack :
      (l : Lease) (w : World)
      → GivesBack w
          (again_or_release jobs app_name name l w).0
          (again_or_release jobs app_name name l w).1
  unfolding again_or_release
  again_or_release-GivesBack l w = settled-GivesBack w (passed w) _ (passed-Same w)

  abbrev pub Counts : World → Option ℕ → World → Type 0
  Counts w none w' = (w'.holds ≡ w.holds) × (w'.counted ≡ w.counted + 1) × (w'.runs ≡ w.runs)
  Counts w (some n) w' = Same w w'

  counts-Counts :
      (w v : World) (e : Outcome × Spends)
      → Same w v
      → Counts w (counts jobs app_name name v e).0 (counts jobs app_name name v e).1
  counts-Counts w v (spent, rates) s = (s.holds, omega (arith, s.counted), s.runs)
  counts-Counts w v (refused n, rates) s = record {
    counted = s.counted;
    holds = s.holds;
    runs = s.runs;
  }

  pub count_start-Counts :
      (w : World)
      → Counts w (count_start jobs app_name name w).0 (count_start jobs app_name name w).1
  unfolding count_start
  count_start-Counts w = counts-Counts w (passed w) _ (passed-Same w)
