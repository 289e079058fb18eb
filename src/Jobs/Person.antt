-- ===== src/Jobs/Person.antt =====
-- How a start of a job ends that a person asks for, beside one that its app asks for (`run_job` and
-- `start` of src/platform/schedule.rs).
use toolsite.Common.{
  ℕ, zero, suc, ◌+◌, ◌≡◌, refl, subst, ◌∙◌, ap, inl, inr, ◌⊎◌, Bool, true, false, Option, none,
  some, List, ◌∷◌, arith, Text, lookup,
}
use toolsite.Leases
use toolsite.Leases.{Lease}
use toolsite.Jobs.{Job}
use toolsite.Jobs.Site.{
  World, M, Jobs, running, app, Claimed, took, busy, slot, passed, begin, spawn_runs,
}
use toolsite.Jobs.Starts.{start}
use toolsite.Jobs.Sides.{
  Same, passed-Same, begin-Same, ask_again-Same, ask_again-there, Claims, claim-Claims, GivesBack,
  again_or_release-GivesBack,
}
use toolsite.Jobs.Settled.{Settles, start-Settles}
use toolsite.Jobs.Queue.{
  Ran, ended, queued, no_job, changed_hands, too_many, ran, run_once, settle, on_asked, on_claim,
  person_rounds, if_known, run_job,
}

module _ (jobs : Jobs) (app_name name : Text) (handler : Option Text) where
  abbrev SaysRan : World → Ran → World → Type 0
  SaysRan w (ended outcome) w' = (w'.runs ≡ w.runs) ⊎ ((l : Lease) × (w'.runs ≡ l ∷ w.runs))
  SaysRan w queued w' =
      (Leases.state w'.leases (slot app_name name) w'.clock ≡ some true) × (w'.runs ≡ w.runs)
  SaysRan w no_job w' = w'.runs ≡ w.runs
  SaysRan w changed_hands w' = w'.runs ≡ w.runs
  SaysRan w (too_many n) w' = w'.runs ≡ w.runs

  pub record SettlesRan (w : World) (r : Ran × World) : Type 0 where
    pub holds : r.1.holds ≡ w.holds
    pub uncounted : r.1.counted ≡ w.counted
    pub says : SaysRan w r.0 r.1

  SaysRan-later : (w v : World) (a : Ran) (w' : World) → Same w v → SaysRan v a w' → SaysRan w a w'
  SaysRan-later w v (ended o) w' s h =
      subst (λ (r : List Lease). (w'.runs ≡ r) ⊎ ((l : Lease) × (w'.runs ≡ l ∷ r))) s.runs h
  SaysRan-later w v queued w' s h = (h.0, h.1 ∙ s.runs)
  SaysRan-later w v no_job w' s h = h ∙ s.runs
  SaysRan-later w v changed_hands w' s h = h ∙ s.runs
  SaysRan-later w v (too_many n) w' s h = h ∙ s.runs

  SettlesRan-later : (w v : World) (r : Ran × World) → Same w v → SettlesRan v r → SettlesRan w r
  SettlesRan-later w v r s h = record {
    holds = h.holds ∙ s.holds;
    uncounted = h.uncounted ∙ s.counted;
    says = SaysRan-later w v r.0 r.1 s h.says;
  }

  run_once-Same : (w : World) → Same w (run_once jobs app_name name handler w).1
  unfolding run_once
  run_once-Same w = of_job (lookup (slot app_name name) w.records) handler
    where
      of_job :
          (o : Option Job) (s : Option Text)
          → Same w (ran jobs app_name name handler w (passed w) o s).1
      of_job none s = record { counted = refl; holds = refl; runs = refl }
      of_job (some job) none = record { counted = refl; holds = refl; runs = refl }
      of_job (some job) (some status) =
          let s = passed-Same w in record { counted = s.counted; holds = s.holds; runs = s.runs }

  -- The end of a person's run: the slot goes to a run that was asked for meanwhile, or is given back.
  settle-SettlesRan :
      (l : Lease) (o : Option Text) (w v : World) (more : Bool) (u : World)
      → (v.holds ≡ w.holds + 1)
      → (v.counted ≡ w.counted)
      → (v.runs ≡ w.runs)
      → GivesBack jobs app_name name v more u
      → SettlesRan w (settle jobs app_name name handler l o more u)
  unfolding spawn_runs
  settle-SettlesRan l o w v true u h c r g =
      let b = begin-Same jobs app_name name u in
      record {
        holds = omega (arith, b.holds, g.holds, h);
        uncounted = b.counted ∙ g.counted ∙ c;
        says = inr (l, ap (λ (x : List Lease). l ∷ x) (b.runs ∙ g.runs ∙ r));
      }
  settle-SettlesRan l o w v false u h c r g = record {
    holds = omega (arith, g.0, h);
    uncounted = g.1 ∙ c;
    says = inl (g.2 ∙ r);
  }

  module _ (rest : M Ran) (ih : (w : World) → SettlesRan w (rest w)) where
    on_asked-SettlesRan :
        (w : World) (o : Option Bool) (v : World)
        → Same w v
        → ((old : Bool)
            → o ≡ some old
            → Leases.state v.leases (slot app_name name) v.clock ≡ some true)
        → SettlesRan w (on_asked jobs app_name name handler rest o v)
    on_asked-SettlesRan w none v s h = SettlesRan-later w v (rest v) s (ih v)
    on_asked-SettlesRan w (some old) v s h = record {
      holds = s.holds;
      uncounted = s.counted;
      says = (h old refl, s.runs);
    }

    on_claim-SettlesRan :
        (w : World) (got : Claimed) (v : World)
        → Claims jobs app_name name w got v
        → SettlesRan w (on_claim jobs app_name name handler rest got v)
    unfolding on_claim
    on_claim-SettlesRan w (took l) v k =
        let b = (begin jobs app_name name v).1 in
        let (o, u) = run_once jobs app_name name handler b in
        let s = begin-Same jobs app_name name v in
        let t = run_once-Same b in
        settle-SettlesRan l o w u _ _ (omega (arith, t.holds, s.holds, k.0))
          (t.counted ∙ s.counted ∙ k.1) (t.runs ∙ s.runs ∙ k.2)
          (again_or_release-GivesBack jobs app_name name l u)
    on_claim-SettlesRan w (busy running) v k = SettlesRan-later w v _ k (
        on_asked-SettlesRan v _ _ (ask_again-Same jobs app_name name v)
          (ask_again-there jobs app_name name v))
    on_claim-SettlesRan w (busy (app n)) v k = record {
      holds = k.holds;
      uncounted = k.counted;
      says = k.runs;
    }

  person_rounds-SettlesRan :
      (n : ℕ) (w : World) → SettlesRan w (person_rounds jobs app_name name handler n w)
  unfolding person_rounds
  person_rounds-SettlesRan zero w = record { holds = refl; uncounted = refl; says = refl }
  person_rounds-SettlesRan (suc n) w =
      on_claim-SettlesRan (person_rounds jobs app_name name handler n) (person_rounds-SettlesRan n)
        w _ _ (claim-Claims jobs app_name name w)

  run_job-SettlesRan : (w : World) → SettlesRan w (run_job jobs app_name name handler w)
  unfolding run_job
  run_job-SettlesRan w = of_job (lookup (slot app_name name) w.records)
    where
      of_job : (o : Option Job) → SettlesRan w (if_known jobs app_name name handler o w)
      of_job none = record { holds = refl; uncounted = refl; says = refl }
      of_job (some job) = person_rounds-SettlesRan 8 w

  -- How a start ends, whatever others do to the stores between its calls. It holds no slot that it did
  -- not hold before: each that it took is given back or is a run's. A start by the app is counted
  -- against its rate, once at most, and one that a person asks for is not. "started": it was counted, and
  -- one run more is going. "queued", to either: right then the job runs and a request for one more run is
  -- with it; no run was set going. No such job, too many jobs at once, or a slot that changed hands at
  -- every try: no run was set going. Started too often, or a person's run that ended: nothing was
  -- counted, and at most one run was set going in the background.
  pub starts_settle :
      (w : World)
      → Settles jobs app_name name false w (start jobs app_name name w)
        × SettlesRan w (run_job jobs app_name name handler w)
  starts_settle w = (start-Settles jobs app_name name w, run_job-SettlesRan w)
