-- ===== src/Jobs/Settled.antt =====
-- How a start of a job ends, whatever others do meanwhile (`start` of src/platform/schedule.rs).
use toolsite.Common.{
  ℕ, zero, suc, ◌+◌, ◌-◌, ◌≤◌, ◌≡◌, refl, subst, ◌∙◌, ap, inl, inr, ◌⊎◌, Bool, true, false, Option,
  none, some, List, ◌∷◌, arith, if◌then◌else◌, Text,
}
use toolsite.Leases
use toolsite.Leases.{Lease, Rows, Taken, lease, held, full, Ended, again, released, lost}
use toolsite.Jobs.Site.{World, M, Jobs, running, app, Claimed, took, busy, slot, spawn_runs}
use toolsite.Jobs.Starts.{
  Answer, started, queued, changed_hands, too_many, too_often, count_unless, run, given_back,
  after_claim, on_asked, on_counted, on_claim, on_state, rounds, start, tries,
}
use toolsite.Jobs.Sides.{
  Same, slot_state-Same, slot_state-is, ask_again-Same, ask_again-there, begin-Same, Claims,
  claim-Claims, GivesBack, again_or_release-GivesBack, Counts, count_start-Counts,
}

module _ (jobs : Jobs) (app_name name : Text) where
  -- What an answer says of what was set going, where a start was counted before, or not.
  abbrev Says : Bool → World → Answer → World → Type 0
  Says counted w started w' =
      (w'.counted + (if counted then 1 else 0) ≡ w.counted + 1)
      × ((l : Lease) × (w'.runs ≡ l ∷ w.runs))
  Says counted w queued w' =
      (Leases.state w'.leases (slot app_name name) w'.clock ≡ some true) × (w'.runs ≡ w.runs)
  Says counted w changed_hands w' = w'.runs ≡ w.runs
  Says counted w (too_many n) w' = w'.runs ≡ w.runs
  Says true w (too_often n) w' = ⊥
  Says false w (too_often n) w' =
      (w'.counted ≡ w.counted) × ((w'.runs ≡ w.runs) ⊎ ((l : Lease) × (w'.runs ≡ l ∷ w.runs)))

  pub record Settles (counted : Bool) (w : World) (r : Answer × World) : Type 0 where
    pub holds : r.1.holds ≡ w.holds
    pub at_most_one : r.1.counted + (if counted then 1 else 0) ≤ w.counted + 1
    pub says : Says counted w r.0 r.1

  Says-later :
      (c : Bool) (w v : World) (a : Answer) (w' : World) → Same w v → Says c v a w' → Says c w a w'
  Says-later c w v started w' s h = ground (arith, s.counted, s.runs)
  Says-later c w v queued w' s h = ground (arith, s.runs)
  Says-later c w v changed_hands w' s h = ground (arith, s.runs)
  Says-later c w v (too_many n) w' s h = ground (arith, s.runs)
  Says-later true w v (too_often n) w' s h = h
  Says-later false w v (too_often n) w' s h = (
    h.0 ∙ s.counted,
    subst (λ (r : List Lease). (w'.runs ≡ r) ⊎ ((l : Lease) × (w'.runs ≡ l ∷ r))) s.runs h.1,
  )

  Settles-later :
      (c : Bool) (w v : World) (r : Answer × World) → Same w v → Settles c v r → Settles c w r
  Settles-later c w v r s h = record {
    holds = h.holds ∙ s.holds;
    at_most_one = let b = h.at_most_one in omega (arith, s.counted);
    says = Says-later c w v r.0 r.1 s h.says;
  }

  -- What was counted in between is counted.
  Says-counted :
      (w v : World) (a : Answer) (w' : World)
      → Counts jobs app_name name w none v
      → Says true v a w'
      → Says false w a w'
  Says-counted w v started w' s h = ground (arith, s.1, s.2)
  Says-counted w v queued w' s h = ground (arith, s.2)
  Says-counted w v changed_hands w' s h = ground (arith, s.2)
  Says-counted w v (too_many n) w' s h = ground (arith, s.2)
  Says-counted w v (too_often n) w' s h = absurd h

  Settles-counted :
      (w v : World) (r : Answer × World)
      → Counts jobs app_name name w none v
      → Settles true v r
      → Settles false w r
  Settles-counted w v r s h = record {
    holds = h.holds ∙ s.0;
    at_most_one = let b = h.at_most_one in omega (arith, s.1);
    says = Says-counted w v r.0 r.1 s h.says;
  }

  -- A run that has the slot.
  pub run-Same :
      (l : Lease) (a : Answer) (w : World)
      → ((run jobs app_name name l a w).0 ≡ a)
        × ((run jobs app_name name l a w).1.holds ≡ w.holds - 1)
        × ((run jobs app_name name l a w).1.counted ≡ w.counted)
        × ((run jobs app_name name l a w).1.runs ≡ l ∷ w.runs)
  unfolding spawn_runs
  run-Same l a w =
      let s = begin-Same jobs app_name name w in
      (refl, ap (λ (n : ℕ). n - 1) s.holds, s.counted, ap (λ (r : List Lease). l ∷ r) s.runs)

  -- After a claim: the slot goes to a run, or is given back.
  counted_claim-Settles :
      (l : Lease) (w v : World)
      → Claims jobs app_name name w (took l) v
      → Settles true w (after_claim jobs app_name name l none v)
  counted_claim-Settles l w v k =
      let (_, h, c, r) = run-Same l started v in
      record {
        holds = omega (arith, h, k.0);
        at_most_one = omega (arith, c, k.1);
        says = (omega (arith, c, k.1), (l, r ∙ ap (λ (x : List Lease). l ∷ x) k.2));
      }

  given_back-Settles :
      (l : Lease) (n : ℕ) (w v : World) (more : Bool) (u : World)
      → Claims jobs app_name name w (took l) v
      → GivesBack jobs app_name name v more u
      → Settles false w (given_back jobs app_name name l n more u)
  given_back-Settles l n w v true u k g =
      let (_, h, c, r) = run-Same l (too_often n) u in
      record {
        holds = omega (arith, h, k.0, g.holds);
        at_most_one = omega (arith, c, k.1, g.counted);
        says = (c ∙ g.counted ∙ k.1, inr (l, r ∙ ap (λ (x : List Lease). l ∷ x) (g.runs ∙ k.2)));
      }
  given_back-Settles l n w v false u k g = record {
    holds = omega (arith, k.0, g.0);
    at_most_one = omega (arith, k.1, g.1);
    says = (g.1 ∙ k.1, inl (g.2 ∙ k.2));
  }

  after_count-Settles :
      (l : Lease) (w v : World) (o : Option ℕ) (u : World)
      → Claims jobs app_name name w (took l) v
      → Counts jobs app_name name v o u
      → Settles false w (after_claim jobs app_name name l o u)
  after_count-Settles l w v none u k g =
      let (_, h, c, r) = run-Same l started u in
      record {
        holds = omega (arith, h, k.0, g.0);
        at_most_one = omega (arith, c, k.1, g.1);
        says = (omega (arith, c, k.1, g.1), (l, r ∙ ap (λ (x : List Lease). l ∷ x) (g.2 ∙ k.2)));
      }
  after_count-Settles l w v (some n) u k g =
      given_back-Settles l n w u _ _ (omega (arith, g.holds, k.0), g.counted ∙ k.1, g.runs ∙ k.2)
        (again_or_release-GivesBack jobs app_name name l u)

  module _ (rest : Bool → M Answer) (ih : (c : Bool) (w : World) → Settles c w (rest c w)) where
    on_claim-Settles :
        (c : Bool) (w : World) (got : Claimed) (v : World)
        → Claims jobs app_name name w got v
        → Settles c w (on_claim jobs app_name name rest c got v)
    unfolding on_claim count_unless
    on_claim-Settles true w (took l) v k = counted_claim-Settles l w v k
    on_claim-Settles false w (took l) v k =
        after_count-Settles l w v _ _ k (count_start-Counts jobs app_name name v)
    on_claim-Settles c w (busy running) v k = Settles-later c w v (rest c v) k (ih c v)
    on_claim-Settles c w (busy (app n)) v k = record {
      holds = k.holds;
      at_most_one = ground (arith, k.counted);
      says = k.runs;
    }

    on_asked-Settles :
        (w : World) (o : Option Bool) (v : World)
        → Same w v
        → ((old : Bool)
            → o ≡ some old
            → Leases.state v.leases (slot app_name name) v.clock ≡ some true)
        → Settles true w (on_asked jobs app_name name rest o v)
    on_asked-Settles w none v s h = Settles-later true w v (rest true v) s (ih true v)
    on_asked-Settles w (some old) v s h = record {
      holds = s.holds;
      at_most_one = omega (arith, s.counted);
      says = (h old refl, s.runs);
    }

    ask-Settles : (w : World) → Settles true w (on_counted jobs app_name name rest none w)
    ask-Settles w =
        on_asked-Settles w _ _ (ask_again-Same jobs app_name name w)
          (ask_again-there jobs app_name name w)

    on_counted-Settles :
        (w : World) (o : Option ℕ) (v : World)
        → Counts jobs app_name name w o v
        → Settles false w (on_counted jobs app_name name rest o v)
    on_counted-Settles w none v k = Settles-counted w v _ k (ask-Settles v)
    on_counted-Settles w (some n) v k = record {
      holds = k.holds;
      at_most_one = omega (arith, k.counted);
      says = (k.counted, inl k.runs);
    }

    on_state-Settles :
        (c : Bool) (w : World) (o : Option Bool) (v : World)
        → Same w v
        → Leases.state v.leases (slot app_name name) v.clock ≡ o
        → Settles c w (on_state jobs app_name name rest c o v)
    unfolding on_state count_unless
    on_state-Settles c w none v s e =
        Settles-later c w v _ s (on_claim-Settles c v _ _ (claim-Claims jobs app_name name v))
    on_state-Settles c w (some true) v s e = record {
      holds = s.holds;
      at_most_one = ground (arith, s.counted);
      says = (e, s.runs);
    }
    on_state-Settles true w (some false) v s e = Settles-later true w v _ s (ask-Settles v)
    on_state-Settles false w (some false) v s e =
        Settles-later false w v _ s
          (on_counted-Settles v _ _ (count_start-Counts jobs app_name name v))

  rounds-Settles : (n : ℕ) (c : Bool) (w : World) → Settles c w (rounds jobs app_name name n c w)
  unfolding rounds
  rounds-Settles zero c w = record { holds = refl; at_most_one = ground arith; says = refl }
  rounds-Settles (suc n) c w =
      on_state-Settles (rounds jobs app_name name n) (rounds-Settles n) c w _ _
        (slot_state-Same jobs app_name name w) (slot_state-is jobs app_name name w)

  -- How a start ends, whatever others do to the stores between its calls. It holds no slot that it did
  -- not hold before: each that it took is given back or is a run's. It is counted once at most, against
  -- the app's rate. "started": it was counted, and one run more is going. "queued": right then the job
  -- runs and a request for one more run is with it; no run was set going. Too many jobs at once, or a
  -- slot that changed hands at every try: no run was set going. Started too often: nothing was
  -- counted, and at most one run is going, the one that was asked of it meanwhile.
  pub start-Settles : (w : World) → Settles false w (start jobs app_name name w)
  unfolding start
  start-Settles w = rounds-Settles tries false w
