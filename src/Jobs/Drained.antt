-- ===== src/Jobs/Drained.antt =====
-- The runs behind a run come to an end (`run_queued` of src/platform/schedule.rs).
use toolsite.Common.{
  ℕ, zero, suc, ◌+◌, ◌-◌, ◌≤◌, ◌≡◌, ◌≢◌, refl, sym, subst, ◌∙◌, ap, inl, inr, Bool, true, false,
  Option, none, some, List, [], ◌∷◌, arith, Text, length, lookup, lookup-modify, Option-cases,
}
use native.Mathlib.Decide.{dec_lt}
use toolsite.Leases
use toolsite.Leases.{Lease, Row, Rows, Ended, again, released, lost, holding, extend, spent}
use toolsite.Jobs.{Job}
use toolsite.Jobs.Site.{
  World, Gap, M, Jobs, slot, passed, pass_gap, settled, again_or_release, begin, begin_at,
}
use toolsite.Jobs.Sides.{passed-Same, GivesBack, again_or_release-GivesBack}
use toolsite.Jobs.Queue.{ran, run_once, next_run, go_on, run_queued}

-- No request is with the lease.
abbrev NotAsked : Rows → Lease → Type 0
NotAsked rows l = (row : Row) → holding rows l ≡ some row → row.again ≡ false

again-spends :
    (rows : Rows) (l : Lease) (ttl now : ℕ)
    → (Leases.again_or_release rows l ttl now).0 ≡ again
    → NotAsked (Leases.again_or_release rows l ttl now).1 l
unfolding Leases.again_or_release
again-spends rows l ttl now h row e =
    ground (arith, lookup-modify l.name l.name (λ (r : Row). extend ttl now (spent r)) rows)

not_again :
    (rows : Rows) (l : Lease) (ttl now : ℕ)
    → NotAsked rows l
    → (Leases.again_or_release rows l ttl now).0 ≢ again
unfolding Leases.again_or_release
not_again rows l ttl now n h = elim (Option-cases (holding rows l)) [
  | inl e ↦ ground arith
  | inr (row, e) ↦ ground (arith, n row e)
]

passed-quiet : (w : World) → w.gaps ≡ [] → passed w ≡ w
unfolding passed
passed-quiet w h = ap (λ gaps. pass_gap gaps w) h

fewer_gaps : (w : World) → length (passed w).gaps ≤ length w.gaps - 1
unfolding passed
fewer_gaps w = from_gaps w.gaps refl
  where
    from_gaps : (gaps : List Gap) → w.gaps ≡ gaps → length (pass_gap gaps w).gaps ≤ length gaps - 1
    from_gaps [] e = rw e (omega arith)
    from_gaps (g ∷ gaps) e = omega arith

-- A step that leaves the slot to the run.
record Leaves (w w' : World) : Type 0 where
  holds : w'.holds ≡ w.holds
  gaps : length w'.gaps ≤ length w.gaps
  leases : w.gaps ≡ [] → w'.leases ≡ w.leases

Leaves-trans : (u v w : World) → Leaves u v → Leaves v w → Leaves u w
Leaves-trans u v w a b = record {
  holds = b.holds ∙ a.holds;
  gaps = let p = a.gaps in let q = b.gaps in omega arith;
  leases = λ e.
      b.leases (
        no_gaps v.gaps
          (let p = a.gaps in let q : length u.gaps ≡ 0 = ap (λ g. length g) e in omega arith))
      ∙ a.leases e;
}
  where
    no_gaps : (gaps : List Gap) → length gaps ≤ 0 → gaps ≡ []
    no_gaps [] h = refl
    no_gaps (g ∷ gaps) h = absurd (omega arith)

passed-Leaves : (w : World) → Leaves w (passed w)
passed-Leaves w = record {
  holds = (passed-Same w).holds;
  gaps = let p = fewer_gaps w in omega arith;
  leases = λ e. ap (λ (v : World). v.leases) (passed-quiet w e);
}

module _ (jobs : Jobs) (app_name name : Text) (handler : Option Text) where
  begin-Leaves : (w : World) → Leaves w (begin jobs app_name name w).1
  unfolding begin begin_at
  begin-Leaves w =
      let p = passed-Leaves w in record { holds = p.holds; gaps = p.gaps; leases = p.leases }

  run_once-Leaves : (w : World) → Leaves w (run_once jobs app_name name handler w).1
  unfolding run_once
  run_once-Leaves w = of_job (lookup (slot app_name name) w.records) handler
    where
      of_job :
          (o : Option Job) (s : Option Text)
          → Leaves w (ran jobs app_name name handler w (passed w) o s).1
      of_job none s = record { holds = refl; gaps = omega arith; leases = λ e. refl }
      of_job (some job) none = record { holds = refl; gaps = omega arith; leases = λ e. refl }
      of_job (some job) (some status) =
          let p = passed-Leaves w in record { holds = p.holds; gaps = p.gaps; leases = p.leases }

  module _ (l : Lease) where
    abbrev ends : World → Ended × Rows
    ends w = Leases.again_or_release w.leases l jobs.slot_ttl w.clock

    settled-gaps : (w : World) (e : Ended × Rows) → (settled jobs app_name name w e).1.gaps ≡ w.gaps
    settled-gaps w (again, rows) = refl
    settled-gaps w (released, rows) = refl
    settled-gaps w (lost, rows) = refl

    settled-leases :
        (w : World) (e : Ended × Rows) → (settled jobs app_name name w e).1.leases ≡ e.1
    settled-leases w (again, rows) = refl
    settled-leases w (released, rows) = refl
    settled-leases w (lost, rows) = refl

    settled-again :
        (w : World) (e : Ended × Rows) → (settled jobs app_name name w e).0 ≡ true → e.0 ≡ again
    settled-again w (again, rows) h = refl
    settled-again w (released, rows) h = cc
    settled-again w (lost, rows) h = cc

    -- The answers of `run_queued`, where it ends.
    pub record Drains (w : World) (most : ℕ) (r : Option ℕ × World) : Type 0 where
      pub count : ℕ
      pub ends_so : r.0 ≡ some count
      pub few : count ≤ most
      pub given_up : r.1.holds ≡ w.holds - 1

    stops :
        (rest : M (Option ℕ)) (w v : World) (most : ℕ)
        → GivesBack jobs app_name name w false v
        → Drains w most (go_on jobs app_name name handler l rest false v)
    stops rest w v most g = record { count = 0; ends_so = refl; few = omega arith; given_up = g.0 }

    goes_on :
        (rest : M (Option ℕ)) (w v : World) (most : ℕ)
        → GivesBack jobs app_name name w true v
        → ((u : World) → Leaves v u → Drains u most (rest u))
        → Drains w (most + 1) (go_on jobs app_name name handler l rest true v)
    goes_on rest w v most g h =
        let b = (begin jobs app_name name v).1 in
        let u = (run_once jobs app_name name handler b).1 in
        let left = Leaves-trans v b u (begin-Leaves v) (run_once-Leaves b) in
        let d = h u left in
        record {
          count = d.count + 1;
          ends_so = ap (λ o. next_run jobs app_name name handler 1 o) d.ends_so;
          few = let f = d.few in omega arith;
          given_up = d.given_up ∙ ap (λ (n : ℕ). n - 1) (left.holds ∙ g.holds);
        }

    abbrev ending : World → Bool × World
    ending w = again_or_release jobs app_name name l w

    by_answer :
        (rest : M (Option ℕ)) (w : World) (most : ℕ)
        → ((ending w).0 ≡ true
            → GivesBack jobs app_name name w true (ending w).1
            → Drains w most (go_on jobs app_name name handler l rest true (ending w).1))
        → (b : Bool) → (ending w).0 ≡ b
        → GivesBack jobs app_name name w b (ending w).1
        → Drains w most (go_on jobs app_name name handler l rest b (ending w).1)
    by_answer rest w most h false e g = stops rest w (ending w).1 most g
    by_answer rest w most h true e g = h e g

    -- A round that ends, if it does where another run was asked for.
    round :
        (fuel : ℕ) (w : World) (most : ℕ)
        → ((ending w).0 ≡ true
            → GivesBack jobs app_name name w true (ending w).1
            → Drains w most (
                go_on jobs app_name name handler l
                  (run_queued jobs app_name name handler l fuel)
                  true
                  (ending w).1))
        → Drains w most (run_queued jobs app_name name handler l (suc fuel) w)
    unfolding run_queued
    round fuel w most h =
        by_answer (run_queued jobs app_name name handler l fuel) w most h (ending w).0 refl
          (again_or_release-GivesBack jobs app_name name l w)

    ending-again : (w : World) → (ending w).0 ≡ true → (ends (passed w)).0 ≡ again
    unfolding again_or_release
    ending-again w h = settled-again (passed w) (ends (passed w)) h

    ending-leases : (w : World) → (ending w).1.leases ≡ (ends (passed w)).1
    unfolding again_or_release
    ending-leases w = settled-leases (passed w) (ends (passed w))

    ending-gaps : (w : World) → length (ending w).1.gaps ≤ length w.gaps - 1
    unfolding again_or_release
    ending-gaps w = rw (settled-gaps (passed w) (ends (passed w))) (fewer_gaps w)

    quiet_unasked :
        (fuel : ℕ) (w : World)
        → w.gaps ≡ []
        → NotAsked w.leases l
        → Drains w 0 (run_queued jobs app_name name handler l (suc fuel) w)
    quiet_unasked fuel w q n = round fuel w 0 λ e g.
        let a = subst (λ (v : World). (ends v).0 ≡ again) (passed-quiet w q) (ending-again w e) in
        absurd (not_again w.leases l jobs.slot_ttl w.clock n a)

    none_left : (gaps : List Gap) → length gaps ≤ 0 → gaps ≡ []
    none_left [] h = refl
    none_left (g ∷ gaps) h = absurd (omega arith)

    quiet_drains :
        (fuel : ℕ) (w : World)
        → w.gaps ≡ []
        → Drains w 1 (run_queued jobs app_name name handler l (suc (suc fuel)) w)
    quiet_drains fuel w q = round (suc fuel) w 1 λ e g.
        let v = (ending w).1 in
        let short : length w.gaps ≡ 0 = ap (λ x. length x) q in
        let quiet : v.gaps ≡ [] =
          none_left v.gaps (let p = ending-gaps w in omega (arith, short)) in
        let spent_now =
          again-spends (passed w).leases l jobs.slot_ttl (passed w).clock (ending-again w e) in
        let unasked = subst (λ r. NotAsked r l) (sym (ending-leases w)) spent_now in
        goes_on (run_queued jobs app_name name handler l (suc fuel)) w v 0 g (λ u left.
          quiet_unasked fuel u
            (none_left u.gaps (
              let p = left.gaps in
              let z : length v.gaps ≡ 0 = ap (λ x. length x) quiet in omega arith))
            (subst (λ r. NotAsked r l) (sym (left.leases quiet)) unasked))

    Drains-more : (w : World) (m n : ℕ) (r : Option ℕ × World) → m ≤ n → Drains w m r → Drains w n r
    Drains-more w m n r h d = record {
      count = d.count;
      ends_so = d.ends_so;
      few = let f = d.few in omega arith;
      given_up = d.given_up;
    }

    -- The runs behind a run come to an end, and the slot is given up: however often others ask and
    -- whatever else they do, as long as they act finitely often, there is at most one run more than
    -- times they act, and then the run that holds the slot holds it no more.
    pub run_queued-Drains :
        (fuel : ℕ) (w : World)
        → length w.gaps + 2 ≤ fuel
        → Drains w (length w.gaps + 1) (run_queued jobs app_name name handler l fuel w)
    run_queued-Drains zero w h = absurd (omega arith)
    run_queued-Drains (suc zero) w h = absurd (omega arith)
    run_queued-Drains (suc (suc fuel)) w h = elim (dec_lt 0 (length w.gaps)) [
      | no n ↦
          Drains-more w 1 _ _ (omega arith) (quiet_drains fuel w (none_left w.gaps (omega arith)))
      | yes p ↦ round (suc fuel) w _ λ e g.
          goes_on (run_queued jobs app_name name handler l (suc fuel)) w (ending w).1
            (length w.gaps) g
            (λ u left.
              let a = left.gaps in
              let c = ending-gaps w in
              Drains-more u _ _ _ (omega arith) (run_queued-Drains (suc fuel) u (omega arith)))
    ]
