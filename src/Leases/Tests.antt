-- ===== src/Leases/Tests.antt =====
-- Runs of the lease stores at concrete inputs, and the theorems applied there.
use toolsite.Common.{
  suc, ◌≤◌, ◌≡◌, refl, true, false, none, some, [], ◌∷◌, arith, Text, codes, text_discrete, lookup,
  insert, modify,
}
use toolsite.Leases.{
  Lease, lease, held, full, again, Rows, acquire, renew, ask_again, again_or_release,
}
use toolsite.Leases.Steps.{acquires, renews, asks, step, run}
use toolsite.Leases.Epochs.{IsFenced, IsFenced-after_takeover}
use toolsite.Leases.Exclusion.{acquire_excludes, asked_is_seen}
use toolsite.Leases.Ceiling.{live_count, live_count-run-le, late_renewal_revives}
use toolsite.Leases.Postgres.{Table}
use toolsite.Leases.Postgres.Refinement.{Agree, calls-Agree}

abbrev job : Text
job = codes "job:app/fetch"

abbrev app : Text
app = codes "app"

abbrev first : Lease
first = record { name = job; epoch = 1 }

abbrev one_held : Rows
one_held = (job, record { group = some app; epoch = 1; expires_at = 130; again = false }) ∷ []

acquire-first : acquire [] job (some (app, 4)) 30 100 ≡ (lease first, one_held)
unfolding acquire lookup insert text_discrete
acquire-first = refl

acquire_taken : (acquire one_held job (some (app, 4)) 30 129).0 ≡ held
unfolding acquire lookup insert text_discrete
acquire_taken = refl

acquire_full : (acquire one_held (codes "job:app/tidy") (some (app, 1)) 30 129).0 ≡ full 1
unfolding acquire lookup insert text_discrete
acquire_full = refl

abbrev taken_over : Rows
taken_over = (job, record { group = some app; epoch = 2; expires_at = 160; again = false }) ∷ []

acquire_second :
    acquire one_held job (some (app, 4)) 30 130
    ≡ (lease (record { name = job; epoch = 2 }), taken_over)
unfolding acquire lookup insert text_discrete
acquire_second = refl

IsFenced-after_takeover_example : IsFenced (run taken_over ((140, asks job) ∷ [])) first 30 150
unfolding lookup text_discrete
IsFenced-after_takeover_example =
    IsFenced-after_takeover one_held taken_over first (record { name = job; epoch = 2 })
      (some (app, 4)) 30 130 ((140, asks job) ∷ []) 30 150 (omega arith) acquire_second
      (omega arith)

acquire_excludes_example :
    acquire (run one_held ((110, asks job) ∷ [])) job none 5 129
    ≡ (held, run one_held ((110, asks job) ∷ []))
acquire_excludes_example =
    acquire_excludes [] one_held first (some (app, 4)) 30 100 ((110, asks job) ∷ []) none 5 129
      acquire-first (omega arith) (omega arith)

abbrev one_asked : Rows
one_asked = (job, record { group = some app; epoch = 1; expires_at = 130; again = true }) ∷ []

ask_first : ask_again one_held job 110 ≡ (some false, one_asked)
unfolding ask_again lookup modify text_discrete
ask_first = refl

asked_is_seen_example :
    (again_or_release (run one_asked ((120, acquires job none 5) ∷ [])) first 30 125).0 ≡ again
unfolding lookup text_discrete
asked_is_seen_example =
    asked_is_seen one_held one_asked first false 130 110 ((120, acquires job none 5) ∷ []) 30 125
      (omega arith) ask_first (omega arith)

live_count-run-le_example :
    live_count app 131 (run one_held ((125, renews first 30) ∷ (130, asks job) ∷ [])) ≤ 1
unfolding lookup text_discrete step renew modify
live_count-run-le_example =
    live_count-run-le app 1 100 one_held ((125, renews first 30) ∷ (130, asks job) ∷ []) 131
      (refl, tt) (omega arith) (omega arith, λ e. omega arith, (omega arith, tt, tt)) (omega arith)

late_renewal_revives_example :
    ((renew one_held first 30 200).0 ≡ true)
    × (live_count app 200 (renew one_held first 30 200).1 ≡ suc (live_count app 200 one_held))
unfolding lookup text_discrete
late_renewal_revives_example =
    late_renewal_revives app one_held first
      (record { group = some app; epoch = 1; expires_at = 130; again = false }) 30 200 refl refl
      refl (omega arith) (omega arith)

abbrev table : Table
table =
    record {
      name = job;
      holder = codes "runner";
      row = record { group = some app; epoch = 1; expires_at = 130; again = false };
    }
    ∷ []

calls-Agree_example : Agree table (codes "other") 130 (acquires job none 30)
unfolding lookup text_discrete
calls-Agree_example =
    calls-Agree table (codes "other") 130 (acquires job none 30) (refl, tt) (omega arith)
      (omega arith)
