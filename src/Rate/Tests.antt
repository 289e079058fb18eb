-- ===== src/Rate/Tests.antt =====
-- Runs of the rate stores at concrete inputs, and the theorems applied there.
use toolsite.Common.{
  ℕ, ◌≤◌, ◌≡◌, refl, List, [], ◌∷◌, arith, Text, codes, text_discrete, lookup, insert, leb,
  if◌then◌else◌, count,
}
use toolsite.Rate.{spent, refused, spend}
use toolsite.Rate.Exact
use toolsite.Rate.Postgres
use toolsite.Rate.Postgres.Bound

abbrev busy : Text
busy = codes "job-starts:busy"

-- Two spends a minute.
abbrev per : Text → ℕ
per key = 2

abbrev minute : Text → ℕ
minute key = 60000

abbrev calls : List Exact.Call
calls =
    record { key = busy; now = 1000000; later = 1000001 }
    ∷ record { key = codes "job-starts:quiet"; now = 2000000; later = 2000000 }
    ∷ record { key = busy; now = 3000000; later = 3000000 }
    ∷ record { key = busy; now = 4000000; later = 4000000 }
    ∷ []

granted_twice : Exact.went_through per minute busy calls ≡ 1000001 ∷ 3000000 ∷ []
unfolding Exact.went_through Exact.play spend lookup insert text_discrete
granted_twice = refl

went_through-le_example :
    count (Exact.is_within 60000 5000000) (Exact.went_through per minute busy calls) ≤ 2
went_through-le_example =
    Exact.went_through-le per minute busy calls 5000000 (omega arith) (omega arith)

spend_exact_example :
    let n = count (Exact.is_within 60000 5000000) (Exact.went_through per minute busy calls) in
    (spend (Exact.play per minute busy [] [] calls).0 busy 2 60000 5000000 5000001).0
    ≡ (if leb 2 n then refused n else spent)
spend_exact_example =
    Exact.spend_exact per minute busy calls 5000000 5000001 (omega arith) (omega arith)

abbrev sliced_calls : List Bound.Call
sliced_calls =
    record { key = busy; now = 1700000000123 }
    ∷ record { key = busy; now = 1700000000456 }
    ∷ record { key = busy; now = 1700000001000 }
    ∷ record { key = busy; now = 1700000061000 }
    ∷ []

sliced_twice :
    (Bound.play per minute busy [] [] sliced_calls).1
    ≡ 1700000000123 ∷ 1700000000456 ∷ 1700000061000 ∷ []
unfolding Bound.play Postgres.spend text_discrete
sliced_twice = refl

sliced_went_through-le_example :
    count (Bound.is_within 60000 1700000061000) (Bound.play per minute busy [] [] sliced_calls).1
    ≤ 2
sliced_went_through-le_example =
    Bound.sliced_went_through-le per minute busy sliced_calls 1700000061000 (omega arith)
      (omega arith)
