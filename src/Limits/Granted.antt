-- ===== src/Limits/Granted.antt =====
-- What an app is granted of what it asks (`effective` and `clamped` of src/runtime/limits.rs).
use toolsite.Common.{
  ℕ, ◌*◌, ◌≤◌, ◌≡◌, refl, Option, none, some, List, [], ◌∷◌, ◌++◌, arith, min, Text, codes,
}
use toolsite.Limits.{
  Ceilings, Asked, effective, fuel_of, bytes_of, or_default, clamped, note, Note, mib, u64_max,
  default_request_fuel, default_job_fuel, default_request_memory_mb, default_job_memory_mb,
  default_request_seconds, default_job_seconds, default_query_rows, asked_nothing,
}

-- As much as was asked, if it was asked.
abbrev pub Grants : Option ℕ → ℕ → Type 0
Grants none got = Unit
Grants (some asked) got = asked ≡ got

abbrev pub GrantsFuel : Option ℕ → Option ℕ → Type 0
GrantsFuel none got = Unit
GrantsFuel (some asked) got = got ≡ some asked

abbrev pub FuelWithin : Option ℕ → Option ℕ → Type 0
FuelWithin none got = got ≡ none
FuelWithin (some ceiling) none = ⊥
FuelWithin (some ceiling) (some fuel) = fuel ≤ ceiling

append-nil_left : (xs ys : List Note) → xs ++ ys ≡ [] → (xs ≡ []) × (ys ≡ [])
append-nil_left [] ys e = (refl, e)
append-nil_left (x ∷ xs) ys e = absurd (cc)

no_note :
    (name : Text) (asked : Option ℕ) (default ceiling : ℕ)
    → note name asked (some ceiling) ≡ []
    → Grants asked (min (or_default asked default) ceiling)
no_note name none default ceiling e = tt
no_note name (some n) default ceiling e = ground arith

no_fuel_note :
    (name : Text) (asked : Option ℕ) (default : ℕ) (ceiling : Option ℕ)
    → note name asked ceiling ≡ []
    → GrantsFuel asked (fuel_of asked default ceiling)
no_fuel_note name none default ceiling e = tt
no_fuel_note name (some n) default none e = cc
no_fuel_note name (some n) default (some ceiling) e = ground arith

granted_bytes :
    (asked : Option ℕ) (default ceiling m : ℕ)
    → note (codes "memory_mb") asked (some ceiling) ≡ []
    → asked ≡ some m
    → bytes_of asked default ceiling ≡ min (m * mib) u64_max
granted_bytes none default ceiling m n q = cc
granted_bytes (some k) default ceiling m n q = ground arith

fuel_within :
    (asked : Option ℕ) (default : ℕ) (ceiling : Option ℕ)
    → FuelWithin ceiling (fuel_of asked default ceiling)
fuel_within asked default none = refl
fuel_within asked default (some ceiling) = omega arith

bytes_within :
    (asked : Option ℕ) (default ceiling : ℕ) → bytes_of asked default ceiling ≤ ceiling * mib
bytes_within asked default ceiling = omega arith

-- The report of a deploy is complete: where it says nothing of what an app asked, the app is granted
-- all of it, the fuel, the seconds and the memory of its requests and of its jobs and the rows of
-- its queries, memory up to what a `usize` counts.
pub silent_report-Grants_all :
    (c : Ceilings) (a : Asked)
    → clamped c a ≡ []
    → let e = effective c (some a) in
      GrantsFuel a.request_fuel e.request.fuel
      × Grants a.request_seconds e.request.seconds
      × GrantsFuel a.job_fuel e.job.fuel
      × Grants a.job_seconds e.job.seconds
      × Grants a.query_rows e.request.query_rows
      × Grants a.query_rows e.job.query_rows
      × ((m : ℕ) → a.memory_mb ≡ some m → e.request.memory_bytes ≡ min (m * mib) u64_max)
      × ((m : ℕ) → a.memory_mb ≡ some m → e.job.memory_bytes ≡ min (m * mib) u64_max)
unfolding clamped effective
silent_report-Grants_all c a e =
    let (n1, r1) = append-nil_left (note _ a.request_fuel c.request_fuel) _ e in
    let (n2, r2) = append-nil_left (note _ a.request_seconds (some c.request_seconds)) _ r1 in
    let (n3, r3) = append-nil_left (note _ a.job_fuel c.job_fuel) _ r2 in
    let (n4, r4) = append-nil_left (note _ a.job_seconds (some c.job_seconds)) _ r3 in
    let (n5, r5) = append-nil_left (note _ a.query_rows (some c.query_rows)) _ r4 in
    let (n6, r6) = append-nil_left (note _ a.memory_mb (some c.memory_mb)) _ r5 in
    (
      no_fuel_note _ a.request_fuel default_request_fuel c.request_fuel n1,
      no_note _ a.request_seconds default_request_seconds c.request_seconds n2,
      no_fuel_note _ a.job_fuel default_job_fuel c.job_fuel n3,
      no_note _ a.job_seconds default_job_seconds c.job_seconds n4,
      no_note _ a.query_rows default_query_rows c.query_rows n5,
      no_note _ a.query_rows default_query_rows c.query_rows n5,
      λ m q. granted_bytes a.memory_mb default_request_memory_mb c.memory_mb m n6 q,
      λ m q. granted_bytes a.memory_mb default_job_memory_mb c.memory_mb m n6 q,
    )

-- No call is granted more than a ceiling, whatever its app asked or did not ask, and fuel is metered
-- exactly where the site has a ceiling on it.
pub within_ceilings :
    (c : Ceilings) (asked : Option Asked)
    → let e = effective c asked in
      FuelWithin c.request_fuel e.request.fuel
      × (e.request.seconds ≤ c.request_seconds)
      × FuelWithin c.job_fuel e.job.fuel
      × (e.job.seconds ≤ c.job_seconds)
      × (e.request.query_rows ≤ c.query_rows)
      × (e.job.query_rows ≤ c.query_rows)
      × (e.request.memory_bytes ≤ c.memory_mb * mib)
      × (e.job.memory_bytes ≤ c.memory_mb * mib)
unfolding effective
within_ceilings c asked =
    let a = elim asked as (λ _. Asked) [ none ↦ asked_nothing | some a ↦ a ] in
    (
      fuel_within a.request_fuel default_request_fuel c.request_fuel,
      omega arith,
      fuel_within a.job_fuel default_job_fuel c.job_fuel,
      omega arith,
      omega arith,
      omega arith,
      bytes_within a.memory_mb default_request_memory_mb c.memory_mb,
      bytes_within a.memory_mb default_job_memory_mb c.memory_mb,
    )
