-- ===== src/Limits/Tests.antt =====
-- Limits on small inputs (src/runtime/limits.rs).
use toolsite.Common.{
  ℕ, ◌*◌, ◌≤◌, ◌≡◌, refl, Option, none, some, [], ◌∷◌, Text, codes, same, min, if◌then◌else◌, trim,
  text_discrete, inr,
}
use toolsite.Limits.{
  default_ceilings, Asked, asked_nothing, effective, clamped, from_env, mib, u64_max, allows,
}
use toolsite.Limits.Granted.{
  Grants, GrantsFuel, FuelWithin, silent_report-Grants_all, within_ceilings,
}

abbrev asked : Asked
asked = record asked_nothing { request_seconds = some 30; memory_mb = some 512 }

nothing_clamped : clamped default_ceilings asked ≡ []
unfolding clamped
nothing_clamped = refl

one_clamped :
    clamped default_ceilings (record asked { request_seconds = some 90 })
    ≡ allows (codes "request_seconds") 90 60 ∷ []
unfolding clamped
one_clamped = refl

silent_report-Grants_all_example :
    let e = effective default_ceilings (some asked) in
    GrantsFuel asked.request_fuel e.request.fuel
    × Grants asked.request_seconds e.request.seconds
    × GrantsFuel asked.job_fuel e.job.fuel
    × Grants asked.job_seconds e.job.seconds
    × Grants asked.query_rows e.request.query_rows
    × Grants asked.query_rows e.job.query_rows
    × ((m : ℕ) → asked.memory_mb ≡ some m → e.request.memory_bytes ≡ min (m * mib) u64_max)
    × ((m : ℕ) → asked.memory_mb ≡ some m → e.job.memory_bytes ≡ min (m * mib) u64_max)
silent_report-Grants_all_example = silent_report-Grants_all default_ceilings asked nothing_clamped

within_ceilings_example :
    let e = effective default_ceilings none in
    FuelWithin default_ceilings.request_fuel e.request.fuel
    × (e.request.seconds ≤ default_ceilings.request_seconds)
    × FuelWithin default_ceilings.job_fuel e.job.fuel
    × (e.job.seconds ≤ default_ceilings.job_seconds)
    × (e.request.query_rows ≤ default_ceilings.query_rows)
    × (e.job.query_rows ≤ default_ceilings.query_rows)
    × (e.request.memory_bytes ≤ default_ceilings.memory_mb * mib)
    × (e.job.memory_bytes ≤ default_ceilings.memory_mb * mib)
within_ceilings_example = within_ceilings default_ceilings none

-- The environment that sets one variable.
abbrev sets : Text → Text → Text → Option Text
sets name value asked_name = if same asked_name name then some value else none

fuel_off :
    from_env (sets (codes "TOOLSITE_MAX_REQUEST_FUEL") (codes " None "))
    ≡ inr (record default_ceilings { request_fuel = none })
unfolding from_env trim text_discrete
fuel_off = refl

-- Two zeros are read as a ceiling of no fuel at all.
fuel_zero :
    from_env (sets (codes "TOOLSITE_MAX_REQUEST_FUEL") (codes "00"))
    ≡ inr (record default_ceilings { request_fuel = some 0 })
unfolding from_env trim text_discrete
fuel_zero = refl
