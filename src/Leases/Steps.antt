-- ===== src/Leases/Steps.antt =====
-- Histories of the lease store of src/state/leases.rs: every call that changes it is one step, taken
-- under the store's lock, at the time that the call reads.
use toolsite.Common.{ℕ, List, [], ◌∷◌, Option, Text, ◌≡◌, refl}
use toolsite.Leases.{Lease, Rows, acquire, renew, release, ask_again, again_or_release}

pub data Call : Type 0 where
  acquires : Text → Option (Text × ℕ) → ℕ → Call
  renews : Lease → ℕ → Call
  releases : Lease → Call
  asks : Text → Call
  ends : Lease → ℕ → Call

unfoldable pub step : Rows → ℕ × Call → Rows
step rows (now, acquires name group ttl) = (acquire rows name group ttl now).1
step rows (now, renews l ttl) = (renew rows l ttl now).1
step rows (now, releases l) = (release rows l).1
step rows (now, asks name) = (ask_again rows name now).1
step rows (now, ends l ttl) = (again_or_release rows l ttl now).1

unfoldable pub run : Rows → List (ℕ × Call) → Rows
run rows [] = rows
run rows (c ∷ cs) = run (step rows c) cs

pub step-acquires :
    (rows : Rows) (name : Text) (group : Option (Text × ℕ)) (ttl now : ℕ)
    → step rows (now, acquires name group ttl) ≡ (acquire rows name group ttl now).1
unfolding step
step-acquires rows name group ttl now = refl
