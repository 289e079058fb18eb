-- ===== src/Leases/Epochs.antt =====
-- The epoch as a fencing token: what becomes of a lease whose name was taken over.
use toolsite.Common.{
  ℕ, ◌+◌, ◌^◌, ◌≤◌, ◌<◌, ◌≡◌, Option, none, some, List, [], ◌∷◌, false, arith, Text, length, lookup,
}
use toolsite.Leases.{Lease, lease, lost, Row, Rows, acquire, renew, release, again_or_release}
use toolsite.Leases.Lookup.{
  given, lookup-acquires, lookup-renews, lookup-releases, lookup-asks, lookup-ends,
}
use toolsite.Leases.Steps.{Call, acquires, renews, releases, asks, ends, step, run, step-acquires}

abbrev epoch_of : Option Row → ℕ
epoch_of none = 0
epoch_of (some row) = row.epoch

-- The epoch of the last holding of a name, 0 if it was never leased.
abbrev pub epoch_at : Rows → Text → ℕ
epoch_at rows name = epoch_of (lookup name rows)

module _ (rows : Rows) (k : Text) (room : epoch_at rows k + 1 < 2 ^ 64) where
  -- A change of the row at `k` by at most one epoch.
  abbrev Advances : Rows → Type 0
  Advances after = (epoch_at rows k ≤ epoch_at after k) × (epoch_at after k ≤ epoch_at rows k + 1)

  step-Advances : (c : ℕ × Call) → Advances (step rows c)
  step-Advances (now, acquires name group ttl) =
      ground (arith, lookup-acquires rows name k group ttl now)
  step-Advances (now, renews l ttl) = ground (arith, lookup-renews rows l k ttl now)
  step-Advances (now, releases l) = ground (arith, lookup-releases rows l k now)
  step-Advances (now, asks name) = ground (arith, lookup-asks rows name k now)
  step-Advances (now, ends l ttl) = ground (arith, lookup-ends rows l k ttl now)

-- No history takes an epoch back, as long as it is too short for the counter to wrap.
pub epoch_at-run :
    (rows : Rows) (k : Text) (cs : List (ℕ × Call))
    → epoch_at rows k + length cs < 2 ^ 64
    → (epoch_at rows k ≤ epoch_at (run rows cs) k)
unfolding run
epoch_at-run rows k [] h = omega arith
epoch_at-run rows k (c ∷ cs) h =
    let (up, one) = step-Advances rows k (omega arith) c in
    omega (arith, epoch_at-run (step rows c) k cs)

-- What each call of a holder answers when the lease is not its own any more.
abbrev pub IsFenced : Rows → Lease → ℕ → ℕ → Type 0
IsFenced rows l ttl now =
    (renew rows l ttl now ≡ (false, rows))
    × (release rows l ≡ (false, rows))
    × (again_or_release rows l ttl now ≡ (lost, rows))

IsFenced-of_epoch :
    (rows : Rows) (l : Lease) (ttl now : ℕ)
    → l.epoch < epoch_at rows l.name
    → IsFenced rows l ttl now
unfolding renew release again_or_release
IsFenced-of_epoch rows l ttl now h = ground arith

-- Once a name has been leased again, the lease from before is refused for good: whatever happens
-- after, its renewal, release and end of turn answer that it is lost and change nothing, as long as
-- the history is too short for the epoch counter to wrap.
pub IsFenced-after_takeover :
    (rows after : Rows) (old new : Lease) (group : Option (Text × ℕ)) (ttl now : ℕ)
    (cs : List (ℕ × Call)) (ttl' later : ℕ)
    → old.epoch ≤ epoch_at rows old.name
    → acquire rows old.name group ttl now ≡ (lease new, after)
    → epoch_at rows old.name + 1 + length cs < 2 ^ 64
    → IsFenced (run after cs) old ttl' later
IsFenced-after_takeover rows after old new group ttl now cs ttl' later h e room =
    IsFenced-of_epoch (run after cs) old ttl' later
      (omega (arith, taken, epoch_at-run after old.name cs (omega (arith, taken, more))))
  where
    given_row : lookup old.name after ≡ some (given group ttl now (lookup old.name rows))
    given_row = ground (
      arith,
      lookup-acquires rows old.name old.name group ttl now,
      step-acquires rows old.name group ttl now,
    )

    taken : old.epoch < epoch_at after old.name
    taken = ground (arith, given_row)

    more : epoch_at after old.name ≤ epoch_at rows old.name + 1
    more = ground (arith, given_row)
