-- ===== src/Leases/Lookup.antt =====
-- What each call does to the row of one name: the store of src/state/leases.rs seen row by row.
use toolsite.Common.{
  ℕ, ◌≡◌, Option, none, some, arith, Text, same, if◌then◌else◌, lookup, lookup-insert,
  lookup-modify, false, ◌==◌, true, Bool,
}
use toolsite.Leases.{
  Lease, Row, Rows, give, acquire, renew, release, again_or_release, ask_again, is_live, extend,
  asked, spent, given_up, epoch_after, group_name, saturating_add, lease, Taken,
}
use toolsite.Leases.Steps.{acquires, renews, releases, asks, ends, step}

-- The row of the lease that `acquire` gives.
abbrev pub given : Option (Text × ℕ) → ℕ → ℕ → Option Row → Row
given group ttl now old = record {
  group = group_name group;
  epoch = epoch_after old;
  expires_at = saturating_add now ttl;
  again = false;
}

abbrev pub is_lease : Taken → Bool
is_lease (lease l) = true
is_lease _ = false

abbrev pub on_held : (Row → Row) → Lease → Option Row → Option Row
on_held f l none = none
on_held f l (some row) = some (if row.epoch == l.epoch then f row else row)

abbrev pub ended : ℕ → ℕ → Row → Row
ended ttl now row = if row.again then extend ttl now (spent row) else given_up row

abbrev pub on_live : (Row → Row) → ℕ → Option Row → Option Row
on_live f now none = none
on_live f now (some row) = some (if is_live now row then f row else row)

module _ (rows : Rows) where
  -- A name is given only when its row is not live; the other rows stay.
  pub lookup-acquires :
      (name k : Text) (group : Option (Text × ℕ)) (ttl now : ℕ)
      → lookup k (step rows (now, acquires name group ttl)) ≡ (
          if is_lease (acquire rows name group ttl now).0
          then (if same name k then some (given group ttl now (lookup k rows)) else lookup k rows)
          else lookup k rows)
  unfolding step acquire give
  lookup-acquires name k none ttl now =
      ground (arith, lookup-insert name k (given none ttl now (lookup name rows)) rows)
  lookup-acquires name k (some g) ttl now =
      ground (arith, lookup-insert name k (given (some g) ttl now (lookup name rows)) rows)

  pub lookup-renews :
      (l : Lease) (k : Text) (ttl now : ℕ)
      → lookup k (step rows (now, renews l ttl))
        ≡ (if same l.name k then on_held (extend ttl now) l (lookup k rows) else lookup k rows)
  unfolding step renew
  lookup-renews l k ttl now = ground (arith, lookup-modify l.name k (extend ttl now) rows)

  pub lookup-releases :
      (l : Lease) (k : Text) (now : ℕ)
      → lookup k (step rows (now, releases l))
        ≡ (if same l.name k then on_held given_up l (lookup k rows) else lookup k rows)
  unfolding step release
  lookup-releases l k now = ground (arith, lookup-modify l.name k given_up rows)

  pub lookup-asks :
      (name k : Text) (now : ℕ)
      → lookup k (step rows (now, asks name))
        ≡ (if same name k then on_live asked now (lookup k rows) else lookup k rows)
  unfolding step ask_again
  lookup-asks name k now = ground (arith, lookup-modify name k asked rows)

  pub lookup-ends :
      (l : Lease) (k : Text) (ttl now : ℕ)
      → lookup k (step rows (now, ends l ttl))
        ≡ (if same l.name k then on_held (ended ttl now) l (lookup k rows) else lookup k rows)
  unfolding step again_or_release
  lookup-ends l k ttl now = ground (
    arith,
    lookup-modify l.name k (λ (r : Row). extend ttl now (spent r)) rows,
    lookup-modify l.name k given_up rows,
  )
