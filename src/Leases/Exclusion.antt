-- ===== src/Leases/Exclusion.antt =====
-- What a live lease of src/state/leases.rs keeps from the other callers, and what it keeps for them.
use toolsite.Common.{
  ℕ, ◌≤◌, ◌<◌, ◌≡◌, ◌≢◌, ◌⊎◌, refl, Option, none, some, List, [], ◌∷◌, Bool, true, false, arith,
  Text, All, Option-cases, Bool-cases, inl, inr, lookup, lookup-insert, lookup-modify,
}
use toolsite.Leases.{
  Lease, lease, held, Ended, again, Row, Rows, acquire, ask_again, again_or_release, state,
  saturating_add, asked, give, released, lost, extend, spent, given_up, holding,
}
use toolsite.Leases.Lookup.{
  given, lookup-acquires, lookup-renews, lookup-releases, lookup-asks, lookup-ends,
}
use toolsite.Leases.Steps.{Call, acquires, renews, releases, asks, ends, step, run}

-- The row is still this holding, and lasts until `t` at least.
abbrev pub LastsUntil : Lease → ℕ → Option Row → Type 0
LastsUntil l t none = ⊥
LastsUntil l t (some row) = (row.epoch ≡ l.epoch) × (t ≤ row.expires_at)

abbrev pub IsAsked : Option Row → Type 0
IsAsked none = ⊥
IsAsked (some row) = row.again ≡ true

-- A call made before `t` that does not end this lease: a caller who has another lease, or none, may
-- call anything, and the holder may renew it to `t` or later.
abbrev pub Respects : Lease → ℕ → ℕ × Call → Type 0
Respects l t (now, acquires name group ttl) = now < t
Respects l t (now, renews m ttl) = (now < t) × ((m ≢ l) ⊎ (t ≤ saturating_add now ttl))
Respects l t (now, releases m) = (now < t) × (m ≢ l)
Respects l t (now, asks name) = now < t
Respects l t (now, ends m ttl) = (now < t) × (m ≢ l)

Lease-eq : (m l : Lease) → m.name ≡ l.name → m.epoch ≡ l.epoch → m ≡ l
Lease-eq m l p q = λ i. record { name = p i; epoch = q i }

acquire_of_live :
    (rows : Rows) (l : Lease) (t : ℕ) (group : Option (Text × ℕ)) (ttl now : ℕ)
    → LastsUntil l t (lookup l.name rows)
    → now < t
    → acquire rows l.name group ttl now ≡ (held, rows)
unfolding acquire
acquire_of_live rows l t group ttl now k h = ground arith

module _ (rows : Rows) (l : Lease) (t : ℕ) where
  step-LastsUntil :
      (c : ℕ × Call)
      → Respects l t c
      → LastsUntil l t (lookup l.name rows)
      → LastsUntil l t (lookup l.name (step rows c))
  step-LastsUntil (now, acquires name group ttl) r k = ground (
    arith,
    lookup-acquires rows name l.name group ttl now,
    acquire_of_live rows l t group ttl now k r,
  )
  step-LastsUntil (now, renews m ttl) r k =
      ground (arith, lookup-renews rows m l.name ttl now, Lease-eq m l)
  step-LastsUntil (now, releases m) r k =
      ground (arith, lookup-releases rows m l.name now, Lease-eq m l)
  step-LastsUntil (now, asks name) r k = ground (arith, lookup-asks rows name l.name now)
  step-LastsUntil (now, ends m ttl) r k =
      ground (arith, lookup-ends rows m l.name ttl now, Lease-eq m l)

  step-IsAsked :
      (c : ℕ × Call)
      → Respects l t c
      → LastsUntil l t (lookup l.name rows)
      → IsAsked (lookup l.name rows)
      → IsAsked (lookup l.name (step rows c))
  step-IsAsked (now, acquires name group ttl) r k a = ground (
    arith,
    lookup-acquires rows name l.name group ttl now,
    acquire_of_live rows l t group ttl now k r,
  )
  step-IsAsked (now, renews m ttl) r k a = ground (arith, lookup-renews rows m l.name ttl now)
  step-IsAsked (now, releases m) r k a =
      ground (arith, lookup-releases rows m l.name now, Lease-eq m l)
  step-IsAsked (now, asks name) r k a = ground (arith, lookup-asks rows name l.name now)
  step-IsAsked (now, ends m ttl) r k a =
      ground (arith, lookup-ends rows m l.name ttl now, Lease-eq m l)

run-LastsUntil :
    (rows : Rows) (l : Lease) (t : ℕ) (cs : List (ℕ × Call))
    → All (Respects l t) cs
    → LastsUntil l t (lookup l.name rows)
    → LastsUntil l t (lookup l.name (run rows cs))
unfolding run
run-LastsUntil rows l t [] r k = k
run-LastsUntil rows l t (c ∷ cs) r k =
    run-LastsUntil (step rows c) l t cs r.1 (step-LastsUntil rows l t c r.0 k)

run-IsAsked :
    (rows : Rows) (l : Lease) (t : ℕ) (cs : List (ℕ × Call))
    → All (Respects l t) cs
    → LastsUntil l t (lookup l.name rows)
    → IsAsked (lookup l.name rows)
    → IsAsked (lookup l.name (run rows cs))
unfolding run
run-IsAsked rows l t [] r k a = a
run-IsAsked rows l t (c ∷ cs) r k a =
    run-IsAsked (step rows c) l t cs r.1 (step-LastsUntil rows l t c r.0 k)
      (step-IsAsked rows l t c r.0 k a)

acquire-LastsUntil :
    (rows after : Rows) (l : Lease) (group : Option (Text × ℕ)) (ttl now : ℕ)
    → acquire rows l.name group ttl now ≡ (lease l, after)
    → LastsUntil l (saturating_add now ttl) (lookup l.name after)
unfolding acquire give
acquire-LastsUntil rows after l none ttl now e =
    ground (arith, lookup-insert l.name l.name (given none ttl now (lookup l.name rows)) rows)
acquire-LastsUntil rows after l (some g) ttl now e =
    ground (arith, lookup-insert l.name l.name (given (some g) ttl now (lookup l.name rows)) rows)

-- A lease given at `now` for `ttl` excludes everybody else until it runs out: after any calls before
-- that time by callers that do not have it, and renewals by the holder that do not shorten it, the
-- name is refused to whoever asks, with any group and time to live, and that changes nothing.
pub acquire_excludes :
    (rows after : Rows) (l : Lease) (group : Option (Text × ℕ)) (ttl now : ℕ) (cs : List (ℕ × Call))
    (group' : Option (Text × ℕ)) (ttl' later : ℕ)
    → acquire rows l.name group ttl now ≡ (lease l, after)
    → All (Respects l (saturating_add now ttl)) cs
    → later < saturating_add now ttl
    → acquire (run after cs) l.name group' ttl' later ≡ (held, run after cs)
acquire_excludes rows after l group ttl now cs group' ttl' later e r h =
    acquire_of_live (run after cs) l (saturating_add now ttl) group' ttl' later
      (run-LastsUntil after l (saturating_add now ttl) cs r
        (acquire-LastsUntil rows after l group ttl now e))
      h

ask_again-IsAsked :
    (rows after : Rows) (l : Lease) (old : Bool) (t now : ℕ)
    → ask_again rows l.name now ≡ (some old, after)
    → LastsUntil l t (lookup l.name rows)
    → IsAsked (lookup l.name after) × LastsUntil l t (lookup l.name after)
unfolding ask_again
ask_again-IsAsked rows after l old t now e k =
    ground (arith, lookup-modify l.name l.name asked rows)

-- A request that was accepted is never lost: if the store answers `some` to it while a lease lasts
-- until `t`, then after any calls before `t` that do not end the lease, the holder's end of its turn
-- answers `again`, whenever the holder makes it.
pub asked_is_seen :
    (rows after : Rows) (l : Lease) (old : Bool) (t now : ℕ) (cs : List (ℕ × Call)) (ttl later : ℕ)
    → LastsUntil l t (lookup l.name rows)
    → ask_again rows l.name now ≡ (some old, after)
    → All (Respects l t) cs
    → (again_or_release (run after cs) l ttl later).0 ≡ again
unfolding again_or_release
asked_is_seen rows after l old t now cs ttl later k e r =
    let (a, k') = ask_again-IsAsked rows after l old t now e k in
    ground (arith, run-LastsUntil after l t cs r k', run-IsAsked after l t cs r k' a)

-- What the end of a turn may answer, and when.
abbrev pub EndsTurn : Rows → Lease → ℕ → ℕ → Ended × Rows → Type 0
EndsTurn rows l ttl now (again, after) =
    IsAsked (lookup l.name rows)
    × LastsUntil l (saturating_add now ttl) (lookup l.name after)
    × ((later : ℕ) → later < saturating_add now ttl → state after l.name later ≡ some false)
EndsTurn rows l ttl now (released, after) =
    (¬ IsAsked (lookup l.name rows)) × ((later : ℕ) → state after l.name later ≡ none)
EndsTurn rows l ttl now (lost, after) =
    (after ≡ rows) × ((t : ℕ) → ¬ LastsUntil l t (lookup l.name rows))

-- The end of a turn, on every branch: a lease that is still held either finds a request, is kept for
-- `ttl` more and has spent the request, or finds none, and then the name is free at once and no
-- request is left; the lease of a name taken over is lost and changes nothing.
pub again_or_release-EndsTurn :
    (rows : Rows) (l : Lease) (ttl now : ℕ)
    → EndsTurn rows l ttl now (again_or_release rows l ttl now)
unfolding again_or_release state
again_or_release-EndsTurn rows l ttl now = elim (Option-cases (holding rows l)) [
  | inl e ↦ rw (e, again_or_release) (refl, λ t k. ground arith)
  | inr (row, e) ↦ elim (Bool-cases row.again) [
    | inl a ↦
        rw (e, again_or_release)
          (rw a (
            ground arith,
            ground
                (arith, lookup-modify l.name l.name (λ (r : Row). extend ttl now (spent r)) rows),
            λ later h.
                ground
                  (arith, lookup-modify l.name l.name (λ (r : Row). extend ttl now (spent r)) rows),
          ))
    | inr a ↦
        rw (e, again_or_release)
          (rw a
            (λ k. ground arith, λ later. ground (arith, lookup-modify l.name l.name given_up rows)))
  ]
]
