-- ===== src/Leases/Ceiling.antt =====
-- The ceiling on a group's live leases in src/state/leases.rs, and what it rests on.
use toolsite.Common.{
  ℕ, suc, ◌≤◌, ◌<◌, ◌≡◌, Option, none, some, List, [], ◌∷◌, true, false, arith, Text, Option-cases,
  Bool-cases, inl, inr, not, count-and-le, lookup, modify, count, Distinct, insert-Distinct,
  modify-Distinct, count-insert, count-modify-le, same,
}
use toolsite.Leases.{
  Lease, Row, Rows, acquire, renew, release, ask_again, again_or_release, give, live_in,
  others_live, extend, asked, spent, given_up, saturating_add, holding,
}
use toolsite.Leases.Lookup.{given}
use toolsite.Leases.Steps.{Call, acquires, renews, releases, asks, ends, step, run}

-- How many leases of the group are live at a time.
abbrev pub live_count : Text → ℕ → Rows → ℕ
live_count g now rows = count (λ e. live_in g now e.1) rows

-- The row of a lease that is renewed has not run out yet.
abbrev pub IsTimely : ℕ → Lease → Option Row → Type 0
IsTimely now l none = Unit {0}
IsTimely now l (some row) = row.epoch ≡ l.epoch → now < row.expires_at

-- The end of a turn renews the lease only where a request for one more is on it.
abbrev pub RenewsInTime : ℕ → Lease → Option Row → Type 0
RenewsInTime now l none = Unit {0}
RenewsInTime now l (some row) = row.epoch ≡ l.epoch → row.again ≡ true → now < row.expires_at

-- Each ask for a lease in the group names at most `most` as its ceiling, and each renewal is timely.
abbrev pub Fits : Text → ℕ → Rows → ℕ × Call → Type 0
Fits g most rows (now, acquires name none ttl) = Unit {0}
Fits g most rows (now, acquires name (some (h, n)) ttl) = h ≡ g → n ≤ most
Fits g most rows (now, renews l ttl) = IsTimely now l (lookup l.name rows)
Fits g most rows (now, releases l) = Unit {0}
Fits g most rows (now, asks name) = Unit {0}
Fits g most rows (now, ends l ttl) = RenewsInTime now l (lookup l.name rows)

-- A history whose calls fit, at times that do not go back.
abbrev pub FitsAll : Text → ℕ → ℕ → Rows → List (ℕ × Call) → Type 0
FitsAll g most t rows [] = Unit {0}
FitsAll g most t rows ((now, c) ∷ cs) =
    (t ≤ now) × Fits g most rows (now, c) × FitsAll g most now (step rows (now, c)) cs

abbrev pub last_time : ℕ → List (ℕ × Call) → ℕ
last_time t [] = t
last_time t ((now, c) ∷ cs) = last_time now cs

live_count-later :
    (g : Text) (rows : Rows) (t now : ℕ) → t ≤ now → live_count g now rows ≤ live_count g t rows
live_count-later g [] t now h = omega arith
live_count-later g ((k, row) ∷ rows) t now h = ground (arith, live_count-later g rows t now)

module _ (g : Text) (rows : Rows) (now : ℕ) where
  modify-le :
      (k : Text) (f : Row → Row)
      → ((row : Row)
          → lookup k rows ≡ some row
          → live_in g now (f row) ≡ true
          → live_in g now row ≡ true)
      → live_count g now (modify k f rows) ≤ live_count g now rows
  modify-le k f h = count-modify-le (λ e. live_in g now e.1) k f rows h

  -- A lease that is still held, and renewed in time, is live.
  held_live :
      (l : Lease) (r row : Row)
      → IsTimely now l (lookup l.name rows)
      → holding rows l ≡ some r
      → lookup l.name rows ≡ some row
      → now < row.expires_at
  held_live l r row h e q = ground arith

  again_live :
      (l : Lease) (r row : Row)
      → RenewsInTime now l (lookup l.name rows)
      → holding rows l ≡ some r
      → lookup l.name rows ≡ some row
      → r.again ≡ true
      → now < row.expires_at
  again_live l r row h e q a = ground arith

  others-le : (name : Text) → others_live name g now rows ≤ live_count g now rows
  others-le name = count-and-le (λ e. not (same e.0 name)) (λ e. live_in g now e.1) rows

  renew-le :
      (l : Lease) (ttl : ℕ)
      → IsTimely now l (lookup l.name rows)
      → live_count g now (renew rows l ttl now).1 ≤ live_count g now rows
  unfolding renew
  renew-le l ttl h = elim (Option-cases (holding rows l)) [
    | inl e ↦ rw (e, renew) (omega arith)
    | inr (r, e) ↦
        rw (e, renew)
          (modify-le l.name (extend ttl now) (λ row q p. ground (arith, held_live l r row h e q)))
  ]

  release-le : (l : Lease) → live_count g now (release rows l).1 ≤ live_count g now rows
  unfolding release
  release-le l = ground (arith, modify-le l.name given_up (λ row e p. ground arith))

  ask_again-le :
      (name : Text) → live_count g now (ask_again rows name now).1 ≤ live_count g now rows
  unfolding ask_again
  ask_again-le name = ground (arith, modify-le name asked (λ row e p. ground arith))

  again_or_release-le :
      (l : Lease) (ttl : ℕ)
      → RenewsInTime now l (lookup l.name rows)
      → live_count g now (again_or_release rows l ttl now).1 ≤ live_count g now rows
  unfolding again_or_release
  again_or_release-le l ttl h = elim (Option-cases (holding rows l)) [
    | inl e ↦ rw (e, again_or_release) (omega arith)
    | inr (r, e) ↦ elim (Bool-cases r.again) [
      | inl a ↦
          rw (e, again_or_release, a)
            (modify-le l.name (λ row. extend ttl now (spent row))
              (λ row q p. let live = again_live l r row h e q a in ground (arith, live)))
      | inr a ↦ rw (e, again_or_release, a) (modify-le l.name given_up (λ row q p. ground arith))
    ]
  ]

  acquire-le :
      (most : ℕ) (name : Text) (group : Option (Text × ℕ)) (ttl : ℕ)
      → Distinct rows
      → Fits g most rows (now, acquires name group ttl)
      → live_count g now rows ≤ most
      → live_count g now (acquire rows name group ttl now).1 ≤ most
  unfolding acquire give
  acquire-le most name none ttl d f h = ground (
    arith,
    count-insert (λ e. live_in g now e.1) name (given none ttl now (lookup name rows)) rows d,
    others-le name,
  )
  acquire-le most name (some (k, n)) ttl d f h = ground (
    arith,
    count-insert (λ e. live_in g now e.1) name (given (some (k, n)) ttl now (lookup name rows)) rows
        d,
    others-le name,
  )

  step-le :
      (most : ℕ) (c : Call)
      → Distinct rows
      → Fits g most rows (now, c)
      → live_count g now rows ≤ most
      → live_count g now (step rows (now, c)) ≤ most
  unfolding step
  step-le most (acquires name group ttl) d f h = acquire-le most name group ttl d f h
  step-le most (renews l ttl) d f h = omega (arith, renew-le l ttl f)
  step-le most (releases l) d f h = omega (arith, release-le l)
  step-le most (asks name) d f h = omega (arith, ask_again-le name)
  step-le most (ends l ttl) d f h = omega (arith, again_or_release-le l ttl f)

  step-Distinct : (c : Call) → Distinct rows → Distinct (step rows (now, c))
  unfolding step acquire give renew release ask_again again_or_release
  step-Distinct (acquires name none ttl) d =
      ground (arith, insert-Distinct name (given none ttl now (lookup name rows)) rows d)
  step-Distinct (acquires name (some (k, n)) ttl) d =
      ground (arith, insert-Distinct name (given (some (k, n)) ttl now (lookup name rows)) rows d)
  step-Distinct (renews l ttl) d = ground (arith, modify-Distinct l.name (extend ttl now) rows d)
  step-Distinct (releases l) d = ground (arith, modify-Distinct l.name given_up rows d)
  step-Distinct (asks name) d = ground (arith, modify-Distinct name asked rows d)
  step-Distinct (ends l ttl) d = ground (
    arith,
    modify-Distinct l.name (λ (row : Row). extend ttl now (spent row)) rows d,
    modify-Distinct l.name given_up rows d,
  )

-- A group never holds more live leases than its ceiling: from a store that holds at most `most` at
-- time `t`, any history whose times do not go back, whose asks in the group name a ceiling of `most`
-- or less and whose renewals come before the lease runs out ends in one that holds at most `most`. The
-- end of a turn counts as a renewal where a request for one more run is on the lease, and as none where
-- it only releases.
pub live_count-run-le :
    (g : Text) (most t : ℕ) (rows : Rows) (cs : List (ℕ × Call)) (later : ℕ)
    → Distinct rows
    → live_count g t rows ≤ most
    → FitsAll g most t rows cs
    → last_time t cs ≤ later
    → live_count g later (run rows cs) ≤ most
unfolding run
live_count-run-le g most t rows [] later d h f e = omega (arith, live_count-later g rows t later e)
live_count-run-le g most t rows ((now, c) ∷ cs) later d h f e =
    live_count-run-le g most now (step rows (now, c)) cs later (step-Distinct g rows now c d)
      (step-le g rows now most c d f.1 (omega (arith, live_count-later g rows t now f.0))) f.2 e

count-modify :
    (g : Text) (now : ℕ) (k : Text) (f : Row → Row) (row : Row) (rows : Rows)
    → lookup k rows ≡ some row
    → live_in g now row ≡ false
    → live_in g now (f row) ≡ true
    → live_count g now (modify k f rows) ≡ suc (live_count g now rows)
unfolding lookup modify
count-modify g now k f row [] e p q = cc
count-modify g now k f row ((j, r) ∷ rows) e p q = ground (arith, count-modify g now k f row rows)

-- The condition that renewals are timely is needed: a lease that ran out, or was released, and whose
-- name nobody took since, is renewed all the same, and comes on top of what the group holds by then,
-- whatever the ceiling was.
pub late_renewal_revives :
    (g : Text) (rows : Rows) (l : Lease) (row : Row) (ttl now : ℕ)
    → lookup l.name rows ≡ some row
    → row.epoch ≡ l.epoch
    → row.group ≡ some g
    → row.expires_at ≤ now
    → now < saturating_add now ttl
    → ((renew rows l ttl now).0 ≡ true)
      × (live_count g now (renew rows l ttl now).1 ≡ suc (live_count g now rows))
unfolding renew
late_renewal_revives g rows l row ttl now e p q r h =
    ground (arith, count-modify g now l.name (extend ttl now) row rows e)
