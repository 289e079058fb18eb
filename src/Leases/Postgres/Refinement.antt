-- ===== src/Leases/Postgres/Refinement.antt =====
-- The two lease stores of src/state/leases.rs give the same answers: the table seen as a map.
use toolsite.Common.{
  ℕ, ◌+◌, ◌≤◌, ◌<◌, ◌≡◌, refl, Bool, true, false, not, ◌&&◌, Option, none, some, [], ◌∷◌, map,
  arith, Text, same, All, count, lookup, insert, modify, Distinct, filter_option, is_some, ltb,
  ◌==◌, ap, keep, sort_by, text_le,
}
use toolsite.Leases
use toolsite.Leases.{
  Lease, Row, Rows, i64_max, epoch_after, group_name, give, live_row, holding, is_live, live_in,
  given_up, asked, spent, extend, names, is_group, others_live, orphan_le,
}
use toolsite.Leases.Steps.{Call, acquires, renews, releases, asks, ends}
use toolsite.Leases.Postgres.{
  Table, select_row, update_where, upsert, acquire, renew, release, ask_again, again_or_release,
  state, live, orphans, is_orphan, take_row, taken_row,
}

abbrev pub view : Table → Rows
view t = map (λ r. (r.name, r.row)) t

abbrev pub Agrees : {A : Type 0} → Option (A × Table) → A × Rows → Type 0
Agrees none _ = ⊥
Agrees (some (a, t)) (b, rows) = (a ≡ b) × (view t ≡ rows)

select-none :
    (k : Text) (q : Row → Bool) (t : Table) → lookup k (view t) ≡ none → select_row k q t ≡ none
unfolding lookup
select-none k q [] h = refl
select-none k q (r ∷ t) h = ground (arith, select-none k q t)

pub select-view :
    (k : Text) (q : Row → Bool) (t : Table)
    → Distinct (view t)
    → select_row k q t ≡ filter_option q (lookup k (view t))
unfolding lookup
select-view k q [] d = refl
select-view k q (r ∷ t) d =
    ground (arith, select-view k q t d.1, select-none r.name q t d.0, select-none k q t)

module _ (k : Text) (q : Row → Bool) (f : Row → Row) where
  update-none : (t : Table) → lookup k (view t) ≡ none → update_where k q f t ≡ (0, t)
  unfolding lookup update_where
  update-none [] h = refl
  update-none (r ∷ t) h = ground (arith, update-none t)

  abbrev updated : Option Row → Rows → Rows
  updated none rows = rows
  updated (some _) rows = modify k f rows

  update-view :
      (t : Table)
      → Distinct (view t)
      → (view (update_where k q f t).1 ≡ updated (filter_option q (lookup k (view t))) (view t))
        × (ltb 0 (update_where k q f t).0 ≡ is_some (filter_option q (lookup k (view t))))
  unfolding lookup update_where modify
  update-view [] d = (refl, refl)
  update-view (r ∷ t) d = ground (arith, update-view t d.1, update-none t)

-- No epoch has reached the end of its column's range.
abbrev pub InRange : Table → Type 0
InRange t = All (λ r. r.row.epoch < i64_max) t

upsert-view :
    (k : Text) (grp : Option Text) (holder : Text) (expires_at : ℕ) (t : Table)
    → InRange t
    → Agrees (upsert k grp holder expires_at t) (
      epoch_after (lookup k (view t)),
      insert k (taken_row grp (epoch_after (lookup k (view t))) expires_at) (view t),
    )
unfolding lookup upsert insert
upsert-view k grp holder expires_at [] h = (refl, refl)
upsert-view k grp holder expires_at (r ∷ t) h =
    ground (arith, upsert-view k grp holder expires_at t h.1)

count-view :
    (g k : Text) (now : ℕ) (t : Table)
    → count (λ r. is_group g r.row.group && not (same r.name k) && is_live now r.row) t
      ≡ others_live k g now (view t)
count-view g k now [] = refl
count-view g k now (r ∷ t) = ground (arith, count-view g k now t)

module _ (t : Table) (d : Distinct (view t)) (now ttl : ℕ) where
  take_row-Agrees :
      (k : Text) (group : Option (Text × ℕ)) (holder : Text)
      → InRange t
      → now + ttl ≤ i64_max
      → Agrees (take_row t k group holder ttl now) (give (view t) k group ttl now)
  unfolding take_row give
  take_row-Agrees k group holder h fits =
      ground (arith, upsert-view k (group_name group) holder (now + ttl) t h)

  acquire-Agrees :
      (k : Text) (group : Option (Text × ℕ)) (holder : Text)
      → InRange t
      → now + ttl ≤ i64_max
      → Agrees (acquire t k group holder ttl now now now) (Leases.acquire (view t) k group ttl now)
  unfolding acquire Leases.acquire
  acquire-Agrees k none holder h fits =
      ground (arith, take_row-Agrees k none holder h fits, select-view k (is_live now) t d)
  acquire-Agrees k (some (g, n)) holder h fits = ground (
    arith,
    take_row-Agrees k (some (g, n)) holder h fits,
    select-view k (is_live now) t d,
    count-view g k now t,
  )

  renew-Agrees :
      (l : Lease)
      → now + ttl ≤ i64_max
      → Agrees (renew t l ttl now) (Leases.renew (view t) l ttl now)
  unfolding renew Leases.renew
  renew-Agrees l fits = ground (
    arith,
    select-view l.name (λ (row : Row). row.epoch == l.epoch) t d,
    update-view l.name (λ (row : Row). row.epoch == l.epoch)
        (λ (row : Row). record row { expires_at = now + ttl }) t d,
  )

  release-Agrees : (l : Lease) → Agrees (release t l) (Leases.release (view t) l)
  unfolding release Leases.release
  release-Agrees l =
      ground (arith, update-view l.name (λ (row : Row). row.epoch == l.epoch) given_up t d)

  ask_again-Agrees : (k : Text) → Agrees (ask_again t k now) (Leases.ask_again (view t) k now)
  unfolding ask_again Leases.ask_again
  ask_again-Agrees k =
      ground (arith, select-view k (is_live now) t d, update-view k (λ (row : Row). true) asked t d)

  again_or_release-Agrees :
      (l : Lease)
      → now + ttl ≤ i64_max
      → Agrees (again_or_release t l ttl now) (Leases.again_or_release (view t) l ttl now)
  unfolding again_or_release Leases.again_or_release
  again_or_release-Agrees l fits = ground (
    arith,
    select-view l.name (λ (row : Row). row.epoch == l.epoch) t d,
    update-view l.name (λ (row : Row). true) given_up t d,
    update-view l.name (λ (row : Row). true)
        (λ (row : Row). record row { expires_at = now + ttl; again = false }) t d,
  )

  state-view : (k : Text) → state t k now ≡ Leases.state (view t) k now
  unfolding state Leases.state
  state-view k = rw (select-view k (is_live now) t d)

live-view : (t : Table) (g : Text) (now : ℕ) → live t g now ≡ Leases.live (view t) g now
unfolding live Leases.live
live-view t g now = ap (sort_by text_le) (keep-view t)
  where
    keep-view :
        (t : Table)
        → map (λ r. r.name) (keep (λ r. live_in g now r.row) t)
          ≡ names (keep (λ e. live_in g now e.1) (view t))
    keep-view [] = refl
    keep-view (r ∷ t) = ground (arith, keep-view t)

orphans-view :
    (t : Table) (prefix : Text) (now : ℕ)
    → orphans t prefix now ≡ Leases.orphans (view t) prefix now
unfolding orphans Leases.orphans
orphans-view t prefix now = ap (sort_by orphan_le) (keep-view t)
  where
    keep-view :
        (t : Table)
        → map {B = Text × Option Text} (λ r. (r.name, r.row.group)) (keep (is_orphan prefix now) t)
          ≡ map (λ e. (e.0, e.1.group)) (keep (Leases.is_orphan prefix now) (view t))
    keep-view [] = refl
    keep-view (r ∷ t) = ground (arith, keep-view t)

-- What it is for the two stores to agree on a call made at one instant.
abbrev pub Agree : Table → Text → ℕ → Call → Type 0
Agree t holder now (acquires k group ttl) =
    Agrees (acquire t k group holder ttl now now now) (Leases.acquire (view t) k group ttl now)
Agree t holder now (renews l ttl) = Agrees (renew t l ttl now) (Leases.renew (view t) l ttl now)
Agree t holder now (releases l) = Agrees (release t l) (Leases.release (view t) l)
Agree t holder now (asks k) = Agrees (ask_again t k now) (Leases.ask_again (view t) k now)
Agree t holder now (ends l ttl) =
    Agrees (again_or_release t l ttl now) (Leases.again_or_release (view t) l ttl now)

abbrev pub ttl_of : Call → ℕ
ttl_of (acquires k group ttl) = ttl
ttl_of (renews l ttl) = ttl
ttl_of (releases l) = 0
ttl_of (asks k) = 0
ttl_of (ends l ttl) = ttl

-- On a table with one row to a name, at one reading of the clock and within the range of `bigint`,
-- every call that changes the Postgres store gives the answer of the memory store on the same rows,
-- and leaves the rows that it leaves.
pub calls-Agree :
    (t : Table) (holder : Text) (now : ℕ) (c : Call)
    → Distinct (view t)
    → InRange t
    → now + ttl_of c ≤ i64_max
    → Agree t holder now c
calls-Agree t holder now (acquires k group ttl) d h fits =
    acquire-Agrees t d now ttl k group holder h fits
calls-Agree t holder now (renews l ttl) d h fits = renew-Agrees t d now ttl l fits
calls-Agree t holder now (releases l) d h fits = release-Agrees t d now 0 l
calls-Agree t holder now (asks k) d h fits = ask_again-Agrees t d now 0 k
calls-Agree t holder now (ends l ttl) d h fits = again_or_release-Agrees t d now ttl l fits

-- The three questions that change nothing have the same answers too, on any table for the lists and
-- on one with one row to a name for a lease's state.
pub reads_agree :
    (t : Table) (k : Text) (now : ℕ)
    → Distinct (view t)
    → (state t k now ≡ Leases.state (view t) k now)
      × (live t k now ≡ Leases.live (view t) k now)
      × (orphans t k now ≡ Leases.orphans (view t) k now)
reads_agree t k now d = (state-view t d now 0 k, live-view t k now, orphans-view t k now)
