-- ===== src/Leases.antt =====
-- src/state/leases.rs: leases with fencing epochs, group ceilings and requests for one more turn.
-- This file is the memory store, one map behind one lock: every method is one step on it. The clock
-- is an argument of each call. A time is a number of milliseconds, not negative and below 2^63; an
-- epoch is the bit pattern of its `i64`, so that adding one wraps at 2^64.
pub mod Steps
pub mod Lookup
pub mod Epochs
pub mod Exclusion
pub mod Ceiling
pub mod Postgres
mod Tests
use toolsite.Common.{
  ℕ, ◌+◌, ◌%◌, ◌^◌, min, max, Bool, true, false, not, ◌&&◌, Option, none, some, List, map, ltb, leb,
  ◌==◌, if◌then◌else◌, Text, same, starts_with, Assoc, lookup, insert, modify, count, keep, is_some,
  sort_by, text_le, filter_option, map_option,
}

pub record Lease : Type 0 where
  pub name : Text
  pub epoch : ℕ

pub data Taken : Type 0 where
  lease : Lease → Taken
  held : Taken
  full : ℕ → Taken

pub data Ended : Type 0 where
  again released lost : Ended

pub record Row : Type 0 where
  pub group : Option Text
  pub epoch : ℕ
  pub expires_at : ℕ
  pub again : Bool

abbrev pub Rows : Type 0
Rows = Assoc Row

abbrev pub i64_max : ℕ
i64_max = 9223372036854775807

-- `i64::saturating_add`, of two numbers that are not negative.
abbrev pub saturating_add : ℕ → ℕ → ℕ
saturating_add a b = min (a + b) i64_max

-- What a `Duration` of so many whole milliseconds is as a time to live.
abbrev pub millis : ℕ → ℕ
millis ttl = max (min ttl i64_max) 1

abbrev pub next_epoch : ℕ → ℕ
next_epoch epoch = (epoch + 1) % 2 ^ 64

abbrev pub is_live : ℕ → Row → Bool
is_live now row = ltb now row.expires_at

-- The row `get(name).filter(|row| row.expires_at > now)`.
abbrev pub live_row : Rows → Text → ℕ → Option Row
live_row rows name now = filter_option (is_live now) (lookup name rows)

-- `row.group.as_deref() == Some(group)`.
abbrev pub is_group : Text → Option Text → Bool
is_group g none = false
is_group g (some h) = same h g

abbrev pub live_in : Text → ℕ → Row → Bool
live_in g now row = is_group g row.group && is_live now row

abbrev pub others_live : Text → Text → ℕ → Rows → ℕ
others_live name g now rows = count (λ e. not (same e.0 name) && live_in g now e.1) rows

abbrev pub epoch_after : Option Row → ℕ
epoch_after none = 1
epoch_after (some row) = next_epoch row.epoch

abbrev pub group_name : Option (Text × ℕ) → Option Text
group_name = map_option (λ g. g.0)

-- The end of `acquire`: the row is written over, with the next epoch and no request.
unfoldable pub give : Rows → Text → Option (Text × ℕ) → ℕ → ℕ → Taken × Rows
give rows name group ttl now =
    let epoch = epoch_after (lookup name rows) in
    let row : Row = record {
      group = group_name group;
      epoch = epoch;
      expires_at = saturating_add now ttl;
      again = false;
    } in
    (lease (record { name = name; epoch = epoch }), insert name row rows)

pub give_in_group : Rows → Text → Option (Text × ℕ) → ℕ → ℕ → Taken × Rows
unfolding give
give_in_group rows name none ttl now = give rows name none ttl now
give_in_group rows name (some (g, most)) ttl now =
    let live = others_live name g now rows in
    if leb most live then (full live, rows) else give rows name (some (g, most)) ttl now

unfoldable pub acquire : Rows → Text → Option (Text × ℕ) → ℕ → ℕ → Taken × Rows
unfolding give_in_group
acquire rows name group ttl now =
    if is_some (live_row rows name now) then (held, rows) else give_in_group rows name group ttl now

-- The row that a lease still holds: `get_mut(&lease.name).filter(|row| row.epoch == lease.epoch)`.
abbrev pub holding : Rows → Lease → Option Row
holding rows l = filter_option (λ row. row.epoch == l.epoch) (lookup l.name rows)

-- The writes through `get_mut`.
abbrev pub extend : ℕ → ℕ → Row → Row
extend ttl now row = record row { expires_at = saturating_add now ttl }

abbrev pub asked : Row → Row
asked row = record row { again = true }

abbrev pub spent : Row → Row
spent row = record row { again = false }

abbrev pub given_up : Row → Row
given_up row = record row { expires_at = 0; again = false }

unfoldable pub renew : Rows → Lease → ℕ → ℕ → Bool × Rows
renew rows l ttl now = elim (holding rows l) [
  | none ↦ (false, rows)
  | some _ ↦ (true, modify l.name (extend ttl now) rows)
]

unfoldable pub release : Rows → Lease → Bool × Rows
release rows l = elim (holding rows l) [
  | none ↦ (false, rows)
  | some _ ↦ (true, modify l.name given_up rows)
]

unfoldable pub state : Rows → Text → ℕ → Option Bool
state rows name now = map_option (λ row. row.again) (live_row rows name now)

unfoldable pub ask_again : Rows → Text → ℕ → Option Bool × Rows
ask_again rows name now = elim (live_row rows name now) [
  | none ↦ (none, rows)
  | some row ↦ (some row.again, modify name asked rows)
]

unfoldable pub again_or_release : Rows → Lease → ℕ → ℕ → Ended × Rows
again_or_release rows l ttl now = elim (holding rows l) [
  | none ↦ (lost, rows)
  | some row ↦
      if row.again
      then (again, modify l.name (λ r. extend ttl now (spent r)) rows)
      else (released, modify l.name given_up rows)
]

abbrev pub names {ℓ} : {V : Type ℓ} → Assoc V → List Text
names m = map (λ e. e.0) m

unfoldable pub live : Rows → Text → ℕ → List Text
unfolding sort_by
live rows g now = sort_by text_le (names (keep (λ e. live_in g now e.1) rows))

-- `Option<String>` and pairs are ordered as Rust derives it: `None` first, and by the first part.
abbrev pub option_le : Option Text → Option Text → Bool
option_le none _ = true
option_le (some a) none = false
option_le (some a) (some b) = text_le a b

abbrev pub orphan_le : Text × Option Text → Text × Option Text → Bool
orphan_le (a, g) (b, h) = if same a b then option_le g h else text_le a b

abbrev pub is_orphan : Text → ℕ → Text × Row → Bool
is_orphan prefix now (name, row) = starts_with name prefix && row.again && leb row.expires_at now

unfoldable pub orphans : Rows → Text → ℕ → List (Text × Option Text)
unfolding sort_by
orphans rows prefix now =
    sort_by orphan_le (map (λ e. (e.0, e.1.group)) (keep (is_orphan prefix now) rows))
