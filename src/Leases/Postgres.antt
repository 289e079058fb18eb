-- ===== src/Leases/Postgres.antt =====
-- src/state/leases.rs, `Postgres`: the store over the table `state.leases`, one row per name (the
-- table's primary key). A call is one transaction, or one statement, on the table; the database's
-- clock is read by each statement, so `acquire` takes three readings. A sum past the range of
-- `bigint` is an error, `none`, and leaves the table as it was. What fails for want of a connection
-- is not modelled.
pub mod Refinement
use toolsite.Common.{
  ℕ, suc, ◌+◌, Bool, true, false, not, ◌&&◌, Option, none, some, List, [], ◌∷◌, map, leb, ltb, ◌==◌,
  if◌then◌else◌, Text, same, count, any, keep, sort_by, text_le, starts_with, is_some, map_option,
}
use toolsite.Leases.{
  Lease, Taken, lease, held, full, Ended, again, released, lost, Row, i64_max, is_live, live_in,
  group_name, asked, spent, given_up, is_group, orphan_le,
}

-- The columns grp, epoch, expires_at and again are the fields of `row`.
pub record TableRow : Type 0 where
  pub name : Text
  pub holder : Text
  pub row : Row

abbrev pub Table : Type 0
Table = List TableRow

-- `bigint` addition.
abbrev pub add64 : ℕ → ℕ → Option ℕ
add64 a b = if leb (a + b) i64_max then some (a + b) else none

infixl 5 ◌>>=◌
abbrev pub ◌>>=◌ {ℓ κ} : {A : Type ℓ} {B : Type κ} → Option A → (A → Option B) → Option B
none >>= k = none
some a >>= k = k a

-- The rows `where name = $1 and q`.
abbrev pub selects : Text → (Row → Bool) → TableRow → Bool
selects k q r = same r.name k && q r.row

-- The first row of a select; there is one at most, by the primary key.
abbrev pub select_row : Text → (Row → Bool) → Table → Option Row
select_row k q [] = none
select_row k q (r ∷ t) = if selects k q r then some r.row else select_row k q t

-- `update … where name = $1 and q`: how many rows it changed, and the table.
pub update_where : Text → (Row → Bool) → (Row → Row) → Table → ℕ × Table
update_where k q f [] = (0, [])
update_where k q f (r ∷ t) =
    let (n, rest) = update_where k q f t in
    if selects k q r then (suc n, record r { row = f r.row } ∷ rest) else (n, r ∷ rest)

abbrev prepend : TableRow → ℕ × Table → ℕ × Table
prepend r (epoch, t) = (epoch, r ∷ t)

abbrev taken_row : Option Text → ℕ → ℕ → Row
taken_row grp epoch expires_at = record {
  group = grp;
  epoch = epoch;
  expires_at = expires_at;
  again = false;
}

-- `insert … on conflict (name) do update … returning epoch`.
pub upsert : Text → Option Text → Text → ℕ → Table → Option (ℕ × Table)
upsert name grp holder expires_at [] =
    some (1, record { name = name; holder = holder; row = taken_row grp 1 expires_at } ∷ [])
upsert name grp holder expires_at (r ∷ t) =
    if same r.name name
    then (do
      epoch ← add64 r.row.epoch 1
      some (epoch, record r { holder = holder; row = taken_row grp epoch expires_at } ∷ t))
    else map_option (prepend r) (upsert name grp holder expires_at t)

take_row : Table → Text → Option (Text × ℕ) → Text → ℕ → ℕ → Option (Taken × Table)
unfolding upsert
take_row t name group holder ttl now = do
  expires_at ← add64 now ttl
  done ← upsert name (group_name group) holder expires_at t
  some (lease (record { name = name; epoch = done.0 }), done.1)

take_in_group : Table → Text → Option (Text × ℕ) → Text → ℕ → ℕ → ℕ → Option (Taken × Table)
unfolding take_row
take_in_group t name none holder ttl t2 t3 = take_row t name none holder ttl t3
take_in_group t name (some (g, most)) holder ttl t2 t3 =
    let live =
      count (λ r. is_group g r.row.group && not (same r.name name) && is_live t2 r.row) t in
    if leb most live then some (full live, t) else take_row t name (some (g, most)) holder ttl t3

unfoldable pub acquire :
    Table → Text → Option (Text × ℕ) → Text → ℕ → ℕ → ℕ → ℕ → Option (Taken × Table)
unfolding take_in_group
acquire t name group holder ttl t1 t2 t3 =
    if is_some (select_row name (is_live t1) t)
    then some (held, t)
    else take_in_group t name group holder ttl t2 t3

abbrev changed : ℕ × Table → Bool × Table
changed (n, t) = (ltb 0 n, t)

abbrev has_epoch : Lease → Row → Bool
has_epoch l row = row.epoch == l.epoch

-- The new time is only computed for a row that the statement finds.
abbrev until : ℕ → Row → Row
until expires_at row = record row { expires_at = expires_at }

unfoldable pub renew : Table → Lease → ℕ → ℕ → Option (Bool × Table)
unfolding update_where
renew t l ttl now = elim (select_row l.name (has_epoch l) t) [
  | none ↦ some (false, t)
  | some _ ↦ do
    expires_at ← add64 now ttl
    some (changed (update_where l.name (has_epoch l) (until expires_at) t))
]

unfoldable pub release : Table → Lease → Option (Bool × Table)
unfolding update_where
release t l = some (changed (update_where l.name (has_epoch l) given_up t))

unfoldable pub state : Table → Text → ℕ → Option Bool
state t name now = map_option (λ row. row.again) (select_row name (is_live now) t)

abbrev every : Row → Bool
every row = true

unfoldable pub ask_again : Table → Text → ℕ → Option (Option Bool × Table)
unfolding update_where
ask_again t name now = elim (select_row name (is_live now) t) [
  | none ↦ some (none, t)
  | some old ↦ some (some old.again, (update_where name every asked t).1)
]

unfoldable pub again_or_release : Table → Lease → ℕ → ℕ → Option (Ended × Table)
unfolding update_where
again_or_release t l ttl now = elim (select_row l.name (has_epoch l) t) [
  | none ↦ some (lost, t)
  | some old ↦
      if old.again
      then (do
        expires_at ← add64 now ttl
        some (again, (update_where l.name every (λ row. until expires_at (spent row)) t).1))
      else some (released, (update_where l.name every given_up t).1)
]

unfoldable pub live : Table → Text → ℕ → List Text
unfolding sort_by
live t g now = sort_by text_le (map (λ r. r.name) (keep (λ r. live_in g now r.row) t))

abbrev pub is_orphan : Text → ℕ → TableRow → Bool
is_orphan prefix now r = r.row.again && starts_with r.name prefix && leb r.row.expires_at now

unfoldable pub orphans : Table → Text → ℕ → List (Text × Option Text)
unfolding sort_by
orphans t prefix now =
    sort_by orphan_le (map (λ r. (r.name, r.row.group)) (keep (is_orphan prefix now) t))
