-- ===== src/Runners.antt =====
-- src/state/runners.rs: the registry of the processes on one database, and `sqlite_refusal` of
-- src/state/mod.rs, by which one that saw another refuses the apps' files. The table has one row per
-- runner (its primary key). Each statement is a step of its own, so those of other runners may come
-- between the two of a heartbeat. Times are whole seconds, as `now` reads them. What fails for want of
-- a connection ends the call there, with the steps it had done.

mod Tests
pub mod History
pub mod Alone
use toolsite.Common.{
  ℕ, ◌+◌, Bool, true, false, not, ◌&&◌, Option, none, some, List, [], ◌∷◌, ◌++◌, map, leb, ltb,
  if◌then◌else◌, Text, codes, same, keep, sort_by, Assoc, lookup, insert,
}

abbrev pub live_for : ℕ
live_for = 30

abbrev pub forget_after : ℕ
forget_after = 3600

-- A process, less the others that it saw last (`peers`), which `World` keeps.
pub record Runner : Type 0 where
  pub id : Text
  pub roles : List Text
  pub pool : Text
  pub address : Option Text
  pub internal_port : ℕ

pub record Row : Type 0 where
  pub id : Text
  pub roles : List Text
  pub pool : Text
  pub address : Option Text
  pub internal_port : ℕ
  pub started_at : ℕ
  pub heartbeat_at : ℕ

abbrev pub Table : Type 0
Table = List Row

-- `heartbeat_at > at - 30`.
abbrev pub is_live : ℕ → ℕ → Bool
is_live at heartbeat_at = ltb at (heartbeat_at + live_for)

-- `not (heartbeat_at < at - 3600)`.
abbrev pub is_kept : ℕ → ℕ → Bool
is_kept at heartbeat_at = leb at (heartbeat_at + forget_after)

-- The first statement of `beat`: an upsert.
unfoldable pub write_row : Runner → ℕ → Table → Table
write_row r at [] =
    record {
      id = r.id;
      roles = r.roles;
      pool = r.pool;
      address = r.address;
      internal_port = r.internal_port;
      started_at = at;
      heartbeat_at = at;
    }
    ∷ []
write_row r at (row ∷ rows) =
    if same row.id r.id then record row { heartbeat_at = at } ∷ rows else row ∷ write_row r at rows

-- The sweep that `register` begins with.
abbrev pub sweep : ℕ → Table → Table
sweep at rows = keep (λ row. is_kept at row.heartbeat_at) rows

abbrev pub delete_row : Text → Table → Table
delete_row id rows = keep (λ row. not (same row.id id)) rows

-- The table, and by runner the `peers` of its process.
pub record World : Type 0 where
  pub rows : Table
  pub peers : Assoc (List Text)

abbrev or_empty : Option (List Text) → List Text
or_empty none = []
or_empty (some ids) = ids

abbrev pub peers : Text → World → List Text
peers id w = or_empty (lookup id w.peers)

-- `le` is the order of the database's collation.
module _ (le : Text → Text → Bool) where
  -- `live`: every runner that is live.
  abbrev pub live : ℕ → Table → List Text
  live at rows = sort_by le (map (λ row. row.id) (keep (λ row. is_live at row.heartbeat_at) rows))

  -- The second statement of `beat`: the others that are live.
  unfoldable pub others : Text → ℕ → Table → List Text
  others me at rows =
      sort_by le (
        map (λ row. row.id)
          (keep (λ row. not (same row.id me) && is_live at row.heartbeat_at) rows))

  unfoldable pub look : Text → ℕ → World → World
  look me at w = record w { peers = insert me (others me at w.rows) w.peers }

  -- `beat` and `register` where no other runner's statement comes between theirs.
  abbrev pub beat : Runner → ℕ → World → List Text × World
  beat r at w =
      let w' = look r.id at (record w { rows = write_row r at w.rows }) in (peers r.id w', w')

  abbrev pub register : Runner → ℕ → ℕ → World → List Text × World
  register r swept_at at w = beat r at (record w { rows = sweep swept_at w.rows })

abbrev joined : List Text → Text
joined [] = []
joined (id ∷ []) = id
joined (id ∷ ids) = id ++ codes ", " ++ joined ids

-- `none` for the runner where the site is kept in files.
abbrev pub sqlite_refusal : Option (List Text) → Option Text
sqlite_refusal none = none
sqlite_refusal (some []) = none
sqlite_refusal (some ids) = some (
    codes "another toolsite runner is live on this database ("
    ++ joined ids
    ++ codes
        "); app databases are SQLite files on one volume, so they are refused until this runner is alone")
