-- ===== src/Tickets/Postgres.antt =====
-- src/state/tickets.rs, `Postgres`: the tickets in the table `state.tickets`, whose primary key is
-- `id_hash`, the digest. A call is one statement, or one transaction that holds its row; what fails
-- for want of a connection is not modelled. A statement's parts read the table as it was before it,
-- so an insert meets an expired row that its own sweep deletes, and fails.
pub mod Refinement
use toolsite.Common.{
  ℕ, suc, Bool, true, false, not, ◌&&◌, Option, none, some, List, [], ◌∷◌, ◌++◌, Text, same, any,
  keep, count, map_option, ltb, if◌then◌else◌,
}
use toolsite.Tickets.{Row, Result, ok, err, is_live, counts, set_sealed, ended}

abbrev pub Table : Type 0
Table = List Row

-- `where id_hash = $1`, and the same with `kind = $2 and expires_at > $3`.
abbrev pub has_key : Text → Row → Bool
has_key digest row = same row.digest digest

abbrev pub selects : Text → Text → ℕ → Row → Bool
selects kind digest now row = has_key digest row && counts kind now row

abbrev pub first_where : (Row → Bool) → Table → Option Row
first_where q [] = none
first_where q (row ∷ t) = if q row then some row else first_where q t

-- `update … where`: how many rows it changed, and the table.
abbrev pub set_where : (Row → Bool) → (Row → Row) → Table → ℕ × Table
set_where q f [] = (0, [])
set_where q f (row ∷ t) =
    let (n, rest) = set_where q f t in if q row then (suc n, f row ∷ rest) else (n, row ∷ rest)

-- Nothing where the key is taken already.
unfoldable pub insert_row : Table → Row → ℕ → Option Table
insert_row t row now =
    if any (has_key row.digest) t then none else some (keep (is_live now) t ++ row ∷ [])

unfoldable pub get : Table → Text → Text → ℕ → Option Text
get t kind digest now = map_option (λ row. row.sealed) (first_where (selects kind digest now) t)

-- `delete … returning payload`.
unfoldable pub take : Table → Text → Text → ℕ → Option Text × Table
take t kind digest now = (
  map_option (λ row. row.sealed) (first_where (selects kind digest now) t),
  keep (λ row. not (selects kind digest now row)) t,
)

-- The edit's answer on the selected row; a transaction that fails leaves the table as it was.
abbrev pub apply_edit : Table → Text → Result (Option Text) → Result Bool × Table
apply_edit t digest (err e) = (err e, t)
apply_edit t digest (ok none) = (ok true, t)
apply_edit t digest (ok (some sealed)) =
    (ok true, (set_where (has_key digest) (set_sealed sealed) t).1)

abbrev pub edit_found :
    Table → Text → (Text → Result (Option Text)) → Option Row → Result Bool × Table
edit_found t digest edit none = (ok false, t)
edit_found t digest edit (some row) = apply_edit t digest (edit row.sealed)

unfoldable pub update :
    Table → Text → Text → ℕ → (Text → Result (Option Text)) → Result Bool × Table
update t kind digest now edit = edit_found t digest edit (first_where (selects kind digest now) t)

unfoldable pub live_count : Table → Text → ℕ → ℕ
live_count t kind now = count (counts kind now) t

unfoldable pub expire : Table → Text → Bool × Table
expire t digest = let (changed, t') = set_where (has_key digest) ended t in (ltb 0 changed, t')
