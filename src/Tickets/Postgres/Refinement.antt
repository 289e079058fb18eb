-- ===== src/Tickets/Postgres/Refinement.antt =====
-- The two stores of src/state/tickets.rs agree: the table, read as a map from digests, answers and
-- changes as the memory store does.
use toolsite.Common.{
  ℕ, ◌≡◌, refl, Bool, not, ◌&&◌, Option, none, some, [], ◌∷◌, ◌++◌, arith, map, Text, any, keep,
  count, map_option, is_some, ltb, if◌then◌else◌, lookup, insert, remove, modify, Distinct,
  filter_option, lookup-eq_none_of_remove, ap, ◌∙◌, Option-cases, inl, inr,
}
use toolsite.Tickets
use toolsite.Tickets.{Row, Rows, Result, ok, err, is_live, counts, set_sealed, ended, retain}
use toolsite.Tickets.Store.{Call, puts, gets, takes, updates, expires, retain-lookup}
use toolsite.Tickets.Postgres.{
  Table, has_key, selects, first_where, set_where, insert_row, get, take, update, expire,
  live_count, apply_edit,
}

abbrev pub view : Table → Rows
view t = map (λ row. (row.digest, row)) t

lookup-view : (digest : Text) (t : Table) → lookup digest (view t) ≡ first_where (has_key digest) t
unfolding lookup
lookup-view digest [] = refl
lookup-view digest (row ∷ t) = ground (arith, lookup-view digest t)

-- A key is in one row, so that the rest of a condition is about that row.
first-selects :
    (p : Row → Bool) (digest : Text) (t : Table)
    → Distinct (view t)
    → first_where (λ row. has_key digest row && p row) t ≡ filter_option p (lookup digest (view t))
unfolding lookup
first-selects p digest [] d = refl
first-selects p digest (row ∷ t) d = ground (arith, first-selects p digest t d.1)

view-keep : (p : Row → Bool) (t : Table) → view (keep p t) ≡ retain p (view t)
view-keep p [] = refl
view-keep p (row ∷ t) = ground (arith, view-keep p t)

view-append :
    (row : Row) (t : Table)
    → lookup row.digest (view t) ≡ none
    → view (t ++ row ∷ []) ≡ insert row.digest row (view t)
unfolding lookup insert
view-append row [] e = refl
view-append row (r ∷ t) e = ground (arith, view-append row t)

set_where-eq_none :
    (digest : Text) (f : Row → Row) (t : Table)
    → lookup digest (view t) ≡ none
    → (set_where (has_key digest) f t).1 ≡ t
unfolding lookup
set_where-eq_none digest f [] e = refl
set_where-eq_none digest f (row ∷ t) e = ground (arith, set_where-eq_none digest f t)

view-set_where :
    (digest : Text) (f : Row → Row) (t : Table)
    → ((row : Row) → (f row).digest ≡ row.digest)
    → Distinct (view t)
    → view (set_where (has_key digest) f t).1 ≡ modify digest f (view t)
unfolding lookup modify
view-set_where digest f [] h d = refl
view-set_where digest f (row ∷ t) h d =
    ground (arith, view-set_where digest f t h d.1, set_where-eq_none digest f t, h row)

changed-set_where :
    (digest : Text) (f : Row → Row) (t : Table)
    → ltb 0 (set_where (has_key digest) f t).0 ≡ is_some (lookup digest (view t))
unfolding lookup
changed-set_where digest f [] = refl
changed-set_where digest f (row ∷ t) = ground (arith, changed-set_where digest f t)

view-take :
    (kind digest : Text) (now : ℕ) (t : Table)
    → Distinct (view t)
    → view (keep (λ row. not (selects kind digest now row)) t) ≡ (
        if is_some (filter_option (counts kind now) (lookup digest (view t)))
        then remove digest (view t)
        else view t)
unfolding lookup remove
view-take kind digest now [] d = refl
view-take kind digest now (row ∷ t) d =
    ground (arith, view-take kind digest now t d.1, lookup-eq_none_of_remove digest (view t))

any-has_key :
    (digest : Text) (t : Table) → any (has_key digest) t ≡ is_some (lookup digest (view t))
unfolding lookup
any-has_key digest [] = refl
any-has_key digest (row ∷ t) = ground (arith, any-has_key digest t)

insert_agrees :
    (t : Table) (row : Row) (now : ℕ)
    → Distinct (view t)
    → lookup row.digest (view t) ≡ none
    → (t' : Table) × (insert_row t row now ≡ some t') × (view t' ≡ Tickets.put (view t) row now)
unfolding insert_row Tickets.put
insert_agrees t row now d n =
    let kept = keep (is_live now) t in
    let gone : lookup row.digest (view kept) ≡ none =
      rw (view-keep (is_live now) t)
        (rw (retain-lookup (is_live now) row.digest (view t) d) (rw n refl)) in
    (
      kept ++ row ∷ [],
      ground (arith, any-has_key row.digest t),
      view-append row kept gone ∙ ap (insert row.digest row) (view-keep (is_live now) t),
    )

count-view : (p : Row → Bool) (t : Table) → count p t ≡ count (λ e. p e.1) (view t)
count-view p [] = refl
count-view p (row ∷ t) = ground (arith, count-view p t)

take_agrees :
    (t : Table) (kind digest : Text) (now : ℕ)
    → Distinct (view t)
    → ((take t kind digest now).0 ≡ (Tickets.take (view t) kind digest now).0)
      × (view (take t kind digest now).1 ≡ (Tickets.take (view t) kind digest now).1)
unfolding take Tickets.take
take_agrees t kind digest now d = (
  ground (arith, first-selects (counts kind now) digest t d),
  ground (arith, view-take kind digest now t d),
)

apply_edit_agrees :
    (t : Table) (digest : Text) (r : Result (Option Text))
    → Distinct (view t)
    → ((apply_edit t digest r).0 ≡ (Tickets.apply_edit (view t) digest r).0)
      × (view (apply_edit t digest r).1 ≡ (Tickets.apply_edit (view t) digest r).1)
apply_edit_agrees t digest (err e) d = (refl, refl)
apply_edit_agrees t digest (ok none) d = (refl, refl)
apply_edit_agrees t digest (ok (some z)) d =
    (refl, view-set_where digest (set_sealed z) t (λ row. refl) d)

update_agrees :
    (t : Table) (kind digest : Text) (now : ℕ) (edit : Text → Result (Option Text))
    → Distinct (view t)
    → ((update t kind digest now edit).0 ≡ (Tickets.update (view t) kind digest now edit).0)
      × (view (update t kind digest now edit).1 ≡ (Tickets.update (view t) kind digest now edit).1)
unfolding update Tickets.update
update_agrees t kind digest now edit d =
    elim (Option-cases (filter_option (counts kind now) (lookup digest (view t)))) [
      | inl e ↦
          rw (first-selects (counts kind now) digest t d, update)
            (rw (e, Tickets.update) (refl, refl))
      | inr (row, e) ↦
          rw (first-selects (counts kind now) digest t d, update)
            (rw (e, Tickets.update) (apply_edit_agrees t digest (edit row.sealed) d))
    ]

-- An answer of a ticket store: the payload that `get` or `take` found, whether `update` or `expire`
-- found its ticket, and nothing of `insert`.
pub data Answer : Type 0 where
  stored : Answer
  payload : Option Text → Answer
  edited : Result Bool → Answer
  found : Bool → Answer

-- A call's answer and the memory store after it.
abbrev pub answer : Rows → ℕ × Call → Answer × Rows
answer rows (now, puts row) = (stored, Tickets.put rows row now)
answer rows (now, gets kind digest) = (payload (Tickets.get rows kind digest now), rows)
answer rows (now, takes kind digest) =
    let (got, rows') = Tickets.take rows kind digest now in (payload got, rows')
answer rows (now, updates kind digest edit) =
    let (done, rows') = Tickets.update rows kind digest now edit in (edited done, rows')
answer rows (now, expires digest) =
    let (was, rows') = Tickets.expire rows digest in (found was, rows')

-- The same of the table; `none` where the statement fails.
abbrev pub execute : Table → ℕ × Call → Option (Answer × Table)
execute t (now, puts row) = map_option (λ t'. (stored, t')) (insert_row t row now)
execute t (now, gets kind digest) = some (payload (get t kind digest now), t)
execute t (now, takes kind digest) =
    let (got, t') = take t kind digest now in some (payload got, t')
execute t (now, updates kind digest edit) =
    let (done, t') = update t kind digest now edit in some (edited done, t')
execute t (now, expires digest) = let (was, t') = expire t digest in some (found was, t')

abbrev pub view_answer : Answer × Table → Answer × Rows
view_answer (a, t) = (a, view t)

-- An id is drawn at random for each ticket: no row has the digest of the one that is stored.
abbrev pub IsFresh : Table → ℕ × Call → Type 0
IsFresh t (now, puts row) = lookup row.digest (view t) ≡ none
IsFresh t (now, call) = Unit {0}

live_count-view :
    (t : Table) (kind : Text) (now : ℕ)
    → live_count t kind now ≡ Tickets.live_count (view t) kind now
unfolding live_count Tickets.live_count
live_count-view [] kind now = refl
live_count-view (row ∷ t) kind now = ground (arith, live_count-view t kind now)

call_agrees :
    (t : Table) (call : ℕ × Call)
    → Distinct (view t)
    → IsFresh t call
    → map_option view_answer (execute t call) ≡ some (answer (view t) call)
unfolding insert_row get expire Tickets.put Tickets.get Tickets.expire
call_agrees t (now, puts row) d n = let (t', e, v) = insert_agrees t row now d n in cc
call_agrees t (now, gets kind digest) d n =
    ground (arith, first-selects (counts kind now) digest t d)
call_agrees t (now, takes kind digest) d n = let (a, b) = take_agrees t kind digest now d in cc
call_agrees t (now, updates kind digest edit) d n =
    let (a, b) = update_agrees t kind digest now edit d in cc
call_agrees t (now, expires digest) d n =
    ground (arith, changed-set_where digest ended t, view-set_where digest ended t (λ row. refl) d)

-- The two backends are one store: on a table with one row for each digest, an insert, a get, a take, an
-- update and an expiry answer as the memory store does, and leave the table that reads as the memory
-- store is left; and a count finds as many live tickets of a kind. For an insert this is where the
-- digest is in no row.
pub table_is_memory :
    (t : Table) (call : ℕ × Call) (kind : Text) (at : ℕ)
    → Distinct (view t)
    → IsFresh t call
    → (map_option view_answer (execute t call) ≡ some (answer (view t) call))
      × (live_count t kind at ≡ Tickets.live_count (view t) kind at)
table_is_memory t call kind at d n = (call_agrees t call d n, live_count-view t kind at)
