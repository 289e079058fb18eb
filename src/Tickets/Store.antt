-- ===== src/Tickets/Store.antt =====
-- Histories of the ticket store of src/state/tickets.rs, and what each call does to one digest.
use toolsite.Common.{
  ℕ, ◌≡◌, refl, ◌≢◌, Bool, true, false, ◌&&◌, Option, none, some, List, [], ◌∷◌, arith,
  if◌then◌else◌, Text, same, lookup, lookup-insert, lookup-remove, lookup-modify, is_some,
  filter_option, Distinct, insert-Distinct, modify-Distinct, remove-Distinct, Option-cases, inl,
  inr,
}
use toolsite.Tickets.{
  Row, Rows, Result, ok, err, counts, is_live, retain, set_sealed, apply_edit, put, take, update,
  expire, ended,
}

pub data Call : Type 0 where
  puts : Row → Call
  gets takes : Text → Text → Call
  updates : Text → Text → (Text → Result (Option Text)) → Call
  expires : Text → Call

unfoldable pub step : Rows → ℕ × Call → Rows
step rows (now, puts row) = put rows row now
step rows (now, gets kind digest) = rows
step rows (now, takes kind digest) = (take rows kind digest now).1
step rows (now, updates kind digest edit) = (update rows kind digest now edit).1
step rows (now, expires digest) = (expire rows digest).1

unfoldable pub run : Rows → List (ℕ × Call) → Rows
run rows [] = rows
run rows (c ∷ cs) = run (step rows c) cs

-- The ticket that a call names, if it can change it.
abbrev pub subject : Call → Option Text
subject (puts row) = some row.digest
subject (gets kind digest) = none
subject (takes kind digest) = some digest
subject (updates kind digest edit) = some digest
subject (expires digest) = some digest

pub retain-lookup :
    (p : Row → Bool) (k : Text) (rows : Rows)
    → Distinct rows
    → lookup k (retain p rows) ≡ filter_option p (lookup k rows)
unfolding lookup
retain-lookup p k [] d = refl
retain-lookup p k ((j, row) ∷ rows) d = ground (arith, retain-lookup p k rows d.1)

pub retain-Distinct : (p : Row → Bool) (rows : Rows) → Distinct rows → Distinct (retain p rows)
unfolding lookup
retain-Distinct p [] d = tt
retain-Distinct p ((j, row) ∷ rows) d =
    ground (arith, retain-Distinct p rows d.1, retain-lookup p j rows d.1)

pub lookup-put :
    (rows : Rows) (row : Row) (now : ℕ) (k : Text)
    → Distinct rows
    → lookup k (put rows row now)
      ≡ (if same row.digest k then some row else filter_option (is_live now) (lookup k rows))
unfolding put
lookup-put rows row now k d = ground (
  arith,
  lookup-insert row.digest k row (retain (is_live now) rows),
  retain-lookup (is_live now) k rows d,
)

pub lookup-take :
    (rows : Rows) (kind digest : Text) (now : ℕ) (k : Text)
    → lookup k (take rows kind digest now).1 ≡ (
        if same digest k && is_some (filter_option (counts kind now) (lookup k rows))
        then none
        else lookup k rows)
unfolding take
lookup-take rows kind digest now k = ground (arith, lookup-remove {V = Row} digest k rows)

apply_edit-lookup_other :
    (rows : Rows) (digest k : Text) (r : Result (Option Text))
    → same digest k ≡ false
    → lookup k (apply_edit rows digest r).1 ≡ lookup k rows
apply_edit-lookup_other rows digest k (err e) h = refl
apply_edit-lookup_other rows digest k (ok none) h = refl
apply_edit-lookup_other rows digest k (ok (some s)) h =
    ground (arith, lookup-modify digest k (set_sealed s) rows)

pub lookup-update_other :
    (rows : Rows) (kind digest : Text) (now : ℕ) (edit : Text → Result (Option Text)) (k : Text)
    → same digest k ≡ false
    → lookup k (update rows kind digest now edit).1 ≡ lookup k rows
unfolding update
lookup-update_other rows kind digest now edit k h =
    elim (Option-cases (filter_option (counts kind now) (lookup digest rows))) [
      | inl e ↦ rw (e, update)
      | inr (row, e) ↦ rw (e, update) (apply_edit-lookup_other rows digest k (edit row.sealed) h)
    ]

apply_edit-none :
    (rows : Rows) (digest k : Text) (r : Result (Option Text))
    → lookup k rows ≡ none
    → lookup k (apply_edit rows digest r).1 ≡ none
apply_edit-none rows digest k (err e) h = h
apply_edit-none rows digest k (ok none) h = h
apply_edit-none rows digest k (ok (some s)) h =
    ground (arith, lookup-modify digest k (set_sealed s) rows)

lookup-update-none :
    (rows : Rows) (kind digest : Text) (now : ℕ) (edit : Text → Result (Option Text)) (k : Text)
    → lookup k rows ≡ none
    → lookup k (update rows kind digest now edit).1 ≡ none
unfolding update
lookup-update-none rows kind digest now edit k h =
    elim (Option-cases (filter_option (counts kind now) (lookup digest rows))) [
      | inl e ↦ rw (e, update) h
      | inr (row, e) ↦ rw (e, update) (apply_edit-none rows digest k (edit row.sealed) h)
    ]

-- The calls on other tickets leave a live ticket as it is, the sweep of `put` included.
pub lookup-step-other :
    (rows : Rows) (now : ℕ) (c : Call) (k : Text) (row : Row)
    → Distinct rows
    → subject c ≢ some k
    → lookup k rows ≡ some row
    → is_live now row ≡ true
    → lookup k (step rows (now, c)) ≡ some row
unfolding step expire
lookup-step-other rows now (puts r) k row d n e l = ground (arith, lookup-put rows r now k d)
lookup-step-other rows now (gets kind digest) k row d n e l = e
lookup-step-other rows now (takes kind digest) k row d n e l =
    ground (arith, lookup-take rows kind digest now k)
lookup-step-other rows now (updates kind digest edit) k row d n e l =
    ground (arith, lookup-update_other rows kind digest now edit k)
lookup-step-other rows now (expires digest) k row d n e l =
    ground (arith, lookup-modify digest k ended rows)

-- No call but `put` brings a ticket back.
pub lookup-step-none :
    (rows : Rows) (now : ℕ) (c : Call) (k : Text)
    → Distinct rows
    → ((row : Row) → c ≡ puts row → row.digest ≢ k)
    → lookup k rows ≡ none
    → lookup k (step rows (now, c)) ≡ none
unfolding step expire
lookup-step-none rows now (puts r) k d n e = ground (arith, lookup-put rows r now k d, n r refl)
lookup-step-none rows now (gets kind digest) k d n e = e
lookup-step-none rows now (takes kind digest) k d n e =
    ground (arith, lookup-take rows kind digest now k)
lookup-step-none rows now (updates kind digest edit) k d n e =
    lookup-update-none rows kind digest now edit k e
lookup-step-none rows now (expires digest) k d n e =
    ground (arith, lookup-modify digest k ended rows)

apply_edit-Distinct :
    (rows : Rows) (digest : Text) (r : Result (Option Text))
    → Distinct rows
    → Distinct (apply_edit rows digest r).1
apply_edit-Distinct rows digest (err e) d = d
apply_edit-Distinct rows digest (ok none) d = d
apply_edit-Distinct rows digest (ok (some s)) d = modify-Distinct digest (set_sealed s) rows d

update-Distinct :
    (rows : Rows) (kind digest : Text) (now : ℕ) (edit : Text → Result (Option Text))
    → Distinct rows
    → Distinct (update rows kind digest now edit).1
unfolding update
update-Distinct rows kind digest now edit d =
    elim (Option-cases (filter_option (counts kind now) (lookup digest rows))) [
      | inl e ↦ rw (e, update) d
      | inr (row, e) ↦ rw (e, update) (apply_edit-Distinct rows digest (edit row.sealed) d)
    ]

pub step-Distinct : (rows : Rows) (c : ℕ × Call) → Distinct rows → Distinct (step rows c)
unfolding step put take expire
step-Distinct rows (now, puts r) d =
    insert-Distinct r.digest r (retain (is_live now) rows) (retain-Distinct (is_live now) rows d)
step-Distinct rows (now, gets kind digest) d = d
step-Distinct rows (now, takes kind digest) d = ground (arith, remove-Distinct digest rows d)
step-Distinct rows (now, updates kind digest edit) d = update-Distinct rows kind digest now edit d
step-Distinct rows (now, expires digest) d = modify-Distinct digest ended rows d
