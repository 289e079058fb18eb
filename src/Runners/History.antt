-- ===== src/Runners/History.antt =====
-- Histories of the registry of src/state/runners.rs, statement by statement, and what a look at the
-- table finds after one.
use toolsite.Common.{
  ℕ, ◌+◌, ◌≤◌, ◌≡◌, refl, ◌∙◌, Bool, false, not, ◌&&◌, Option, none, some, List, [], ◌∷◌, arith,
  if◌then◌else◌, Text, same, any, filter_option, map, keep, any-sort_by, Assoc, lookup, insert,
  remove, Distinct, lookup-insert, lookup-remove, insert-Distinct, remove-Distinct,
}
use toolsite.Runners.{
  Runner, Row, Table, World, is_live, is_kept, write_row, sweep, delete_row, others, look,
}

-- A statement of some runner: the sweep of `register`, the write and the read of a `beat`, with the time
-- the beat read before both, and the delete of `leave`.
pub data Step : Type 0 where
  sweeps : ℕ → Step
  writes : Runner → ℕ → Step
  looks : Text → ℕ → Step
  leaves : Text → Step

module _ (le : Text → Text → Bool) where
  unfoldable pub step : Step → World → World
  step (sweeps at) w = record w { rows = sweep at w.rows }
  step (writes r at) w = record w { rows = write_row r at w.rows }
  step (looks me at) w = look le me at w
  step (leaves me) w = record w { rows = delete_row me w.rows }

  -- The world after a history, the last step first, from an empty registry.
  unfoldable pub after : List Step → World
  after [] = record { rows = []; peers = [] }
  after (s ∷ log) = step s (after log)

-- The time of the runner's last heartbeat, unless it left since.
unfoldable pub last_beat : Text → List Step → Option ℕ
last_beat k [] = none
last_beat k (sweeps at ∷ log) = last_beat k log
last_beat k (writes r at ∷ log) = if same r.id k then some at else last_beat k log
last_beat k (looks me at ∷ log) = last_beat k log
last_beat k (leaves me ∷ log) = if same me k then none else last_beat k log

-- Every sweep read a time up to `most`.
abbrev pub SweptBy : ℕ → List Step → Type 0
SweptBy most [] = Unit
SweptBy most (sweeps at ∷ log) = (at ≤ most) × SweptBy most log
SweptBy most (writes r at ∷ log) = SweptBy most log
SweptBy most (looks me at ∷ log) = SweptBy most log
SweptBy most (leaves me ∷ log) = SweptBy most log

pub SweptBy-le : (m n : ℕ) (log : List Step) → m ≤ n → SweptBy m log → SweptBy n log
SweptBy-le m n [] h s = tt
SweptBy-le m n (sweeps at ∷ log) h s = (omega (arith, s.0), SweptBy-le m n log h s.1)
SweptBy-le m n (writes r at ∷ log) h s = SweptBy-le m n log h s
SweptBy-le m n (looks me at ∷ log) h s = SweptBy-le m n log h s
SweptBy-le m n (leaves me ∷ log) h s = SweptBy-le m n log h s

abbrev view : Table → Assoc ℕ
view rows = map (λ row. (row.id, row.heartbeat_at)) rows

abbrev pub holds : (ℕ → Bool) → Option ℕ → Bool
holds p none = false
holds p (some t) = p t

view-write_row :
    (r : Runner) (at : ℕ) (rows : Table) → view (write_row r at rows) ≡ insert r.id at (view rows)
unfolding write_row insert
view-write_row r at [] = refl
view-write_row r at (row ∷ rows) = ground (arith, view-write_row r at rows)

view-delete_row : (me : Text) (rows : Table) → view (delete_row me rows) ≡ remove me (view rows)
unfolding remove
view-delete_row me [] = refl
view-delete_row me (row ∷ rows) = ground (arith, view-delete_row me rows)

lookup-sweep-none :
    (k : Text) (at : ℕ) (rows : Table)
    → lookup k (view rows) ≡ none
    → lookup k (view (sweep at rows)) ≡ none
unfolding lookup
lookup-sweep-none k at [] h = refl
lookup-sweep-none k at (row ∷ rows) h = ground (arith, lookup-sweep-none k at rows)

lookup-sweep :
    (k : Text) (at : ℕ) (rows : Table)
    → Distinct (view rows)
    → lookup k (view (sweep at rows)) ≡ filter_option (is_kept at) (lookup k (view rows))
unfolding lookup
lookup-sweep k at [] d = refl
lookup-sweep k at (row ∷ rows) d =
    ground (arith, lookup-sweep k at rows d.1, lookup-sweep-none k at rows)

sweep-Distinct : (at : ℕ) (rows : Table) → Distinct (view rows) → Distinct (view (sweep at rows))
unfolding lookup
sweep-Distinct at [] d = tt
sweep-Distinct at (row ∷ rows) d =
    ground (arith, sweep-Distinct at rows d.1, lookup-sweep-none row.id at rows)

module _ (k me : Text) (at : ℕ) where
  abbrev is_other : Row → Bool
  is_other row = not (same row.id me) && is_live at row.heartbeat_at

  any-absent :
      (rows : Table)
      → lookup k (view rows) ≡ none
      → any (λ id. same id k) (map (λ row. row.id) (keep is_other rows)) ≡ false
  unfolding lookup
  any-absent [] h = refl
  any-absent (row ∷ rows) h = ground (arith, any-absent rows)

  any-kept :
      (rows : Table)
      → Distinct (view rows)
      → any (λ id. same id k) (map (λ row. row.id) (keep is_other rows))
        ≡ (not (same k me) && holds (is_live at) (lookup k (view rows)))
  unfolding lookup
  any-kept [] d = ground arith
  any-kept (row ∷ rows) d = ground (arith, any-kept rows d.1, any-absent rows)

  any-others :
      (le : Text → Text → Bool) (rows : Table)
      → Distinct (view rows)
      → any (λ id. same id k) (others le me at rows)
        ≡ (not (same k me) && holds (is_live at) (lookup k (view rows)))
  unfolding others
  any-others le rows d = any-sort_by le _ _ ∙ any-kept rows d

module _ (le : Text → Text → Bool) where
  rows-Distinct : (log : List Step) → Distinct (view (after le log).rows)
  unfolding after step look
  rows-Distinct [] = tt
  rows-Distinct (sweeps at ∷ log) = sweep-Distinct at (after le log).rows (rows-Distinct log)
  rows-Distinct (writes r at ∷ log) =
      rw (view-write_row r at (after le log).rows)
        (insert-Distinct r.id at (view (after le log).rows) (rows-Distinct log))
  rows-Distinct (looks me at ∷ log) = rows-Distinct log
  rows-Distinct (leaves me ∷ log) =
      rw (view-delete_row me (after le log).rows)
        (remove-Distinct me (view (after le log).rows) (rows-Distinct log))

  -- The table has the last heartbeats, less those that a sweep may have taken.
  rows-beats :
      (k : Text) (most : ℕ) (log : List Step)
      → SweptBy most log
      → filter_option (is_kept most) (lookup k (view (after le log).rows))
        ≡ filter_option (is_kept most) (last_beat k log)
  unfolding after step look last_beat lookup
  rows-beats k most [] s = refl
  rows-beats k most (sweeps at ∷ log) s =
      ground (
        arith,
        rows-beats k most log s.1,
        lookup-sweep k at (after le log).rows (rows-Distinct log),
      )
  rows-beats k most (writes r at ∷ log) s =
      rw
        (
          view-write_row r at (after le log).rows,
          lookup-insert r.id k at (view (after le log).rows),
        )
        (ground (arith, rows-beats k most log s))
  rows-beats k most (looks me at ∷ log) s = rows-beats k most log s
  rows-beats k most (leaves me ∷ log) s =
      rw (view-delete_row me (after le log).rows, lookup-remove me k (view (after le log).rows))
        (ground (arith, rows-beats k most log s))

  -- Whom a look finds: the others whose last heartbeat is live.
  pub others-finds :
      (k me : Text) (at : ℕ) (log : List Step)
      → SweptBy (at + 3570) log
      → any (λ id. same id k) (others le me at (after le log).rows)
        ≡ (not (same k me) && holds (is_live at) (last_beat k log))
  others-finds k me at log s =
      any-others k me at le (after le log).rows (rows-Distinct log)
      ∙ ground (arith, rows-beats k (at + 3570) log s)
