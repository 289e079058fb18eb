-- ===== src/Rate/Postgres.antt =====
-- src/state/rate.rs, `Postgres`: the counts in `state.rate_windows`, one row for each slice of the
-- window in which something was spent. A call is one transaction, under a lock on its key; times are
-- milliseconds by the database's clock. The column `count` is a Postgres integer: to pass its range
-- is an error, `none`, and leaves the table as it was.
pub mod Bound
use toolsite.Common.{
  ℕ, ◌+◌, ◌-◌, ◌/◌, ◌%◌, max, Bool, not, ◌&&◌, Option, none, some, List, [], ◌∷◌, leb, ◌==◌,
  if◌then◌else◌, Text, same, keep, map_option,
}
use toolsite.Rate.{Outcome, spent, refused}

pub record Slice : Type 0 where
  pub key : Text
  pub window_start : ℕ
  pub count : ℕ

abbrev pub Table : Type 0
Table = List Slice

-- `SLICES`.
abbrev pub slices : ℕ
slices = 60

abbrev pub slice_of : ℕ → ℕ
slice_of window = max (window / slices) 1

-- `window_start + slice <= now - window`, of the difference as a signed number.
abbrev pub is_old : ℕ → ℕ → ℕ → ℕ → Bool
is_old slice now window window_start = leb (window_start + slice + window) now

-- `delete from state.rate_windows where key = $1 and window_start + $2 <= $3`.
abbrev pub forget : Text → ℕ → ℕ → ℕ → Table → Table
forget key slice now window =
    keep (λ r. not (same r.key key && is_old slice now window r.window_start))

-- `select coalesce(sum(count), 0) … where key = $1`.
pub sum_counts : Text → Table → ℕ
sum_counts key [] = 0
sum_counts key (r ∷ t) = if same r.key key then r.count + sum_counts key t else sum_counts key t

-- The addition of the column's type.
abbrev add_one : ℕ → Option ℕ
add_one n = if leb n 2147483646 then some (n + 1) else none

abbrev with_count : Slice → Option ℕ → Table → Option Table
with_count r none t = none
with_count r (some n) t = some (record r { count = n } ∷ t)

-- `insert … values ($1, $2, 1) on conflict (key, window_start) do update set count = count + 1`.
pub count_one : Text → ℕ → Table → Option Table
count_one key window_start [] =
    some (record { key = key; window_start = window_start; count = 1 } ∷ [])
count_one key window_start (r ∷ t) =
    if same r.key key && r.window_start == window_start
    then with_count r (add_one r.count) t
    else map_option (λ t'. r ∷ t') (count_one key window_start t)

unfoldable pub spend : Table → Text → ℕ → ℕ → ℕ → Option (Outcome × Table)
unfolding sum_counts count_one
spend t key per window now =
    let slice = slice_of window in
    let kept = forget key slice now window t in
    let n = sum_counts key kept in
    if leb per n
    then some (refused n, kept)
    else map_option (λ t'. (spent, t')) (count_one key (now - now % slice) kept)
