-- ===== src/Rate.antt =====
-- src/state/rate.rs: how many times something may happen under one key in a sliding window. This
-- file is the memory store, which keeps the time of every spend in the window, per key. The clock is
-- read twice in a call, before the old spends are dropped and for the new one; both readings are
-- arguments. Times and windows are in nanoseconds here; `window` is in milliseconds.
mod Tests
pub mod Exact
pub mod Postgres
use toolsite.Common.{
  ℕ, ◌+◌, ◌-◌, ◌*◌, min, max, Bool, true, false, Option, none, some, List, [], ◌∷◌, ◌++◌, leb, ltb,
  if◌then◌else◌, Text, Assoc, lookup, insert, length,
}

-- `Ok(())` and `Err(count)`.
pub data Outcome : Type 0 where
  spent : Outcome
  refused : ℕ → Outcome

-- `RateWindows::spend`: the window that a `Duration` of so many whole milliseconds stands for.
abbrev pub window_millis : ℕ → ℕ
window_millis window = max (min window 9223372036854775807) 1

-- `Instant::now().checked_sub(window)`: none before the clock's start.
abbrev pub checked_sub : ℕ → ℕ → Option ℕ
checked_sub now window = if leb window now then some (now - window) else none

abbrev pub is_before : Option ℕ → ℕ → Bool
is_before none at = false
is_before (some since) at = ltb at since

-- The loop that pops the front while it is older than the window.
unfoldable pub drop_old : Option ℕ → List ℕ → List ℕ
drop_old since [] = []
drop_old since (at ∷ recent) = if is_before since at then drop_old since recent else at ∷ recent

-- One key's queue, oldest first.
unfoldable pub spend_recent : List ℕ → ℕ → ℕ → ℕ → ℕ → Outcome × List ℕ
unfolding drop_old
spend_recent recent per window now later =
    let kept = drop_old (checked_sub now (window * 1000000)) recent in
    if leb per (length kept) then (refused (length kept), kept) else (spent, kept ++ later ∷ [])

abbrev or_default : Option (List ℕ) → List ℕ
or_default none = []
or_default (some recent) = recent

unfoldable pub spend : Assoc (List ℕ) → Text → ℕ → ℕ → ℕ → ℕ → Outcome × Assoc (List ℕ)
unfolding spend_recent
spend spends key per window now later =
    let (outcome, recent) = spend_recent (or_default (lookup key spends)) per window now later in
    (outcome, insert key recent spends)
