-- ===== src/Jobs/Starts.antt =====
-- Starting a job for the app itself: `start` of src/platform/schedule.rs.
use toolsite.Common.{ℕ, zero, suc, Bool, true, false, Option, none, some, Text}
use toolsite.Leases.{Lease}
use toolsite.Jobs.Site.{
  M, ◌>>=◌, ◌>>◌, pure, Jobs, running, app, Claimed, took, busy, slot_state, ask_again, claim,
  again_or_release, count_start, begin, spawn_runs,
}

pub data Answer : Type 0 where
  started queued changed_hands : Answer
  too_many too_often : ℕ → Answer

abbrev pub tries : ℕ
tries = 8

module _ (jobs : Jobs) (app_name name : Text) where
  -- `if !counted`.
  unfoldable pub count_unless : Bool → M (Option ℕ)
  count_unless true = pure none
  count_unless false = count_start jobs app_name name

  abbrev pub run : Lease → Answer → M Answer
  run l answer = do begin jobs app_name name; spawn_runs jobs app_name name l; pure answer

  abbrev pub given_back : Lease → ℕ → Bool → M Answer
  given_back l count true = run l (too_often count)
  given_back l count false = pure (too_often count)

  abbrev pub after_claim : Lease → Option ℕ → M Answer
  after_claim l none = run l started
  after_claim l (some count) = do
    more ← again_or_release jobs app_name name l
    given_back l count more

  -- One round of the loop; `rest` is what a `continue` goes on with.
  module _ (rest : Bool → M Answer) where
    unfoldable pub on_claim : Bool → Claimed → M Answer
    on_claim counted (took l) = do why ← count_unless counted; after_claim l why
    on_claim counted (busy running) = rest counted
    on_claim counted (busy (app n)) = pure (too_many n)

    abbrev pub on_asked : Option Bool → M Answer
    on_asked none = rest true
    on_asked (some old) = pure queued

    abbrev pub on_counted : Option ℕ → M Answer
    on_counted (some count) = pure (too_often count)
    on_counted none = do answer ← ask_again jobs app_name name; on_asked answer

    unfoldable pub on_state : Bool → Option Bool → M Answer
    on_state counted (some true) = pure queued
    on_state counted (some false) = do why ← count_unless counted; on_counted why
    on_state counted none = do got ← claim jobs app_name name; on_claim counted got

  unfoldable pub rounds : ℕ → Bool → M Answer
  rounds zero counted = pure changed_hands
  rounds (suc n) counted = do
    state ← slot_state jobs app_name name
    on_state (rounds n) counted state

  unfoldable pub start : M Answer
  start = rounds tries false
