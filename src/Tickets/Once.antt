-- ===== src/Tickets/Once.antt =====
-- Single use (src/state/tickets.rs): of any number of callers, one gets a ticket.
use toolsite.Common.{
  ℕ, ◌+◌, ◌≤◌, ◌≡◌, ◌≢◌, refl, Bool, true, false, ◌&&◌, none, List, [], ◌∷◌, arith, if◌then◌else◌,
  Text, same, lookup, Distinct, is_some, All, Bool-cases, inl, inr,
}
use toolsite.Tickets.{Row, Rows, take}
use toolsite.Tickets.Store.{
  Call, puts, gets, takes, updates, expires, step, lookup-take, lookup-step-none, step-Distinct,
}

-- Whether a call is a take of the ticket `k` that got it.
abbrev pub won : Text → Rows → ℕ × Call → Bool
won k rows (now, takes kind digest) = same digest k && is_some (take rows kind digest now).0
won k rows (now, c) = false

-- How many takes of the ticket got it.
unfoldable pub wins : Text → Rows → List (ℕ × Call) → ℕ
wins k rows [] = 0
wins k rows (c ∷ cs) = (if won k rows c then 1 else 0) + wins k (step rows c) cs

abbrev pub DoesNotMint : Text → ℕ × Call → Type 0
DoesNotMint k (now, puts row) = row.digest ≢ k
DoesNotMint k (now, c) = Unit {0}

not_minted :
    (k : Text) (now : ℕ) (c : Call)
    → DoesNotMint k (now, c)
    → (row : Row) → c ≡ puts row
    → row.digest ≢ k
not_minted k now (puts r) h row e = ground arith
not_minted k now (gets _ _) h row e = cc
not_minted k now (takes _ _) h row e = cc
not_minted k now (updates _ _ _) h row e = cc
not_minted k now (expires _) h row e = cc

gone_not_won : (k : Text) (rows : Rows) (c : ℕ × Call) → lookup k rows ≡ none → won k rows c ≡ false
unfolding take
gone_not_won k rows (now, takes kind digest) e = ground arith
gone_not_won k rows (now, puts _) e = refl
gone_not_won k rows (now, gets _ _) e = refl
gone_not_won k rows (now, updates _ _ _) e = refl
gone_not_won k rows (now, expires _) e = refl

won_gone :
    (k : Text) (rows : Rows) (c : ℕ × Call) → won k rows c ≡ true → lookup k (step rows c) ≡ none
unfolding step take
won_gone k rows (now, takes kind digest) e = ground (arith, lookup-take rows kind digest now k)
won_gone k rows (now, puts _) e = cc
won_gone k rows (now, gets _ _) e = cc
won_gone k rows (now, updates _ _ _) e = cc
won_gone k rows (now, expires _) e = cc

-- A ticket that is gone is gone for good: nobody gets it, whatever is called.
wins_of_gone :
    (k : Text) (rows : Rows) (cs : List (ℕ × Call))
    → Distinct rows
    → All (DoesNotMint k) cs
    → lookup k rows ≡ none
    → wins k rows cs ≡ 0
unfolding wins
wins_of_gone k rows [] d n e = refl
wins_of_gone k rows ((now, c) ∷ cs) d n e =
    let next = lookup-step-none rows now c k d (not_minted k now c n.0) e in
    let rest = wins_of_gone k (step rows (now, c)) cs (step-Distinct rows (now, c) d) n.1 next in
    ground (arith, gone_not_won k rows (now, c) e)

-- A ticket is taken at most once: in any history of calls at any times, as long as its id is not
-- minted again, at most one `take` gets its payload, whoever asks and however often.
pub wins-le-one :
    (k : Text) (rows : Rows) (cs : List (ℕ × Call))
    → Distinct rows
    → All (DoesNotMint k) cs
    → wins k rows cs ≤ 1
unfolding wins
wins-le-one k rows [] d n = omega arith
wins-le-one k rows (c ∷ cs) d n = elim (Bool-cases (won k rows c)) [
  | inl w ↦
      ground (
        arith,
        w,
        wins_of_gone k (step rows c) cs (step-Distinct rows c d) n.1 (won_gone k rows c w),
      )
  | inr l ↦ ground (arith, l, wins-le-one k (step rows c) cs (step-Distinct rows c d) n.1)
]
