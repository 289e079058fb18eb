-- ===== src/Access/Scopes/Locks.antt =====
-- What a locked project does to the rows set inside it (`lock_over` and `row_counts` of
-- src/accounts/users.rs).
use toolsite.Common.{
  ◌≡◌, refl, Bool, true, not, ◌&&◌, ◌||◌, List, [], ◌∷◌, arith, Text, keep, any, all, is_some,
}
use toolsite.Access.Paths.{prefix_covers}
use toolsite.Access.Paths.Order.{covers_trans, covers-chain}
use toolsite.Access.Scopes.{shortest_from, lock_over, covers_lock, row_counts}

-- A row counts for every lock over the path: it is on the locked project, or above it.
abbrev pub above_locks : Text → Text → List Text → Bool
above_locks prefix path locks =
    all (λ lock. not (prefix_covers lock path) || prefix_covers prefix lock) locks

covers-shortest :
    (prefix path best : Text) (locks : List Text)
    → prefix_covers best path ≡ true
    → (prefix_covers prefix best
        && all (λ lock. prefix_covers prefix lock) (keep (λ lock. prefix_covers lock path) locks))
      ≡ prefix_covers prefix (shortest_from best (keep (λ lock. prefix_covers lock path) locks))
covers-shortest prefix path best [] h = ground arith
covers-shortest prefix path best (lock ∷ locks) h = ground (
  arith,
  covers-shortest prefix path best locks,
  covers-shortest prefix path lock locks,
  covers-chain best lock path h,
  covers-chain lock best path,
  covers_trans prefix best lock,
  covers_trans prefix lock best,
)

all-keep :
    (p q : Text → Bool) (locks : List Text)
    → all q (keep p locks) ≡ all (λ lock. not (p lock) || q lock) locks
all-keep p q [] = refl
all-keep p q (lock ∷ locks) = ground (arith, all-keep p q locks)

covers-lock_over :
    (prefix path : Text) (locks : List Text)
    → covers_lock prefix (lock_over path locks)
      ≡ all (λ lock. prefix_covers prefix lock) (keep (λ lock. prefix_covers lock path) locks)
unfolding lock_over
covers-lock_over prefix path [] = refl
covers-lock_over prefix path (lock ∷ locks) =
    ground (arith, covers-lock_over prefix path locks, covers-shortest prefix path lock locks)

-- The outermost lock decides for all of them: a row counts for a path exactly if it covers the path
-- and no locked project over the path has the row inside it.
pub row_counts-eq :
    (prefix path : Text) (locks : List Text)
    → row_counts prefix path (lock_over path locks)
      ≡ (prefix_covers prefix path && above_locks prefix path locks)
unfolding row_counts
row_counts-eq prefix path locks =
    rw (covers-lock_over prefix path locks) (
      rw (all-keep (λ lock. prefix_covers lock path) (λ lock. prefix_covers prefix lock) locks)
        refl)

pub lock_over-is_some :
    (path : Text) (locks : List Text)
    → is_some (lock_over path locks) ≡ any (λ lock. prefix_covers lock path) locks
unfolding lock_over
lock_over-is_some path [] = refl
lock_over-is_some path (lock ∷ locks) = ground (arith, lock_over-is_some path locks)
