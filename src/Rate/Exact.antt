-- ===== src/Rate/Exact.antt =====
-- The memory rates of src/state/rate.rs are exact: a spend goes through if and only if fewer than
-- `per` went through in the window before it.
use toolsite.Common.{
  ℕ, ◌+◌, ◌*◌, ◌≤◌, ◌≡◌, refl, Bool, true, Option, List, [], ◌∷◌, ◌++◌, arith, leb, if◌then◌else◌,
  count, length, count-append, length-append, Text, Assoc, lookup, same, lookup-insert,
  count-le-length,
}
use toolsite.Rate.{Outcome, spent, refused, drop_old, spend_recent, checked_sub, or_default, spend}

-- Whether a spend at `at` lies in the window that ends at `now`, both ends included.
abbrev pub is_within : ℕ → ℕ → ℕ → Bool
is_within window now at = leb now (at + window * 1000000)

-- The queue is in order, and everything in it came at `last` or before.
abbrev pub IsOrdered : ℕ → List ℕ → Type 0
IsOrdered last [] = Unit {0}
IsOrdered last (at ∷ []) = at ≤ last
IsOrdered last (at ∷ at' ∷ recent) = (at ≤ at') × IsOrdered last (at' ∷ recent)

module _ (window : ℕ) where
  drop_old-count :
      (recent : List ℕ) (now t : ℕ)
      → now ≤ t
      → count (is_within window t) (drop_old (checked_sub now (window * 1000000)) recent)
        ≡ count (is_within window t) recent
  unfolding drop_old
  drop_old-count [] now t h = refl
  drop_old-count (at ∷ recent) now t h = ground (arith, drop_old-count recent now t h)

  drop_old-IsOrdered :
      (recent : List ℕ) (since : Option ℕ) (last : ℕ)
      → IsOrdered last recent
      → IsOrdered last (drop_old since recent)
  unfolding drop_old
  drop_old-IsOrdered [] since last h = tt
  drop_old-IsOrdered (at ∷ []) since last h = ground arith
  drop_old-IsOrdered (at ∷ at' ∷ recent) since last h =
      ground (arith, drop_old-IsOrdered (at' ∷ recent) since last h.1)

  -- Behind a spend that is in the window, all are.
  count_of_ordered :
      (at now last : ℕ) (recent : List ℕ)
      → IsOrdered last (at ∷ recent)
      → is_within window now at ≡ true
      → count (is_within window now) (at ∷ recent) ≡ length (at ∷ recent)
  count_of_ordered at now last [] o h = ground arith
  count_of_ordered at now last (at' ∷ recent) o h =
      ground (arith, count_of_ordered at' now last recent o.1)

  drop_old-length :
      (recent : List ℕ) (now last : ℕ)
      → IsOrdered last recent
      → length (drop_old (checked_sub now (window * 1000000)) recent)
        ≡ count (is_within window now) recent
  unfolding drop_old
  drop_old-length [] now last o = refl
  drop_old-length (at ∷ []) now last o = ground arith
  drop_old-length (at ∷ at' ∷ recent) now last o = ground (
    arith,
    drop_old-length (at' ∷ recent) now last o.1,
    count_of_ordered at now last (at' ∷ recent) o,
  )

  drop_old-length-le :
      (recent : List ℕ) (since : Option ℕ) → length (drop_old since recent) ≤ length recent
  unfolding drop_old
  drop_old-length-le [] since = omega arith
  drop_old-length-le (at ∷ recent) since = ground (arith, drop_old-length-le recent since)

  append-IsOrdered :
      (recent : List ℕ) (last at : ℕ)
      → last ≤ at
      → IsOrdered last recent
      → IsOrdered at (recent ++ at ∷ [])
  append-IsOrdered [] last at h o = omega arith
  append-IsOrdered (a ∷ []) last at h o = omega arith
  append-IsOrdered (a ∷ a' ∷ recent) last at h o =
      (o.0, append-IsOrdered (a' ∷ recent) last at h o.1)

  IsOrdered-later :
      (recent : List ℕ) (last at : ℕ) → last ≤ at → IsOrdered last recent → IsOrdered at recent
  IsOrdered-later [] last at h o = tt
  IsOrdered-later (a ∷ []) last at h o = omega arith
  IsOrdered-later (a ∷ a' ∷ recent) last at h o = (o.0, IsOrdered-later (a' ∷ recent) last at h o.1)

-- A spend under one key; each key is always spent at the same rate.
pub record Call : Type 0 where
  pub key : Text
  pub now : ℕ
  pub later : ℕ

abbrev pub Spends : Type 0
Spends = Assoc (List ℕ)

abbrev pub queue : Spends → Text → List ℕ
queue spends k = or_default (lookup k spends)

abbrev add_spent : Outcome → ℕ → List ℕ → List ℕ
add_spent spent at log = log ++ at ∷ []
add_spent (refused n) at log = log

-- Each call comes after the ones before it.
abbrev pub InOrder : ℕ → List Call → Type 0
InOrder last [] = Unit {0}
InOrder last (c ∷ cs) = (last ≤ c.now) × (c.now ≤ c.later) × InOrder c.later cs

module _ (per window : Text → ℕ) (k : Text) where
  call : Spends → Call → Outcome × Spends
  call spends c = spend spends c.key (per c.key) (window c.key) c.now c.later

  -- The store after some calls, and when those under `k` went through.
  unfoldable pub play : Spends → List ℕ → List Call → Spends × List ℕ
  unfolding call
  play spends log [] = (spends, log)
  play spends log (c ∷ cs) =
      let (outcome, spends') = call spends c in
      play spends' (if same c.key k then add_spent outcome c.later log else log) cs

  -- The queue stands for the whole log, as far as any later window sees.
  record IsKept (last : ℕ) (spends : Spends) (log : List ℕ) : Type 0 where
    ordered : IsOrdered last (queue spends k)
    bounded : length (queue spends k) ≤ per k
    counted :
        (t : ℕ)
        → last ≤ t
        → count (is_within (window k) t) log ≡ count (is_within (window k) t) (queue spends k)

  -- One call under `k`, on its queue.
  module _ (last now later : ℕ) (recent log : List ℕ) where
    abbrev kept : List ℕ
    kept = drop_old (checked_sub now (window k * 1000000)) recent

    recent-IsOrdered :
        IsOrdered last recent
        → last ≤ now
        → now ≤ later
        → IsOrdered later (spend_recent recent (per k) (window k) now later).1
    unfolding spend_recent
    recent-IsOrdered o h h' = ground (
      arith,
      IsOrdered-later (window k) kept last later,
      append-IsOrdered (window k) kept last later,
      drop_old-IsOrdered (window k) recent (checked_sub now (window k * 1000000)) last o,
    )

    recent-length :
        length recent ≤ per k → length (spend_recent recent (per k) (window k) now later).1 ≤ per k
    unfolding spend_recent
    recent-length h = ground (
      arith,
      drop_old-length-le (window k) recent (checked_sub now (window k * 1000000)),
      length-append kept (later ∷ []),
    )

    recent-counted :
        (t : ℕ)
        → now ≤ t
        → count (is_within (window k) t) log ≡ count (is_within (window k) t) recent
        → count
            (is_within (window k) t)
            (add_spent (spend_recent recent (per k) (window k) now later).0 later log)
          ≡ count (is_within (window k) t) (spend_recent recent (per k) (window k) now later).1
    unfolding spend_recent
    recent-counted t h e = ground (
      arith,
      drop_old-count (window k) recent now t h,
      count-append (is_within (window k) t) kept (later ∷ []),
      count-append (is_within (window k) t) log (later ∷ []),
    )

  queue-call :
      (spends : Spends) (c : Call)
      → queue (call spends c).1 k ≡ (
          if same c.key k
          then (spend_recent (queue spends k) (per k) (window k) c.now c.later).1
          else queue spends k)
  unfolding call spend
  queue-call spends c = ground (
    arith,
    lookup-insert c.key k
        (spend_recent (queue spends c.key) (per c.key) (window c.key) c.now c.later).1 spends,
  )

  call-outcome :
      (spends : Spends) (c : Call)
      → c.key ≡ k
      → (call spends c).0 ≡ (spend_recent (queue spends k) (per k) (window k) c.now c.later).0
  unfolding call spend
  call-outcome spends c e = ground arith

  abbrev log_after : Spends → List ℕ → Call → List ℕ
  log_after spends log c = if same c.key k then add_spent (call spends c).0 c.later log else log

  call-IsKept :
      (last : ℕ) (spends : Spends) (log : List ℕ) (c : Call)
      → last ≤ c.now
      → c.now ≤ c.later
      → IsKept last spends log
      → IsKept c.later (call spends c).1 (log_after spends log c)
  call-IsKept last spends log c h h' v = record {
    ordered = ground (
      arith,
      queue-call spends c,
      recent-IsOrdered last c.now c.later (queue spends k) log v.ordered h h',
      IsOrdered-later (window k) (queue spends k) last c.later,
    );
    bounded = ground (
      arith,
      queue-call spends c,
      recent-length last c.now c.later (queue spends k) log v.bounded,
    );
    counted = λ t l. ground (
      arith,
      queue-call spends c,
      call-outcome spends c,
      recent-counted last c.now c.later (queue spends k) log t,
      v.counted t,
    );
  }

  abbrev last_of : ℕ → List Call → ℕ
  last_of last [] = last
  last_of last (c ∷ cs) = last_of c.later cs

  play-IsKept :
      (last : ℕ) (spends : Spends) (log : List ℕ) (cs : List Call)
      → InOrder last cs
      → IsKept last spends log
      → IsKept (last_of last cs) (play spends log cs).0 (play spends log cs).1
  unfolding play
  play-IsKept last spends log [] o v = v
  play-IsKept last spends log (c ∷ cs) o v =
      play-IsKept c.later (call spends c).1 (log_after spends log c) cs o.2
        (call-IsKept last spends log c o.0 o.1 v)

  empty-IsKept : IsKept 0 [] []
  unfolding lookup
  empty-IsKept = record { ordered = tt; bounded = omega arith; counted = λ t l. refl }

  -- The log of the spends that went through, from an empty store.
  unfoldable pub went_through : List Call → List ℕ
  went_through cs = (play [] [] cs).1

  -- At no time did more than `per` spends under a key go through in the window before it.
  pub went_through-le :
      (cs : List Call) (t : ℕ)
      → InOrder 0 cs
      → last_of 0 cs ≤ t
      → count (is_within (window k) t) (went_through cs) ≤ per k
  unfolding went_through
  went_through-le cs t o h =
      let v = play-IsKept 0 [] [] cs o empty-IsKept in
      omega (
        arith,
        v.bounded,
        v.counted t h,
        count-le-length (is_within (window k) t) (queue (play [] [] cs).0 k),
      )

  spend_recent-exact :
      (last now later : ℕ) (recent : List ℕ)
      → IsOrdered last recent
      → (spend_recent recent (per k) (window k) now later).0 ≡ (
          if leb (per k) (count (is_within (window k) now) recent)
          then refused (count (is_within (window k) now) recent)
          else spent)
  unfolding spend_recent
  spend_recent-exact last now later recent o =
      ground (arith, drop_old-length (window k) recent now last o)

  -- The store is exact: after any calls under any keys, in order of time, the next spend under `k`
  -- is refused if and only if `per` or more of the spends under `k` that went through lie in the
  -- window that ends now, and it is refused with their number.
  pub spend_exact :
      (cs : List Call) (now later : ℕ)
      → InOrder 0 cs
      → last_of 0 cs ≤ now
      → let n = count (is_within (window k) now) (went_through cs) in
        (spend (play [] [] cs).0 k (per k) (window k) now later).0
        ≡ (if leb (per k) n then refused n else spent)
  unfolding went_through spend
  spend_exact cs now later o h =
      let v = play-IsKept 0 [] [] cs o empty-IsKept in
      ground (
        arith,
        v.counted now h,
        spend_recent-exact (last_of 0 cs) now later (queue (play [] [] cs).0 k) v.ordered,
      )
