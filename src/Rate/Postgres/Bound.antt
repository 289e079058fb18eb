-- ===== src/Rate/Postgres/Bound.antt =====
-- The rates on Postgres (src/state/rate.rs) err towards refusing: no more than `per` spends go
-- through in any window.
use toolsite.Common.{
  ℕ, ◌+◌, ◌-◌, ◌%◌, ◌≤◌, ◌<◌, ◌≡◌, refl, Bool, false, not, ◌&&◌, Option, none, some, List, [], ◌∷◌,
  ◌++◌, arith, leb, if◌then◌else◌, Text, same, count, Option-cases, Bool-cases, inl, inr, same_eq,
  count-append,
}
use toolsite.Rate.{Outcome, spent, refused}
use toolsite.Rate.Postgres.{Table, slice_of, is_old, forget, sum_counts, count_one, spend}

-- What the slices of a key that are not old at `now` count, together.
abbrev pub live_sum : Text → ℕ → ℕ → Table → ℕ
live_sum key window now t = sum_counts key (forget key (slice_of window) now window t)

module _ (key : Text) (window : ℕ) where
  live_sum-forget :
      (now later : ℕ) (t : Table)
      → now ≤ later
      → live_sum key window later (forget key (slice_of window) now window t)
        ≡ live_sum key window later t
  unfolding sum_counts
  live_sum-forget now later [] h = refl
  live_sum-forget now later (r ∷ t) h = ground (arith, live_sum-forget now later t h)

  live_sum-other :
      (other : Text) (w now later : ℕ) (t : Table)
      → same other key ≡ false
      → live_sum key window later (forget other (slice_of w) now w t) ≡ live_sum key window later t
  unfolding sum_counts
  live_sum-other other w now later [] h = refl
  live_sum-other other w now later (r ∷ t) h = ground (arith, live_sum-other other w now later t h)

  live_sum-le : (now : ℕ) (t : Table) → live_sum key window now t ≤ sum_counts key t
  unfolding sum_counts
  live_sum-le now [] = omega arith
  live_sum-le now (r ∷ t) = ground (arith, live_sum-le now t)

  count_one-live_sum :
      (start later : ℕ) (t t' : Table)
      → count_one key start t ≡ some t'
      → live_sum key window later t'
        ≡ live_sum key window later t
          + (if is_old (slice_of window) later window start then 0 else 1)
  unfolding sum_counts count_one
  count_one-live_sum start later [] t' e = ground arith
  count_one-live_sum start later (r ∷ t) t' e = elim (Option-cases (count_one key start t)) [
    | inl n ↦ ground arith
    | inr (u, q) ↦ ground (arith, count_one-live_sum start later t u q)
  ]

  count_one-other :
      (other : Text) (start later : ℕ) (t t' : Table)
      → same other key ≡ false
      → count_one other start t ≡ some t'
      → live_sum key window later t' ≡ live_sum key window later t
  unfolding sum_counts count_one
  count_one-other other start later [] t' h e = ground arith
  count_one-other other start later (r ∷ t) t' h e = elim (Option-cases (count_one other start t)) [
    | inl n ↦ ground arith
    | inr (u, q) ↦ ground (arith, count_one-other other start later t u h q)
  ]

-- Whether a spend at `at` lies in the window that ends at `now`, both ends included.
abbrev pub is_within : ℕ → ℕ → ℕ → Bool
is_within window now at = leb now (at + window)

-- A spend under one key, at one reading of the database's clock.
pub record Call : Type 0 where
  pub key : Text
  pub now : ℕ

abbrev add_spent : Outcome → ℕ → List ℕ → List ℕ
add_spent spent at log = log ++ at ∷ []
add_spent (refused n) at log = log

abbrev pub InOrder : ℕ → List Call → Type 0
InOrder last [] = Unit {0}
InOrder last (c ∷ cs) = (last ≤ c.now) × InOrder c.now cs

abbrev pub last_of : ℕ → List Call → ℕ
last_of last [] = last
last_of last (c ∷ cs) = last_of c.now cs

module _ (per window : Text → ℕ) (k : Text) where
  abbrev settle : Table → List ℕ → Call → Option (Outcome × Table) → Table × List ℕ
  settle t log c none = (t, log)
  settle t log c (some (outcome, t')) =
      (t', if same c.key k then add_spent outcome c.now log else log)

  -- The table after some calls, and when those under `k` went through. A call that fails leaves the
  -- table as it was.
  unfoldable pub play : Table → List ℕ → List Call → Table × List ℕ
  play t log [] = (t, log)
  play t log (c ∷ cs) =
      let (t', log') = settle t log c (spend t c.key (per c.key) (window c.key) c.now) in
      play t' log' cs

  -- The slices count what went through, and no more than `per` of them are not old.
  record IsCounted (last : ℕ) (t : Table) (log : List ℕ) : Type 0 where
    bounded : live_sum k (window k) last t ≤ per k
    counted :
        (at : ℕ) → last ≤ at → count (is_within (window k) at) log ≤ live_sum k (window k) at t

  live_sum-later :
      (now later : ℕ) (t : Table)
      → now ≤ later
      → live_sum k (window k) later t ≤ live_sum k (window k) now t
  unfolding sum_counts
  live_sum-later now later [] h = omega arith
  live_sum-later now later (r ∷ t) h = ground (arith, live_sum-later now later t h)

  -- A slice holds the whole of the time in which it counts.
  in_slice : (now w : ℕ) → now < now - now % slice_of w + slice_of w
  in_slice now w = omega arith

  -- One call, on each way that it can end.
  module _ (last : ℕ) (t : Table) (log : List ℕ) (c : Call) (h : last ≤ c.now) where
    abbrev kept : Table
    kept = forget c.key (slice_of (window c.key)) c.now (window c.key) t

    abbrev start : ℕ
    start = c.now - c.now % slice_of (window c.key)

    abbrev after : Table × List ℕ
    after = settle t log c (spend t c.key (per c.key) (window c.key) c.now)

    kept-live_sum :
        (at : ℕ) → c.now ≤ at → live_sum k (window k) at kept ≡ live_sum k (window k) at t
    kept-live_sum at l = elim (Bool-cases (same c.key k)) [
      | inl e ↦ rw (same_eq c.key k e) (live_sum-forget k (window k) c.now at t l)
      | inr e ↦ live_sum-other k (window k) c.key (window c.key) c.now at t e
    ]

    counted-live_sum :
        (at : ℕ) (t' : Table)
        → c.now ≤ at
        → count_one c.key start kept ≡ some t'
        → live_sum k (window k) at t'
          ≡ live_sum k (window k) at t
            + (if same c.key k && not (is_old (slice_of (window k)) at (window k) start)
                then 1
                else 0)
    counted-live_sum at t' l e = elim (Bool-cases (same c.key k)) [
      | inl s ↦ ground (
        arith,
        s,
        same_eq c.key k s,
        kept-live_sum at l,
        count_one-live_sum k (window k) start at kept t',
      )
      | inr s ↦
          ground
            (arith, s, kept-live_sum at l, count_one-other k (window k) c.key start at kept t' s e)
    ]

    call-bounded :
        live_sum k (window k) last t ≤ per k → live_sum k (window k) c.now after.0 ≤ per k
    unfolding spend
    call-bounded b = elim (Option-cases (count_one c.key start kept)) [
      | inl n ↦ ground (arith, n, live_sum-later last c.now t h, kept-live_sum c.now)
      | inr (t', e) ↦ ground (
        arith,
        e,
        same_eq c.key k,
        live_sum-later last c.now t h,
        kept-live_sum c.now,
        counted-live_sum c.now t',
        live_sum-le k (window k) c.now kept,
      )
    ]

    call-counted :
        (at : ℕ)
        → c.now ≤ at
        → count (is_within (window k) at) log ≤ live_sum k (window k) at t
        → count (is_within (window k) at) after.1 ≤ live_sum k (window k) at after.0
    unfolding spend
    call-counted at l b = elim (Option-cases (count_one c.key start kept)) [
      | inl n ↦ ground (arith, n, kept-live_sum at l)
      | inr (t', e) ↦ ground (
        arith,
        e,
        same_eq c.key k,
        kept-live_sum at l,
        counted-live_sum at t' l e,
        in_slice c.now (window c.key),
        count-append (is_within (window k) at) log (c.now ∷ []),
      )
    ]

  play-IsCounted :
      (last : ℕ) (t : Table) (log : List ℕ) (cs : List Call)
      → InOrder last cs
      → IsCounted last t log
      → IsCounted (last_of last cs) (play t log cs).0 (play t log cs).1
  unfolding play
  play-IsCounted last t log [] o v = v
  play-IsCounted last t log (c ∷ cs) o v =
      play-IsCounted c.now (after last t log c o.0).0 (after last t log c o.0).1 cs o.1 (record {
        bounded = call-bounded last t log c o.0 v.bounded;
        counted = λ at l. call-counted last t log c o.0 at l (v.counted at (omega arith));
      })

  -- On Postgres too, at no time did more than `per` spends under a key go through in the window
  -- before it: from an empty table, after any calls under any keys in order of time.
  pub sliced_went_through-le :
      (cs : List Call) (at : ℕ)
      → InOrder 0 cs
      → last_of 0 cs ≤ at
      → count (is_within (window k) at) (play [] [] cs).1 ≤ per k
  unfolding sum_counts
  sliced_went_through-le cs at o h =
      let v =
        play-IsCounted 0 [] [] cs o
          (record { bounded = omega arith; counted = λ at l. omega arith }) in
      omega (arith, v.bounded, v.counted at h, live_sum-later (last_of 0 cs) at (play [] [] cs).0 h)
