-- ===== src/Runners/Alone.antt =====
-- When a runner of src/state/runners.rs serves the apps' databases: `sqlite_refusal` of src/state/mod.rs
-- over the histories of the registry.
use toolsite.Common.{
  ℕ, ◌+◌, ◌<◌, ◌≡◌, refl, sym, ◌∙◌, ap, Bool, true, false, Option, none, some, List, [], ◌∷◌, arith,
  leb, ◌≢◌, text_discrete, subst, same_ne, if◌then◌else◌, Text, same, same_refl, any, filter_option,
  lookup-insert, is_some, ◌⊎◌, inl, inr, ◌↔◌, min,
}
use toolsite.Runners.{Runner, World, is_live, others, look, peers, sqlite_refusal}
use toolsite.Runners.History.{
  Step, sweeps, writes, looks, leaves, step, after, last_beat, SweptBy, SweptBy-le, holds,
  others-finds,
}

abbrev in_time : ℕ → Option ℕ → Option ℕ
in_time at none = none
in_time at (some t) = if leb at t then some at else none

-- The time of the last beat that the runner finished, unless it left since, or its clock went back.
unfoldable pub finished_beat : Text → List Step → Option ℕ
unfolding last_beat
finished_beat k [] = none
finished_beat k (sweeps at ∷ log) = finished_beat k log
finished_beat k (writes r at ∷ log) =
    if same r.id k then filter_option (λ b. leb b at) (finished_beat k log) else finished_beat k log
finished_beat k (looks me at ∷ log) =
    if same me k then in_time at (last_beat k log) else finished_beat k log
finished_beat k (leaves me ∷ log) = if same me k then none else finished_beat k log

finished_beat-le :
    (k : Text) (log : List Step) (b : ℕ)
    → finished_beat k log ≡ some b
    → holds (λ t. leb b t) (last_beat k log) ≡ true
unfolding finished_beat last_beat
finished_beat-le k [] b e = ground arith
finished_beat-le k (sweeps at ∷ log) b e = finished_beat-le k log b e
finished_beat-le k (writes r at ∷ log) b e = ground (arith, finished_beat-le k log b)
finished_beat-le k (looks me at ∷ log) b e = ground (arith, finished_beat-le k log b)
finished_beat-le k (leaves me ∷ log) b e = ground (arith, finished_beat-le k log b)

finished-writes :
    (k : Text) (r : Runner) (at : ℕ) (log : List Step) (a : ℕ)
    → finished_beat k (writes r at ∷ log) ≡ some a
    → finished_beat k log ≡ some a
unfolding finished_beat
finished-writes k r at log a e = ground arith

finished-looks :
    (k me : Text) (at : ℕ) (log : List Step) (a : ℕ)
    → me ≢ k
    → finished_beat k (looks me at ∷ log) ≡ some a
    → finished_beat k log ≡ some a
unfolding finished_beat
finished-looks k me at log a n e = ground arith

finished-leaves :
    (k me : Text) (log : List Step) (a : ℕ)
    → finished_beat k (leaves me ∷ log) ≡ some a
    → finished_beat k log ≡ some a
unfolding finished_beat
finished-leaves k me log a e = ground arith

-- Whether a runner refuses the apps' databases.
abbrev pub refuses : Text → World → Bool
refuses me w = is_some (sqlite_refusal (some (peers me w)))

any-refuses :
    (k : Text) (ids : List Text)
    → any (λ id. same id k) ids ≡ true
    → is_some (sqlite_refusal (some ids)) ≡ true
any-refuses k [] e = ground arith
any-refuses k (id ∷ []) e = refl
any-refuses k (id ∷ j ∷ ids) e = refl

refuses-any :
    (ids : List Text)
    → is_some (sqlite_refusal (some ids)) ≡ true
    → (k : Text) × (any (λ id. same id k) ids ≡ true)
refuses-any [] e = ground arith
refuses-any (id ∷ ids) e = (id, ground (arith, same_refl id))

module _ (le : Text → Text → Bool) where
  peers-look :
      (k me : Text) (at : ℕ) (w : World)
      → peers k (look le me at w) ≡ (if same me k then others le me at w.rows else peers k w)
  unfolding look
  peers-look k me at w = rw (lookup-insert me k (others le me at w.rows) w.peers) (ground arith)

  peers-after :
      (me : Text) (at : ℕ) (log : List Step)
      → peers me (after le (looks me at ∷ log)) ≡ others le me at (after le log).rows
  unfolding after step
  peers-after me at log = rw (peers-look me me at (after le log), same_refl me) refl

  -- A look at a table that has a live heartbeat of another runner.
  look-refuses :
      (k me : Text) (at : ℕ) (log : List Step)
      → SweptBy (at + 3570) log
      → same k me ≡ false
      → holds (is_live at) (last_beat k log) ≡ true
      → refuses me (after le (looks me at ∷ log)) ≡ true
  look-refuses k me at log s n h =
      rw (peers-after me at log) (any-refuses k _ (others-finds le k me at log s ∙ ground arith))

  -- Right after a look at the registry with the time `at`, whatever happened before, a runner refuses
  -- the apps' databases exactly if there is another runner that did not leave since its last heartbeat
  -- and had that less than thirty seconds before `at`; where no sweep before had read a time more than
  -- 3570 seconds past `at`.
  pub refuses-look :
      (me : Text) (at : ℕ) (log : List Step)
      → SweptBy (at + 3570) log
      → (refuses me (after le (looks me at ∷ log)) ≡ true)
        ↔ ((k : Text) × (t : ℕ) × (same k me ≡ false) × (last_beat k log ≡ some t) × (at < t + 30))
  refuses-look me at log s =
      (sees, λ (k, t, n, e, h). look-refuses k me at log s n (rw e (ground arith)))
    where
      live_at :
          (o : Option ℕ) → holds (is_live at) o ≡ true → (t : ℕ) × (o ≡ some t) × (at < t + 30)
      live_at none h = ground arith
      live_at (some t) h = (t, refl, ground arith)

      sees :
          refuses me (after le (looks me at ∷ log)) ≡ true
          → (k : Text) × (t : ℕ) × (same k me ≡ false) × (last_beat k log ≡ some t) × (at < t + 30)
      sees r =
          let (k, e) =
            refuses-any _
              (ap (λ ids. is_some (sqlite_refusal (some ids))) (sym (peers-after me at log)) ∙ r) in
          let found = sym (others-finds le k me at log s) ∙ e in
          let (t, e', l) = live_at (last_beat k log) (ground arith) in (k, t, ground arith, e', l)

  -- Of two runners, the one that looks after the other's beat finds it.
  seen :
      (k j me : Text) (at : ℕ) (log : List Step) (a b : ℕ)
      → me ≡ k
      → j ≢ k
      → finished_beat k (looks me at ∷ log) ≡ some a
      → finished_beat j log ≡ some b
      → a < b + 30
      → SweptBy (a + 3570) log
      → refuses k (after le (looks me at ∷ log)) ≡ true
  unfolding finished_beat
  seen k j me at log a b p n ek ej ab s =
      let is_at : at ≡ a = ground (arith, p) in
      subst (λ m. refuses m (after le (looks me at ∷ log)) ≡ true) p
        (look-refuses j me at log (subst (λ t. SweptBy (t + 3570) log) (sym is_at) s)
          (same_ne j me (λ e. n (e ∙ p))) (ground (arith, finished_beat-le j log b ej)))

  refuses-look-other :
      (k me : Text) (at : ℕ) (w : World)
      → me ≢ k
      → refuses k w ≡ true
      → refuses k (look le me at w) ≡ true
  refuses-look-other k me at w n h = rw (peers-look k me at w, same_ne me k n) h

  one-look :
      (x y me : Text) (at : ℕ) (w : World)
      → me ≢ x
      → me ≢ y
      → (refuses x w ≡ true) ⊎ (refuses y w ≡ true)
      → (refuses x (look le me at w) ≡ true) ⊎ (refuses y (look le me at w) ≡ true)
  one-look x y me at w p q (inl h) = inl (refuses-look-other x me at w p h)
  one-look x y me at w p q (inr h) = inr (refuses-look-other y me at w q h)

  -- Never do two runners both serve the apps' databases: of two different runners, whatever statements
  -- of theirs and of others came in which order, one refuses, if each has finished a beat, has not left
  -- since and had no earlier time in a later heartbeat, the times of those two beats are less than
  -- thirty seconds apart, and no sweep read a time more than 3570 seconds past the earlier of the two.
  pub one_of_two_refuses :
      (x y : Text) (log : List Step) (a b : ℕ)
      → x ≢ y
      → finished_beat x log ≡ some a
      → finished_beat y log ≡ some b
      → a < b + 30
      → b < a + 30
      → SweptBy (min a b + 3570) log
      → (refuses x (after le log) ≡ true) ⊎ (refuses y (after le log) ≡ true)
  unfolding finished_beat after step
  one_of_two_refuses x y [] a b n ex ey ab ba s = ground arith
  one_of_two_refuses x y (sweeps at ∷ log) a b n ex ey ab ba s =
      one_of_two_refuses x y log a b n ex ey ab ba s.1
  one_of_two_refuses x y (writes r at ∷ log) a b n ex ey ab ba s =
      one_of_two_refuses x y log a b n (finished-writes x r at log a ex)
        (finished-writes y r at log b ey) ab ba s
  one_of_two_refuses x y (looks me at ∷ log) a b n ex ey ab ba s = elim (text_discrete me x) [
    | yes p ↦ inl (
        seen x y me at log a b p (λ e. n (sym e)) ex
          (finished-looks y me at log b (λ q. n (sym p ∙ q)) ey) ab
          (SweptBy-le _ _ log (omega arith) s))
    | no p ↦ elim (text_discrete me y) [
      | yes q ↦ inr (
          seen y x me at log b a q n ey (finished-looks x me at log a p ex) ba
            (SweptBy-le _ _ log (omega arith) s))
      | no q ↦ one-look x y me at (after le log) p q (
          one_of_two_refuses x y log a b n (finished-looks x me at log a p ex)
            (finished-looks y me at log b q ey) ab ba s)
    ]
  ]
  one_of_two_refuses x y (leaves me ∷ log) a b n ex ey ab ba s =
      one_of_two_refuses x y log a b n (finished-leaves x me log a ex)
        (finished-leaves y me log b ey) ab ba s
