-- ===== src/Runners/Tests.antt =====
-- Runners on one database: runs of src/state/runners.rs.
use toolsite.Common.{
  ℕ, ◌+◌, ◌<◌, ◌≡◌, ◌≢◌, refl, true, false, none, some, List, [], ◌∷◌, arith, Text, codes, text_le,
  text_discrete, sort_by, same, lookup, insert, ◌↔◌, ◌⊎◌,
}
use toolsite.Runners.{Runner, others, look, register, write_row}
use toolsite.Runners.History.{Step, sweeps, writes, looks, leaves, step, after, last_beat}
use toolsite.Runners.Alone.{finished_beat, refuses, refuses-look, one_of_two_refuses}

abbrev runner : Text → Runner
runner id = record {
  id = id;
  roles = codes "control" ∷ codes "worker" ∷ [];
  pool = codes "default";
  address = none;
  internal_port = 8081;
}

-- Two runners start at once: each writes its row before either looks.
abbrev both_start : List Step
both_start =
    looks (codes "b") 101
    ∷ looks (codes "a") 100
    ∷ writes (runner (codes "b")) 101
    ∷ writes (runner (codes "a")) 100
    ∷ sweeps 101
    ∷ sweeps 100
    ∷ []

both_refuse :
    (refuses (codes "a") (after text_le both_start) ≡ true)
    × (refuses (codes "b") (after text_le both_start) ≡ true)
unfolding after step look others write_row lookup insert text_le text_discrete sort_by
both_refuse = (refl, refl)

-- A runner that starts after the other left is alone.
alone_after_leave :
    refuses
      (codes "b")
      (register text_le (runner (codes "b")) 102 102 (
        after text_le
          (leaves (codes "a") ∷ looks (codes "a") 100 ∷ writes (runner (codes "a")) 100 ∷ []))).1
    ≡ false
unfolding after step look others write_row lookup insert text_le text_discrete sort_by
alone_after_leave = refl

abbrev first_look : List Step
first_look = writes (runner (codes "b")) 101 ∷ writes (runner (codes "a")) 100 ∷ sweeps 100 ∷ []

refuses-look_example :
    (refuses (codes "b") (after text_le (looks (codes "b") 101 ∷ first_look)) ≡ true) ↔ (
      (k : Text) × (t : ℕ) × (same k (codes "b") ≡ false)
      × (last_beat k first_look ≡ some t)
      × (101 < t + 30))
refuses-look_example = refuses-look text_le (codes "b") 101 first_look (omega arith, tt)

a_ne_b : codes "a" ≢ codes "b"
a_ne_b = λ e. ground (arith, e)

one_of_two_refuses_example :
    (refuses (codes "a") (after text_le both_start) ≡ true)
    ⊎ (refuses (codes "b") (after text_le both_start) ≡ true)
unfolding finished_beat last_beat text_discrete
one_of_two_refuses_example =
    one_of_two_refuses text_le (codes "a") (codes "b") both_start 100 101 a_ne_b refl refl
      (omega arith) (omega arith) (omega arith, (omega arith, tt))
