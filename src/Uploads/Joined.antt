-- ===== src/Uploads/Joined.antt =====
-- The chunks of an upload one after the other, and the sizes that the ticket has of them
-- (src/platform/inline_upload.rs).
use toolsite.Common.{
  ℕ, zero, suc, ◌+◌, ◌≤◌, ◌<◌, ◌≡◌, refl, subst, true, not, Option, none, some, [], ◌∷◌, ◌++◌, keep,
  arith, All, is_some, Text, length, length-append, map_option,
}
use toolsite.Uploads.{Files, Sizes, size_at, total, from_index, extra_of, done, read_parts}
use toolsite.Uploads.Sizes.{IsRising, Above}
use toolsite.Uploads.Tracked.{Brought}

pub missing-nil :
    (i n : ℕ) (sizes : Sizes)
    → ((k : ℕ) → i ≤ k → k < i + n → is_some (size_at k sizes) ≡ true)
    → keep (λ k. not (is_some (size_at k sizes))) (from_index i n) ≡ []
unfolding from_index
missing-nil i zero sizes h = refl
missing-nil i (suc n) sizes h =
    ground (arith, h i, missing-nil (i + 1) n sizes (λ k l u. h k (omega arith) (omega arith)))

pub extra-nil :
    (count : ℕ) (sizes : Sizes)
    → ((k : ℕ) → count ≤ k → size_at k sizes ≡ none)
    → extra_of count sizes ≡ []
unfolding extra_of size_at
extra-nil count [] h = refl
extra-nil count ((j, n) ∷ sizes) h = ground (
  arith,
  h j,
  extra-nil count sizes (λ k l. let e : size_at k ((j, n) ∷ sizes) ≡ none = h k l in ground arith),
)

abbrev pub or_nothing : Option Text → Text
or_nothing none = []
or_nothing (some b) = b

-- The texts brought at `n` indexes from `i` on, in order.
unfoldable pub joined : Brought → ℕ → ℕ → Text
joined m i zero = []
joined m i (suc n) = or_nothing (m i) ++ joined m (i + 1) n

size_at-Above : (i j : ℕ) (sizes : Sizes) → i ≤ j → Above j sizes → size_at i sizes ≡ none
unfolding size_at
size_at-Above i j [] h a = refl
size_at-Above i j ((k, n) ∷ sizes) h a = ground (arith, size_at-Above i j sizes h a.1)

abbrev AtLeast : ℕ → Sizes → Type 0
AtLeast i sizes = All (λ e. i ≤ e.0) sizes

AtLeast-Above : (i : ℕ) (sizes : Sizes) → Above i sizes → AtLeast (i + 1) sizes
AtLeast-Above i [] a = tt
AtLeast-Above i ((j, n) ∷ sizes) a = (omega arith, AtLeast-Above i sizes a.1)

pub AtLeast-0 : (sizes : Sizes) → AtLeast 0 sizes
AtLeast-0 [] = tt
AtLeast-0 ((j, n) ∷ sizes) = (omega arith, AtLeast-0 sizes)

-- The sizes of the texts at `n` indexes from `i` on, where there are no others.
pub record Covers (m : Brought) (i n : ℕ) (sizes : Sizes) : Type 0 where
  pub rising : IsRising sizes
  pub from : AtLeast i sizes
  pub there : (k : ℕ) → i ≤ k → k < i + n → is_some (m k) ≡ true
  pub same_size : (k : ℕ) → i ≤ k → size_at k sizes ≡ map_option (λ b. length b) (m k)
  pub ends : (k : ℕ) → i + n ≤ k → m k ≡ none

Covers-head :
    (m : Brought) (i n j l : ℕ) (sizes : Sizes)
    → Covers m i (suc n) ((j, l) ∷ sizes)
    → (j ≡ i) × (l ≡ length (or_nothing (m i)))
unfolding size_at
Covers-head m i n j l sizes v =
    ground (arith, v.there i, v.same_size i, size_at-Above i j sizes v.from.0 v.rising.0)

Covers-tail :
    (m : Brought) (i n j l : ℕ) (sizes : Sizes)
    → Covers m i (suc n) ((j, l) ∷ sizes)
    → j ≡ i
    → Covers m (i + 1) n sizes
unfolding size_at
Covers-tail m i n j l sizes v p = record {
  rising = v.rising.1;
  from = AtLeast-Above i sizes (subst (λ x. Above x sizes) p v.rising.0);
  there = λ k a b. v.there k (omega arith) (omega arith);
  same_size = λ k a.
      let e : size_at k ((j, l) ∷ sizes) ≡ map_option (λ b. length b) (m k) =
        v.same_size k (omega arith) in
      ground arith;
  ends = λ k a. v.ends k (omega arith);
}

pub total-joined :
    (m : Brought) (i n : ℕ) (sizes : Sizes)
    → Covers m i n sizes
    → total sizes ≡ length (joined m i n)
unfolding total joined size_at
total-joined m i zero [] v = refl
total-joined m i zero ((j, l) ∷ sizes) v = ground (arith, v.same_size j, v.ends j)
total-joined m i (suc n) [] v = ground (arith, v.there i, v.same_size i)
total-joined m i (suc n) ((j, l) ∷ sizes) v =
    let (p, q) = Covers-head m i n j l sizes v in
    omega (
      arith,
      p,
      q,
      total-joined m (i + 1) n sizes (Covers-tail m i n j l sizes v p),
      length-append (or_nothing (m i)) (joined m (i + 1) n),
    )

module _ {F : Type 0} (files : Files F) where
  pub read_parts-joined :
      (f : F) (name : Text) (m : Brought) (i n : ℕ)
      → ((k : ℕ) → i ≤ k → k < i + n → files.read f name k ≡ some (some (or_nothing (m k))))
      → read_parts files f name (from_index i n) ≡ done (joined m i n)
  unfolding read_parts from_index joined
  read_parts-joined f name m i zero h = refl
  read_parts-joined f name m i (suc n) h =
      rw
        (
          h i (omega arith) (omega arith),
          read_parts-joined f name m (i + 1) n (λ k a b. h k (omega arith) (omega arith)),
        )
        refl
