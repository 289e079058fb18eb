-- ===== src/Uploads/Sizes.antt =====
-- The sizes of the chunks that arrived (`InlineUpload::chunks` of src/platform/inline_upload.rs).
use toolsite.Common.{ℕ, ◌+◌, ◌≤◌, ◌<◌, ◌≡◌, refl, some, [], ◌∷◌, ◌==◌, if◌then◌else◌, arith, All}
use toolsite.Uploads.{Sizes, size_at, set_size, total, others}

abbrev pub Above : ℕ → Sizes → Type 0
Above i sizes = All (λ e. i < e.0) sizes

-- As a `BTreeMap` is: each index once, in order.
abbrev pub IsRising : Sizes → Type 0
IsRising [] = Unit
IsRising ((i, n) ∷ sizes) = Above i sizes × IsRising sizes

pub size_at-set_size :
    (i n k : ℕ) (sizes : Sizes)
    → size_at k (set_size i n sizes) ≡ (if i == k then some n else size_at k sizes)
unfolding size_at set_size
size_at-set_size i n k [] = ground arith
size_at-set_size i n k ((j, m) ∷ sizes) = ground (arith, size_at-set_size i n k sizes)

Above-less : (i j : ℕ) (sizes : Sizes) → i ≤ j → Above j sizes → Above i sizes
Above-less i j [] h a = tt
Above-less i j ((k, n) ∷ sizes) h a = (omega arith, Above-less i j sizes h a.1)

Above-set_size : (j i n : ℕ) (sizes : Sizes) → j < i → Above j sizes → Above j (set_size i n sizes)
unfolding set_size
Above-set_size j i n [] h a = (h, tt)
Above-set_size j i n ((k, m) ∷ sizes) h a = ground (arith, Above-set_size j i n sizes h a.1)

pub set_size-IsRising : (i n : ℕ) (sizes : Sizes) → IsRising sizes → IsRising (set_size i n sizes)
unfolding set_size
set_size-IsRising i n [] r = (tt, tt)
set_size-IsRising i n ((j, m) ∷ sizes) r =
    ground
      (arith, set_size-IsRising i n sizes r.1, Above-set_size j i n sizes, Above-less i j sizes)

others-Above : (i : ℕ) (sizes : Sizes) → Above i sizes → others i sizes ≡ total sizes
unfolding total
others-Above i [] a = refl
others-Above i ((j, m) ∷ sizes) a = ground (arith, others-Above i sizes a.1)

pub total-set_size :
    (i n : ℕ) (sizes : Sizes) → IsRising sizes → total (set_size i n sizes) ≡ others i sizes + n
unfolding set_size total
total-set_size i n [] r = omega arith
total-set_size i n ((j, m) ∷ sizes) r =
    ground (arith, total-set_size i n sizes r.1, others-Above i sizes, Above-less i j sizes)
