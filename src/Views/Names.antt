-- ===== src/Views/Names.antt =====
-- Names that the platform quotes, as the scanner of src/runtime/access.rs reads them.
use toolsite.Common.{
  ℕ, ◌≡◌, ◌≢◌, refl, inl, inr, true, false, some, [], ◌∷◌, ◌++◌, arith, ◌==◌, Text, Bool-cases,
}
use mathlib.Core.List.{append_assoc}
use toolsite.Views.{quote, double_quotes}
use toolsite.Views.Scanner.{name, name_at, up_to, push, first}
use toolsite.Views.Skipping.{blank_at-solid, skip_solid}

up_to-other :
    (c : ℕ) (s : Text) → c == 34 ≡ false → up_to 34 true (c ∷ s) ≡ push c (up_to 34 true s)
unfolding up_to
up_to-other c [] h = rw (h, up_to)
up_to-other c (d ∷ s) h = rw (h, up_to)

up_to-pair : (s : Text) → up_to 34 true (34 ∷ 34 ∷ s) ≡ push 34 (push 34 (up_to 34 true s))
unfolding up_to
up_to-pair s = refl

up_to-closed :
    (rest : Text) → first rest ≢ some 34 → up_to 34 true (34 ∷ rest) ≡ some (34 ∷ [], rest)
unfolding up_to
up_to-closed [] h = refl
up_to-closed (d ∷ s) h = ground arith

up_to-doubled :
    (id rest : Text)
    → first rest ≢ some 34
    → up_to 34 true (double_quotes id ++ 34 ∷ rest) ≡ some (double_quotes id ++ 34 ∷ [], rest)
unfolding double_quotes
up_to-doubled [] rest h = up_to-closed rest h
up_to-doubled (c ∷ id) rest h = elim (Bool-cases (c == 34)) [
  | inl e ↦ let q : c ≡ 34 = ground arith in rw q (rw (up_to-pair _, up_to-doubled id rest h))
  | inr e ↦ rw (e, up_to-other c _ e, up_to-doubled id rest h)
]

-- However a name is spelled, the scanner reads it, quoted, as one name, exactly as it was quoted, and
-- goes on right behind it, unless a quotation mark follows.
pub name-quote :
    (id rest : Text) → first rest ≢ some 34 → name (quote id ++ rest) ≡ some (quote id, rest)
unfolding name name_at quote
name-quote id rest h = rw (
  skip_solid (34 ∷ (double_quotes id ++ 34 ∷ []) ++ rest) (blank_at-solid 34 _ refl),
  append_assoc (double_quotes id) (34 ∷ []) rest,
  up_to-doubled id rest h,
)
