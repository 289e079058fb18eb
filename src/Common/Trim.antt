-- ===== src/Common/Trim.antt =====
-- `str::trim`, on the bytes of a text.
use Prim.Native.Nat.{ℕ, zero, suc, ◌≤◌, ◌<◌}
use mathlib.Core.Path.{◌≡◌, refl, ◌∙◌, ap}
use mathlib.Core.Bool.{Bool, true, false, ◌&&◌, ◌||◌}
use mathlib.Core.List.{[], ◌∷◌, ◌++◌}
use native.Mathlib.Omega.{arith}
use toolsite.Common.Lists.{length}
use toolsite.Common.Tests.{leb, ◌==◌, if◌then◌else◌}
use toolsite.Common.Texts.{Text}

abbrev is_empty : Text → Bool
is_empty [] = true
is_empty (c ∷ s) = false

-- The bytes of a white space character at the start of a text: how many there are.
abbrev blank1 : ℕ → Bool
blank1 a = (leb 9 a && leb a 13) || a == 32

abbrev blank2 : ℕ → ℕ → Bool
blank2 a b = a == 194 && (b == 133 || b == 160)

abbrev blank3 : ℕ → ℕ → ℕ → Bool
blank3 a b c =
    (a == 225 && b == 154 && c == 128)
    || (a == 226 && b == 128 && ((leb 128 c && leb c 138) || c == 168 || c == 169 || c == 175))
    || (a == 226 && b == 129 && c == 159)
    || (a == 227 && b == 128 && c == 128)

abbrev pub blank_width : Text → ℕ
blank_width [] = 0
blank_width (a ∷ []) = if blank1 a then 1 else 0
blank_width (a ∷ b ∷ []) = if blank1 a then 1 else (if blank2 a b then 2 else 0)
blank_width (a ∷ b ∷ c ∷ s) =
    if blank1 a then 1 else (if blank2 a b then 2 else (if blank3 a b c then 3 else 0))

-- Drops white space, after the `skip` bytes that are left of a character already seen.
abbrev trim_from : ℕ → Text → Text
trim_from skip [] = []
trim_from (suc skip) (c ∷ s) = trim_from skip s
trim_from zero (c ∷ s) = elim (blank_width (c ∷ s)) [ zero ↦ c ∷ s | suc width ↦ trim_from width s ]

abbrev trim_end : Text → Text
trim_end [] = []
trim_end (c ∷ s) = if is_empty (trim_from 0 (c ∷ s)) then [] else c ∷ trim_end s

unfoldable pub trim : Text → Text
trim s = trim_end (trim_from 0 s)

-- What stands in front of `c` is not blank if `c` is a character that is no white space.
module _ (c : ℕ) (plain : blank_width (c ∷ []) ≡ 0) (ascii : c < 128) where
  blank_width-le : (d : ℕ) (s : Text) → blank_width (d ∷ s ++ c ∷ []) ≤ suc (length s)
  blank_width-le d [] = ground arith
  blank_width-le d (e ∷ []) = ground arith
  blank_width-le d (e ∷ f ∷ s) = ground arith

  trim_from-last :
      (skip : ℕ) (s : Text) → skip ≤ length s → is_empty (trim_from skip (s ++ c ∷ [])) ≡ false
  trim_from-last zero [] h = ground arith
  trim_from-last (suc skip) [] h = absurd (omega arith)
  trim_from-last (suc skip) (d ∷ s) h = trim_from-last skip s (omega arith)
  trim_from-last zero (d ∷ s) h =
      elim (blank_width (d ∷ s ++ c ∷ []))
          as (λ w.
            w ≤ suc (length s)
            → is_empty
                (elim w [ zero ↦ d ∷ s ++ c ∷ [] | suc width ↦ trim_from width (s ++ c ∷ []) ])
              ≡ false) [ zero ↦ λ _. refl | suc width ↦ λ l. trim_from-last width s (omega arith) ]
        (blank_width-le d s)

  trim_end-last : (s : Text) → trim_end (s ++ c ∷ []) ≡ s ++ c ∷ []
  trim_end-last [] = ground (arith, trim_from-last 0 [])
  trim_end-last (d ∷ s) = ground (arith, trim_from-last 0 (d ∷ s), trim_end-last s)

  -- Nothing is trimmed between two such characters.
  pub trim-closed :
      (d : ℕ) (s : Text)
      → blank_width (d ∷ s ++ c ∷ []) ≡ 0
      → trim (d ∷ s ++ c ∷ []) ≡ d ∷ s ++ c ∷ []
  unfolding trim
  trim-closed d s h = ap trim_end (from_solid h) ∙ trim_end-last (d ∷ s)
    where
      from_solid :
          blank_width (d ∷ s ++ c ∷ []) ≡ 0 → trim_from 0 (d ∷ s ++ c ∷ []) ≡ d ∷ s ++ c ∷ []
      from_solid h = rw (h, trim_from)

pub trim_space : (s : Text) → trim (32 ∷ s) ≡ trim s
unfolding trim
trim_space [] = refl
trim_space (c ∷ []) = refl
trim_space (c ∷ d ∷ s) = refl
