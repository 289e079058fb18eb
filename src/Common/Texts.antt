-- ===== src/Common/Texts.antt =====
-- Text as the list of its UTF-8 bytes, and what the program does with whole texts.
use Prim.Native.Nat.{ℕ, compare, Ordering}
use Prim.Native.Char.{code}
use Prim.Native.String.{String}
use mathlib.Core.Path.{◌≡◌, refl}
use mathlib.Core.Logic.{◌≢◌}
use mathlib.Core.Bool.{Bool, true, false}
use mathlib.Core.Option.{Option, none, some}
use mathlib.Core.List.{List, [], ◌∷◌, ◌++◌}
use native.Mathlib.Omega.{arith}
use native.Mathlib.Decide.{ℕ_discrete}

abbrev pub Text : Type 0
Text = List ℕ

-- The bytes of an ASCII literal.
abbrev pub codes : String → Text
codes String.[] = []
codes (String.◌∷◌ c s) = code c ∷ codes s

head-eq : {x y : ℕ} {xs ys : Text} → x ∷ xs ≡ y ∷ ys → x ≡ y
head-eq e = cc

tail-eq : {x y : ℕ} {xs ys : Text} → x ∷ xs ≡ y ∷ ys → xs ≡ ys
tail-eq e = cc

unfoldable pub text_discrete : Discrete Text
unfolding ℕ_discrete head-eq tail-eq
text_discrete [] [] = yes refl
text_discrete [] (y ∷ ys) = no (λ e. cc)
text_discrete (x ∷ xs) [] = no (λ e. cc)
text_discrete (x ∷ xs) (y ∷ ys) = elim (ℕ_discrete x y) [
  | no n ↦ no (λ e. n (head-eq e))
  | yes p ↦ elim (text_discrete xs ys) [ no n ↦ no (λ e. n (tail-eq e)) | yes q ↦ yes (cc) ]
]

-- `==` on texts.
abbrev pub same : Text → Text → Bool
same a b = elim (text_discrete a b) [ yes _ ↦ true | no _ ↦ false ]

pub same_refl : (a : Text) → same a a ≡ true
same_refl a = ground arith

pub same_eq : (a b : Text) → same a b ≡ true → a ≡ b
same_eq a b h = ground arith

pub same_ne : (a b : Text) → a ≢ b → same a b ≡ false
same_ne a b h = ground arith

-- `str::starts_with`, for a pattern that is a text.
abbrev pub starts_with : Text → Text → Bool
starts_with s [] = true
starts_with [] (p ∷ ps) = false
starts_with (c ∷ s) (p ∷ ps) = elim (ℕ_discrete c p) [ yes _ ↦ starts_with s ps | no _ ↦ false ]

-- `str::strip_prefix`.
abbrev pub strip_prefix : Text → Text → Option Text
strip_prefix s [] = some s
strip_prefix [] (p ∷ ps) = none
strip_prefix (c ∷ s) (p ∷ ps) = elim (ℕ_discrete c p) [ yes _ ↦ strip_prefix s ps | no _ ↦ none ]

pub starts_with-append : (p s : Text) → starts_with (p ++ s) p ≡ true
starts_with-append [] s = refl
starts_with-append (c ∷ p) s = ground (arith, starts_with-append p s)

pub strip_prefix-append : (p s : Text) → strip_prefix (p ++ s) p ≡ some s
strip_prefix-append [] s = refl
strip_prefix-append (c ∷ p) s = ground (arith, strip_prefix-append p s)

pub starts_with-eq-append : (s p : Text) → starts_with s p ≡ true → (r : Text) × (s ≡ p ++ r)
starts_with-eq-append s [] h = (s, refl)
starts_with-eq-append [] (p ∷ ps) h = cc
starts_with-eq-append (c ∷ s) (p ∷ ps) h =
    let (same_head, rest) = starts_with-cons c s p ps h in
    let (r, e) = starts_with-eq-append s ps rest in (r, cc)
  where
    starts_with-cons :
        (c : ℕ) (s : Text) (p : ℕ) (ps : Text)
        → starts_with (c ∷ s) (p ∷ ps) ≡ true
        → (c ≡ p) × (starts_with s ps ≡ true)
    starts_with-cons c s p ps h = ground arith

pub strip_prefix-eq-append : (s p r : Text) → strip_prefix s p ≡ some r → s ≡ p ++ r
strip_prefix-eq-append s [] r h = cc
strip_prefix-eq-append [] (p ∷ ps) r h = cc
strip_prefix-eq-append (c ∷ s) (p ∷ ps) r h = ground (arith, strip_prefix-eq-append s ps r)

-- Texts are ordered byte by byte.
unfoldable pub text_le : Text → Text → Bool
text_le [] b = true
text_le (x ∷ a) [] = false
text_le (x ∷ a) (y ∷ b) = elim (compare x y) [
  | Ordering.lt ↦ true
  | Ordering.eq ↦ text_le a b
  | Ordering.gt ↦ false
]
