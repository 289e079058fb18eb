-- ===== src/Views/Skipping.antt =====
-- What the scanner passes over: `skip_space_and_comments` of src/runtime/access.rs.
use toolsite.Common.{
  ◌+◌, ◌<◌, ◌⊎◌, inl, inr, false, none, some, Option-cases, Bool-cases, subst, starts_with, codes,
  blank_width, ℕ, zero, suc, ◌-◌, ◌≤◌, ◌≡◌, refl, true, not, ◌&&◌, [], ◌∷◌, arith, ◌==◌, leb, Bool,
  Text, length, drop,
}
use native.Mathlib.Decide.{ℕ_discrete}
use toolsite.Views.Scanner.{blank_at, comment_width, find, skip, skip_space_and_comments}

-- The first place in a text where another one comes.
abbrev pub FirstAt : Text → Text → ℕ → Type 0
FirstAt s pat i =
    (starts_with (drop i s) pat ≡ true) × ((k : ℕ) → k < i → starts_with (drop k s) pat ≡ false)

-- The first `n` bytes are a comment: from `opening` on up to the first `closing`, which may share bytes with
-- `opening`, or else all there is.
abbrev pub IsComment : Text → Text → Text → ℕ → Type 0
IsComment opening closing s n =
    (starts_with s opening ≡ true)
    × (((i : ℕ) × (n ≡ i + length closing) × FirstAt s closing i)
        ⊎ ((n ≡ length s) × ((k : ℕ) → starts_with (drop k s) closing ≡ false)))

-- The first `n` bytes are one character of white space, a comment to the end of its line, or one
-- between `/*` and `*/`.
abbrev pub IsBlank : Text → ℕ → Type 0
IsBlank s n =
    ((0 < n) × (blank_width s ≡ n))
    ⊎ (IsComment (codes "--") (10 ∷ []) s n ⊎ IsComment (codes "/*") (codes "*/") s n)

-- A text that is left when comments and white space are passed over, one after the other.
pub data Skips : Text → Text → Type 0 where
  here : (s : Text) → Skips s s
  next : (s t : Text) (n : ℕ) → IsBlank s n → Skips (drop n s) t → Skips s t

-- Neither comes next.
abbrev pub IsBare : Text → Type 0
IsBare s =
    (blank_width s ≡ 0)
    × (starts_with s (codes "--") ≡ false)
    × (starts_with s (codes "/*") ≡ false)

find-FirstAt : (s pat : Text) (i : ℕ) → find s pat ≡ some i → FirstAt s pat i
find-FirstAt [] pat i e = absurd (let f : ⊥ = cc in f)
find-FirstAt (c ∷ s) pat i e = elim (Bool-cases (starts_with (c ∷ s) pat)) [
  | inl h ↦
      let at : zero ≡ i = ground (arith, h) in
      subst (λ i. FirstAt (c ∷ s) pat i) at (h, λ k l. absurd (omega arith))
  | inr h ↦ elim (Option-cases (find s pat)) [
    | inl n ↦ absurd (let f : ⊥ = ground (arith, h, n) in f)
    | inr (j, n) ↦
        let at : suc j ≡ i = ground (arith, h, n) in
        let (there, before) = find-FirstAt s pat j n in
        subst (λ i. FirstAt (c ∷ s) pat i) at (there, λ k. earlier j before h k)
  ]
]
  where
    earlier :
        (j : ℕ)
        → ((k : ℕ) → k < j → starts_with (drop k s) pat ≡ false)
        → starts_with (c ∷ s) pat ≡ false
        → (k : ℕ) → k < suc j
        → starts_with (drop k (c ∷ s)) pat ≡ false
    earlier j before h zero l = h
    earlier j before h (suc k) l = before k (omega arith)

find-none :
    (s pat : Text)
    → starts_with [] pat ≡ false
    → find s pat ≡ none
    → (k : ℕ) → starts_with (drop k s) pat ≡ false
find-none [] pat z e zero = z
find-none [] pat z e (suc k) = z
find-none (c ∷ s) pat z e zero = ground arith
find-none (c ∷ s) pat z e (suc k) = find-none s pat z (ground arith) k

comment_width-IsComment :
    (opening closing s : Text)
    → starts_with s opening ≡ true
    → starts_with [] closing ≡ false
    → IsComment opening closing s (comment_width closing s)
comment_width-IsComment opening closing s h z = elim (Option-cases (find s closing)) [
  | inl e ↦ (h, inr (rw (e, comment_width) refl, find-none s closing z e))
  | inr (i, e) ↦ (h, inl (i, rw (e, comment_width) refl, find-FirstAt s closing i e))
]

comment_width-pos :
    (c : ℕ) (s closing : Text) → 0 < length closing → 0 < comment_width closing (c ∷ s)
comment_width-pos c s closing l = elim (Option-cases (find (c ∷ s) closing)) [
  | inl e ↦ rw (e, comment_width) (omega arith)
  | inr (i, e) ↦ rw (e, comment_width) (omega arith)
]

blank_at-IsBlank : (s : Text) (n : ℕ) → blank_at s ≡ suc n → IsBlank s (suc n)
unfolding blank_at
blank_at-IsBlank s n e = elim (Bool-cases (starts_with s (codes "--"))) [
  | inl h ↦
      let is : comment_width (10 ∷ []) s ≡ suc n = ground (arith, h) in
      inr (
        inl (
          subst (λ n. IsComment (codes "--") (10 ∷ []) s n) is
            (comment_width-IsComment (codes "--") (10 ∷ []) s h refl)))
  | inr h ↦ elim (Bool-cases (starts_with s (codes "/*"))) [
    | inl h' ↦
        let is : comment_width (codes "*/") s ≡ suc n = ground (arith, h, h') in
        inr (
          inr (
            subst (λ n. IsComment (codes "/*") (codes "*/") s n) is
              (comment_width-IsComment (codes "/*") (codes "*/") s h' refl)))
    | inr h' ↦ inl (omega arith, ground (arith, h, h'))
  ]
]

blank_at-IsBare : (s : Text) → blank_at s ≡ 0 → IsBare s
unfolding blank_at
blank_at-IsBare [] e = (refl, refl, refl)
blank_at-IsBare (c ∷ s) e = elim (Bool-cases (starts_with (c ∷ s) (codes "--"))) [
  | inl h ↦
      let is : comment_width (10 ∷ []) (c ∷ s) ≡ 0 = ground (arith, h) in
      absurd (omega (arith, is, comment_width-pos c s (10 ∷ []) (omega arith)))
  | inr h ↦ elim (Bool-cases (starts_with (c ∷ s) (codes "/*"))) [
    | inl h' ↦
        let is : comment_width (codes "*/") (c ∷ s) ≡ 0 = ground (arith, h, h') in
        absurd (omega (arith, is, comment_width-pos c s (codes "*/") (omega arith)))
    | inr h' ↦ (ground (arith, h, h'), h, h')
  ]
]

length-drop-le : (n : ℕ) (s : Text) → length (drop (suc n) s) ≤ length s - 1
length-drop-le n [] = omega arith
length-drop-le zero (c ∷ s) = omega arith
length-drop-le (suc n) (c ∷ s) = omega (arith, length-drop-le n s)

skip-from :
    (fuel : ℕ) (s : Text) → length s ≤ fuel → Skips s (skip fuel s) × (blank_at (skip fuel s) ≡ 0)
unfolding skip
skip-from zero [] h = (here [], unfold blank_at in refl)
skip-from zero (c ∷ s) h = absurd (omega arith)
skip-from (suc fuel) s h =
    elim (blank_at s)
        as (λ w.
          blank_at s ≡ w
          → Skips s (elim w [ zero ↦ s | suc n ↦ skip fuel (drop (suc n) s) ])
            × (blank_at (elim w [ zero ↦ s | suc n ↦ skip fuel (drop (suc n) s) ]) ≡ 0)) [
              | zero ↦ λ e. (here s, e)
              | suc n ↦ λ e.
                  let (r, z) =
                    skip-from fuel (drop (suc n) s) (omega (arith, length-drop-le n s)) in
                  (next s _ (suc n) (blank_at-IsBlank s n e) r, z)
            ]
      refl

pub skip-blank_at : (s : Text) → blank_at (skip_space_and_comments s) ≡ 0
unfolding skip_space_and_comments
skip-blank_at s = (skip-from (length s) s (omega arith)).1

-- The scanner's loop ends on every text, in no more rounds than the text has bytes: what it leaves is
-- reached by dropping white space and comments, and neither comes next in it. A comment goes from `--`
-- to the end of its line, or from `/*` to the first `*/`, whose star may be that of the `/*`, and one
-- that is not closed goes to the end of the text.
pub skip_space_and_comments-Skips :
    (s : Text) → Skips s (skip_space_and_comments s) × IsBare (skip_space_and_comments s)
unfolding skip_space_and_comments
skip_space_and_comments-Skips s = (
  (skip-from (length s) s (omega arith)).0,
  blank_at-IsBare (skip (length s) s) (skip-blank_at s),
)

-- Bytes that begin neither white space nor a comment.
abbrev pub is_solid : ℕ → Bool
is_solid c = leb 33 c && leb c 127 && not (c == 45) && not (c == 47)

pub blank_at-solid : (c : ℕ) (s : Text) → is_solid c ≡ true → blank_at (c ∷ s) ≡ 0
unfolding blank_at
blank_at-solid c [] h = ground arith
blank_at-solid c (d ∷ []) h = ground arith
blank_at-solid c (d ∷ e ∷ s) h = ground arith

pub skip_solid : (s : Text) → blank_at s ≡ 0 → skip_space_and_comments s ≡ s
unfolding skip_space_and_comments skip
skip_solid [] h = refl
skip_solid (c ∷ s) h = rw (h, skip)

blank_at-space : (s : Text) → blank_at (32 ∷ s) ≡ 1
unfolding blank_at ℕ_discrete
blank_at-space [] = refl
blank_at-space (d ∷ []) = refl
blank_at-space (d ∷ e ∷ s) = refl

skip-solid : (fuel : ℕ) (s : Text) → blank_at s ≡ 0 → skip fuel s ≡ s
unfolding skip
skip-solid zero s h = refl
skip-solid (suc fuel) s h = rw (h, skip)

pub skip_space : (s : Text) → blank_at s ≡ 0 → skip_space_and_comments (32 ∷ s) ≡ s
unfolding skip_space_and_comments skip
skip_space s h = rw (blank_at-space s, skip) (skip-solid (length s) s h)

pub skip_twice :
    (s : Text) → skip_space_and_comments (skip_space_and_comments s) ≡ skip_space_and_comments s
skip_twice s = skip_solid _ (skip-blank_at s)
