-- ===== src/Views/Moved.antt =====
-- Declared views that are moved behind an inner view and back (`wrap`, `unwrap` and
-- `validate_declared` of src/runtime/access.rs).
use toolsite.Common.{
  ℕ, ◌≡◌, ◌≢◌, refl, subst, ◌∙◌, ap, inl, inr, true, false, none, some, [], ◌∷◌, ◌++◌, arith, Text,
  Option-cases, all, codes, same_refl, map, starts_with, trim, trim-closed, trim_space, blank_width,
}
use native.Mathlib.Decide.{ℕ_discrete}
use toolsite.Access.Paths.{is_empty}
use toolsite.Views.{
  quote, double_quotes, inner_name, wrapper_select, create_view, is_wrapper_for, to_lowercase,
  lowercase_from, valid_identifier, is_ts, ts, kelvin,
}
use toolsite.Views.Scanner.{
  ViewBody, view_body, view_head, clean, trim_semicolons, body_of, from_head, is_word_byte, lower,
}
use toolsite.Views.Reading.{IsColumns, view_head-IsColumns}
use toolsite.Views.Written.{view_head-reads}

trim_semicolons-last : (s : Text) → trim_semicolons (s ++ 34 ∷ []) ≡ s ++ 34 ∷ []
trim_semicolons-last [] = ground arith
trim_semicolons-last (c ∷ s) = ground (arith, trim_semicolons-last s, not_empty s)
  where
    not_empty : (s : Text) → is_empty (s ++ 34 ∷ []) ≡ false
    not_empty [] = refl
    not_empty (c ∷ s) = refl

clean-closed :
    (d : ℕ) (s : Text)
    → blank_width (d ∷ s ++ 34 ∷ []) ≡ 0
    → clean (d ∷ s ++ 34 ∷ []) ≡ d ∷ s ++ 34 ∷ []
clean-closed d s h =
    let e = trim-closed 34 refl (omega arith) d s h in
    ap (λ t. trim (trim_semicolons t)) e ∙ ap trim (trim_semicolons-last (d ∷ s)) ∙ e

pub clean_wrapper : (inner : Text) → clean (wrapper_select inner) ≡ wrapper_select inner
unfolding wrapper_select quote
clean_wrapper inner = clean-closed 115 (codes "elect * from \"" ++ double_quotes inner) refl

clean_space : (s : Text) → clean (32 ∷ s) ≡ clean s
clean_space s = ap (λ t. trim (trim_semicolons t)) (trim_space s)

-- A statement that SQLite kept of a view reads back as what it was made of.
pub view_body-stored :
    (view : Text) (body : ViewBody)
    → IsColumns body.columns
    → is_empty body.select ≡ false
    → clean body.select ≡ body.select
    → view_body (create_view (codes "CREATE VIEW ") view body.columns body.select) ≡ some body
unfolding view_body
view_body-stored view body c n k =
    ap from_head (view_head-reads view body.columns body.select c)
    ∙ rw (clean_space body.select, k) (rw n refl)

pub view_body-IsColumns :
    (sql : Text) (body : ViewBody)
    → view_body sql ≡ some body
    → IsColumns body.columns × (is_empty body.select ≡ false)
unfolding view_body
view_body-IsColumns sql body h = elim (Option-cases (view_head sql)) [
  | inl n ↦ absurd (let f : ⊥ = ground arith in f)
  | inr ((columns, rest), p) ↦
      let q : body_of columns (clean rest) ≡ some body = ground arith in
      let c : columns ≡ body.columns = ground arith in
      (subst IsColumns c (view_head-IsColumns sql columns rest p), ground arith)
]

pub wrapper-is_wrapper :
    (inner : Text)
    → is_wrapper_for (record { columns = none; select = wrapper_select inner }) inner ≡ true
unfolding is_wrapper_for
wrapper-is_wrapper inner = rw (clean_wrapper inner) (same_refl _)

lowercase_from-plain :
    (a : ℕ) (s : Text)
    → kelvin (a ∷ s) ≡ false
    → lowercase_from 0 (a ∷ s) ≡ lower a ∷ lowercase_from 0 s
lowercase_from-plain a s h = rw (h, lowercase_from)

kelvin-word : (a : ℕ) (s : Text) → is_word_byte a ≡ true → kelvin (a ∷ s) ≡ false
kelvin-word a [] h = refl
kelvin-word a (b ∷ []) h = refl
kelvin-word a (b ∷ c ∷ s) h = ground arith

pub lowercase_from-word : (s : Text) → all is_word_byte s ≡ true → lowercase_from 0 s ≡ map lower s
lowercase_from-word [] h = refl
lowercase_from-word (a ∷ s) h =
    lowercase_from-plain a s (kelvin-word a s (ground arith))
    ∙ ap (λ t. lower a ∷ t) (lowercase_from-word s (ground arith))

pub valid_identifier-word : (s : Text) → valid_identifier s ≡ true → all is_word_byte s ≡ true
unfolding valid_identifier
valid_identifier-word s h = ground arith

-- No view that an app may declare has a name like an inner view's.
pub inner-ne-view :
    (salt name view : Text)
    → valid_identifier view ≡ true
    → is_ts view ≡ false
    → map lower (inner_name salt name) ≢ map lower view
unfolding to_lowercase inner_name ℕ_discrete
inner-ne-view salt name view v t e =
    let low = lowercase_from-word view (valid_identifier-word view v) in
    let q : starts_with (map lower view) ts ≡ true = rw (← e) refl in cc
