-- ===== src/Views/Written.antt =====
-- Statements that the platform writes (`wrap` of src/runtime/access.rs), as `view_body` reads them.
use toolsite.Common.{
  ℕ, ◌≡◌, ◌≢◌, refl, sym, subst, ◌∙◌, ap, Bool, true, ◌&&◌, Option, none, some, [], ◌∷◌, ◌++◌,
  arith, Text, all, codes, text_discrete,
}
use native.Mathlib.Decide.{ℕ_discrete}
use toolsite.Views.{quote, create_view, or_empty}
use toolsite.Views.Scanner.{
  Scan, ◌>>=◌, ◌>>◌, blank_at, peek_char, first, is_word_byte, word, expect_word,
  eq_ignore_ascii_case, name, balanced, parenthesised, past_temp, past_if, past_schema, column_list,
  columns_here, pure, view_head,
}
use toolsite.Views.Skipping.{skip_solid, skip_space, blank_at-solid, is_solid}
use toolsite.Views.Names.{name-quote}
use toolsite.Views.Reading.{span_word-append, IsOutside, IsColumns}

is_word_byte-is_solid : (c : ℕ) → is_word_byte c ≡ true → is_solid c ≡ true
is_word_byte-is_solid c h = ground arith

and_left : (a b : Bool) → (a && b) ≡ true → a ≡ true
and_left a b h = ground arith

blank_at-word : (c : ℕ) (w s : Text) → all is_word_byte (c ∷ w) ≡ true → blank_at (c ∷ s) ≡ 0
blank_at-word c w s h = blank_at-solid c s (is_word_byte-is_solid c (and_left _ _ h))

word-at :
    (c : ℕ) (w rest : Text)
    → all is_word_byte (c ∷ w) ≡ true
    → IsOutside rest
    → word ((c ∷ w) ++ rest) ≡ some (c ∷ w, rest)
unfolding word
word-at c w rest h o = rw (
  skip_solid ((c ∷ w) ++ rest) (blank_at-word c w (w ++ rest) h),
  span_word-append (c ∷ w) rest h o,
)

word-space :
    (c : ℕ) (w rest : Text)
    → all is_word_byte (c ∷ w) ≡ true
    → IsOutside rest
    → word (32 ∷ (c ∷ w) ++ rest) ≡ some (c ∷ w, rest)
unfolding word
word-space c w rest h o = rw (
  skip_space ((c ∷ w) ++ rest) (blank_at-word c w (w ++ rest) h),
  span_word-append (c ∷ w) rest h o,
)

-- A step of a `do` block whose answer is known.
step :
    {A B : Type 0} (m : Scan A) (f : A → Scan B) {s : Text} {a : A} {t : Text}
    → m s ≡ some (a, t)
    → (m >>= f) s ≡ f a t
step {A} {B} m f p =
    ap
      (λ (o : Option (A × Text)).
        let r : Option (B × Text) = elim o [ none ↦ none | some (a, s') ↦ f a s' ] in r)
      p

expect-word :
    (wanted s : Text) {w t : Text}
    → word s ≡ some (w, t)
    → eq_ignore_ascii_case w wanted ≡ true
    → expect_word wanted s ≡ some (tt, t)
unfolding expect_word
expect-word wanted s p e = step word _ p ∙ rw e

expect_as :
    (select : Text) → expect_word (codes "as") (codes " as " ++ select) ≡ some (tt, 32 ∷ select)
unfolding text_discrete ℕ_discrete
expect_as select =
    expect-word (codes "as") _ (word-space 97 (115 ∷ []) (32 ∷ select) refl refl) refl

expect_as_here :
    (select : Text) → expect_word (codes "as") (codes "as " ++ select) ≡ some (tt, 32 ∷ select)
unfolding text_discrete ℕ_discrete
expect_as_here select =
    expect-word (codes "as") _ (word-at 97 (115 ∷ []) (32 ∷ select) refl refl) refl

expect_create :
    (rest : Text)
    → expect_word (codes "create") (codes "CREATE VIEW " ++ rest)
      ≡ some (tt, codes " VIEW " ++ rest)
unfolding text_discrete ℕ_discrete
expect_create rest =
    expect-word (codes "create") _ (word-at 67 (codes "REATE") (codes " VIEW " ++ rest) refl refl)
      refl

word_view : (rest : Text) → word (codes " VIEW " ++ rest) ≡ some (codes "VIEW", 32 ∷ rest)
word_view rest = word-space 86 (codes "IEW") (32 ∷ rest) refl refl

-- From the name on: the columns, and what stands behind `as`.
abbrev from_name : Scan (Option Text)
from_name = peek_char >>= λ c.
    past_schema c >> (columns_here >>= λ columns. expect_word (codes "as") >> pure columns)

peek-solid : (s : Text) → blank_at s ≡ 0 → peek_char s ≡ some (first s, s)
unfolding peek_char
peek-solid s h = rw (skip_solid s h)

peek-space : (s : Text) → blank_at s ≡ 0 → peek_char (32 ∷ s) ≡ some (first s, s)
unfolding peek_char
peek-space s h = rw (skip_space s h)

parenthesised-reads :
    (s r : Text)
    → balanced 0 (40 ∷ s ++ r) ≡ some (40 ∷ s, r)
    → columns_here (40 ∷ s ++ r) ≡ some (some (40 ∷ s), r)
unfolding columns_here column_list parenthesised
parenthesised-reads s r h =
    step peek_char _ (peek-solid (40 ∷ s ++ r) (blank_at-solid 40 _ refl))
    ∙ rw (skip_solid (40 ∷ s ++ r) (blank_at-solid 40 _ refl), h)

from_list-reads :
    (s select : Text)
    → ((r : Text) → balanced 0 (40 ∷ s ++ r) ≡ some (40 ∷ s, r))
    → from_name (40 ∷ s ++ (codes " as " ++ select)) ≡ some (some (40 ∷ s), 32 ∷ select)
unfolding past_schema
from_list-reads s select h =
    step peek_char _ (peek-solid (40 ∷ s ++ (codes " as " ++ select)) (blank_at-solid 40 _ refl))
    ∙ step columns_here _
        (parenthesised-reads s (codes " as " ++ select) (h (codes " as " ++ select)))
    ∙ step (expect_word (codes "as")) _ (expect_as select)

from_name-reads :
    (columns : Option Text) (select : Text)
    → IsColumns columns
    → from_name (or_empty columns ++ (codes " as " ++ select)) ≡ some (columns, 32 ∷ select)
unfolding past_schema columns_here column_list
from_name-reads none select c =
    step peek_char _ (peek-space (codes "as " ++ select) (blank_at-solid 97 _ refl))
    ∙ step columns_here _
        (step peek_char _ (peek-solid (codes "as " ++ select) (blank_at-solid 97 _ refl)))
    ∙ step (expect_word (codes "as")) _ (expect_as_here select)
from_name-reads (some []) select c = absurd (let f : ⊥ = cc in f)
from_name-reads (some (d ∷ s)) select c =
    let q : d ≡ 40 = cc in
    subst (λ e. from_name ((e ∷ s) ++ (codes " as " ++ select)) ≡ some (some (e ∷ s), 32 ∷ select))
      (sym q)
      (from_list-reads s select
        (subst (λ e. (r : Text) → balanced 0 ((e ∷ s) ++ r) ≡ some (e ∷ s, r)) q c.1))

name-first :
    (columns : Option Text) (rest : Text)
    → IsColumns columns
    → first (or_empty columns ++ 32 ∷ rest) ≢ some 34
name-first none rest c = ground arith
name-first (some []) rest c = ground arith
name-first (some (d ∷ s)) rest c = let q : first (d ∷ s) ≡ some 40 = c.0 in ground arith

name-space :
    (view rest : Text)
    → first rest ≢ some 34
    → name (32 ∷ (quote view ++ rest)) ≡ some (quote view, rest)
name-space view rest h =
    name_after_space (quote view ++ rest) (blank_at-quote view rest) ∙ name-quote view rest h
  where
    blank_at-quote : (view rest : Text) → blank_at (quote view ++ rest) ≡ 0
    blank_at-quote view rest = unfold quote in blank_at-solid 34 _ refl

    name_after_space : (s : Text) → blank_at s ≡ 0 → name (32 ∷ s) ≡ name s
    name_after_space s h = unfold name in (rw (skip_space s h, skip_solid s h))

past_if-quoted : (view : Text) (s : Text) → past_if (quote view) s ≡ some (quote view, s)
unfolding past_if quote text_discrete ℕ_discrete
past_if-quoted view s = refl

-- The head of a statement that SQLite keeps of a view of the platform's.
pub view_head-reads :
    (view : Text) (columns : Option Text) (select : Text)
    → IsColumns columns
    → view_head (create_view (codes "CREATE VIEW ") view columns select)
      ≡ some (columns, 32 ∷ select)
unfolding view_head create_view past_temp text_discrete ℕ_discrete
view_head-reads view columns select c =
    let tail = or_empty columns ++ (codes " as " ++ select) in
    step (expect_word (codes "create")) _ (expect_create (quote view ++ tail))
    ∙ step word _ (word_view (quote view ++ tail))
    ∙ step name _ (name-space view tail (name-first columns (codes "as " ++ select) c))
    ∙ step (past_if (quote view)) _ (past_if-quoted view tail)
    ∙ from_name-reads columns select c
