-- ===== src/Views/Reading.antt =====
-- Statements that the platform writes, as `view_body` of src/runtime/access.rs reads them.
use toolsite.Common.{
  ℕ, ◌≡◌, refl, sym, subst, ◌∙◌, ap, inl, inr, true, false, ◌&&◌, Option, none, some, [], ◌∷◌, ◌++◌,
  arith, ◌==◌, if◌then◌else◌, Text, Bool-cases, Option-cases, all, codes,
}
use toolsite.Views.Scanner.{
  Scan, ◌>>=◌, ◌>>◌, blank_at, skip_space_and_comments, peek_char, first, is_word_byte, span_word,
  word, expect_word, eq_ignore_ascii_case, name, push, balanced, depth_after, parenthesised,
  past_temp, past_if, past_schema, column_list, columns_here, pure, fail, view_head,
}
use toolsite.Views.Skipping.{skip_solid, skip-blank_at}

abbrev pub IsOutside : Text → Type 0
IsOutside [] = Unit
IsOutside (c ∷ s) = is_word_byte c ≡ false

pub span_word-append :
    (w rest : Text) → all is_word_byte w ≡ true → IsOutside rest → span_word (w ++ rest) ≡ (w, rest)
unfolding span_word
span_word-append [] [] h o = refl
span_word-append [] (c ∷ s) h o = rw o
span_word-append (c ∷ w) rest h o = ground (arith, span_word-append w rest)

-- A column list is read whole, with whatever follows.
abbrev pub IsColumns : Option Text → Type 0
IsColumns none = Unit
IsColumns (some s) = (first s ≡ some 40) × ((r : Text) → balanced 0 (s ++ r) ≡ some (s, r))

push-eq_some :
    (c : ℕ) (o : Option (Text × Text)) (t rest : Text)
    → push c o ≡ some (t, rest)
    → (t' : Text) × (o ≡ some (t', rest)) × (t ≡ c ∷ t')
push-eq_some c none t rest h = cc
push-eq_some c (some (u, r)) t rest h = (u, cc, cc)

balanced-append :
    (depth : ℕ) (s t rest r : Text)
    → balanced depth s ≡ some (t, rest)
    → balanced depth (t ++ r) ≡ some (t, r)
unfolding balanced
balanced-append depth [] t rest r h = cc
balanced-append depth (c ∷ s) t rest r h = elim (Bool-cases (c == 41 && depth_after depth c == 0)) [
  | inl e ↦ let q : t ≡ c ∷ [] = ground arith in rw q (rw (e) refl)
  | inr e ↦
      let (t', e', q) = push-eq_some c (balanced (depth_after depth c) s) t rest (ground arith) in
      rw (q, e, balanced-append (depth_after depth c) s t' rest r e')
]

module _ {A : Type 0} (P : A → Type 0) where
  abbrev pub Gives : Scan A → Type 0
  Gives m = (s : Text) (a : A) (t : Text) → m s ≡ some (a, t) → P a

module _ {A B : Type 0} (Q : A → Type 0) (P : B → Type 0) where
  Gives-bind :
      (m : Scan A) (f : A → Scan B)
      → Gives Q m
      → ((a : A) → Q a → Gives P (f a))
      → Gives P (m >>= f)
  Gives-bind m f g h s b t e = elim (Option-cases (m s)) [
    | inl n ↦ absurd (bind_none n e)
    | inr ((a, s'), p) ↦ h a (g s a s' p) s' b t (bind_some p e)
  ]
    where
      bind_none : m s ≡ none → (m >>= f) s ≡ some (b, t) → ⊥
      bind_none n e = ground arith

      bind_some :
          {a : A} {s' : Text}
          → m s ≡ some (a, s')
          → (m >>= f) s ≡ some (b, t)
          → f a s' ≡ some (b, t)
      bind_some p e = ground arith

abbrev Any : {A : Type 0} → A → Type 0
Any a = Unit

Gives-Any : {A : Type 0} (m : Scan A) → Gives Any m
Gives-Any m s a t e = tt

balanced-first :
    (depth c : ℕ) (s u r : Text) → balanced depth (c ∷ s) ≡ some (u, r) → first u ≡ some c
unfolding balanced
balanced-first depth c s u r h = elim (Bool-cases (c == 41 && depth_after depth c == 0)) [
  | inl e ↦ ap first (sym (let q : c ∷ [] ≡ u = ground arith in q))
  | inr e ↦
      let (u', e', q) = push-eq_some c (balanced (depth_after depth c) s) u r (ground arith) in
      ap first q
]

balanced-IsColumns :
    (c : ℕ) (s u r : Text) → c ≡ 40 → balanced 0 (c ∷ s) ≡ some (u, r) → IsColumns (some u)
balanced-IsColumns c s u r q h =
    (balanced-first 0 c s u r h ∙ ap some q, λ r'. balanced-append 0 (c ∷ s) u r r' h)

column_list-IsColumns :
    (r : Text) (a : Option Text) (t : Text)
    → blank_at r ≡ 0
    → column_list (first r) r ≡ some (a, t)
    → IsColumns a
unfolding column_list
column_list-IsColumns [] a t z e = let q : none ≡ a = cc in subst IsColumns q tt
column_list-IsColumns (c ∷ r) a t z e = elim (Bool-cases (c == 40)) [
  | inr n ↦ let q : none ≡ a = ground arith in subst IsColumns q tt
  | inl y ↦ elim (Option-cases (balanced 0 (c ∷ r))) [
    | inl none_read ↦ absurd (let f : ⊥ = ground (arith, parenthesised-solid (c ∷ r) z) in f)
    | inr ((u, r'), read) ↦
        let q : some u ≡ a = ground (arith, parenthesised-solid (c ∷ r) z) in
        subst IsColumns q (balanced-IsColumns c r u r' (ground arith) read)
  ]
]
  where
    parenthesised-solid : (r : Text) → blank_at r ≡ 0 → parenthesised r ≡ balanced 0 r
    parenthesised-solid r z = unfold parenthesised in ap (balanced 0) (skip_solid r z)

columns_here-IsColumns : Gives IsColumns columns_here
unfolding columns_here peek_char
columns_here-IsColumns s a t e =
    column_list-IsColumns (skip_space_and_comments s) a t (skip-blank_at s) e

Gives-after :
    {A B : Type 0} (P : B → Type 0) (m : Scan A) (f : A → Scan B)
    → ((a : A) → Gives P (f a))
    → Gives P (m >>= f)
Gives-after P m f h = Gives-bind Any P m f (Gives-Any m) (λ a _. h a)

last-IsColumns :
    Gives IsColumns (columns_here >>= λ columns. expect_word (codes "as") >> pure columns)
last-IsColumns = Gives-bind IsColumns IsColumns columns_here _ columns_here-IsColumns (λ columns c.
    Gives-after IsColumns (expect_word (codes "as")) _
      (λ _ s a t e. let q : columns ≡ a = cc in subst IsColumns q c))

pub view_head-IsColumns : Gives IsColumns view_head
unfolding view_head
view_head-IsColumns = Gives-after IsColumns (expect_word (codes "create")) _ (λ _.
    Gives-after IsColumns word _ (λ w. Gives-after IsColumns (past_temp w) _ (λ w'.
      Gives-after IsColumns (if eq_ignore_ascii_case w' (codes "view") then pure tt else fail) _
        (λ _. Gives-after IsColumns name _ (λ n. Gives-after IsColumns (past_if n) _ (λ _.
          Gives-after IsColumns peek_char _
            (λ c. Gives-after IsColumns (past_schema c) _ (λ _. last-IsColumns))))))))
