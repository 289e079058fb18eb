-- ===== src/Views/Scanner.antt =====
-- The reader of `create view` statements of src/runtime/access.rs: `Scanner` and `view_body`. A scanner
-- is what is left of the text at `pos`; each method answers, or fails, and leaves the rest. A text is
-- its bytes in UTF-8, and all that the scanner looks for but white space is ASCII.
use toolsite.Common.{
  ℕ, zero, suc, ◌+◌, ◌-◌, ◌^◌, Bool, true, false, ◌&&◌, ◌||◌, Option, none, some, [], ◌∷◌, ◌==◌,
  if◌then◌else◌, Text, same, codes, starts_with, length, drop, map, map_option, blank_width, trim,
  leb,
}
use toolsite.Access.Paths.{is_empty, is_alphanumeric}

abbrev pub Scan : Type 0 → Type 0
Scan A = Text → Option (A × Text)

infixl 5 ◌>>=◌ ◌>>◌
abbrev pub ◌>>=◌ : {A B : Type 0} → Scan A → (A → Scan B) → Scan B
◌>>=◌ m f s = elim (m s) [ none ↦ none | some (a, s') ↦ f a s' ]

abbrev pub ◌>>◌ : {A B : Type 0} → Scan A → Scan B → Scan B
m >> k = m >>= λ _. k

abbrev pub pure : {A : Type 0} → A → Scan A
pure a s = some (a, s)

abbrev pub fail : {A : Type 0} → Scan A
fail s = none

-- `eq_ignore_ascii_case`.
abbrev pub lower : ℕ → ℕ
lower c = if leb 65 c && leb c 90 then c + 32 else c

abbrev pub eq_ignore_ascii_case : Text → Text → Bool
eq_ignore_ascii_case a b = same (map lower a) (map lower b)

-- `str::find`, for a pattern that is not empty.
abbrev pub find : Text → Text → Option ℕ
find [] pat = none
find (c ∷ s) pat = if starts_with (c ∷ s) pat then some 0 else map_option suc (find s pat)

-- How far a comment goes that ends with `pat`, or else at the end.
abbrev pub comment_width : Text → Text → ℕ
comment_width pat s = elim (find s pat) [ none ↦ length s | some i ↦ i + length pat ]

-- How many bytes the comment or the white space has that comes next; 0 where there is none.
unfoldable pub blank_at : Text → ℕ
blank_at s =
    if starts_with s (codes "--")
    then comment_width (10 ∷ []) s
    else (if starts_with s (codes "/*") then comment_width (codes "*/") s else blank_width s)

-- The loop, in at most `fuel` rounds.
unfoldable pub skip : ℕ → Text → Text
skip zero s = s
skip (suc fuel) s = elim (blank_at s) [ zero ↦ s | suc n ↦ skip fuel (drop (suc n) s) ]

unfoldable pub skip_space_and_comments : Text → Text
skip_space_and_comments s = skip (length s) s

abbrev pub first : Text → Option ℕ
first [] = none
first (c ∷ s) = some c

unfoldable pub peek_char : Scan (Option ℕ)
peek_char s = let rest = skip_space_and_comments s in some (first rest, rest)

abbrev pub is_word_byte : ℕ → Bool
is_word_byte c = is_alphanumeric c || c == 95

-- The text up to the first byte that is not of a word, and the rest.
unfoldable pub span_word : Text → Text × Text
span_word [] = ([], [])
span_word (c ∷ s) =
    let (w, rest) = span_word s in if is_word_byte c then (c ∷ w, rest) else ([], c ∷ s)

abbrev pub if_any : Text × Text → Option (Text × Text)
if_any ([], rest) = none
if_any (c ∷ w, rest) = some (c ∷ w, rest)

unfoldable pub word : Scan Text
word s = if_any (span_word (skip_space_and_comments s))

unfoldable pub expect_word : Text → Scan (Unit {0})
expect_word wanted = do w ← word; if eq_ignore_ascii_case w wanted then pure tt else fail

abbrev pub push : ℕ → Option (Text × Text) → Option (Text × Text)
push c none = none
push c (some (t, rest)) = some (c ∷ t, rest)

-- Up to the closing byte and with it. `doubled`: two closing bytes are one inside the name.
unfoldable pub up_to : ℕ → Bool → Text → Option (Text × Text)
up_to close doubled [] = none
up_to close doubled (c ∷ []) = if c == close then some (c ∷ [], []) else none
up_to close doubled (c ∷ d ∷ s) = elim (c == close) [
  | false ↦ push c (up_to close doubled (d ∷ s))
  | true ↦ elim (doubled && d == close) [
    | true ↦ push c (push d (up_to close doubled s))
    | false ↦ some (c ∷ [], d ∷ s)
  ]
]

-- A name whose first byte is known.
unfoldable pub name_at : Text → Option (Text × Text)
name_at [] = none
name_at (c ∷ s) =
    if c == 34
    then push c (up_to 34 true s)
    else if c == 96
    then push c (up_to 96 true s)
    else if c == 91
    then push c (up_to 93 false s)
    else word (c ∷ s)

unfoldable pub name : Scan Text
name s = name_at (skip_space_and_comments s)

-- `depth -= 1` wraps where no parenthesis is open, which `view_body` never asks.
abbrev closed : ℕ → ℕ
closed zero = 2 ^ 64 - 1
closed (suc depth) = depth

unfoldable pub depth_after : ℕ → ℕ → ℕ
depth_after depth c = if c == 40 then depth + 1 else (if c == 41 then closed depth else depth)

unfoldable pub balanced : ℕ → Text → Option (Text × Text)
balanced depth [] = none
balanced depth (c ∷ s) =
    let depth' = depth_after depth c in
    let rest = push c (balanced depth' s) in
    if c == 41 && depth' == 0 then some (c ∷ [], s) else rest

unfoldable pub parenthesised : Scan Text
parenthesised s = balanced 0 (skip_space_and_comments s)

-- `trim_end_matches(';')`.
abbrev pub trim_semicolons : Text → Text
trim_semicolons [] = []
trim_semicolons (c ∷ s) =
    let rest = trim_semicolons s in if c == 59 && is_empty rest then [] else c ∷ rest

abbrev pub clean : Text → Text
clean s = trim (trim_semicolons (trim s))

pub record ViewBody : Type 0 where
  pub columns : Option Text
  pub select : Text

-- The word after `create`, past `temp` or `temporary`.
unfoldable pub past_temp : Text → Scan Text
past_temp w =
    if eq_ignore_ascii_case w (codes "temp") || eq_ignore_ascii_case w (codes "temporary")
    then word
    else pure w

-- What `if not exists` has in front of the name.
unfoldable pub past_if : Text → Scan Text
past_if n =
    if eq_ignore_ascii_case n (codes "if")
    then (do expect_word (codes "not"); expect_word (codes "exists"); name)
    else pure n

-- Drops the dot and reads the name behind it, where the schema was named.
unfoldable pub past_schema : Option ℕ → Scan (Unit {0})
past_schema none s = some (tt, s)
past_schema (some c) s =
    if c == 46 then map_option (λ r. (tt, r.1)) (name (drop 1 s)) else some (tt, s)

unfoldable pub column_list : Option ℕ → Scan (Option Text)
column_list none s = some (none, s)
column_list (some c) s =
    if c == 40 then map_option (λ r. (some r.0, r.1)) (parenthesised s) else some (none, s)

unfoldable pub columns_here : Scan (Option Text)
columns_here = do c ← peek_char; column_list c

-- The head of the statement, up to and with `as`: the column list.
unfoldable pub view_head : Scan (Option Text)
view_head = do
  expect_word (codes "create")
  w ← word
  w ← past_temp w
  if eq_ignore_ascii_case w (codes "view") then pure tt else fail
  n ← name
  past_if n
  c ← peek_char
  past_schema c
  columns ← columns_here
  expect_word (codes "as")
  pure columns

abbrev pub body_of : Option Text → Text → Option ViewBody
body_of columns select =
    if is_empty select then none else some (record { columns = columns; select = select })

abbrev pub from_head : Option (Option Text × Text) → Option ViewBody
from_head none = none
from_head (some (columns, rest)) = body_of columns (clean rest)

unfoldable pub view_body : Text → Option ViewBody
view_body sql = from_head (view_head sql)
