-- ===== src/Views.antt =====
-- Row policies and declared views of an app: src/runtime/access.rs. The SQL that the platform writes
-- from them, and what it accepts; Scanner reads a `create view` statement. The app's database is
-- SQLite's: a parameter, with what it answers. A text is its bytes.
pub mod Scanner
pub mod Skipping
pub mod Names
pub mod Reading
pub mod Written
pub mod Scripts
pub mod Spelled
pub mod Moved
pub mod Regenerated
pub mod Apart
mod Tests
use toolsite.Common.{
  ℕ, suc, ◌+◌, ◌-◌, ◌⊎◌, inl, inr, Bool, true, false, not, ◌&&◌, ◌||◌, Option, none, some, List, [],
  ◌∷◌, ◌++◌, ◌==◌, leb, if◌then◌else◌, Text, same, codes, starts_with, length, all, any, map,
  map_option, trim, is_some, zero,
}
use toolsite.Access.Paths.{is_empty}
use toolsite.Views.Scanner.{
  ViewBody, is_word_byte, eq_ignore_ascii_case, lower, trim_semicolons, view_body,
}

-- What SQLite answers of an app's database: the columns of a table, the text of the object of a kind
-- under a name, and, of a query, its number of parameters or why it does not prepare.
pub record Database : Type 0 where
  pub columns : Text → List Text
  pub object_sql : Text → Text → Option Text
  pub prepare : Text → ℕ ⊎ Text

pub record Policy : Type 0 where
  pub table : Text
  pub view : Text
  pub where_ : Text
  pub owner : Option Text
  pub write : Bool

abbrev pub rowid_column : Text
rowid_column = codes "ts_rowid"

abbrev pub ts : Text
ts = codes "ts_"

unfoldable pub inner_name : Text → Text → Text
inner_name salt view = ts ++ (salt ++ (codes "_" ++ view))

unfoldable pub trigger_names : Text → Text → List Text
trigger_names salt view =
    (ts ++ (salt ++ (codes "_" ++ (view ++ codes "_insert"))))
    ∷ (ts ++ (salt ++ (codes "_" ++ (view ++ codes "_update"))))
    ∷ (ts ++ (salt ++ (codes "_" ++ (view ++ codes "_delete"))))
    ∷ []

abbrev starts_identifier : Text → Bool
starts_identifier [] = false
starts_identifier (c ∷ s) = is_word_byte c && not (leb 48 c && leb c 57)

unfoldable pub valid_identifier : Text → Bool
valid_identifier s = starts_identifier s && all is_word_byte s && leb (length s) 64

-- `replace('"', "\"\"")`.
unfoldable pub double_quotes : Text → Text
double_quotes [] = []
double_quotes (c ∷ s) = let rest = double_quotes s in if c == 34 then c ∷ c ∷ rest else c ∷ rest

unfoldable pub quote : Text → Text
quote identifier = 34 ∷ double_quotes identifier ++ 34 ∷ []

-- `to_lowercase`, as far as a comparison with an ASCII text sees it: of the letters beyond ASCII only
-- the Kelvin sign becomes one of ASCII.
abbrev pub kelvin : Text → Bool
kelvin [] = false
kelvin (a ∷ []) = false
kelvin (a ∷ b ∷ []) = false
kelvin (a ∷ b ∷ c ∷ s) = a == 226 && b == 132 && c == 170

abbrev pub lowercase_from : ℕ → Text → Text
lowercase_from skip [] = []
lowercase_from (suc skip) (c ∷ s) = lowercase_from skip s
lowercase_from zero (c ∷ s) = elim (kelvin (c ∷ s)) [
  | true ↦ 107 ∷ lowercase_from 2 s
  | false ↦ lower c ∷ lowercase_from 0 s
]

unfoldable pub to_lowercase : Text → Text
to_lowercase s = lowercase_from 0 s

unfoldable pub wrapper_select : Text → Text
wrapper_select inner = codes "select * from " ++ quote inner

unfoldable pub is_wrapper_for : ViewBody → Text → Bool
is_wrapper_for body inner =
    same (to_lowercase (trim (trim_semicolons (trim body.select))))
      (to_lowercase (wrapper_select inner))

abbrev pub or_empty : Option Text → Text
or_empty none = []
or_empty (some s) = s

-- A statement that creates a view, from its name, its columns and its body.
unfoldable pub create_view : Text → Text → Option Text → Text → Text
create_view create view columns select =
    create ++ (quote view ++ (or_empty columns ++ (codes " as " ++ select)))

-- What is wrong with a policy or a declared view.
pub data Refusal : Type 0 where
  no_table_name no_view_name no_name_of_its_own platform_name no_where two_statements : Refusal
  no_column_name no_table no_column rowid_taken without_rowid has_parameter : Refusal
  not_parsed : Text → Refusal
  is_table not_read inner_missing inner_not_read : Refusal

pub data Result (A : Type 0) : Type 0 where
  ok : A → Result A
  err : Refusal → Result A

infixl 5 ◌>>◌
abbrev pub ◌>>◌ : {A : Type 0} → Result (Unit {0}) → Result A → Result A
ok u >> r = r
err e >> r = err e

abbrev pub refuse_if : Bool → Refusal → Result (Unit {0})
refuse_if b e = if b then err e else ok tt

abbrev contains_text : Text → Text → Bool
contains_text [] pat = false
contains_text (c ∷ s) pat = starts_with (c ∷ s) pat || contains_text s pat

abbrev upper : ℕ → ℕ
upper c = if leb 97 c && leb c 122 then c - 32 else c

abbrev owner_named : (Text → Bool) → Option Text → Bool
owner_named p none = false
owner_named p (some owner) = p owner

-- The query that must prepare.
abbrev pub probe : Policy → Text
probe p = codes "select 1 from " ++ (quote p.table ++ (codes " where (" ++ (p.where_ ++ codes ")")))

abbrev prepared : ℕ ⊎ Text → Result (Unit {0})
prepared (inr why) = err (not_parsed why)
prepared (inl n) = refuse_if (not (n == 0)) has_parameter

abbrev pub is_ts : Text → Bool
is_ts name = starts_with (to_lowercase name) ts

module _ (db : Database) where
  abbrev pub table_sql : Text → Option Text
  table_sql name = db.object_sql (codes "table") name

  abbrev has_column : Text → Text → Bool
  has_column table c = any (λ d. eq_ignore_ascii_case d c) (db.columns table)

  -- The end of `validate`, once the table's own text is known.
  abbrev validate_on : Policy → Option Text → Result (Unit {0})
  validate_on p none = err no_table
  validate_on p (some create) = do
    refuse_if (owner_named (λ o. not (has_column p.table o)) p.owner) no_column
    refuse_if (has_column p.table rowid_column) rowid_taken
    refuse_if (p.write && contains_text (map upper create) (codes "WITHOUT ROWID")) without_rowid
    prepared (db.prepare (probe p))

  unfoldable pub validate : Policy → Result (Unit {0})
  unfolding valid_identifier
  validate p = do
    refuse_if (not (valid_identifier p.table)) no_table_name
    refuse_if (not (valid_identifier p.view)) no_view_name
    refuse_if (eq_ignore_ascii_case p.view p.table) no_name_of_its_own
    refuse_if (is_ts p.view) platform_name
    refuse_if (is_empty (trim p.where_)) no_where
    refuse_if (any (λ c. c == 59) p.where_) two_statements
    refuse_if (owner_named (λ o. not (valid_identifier o)) p.owner) no_column_name
    validate_on p (table_sql p.table)

  abbrev pub read_inner : Option Text → Result (Option ViewBody)
  read_inner none = err inner_missing
  read_inner (some sql) = elim (view_body sql) [ none ↦ err inner_not_read | some b ↦ ok (some b) ]

  -- A view that was read: the body it has, or, of a wrapper, that of the inner view.
  abbrev pub declared_body : Text → Text → Option ViewBody → Result (Option ViewBody)
  declared_body salt view none = err not_read
  declared_body salt view (some body) =
      if is_wrapper_for body (inner_name salt view)
      then read_inner (db.object_sql (codes "view") (inner_name salt view))
      else ok (some body)

  abbrev pub declared_sql : Text → Text → Option Text → Result (Option ViewBody)
  declared_sql salt view none = ok none
  declared_sql salt view (some sql) = declared_body salt view (view_body sql)

  unfoldable pub validate_declared : Text → Text → Result (Option ViewBody)
  unfolding inner_name is_wrapper_for
  validate_declared salt view = do
    refuse_if (not (valid_identifier view)) no_view_name
    refuse_if (is_ts view) platform_name
    refuse_if (is_some (table_sql view)) is_table
    declared_sql salt view (db.object_sql (codes "view") view)
