-- ===== src/Views/Scripts.antt =====
-- The scripts that the platform runs on an app's database, of src/runtime/access.rs (`wrap` and
-- `unwrap`), and SQLite running them: a parameter, with what is relied on in `SqliteLaws`.
use toolsite.Common.{
  ◌≡◌, Bool, true, false, ◌&&◌, Option, none, some, List, [], ◌∷◌, ◌++◌, if◌then◌else◌, Text, same,
  codes,
}
use toolsite.Views.{Database, quote, inner_name, create_view, wrapper_select, or_empty}
use toolsite.Views.Scanner.{ViewBody, eq_ignore_ascii_case}

-- The statements of a script, and the text of one.
pub data Statement : Type 0 where
  drop_view : Text → Statement
  new_view : Text → Option Text → Text → Statement

abbrev pub statement_text : Statement → Text
statement_text (drop_view view) = codes "drop view if exists " ++ (quote view ++ codes ";\n")
statement_text (new_view view columns select) =
    create_view (codes "create view ") view columns select ++ codes ";\n"

abbrev pub script_text : List Statement → Text
script_text [] = []
script_text (s ∷ script) = statement_text s ++ script_text script

unfoldable pub wrap : Text → Text → ViewBody → Text
wrap salt view body =
    let inner = quote (inner_name salt view) in
    let public = quote view in
    codes "drop view if exists "
    ++ (public
        ++ (codes ";\ndrop view if exists "
            ++ (inner
                ++ (codes ";\ncreate view "
                    ++ (inner
                        ++ (or_empty body.columns
                            ++ (codes " as "
                                ++ (body.select
                                    ++ (codes ";\ncreate view "
                                        ++ (public
                                            ++ (codes " as select * from "
                                                ++ (inner ++ codes ";\n"))))))))))))

unfoldable pub unwrap : Text → Text → ViewBody → Text
unwrap salt view body =
    let inner = quote (inner_name salt view) in
    let public = quote view in
    codes "drop view if exists "
    ++ (public
        ++ (codes ";\ncreate view "
            ++ (public
                ++ (or_empty body.columns
                    ++ (codes " as "
                        ++ (body.select
                            ++ (codes ";\ndrop view if exists " ++ (inner ++ codes ";\n"))))))))

-- The statements of which these are the text.
unfoldable pub wrap_script : Text → Text → ViewBody → List Statement
wrap_script salt view body =
    drop_view view
    ∷ drop_view (inner_name salt view)
    ∷ new_view (inner_name salt view) body.columns body.select
    ∷ new_view view none (wrapper_select (inner_name salt view))
    ∷ []

unfoldable pub unwrap_script : Text → Text → ViewBody → List Statement
unwrap_script salt view body =
    drop_view view ∷ new_view view body.columns body.select ∷ drop_view (inner_name salt view) ∷ []

-- SQLite, running statements. `reads` says that it reads the text of a statement as that one statement
-- and no error: so of a `new_view` that the columns are a list of names, the select a whole one, and
-- the name one that may be given. It keeps a view's statement from the name on, behind `CREATE VIEW`,
-- finds names without case, and drops a view's triggers with it.
pub record Sqlite : Type 0 where
  pub exec : Database → Statement → Database
  pub reads : Statement → Bool

abbrev pub is_view : Text → Text → Text → Bool
is_view view kind name = same kind (codes "view") && eq_ignore_ascii_case view name

-- No table and no index has the name.
abbrev pub IsFree : Database → Text → Type 0
IsFree db name =
    (db.object_sql (codes "table") name ≡ none) × (db.object_sql (codes "index") name ≡ none)

pub record SqliteLaws (sqlite : Sqlite) : Type 0 where
  pub drops :
      (db : Database) (view kind name : Text)
      → sqlite.reads (drop_view view) ≡ true
      → IsFree db view
      → same kind (codes "trigger") ≡ false
      → (sqlite.exec db (drop_view view)).object_sql kind name
        ≡ (if is_view view kind name then none else db.object_sql kind name)
  pub creates :
      (db : Database) (view : Text) (columns : Option Text) (select kind name : Text)
      → sqlite.reads (new_view view columns select) ≡ true
      → IsFree db view
      → db.object_sql (codes "view") view ≡ none
      → (sqlite.exec db (new_view view columns select)).object_sql kind name ≡ (
          if is_view view kind name
          then some (create_view (codes "CREATE VIEW ") view columns select)
          else db.object_sql kind name)

-- Each statement of a script reads as itself.
abbrev pub ReadsAll : Sqlite → List Statement → Type 0
ReadsAll sqlite [] = Unit
ReadsAll sqlite (s ∷ script) = (sqlite.reads s ≡ true) × ReadsAll sqlite script

unfoldable pub run_script : Sqlite → Database → List Statement → Database
run_script sqlite db [] = db
run_script sqlite db (s ∷ script) = run_script sqlite (sqlite.exec db s) script
