-- ===== src/Views/Regenerated.antt =====
-- Declared views that are moved (`validate_declared`, `wrap` and
-- `unwrap` of src/runtime/access.rs).
use toolsite.Common.{
  ◌≡◌, ◌≢◌, refl, sym, ◌∙◌, ap, inl, inr, true, false, Option, none, some, arith, Text, Bool-cases,
  Option-cases, codes, same, same_refl, same_ne, text_discrete, map,
}
use native.Mathlib.Decide.{ℕ_discrete}
use toolsite.Access.Paths.{is_empty}
use toolsite.Views.{
  Database, ok, inner_name, wrapper_select, create_view, is_wrapper_for, valid_identifier, is_ts,
  validate_declared, declared_sql, declared_body, read_inner, table_sql,
}
use toolsite.Views.Scanner.{ViewBody, view_body, clean, lower}
use toolsite.Views.Scripts.{
  drop_view, new_view, wrap_script, unwrap_script, wrap, unwrap, script_text, Sqlite, SqliteLaws,
  run_script, is_view, IsFree, ReadsAll,
}
use toolsite.Views.Spelled.{wrap-script_text, unwrap-script_text}
use toolsite.Views.Reading.{IsColumns}
use toolsite.Views.Moved.{
  view_body-stored, view_body-IsColumns, wrapper-is_wrapper, clean_wrapper, inner-ne-view,
}

record IsDeclarable (db : Database) (view : Text) : Type 0 where
  identifier : valid_identifier view ≡ true
  not_ts : is_ts view ≡ false
  no_table : table_sql db view ≡ none

declared-IsDeclarable :
    (db : Database) (salt view : Text) (body : ViewBody)
    → validate_declared db salt view ≡ ok (some body)
    → IsDeclarable db view
unfolding validate_declared
declared-IsDeclarable db salt view body h = ground arith

declared_sql-eq :
    (db : Database) (salt view : Text)
    → IsDeclarable db view
    → validate_declared db salt view ≡ declared_sql db salt view (db.object_sql (codes "view") view)
unfolding validate_declared
declared_sql-eq db salt view d = rw (d.identifier, d.not_ts, d.no_table) refl

declared-view_body :
    (db : Database) (salt view : Text) (body : ViewBody)
    → validate_declared db salt view ≡ ok (some body)
    → (sql : Text) × (view_body sql ≡ some body)
declared-view_body db salt view body h =
    let d = declared-IsDeclarable db salt view body h in
    from_view (db.object_sql (codes "view") view) (sym (declared_sql-eq db salt view d) ∙ h)
  where
    from_inner :
        (o : Option Text)
        → read_inner db o ≡ ok (some body)
        → (sql : Text) × (view_body sql ≡ some body)
    from_inner none e = absurd (let f : ⊥ = cc in f)
    from_inner (some sql) e = (sql, ground arith)

    from_view :
        (o : Option Text)
        → declared_sql db salt view o ≡ ok (some body)
        → (sql : Text) × (view_body sql ≡ some body)
    from_view none e = absurd (let f : ⊥ = cc in f)
    from_view (some sql) e = elim (Option-cases (view_body sql)) [
      | inl n ↦ absurd (let f : ⊥ = ground arith in f)
      | inr (b, p) ↦ elim (Bool-cases (is_wrapper_for b (inner_name salt view))) [
        | inl y ↦ from_inner (db.object_sql (codes "view") (inner_name salt view)) (ground arith)
        | inr n ↦ (sql, ground arith)
      ]
    ]

is_view_self : (view : Text) → is_view view (codes "view") view ≡ true
is_view_self view = rw (same_refl (codes "view"), same_refl (map lower view)) refl

is_view-other :
    (view other : Text)
    → map lower view ≢ map lower other
    → is_view view (codes "view") other ≡ false
is_view-other view other n = rw (same_refl (codes "view"), same_ne _ _ n) refl

is_view-none :
    (view name : Text)
    → (is_view view (codes "table") name ≡ false) × (is_view view (codes "index") name ≡ false)
unfolding text_discrete ℕ_discrete
is_view-none view name = (refl, refl)

-- What a database has under two names that no table and no index has.
record Has (db : Database) (view inner : Text) (a b : Option Text) : Type 0 where
  view_free : IsFree db view
  inner_free : IsFree db inner
  view_sql : db.object_sql (codes "view") view ≡ a
  inner_sql : db.object_sql (codes "view") inner ≡ b

swapped : {db : Database} {v i : Text} {a b : Option Text} → Has db v i a b → Has db i v b a
swapped h = record {
  view_free = h.inner_free;
  inner_free = h.view_free;
  view_sql = h.inner_sql;
  inner_sql = h.view_sql;
}

no_trigger :
    (same (codes "table") (codes "trigger") ≡ false)
    × (same (codes "index") (codes "trigger") ≡ false)
    × (same (codes "view") (codes "trigger") ≡ false)
unfolding text_discrete ℕ_discrete
no_trigger = (refl, refl, refl)

module _ (sqlite : Sqlite) (laws : SqliteLaws sqlite) (v i : Text)
    (differ : map lower v ≢ map lower i) where
  dropped-IsFree :
      (db : Database) (name : Text)
      → sqlite.reads (drop_view v) ≡ true
      → IsFree db v
      → IsFree db name
      → IsFree (sqlite.exec db (drop_view v)) name
  dropped-IsFree db name r f n = (
    laws.drops db v (codes "table") name r f no_trigger.0 ∙ rw ((is_view-none v name).0) n.0,
    laws.drops db v (codes "index") name r f no_trigger.1 ∙ rw ((is_view-none v name).1) n.1,
  )

  dropped :
      {db : Database} {a b : Option Text}
      → sqlite.reads (drop_view v) ≡ true
      → Has db v i a b
      → Has (sqlite.exec db (drop_view v)) v i none b
  dropped {db} r h = record {
    view_free = dropped-IsFree db v r h.view_free h.view_free;
    inner_free = dropped-IsFree db i r h.view_free h.inner_free;
    view_sql =
        laws.drops db v (codes "view") v r h.view_free no_trigger.2 ∙ rw (is_view_self v) refl;
    inner_sql =
        laws.drops db v (codes "view") i r h.view_free no_trigger.2
        ∙ rw (is_view-other v i differ) h.inner_sql;
  }

  created :
      {db : Database} {b : Option Text} (columns : Option Text) (select : Text)
      → sqlite.reads (new_view v columns select) ≡ true
      → Has db v i none b
      → Has
          (sqlite.exec db (new_view v columns select))
          v
          i
          (some (create_view (codes "CREATE VIEW ") v columns select))
          b
  created {db} columns select r h =
      let made =
        λ (kind name : Text). laws.creates db v columns select kind name r h.view_free h.view_sql in
      record {
        view_free = (
          made (codes "table") v ∙ rw ((is_view-none v v).0) (h.view_free.0),
          made (codes "index") v ∙ rw ((is_view-none v v).1) (h.view_free.1),
        );
        inner_free = (
          made (codes "table") i ∙ rw ((is_view-none v i).0) (h.inner_free.0),
          made (codes "index") i ∙ rw ((is_view-none v i).1) (h.inner_free.1),
        );
        view_sql = made (codes "view") v ∙ rw (is_view_self v) refl;
        inner_sql = made (codes "view") i ∙ rw (is_view-other v i differ) h.inner_sql;
      }

read_inner-some :
    (db : Database) (sql : Text) (body : ViewBody)
    → view_body sql ≡ some body
    → read_inner db (some sql) ≡ ok (some body)
read_inner-some db sql body h = ground arith

select_not_empty : (name : Text) → is_empty (wrapper_select name) ≡ false
unfolding wrapper_select
select_not_empty name = refl

module _ (sqlite : Sqlite) (laws : SqliteLaws sqlite) (salt view : Text) (body : ViewBody) where
  abbrev inner : Text
  inner = inner_name salt view

  stored_inner : Option Text
  stored_inner = some (create_view (codes "CREATE VIEW ") inner body.columns body.select)

  stored_wrapper : Option Text
  stored_wrapper = some (create_view (codes "CREATE VIEW ") view none (wrapper_select inner))

  module _ (differ : map lower inner ≢ map lower view) where
    wrapped :
        {db : Database} {a b : Option Text}
        → ReadsAll sqlite (wrap_script salt view body)
        → Has db view inner a b
        → Has
            (run_script sqlite db (wrap_script salt view body))
            view
            inner
            stored_wrapper
            stored_inner
    unfolding run_script wrap_script stored_wrapper stored_inner
    wrapped (r1, (r2, (r3, (r4, _)))) h =
        let h1 = dropped sqlite laws view inner (λ e. differ (sym e)) r1 h in
        let h2 = dropped sqlite laws inner view differ r2 (swapped h1) in
        let h3 = created sqlite laws inner view differ body.columns body.select r3 h2 in
        created sqlite laws view inner (λ e. differ (sym e)) none (wrapper_select inner) r4
          (swapped h3)

    unwrapped :
        {db : Database} {a b : Option Text}
        → ReadsAll sqlite (unwrap_script salt view body)
        → Has db view inner a b
        → Has
            (run_script sqlite db (unwrap_script salt view body))
            view
            inner
            (some (create_view (codes "CREATE VIEW ") view body.columns body.select))
            none
    unfolding run_script unwrap_script
    unwrapped (r1, (r2, (r3, _))) h =
        let h1 = dropped sqlite laws view inner (λ e. differ (sym e)) r1 h in
        let h2 =
          created sqlite laws view inner (λ e. differ (sym e)) body.columns body.select r2 h1 in
        swapped (dropped sqlite laws inner view differ r3 (swapped h2))

  module _ (columns : IsColumns body.columns) (some_select : is_empty body.select ≡ false)
      (cleaned : clean body.select ≡ body.select) where
    wrapped_reads :
        (db : Database)
        → Has db view inner stored_wrapper stored_inner
        → declared_sql db salt view (db.object_sql (codes "view") view) ≡ ok (some body)
    unfolding stored_wrapper stored_inner
    wrapped_reads db h =
        ap (declared_sql db salt view) h.view_sql
        ∙ ap (declared_body db salt view) (
            view_body-stored view (record { columns = none; select = wrapper_select inner }) tt
              (select_not_empty inner) (clean_wrapper inner))
        ∙ rw (wrapper-is_wrapper inner) (
            ap (read_inner db) h.inner_sql
            ∙ read_inner-some db _ body (view_body-stored inner body columns some_select cleaned))

-- A declared view stays what it is as the platform moves it, and is given back: where `body` was read of
-- a declared view and has nothing at its ends to trim, SQLite reads each statement of the two scripts as
-- itself, and no table or index has the inner view's name and no index the view's, the texts of `wrap`
-- and `unwrap` are those of their statements one after the other, the script of `wrap`
-- leaves a database in which the same body is read of the same declaration and in which still no
-- table or index has either name, so that it can be run again; and the script of `unwrap` on that
-- leaves no inner view and, under the view's own name, a statement of which `body` is read.
pub wrap-unwrap :
    (sqlite : Sqlite) (laws : SqliteLaws sqlite) (db : Database) (salt view : Text)
    (body : ViewBody)
    → validate_declared db salt view ≡ ok (some body)
    → clean body.select ≡ body.select
    → ReadsAll sqlite (wrap_script salt view body)
    → ReadsAll sqlite (unwrap_script salt view body)
    → db.object_sql (codes "index") view ≡ none
    → IsFree db (inner_name salt view)
    → let db' = run_script sqlite db (wrap_script salt view body) in
      let db'' = run_script sqlite db' (unwrap_script salt view body) in
      (wrap salt view body ≡ script_text (wrap_script salt view body))
      × (unwrap salt view body ≡ script_text (unwrap_script salt view body))
      × (validate_declared db' salt view ≡ ok (some body))
      × IsFree db' view
      × IsFree db' (inner_name salt view)
      × (db''.object_sql (codes "view") (inner_name salt view) ≡ none)
      × ((sql : Text) × (db''.object_sql (codes "view") view ≡ some sql)
          × (view_body sql ≡ some body))
wrap-unwrap sqlite laws db salt view body h k reads reads' no_index inner_free =
    let d = declared-IsDeclarable db salt view body h in
    let (sql, p) = declared-view_body db salt view body h in
    let (c, n) = view_body-IsColumns sql body p in
    let differ = inner-ne-view salt view view d.identifier d.not_ts in
    let before : Has db view (inner_name salt view) (db.object_sql (codes "view") view)
        (db.object_sql (codes "view") (inner_name salt view)) =
      record {
        view_free = (d.no_table, no_index);
        inner_free = inner_free;
        view_sql = refl;
        inner_sql = refl;
      } in
    let there = wrapped sqlite laws salt view body differ reads before in
    let back = unwrapped sqlite laws salt view body differ reads' there in
    let d' : IsDeclarable (run_script sqlite db (wrap_script salt view body)) view = record {
      identifier = d.identifier;
      not_ts = d.not_ts;
      no_table = there.view_free.0;
    } in
    (
      wrap-script_text salt view body,
      unwrap-script_text salt view body,
      declared_sql-eq _ salt view d' ∙ wrapped_reads sqlite laws salt view body c n k _ there,
      there.view_free,
      there.inner_free,
      back.inner_sql,
      (
        create_view (codes "CREATE VIEW ") view body.columns body.select,
        back.view_sql,
        view_body-stored view body c n k,
      ),
    )
