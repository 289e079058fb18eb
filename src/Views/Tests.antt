-- ===== src/Views/Tests.antt =====
-- An app's declared view and a policy (src/runtime/access.rs), and the theorems applied to them.
use toolsite.Common.{
  Bool, ◌≡◌, refl, inl, ◌≢◌, arith, true, false, ◌&&◌, none, some, [], ◌∷◌, ◌++◌, if◌then◌else◌,
  Text, codes, All, any, map, same, text_discrete, trim, ◌==◌,
}
use native.Mathlib.Decide.{ℕ_discrete}
use toolsite.Views.{
  Database, Policy, ok, quote, inner_name, trigger_names, wrapper_select, create_view, validate,
  validate_declared, valid_identifier, to_lowercase, double_quotes, is_wrapper_for,
}
use toolsite.Views.Scanner.{
  ViewBody, view_body, clean, blank_at, skip, skip_space_and_comments, name, name_at, up_to, word,
  span_word, expect_word, past_temp, past_if, past_schema, columns_here, column_list, peek_char,
  parenthesised, balanced, depth_after, view_head, lower,
}
use toolsite.Views.Scripts.{
  Statement, drop_view, new_view, wrap_script, unwrap_script, wrap, unwrap, script_text, Sqlite,
  SqliteLaws, run_script, is_view, IsFree, ReadsAll,
}
use toolsite.Views.Skipping.{Skips, IsBare, skip_space_and_comments-Skips}
use toolsite.Views.Names.{name-quote}
use toolsite.Views.Regenerated.{wrap-unwrap}
use toolsite.Views.Apart.{Differ, accepted_names_apart}

abbrev orders : Text
orders = codes "CREATE VIEW my_orders (id, total) as select id, sum(n) from orders group by id"

abbrev orders_body : ViewBody
orders_body = record {
  columns = some (codes "(id, total)");
  select = codes "select id, sum(n) from orders group by id";
}

-- An app with one table and one view over it.
abbrev shop : Database
shop = record {
  columns = λ _. codes "id" ∷ codes "n" ∷ [];
  object_sql = λ kind name.
      if same kind (codes "table") && same (map lower name) (codes "orders")
      then some (codes "CREATE TABLE orders (id, n)")
      else if is_view (codes "my_orders") kind name
      then some orders
      else none;
  prepare = λ _. inl 0;
}

abbrev exec : Database → Statement → Database
exec db (drop_view view) = record db {
  object_sql = λ kind name. if is_view view kind name then none else db.object_sql kind name;
}
exec db (new_view view columns select) = record db {
  object_sql = λ kind name.
      if is_view view kind name
      then some (create_view (codes "CREATE VIEW ") view columns select)
      else db.object_sql kind name;
}

-- Views of this app, with plain lists of columns.
abbrev reads : Statement → Bool
reads (drop_view view) = true
reads (new_view view none select) = true
reads (new_view view (some columns) select) = same columns (codes "(id, total)")

abbrev sqlite : Sqlite
sqlite = record { exec = exec; reads = reads }

sqlite_laws : SqliteLaws sqlite
sqlite_laws = record {
  drops = λ db view kind name r t k. refl;
  creates = λ db view columns select kind name r t v. refl;
}

read_orders : view_body orders ≡ some orders_body
unfolding view_body view_head expect_word word span_word skip_space_and_comments skip blank_at
    past_temp past_if name name_at up_to peek_char past_schema columns_here column_list
    parenthesised balanced depth_after trim text_discrete ℕ_discrete
read_orders = refl

-- To SQLite this is a view of `select 1`: its comment that begins `/*/` ends behind the dashes.
slash_comment :
    view_body (codes "CREATE VIEW v /*/ as select 2 -- */ as select 1")
    ≡ some (record { columns = none; select = codes "select 2 -- */ as select 1" })
unfolding view_body view_head expect_word word span_word skip_space_and_comments skip blank_at
    past_temp past_if name name_at up_to peek_char past_schema columns_here column_list trim
    text_discrete ℕ_discrete
slash_comment = refl

declared_orders : validate_declared shop (codes "k3") (codes "my_orders") ≡ ok (some orders_body)
unfolding validate_declared valid_identifier to_lowercase is_wrapper_for wrapper_select quote
    double_quotes inner_name view_body view_head expect_word word span_word skip_space_and_comments
    skip blank_at past_temp past_if name name_at up_to peek_char past_schema columns_here
    column_list parenthesised balanced depth_after trim text_discrete ℕ_discrete
declared_orders = refl

abbrev regenerated : Database
regenerated = run_script sqlite shop (wrap_script (codes "k3") (codes "my_orders") orders_body)

orders_clean : clean orders_body.select ≡ orders_body.select
unfolding trim
orders_clean = refl

no_inner_table : IsFree shop (inner_name (codes "k3") (codes "my_orders"))
unfolding inner_name text_discrete ℕ_discrete
no_inner_table = (refl, refl)

reads_wrap : ReadsAll sqlite (wrap_script (codes "k3") (codes "my_orders") orders_body)
unfolding wrap_script text_discrete ℕ_discrete
reads_wrap = (refl, (refl, (refl, (refl, tt))))

reads_unwrap : ReadsAll sqlite (unwrap_script (codes "k3") (codes "my_orders") orders_body)
unfolding unwrap_script text_discrete ℕ_discrete
reads_unwrap = (refl, (refl, (refl, tt)))

no_index : shop.object_sql (codes "index") (codes "my_orders") ≡ none
unfolding text_discrete ℕ_discrete
no_index = refl

wrap-unwrap_example :
    (wrap (codes "k3") (codes "my_orders") orders_body
      ≡ script_text (wrap_script (codes "k3") (codes "my_orders") orders_body))
    × (unwrap (codes "k3") (codes "my_orders") orders_body
        ≡ script_text (unwrap_script (codes "k3") (codes "my_orders") orders_body))
    × (validate_declared regenerated (codes "k3") (codes "my_orders") ≡ ok (some orders_body))
    × IsFree regenerated (codes "my_orders")
    × IsFree regenerated (inner_name (codes "k3") (codes "my_orders"))
    × ((run_script sqlite regenerated
            (unwrap_script (codes "k3") (codes "my_orders") orders_body)).object_sql
          (codes "view")
          (inner_name (codes "k3") (codes "my_orders"))
        ≡ none)
    × ((sql : Text) × ((run_script sqlite regenerated
              (unwrap_script (codes "k3") (codes "my_orders") orders_body)).object_sql
            (codes "view")
            (codes "my_orders")
          ≡ some sql)
        × (view_body sql ≡ some orders_body))
wrap-unwrap_example =
    wrap-unwrap sqlite sqlite_laws shop (codes "k3") (codes "my_orders") orders_body declared_orders
      orders_clean reads_wrap reads_unwrap no_index no_inner_table

-- A table whose name is a quotation mark and a statement.
name-quote_example :
    name (quote (codes "t\"; drop table users; --") ++ codes " where 1")
    ≡ some (quote (codes "t\"; drop table users; --"), codes " where 1")
name-quote_example =
    name-quote (codes "t\"; drop table users; --") (codes " where 1") (ground arith)

skip_space_and_comments-Skips_example :
    Skips (codes "-- a view\n  as") (skip_space_and_comments (codes "-- a view\n  as"))
    × IsBare (skip_space_and_comments (codes "-- a view\n  as"))
skip_space_and_comments-Skips_example = skip_space_and_comments-Skips (codes "-- a view\n  as")

abbrev mine : Policy
mine = record {
  table = codes "orders";
  view = codes "mine";
  where_ = codes "owner = current_user()";
  owner = none;
  write = true;
}

mine_accepted : validate shop mine ≡ ok tt
unfolding validate valid_identifier to_lowercase quote double_quotes trim text_discrete ℕ_discrete
mine_accepted = refl

accepted_names_apart_example :
    Differ mine.view (inner_name (codes "k3") (codes "mine"))
    × All (Differ mine.view) (trigger_names (codes "k3") (codes "mine"))
    × (map lower mine.table ≢ map lower mine.view)
    × (any (λ c. c == 59) mine.where_ ≡ false)
accepted_names_apart_example =
    accepted_names_apart shop mine (codes "k3") (codes "mine") mine_accepted
