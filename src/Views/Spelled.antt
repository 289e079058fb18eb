-- ===== src/Views/Spelled.antt =====
-- The texts of `wrap` and `unwrap` of src/runtime/access.rs, statement by statement.
use mathlib.Core.List.{append_assoc}
use toolsite.Common.{◌≡◌, sym, ◌∙◌, ap, Option, none, [], ◌∷◌, ◌++◌, Text, codes}
use toolsite.Views.{quote, inner_name, create_view, wrapper_select, or_empty}
use toolsite.Views.Scanner.{ViewBody}
use toolsite.Views.Scripts.{
  drop_view, new_view, statement_text, script_text, wrap, unwrap, wrap_script, unwrap_script,
}

drop_then :
    (view rest : Text)
    → statement_text (drop_view view) ++ rest
      ≡ codes "drop view if exists " ++ (quote view ++ (codes ";\n" ++ rest))
drop_then view rest =
    ap (λ x. codes "drop view if exists " ++ x) (append_assoc (quote view) (codes ";\n") rest)

new_then :
    (view : Text) (columns : Option Text) (select rest : Text)
    → statement_text (new_view view columns select) ++ rest
      ≡ codes "create view "
        ++ (quote view ++ (or_empty columns ++ (codes " as " ++ (select ++ (codes ";\n" ++ rest)))))
unfolding create_view
new_then view columns select rest =
    let body = codes " as " ++ select in
    let all = quote view ++ (or_empty columns ++ body) in
    ap (λ x. codes "create view " ++ x)
      (append_assoc all (codes ";\n") rest
        ∙ append_assoc (quote view) (or_empty columns ++ body) (codes ";\n" ++ rest)
        ∙ ap (λ x. quote view ++ x)
            (append_assoc (or_empty columns) body (codes ";\n" ++ rest)
              ∙ ap (λ x. or_empty columns ++ x)
                  (append_assoc (codes " as ") select (codes ";\n" ++ rest))))

pub wrap-script_text :
    (salt view : Text) (body : ViewBody)
    → wrap salt view body ≡ script_text (wrap_script salt view body)
unfolding wrap wrap_script wrapper_select
wrap-script_text salt view body =
    let inner = inner_name salt view in
    let last = new_view view none (wrapper_select inner) ∷ [] in
    let third = new_view inner body.columns body.select ∷ last in
    let end = new_then view none (wrapper_select inner) [] in
    sym (
      drop_then view (script_text (drop_view inner ∷ third))
      ∙ ap (λ x. codes "drop view if exists " ++ (quote view ++ (codes ";\n" ++ x)))
          (drop_then inner (script_text third)
            ∙ ap (λ x. codes "drop view if exists " ++ (quote inner ++ (codes ";\n" ++ x)))
                (new_then inner body.columns body.select (script_text last)
                  ∙ ap
                      (λ x.
                        codes "create view "
                        ++ (quote inner
                            ++ (or_empty body.columns
                                ++ (codes " as " ++ (body.select ++ (codes ";\n" ++ x))))))
                      end)))

pub unwrap-script_text :
    (salt view : Text) (body : ViewBody)
    → unwrap salt view body ≡ script_text (unwrap_script salt view body)
unfolding unwrap unwrap_script
unwrap-script_text salt view body =
    let inner = inner_name salt view in
    let last = drop_view inner ∷ [] in
    sym (
      drop_then view (script_text (new_view view body.columns body.select ∷ last))
      ∙ ap (λ x. codes "drop view if exists " ++ (quote view ++ (codes ";\n" ++ x)))
          (new_then view body.columns body.select (script_text last)
            ∙ ap
                (λ x.
                  codes "create view "
                  ++ (quote view
                      ++ (or_empty body.columns
                          ++ (codes " as " ++ (body.select ++ (codes ";\n" ++ x))))))
                (drop_then inner [])))
