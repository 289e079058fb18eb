-- ===== src/Access/Tests.antt =====
-- Access to projects and apps on small inputs (src/accounts/users.rs, src/content/store.rs,
-- src/content/serve.rs), and the theorems applied there.
use toolsite.Common.{
  trim, ◌+◌, ◌≡◌, refl, Bool, true, false, not, ◌&&◌, ◌||◌, Option, none, some, [], ◌∷◌, Text,
  codes, text_discrete, any, count, same, is_some, leb, if◌then◌else◌, sort_by, text_le,
}
use toolsite.Access.Paths.{is_empty, prefix_covers, folder_chain, valid_slug}
use toolsite.Access.Scopes.{
  viewer, editor, admin, rank, Account, row_counts, lock_over, effective_scope, app_scope, app_path,
  scopes_for, has_grant, explain_scope,
}
use toolsite.Access.Scopes.Locks.{above_locks, row_counts-eq}
use toolsite.Access.Scopes.Strongest.{allows, row_allows, effective_scope-allows, app_scope-allows}
use toolsite.Access.Gates.{Folder, PageMeta, admits, resolve_gate, gate_check, normalise_gate}
use toolsite.Access.Gates.Resolved.{locked_gate_ignores_app}
use toolsite.Access.Gates.Admitted.{
  restricted-admits, gate_check-answers, opens_at, is_status, is_handoff,
}
use toolsite.Access.Folders.{
  Tree, at_path, path_in, create_folder, relocate_folder, renamed_path, new_folder,
}
use toolsite.Access.Folders.Paths.{create_folder-adds, has_alias}
use toolsite.Access.Folders.Moved.{moved_link_arrives}

abbrev ops : Text
ops = codes "ops"

abbrev yard : Text
yard = codes "ops/yard"

-- An editor of all of `ops`, and an admin of what is inside the locked `ops/yard`.
abbrev ann : Account
ann = record {
  is_admin = false;
  stored_scopes = some (
      (ops, codes "editor")
      ∷ (codes "ops/yard/shed", codes "admin")
      ∷ (codes "x", codes "king")
      ∷ []);
  grant_of = λ app. some none;
}

abbrev shed : Text
shed = codes "ops/yard/shed/tool"

inside_the_lock : effective_scope ann shed (yard ∷ []) ≡ some editor
unfolding effective_scope explain_scope scopes_for lock_over row_counts prefix_covers text_discrete
inside_the_lock = refl

without_the_lock : effective_scope ann shed [] ≡ some admin
unfolding effective_scope explain_scope scopes_for lock_over row_counts prefix_covers text_discrete
without_the_lock = refl

chain_of_yard : folder_chain (codes "ops/yard/x") ≡ ops ∷ yard ∷ []
unfolding folder_chain
chain_of_yard = refl

trimmed : normalise_gate (codes " Signed-In ") ≡ some (codes "authenticated")
unfolding normalise_gate trim text_discrete
trimmed = refl

row_counts-eq_example :
    row_counts ops shed (lock_over shed (yard ∷ []))
    ≡ (prefix_covers ops shed && above_locks ops shed (yard ∷ []))
row_counts-eq_example = row_counts-eq ops shed (yard ∷ [])

effective_scope-allows_example :
    allows admin (effective_scope ann shed (yard ∷ []))
    ≡ (ann.is_admin || row_allows admin (scopes_for ann) shed (yard ∷ []))
effective_scope-allows_example = effective_scope-allows admin ann shed (yard ∷ [])

app_scope-allows_example :
    let path = app_path yard (codes "tool") in
    allows viewer (app_scope ann yard (codes "tool") (yard ∷ [])) ≡ (
      ann.is_admin
      || row_allows viewer (scopes_for ann) path (yard ∷ [])
      || (leb (rank viewer) (rank viewer)
          && (not (any (λ lock. prefix_covers lock path) (yard ∷ []))
              && has_grant ann (codes "tool"))))
app_scope-allows_example = app_scope-allows viewer ann yard (codes "tool") (yard ∷ [])

restricted-admits_example :
    let path = app_path yard (codes "tool") in
    (admits (codes "restricted") (codes "tool") yard (yard ∷ []) none ≡ false)
    × (admits (codes "restricted") (codes "tool") yard (yard ∷ []) (some ann) ≡ (
        ann.is_admin
        || row_allows viewer (scopes_for ann) path (yard ∷ [])
        || (not (any (λ lock. prefix_covers lock path) (yard ∷ []))
            && has_grant ann (codes "tool"))))
restricted-admits_example = restricted-admits (codes "tool") yard (yard ∷ []) ann

abbrev folder : Text → Text → Bool → Option Text → Folder
folder path name locked gate = record {
  path = path;
  name = name;
  created_at = 1;
  locked = locked;
  renamed_from = [];
  gate = gate;
}

abbrev tree : Bool → Tree
tree locked =
    folder ops ops locked (some (codes "authenticated"))
    ∷ folder yard (codes "yard") false none
    ∷ []

abbrev meta : Text → Option Text → PageMeta
meta at gate = record {
  project = some at;
  gate = gate;
  rules = record { prefix = codes "/open"; gate = codes "public" } ∷ [];
  hidden = false;
}

locked_gate_ignores_app_example :
    resolve_gate (meta yard (some (codes "public"))) (tree true) (codes "public") (codes "/open")
    ≡ resolve_gate (meta yard none) (tree true) (codes "public") (codes "/")
unfolding text_discrete folder_chain
locked_gate_ignores_app_example =
    locked_gate_ignores_app (meta yard (some (codes "public"))) (meta yard none) (tree true)
      (codes "public") (codes "/open") (codes "/") ops refl refl

abbrev request : Text
request = codes "/p/tool/"

gate_check-answers_example :
    let check =
      gate_check false
        (meta yard none)
        (tree false)
        (codes "public")
        []
        (codes "tool")
        none
        request
        false
        true
        (some ann) in
    let opens = opens_at (meta yard none) (tree false) (codes "public") [] (codes "tool") request in
    (not (is_some check) ≡ opens none)
    × ((false && not (opens none)) ≡ true → is_status check ≡ true)
    × (is_handoff check ≡ (
        not false && true && not (opens none) && (if false then not false else opens (some ann))))
gate_check-answers_example =
    gate_check-answers false (meta yard none) (tree false) (codes "public") [] (codes "tool") none
      request false true (some ann)

abbrev with_shed : Tree
with_shed =
    folder ops ops false (some (codes "authenticated"))
    ∷ folder yard (codes "yard") false none
    ∷ new_folder (codes "ops/yard/shed") (codes "shed") 7
    ∷ []

shed_created : create_folder (tree false) false yard (codes "shed") 7 ≡ some with_shed
unfolding create_folder sort_by text_le valid_slug text_discrete
shed_created = refl

create_folder-adds_example :
    let path = path_in yard (codes "shed") in
    ((is_empty yard || any (at_path yard) (tree false)) ≡ true)
    × (false ≡ false)
    × (count (at_path path) (tree false) ≡ 0)
    × ((at : Text)
        → count (at_path at) with_shed
          ≡ count (at_path at) (tree false) + (if same path at then 1 else 0))
    × (any (has_alias path) with_shed ≡ false)
create_folder-adds_example =
    create_folder-adds (tree false) with_shed false yard (codes "shed") 7 shed_created

abbrev moved_yard : Folder
moved_yard = record {
  path = codes "site/yard";
  name = codes "yard";
  created_at = 1;
  locked = false;
  renamed_from = [];
  gate = none;
}

abbrev moved_ops : Folder
moved_ops = record {
  path = codes "site";
  name = codes "site";
  created_at = 1;
  locked = false;
  renamed_from = ops ∷ [];
  gate = some (codes "authenticated");
}

ops_moved : relocate_folder (tree false) ops (codes "site") ≡ some (moved_ops ∷ moved_yard ∷ [])
unfolding relocate_folder sort_by text_le text_discrete
ops_moved = refl

moved_link_arrives_example :
    renamed_path (moved_ops ∷ moved_yard ∷ []) (codes "ops/yard") ≡ some (codes "site/yard")
unfolding text_discrete
moved_link_arrives_example =
    moved_link_arrives (codes "ops/yard") ops (codes "site") (codes "site/yard") (tree false)
      (moved_ops ∷ moved_yard ∷ []) ops_moved refl refl refl
