-- ===== src/Access/Gates/Resolved.antt =====
-- What `resolve_gate` (src/content/store.rs) promises about locked and unknown projects, and
-- `project_gate` against it.
use toolsite.Common.{
  subst, ◌≡◌, refl, true, false, ◌||◌, Option, none, some, List, [], arith, Text, codes, is_some,
}
use toolsite.Access.Paths.{is_empty}
use toolsite.Access.Gates.{
  Folder, PageMeta, EffectiveGate, GateSource, project, site, or_else, node, is_locked, find,
  nearest, project_chain, resolve_gate, project_gate, rule_for, gate_in, site_word,
}

-- The app's project, and the outermost locked project on the way down to it.
abbrev pub home : PageMeta → Text
home meta = or_else meta.project []

abbrev pub lock_of : PageMeta → List Folder → Option Text
lock_of meta folders = find (is_locked folders) (project_chain (home meta))

abbrev pub shown : EffectiveGate → Text × GateSource
shown g = (g.gate, g.source)

gate_in_lost :
    (meta : PageMeta) (folders : List Folder) (default within at : Text) (chain : List Text)
    (o : Option Text)
    → is_empty at ≡ false
    → node at folders ≡ none
    → (gate_in meta folders default within at chain o).gate ≡ codes "restricted"
gate_in_lost meta folders default within at chain o e n = ground arith

gate_in_unset :
    (meta : PageMeta) (folders : List Folder) (default within at : Text) (chain : List Text)
    → (is_empty at || is_some (node at folders)) ≡ true
    → rule_for within meta.rules ≡ none
    → meta.gate ≡ none
    → shown (gate_in meta folders default within at chain none) ≡ elim (nearest folders chain) [
      | some (gate, at) ↦ (gate, project at)
      | none ↦ (site_word default, site)
    ]
gate_in_unset meta folders default within at chain k r g = ground arith

-- Under a locked project the app's own setting and its route rules count for nothing: two apps of one
-- project get the same gate on all their paths, whatever the apps say.
pub locked_gate_ignores_app :
    (meta meta' : PageMeta) (folders : List Folder) (default within within' lock : Text)
    → meta.project ≡ meta'.project
    → lock_of meta folders ≡ some lock
    → resolve_gate meta folders default within ≡ resolve_gate meta' folders default within'
unfolding resolve_gate
locked_gate_ignores_app meta meta' folders default within within' lock p l =
    let l' : lock_of meta' folders ≡ some lock =
      subst (λ q. find (is_locked folders) (project_chain (or_else q [])) ≡ some lock) p l in
    rw (p, resolve_gate) (rw (l', resolve_gate) refl)

-- An app that names a project the tree does not hold is closed on every path, whatever the app, the
-- projects above and the site say; and so it is to everyone but those with a scope over it.
pub lost_project_is_restricted :
    (meta : PageMeta) (folders : List Folder) (default within : Text)
    → is_empty (home meta) ≡ false
    → node (home meta) folders ≡ none
    → (resolve_gate meta folders default within).gate ≡ codes "restricted"
unfolding resolve_gate
lost_project_is_restricted meta folders default within e n =
    gate_in_lost meta folders default within (home meta) (project_chain (home meta))
      (lock_of meta folders) e n

-- What a project is shown to give to its apps is what an app in it gets that says nothing itself,
-- where no locked project is over it.
pub project_gate_is_inherited :
    (meta : PageMeta) (folders : List Folder) (default within : Text)
    → (is_empty (home meta) || is_some (node (home meta) folders)) ≡ true
    → lock_of meta folders ≡ none
    → rule_for within meta.rules ≡ none
    → meta.gate ≡ none
    → shown (resolve_gate meta folders default within) ≡ project_gate folders default (home meta)
unfolding resolve_gate project_gate
project_gate_is_inherited meta folders default within k l r g =
    let chain = project_chain (home meta) in
    rw (l, resolve_gate) (gate_in_unset meta folders default within (home meta) chain k r g)
