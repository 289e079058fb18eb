-- ===== src/Access/Gates/Admitted.antt =====
-- Whom a gate lets in (`admits`, `may_open` and `gate_check` of src/content/serve.rs).
use toolsite.Common.{
  ◌≡◌, refl, Bool, true, false, not, ◌&&◌, ◌||◌, Option, none, some, List, [], ◌++◌, arith, Text,
  codes, if◌then◌else◌, is_some, any, text_discrete, strip_prefix,
}
use toolsite.Access.Paths.{prefix_covers}
use toolsite.Access.Scopes.{Scope, viewer, Account, app_scope, scopes_for, has_grant, app_path}
use toolsite.Access.Scopes.Strongest.{allows, row_allows, app_scope-allows}
use toolsite.Access.Gates.{
  Folder, PageMeta, or_else, admits, resolve_gate, gate_check, gate_answer, Refusal,
  app_scoped_next,
}

allows-viewer : (o : Option Scope) → is_some o ≡ allows viewer o
allows-viewer none = refl
allows-viewer (some Scope.viewer) = refl
allows-viewer (some Scope.editor) = refl
allows-viewer (some Scope.admin) = refl

-- Who passes a restricted gate: exactly a site admin, the holder of any scope that covers the app
-- and every locked project over it, and, where no locked project is over it, the holder of access
-- given on the app. Nobody passes without an account.
pub restricted-admits :
    (app folder : Text) (locks : List Text) (user : Account)
    → let path = app_path folder app in
      (admits (codes "restricted") app folder locks none ≡ false)
      × (admits (codes "restricted") app folder locks (some user) ≡ (
          user.is_admin
          || row_allows viewer (scopes_for user) path locks
          || (not (any (λ lock. prefix_covers lock path) locks) && has_grant user app)))
unfolding admits text_discrete
restricted-admits app folder locks user = (
  refl,
  ground (
    arith,
    allows-viewer (app_scope user folder app locks),
    app_scope-allows viewer user folder app locks,
  ),
)

-- Whoever a gate lets in without an account, it lets in with any: an account never loses by being
-- signed in.
pub admits-signed_in :
    (gate app folder : Text) (locks : List Text) (user : Account)
    → admits gate app folder locks none ≡ true
    → admits gate app folder locks (some user) ≡ true
unfolding admits
admits-signed_in gate app folder locks user h = ground arith

-- The gate of a request, by its path within the app.
abbrev pub gate_at : PageMeta → List Folder → Text → Text → Text → Text
gate_at meta folders default app path =
    (resolve_gate meta folders default (or_else (strip_prefix path (codes "/p/" ++ app)) path)).gate

abbrev pub opens_at :
    PageMeta → List Folder → Text → List Text → Text → Text → Option Account → Bool
opens_at meta folders default locks app path =
    admits (gate_at meta folders default app path) app (or_else meta.project []) locks

-- A status, and not a place to go to.
abbrev pub is_status : Option Refusal → Bool
is_status (some Refusal.unauthorized) = true
is_status (some Refusal.forbidden) = true
is_status o = false

-- Sent off to earn a session for the app, from this host or by way of the main one.
abbrev pub is_handoff : Option Refusal → Bool
is_handoff (some (Refusal.handoff next)) = true
is_handoff (some (Refusal.begin_handoff next)) = true
is_handoff o = false

gate_answer-IsRight :
    (apps opens_visitor opens_site visitor site_user is_api may_hand_off : Bool) (next : Text)
    → let check =
        gate_answer apps opens_visitor opens_site visitor site_user is_api may_hand_off next in
      (not (is_some check) ≡ opens_visitor)
      × ((is_api && not opens_visitor) ≡ true → is_status check ≡ true)
      × (is_handoff check ≡ (
          not is_api
          && may_hand_off
          && not opens_visitor
          && (if apps then not visitor else opens_site)))
gate_answer-IsRight apps opens_visitor opens_site visitor site_user is_api may_hand_off next =
    (ground arith, ground arith, ground arith)

-- What the gate answers to a request: it lets it pass exactly if the gate of its path admits the app
-- session's visitor; it refuses an API call by a status alone, whatever sessions it carries; and it
-- sends a visitor off to earn a session for the app exactly where the request is a person's navigation
-- and no API call, the app session does not open the gate, and, where apps share the host, the site
-- session would, or, where they have hosts of their own, nobody has an app session yet.
pub gate_check-answers :
    (apps : Bool) (meta : PageMeta) (folders : List Folder) (default : Text) (locks : List Text)
    (app : Text) (visitor : Option Account) (path : Text) (is_api may_hand_off : Bool)
    (site_user : Option Account)
    → let check =
        gate_check apps meta folders default locks app visitor path is_api may_hand_off site_user in
      let opens = opens_at meta folders default locks app path in
      (not (is_some check) ≡ opens visitor)
      × ((is_api && not (opens visitor)) ≡ true → is_status check ≡ true)
      × (is_handoff check ≡ (
          not is_api
          && may_hand_off
          && not (opens visitor)
          && (if apps then not (is_some visitor) else opens site_user)))
unfolding gate_check
gate_check-answers apps meta folders default locks app visitor path is_api may_hand_off site_user =
    gate_answer-IsRight apps (opens_at meta folders default locks app path visitor)
      (opens_at meta folders default locks app path site_user) (is_some visitor) (is_some site_user)
      is_api may_hand_off (app_scoped_next app path)
