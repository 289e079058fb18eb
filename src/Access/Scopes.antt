-- ===== src/Access/Scopes.antt =====
-- src/accounts/users.rs, "platform scopes": what an account may do at a path. An account is what the
-- accounts store answers about it: its scope rows and its grants, `none` where the store fails.
pub mod Locks
pub mod Strongest
use toolsite.Common.{
  ℕ, Bool, true, false, not, ◌&&◌, ◌||◌, Option, none, some, List, [], ◌∷◌, map, ltb, leb, ◌==◌,
  if◌then◌else◌, Text, codes, same, length, keep, any, is_some, map_option, sort_by, text_le,
}
use toolsite.Access.Paths.{is_empty, prefix_covers, joined}

pub data Scope : Type 0 where
  viewer editor admin : Scope

-- The derived order.
abbrev pub rank : Scope → ℕ
rank viewer = 1
rank editor = 2
rank admin = 3

abbrev pub parse : Text → Option Scope
parse word =
    if same word (codes "viewer")
    then some viewer
    else (if same word (codes "editor")
        then some editor
        else (if same word (codes "admin") then some admin else none))

abbrev pub as_str : Scope → Text
as_str viewer = codes "viewer"
as_str editor = codes "editor"
as_str admin = codes "admin"

pub record Account : Type 0 where
  pub is_admin : Bool
  pub stored_scopes : Option (List (Text × Text))
  pub grant_of : Text → Option (Option Text)

abbrev pub Held : Type 0
Held = List (Text × Scope)

-- `filter_map`, of the rows whose scope is a word that is known.
abbrev pub parsed : List (Text × Text) → Held
parsed [] = []
parsed ((prefix, word) ∷ rows) = elim (parse word) [
  | none ↦ parsed rows
  | some scope ↦ (prefix, scope) ∷ parsed rows
]

unfoldable pub scopes_for : Account → Held
scopes_for user = elim user.stored_scopes [ none ↦ [] | some rows ↦ parsed rows ]

unfoldable pub has_grant : Account → Text → Bool
has_grant user app = elim (user.grant_of app) [ none ↦ false | some role ↦ is_some role ]

-- `min_by_key(|lock| lock.len())`: the first of the shortest.
abbrev pub shortest_from : Text → List Text → Text
shortest_from best [] = best
shortest_from best (lock ∷ locks) =
    if ltb (length lock) (length best) then shortest_from lock locks else shortest_from best locks

abbrev pub shortest : List Text → Option Text
shortest [] = none
shortest (lock ∷ locks) = some (shortest_from lock locks)

unfoldable pub lock_over : Text → List Text → Option Text
lock_over path locks = shortest (keep (λ lock. prefix_covers lock path) locks)

abbrev pub covers_lock : Text → Option Text → Bool
covers_lock prefix none = true
covers_lock prefix (some lock) = prefix_covers prefix lock

unfoldable pub row_counts : Text → Text → Option Text → Bool
row_counts prefix path lock = prefix_covers prefix path && covers_lock prefix lock

pub data AccessSource : Type 0 where
  site_admin app_access : AccessSource
  row : Text → AccessSource

-- `a.cmp(b).then(pa.len().cmp(&pb.len()))`, as at most.
abbrev pub at_most : Text × Scope → Text × Scope → Bool
at_most (pa, a) (pb, b) = ltb (rank a) (rank b) || (rank a == rank b && leb (length pa) (length pb))

-- `max_by`: the last of the greatest.
abbrev pub best_from : Text × Scope → Held → Text × Scope
best_from best [] = best
best_from best (held ∷ rows) =
    if at_most best held then best_from held rows else best_from best rows

abbrev pub best_of : Held → Option (Text × Scope)
best_of [] = none
best_of (held ∷ rows) = some (best_from held rows)

abbrev pub app_grant : Account → Option Text → Option Text → Option (Scope × AccessSource)
app_grant user none lock = none
app_grant user (some app) (some lock) = none
app_grant user (some app) none = if has_grant user app then some (viewer, app_access) else none

abbrev pub row_or :
    Option (Text × Scope) → Option (Scope × AccessSource) → Option (Scope × AccessSource)
row_or (some (prefix, scope)) other = some (scope, row prefix)
row_or none other = other

unfoldable pub explain_scope :
    Account → Text → Option Text → List Text → Option (Scope × AccessSource)
unfolding scopes_for has_grant lock_over row_counts
explain_scope user path app locks =
    let lock = lock_over path locks in
    let best = best_of (keep (λ held. row_counts held.0 path lock) (scopes_for user)) in
    if user.is_admin then some (admin, site_admin) else row_or best (app_grant user app lock)

unfoldable pub effective_scope : Account → Text → List Text → Option Scope
unfolding explain_scope
effective_scope user path locks = map_option (λ e. e.0) (explain_scope user path none locks)

abbrev pub app_path : Text → Text → Text
app_path folder app = if is_empty folder then app else joined folder app

unfoldable pub app_scope : Account → Text → Text → List Text → Option Scope
unfolding explain_scope
app_scope user folder app locks =
    map_option (λ e. e.0) (explain_scope user (app_path folder app) (some app) locks)

-- `dedup`, of what was sorted.
abbrev pub dedup_from : Text → List Text → List Text
dedup_from x [] = x ∷ []
dedup_from x (y ∷ ys) = if same x y then dedup_from x ys else x ∷ dedup_from y ys

abbrev pub dedup : List Text → List Text
dedup [] = []
dedup (x ∷ xs) = dedup_from x xs

abbrev pub outermost : List Text → List Text
outermost folders =
    keep (λ f. not (any (λ other. not (same other f) && prefix_covers other f) folders)) folders

abbrev pub only : List Text → Option Text
only (one ∷ []) = some one
only folders = none

unfoldable pub default_folder_for : Account → Option Text
unfolding scopes_for
default_folder_for user =
    let editable = keep (λ held. leb (rank editor) (rank held.1)) (scopes_for user) in
    let folders = map (λ held. held.0) editable in
    if user.is_admin || any is_empty folders
    then some []
    else only (outermost (dedup (sort_by text_le folders)))

unfoldable pub holds_anywhere : Account → Scope → Bool
unfolding scopes_for
holds_anywhere user at_least =
    user.is_admin || any (λ held. leb (rank at_least) (rank held.1)) (scopes_for user)

unfoldable pub holds_below : Account → Text → Bool
unfolding scopes_for
holds_below user prefix =
    any (λ held. not (same held.0 prefix) && prefix_covers prefix held.0) (scopes_for user)
