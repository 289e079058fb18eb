-- ===== src/Access/Scopes/Strongest.antt =====
-- What `effective_scope` and `app_scope` (src/accounts/users.rs) come to: the strongest of what counts.
use toolsite.Common.{
  ◌≤◌, ◌≡◌, refl, Bool, true, false, not, ◌&&◌, ◌||◌, Option, none, some, List, [], ◌∷◌, arith, leb,
  Text, keep, any, map_option,
}
use toolsite.Access.Paths.{prefix_covers}
use toolsite.Access.Scopes.{
  Scope, viewer, editor, admin, rank, Account, Held, scopes_for, has_grant, lock_over, row_counts,
  best_from, best_of, row_or, app_grant, explain_scope, effective_scope, app_path, app_scope,
  AccessSource,
}
use toolsite.Access.Scopes.Locks.{above_locks, row_counts-eq, lock_over-is_some}

-- Whether a scope is held that allows what `s` allows.
abbrev pub allows : Scope → Option Scope → Bool
allows s none = false
allows s (some held) = leb (rank s) (rank held)

best-allows :
    (s : Scope) (best : Text × Scope) (rows : Held)
    → leb (rank s) (rank (best_from best rows).1)
      ≡ (leb (rank s) (rank best.1) || any (λ held. leb (rank s) (rank held.1)) rows)
best-allows s best [] = ground arith
best-allows s best (held ∷ rows) = ground (arith, best-allows s best rows, best-allows s held rows)

-- Some row at a prefix that covers the path and every locked project over it, with `s` or more.
abbrev pub row_allows : Scope → Held → Text → List Text → Bool
row_allows s rows path locks =
    any
      (λ held.
        (prefix_covers held.0 path && above_locks held.0 path locks) && leb (rank s) (rank held.1))
      rows

any-keep :
    (p q : Text × Scope → Bool) (rows : Held) → any q (keep p rows) ≡ any (λ r. p r && q r) rows
any-keep p q [] = refl
any-keep p q (r ∷ rows) = ground (arith, any-keep p q rows)

rows-allow :
    (s : Scope) (path : Text) (locks : List Text) (rows : Held)
    → any
        (λ held. leb (rank s) (rank held.1))
        (keep (λ held. row_counts held.0 path (lock_over path locks)) rows)
      ≡ row_allows s rows path locks
rows-allow s path locks [] = refl
rows-allow s path locks (held ∷ rows) =
    ground (arith, rows-allow s path locks rows, row_counts-eq held.0 path locks)

rank-pos : (s : Scope) → 1 ≤ rank s
rank-pos viewer = omega arith
rank-pos editor = omega arith
rank-pos admin = omega arith

rank_le_admin : (s : Scope) → leb (rank s) 3 ≡ true
rank_le_admin viewer = refl
rank_le_admin editor = refl
rank_le_admin admin = refl

row_or-allows :
    (s : Scope) (rows : Held) (other : Option (Scope × AccessSource))
    → (leb (rank s) 1 ≡ false → allows s (map_option (λ e. e.0) other) ≡ false)
    → allows s (map_option (λ e. e.0) (row_or (best_of rows) other))
      ≡ (any (λ held. leb (rank s) (rank held.1)) rows || allows s (map_option (λ e. e.0) other))
row_or-allows s [] other h = refl
row_or-allows viewer (held ∷ rows) other h =
    ground (arith, rank-pos (best_from held rows).1, rank-pos held.1)
row_or-allows editor (held ∷ rows) other h = ground (arith, best-allows editor held rows, h refl)
row_or-allows admin (held ∷ rows) other h = ground (arith, best-allows admin held rows, h refl)

app_grant-allows :
    (s : Scope) (user : Account) (app path : Text) (locks : List Text)
    → allows s (map_option (λ e. e.0) (app_grant user (some app) (lock_over path locks))) ≡ (
        leb (rank s) (rank viewer)
        && (not (any (λ lock. prefix_covers lock path) locks) && has_grant user app))
app_grant-allows s user app path locks = ground (arith, lock_over-is_some path locks)

explain-allows :
    (s : Scope) (user : Account) (path : Text) (app : Option Text) (locks : List Text)
    → (leb (rank s) 1 ≡ false
        → allows s (map_option (λ e. e.0) (app_grant user app (lock_over path locks))) ≡ false)
    → allows s (map_option (λ e. e.0) (explain_scope user path app locks)) ≡ (
        user.is_admin
        || row_allows s (scopes_for user) path locks
        || allows s (map_option (λ e. e.0) (app_grant user app (lock_over path locks))))
unfolding explain_scope
explain-allows s user path app locks h =
    let counting = keep (λ held. row_counts held.0 path (lock_over path locks)) (scopes_for user) in
    let rows = row_or-allows s counting (app_grant user app (lock_over path locks)) h in
    let kept =
      any-keep (λ held. row_counts held.0 path (lock_over path locks))
        (λ held. leb (rank s) (rank held.1)) (scopes_for user) in
    ground (arith, rows, kept, rows-allow s path locks (scopes_for user), rank_le_admin s)

-- What an account may do at a path: it may do as much as `s` there exactly if it is a site admin, or
-- holds `s` or a stronger scope at a prefix that covers the path and every locked project over it.
-- So a scope only adds, and a row inside a locked project is as good as none.
pub effective_scope-allows :
    (s : Scope) (user : Account) (path : Text) (locks : List Text)
    → allows s (effective_scope user path locks)
      ≡ (user.is_admin || row_allows s (scopes_for user) path locks)
unfolding effective_scope
effective_scope-allows s user path locks =
    ground (arith, explain-allows s user path none locks (λ h. refl))

-- What an account may do to an app: the same of the app's path, or as much as a viewer, if it holds
-- access that was given on the app itself and no locked project is over the app.
pub app_scope-allows :
    (s : Scope) (user : Account) (folder app : Text) (locks : List Text)
    → let path = app_path folder app in
      allows s (app_scope user folder app locks) ≡ (
        user.is_admin
        || row_allows s (scopes_for user) path locks
        || (leb (rank s) (rank viewer)
            && (not (any (λ lock. prefix_covers lock path) locks) && has_grant user app)))
unfolding app_scope
app_scope-allows s user folder app locks =
    let path = app_path folder app in
    let grant = app_grant-allows s user app path locks in
    ground (arith, explain-allows s user path (some app) locks (λ h. ground (arith, grant)), grant)
