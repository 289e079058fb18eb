-- ===== src/Access/Folders/Moved.antt =====
-- A link to a project's old path still arrives after a move (`relocate_folder` and `renamed_path` of
-- src/content/store.rs).
use toolsite.Common.{
  ℕ, zero, suc, ◌-◌, ◌≤◌, ◌≡◌, refl, Bool, true, false, not, ◌&&◌, Option, none, some, List, [],
  ◌∷◌, ◌++◌, map, arith, Text, same, length, length-append, keep, any, drop, strip_prefix, sort_by,
  any-sort_by, is_some, Bool-cases, inl, inr, same_refl,
}
use toolsite.Access.Paths.{slash}
use toolsite.Access.Gates.{Folder}
use toolsite.Access.Folders.{
  Tree, by_path, at_path, moved, renamed_to, rest_or, newest, max_aliases, without_alias, drop_new,
  under, relocate_folder, by_alias, by_aliases, first_renamed, renamed_path,
}

-- Whether an old name is a path, or one above it.
abbrev pub covers_path : Text → Text → Bool
covers_path path old = is_some (by_alias path [] old)

-- Whether some project answers to a path by an old name.
abbrev pub is_claimed : Text → Folder → Bool
is_claimed path f = any (covers_path path) f.renamed_from

by_aliases-none :
    (path at : Text) (olds : List Text)
    → any (covers_path path) olds ≡ false
    → by_aliases path at olds ≡ none
by_aliases-none path at [] h = refl
by_aliases-none path at (old ∷ olds) h = ground (arith, by_aliases-none path at olds)

by_aliases_last :
    (path at last found : Text) (olds : List Text)
    → by_alias path at last ≡ some found
    → by_aliases path at (olds ++ last ∷ []) ≡ some found
by_aliases_last path at last found [] e = e
by_aliases_last path at last found (old ∷ olds) e =
    ground (arith, by_aliases_last path at last found olds e)

by_aliases-drop :
    (path at last found : Text) (k : ℕ) (olds : List Text)
    → k ≤ length olds
    → by_alias path at last ≡ some found
    → by_aliases path at (drop k (olds ++ last ∷ [])) ≡ some found
by_aliases-drop path at last found zero olds l e = by_aliases_last path at last found olds e
by_aliases-drop path at last found (suc k) [] l e = absurd (omega arith)
by_aliases-drop path at last found (suc k) (old ∷ olds) l e =
    by_aliases-drop path at last found k olds (omega arith) e

by_aliases-newest :
    (path at last found : Text) (olds : List Text)
    → by_alias path at last ≡ some found
    → by_aliases path at (newest (olds ++ last ∷ [])) ≡ some found
by_aliases-newest path at last found olds e =
    by_aliases-drop path at last found (length (olds ++ last ∷ []) - max_aliases) olds
      (omega (arith, length-append olds (last ∷ []))) e

any-keep : (p q : Text → Bool) (xs : List Text) → any p xs ≡ false → any p (keep q xs) ≡ false
any-keep p q [] h = refl
any-keep p q (x ∷ xs) h = ground (arith, any-keep p q xs)

module _ (path from to found : Text) where
  abbrev answers : Option Text → Bool
  answers none = true
  answers (some at) = same at found

  -- The moved project, which answers `found`; and one that is it, or answers nothing.
  abbrev is_hit : Folder → Bool
  is_hit f = same f.path to && is_some (by_aliases path f.path f.renamed_from)

  abbrev is_off : Folder → Bool
  is_off f =
      not (same f.path to && answers (by_aliases path f.path f.renamed_from))
      && any (covers_path path) f.renamed_from

  renamed_found :
      (f : Folder)
      → by_alias path to from ≡ some found
      → by_aliases path to (renamed_to from to f).renamed_from ≡ some found
  renamed_found f e =
      by_aliases-newest path to from found (keep (λ old. not (same old to)) f.renamed_from) e

  found_off :
      (f : Folder)
      → by_aliases path to (renamed_to from to f).renamed_from ≡ some found
      → is_off (renamed_to from to f) ≡ false
  found_off f e = rw (same_refl to) (rw e (rw (same_refl found) refl))

  found_hit :
      (f : Folder)
      → by_aliases path to (renamed_to from to f).renamed_from ≡ some found
      → is_hit (renamed_to from to f) ≡ true
  found_hit f e = rw (same_refl to) (rw e refl)

  rest_or_off :
      (f : Folder) (o : Option Text) → is_claimed path f ≡ false → is_off (rest_or to o f) ≡ false
  rest_or_off f none h = ground arith
  rest_or_off f (some rest) h = ground arith

  moved_off :
      (f : Folder)
      → by_alias path to from ≡ some found
      → is_claimed path f ≡ false
      → is_off (moved from to f) ≡ false
  moved_off f e h = elim (Bool-cases (same f.path from)) [
    | inl b ↦ rw b (found_off f (renamed_found f e))
    | inr b ↦ rw b (rest_or_off f (strip_prefix f.path (from ++ slash ∷ [])) h)
  ]

  moved_hit :
      (f : Folder)
      → by_alias path to from ≡ some found
      → same f.path from ≡ true
      → is_hit (moved from to f) ≡ true
  moved_hit f e h = rw h (found_hit f (renamed_found f e))

  without_off : (p : Text) (f : Folder) → is_off f ≡ false → is_off (without_alias to p f) ≡ false
  without_off p f h =
      ground (arith, any-keep (covers_path path) (λ old. not (same old p)) f.renamed_from)

  without_hit : (p : Text) (f : Folder) → is_hit f ≡ true → is_hit (without_alias to p f) ≡ true
  without_hit p f h = ground arith

  map-moved_off :
      (folders : Tree)
      → by_alias path to from ≡ some found
      → any (is_claimed path) folders ≡ false
      → any is_off (map (moved from to) folders) ≡ false
  map-moved_off [] e h = refl
  map-moved_off (f ∷ folders) e h = ground (arith, moved_off f e, map-moved_off folders e)

  map-moved_hit :
      (folders : Tree)
      → by_alias path to from ≡ some found
      → any (at_path from) folders ≡ true
      → any is_hit (map (moved from to) folders) ≡ true
  map-moved_hit [] e h = h
  map-moved_hit (f ∷ folders) e h = ground (arith, moved_hit f e, map-moved_hit folders e)

  map_without_off :
      (p : Text) (folders : Tree)
      → any is_off folders ≡ false
      → any is_off (map (without_alias to p) folders) ≡ false
  map_without_off p [] o = o
  map_without_off p (f ∷ folders) o = ground (arith, without_off p f, map_without_off p folders)

  map_without_hit :
      (p : Text) (folders : Tree)
      → any is_hit folders ≡ true
      → any is_hit (map (without_alias to p) folders) ≡ true
  map_without_hit p [] h = h
  map_without_hit p (f ∷ folders) h = ground (arith, without_hit p f, map_without_hit p folders)

  drop_new_keeps :
      (paths : List Text) (folders : Tree)
      → any is_off folders ≡ false
      → any is_hit folders ≡ true
      → (any is_off (drop_new to paths folders) ≡ false)
        × (any is_hit (drop_new to paths folders) ≡ true)
  drop_new_keeps [] folders o h = (o, h)
  drop_new_keeps (p ∷ paths) folders o h =
      drop_new_keeps paths (map (without_alias to p) folders) (map_without_off p folders o)
        (map_without_hit p folders h)

  first_renamed_hit :
      (folders : Tree)
      → any is_off folders ≡ false
      → any is_hit folders ≡ true
      → first_renamed path folders ≡ some found
  first_renamed_hit [] o h = cc
  first_renamed_hit (f ∷ folders) o h =
      ground (arith, first_renamed_hit folders, by_aliases-none path f.path f.renamed_from)

  relocated_from :
      (folders folders' : Tree)
      → relocate_folder folders from to ≡ some folders'
      → let renamed = map (moved from to) folders in
        (any (at_path from) folders ≡ true)
        × (sort_by by_path (drop_new to (under to renamed) renamed) ≡ folders')
  unfolding relocate_folder
  relocated_from folders folders' r = (ground arith, ground arith)

  -- A link to where a project was still arrives: after the project at `from` has moved to `to`, a path
  -- at or inside `from`, which no project took and none claimed as an old name before, leads to the
  -- same place at or inside `to`, however often the project was renamed before.
  pub moved_link_arrives :
      (folders folders' : Tree)
      → relocate_folder folders from to ≡ some folders'
      → by_alias path to from ≡ some found
      → any (is_claimed path) folders ≡ false
      → any (at_path path) folders' ≡ false
      → renamed_path folders' path ≡ some found
  unfolding relocate_folder renamed_path
  moved_link_arrives folders folders' r e c n =
      let renamed = map (moved from to) folders in
      let left = drop_new to (under to renamed) renamed in
      let (there, q) = relocated_from folders folders' r in
      let (off, hit) =
        drop_new_keeps (under to renamed) renamed (map-moved_off folders e c)
          (map-moved_hit folders e there) in
      rw n (
        first_renamed_hit folders' (rw (← q) (rw (any-sort_by by_path is_off left) off))
          (rw (← q) (rw (any-sort_by by_path is_hit left) hit)))
