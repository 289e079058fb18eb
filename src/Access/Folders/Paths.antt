-- ===== src/Access/Folders/Paths.antt =====
-- What making a project does to the paths of the tree (`create_folder` of src/content/store.rs).
use toolsite.Common.{
  ℕ, ◌+◌, ◌≡◌, refl, Bool, true, false, not, ◌||◌, some, List, [], ◌∷◌, ◌++◌, arith, if◌then◌else◌,
  Text, same, keep, any, count, count-append, sort_by, any-sort_by, count-sort_by,
}
use toolsite.Access.Paths.{is_empty}
use toolsite.Access.Gates.{Folder}
use toolsite.Access.Folders.{
  Tree, by_path, at_path, claims, drop_alias, new_folder, path_in, create_folder,
}

-- Whether some project still answers to a path, or to one inside it, as an old name.
abbrev pub has_alias : Text → Folder → Bool
has_alias path f = any (claims path) f.renamed_from

any-append :
    {A : Type 0} (p : A → Bool) (xs ys : List A) → any p (xs ++ ys) ≡ (any p xs || any p ys)
any-append p [] ys = refl
any-append p (x ∷ xs) ys = ground (arith, any-append p xs ys)

any-keep-not : (p : Text → Bool) (xs : List Text) → any p (keep (λ x. not (p x)) xs) ≡ false
any-keep-not p [] = refl
any-keep-not p (x ∷ xs) = ground (arith, any-keep-not p xs)

count-drop_alias :
    (at path : Text) (folders : Tree)
    → count (at_path at) (drop_alias path folders) ≡ count (at_path at) folders
count-drop_alias at path [] = refl
count-drop_alias at path (f ∷ folders) = ground (arith, count-drop_alias at path folders)

alias-drop_alias :
    (path : Text) (folders : Tree) → any (has_alias path) (drop_alias path folders) ≡ false
alias-drop_alias path [] = refl
alias-drop_alias path (f ∷ folders) =
    ground (arith, alias-drop_alias path folders, any-keep-not (claims path) f.renamed_from)

count_of_any :
    (at : Text) (folders : Tree) → any (at_path at) folders ≡ false → count (at_path at) folders ≡ 0
count_of_any at [] h = refl
count_of_any at (f ∷ folders) h = ground (arith, count_of_any at folders)

created_from :
    (folders folders' : Tree) (app_there : Bool) (parent name : Text) (now : ℕ)
    → create_folder folders app_there parent name now ≡ some folders'
    → let path = path_in parent name in
      (any (at_path path) folders ≡ false)
      × ((is_empty parent || any (at_path parent) folders) ≡ true)
      × (app_there ≡ false)
      × (sort_by by_path (drop_alias path folders ++ new_folder path name now ∷ []) ≡ folders')
unfolding create_folder
created_from folders folders' app_there parent name now e =
    (ground arith, ground arith, ground arith, ground arith)

-- Where a project is made: its parent was there, or it is at the top, and no app is at its path; the
-- path had no project and has one now, every other path has as many as before, so paths stay
-- distinct where they were; and no project answers any more to the path, or to one inside it, as
-- an old name.
pub create_folder-adds :
    (folders folders' : Tree) (app_there : Bool) (parent name : Text) (now : ℕ)
    → create_folder folders app_there parent name now ≡ some folders'
    → let path = path_in parent name in
      ((is_empty parent || any (at_path parent) folders) ≡ true)
      × (app_there ≡ false)
      × (count (at_path path) folders ≡ 0)
      × ((at : Text)
          → count (at_path at) folders'
            ≡ count (at_path at) folders + (if same path at then 1 else 0))
      × (any (has_alias path) folders' ≡ false)
create_folder-adds folders folders' app_there parent name now e =
    let path = path_in parent name in
    let (free, there, no_app, q) = created_from folders folders' app_there parent name now e in
    let new = new_folder path name now in
    (
      there,
      no_app,
      count_of_any path folders free,
      λ at. rw (← q) (
          rw (count-sort_by by_path (at_path at) (drop_alias path folders ++ new ∷ [])) (
            rw (count-append (at_path at) (drop_alias path folders) (new ∷ []))
              (rw (count-drop_alias at path folders) refl))),
      rw (← q) (
          rw (any-sort_by by_path (has_alias path) (drop_alias path folders ++ new ∷ [])) (
            rw (any-append (has_alias path) (drop_alias path folders) (new ∷ []))
              (rw (alias-drop_alias path folders) refl))),
    )
