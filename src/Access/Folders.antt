-- ===== src/Access/Folders.antt =====
-- The tree of projects (src/content/store.rs): making, moving and removing a project, and where an
-- old path lives now. Every change is one `update_folders` on the whole list, and a change that is
-- refused writes nothing: `none`.
pub mod Paths
pub mod Moved
use toolsite.Common.{
  ℕ, ◌-◌, Bool, true, false, not, ◌&&◌, ◌||◌, Option, none, some, List, [], ◌∷◌, ◌++◌, map, ltb,
  leb, if◌then◌else◌, Text, same, length, keep, any, drop, strip_prefix, starts_with, sort_by,
  text_le, is_some, map_option,
}
use toolsite.Access.Paths.{is_empty, slash, joined, split, valid_segment, valid_slug}
use toolsite.Access.Gates.{Folder, normalise_gate}

abbrev pub Tree : Type 0
Tree = List Folder

abbrev pub max_aliases : ℕ
max_aliases = 5

abbrev pub by_path : Folder → Folder → Bool
by_path f g = text_le f.path g.path

abbrev pub at_path : Text → Folder → Bool
at_path path f = same f.path path

-- At a path or inside it: an old name that a project there takes back.
abbrev pub claims : Text → Text → Bool
claims path old = same old path || starts_with old (path ++ slash ∷ [])

abbrev pub forget_alias : Text → Folder → Folder
forget_alias path f = record f { renamed_from = keep (λ old. not (claims path old)) f.renamed_from }

abbrev pub drop_alias : Text → Tree → Tree
drop_alias path folders = map (forget_alias path) folders

abbrev pub new_folder : Text → Text → ℕ → Folder
new_folder path name now = record {
  path = path;
  name = name;
  created_at = now;
  locked = false;
  renamed_from = [];
  gate = none;
}

abbrev pub path_in : Text → Text → Text
path_in parent name = if is_empty parent then name else joined parent name

-- `app_there` says that an app sits at the new path.
unfoldable pub create_folder : Tree → Bool → Text → Text → ℕ → Option Tree
unfolding sort_by valid_slug
create_folder folders app_there parent name now =
    let path = path_in parent name in
    if not (valid_segment name)
      || not (is_empty parent || valid_slug parent)
      || app_there
      || (not (is_empty parent) && not (any (at_path parent) folders))
      || any (at_path path) folders
    then none
    else some (sort_by by_path (drop_alias path folders ++ new_folder path name now ∷ []))

-- The last part of a path: what follows its last slash.
abbrev pub last_of : Text → List Text → Text
last_of path [] = path
last_of path (s ∷ []) = s
last_of path (s ∷ t ∷ ss) = last_of path (t ∷ ss)

abbrev pub base_name : Text → Text
base_name path = last_of path (split path)

-- The newest five.
abbrev pub newest : List Text → List Text
newest olds = drop (length olds - max_aliases) olds

abbrev pub rest_or : Text → Option Text → Folder → Folder
rest_or to none f = f
rest_or to (some rest) f = record f { path = joined to rest }

abbrev pub renamed_to : Text → Text → Folder → Folder
renamed_to from to f = record f {
  path = to;
  name = base_name to;
  renamed_from = newest (keep (λ old. not (same old to)) f.renamed_from ++ from ∷ []);
}

abbrev pub moved : Text → Text → Folder → Folder
moved from to f =
    if same f.path from
    then renamed_to from to f
    else rest_or to (strip_prefix f.path (from ++ slash ∷ [])) f

abbrev pub without_alias : Text → Text → Folder → Folder
without_alias to path f =
    if same f.path to
    then f
    else record f { renamed_from = keep (λ old. not (same old path)) f.renamed_from }

abbrev pub drop_new : Text → List Text → Tree → Tree
drop_new to [] folders = folders
drop_new to (path ∷ paths) folders = drop_new to paths (map (without_alias to path) folders)

abbrev pub under : Text → Tree → List Text
under to folders =
    map (λ f. f.path) (keep (λ f. same f.path to || starts_with f.path (to ++ slash ∷ [])) folders)

unfoldable pub relocate_folder : Tree → Text → Text → Option Tree
unfolding sort_by
relocate_folder folders from to =
    let renamed = map (moved from to) folders in
    if not (any (at_path from) folders)
    then none
    else some (sort_by by_path (drop_new to (under to renamed) renamed))

unfoldable pub remove_folder : Tree → Text → Option Tree
remove_folder folders path =
    let left = keep (λ f. not (at_path path f)) folders in
    if leb (length folders) (length left) then none else some left

abbrev pub set_first : (Folder → Folder) → Text → Tree → Tree
set_first f path [] = []
set_first f path (g ∷ folders) =
    if same g.path path then f g ∷ folders else g ∷ set_first f path folders

unfoldable pub set_locked : Tree → Text → Bool → Option Tree
set_locked folders path locked =
    if any (at_path path) folders
    then some (set_first (λ f. record f { locked = locked }) path folders)
    else none

-- The words of a setting, or that it is no word.
abbrev pub gate_word : Option Text → Option (Option Text)
gate_word none = some none
gate_word (some word) = map_option (λ gate. some gate) (normalise_gate word)

unfoldable pub set_folder_gate : Tree → Text → Option Text → Option Tree
unfolding normalise_gate
set_folder_gate folders path gate = elim (gate_word gate) [
  | none ↦ none
  | some gate ↦
      if any (at_path path) folders
      then some (set_first (λ f. record f { gate = gate }) path folders)
      else none
]

-- Where a path lives by one old name of a project.
abbrev pub by_alias : Text → Text → Text → Option Text
by_alias path at old =
    if same path old
    then some at
    else map_option (λ rest. joined at rest) (strip_prefix path (old ++ slash ∷ []))

-- By its old names, the newest first.
abbrev pub by_aliases : Text → Text → List Text → Option Text
by_aliases path at [] = none
by_aliases path at (old ∷ olds) = elim (by_aliases path at olds) [
  | some found ↦ some found
  | none ↦ by_alias path at old
]

abbrev pub first_renamed : Text → Tree → Option Text
first_renamed path [] = none
first_renamed path (f ∷ folders) = elim (by_aliases path f.path f.renamed_from) [
  | some found ↦ some found
  | none ↦ first_renamed path folders
]

unfoldable pub renamed_path : Tree → Text → Option Text
renamed_path folders path = if any (at_path path) folders then none else first_renamed path folders
