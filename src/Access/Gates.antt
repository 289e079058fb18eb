-- ===== src/Access/Gates.antt =====
-- The gates of apps: `normalise_gate`, `resolve_gate`, `project_gate` and `locked_prefixes_blocking`
-- of src/content/store.rs, and `may_open`, `admits` and `gate_check` of src/content/serve.rs. The
-- catalog's answers (an app's meta, the tree of projects, an unfinished move) are arguments.
pub mod Resolved
pub mod Admitted
use toolsite.Common.{
  trim, ℕ, zero, suc, ◌+◌, ◌-◌, Bool, true, false, not, ◌&&◌, ◌||◌, Option, none, some, List, [],
  ◌∷◌, ◌++◌, map, ltb, leb, ◌==◌, if◌then◌else◌, Text, codes, same, length, keep, any, is_some,
  map_option, starts_with, strip_prefix,
}
use toolsite.Access.Paths.{is_empty, slash, joined, folder_chain}
use toolsite.Access.Scopes.{Account, app_scope}

abbrev pub lower : ℕ → ℕ
lower c = if leb 65 c && leb c 90 then c + 32 else c

abbrev pub word_of : Text → Option Text
word_of w =
    if same w (codes "public")
    then some (codes "public")
    else (if same w (codes "authenticated")
          || same w (codes "signed-in")
          || same w (codes "signed_in")
        then some (codes "authenticated")
        else (if same w (codes "restricted") || same w (codes "granted")
            then some (codes "restricted")
            else none))

unfoldable pub normalise_gate : Text → Option Text
unfolding trim
normalise_gate word = word_of (map lower (trim word))

pub record Folder : Type 0 where
  pub path : Text
  pub name : Text
  pub created_at : ℕ
  pub locked : Bool
  pub renamed_from : List Text
  pub gate : Option Text

pub record PathRule : Type 0 where
  pub prefix : Text
  pub gate : Text

-- Of an app's meta, what the gate reads.
pub record PageMeta : Type 0 where
  pub project : Option Text
  pub gate : Option Text
  pub rules : List PathRule
  pub hidden : Bool

pub data GateSource : Type 0 where
  rule project : Text → GateSource
  own site : GateSource

pub record EffectiveGate : Type 0 where
  pub gate : Text
  pub source : GateSource
  pub locked_by : Option Text

abbrev pub or_else : {A : Type 0} → Option A → A → A
or_else none d = d
or_else (some a) d = a

-- `folders.iter().find(|folder| folder.path == path)`.
abbrev pub node : Text → List Folder → Option Folder
node path [] = none
node path (f ∷ folders) = if same f.path path then some f else node path folders

abbrev pub is_locked : List Folder → Text → Bool
is_locked folders path = elim (node path folders) [ none ↦ false | some f ↦ f.locked ]

abbrev pub find : (Text → Bool) → List Text → Option Text
find p [] = none
find p (x ∷ xs) = if p x then some x else find p xs

-- `max_by_key(|rule| rule.prefix.len())`, of the rules for a path: the last of the longest.
abbrev pub longest_from : PathRule → List PathRule → PathRule
longest_from best [] = best
longest_from best (r ∷ rules) =
    if leb (length best.prefix) (length r.prefix)
    then longest_from r rules
    else longest_from best rules

abbrev pub longest : List PathRule → Option PathRule
longest [] = none
longest (r ∷ rules) = some (longest_from r rules)

abbrev pub rule_for : Text → List PathRule → Option PathRule
rule_for within rules = longest (keep (λ r. starts_with within r.prefix) rules)

-- A project's own setting, if it has one that is a word.
abbrev pub setting : List Folder → Text → Option Text
setting folders path = elim (node path folders) [
  | none ↦ none
  | some f ↦ elim f.gate [ none ↦ none | some word ↦ normalise_gate word ]
]

-- The innermost of the projects, listed outermost first, that has a setting.
abbrev pub nearest : List Folder → List Text → Option (Text × Text)
nearest folders [] = none
nearest folders (path ∷ paths) = elim (nearest folders paths) [
  | some found ↦ some found
  | none ↦ map_option (λ gate. (gate, path)) (setting folders path)
]

abbrev pub site_word : Text → Text
site_word default = or_else (normalise_gate default) (codes "public")

abbrev pub project_chain : Text → List Text
project_chain path = if is_empty path then [] else folder_chain (joined path (codes "x"))

abbrev pub from_projects : List Folder → Text → Option Text → List Text → EffectiveGate
from_projects folders default locked_by paths = elim (nearest folders paths) [
  | some (gate, path) ↦ record { gate = gate; source = project path; locked_by = locked_by }
  | none ↦ record { gate = site_word default; source = site; locked_by = locked_by }
]

abbrev pub own_gate : List Folder → Text → List Text → Option Text → EffectiveGate
own_gate folders default chain (some gate) = record { gate = gate; source = own; locked_by = none }
own_gate folders default chain none = from_projects folders default none chain

abbrev pub unlocked_gate :
    PageMeta → List Folder → Text → List Text → Option PathRule → EffectiveGate
unlocked_gate meta folders default chain (some r) = record {
  gate = r.gate;
  source = rule r.prefix;
  locked_by = none;
}
unlocked_gate meta folders default chain none = own_gate folders default chain meta.gate

abbrev pub gate_under :
    PageMeta → List Folder → Text → Text → List Text → Option Text → EffectiveGate
gate_under meta folders default within chain (some lock) =
    from_projects folders default (some lock) (keep (λ path. leb (length path) (length lock)) chain)
gate_under meta folders default within chain none =
    unlocked_gate meta folders default chain (rule_for within meta.rules)

-- An app that names a project the tree does not hold is closed.
abbrev pub gate_in :
    PageMeta → List Folder → Text → Text → Text → List Text → Option Text → EffectiveGate
gate_in meta folders default within home chain locked_by =
    if not (is_empty home) && not (is_some (node home folders))
    then record { gate = codes "restricted"; source = site; locked_by = locked_by }
    else gate_under meta folders default within chain locked_by

unfoldable pub resolve_gate : PageMeta → List Folder → Text → Text → EffectiveGate
unfolding normalise_gate folder_chain
resolve_gate meta folders default within =
    let home = or_else meta.project [] in
    let chain = project_chain home in
    gate_in meta folders default within home chain (find (is_locked folders) chain)

unfoldable pub project_gate : List Folder → Text → Text → Text × GateSource
unfolding normalise_gate folder_chain
project_gate folders default path = elim (nearest folders (project_chain path)) [
  | some (gate, at) ↦ (gate, project at)
  | none ↦ (site_word default, site)
]

-- A lock of the tree is held at the place it has not yet moved from, too.
abbrev pub moved_back : Text → Text → List Text → List Text
moved_back from to [] = []
moved_back from to (path ∷ locked) =
    if same path to
    then from ∷ moved_back from to locked
    else (elim (strip_prefix path (to ++ slash ∷ [])) [
      | none ↦ moved_back from to locked
      | some rest ↦ joined from rest ∷ moved_back from to locked
    ])

-- `none` where the tree, or the move that is not finished, could not be read.
unfoldable pub locked_prefixes : Option (List Folder) → Option (Option (Text × Text)) → List Text
locked_prefixes (some folders) (some none) = map (λ f. f.path) (keep (λ f. f.locked) folders)
locked_prefixes (some folders) (some (some (from, to))) =
    let locked = map (λ f. f.path) (keep (λ f. f.locked) folders) in
    locked ++ moved_back from to locked
locked_prefixes none relocation = [] ∷ []
locked_prefixes (some folders) none = [] ∷ []

-- `folder` is the app's project, and `locks` the locked prefixes.
unfoldable pub admits : Text → Text → Text → List Text → Option Account → Bool
unfolding app_scope
admits gate app folder locks visitor =
    if same gate (codes "public")
    then true
    else (if same gate (codes "authenticated")
        then is_some visitor
        else (if same gate (codes "restricted") || same gate (codes "granted")
            then (elim visitor [
              | none ↦ false
              | some user ↦ user.is_admin || is_some (app_scope user folder app locks)
            ])
            else false))

unfoldable pub may_open : PageMeta → List Folder → Text → Text → List Text → Account → Bool
unfolding admits resolve_gate
may_open meta folders default app locks user =
    if meta.hidden
    then false
    else admits (resolve_gate meta folders default (slash ∷ [])).gate app (or_else meta.project [])
        locks (some user)

unfoldable pub app_scoped_next : Text → Text → Text
app_scoped_next app path =
    let at = codes "/p/" ++ app in if same path at then at ++ slash ∷ [] else path

-- What the gate answers in place of the app: a status, or where the visitor is sent.
pub data Refusal : Type 0 where
  unauthorized forbidden : Refusal
  begin_handoff handoff login : Text → Refusal

abbrev pub refuse_app_host : Bool → Bool → Bool → Text → Refusal
refuse_app_host is_api may_hand_off known next =
    if is_api || not may_hand_off
    then (if known then forbidden else unauthorized)
    else (if known then forbidden else begin_handoff next)

abbrev pub refuse_known : Bool → Bool → Text → Refusal
refuse_known is_api known next =
    if is_api
    then (if known then forbidden else unauthorized)
    else (if known then forbidden else login next)

-- Whether the gate opens to the app session and to the site session, and whose these are; `none`
-- lets the request pass.
abbrev pub gate_answer : Bool → Bool → Bool → Bool → Bool → Bool → Bool → Text → Option Refusal
gate_answer apps opens_visitor opens_site visitor site_user is_api may_hand_off next =
    if opens_visitor
    then none
    else (if apps
        then some (refuse_app_host is_api may_hand_off visitor next)
        else (if not is_api && may_hand_off && opens_site
            then some (handoff next)
            else some (refuse_known is_api (visitor || site_user) next)))

-- `apps` says that apps have hosts of their own; `site_user` is whose site session the request
-- carries.
unfoldable pub gate_check :
    Bool
    → PageMeta
    → List Folder
    → Text
    → List Text
    → Text
    → Option Account
    → Text
    → Bool
    → Bool
    → Option Account
    → Option Refusal
unfolding admits resolve_gate app_scoped_next
gate_check apps meta folders default locks app visitor path is_api may_hand_off site_user =
    let within = or_else (strip_prefix path (codes "/p/" ++ app)) path in
    let gate = (resolve_gate meta folders default within).gate in
    let opens = admits gate app (or_else meta.project []) locks in
    gate_answer apps (opens visitor) (opens site_user) (is_some visitor) (is_some site_user) is_api
      may_hand_off (app_scoped_next app path)
