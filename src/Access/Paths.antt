-- ===== src/Access/Paths.antt =====
-- Paths and what covers them (src/content/slug.rs; `valid_prefix` and `prefix_covers` of
-- src/accounts/users.rs; `folder_chain` of src/content/store.rs). A path is its bytes.
pub mod Order
use toolsite.Common.{
  ℕ, zero, suc, Bool, true, false, not, ◌&&◌, ◌||◌, List, [], ◌∷◌, ◌++◌, map, leb, ◌==◌,
  if◌then◌else◌, Text, same, codes, all, keep, starts_with, length, take,
}

-- `/`, `.`, `-` and `_`.
abbrev pub slash : ℕ
slash = 47

abbrev pub is_empty : Text → Bool
is_empty [] = true
is_empty (c ∷ s) = false

abbrev pub is_alphanumeric : ℕ → Bool
is_alphanumeric c = (leb 48 c && leb c 57) || (leb 65 c && leb c 90) || (leb 97 c && leb c 122)

abbrev pub is_segment_byte : ℕ → Bool
is_segment_byte c = is_alphanumeric c || c == 45 || c == 95

abbrev pub valid_segment : Text → Bool
valid_segment s = not (is_empty s) && all is_segment_byte s

abbrev pub cons_head : ℕ → List Text → List Text
cons_head c [] = (c ∷ []) ∷ []
cons_head c (s ∷ ss) = (c ∷ s) ∷ ss

-- `split('/')`: one piece more than there are slashes.
abbrev pub split : Text → List Text
split [] = [] ∷ []
split (c ∷ s) = let rest = split s in if c == slash then [] ∷ rest else cons_head c rest

unfoldable pub valid_slug : Text → Bool
valid_slug s = not (is_empty s) && all valid_segment (split s)

abbrev pub valid_asset_segment : Text → Bool
valid_asset_segment seg =
    not (is_empty seg)
    && not (starts_with seg (46 ∷ []))
    && all (λ c. is_alphanumeric c || c == 45 || c == 95 || c == 46) seg

unfoldable pub valid_asset_path : Text → Bool
valid_asset_path s = not (is_empty s) && all valid_asset_segment (split s)

unfoldable pub valid_prefix : Text → Bool
unfolding valid_slug
valid_prefix prefix = is_empty prefix || valid_slug prefix

unfoldable pub prefix_covers : Text → Text → Bool
prefix_covers prefix path =
    is_empty prefix || same path prefix || starts_with path (prefix ++ slash ∷ [])

-- `join("/")`.
abbrev pub join : List Text → Text
join [] = []
join (s ∷ []) = s
join (s ∷ t ∷ ss) = s ++ slash ∷ join (t ∷ ss)

-- `format!("{above}/{below}")`.
abbrev pub joined : Text → Text → Text
joined above below = above ++ slash ∷ below

-- The first `n` segments, joined, for each `n` from 1 up to fewer than all of them.
abbrev pub chain_up_to : ℕ → List Text → List Text
chain_up_to zero segments = []
chain_up_to (suc zero) segments = []
chain_up_to (suc (suc n)) segments =
    chain_up_to (suc n) segments ++ join (take (suc n) segments) ∷ []

unfoldable pub folder_chain : Text → List Text
folder_chain path =
    let segments = keep (λ s. not (is_empty s)) (split path) in
    chain_up_to (length segments) segments
