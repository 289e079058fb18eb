-- ===== src/Tickets.antt =====
-- src/state/tickets.rs: short-lived capabilities. This file is the kinds, the rows and the memory
-- store, one map by digest behind one lock, so that every method is one step on it. Times are Unix
-- seconds, not negative and below 2^63. The store never fails by itself; an edit may.
mod Tests
pub mod Plain
pub mod Store
pub mod Handle
pub mod Once
pub mod RoundTrip
pub mod Edits
pub mod Postgres
use toolsite.Common.{
  ℕ, Bool, true, false, not, ◌&&◌, Option, none, some, List, map, ltb, if◌then◌else◌, Text, codes,
  same, Assoc, lookup, insert, remove, modify, count, keep, is_some, map_option, filter_option,
}

pub data Kind : Type 0 where
  upload settings_link inline_upload blob_upload login preview handoff : Kind

-- `Kind::name`.
abbrev pub name : Kind → Text
name upload = codes "upload"
name settings_link = codes "settings-link"
name inline_upload = codes "inline-upload"
name blob_upload = codes "blob-upload"
name login = codes "login"
name preview = codes "preview"
name handoff = codes "handoff"

pub record Row : Type 0 where
  pub kind : Text
  pub digest : Text
  pub sealed : Text
  pub expires_at : ℕ

abbrev pub Rows : Type 0
Rows = Assoc Row

-- `Result<A, String>`, with what the messages say as constructors.
pub data Failure : Type 0 where
  not_sealed too_short not_opened not_encoded not_expected : Failure
  edit_refused : Text → Failure

pub data Result (A : Type 0) : Type 0 where
  ok : A → Result A
  err : Failure → Result A

abbrev pub is_live : ℕ → Row → Bool
is_live now row = ltb now row.expires_at

-- `row.kind == kind && row.expires_at > now`.
abbrev pub counts : Text → ℕ → Row → Bool
counts kind now row = same row.kind kind && is_live now row

-- `retain`, on a map.
abbrev pub retain : (Row → Bool) → Rows → Rows
retain p rows = keep (λ e. p e.1) rows

unfoldable pub put : Rows → Row → ℕ → Rows
put rows row now = insert row.digest row (retain (is_live now) rows)

unfoldable pub get : Rows → Text → Text → ℕ → Option Text
get rows kind digest now =
    map_option (λ row. row.sealed) (filter_option (counts kind now) (lookup digest rows))

unfoldable pub take : Rows → Text → Text → ℕ → Option Text × Rows
take rows kind digest now =
    if not (is_some (filter_option (counts kind now) (lookup digest rows)))
    then (none, rows)
    else (map_option (λ row. row.sealed) (lookup digest rows), remove digest rows)

abbrev pub set_sealed : Text → Row → Row
set_sealed sealed row = record row { sealed = sealed }

-- What the closure handed to `update` came to, and the rows after it.
abbrev pub apply_edit : Rows → Text → Result (Option Text) → Result Bool × Rows
apply_edit rows digest (err e) = (err e, rows)
apply_edit rows digest (ok none) = (ok true, rows)
apply_edit rows digest (ok (some sealed)) = (ok true, modify digest (set_sealed sealed) rows)

unfoldable pub update : Rows → Text → Text → ℕ → (Text → Result (Option Text)) → Result Bool × Rows
update rows kind digest now edit = elim (filter_option (counts kind now) (lookup digest rows)) [
  | none ↦ (ok false, rows)
  | some row ↦ apply_edit rows digest (edit row.sealed)
]

unfoldable pub live_count : Rows → Text → ℕ → ℕ
live_count rows kind now = count (λ e. counts kind now e.1) rows

abbrev pub ended : Row → Row
ended row = record row { expires_at = 0 }

unfoldable pub expire : Rows → Text → Bool × Rows
expire rows digest = (is_some (lookup digest rows), modify digest ended rows)

unfoldable pub all_rows : Rows → List Row
all_rows rows = map (λ e. e.1) rows
