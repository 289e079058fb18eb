-- ===== src/Uploads.antt =====
-- Uploads that arrive in chunks: src/platform/inline_upload.rs. An upload is a ticket, changed in place
-- by each chunk; the pieces go to the file store of src/content/files/mod.rs, of which there are two, and
-- whose chunk calls are a parameter, with what the uploads rely on in `FilesLaws`: a piece that was put
-- is read back. Clearing is best effort in both stores: nothing is asked of it. Base64 is another library's: the parameter `decode`.
-- A file store's time and a ticket's are arguments, as are ids and nonces.
pub mod Sizes
pub mod Tracked
pub mod Joined
pub mod Finished
pub mod Cancelled
mod Tests
use toolsite.Common.{
  ℕ, zero, suc, ◌+◌, ◌*◌, ◌≡◌, ◌≢◌, Bool, true, false, not, ◌&&◌, Option, none, some, List, [], ◌∷◌,
  ◌++◌, map, ltb, leb, ◌==◌, if◌then◌else◌, Text, codes, length, keep, is_some, map_option, trim,
}
use toolsite.Tickets.{Kind, inline_upload, Rows, Result, ok, err, Failure, edit_refused}
use toolsite.Tickets.Handle.{Cipher, Codec, digest, put_ticket, take_ticket, update_ticket}

-- The chunk calls of `Files`: `none` is an error of the store.
pub record Files (F : Type 0) : Type 0 where
  pub put : F → Text → ℕ → Text → Option F
  pub read : F → Text → ℕ → Option (Option Text)
  pub clear : F → Text → F
  pub sweep : F → ℕ → F

pub record FilesLaws {F : Type 0} (files : Files F) : Type 0 where
  pub read-put_self :
      (f f' : F) (name : Text) (i : ℕ) (b : Text)
      → files.put f name i b ≡ some f'
      → files.read f' name i ≡ some (some b)
  pub read-put_other :
      (f f' : F) (name : Text) (i j : ℕ) (b : Text)
      → files.put f name i b ≡ some f'
      → i ≢ j
      → files.read f' name j ≡ files.read f name j

abbrev pub chunk_bytes : ℕ
chunk_bytes = 768 * 1024

abbrev pub inline_ttl : ℕ
inline_ttl = 900

abbrev pub max_chunks : ℕ
max_chunks = 4096

abbrev pub max_upload_bytes : ℕ
max_upload_bytes = 64 * 1024 * 1024

pub data UploadKind : Type 0 where
  page icon : UploadKind
  bundle : Bool → UploadKind
  handler source manifest migrations : UploadKind
  blob : Text → UploadKind

pub record SourceMeta : Type 0 where
  pub push : Bool
  pub message : Option Text
  pub commit : Option Text

-- `BTreeMap<u32, u64>`, by rising index.
abbrev pub Sizes : Type 0
Sizes = List (ℕ × ℕ)

pub record InlineUpload : Type 0 where
  pub slug : Text
  pub kind : UploadKind
  pub meta : SourceMeta
  pub user : Option Text
  pub project : Option Text
  pub chunks : Sizes

pub record Progress : Type 0 where
  pub received : ℕ
  pub present : List ℕ

unfoldable pub size_at : ℕ → Sizes → Option ℕ
size_at i [] = none
size_at i ((j, n) ∷ sizes) = if j == i then some n else size_at i sizes

unfoldable pub set_size : ℕ → ℕ → Sizes → Sizes
set_size i n [] = (i, n) ∷ []
set_size i n ((j, m) ∷ sizes) =
    if j == i
    then (i, n) ∷ sizes
    else (if ltb i j then (i, n) ∷ (j, m) ∷ sizes else (j, m) ∷ set_size i n sizes)

-- Fewer than 2^64 in all, as there are at most 4096 chunks of less than 2^20 bytes.
unfoldable pub total : Sizes → ℕ
total [] = 0
total ((j, n) ∷ sizes) = n + total sizes

-- The sizes at the other indexes, in all.
abbrev pub others : ℕ → Sizes → ℕ
others i sizes = total (keep (λ e. not (e.0 == i)) sizes)

-- Why a call was refused.
pub data Trouble : Type 0 where
  not_base64 chunk_empty unknown not_kept no_chunks : Trouble
  chunk_too_large index_too_high too_many_chunks not_read : ℕ → Trouble
  ticket : Failure → Trouble
  missing extra : List ℕ → Trouble

pub data Outcome (A : Type 0) : Type 0 where
  done : A → Outcome A
  refused : Trouble → Outcome A

abbrev pub past_ceiling : Failure
past_ceiling =
    edit_refused (codes "the upload would pass the ceiling for one upload; it is cancelled")

-- The edit of the ticket.
unfoldable pub count_chunk : ℕ → ℕ → ℕ → InlineUpload → Result (Progress × InlineUpload)
count_chunk ceiling index size upload =
    if ltb ceiling (others index upload.chunks + size)
    then err past_ceiling
    else (let chunks = set_size index size upload.chunks in
        ok (
          record { received = total chunks; present = map (λ e. e.0) chunks },
          record upload { chunks = chunks },
        ))

-- The first tests of a chunk: the bytes it brings.
unfoldable pub checked : Option Text → ℕ → Outcome Text
checked none index = refused not_base64
checked (some bytes) index =
    if ltb chunk_bytes (length bytes)
    then refused (chunk_too_large (length bytes))
    else if length bytes == 0
    then refused chunk_empty
    else if leb max_chunks index
    then refused (index_too_high index)
    else done bytes

-- `0..count`, and from an index on.
unfoldable pub from_index : ℕ → ℕ → List ℕ
from_index i zero = []
from_index i (suc n) = i ∷ from_index (i + 1) n

unfoldable pub missing_of : ℕ → Sizes → List ℕ
missing_of count sizes = keep (λ i. not (is_some (size_at i sizes))) (from_index 0 count)

unfoldable pub extra_of : ℕ → Sizes → List ℕ
extra_of count sizes = keep (λ i. leb count i) (map (λ e. e.0) sizes)

abbrev pub append_done : Text → Outcome Text → Outcome Text
append_done part (refused why) = refused why
append_done part (done bytes) = done (part ++ bytes)

abbrev pub is_nil : List ℕ → Bool
is_nil [] = true
is_nil (i ∷ is) = false

abbrev pub with_upload : InlineUpload → Outcome Text → Outcome (InlineUpload × Text)
with_upload upload (refused why) = refused why
with_upload upload (done bytes) = done (upload, bytes)

module _ {F : Type 0} (files : Files F) where
  -- The parts at the indexes, joined; the first that is not there is named.
  unfoldable pub read_parts : F → Text → List ℕ → Outcome Text
  read_parts f name [] = done []
  read_parts f name (i ∷ is) = elim (files.read f name i) [
    | none ↦ refused (not_read i)
    | some none ↦ refused (not_read i)
    | some (some part) ↦ append_done part (read_parts f name is)
  ]

  unfoldable pub closed : F → Text → ℕ → InlineUpload → Outcome (InlineUpload × Text)
  closed f name count upload =
      if count == 0
      then refused no_chunks
      else if ltb max_chunks count
      then refused (too_many_chunks count)
      else if not (is_nil (missing_of count upload.chunks))
      then refused (missing (missing_of count upload.chunks))
      else if not (is_nil (extra_of count upload.chunks))
      then refused (extra (extra_of count upload.chunks))
      else with_upload upload (read_parts f name (from_index 0 count))

  abbrev pub closed_if : F → Text → ℕ → Result (Option InlineUpload) → Outcome (InlineUpload × Text)
  closed_if f name count (err e) = refused (ticket e)
  closed_if f name count (ok none) = refused unknown
  closed_if f name count (ok (some upload)) = closed f name count upload

  abbrev kept : Progress → Rows → F → Option F → Outcome Progress × Rows × F
  kept progress rows f none = (refused not_kept, rows, f)
  kept progress rows f (some f') = (done progress, rows, f')

  module _ (c : Cipher) (s : Codec InlineUpload) (decode : Text → Option Text) (key : Text) where
    abbrev pub pieces : Text → Text
    pieces id = digest c inline_upload id

    unfoldable pub begin : Rows → F → InlineUpload → Text → Text → ℕ → Result Text × Rows × F
    begin rows f upload id nonce now =
        let (answer, rows') =
          put_ticket c s rows key inline_upload inline_ttl 0 (record upload { chunks = [] }) id
            nonce now in
        (answer, rows', files.sweep f (inline_ttl + 60))

    -- What the counting came to: the piece is stored, or the upload is unknown or cancelled.
    unfoldable pub settle :
        F → Text → ℕ → Text → ℕ → Result (Option Progress) × Rows → Outcome Progress × Rows × F
    settle f id index bytes now (ok (some progress), rows) =
        kept progress rows f (files.put f (pieces id) index bytes)
    settle f id index bytes now (ok none, rows) = (refused unknown, rows, files.clear f (pieces id))
    settle f id index bytes now (err (edit_refused why), rows) = (
      refused (ticket (edit_refused why)),
      (take_ticket c s rows key inline_upload id now).1,
      files.clear f (pieces id),
    )
    settle f id index bytes now (err e, rows) = (refused (ticket e), rows, f)

    abbrev pub chunk_of :
        Rows → F → Text → ℕ → Text → ℕ → ℕ → Outcome Text → Outcome Progress × Rows × F
    chunk_of rows f id index nonce now ceiling (refused why) = (refused why, rows, f)
    chunk_of rows f id index nonce now ceiling (done bytes) = settle f id index bytes now (
        update_ticket c s rows key inline_upload id nonce now
          (count_chunk ceiling index (length bytes)))

    unfoldable pub chunk_within :
        Rows → F → Text → ℕ → Text → Text → ℕ → ℕ → Outcome Progress × Rows × F
    unfolding checked
    chunk_within rows f id index text nonce now ceiling =
        chunk_of rows f id index nonce now ceiling (checked (decode (trim text)) index)

    unfoldable pub finish : Rows → F → Text → ℕ → ℕ → Outcome (InlineUpload × Text) × Rows × F
    finish rows f id count now =
        let (taken, rows') = take_ticket c s rows key inline_upload id now in
        (closed_if f (pieces id) count taken, rows', files.clear f (pieces id))
