-- ===== src/Uploads/Cancelled.antt =====
-- Uploads that grow too large (`chunk_within` of src/platform/inline_upload.rs).
use toolsite.Common.{ℕ, ◌+◌, ◌<◌, ◌≡◌, ◌∙◌, ap, Option, none, arith, Text, length, trim}
use toolsite.Tickets.{inline_upload, Rows, ok, err}
use toolsite.Tickets.Handle.{Cipher, CipherLaws, Codec, CodecLaws, digest, get_ticket}
use toolsite.Tickets.Edits.{Holds, take_held, update_of_refused}
use toolsite.Uploads.{
  Files, InlineUpload, done, refused, ticket, others, past_ceiling, count_chunk, checked,
  chunk_within, chunk_of, settle,
}

count_chunk-over :
    (ceiling index size : ℕ) (u : InlineUpload)
    → ceiling < others index u.chunks + size
    → count_chunk ceiling index size u ≡ err past_ceiling
unfolding count_chunk
count_chunk-over ceiling index size u h = ground arith

-- A chunk with which the upload would pass its ceiling, the chunks at other indexes counted and the one
-- that it would replace not, cancels it: the call is refused, the id is spent, nothing is put, and the store is told to clear the
-- upload's pieces.
pub over_ceiling_cancels :
    {F : Type 0} (files : Files F) (c : Cipher) (laws : CipherLaws c) (s : Codec InlineUpload)
    (codec : CodecLaws s) (decode : Text → Option Text) (key id : Text) (t : ℕ) (rows : Rows)
    (f : F) (u : InlineUpload) (index : ℕ) (text bytes nonce : Text) (now later ceiling : ℕ)
    → now < t
    → Holds c laws s codec key rows inline_upload id t u
    → checked (decode (trim text)) index ≡ done bytes
    → ceiling < others index u.chunks + length bytes
    → let answer = chunk_within files c s decode key rows f id index text nonce now ceiling in
      (answer.0 ≡ refused (ticket past_ceiling))
      × (get_ticket c s answer.1 key inline_upload id later ≡ ok none)
      × (answer.2 ≡ files.clear f (digest c inline_upload id))
unfolding chunk_within settle
over_ceiling_cancels files c laws s codec decode key id t rows f u index text bytes nonce now later
      ceiling early held e over =
    let edit = count_chunk ceiling index (length bytes) in
    let q =
      update_of_refused c laws s codec key inline_upload id t now early rows u nonce edit
        past_ceiling held (count_chunk-over ceiling index (length bytes) u over) in
    let counted = ap (λ o. chunk_of files c s decode key rows f id index nonce now ceiling o) e in
    let cancelled = counted ∙ ap (λ p. settle files c s decode key f id index bytes now p) q in
    let (taken, spent) =
      take_held c laws s codec key inline_upload id t now later rows u early held in
    (
      ap (λ r. r.0) cancelled,
      ap (λ r. get_ticket c s r.1 key inline_upload id later) cancelled ∙ spent,
      ap (λ r. r.2) cancelled,
    )
