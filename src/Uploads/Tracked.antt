-- ===== src/Uploads/Tracked.antt =====
-- What a ticket and the pieces hold of the chunks that arrived (src/platform/inline_upload.rs).
use toolsite.Common.{
  ℕ, ◌+◌, ◌≤◌, ◌<◌, ◌≡◌, ◌≢◌, refl, sym, subst, ◌∙◌, ap, inl, inr, ◌⊎◌, Option, none, some, map,
  ltb, ◌==◌, if◌then◌else◌, arith, Bool-cases, Text, length, map_option, trim,
}
use toolsite.Tickets.{inline_upload, Rows, Result, ok, err, Failure, edit_refused}
use toolsite.Tickets.Handle.{
  Cipher, CipherLaws, Codec, CodecLaws, digest, seal_payload, update_ticket,
}
use toolsite.Tickets.Edits.{Holds, update-Holds, update_of_refused}
use toolsite.Uploads.{
  Files, FilesLaws, Sizes, size_at, set_size, total, others, InlineUpload, Progress, Outcome, done,
  refused, past_ceiling, count_chunk, checked, chunk_within, chunk_of, settle, max_chunks,
}
use toolsite.Uploads.Sizes.{IsRising, size_at-set_size, set_size-IsRising, total-set_size}

-- One call of `chunk`: the text that it brings, and with what nonce and when it comes.
pub record Call : Type 0 where
  pub index : ℕ
  pub text : Text
  pub nonce : Text
  pub at : ℕ

-- By index, what was brought last.
abbrev pub Brought : Type 0
Brought = ℕ → Option Text

checked-done :
    (o : Option Text) (index : ℕ) (bytes : Text)
    → checked o index ≡ done bytes
    → (o ≡ some bytes) × (index < max_chunks)
unfolding checked
checked-done none index bytes h = cc
checked-done (some b) index bytes h = ground arith

module _ {F : Type 0} (files : Files F) (fl : FilesLaws files) (c : Cipher) (laws : CipherLaws c)
    (s : Codec InlineUpload) (codec : CodecLaws s) (decode : Text → Option Text) (key : Text)
    (id : Text) (t ceiling : ℕ) (upload : InlineUpload)
    (seals : (nonce : Text) (ch : Sizes)
      → length nonce ≡ 24
      → (stored : Text) × (seal_payload c s key
            (digest c inline_upload id)
            nonce
            (record upload { chunks = ch })
          ≡ ok stored)) where
  abbrev pub spool : Text
  spool = digest c inline_upload id

  abbrev pub run_chunk : Rows → F → Call → Outcome Progress × Rows × F
  run_chunk rows f call =
      chunk_within files c s decode key rows f id call.index call.text call.nonce call.at ceiling

  -- The ticket holds the sizes of what was brought, and the pieces are stored.
  pub record Tracks (rows : Rows) (f : F) (u : InlineUpload) (m : Brought) : Type 0 where
    pub own : u ≡ record upload { chunks = u.chunks }
    pub held : Holds c laws s codec key rows inline_upload id t u
    pub rising : IsRising u.chunks
    pub within : total u.chunks ≤ ceiling
    pub sizes : (i : ℕ) → size_at i u.chunks ≡ map_option (λ b. length b) (m i)
    pub stored : (i : ℕ) (b : Text) → m i ≡ some b → files.read f (spool) i ≡ some (some b)

  settle-err :
      (f : F) (index : ℕ) (bytes : Text) (now : ℕ) (e : Failure) (rows : Rows) (progress : Progress)
      → (settle files c s decode key f id index bytes now (err e, rows)).0 ≢ done progress
  unfolding settle
  settle-err f index bytes now (edit_refused why) rows progress h = cc
  settle-err f index bytes now e rows progress h = cc

  settle-done :
      (f : F) (index : ℕ) (bytes : Text) (now : ℕ) (p : Result (Option Progress) × Rows)
      (progress : Progress)
      → (settle files c s decode key f id index bytes now p).0 ≡ done progress
      → (p.0 ≡ ok (some progress))
        × ((settle files c s decode key f id index bytes now p).1 ≡ p.1)
        × (files.put f (spool) index bytes
            ≡ some (settle files c s decode key f id index bytes now p).2)
  unfolding settle
  settle-done f index bytes now (ok (some q), rows) progress h = ground arith
  settle-done f index bytes now (ok none, rows) progress h = cc
  settle-done f index bytes now (err e, rows) progress h =
      absurd (settle-err f index bytes now e rows progress h)

  abbrev pub bring : Brought → Call → Brought
  bring m call i = if call.index == i then decode (trim call.text) else m i

  abbrev pub counted : InlineUpload → ℕ → ℕ → InlineUpload
  counted u index size = record u { chunks = set_size index size u.chunks }

  -- The upload after a chunk that was counted and stored.
  module _ (rows : Rows) (f : F) (call : Call) (u : InlineUpload) (m : Brought)
      (tracks : Tracks rows f u m) (bytes : Text) (brings : decode (trim call.text) ≡ some bytes)
      (f' : F) (kept : files.put f (spool) call.index bytes ≡ some f') where
    counted-sizes :
        (i : ℕ)
        → size_at i (counted u call.index (length bytes)).chunks
          ≡ map_option (λ b. length b) (bring m call i)
    counted-sizes i =
        ground (arith, size_at-set_size call.index (length bytes) i u.chunks, tracks.sizes i)

    counted-stored :
        (i : ℕ) (b : Text) → bring m call i ≡ some b → files.read f' (spool) i ≡ some (some b)
    counted-stored i b h = elim (Bool-cases (call.index == i)) [
      | inl e ↦
          let q : call.index ≡ i = ground arith in
          let b' : bytes ≡ b = ground arith in
          subst (λ x. files.read f' spool i ≡ some (some x)) b'
            (subst (λ x. files.read f' spool x ≡ some (some bytes)) q
              (fl.read-put_self f f' _ call.index bytes kept))
      | inr n ↦
          fl.read-put_other f f' _ call.index i bytes kept (ground arith)
          ∙ tracks.stored i b (ground arith)
    ]

  module _ (rows : Rows) (f : F) (call : Call) (u : InlineUpload) (m : Brought)
      (tracks : Tracks rows f u m) (early : call.at < t) (n : length call.nonce ≡ 24)
      (progress : Progress) where
    abbrev edit_of : Text → InlineUpload → Result (Progress × InlineUpload)
    edit_of bytes = count_chunk ceiling call.index (length bytes)

    abbrev updated : Text → Result (Option Progress) × Rows
    updated bytes = update_ticket c s rows key inline_upload id call.nonce call.at (edit_of bytes)

    counts_within :
        (bytes : Text)
        → (edit_of bytes u ≡ err past_ceiling)
          ⊎ ((r : Progress) × (edit_of bytes u ≡ ok (r, counted u call.index (length bytes)))
              × (total (counted u call.index (length bytes)).chunks ≤ ceiling))
    unfolding count_chunk
    counts_within bytes =
        elim (Bool-cases (ltb ceiling (others call.index u.chunks + length bytes))) [
          | inl over ↦ inl (rw over refl)
          | inr fits ↦ inr (
            record {
              received = total (counted u call.index (length bytes)).chunks;
              present = map (λ e. e.0) (counted u call.index (length bytes)).chunks;
            },
            rw fits refl,
            ground (arith, total-set_size call.index (length bytes) u.chunks tracks.rising),
          )
        ]

    abbrev settled : Text → Outcome Progress × Rows × F
    settled bytes = settle files c s decode key f id call.index bytes call.at (updated bytes)

    settled-Tracks :
        (bytes : Text)
        → decode (trim call.text) ≡ some bytes
        → (settled bytes).0 ≡ done progress
        → Tracks
            (settled bytes).1
            (settled bytes).2
            (counted u call.index (length bytes))
            (bring m call)
    settled-Tracks bytes brings h = elim (counts_within bytes) [
      | inl over ↦
          let q =
            update_of_refused c laws s codec key inline_upload id t call.at early rows u call.nonce
              (edit_of bytes) past_ceiling tracks.held over in
          absurd (
            settle-err f call.index bytes call.at past_ceiling rows progress (
              ap (λ p. (settle files c s decode key f id call.index bytes call.at p).0) (sym q)
              ∙ h))
      | inr (r, e, fits) ↦
          let u' = counted u call.index (length bytes) in
          let own' : u' ≡ record upload { chunks = u'.chunks } =
            ap (λ x. counted x call.index (length bytes)) tracks.own in
          let (z, sealed) = seals call.nonce u'.chunks n in
          let q =
            subst (λ x. seal_payload c s key (digest c inline_upload id) call.nonce x ≡ ok z)
              (sym own') sealed in
          let (a, k) =
            update-Holds c laws s codec key inline_upload id t call.at early rows u call.nonce
              (edit_of bytes) r u' z tracks.held e n q in
          let (q0, q1, q2) = settle-done f call.index bytes call.at (updated bytes) progress h in
          record {
            own = own';
            held = subst (λ x. Holds c laws s codec key x inline_upload id t u') (sym q1) k;
            rising = set_size-IsRising call.index (length bytes) u.chunks tracks.rising;
            within = fits;
            sizes = counted-sizes rows f call u m tracks bytes brings _ q2;
            stored = counted-stored rows f call u m tracks bytes brings _ q2;
          }
    ]

    pub run_chunk-Tracks :
        (run_chunk rows f call).0 ≡ done progress
        → (n : ℕ) × Tracks
            (run_chunk rows f call).1
            (run_chunk rows f call).2
            (counted u call.index n)
            (bring m call)
    unfolding chunk_within
    run_chunk-Tracks h = from_checked (checked (decode (trim call.text)) call.index) refl h
      where
        from_checked :
            (o : Outcome Text)
            → checked (decode (trim call.text)) call.index ≡ o
            → (chunk_of files c s decode key rows f id call.index call.nonce call.at ceiling o).0
              ≡ done progress
            → (n : ℕ) × Tracks
                (chunk_of files c s decode key rows f id call.index call.nonce call.at ceiling o).1
                (chunk_of files c s decode key rows f id call.index call.nonce call.at ceiling o).2
                (counted u call.index n)
                (bring m call)
        from_checked (refused why) e h = absurd (let z : ⊥ = cc in z)
        from_checked (done bytes) e h = (
          length bytes,
          settled-Tracks bytes (checked-done (decode (trim call.text)) call.index bytes e).0 h,
        )
