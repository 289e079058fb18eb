-- ===== src/Uploads/Finished.antt =====
-- What a finished upload is of its chunks (src/platform/inline_upload.rs).
use toolsite.Common.{
  ℕ, ◌+◌, ◌≤◌, ◌<◌, ◌≡◌, refl, sym, ◌∙◌, ap, inl, inr, true, Option, none, some, List, [], ◌∷◌,
  arith, All, is_some, Option-cases, Text, length, Distinct, lookup,
}
use toolsite.Tickets.{inline_upload, Row, Rows, ok}
use toolsite.Tickets.Handle.{
  Cipher, CipherLaws, Codec, CodecLaws, digest, seal_payload, get_ticket, open_sealed,
}
use toolsite.Tickets.Edits.{HoldsIn, take_held}
use toolsite.Tickets.RoundTrip.{IsMinted, put-IsMinted, open-seal}
use toolsite.Uploads.{
  Files, FilesLaws, Sizes, size_at, total, missing_of, InlineUpload, Progress, Outcome, done,
  closed, finish, max_chunks, closed_if, begin, inline_ttl,
}
use toolsite.Uploads.Tracked.{Call, Brought, Tracks, run_chunk, run_chunk-Tracks, bring}
use toolsite.Uploads.Joined.{
  missing-nil, extra-nil, or_nothing, joined, AtLeast-0, total-joined, read_parts-joined, Covers,
}

module _ {F : Type 0} (files : Files F) (fl : FilesLaws files) (c : Cipher) (laws : CipherLaws c)
    (s : Codec InlineUpload) (codec : CodecLaws s) (decode : Text → Option Text) (key : Text)
    (id : Text) (t ceiling : ℕ) (upload : InlineUpload)
    (seals : (nonce : Text) (ch : Sizes)
      → length nonce ≡ 24
      → (stored : Text) × (seal_payload c s key
            (digest c inline_upload id)
            nonce
            (record upload { chunks = ch })
          ≡ ok stored)) where
  abbrev chunk_at : Rows → F → Call → Outcome Progress × Rows × F
  chunk_at = run_chunk files fl c laws s codec decode key id t ceiling upload seals

  -- The rows and the pieces after some chunks, one after the other.
  unfoldable pub arrive : Rows → F → List Call → Rows × F
  arrive rows f [] = (rows, f)
  arrive rows f (call ∷ calls) = let r = chunk_at rows f call in arrive r.1 r.2 calls

  -- Each is answered, as one that was kept.
  abbrev pub AllDone : Rows → F → List Call → Type 0
  AllDone rows f [] = Unit
  AllDone rows f (call ∷ calls) =
      ((progress : Progress) × ((chunk_at rows f call).0 ≡ done progress))
      × AllDone (chunk_at rows f call).1 (chunk_at rows f call).2 calls

  -- By index, the bytes that the last call for it brought.
  abbrev pub brought : Brought → List Call → Brought
  brought m [] = m
  brought m (call ∷ calls) =
      brought (bring files fl c laws s codec decode key id t ceiling upload seals m call) calls

  abbrev pub InTime : Call → Type 0
  InTime call = (call.at < t) × (length call.nonce ≡ 24)

  abbrev IsTracked : Rows → F → InlineUpload → Brought → Type 0
  IsTracked = Tracks files fl c laws s codec decode key id t ceiling upload seals

  arrive-Tracks :
      (calls : List Call) (rows : Rows) (f : F) (u : InlineUpload) (m : Brought)
      → IsTracked rows f u m
      → All InTime calls
      → AllDone rows f calls
      → (ch : Sizes) × IsTracked
          (arrive rows f calls).0
          (arrive rows f calls).1
          (record u { chunks = ch })
          (brought m calls)
  unfolding arrive
  arrive-Tracks [] rows f u m k e d = (u.chunks, k)
  arrive-Tracks (call ∷ calls) rows f u m k e d =
      let (n, k') =
        run_chunk-Tracks files fl c laws s codec decode key id t ceiling upload seals rows f call u
          m k e.0.0 e.0.1 d.0.0 d.0.1 in
      arrive-Tracks calls (chunk_at rows f call).1 (chunk_at rows f call).2 _ _ k' e.1 d.1

  -- The chunks are those at `0..count`.
  pub record IsWhole (m : Brought) (count : ℕ) : Type 0 where
    pub some_chunk : 0 < count
    pub not_too_many : count ≤ max_chunks
    pub there : (k : ℕ) → k < count → is_some (m k) ≡ true
    pub no_more : (k : ℕ) → count ≤ k → m k ≡ none

  module _ (rows : Rows) (f : F) (u : InlineUpload) (m : Brought) (k : IsTracked rows f u m)
      (count : ℕ) (w : IsWhole m count) where
    tracked-Covers : Covers m 0 count u.chunks
    tracked-Covers = record {
      rising = k.rising;
      from = AtLeast-0 u.chunks;
      there = λ i a b. w.there i (omega arith);
      same_size = λ i a. k.sizes i;
      ends = λ i a. w.no_more i (omega arith);
    }

    stored_here :
        (i : ℕ)
        → i < count
        → files.read f (digest c inline_upload id) i ≡ some (some (or_nothing (m i)))
    stored_here i l = elim (Option-cases (m i)) [
      | inl n ↦ absurd (let z : ⊥ = ground (arith, w.there i l) in z)
      | inr (b, e) ↦ k.stored i b e ∙ ap (λ o. some (some (or_nothing o))) (sym e)
    ]

    closed-joined : closed files f (digest c inline_upload id) count u ≡ done (u, joined m 0 count)
    unfolding closed missing_of
    closed-joined =
        let present =
          missing-nil 0 count u.chunks
            (λ i a b. ground (arith, k.sizes i, w.there i (omega arith))) in
        let none_past =
          extra-nil count u.chunks (λ i a. ground (arith, k.sizes i, w.no_more i a)) in
        let parts =
          read_parts-joined files f (digest c inline_upload id) m 0 count
            (λ i a b. stored_here i (omega arith)) in
        ground (arith, present, none_past, parts, w.some_chunk, w.not_too_many)

  minted-held :
      (o : Option Row) (z : Text) (ends : ℕ) (x : InlineUpload)
      → IsMinted c laws s codec key inline_upload id z ends o
      → ends ≡ t
      → open_sealed c s key (digest c inline_upload id) z ≡ ok x
      → HoldsIn c laws s codec key inline_upload id t x o
  minted-held none z ends x h e q = h
  minted-held (some row) z ends x h e q =
      (h.0, h.2 ∙ e, ap (λ y. open_sealed c s key (digest c inline_upload id) y) h.1 ∙ q)

  begun-Tracks :
      (rows : Rows) (f : F) (nonce : Text) (at : ℕ)
      → Distinct rows
      → length nonce ≡ 24
      → at + inline_ttl ≡ t
      → (begin files c s decode key rows f upload id nonce at).0 ≡ ok id
      → IsTracked
          (begin files c s decode key rows f upload id nonce at).1
          (begin files c s decode key rows f upload id nonce at).2
          (record upload { chunks = [] })
          (λ _. none)
  unfolding begin size_at total
  begun-Tracks rows f nonce at d n q h =
      let u = record upload { chunks = [] } in
      let after = (begin files c s decode key rows f upload id nonce at).1 in
      let (z, x, m, d') =
        put-IsMinted c laws s codec key rows after inline_upload inline_ttl 0 u id nonce at d n
          (ap (λ a. (a, after)) h) in
      record {
        own = refl;
        held =
            minted-held (lookup (digest c inline_upload id) after) z _ u m (omega (arith, q))
              (open-seal c laws s codec key (digest c inline_upload id) nonce u z n x);
        rising = tt;
        within = omega arith;
        sizes = λ i. refl;
        stored = λ i b e. absurd (let f : ⊥ = cc in f);
      }

  -- An upload is what its chunks brought: where it was begun, all its chunks were kept, one after the
  -- other in whatever order of their indexes and however often one came again, and they are those at
  -- `0..count`, then `finish`, as long as the ticket lives, answers the upload with the bytes that were
  -- brought last at each index, joined in order of the indexes. They are no more than the ceiling. The
  -- id is spent, and the store was told, last of all, to clear the pieces.
  pub finish-joins :
      (rows : Rows) (f : F) (nonce : Text) (at : ℕ)
      → Distinct rows
      → length nonce ≡ 24
      → at + inline_ttl ≡ t
      → (begin files c s decode key rows f upload id nonce at).0 ≡ ok id
      → (calls : List Call) → All InTime calls
      → AllDone
          (begin files c s decode key rows f upload id nonce at).1
          (begin files c s decode key rows f upload id nonce at).2
          calls
      → (count now later : ℕ) → now < t
      → IsWhole (brought (λ _. none) calls) count
      → let begun = begin files c s decode key rows f upload id nonce at in
        let arrived = arrive begun.1 begun.2 calls in
        let answer = finish files c s decode key arrived.0 arrived.1 id count now in
        let whole = joined (brought (λ _. none) calls) 0 count in
        ((ch : Sizes) × (answer.0 ≡ done (record upload { chunks = ch }, whole)))
        × (length whole ≤ ceiling)
        × (get_ticket c s answer.1 key inline_upload id later ≡ ok none)
        × (answer.2 ≡ files.clear arrived.1 (digest c inline_upload id))
  unfolding finish
  finish-joins rows f nonce at d n q h calls e a count now later l w =
      let begun = begin files c s decode key rows f upload id nonce at in
      let arrived = arrive begun.1 begun.2 calls in
      let m = brought (λ _. none) calls in
      let (ch, k) =
        arrive-Tracks calls begun.1 begun.2 (record upload { chunks = [] }) (λ _. none)
          (begun-Tracks rows f nonce at d n q h) e a in
      let u = record upload { chunks = ch } in
      let (taken, spent) =
        take_held c laws s codec key inline_upload id t now later arrived.0 u l k.held in
      let whole = closed-joined arrived.0 arrived.1 u m k count w in
      let size = total-joined m 0 count ch (tracked-Covers arrived.0 arrived.1 u m k count w) in
      let within = k.within in
      (
        (ch, ap (λ x. closed_if files arrived.1 (digest c inline_upload id) count x) taken ∙ whole),
        omega (arith, size, within),
        spent,
        refl,
      )
