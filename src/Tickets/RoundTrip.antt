-- ===== src/Tickets/RoundTrip.antt =====
-- What comes back from the tickets of src/state/tickets.rs: what was put in, for the id and the kind
-- that it was put in for, and nothing else.
use toolsite.Common.{
  ℕ, ◌+◌, ◌<◌, ◌≡◌, ◌≢◌, refl, sym, ap, ◌∙◌, Option, none, some, List, [], ◌∷◌, ◌++◌, arith, ltb,
  if◌then◌else◌, Text, text_discrete, same, length, length-append, take-append, drop-append, All,
  ◌⊎◌, lookup, lookup-remove, Distinct, Option-cases, inl, inr,
}
use toolsite.Tickets.{
  Kind, upload, settings_link, inline_upload, blob_upload, login, preview, handoff, name, Row, Rows,
  Failure, Result, ok, err, not_opened, put, get, take,
}
use toolsite.Tickets.Store.{
  Call, subject, step, run, lookup-put, lookup-step-other, step-Distinct, puts,
}
use toolsite.Tickets.Handle.{
  Cipher, CipherLaws, Codec, CodecLaws, digest, open_sealed, seal_payload, put_ticket, get_ticket,
  take_ticket, minted,
}

Result-cases : {A : Type 0} (r : Result A) → ((e : Failure) × (r ≡ err e)) ⊎ ((a : A) × (r ≡ ok a))
Result-cases (ok a) = inr (a, refl)
Result-cases (err e) = inl (e, refl)

-- A byte 0 ends the name of a kind.
name-split :
    (a b : Text) (xs ys : Text)
    → All (λ x. x ≢ 0) a
    → All (λ x. x ≢ 0) b
    → a ++ 0 ∷ xs ≡ b ++ 0 ∷ ys
    → (a ≡ b) × (xs ≡ ys)
name-split [] [] xs ys h k e = (refl, ground arith)
name-split [] (y ∷ b) xs ys h k e = absurd (k.0 (ground arith))
name-split (x ∷ a) [] xs ys h k e = absurd (h.0 (ground arith))
name-split (x ∷ a) (y ∷ b) xs ys h k e =
    let (p, q) = name-split a b xs ys h.1 k.1 (ground arith) in (ground arith, q)

name-NoZero : (kind : Kind) → All (λ x. x ≢ 0) (name kind)
name-NoZero upload = omega arith
name-NoZero settings_link = omega arith
name-NoZero inline_upload = omega arith
name-NoZero blob_upload = omega arith
name-NoZero login = omega arith
name-NoZero preview = omega arith
name-NoZero handoff = omega arith

-- The kind that a name is of.
kind_of : Text → Kind
kind_of t =
    if same t (name upload)
    then upload
    else if same t (name settings_link)
    then settings_link
    else if same t (name inline_upload)
    then inline_upload
    else if same t (name blob_upload)
    then blob_upload
    else if same t (name login)
    then login
    else if same t (name preview)
    then preview
    else handoff

kind_of-name : (kind : Kind) → kind_of (name kind) ≡ kind
unfolding kind_of text_discrete
kind_of-name upload = refl
kind_of-name settings_link = refl
kind_of-name inline_upload = refl
kind_of-name blob_upload = refl
kind_of-name login = refl
kind_of-name preview = refl
kind_of-name handoff = refl

name-injective : (a b : Kind) → name a ≡ name b → a ≡ b
name-injective a b e = sym (kind_of-name a) ∙ ap kind_of e ∙ kind_of-name b

module _ (c : Cipher) (laws : CipherLaws c) where
  -- Where the hash has no collision, two tickets with one digest are of one kind and have one id: an
  -- id minted as one kind is never found as another.
  pub digest_injective :
      (kind kind' : Kind) (id id' : Text)
      → digest c kind id ≡ digest c kind' id'
      → (kind ≡ kind') × (id ≡ id')
  unfolding digest
  digest_injective kind kind' id id' e =
      let (p, q) =
        name-split (name kind) (name kind') id id' (name-NoZero kind) (name-NoZero kind')
          (laws.hash_injective _ _ e) in
      (name-injective kind kind' p, q)

  module _ {T : Type 0} (s : Codec T) (codec : CodecLaws s) (key : Text) where
    pub open-seal :
        (at nonce : Text) (payload : T) (stored : Text)
        → length nonce ≡ 24
        → seal_payload c s key at nonce payload ≡ ok stored
        → open_sealed c s key at stored ≡ ok payload
    unfolding open_sealed seal_payload
    open-seal at nonce payload stored n e = elim (Option-cases (s.encode payload)) [
      | inl x ↦ ground arith
      | inr (m, x) ↦ elim (Option-cases (c.encrypt key nonce at m)) [
        | inl y ↦ ground arith
        | inr (z, y) ↦ ground (
          arith,
          laws.decrypt-encrypt key nonce at m z y,
          codec.decode-encode payload m x,
          take-append nonce z,
          drop-append nonce z,
          length-append nonce z,
        )
      ]
    ]

    -- A payload that was sealed for one ticket and copied to the row of another does not open.
    pub moved_payload :
        (at at' nonce : Text) (payload : T) (stored : Text)
        → length nonce ≡ 24
        → at ≢ at'
        → seal_payload c s key at nonce payload ≡ ok stored
        → open_sealed c s key at' stored ≡ err not_opened
    unfolding open_sealed seal_payload
    moved_payload at at' nonce payload stored n d e = elim (Option-cases (s.encode payload)) [
      | inl x ↦ ground arith
      | inr (m, x) ↦ elim (Option-cases (c.encrypt key nonce at m)) [
        | inl y ↦ ground arith
        | inr (z, y) ↦ ground (
          arith,
          laws.authentic key nonce at at' m z y d,
          take-append nonce z,
          drop-append nonce z,
          length-append nonce z,
        )
      ]
    ]

    -- The row of a ticket that lives until `t`, with what is sealed in it.
    abbrev pub IsMinted : Kind → Text → Text → ℕ → Option Row → Type 0
    IsMinted kind id stored t none = ⊥
    IsMinted kind id stored t (some row) =
        (row.kind ≡ name kind) × (row.sealed ≡ stored) × (row.expires_at ≡ t)

    -- A call before `t` on other tickets, or one that only reads.
    abbrev pub Spares : Kind → Text → ℕ → ℕ × Call → Type 0
    Spares kind id t (now, call) = (now < t) × (subject call ≢ some (digest c kind id))

    run-IsMinted :
        (kind : Kind) (id stored : Text) (t : ℕ) (rows : Rows) (cs : List (ℕ × Call))
        → Distinct rows
        → All (Spares kind id t) cs
        → IsMinted kind id stored t (lookup (digest c kind id) rows)
        → IsMinted kind id stored t (lookup (digest c kind id) (run rows cs))
    unfolding run
    run-IsMinted kind id stored t rows [] d h m = m
    run-IsMinted kind id stored t rows ((now, call) ∷ cs) d h m =
        run-IsMinted kind id stored t (step rows (now, call)) cs (step-Distinct rows (now, call) d)
          h.1 (minted_step (lookup (digest c kind id) rows) refl m)
      where
        minted_step :
            (o : Option Row)
            → lookup (digest c kind id) rows ≡ o
            → IsMinted kind id stored t o
            → IsMinted kind id stored t (lookup (digest c kind id) (step rows (now, call)))
        minted_step none e m = absurd m
        minted_step (some row) e m =
            rw
              (lookup-step-other rows now call (digest c kind id) row d h.0.1 e
                (ground (arith, h.0.0)))
              m

    redeem :
        (kind : Kind) (id : Text) (t : ℕ) (payload : T) (rows : Rows) (stored : Text)
        (now later : ℕ)
        → now < t
        → open_sealed c s key (digest c kind id) stored ≡ ok payload
        → IsMinted kind id stored t (lookup (digest c kind id) rows)
        → (get_ticket c s rows key kind id now ≡ ok (some payload))
          × ((take_ticket c s rows key kind id now).0 ≡ ok (some payload))
          × (get_ticket c s (take_ticket c s rows key kind id now).1 key kind id later ≡ ok none)
    unfolding get_ticket take_ticket get take
    redeem kind id t payload rows stored now later l o m =
        ground (arith, o, lookup-remove {V = Row} (digest c kind id) (digest c kind id) rows)

    module _ (rows after : Rows) (kind : Kind) (seconds nanos : ℕ) (payload : T) (id nonce : Text)
        (at : ℕ) (d : Distinct rows) (n : length nonce ≡ 24)
        (e : put_ticket c s rows key kind seconds nanos payload id nonce at ≡ (ok id, after)) where
      abbrev pub ends_at : ℕ
      ends_at = at + seconds + (if ltb 0 nanos then 1 else 0)

      pub put-IsMinted :
          (stored : Text) × (seal_payload c s key (digest c kind id) nonce payload ≡ ok stored)
          × IsMinted kind id stored ends_at (lookup (digest c kind id) after)
          × Distinct after
      unfolding put_ticket step
      put-IsMinted = elim (Result-cases (seal_payload c s key (digest c kind id) nonce payload)) [
        | inl (f, x) ↦ absurd (ground (arith, x))
        | inr (z, x) ↦
            let row : Row = minted c s kind (digest c kind id) z seconds nanos at in
            let q : put rows row at ≡ after = ground (arith, x) in
            (
              z,
              x,
              rw (← q) (ground (arith, lookup-put rows row at (digest c kind id) d)),
              rw (← q) (step-Distinct rows (at, puts row) d),
            )
      ]

      -- A ticket is redeemed as it was minted: after any calls on other tickets, with all that these
      -- sweep, and before its time is up, `get` and `take` give the payload that `put` was given;
      -- and after the `take` there is nothing to get.
      pub redeemed_as_minted :
          (cs : List (ℕ × Call)) (now later : ℕ)
          → All (Spares kind id ends_at) cs
          → now < ends_at
          → (get_ticket c s (run after cs) key kind id now ≡ ok (some payload))
            × ((take_ticket c s (run after cs) key kind id now).0 ≡ ok (some payload))
            × (get_ticket c s (take_ticket c s (run after cs) key kind id now).1 key kind id later
                ≡ ok none)
      unfolding get_ticket take_ticket get take
      redeemed_as_minted cs now later h l =
          let (z, x, m, d') = put-IsMinted in
          redeem kind id ends_at payload (run after cs) z now later l
            (open-seal (digest c kind id) nonce payload z n x)
            (run-IsMinted kind id z ends_at after cs d' h m)
