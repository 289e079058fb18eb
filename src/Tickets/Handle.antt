-- ===== src/Tickets/Handle.antt =====
-- src/state/tickets.rs, `Tickets`: the handle that mints and redeems tickets on the memory store. It
-- hashes ids, seals payloads under its key and reads the clock. The hash, the cipher and the encoding
-- of payloads are other people's code: parameters, with what the handle relies on in `CipherLaws` and
-- `CodecLaws`. Ids, nonces and the time are arguments of each call. The time to live is a number of
-- seconds and the nanoseconds beyond; every caller's is some minutes, and the sum is not wrapped.
use toolsite.Common.{
  ℕ, ◌+◌, ◌≡◌, ◌≢◌, Bool, true, false, Option, none, some, ◌∷◌, ◌++◌, ltb, if◌then◌else◌, Text,
  length, take as take_first, drop, lookup, filter_option,
}
use toolsite.Tickets.{
  Kind, name, Row, Rows, Result, ok, err, not_sealed, too_short, not_opened, not_encoded,
  not_expected, Failure, counts, put, get, take, update, expire, live_count,
}

-- SHA-256 in hexadecimal, and XChaCha20-Poly1305: key, nonce, associated data, text.
pub record Cipher : Type 0 where
  pub hash : Text → Text
  pub encrypt : Text → Text → Text → Text → Option Text
  pub decrypt : Text → Text → Text → Text → Option Text

pub record CipherLaws (c : Cipher) : Type 0 where
  pub hash_injective : (a b : Text) → c.hash a ≡ c.hash b → a ≡ b
  pub decrypt-encrypt :
      (key nonce aad m s : Text)
      → c.encrypt key nonce aad m ≡ some s
      → c.decrypt key nonce aad s ≡ some m
  pub authentic :
      (key nonce aad aad' m s : Text)
      → c.encrypt key nonce aad m ≡ some s
      → aad ≢ aad'
      → c.decrypt key nonce aad' s ≡ none

-- `serde_json::to_vec` and `from_slice`, at one type of payload.
pub record Codec (T : Type 0) : Type 0 where
  pub encode : T → Option Text
  pub decode : Text → Option T

pub record CodecLaws {T : Type 0} (s : Codec T) : Type 0 where
  pub decode-encode : (x : T) (m : Text) → s.encode x ≡ some m → s.decode m ≡ some x

abbrev pub or_err : {A : Type 0} → Failure → Option A → Result A
or_err e none = err e
or_err e (some a) = ok a

infixl 5 ◌>>=◌
abbrev pub ◌>>=◌ : {A B : Type 0} → Result A → (A → Result B) → Result B
ok a >>= f = f a
err e >>= f = err e

module _ {R : Type 0} where
  -- The slot after the store ran the closure on a live row, or did not run it.
  abbrev slot_of :
      Option Row → (Text → Option (Result R) × Result (Option Text)) → Option (Result R)
  slot_of none closure = none
  slot_of (some row) closure = (closure row.sealed).0

  -- `match (found, outcome)`.
  abbrev settle : Bool → Option (Result R) → Result (Option R)
  settle false outcome = ok none
  settle true none = ok none
  settle true (some (ok result)) = ok (some result)
  settle true (some (err why)) = err why

  abbrev settle_found : Result Bool → Option (Result R) → Result (Option R)
  settle_found (err e) outcome = err e
  settle_found (ok found) outcome = settle found outcome

  -- `store.update`, and what its answer and the slot come to.
  unfoldable pub update_through :
      Rows
      → Text
      → Text
      → ℕ
      → (Text → Option (Result R) × Result (Option Text))
      → Result (Option R) × Rows
  update_through rows kind at now closure =
      let live = filter_option (counts kind now) (lookup at rows) in
      let (found, rows') = update rows kind at now (λ stored. (closure stored).1) in
      (settle_found found (slot_of live closure), rows')

module _ (c : Cipher) where
  -- The kind is part of what is hashed, behind a byte that no kind's name holds.
  unfoldable pub digest : Kind → Text → Text
  digest kind id = c.hash (name kind ++ 0 ∷ id)

  unfoldable pub seal : Text → Text → Text → Text → Result Text
  seal key digest nonce plain = do
    sealed ← or_err not_sealed (c.encrypt key nonce digest plain)
    ok (nonce ++ sealed)

  module _ {T : Type 0} (s : Codec T) where
    unfoldable pub open_sealed : Text → Text → Text → Result T
    open_sealed key digest stored = if ltb (length stored) 24 then err too_short else (do
      plain ← or_err not_opened (c.decrypt key (take_first 24 stored) digest (drop 24 stored))
      or_err not_expected (s.decode plain))

    unfoldable pub seal_payload : Text → Text → Text → T → Result Text
    unfolding seal
    seal_payload key digest nonce payload = do
      plain ← or_err not_encoded (s.encode payload)
      seal key digest nonce plain

    abbrev pub minted : Kind → Text → Text → ℕ → ℕ → ℕ → Row
    minted kind digest sealed seconds nanos at = record {
      kind = name kind;
      digest = digest;
      sealed = sealed;
      expires_at = at + seconds + (if ltb 0 nanos then 1 else 0);
    }

    -- What `put` does with a payload that was sealed, or not.
    abbrev put_sealed : Rows → Kind → ℕ → ℕ → Text → ℕ → Result Text → Result Text × Rows
    put_sealed rows kind seconds nanos id at (err e) = (err e, rows)
    put_sealed rows kind seconds nanos id at (ok sealed) =
        (ok id, put rows (minted kind (digest kind id) sealed seconds nanos at) at)

    unfoldable pub put_ticket :
        Rows → Text → Kind → ℕ → ℕ → T → Text → Text → ℕ → Result Text × Rows
    unfolding digest seal_payload
    put_ticket rows key kind seconds nanos payload id nonce at =
        put_sealed rows kind seconds nanos id at (seal_payload key (digest kind id) nonce payload)

    -- `Some(stored) => self.open(..).map(Some), None => Ok(None)`.
    abbrev pub open_found : Text → Text → Option Text → Result (Option T)
    open_found key digest none = ok none
    open_found key digest (some stored) = do
      payload ← open_sealed key digest stored
      ok (some payload)

    unfoldable pub get_ticket : Rows → Text → Kind → Text → ℕ → Result (Option T)
    unfolding digest open_sealed
    get_ticket rows key kind id now =
        open_found key (digest kind id) (get rows (name kind) (digest kind id) now)

    unfoldable pub take_ticket : Rows → Text → Kind → Text → ℕ → Result (Option T) × Rows
    unfolding digest open_sealed
    take_ticket rows key kind id now =
        let (stored, rows') = take rows (name kind) (digest kind id) now in
        (open_found key (digest kind id) stored, rows')

    module _ {R : Type 0} where
      -- What the caller's edit came to, sealed again: what the closure leaves in its slot, and
      -- what it returns to the store.
      abbrev reseal : Text → Text → Text → Result (R × T) → Option (Result R) × Result (Option Text)
      reseal key digest nonce (err why) = (some (err why), ok none)
      reseal key digest nonce (ok (result, payload)) =
          elim (seal_payload key digest nonce payload) [
            | err e ↦ (none, err e)
            | ok sealed ↦ (some (ok result), ok (some sealed))
          ]

      unfoldable pub edit_sealed :
          Text
          → Text
          → Text
          → (T → Result (R × T))
          → Text
          → Option (Result R) × Result (Option Text)
      unfolding open_sealed seal_payload
      edit_sealed key digest nonce edit stored = elim (open_sealed key digest stored) [
        | err e ↦ (none, err e)
        | ok payload ↦ reseal key digest nonce (edit payload)
      ]

      unfoldable pub update_ticket :
          Rows → Text → Kind → Text → Text → ℕ → (T → Result (R × T)) → Result (Option R) × Rows
      unfolding digest
      update_ticket rows key kind id nonce now edit =
          let at = digest kind id in
          update_through rows (name kind) at now (edit_sealed key at nonce edit)

  unfoldable pub live : Rows → Kind → ℕ → ℕ
  live rows kind now = live_count rows (name kind) now

  unfoldable pub expire_ticket : Rows → Kind → Text → Bool × Rows
  unfolding digest
  expire_ticket rows kind id = expire rows (digest kind id)
