-- ===== src/Tickets/Edits.antt =====
-- Changing a live ticket in place (src/state/tickets.rs, `Tickets::update`): an inline upload counts
-- its chunks so.
use toolsite.Common.{
  ltb, if◌then◌else◌, ℕ, ◌<◌, ◌≡◌, true, Option, none, some, arith, Text, length, lookup, modify,
  lookup-modify, lookup-remove, Option-cases, inl, inr, ap, sym, ◌∙◌, subst,
}
use toolsite.Tickets.{
  Kind, name, Row, Rows, Result, Failure, ok, err, get, take, update, counts, set_sealed,
}
use toolsite.Tickets.Handle.{
  Cipher, CipherLaws, Codec, CodecLaws, digest, open_sealed, seal_payload, get_ticket, take_ticket,
  update_ticket, update_through, edit_sealed,
}
use toolsite.Tickets.RoundTrip.{open-seal}

module _ (c : Cipher) (laws : CipherLaws c) {T : Type 0} (s : Codec T) (codec : CodecLaws s)
    (key : Text) where
  -- A live ticket of the kind and id, which holds `x` until `t`.
  abbrev pub HoldsIn : Kind → Text → ℕ → T → Option Row → Type 0
  HoldsIn kind id t x none = ⊥
  HoldsIn kind id t x (some row) =
      (row.kind ≡ name kind)
      × (row.expires_at ≡ t)
      × (open_sealed c s key (digest c kind id) row.sealed ≡ ok x)

  abbrev pub Holds : Rows → Kind → Text → ℕ → T → Type 0
  Holds rows kind id t x = HoldsIn kind id t x (lookup (digest c kind id) rows)

  get_held :
      (kind : Kind) (id : Text) (t now : ℕ) (rows : Rows) (x : T)
      → now < t
      → Holds rows kind id t x
      → get_ticket c s rows key kind id now ≡ ok (some x)
  unfolding get_ticket get
  get_held kind id t now rows x live h = ground arith

  pub take_held :
      (kind : Kind) (id : Text) (t now later : ℕ) (rows : Rows) (x : T)
      → now < t
      → Holds rows kind id t x
      → ((take_ticket c s rows key kind id now).0 ≡ ok (some x))
        × (get_ticket c s (take_ticket c s rows key kind id now).1 key kind id later ≡ ok none)
  unfolding take_ticket take get_ticket get
  take_held kind id t now later rows x live h =
      ground (arith, lookup-remove {V = Row} (digest c kind id) (digest c kind id) rows)

  module _ {R : Type 0} (at nonce : Text) (edit : T → Result (R × T)) where
    edit_sealed-eq :
        (x : T) (held stored : Text) (r : R) (y : T)
        → open_sealed c s key at held ≡ ok x
        → edit x ≡ ok (r, y)
        → seal_payload c s key at nonce y ≡ ok stored
        → edit_sealed c s key at nonce edit held ≡ (some (ok r), ok (some stored))
    unfolding edit_sealed
    edit_sealed-eq x held stored r y o e q = ground arith

    edit_sealed_of_refused :
        (x : T) (held : Text) (why : Failure)
        → open_sealed c s key at held ≡ ok x
        → edit x ≡ err why
        → edit_sealed c s key at nonce edit held ≡ (some (err why), ok none)
    unfolding edit_sealed
    edit_sealed_of_refused x held why o e = ground arith

  module _ {R : Type 0} (kind at : Text) (now : ℕ) where
    update_through_of_edit :
        (rows : Rows) (closure : Text → Option (Result R) × Result (Option Text)) (row : Row)
        (r : R) (stored : Text)
        → lookup at rows ≡ some row
        → counts kind now row ≡ true
        → closure row.sealed ≡ (some (ok r), ok (some stored))
        → update_through rows kind at now closure
          ≡ (ok (some r), modify at (set_sealed stored) rows)
    unfolding update_through update
    update_through_of_edit rows closure row r stored f l e = ground arith

    update_through_of_refused :
        (rows : Rows) (closure : Text → Option (Result R) × Result (Option Text)) (row : Row)
        (why : Failure)
        → lookup at rows ≡ some row
        → counts kind now row ≡ true
        → closure row.sealed ≡ (some (err why), ok none)
        → update_through rows kind at now closure ≡ (err why, rows)
    unfolding update_through update
    update_through_of_refused rows closure row why f l e = ground arith

  lookup-modify_found :
      (at : Text) (f : Row → Row) (row : Row) (rows : Rows)
      → lookup at rows ≡ some row
      → lookup at (modify at f rows) ≡ some (f row)
  lookup-modify_found at f row rows e = ground (arith, lookup-modify at at f rows)

  module _ (kind : Kind) (id : Text) (t now : ℕ) (live : now < t) where
    row_of_Holds :
        (rows : Rows) (x : T)
        → Holds rows kind id t x
        → (row : Row) × (lookup (digest c kind id) rows ≡ some row)
          × (open_sealed c s key (digest c kind id) row.sealed ≡ ok x)
          × (row.kind ≡ name kind)
          × (row.expires_at ≡ t)
    row_of_Holds rows x h = elim (Option-cases (lookup (digest c kind id) rows)) [
      | inl e ↦ ground arith
      | inr (row, e) ↦ (row, e, ground arith, ground arith, ground arith)
    ]

    HoldsIn-sealed :
        (row : Row) (y : T) (nonce stored : Text)
        → row.kind ≡ name kind
        → row.expires_at ≡ t
        → length nonce ≡ 24
        → seal_payload c s key (digest c kind id) nonce y ≡ ok stored
        → HoldsIn kind id t y (some (set_sealed stored row))
    HoldsIn-sealed row y nonce stored k e n q =
        (k, e, open-seal c laws s codec key (digest c kind id) nonce y stored n q)

  module _ {R : Type 0} (kind : Kind) (id : Text) (t now : ℕ) (live : now < t) where
    -- One edit on a live ticket: its result is answered and its payload is what the ticket holds
    -- from then on, to the same end of its life.
    pub update-Holds :
        (rows : Rows) (x : T) (nonce : Text) (edit : T → Result (R × T)) (r : R) (y : T)
        (stored : Text)
        → Holds rows kind id t x
        → edit x ≡ ok (r, y)
        → length nonce ≡ 24
        → seal_payload c s key (digest c kind id) nonce y ≡ ok stored
        → ((update_ticket c s rows key kind id nonce now edit).0 ≡ ok (some r))
          × Holds (update_ticket c s rows key kind id nonce now edit).1 kind id t y
    unfolding update_ticket
    update-Holds rows x nonce edit r y stored h e n q =
        let at = digest c kind id in
        let (row, f, o, k, u) = row_of_Holds kind id t now live rows x h in
        let sealed = edit_sealed-eq at nonce edit x row.sealed stored r y o e q in
        let run =
          update_through_of_edit (name kind) at now rows (edit_sealed c s key at nonce edit) row r
            stored f (ground arith) sealed in
        let held = HoldsIn-sealed kind id t now live row y nonce stored k u n q in
        let after = lookup-modify_found at (set_sealed stored) row rows f in
        let found = ap (λ p. lookup at p.1) run ∙ after in
        (ap (λ p. p.0) run, subst (λ o. HoldsIn kind id t y o) (sym found) held)

    -- An edit that refuses leaves every ticket as it was, and its reason is answered.
    pub update_of_refused :
        (rows : Rows) (x : T) (nonce : Text) (edit : T → Result (R × T)) (why : Failure)
        → Holds rows kind id t x
        → edit x ≡ err why
        → update_ticket c s rows key kind id nonce now edit ≡ (err why, rows)
    unfolding update_ticket
    update_of_refused rows x nonce edit why h e =
        let at = digest c kind id in
        let (row, f, o, k, u) = row_of_Holds kind id t now live rows x h in
        update_through_of_refused (name kind) at now rows (edit_sealed c s key at nonce edit) row
          why f (ground arith) (edit_sealed_of_refused at nonce edit x row.sealed why o e)

  read_until :
      (kind : Kind) (id : Text) (t later : ℕ) (rows : Rows) (x : T)
      → Holds rows kind id t x
      → get_ticket c s rows key kind id later ≡ (if ltb later t then ok (some x) else ok none)
  unfolding get_ticket get
  read_until kind id t later rows x h = ground arith

  module _ {R : Type 0} (kind : Kind) (id : Text) (t now now' : ℕ) (live : now < t)
      (live' : now' < t) where
    -- Two edits while the ticket lives both land, in the order in which the store runs them: each
    -- answers its own result, the second sees the payload that the first left, and the ticket then
    -- reads as the second left it at any time before the end of the life that it had before both, and
    -- not at all from that end on.
    pub two_edits_land :
        (rows : Rows) (x : T) (nonce nonce' : Text) (f g : T → Result (R × T)) (r r' : R) (y z : T)
        (stored stored' : Text) (later : ℕ)
        → Holds rows kind id t x
        → f x ≡ ok (r, y)
        → g y ≡ ok (r', z)
        → length nonce ≡ 24
        → length nonce' ≡ 24
        → seal_payload c s key (digest c kind id) nonce y ≡ ok stored
        → seal_payload c s key (digest c kind id) nonce' z ≡ ok stored'
        → let (first, rows') = update_ticket c s rows key kind id nonce now f in
          let (second, rows'') = update_ticket c s rows' key kind id nonce' now' g in
          (first ≡ ok (some r))
          × (second ≡ ok (some r'))
          × (get_ticket c s rows'' key kind id later
              ≡ (if ltb later t then ok (some z) else ok none))
    two_edits_land rows x nonce nonce' f g r r' y z stored stored' later h e e' n n' q q' =
        let (a, k) = update-Holds kind id t now live rows x nonce f r y stored h e n q in
        let rows' : Rows = (update_ticket c s rows key kind id nonce now f).1 in
        let (b, l) = update-Holds kind id t now' live' rows' y nonce' g r' z stored' k e' n' q' in
        (a, b, read_until kind id t later (update_ticket c s rows' key kind id nonce' now' g).1 z l)
