-- ===== src/Hub/Ordering.antt =====
-- The order of what reaches one connection of src/runtime/connections.rs: what its own `connect` event
-- sends, then what was held for it, then what followed.
use toolsite.Common.{
  ◌≡◌, refl, Bool, true, false, Option, none, some, List, [], ◌∷◌, ◌++◌, arith, Text, ltb, length,
  sym, ap, ◌∙◌, map_option, subst, Bool-cases, inl, inr, Option-cases,
}
use toolsite.Hub.{Channel, ChannelLaws, Outgoing, SocketAddr, Connection}
use toolsite.Hub.Operations.{offer, offer_to, sent_or_cut, accepted, send_all, fresh_connection}
use mathlib.Core.List.{append_assoc, append-nil}

-- What happens to a connection: a message is sent to it, by its own `connect` event or by another,
-- or its transport takes one.
pub data Event : Type 0 where
  own other : Outgoing → Event
  received : Event

-- What the `connect` event sent, what others sent, and both.
abbrev pub own_of : List Event → List Outgoing
own_of [] = []
own_of (own out ∷ es) = out ∷ own_of es
own_of (other out ∷ es) = own_of es
own_of (received ∷ es) = own_of es

abbrev pub others_of : List Event → List Outgoing
others_of [] = []
others_of (own out ∷ es) = others_of es
others_of (other out ∷ es) = out ∷ others_of es
others_of (received ∷ es) = others_of es

abbrev pub all_of : List Event → List Outgoing
all_of [] = []
all_of (own out ∷ es) = out ∷ all_of es
all_of (other out ∷ es) = out ∷ all_of es
all_of (received ∷ es) = all_of es

own_of-cons : (e : Event) (es : List Event) → own_of (e ∷ es) ≡ own_of (e ∷ []) ++ own_of es
own_of-cons (own out) es = refl
own_of-cons (other out) es = refl
own_of-cons received es = refl

others_of-cons :
    (e : Event) (es : List Event) → others_of (e ∷ es) ≡ others_of (e ∷ []) ++ others_of es
others_of-cons (own out) es = refl
others_of-cons (other out) es = refl
others_of-cons received es = refl

all_of-cons : (e : Event) (es : List Event) → all_of (e ∷ es) ≡ all_of (e ∷ []) ++ all_of es
all_of-cons (own out) es = refl
all_of-cons (other out) es = refl
all_of-cons received es = refl

module _ {Q : Type 0} (ch : Channel Q) where
  abbrev pub happens : Connection Q → Event → Connection Q
  happens c (own out) = (offer ch c true out).1
  happens c (other out) = (offer ch c false out).1
  happens c received = record c { tx = map_option ch.receive c.tx }

  unfoldable pub after : Connection Q → List Event → Connection Q
  after c [] = c
  after c (e ∷ es) = after (happens c e) es

  -- What the queue was given and what is held, until the sender is gone.
  abbrev Stands : Option Q → Option (List Outgoing) → List Outgoing → List Outgoing → Type 0
  Stands none held s h = held ≡ none
  Stands (some q) held s h = (held ≡ some h) × (ch.sent q ≡ s)

  abbrev StandsAt : Connection Q → List Outgoing → List Outgoing → Type 0
  StandsAt c s h = Stands c.tx c.held s h

  module _ (laws : ChannelLaws ch) where
    sent_or_cut-StandsAt :
        (c : Connection Q) (tx : Q) (out : Outgoing) (h : List Outgoing) (o : Option Q)
        → ch.send tx out ≡ o
        → c.held ≡ some h
        → StandsAt (sent_or_cut ch c o).1 (ch.sent tx ++ out ∷ []) h
    sent_or_cut-StandsAt c tx out h none e k = refl
    sent_or_cut-StandsAt c tx out h (some q) e k = (k, laws.sent-send tx q out e)

    own_to-StandsAt :
        (c : Connection Q) (tx : Q) (out : Outgoing) (s h : List Outgoing)
        (held : Option (List Outgoing))
        → c.held ≡ held
        → held ≡ some h
        → ch.sent tx ≡ s
        → StandsAt (offer_to ch c tx true out held).1 (s ++ out ∷ []) h
    own_to-StandsAt c tx out s h none k e q = cc
    own_to-StandsAt c tx out s h (some h') k e q =
        subst (λ s. StandsAt (offer_to ch c tx true out (some h')).1 (s ++ out ∷ []) h) q
          (sent_or_cut-StandsAt c tx out h (ch.send tx out) refl (k ∙ e))

    other_to-StandsAt :
        (c : Connection Q) (tx : Q) (out : Outgoing) (s h : List Outgoing)
        (held : Option (List Outgoing))
        → c.tx ≡ some tx
        → held ≡ some h
        → ch.sent tx ≡ s
        → StandsAt (offer_to ch c tx false out held).1 s (h ++ out ∷ [])
    other_to-StandsAt c tx out s h none t e q = cc
    other_to-StandsAt c tx out s h (some h') t e q =
        elim (Bool-cases (ltb (length h') (ch.capacity tx))) [
          | inl b ↦ rw b (rw t (ap (λ o. map_option (λ l. l ++ out ∷ []) o) e, q))
          | inr b ↦ rw b refl
        ]

    -- By what the sender was: gone, or a queue.
    happens-StandsAt :
        (c : Connection Q) (e : Event) (s h : List Outgoing) (tx : Option Q)
        → c.tx ≡ tx
        → Stands tx c.held s h
        → StandsAt (happens c e) (s ++ own_of (e ∷ [])) (h ++ others_of (e ∷ []))
    unfolding offer
    happens-StandsAt c (own out) s h none t st = rw (t, offer) st
    happens-StandsAt c (other out) s h none t st = rw (t, offer) st
    happens-StandsAt c received s h none t st = rw t st
    happens-StandsAt c (own out) s h (some q) t (k, e) =
        rw (t, offer) (rw (append-nil h) (own_to-StandsAt c q out s h c.held refl k e))
    happens-StandsAt c (other out) s h (some q) t (k, e) =
        rw (t, offer)
          (rw (append-nil s)
            (other_to-StandsAt (record c { tx = some q }) q out s h c.held refl k e))
    happens-StandsAt c received s h (some q) t (k, e) =
        rw t (rw (append-nil h) (rw (append-nil s) (k, laws.sent-receive q ∙ e)))

    after-StandsAt :
        (c : Connection Q) (es : List Event) (s h : List Outgoing)
        → StandsAt c s h
        → StandsAt (after c es) (s ++ own_of es) (h ++ others_of es)
    unfolding after
    after-StandsAt c [] s h st = rw (append-nil h) (rw (append-nil s) st)
    after-StandsAt c (e ∷ es) s h st =
        let own_next =
          append_assoc s (own_of (e ∷ [])) (own_of es)
          ∙ ap (λ l. s ++ l) (sym (own_of-cons e es)) in
        let others_next =
          append_assoc h (others_of (e ∷ [])) (others_of es)
          ∙ ap (λ l. h ++ l) (sym (others_of-cons e es)) in
        let next =
          after-StandsAt (happens c e) es (s ++ own_of (e ∷ [])) (h ++ others_of (e ∷ []))
            (happens-StandsAt c e s h c.tx refl st) in
        subst (λ l. StandsAt (after (happens c e) es) l (h ++ others_of (e ∷ es))) own_next
          (subst (λ l. StandsAt (after (happens c e) es) (s ++ own_of (e ∷ []) ++ own_of es) l)
            others_next next)

    -- Nothing is held any more, and the queue was given `s`, until the sender is gone.
    abbrev SentBy : Option Q → List Outgoing → Type 0
    SentBy none s = Unit
    SentBy (some q) s = ch.sent q ≡ s

    abbrev Flows : Connection Q → List Outgoing → Type 0
    Flows c s = (c.held ≡ none) × SentBy c.tx s

    sent_or_cut-Flows :
        (c : Connection Q) (tx : Q) (out : Outgoing) (s : List Outgoing) (o : Option Q)
        → ch.send tx out ≡ o
        → c.held ≡ none
        → ch.sent tx ≡ s
        → Flows (sent_or_cut ch c o).1 (s ++ out ∷ [])
    sent_or_cut-Flows c tx out s none e k q = (refl, tt)
    sent_or_cut-Flows c tx out s (some tx') e k q =
        (k, laws.sent-send tx tx' out e ∙ ap (λ l. l ++ out ∷ []) q)

    send_all-sent :
        (tx tx' : Q) (outs : List Outgoing)
        → send_all ch tx outs ≡ some tx'
        → ch.sent tx' ≡ ch.sent tx ++ outs
    send_all-sent tx tx' [] e = rw (append-nil (ch.sent tx)) (cc)
    send_all-sent tx tx' (out ∷ outs) e = elim (Option-cases (ch.send tx out)) [
      | inl f ↦ absurd (ground (arith, f))
      | inr (next, f) ↦
          let rest : send_all ch next outs ≡ some tx' = ground (arith, f) in
          send_all-sent next tx' outs rest
          ∙ ap (λ l. l ++ outs) (laws.sent-send tx next out f)
          ∙ append_assoc (ch.sent tx) (out ∷ []) outs
    ]

    -- Once accepted, what was held follows what the `connect` event sent.
    accepted-Flows :
        (c : Connection Q) (s h : List Outgoing) (tx : Option Q)
        → c.tx ≡ tx
        → Stands tx c.held s h
        → Flows (accepted ch c) (s ++ h)
    unfolding accepted
    accepted-Flows c s h none t st =
        rw (t, accepted) (refl, subst (λ o. SentBy o (s ++ h)) (sym t) tt)
    accepted-Flows c s h (some q) t (k, e) =
        rw (t, accepted) (rw k (refl, sent_after (send_all ch q h) refl))
      where
        sent_after : (o : Option Q) → send_all ch q h ≡ o → SentBy o (s ++ h)
        sent_after none f = tt
        sent_after (some q') f = send_all-sent q q' h f ∙ ap (λ l. l ++ h) e

    offer_to-Flows :
        (c : Connection Q) (tx : Q) (mine : Bool) (out : Outgoing) (s : List Outgoing)
        (held : Option (List Outgoing))
        → c.held ≡ held
        → held ≡ none
        → ch.sent tx ≡ s
        → Flows (offer_to ch c tx mine out held).1 (s ++ out ∷ [])
    offer_to-Flows c tx mine out s none k e q =
        sent_or_cut-Flows c tx out s (ch.send tx out) refl (k ∙ e) q
    offer_to-Flows c tx mine out s (some h) k e q = cc

    happens-Flows :
        (c : Connection Q) (e : Event) (s : List Outgoing) (tx : Option Q)
        → c.tx ≡ tx
        → c.held ≡ none
        → SentBy tx s
        → Flows (happens c e) (s ++ all_of (e ∷ []))
    unfolding offer
    happens-Flows c (own out) s none t k st = rw (t, offer) (k, tt)
    happens-Flows c (other out) s none t k st = rw (t, offer) (k, tt)
    happens-Flows c received s none t k st = rw t (k, tt)
    happens-Flows c (own out) s (some q) t k st =
        rw (t, offer) (offer_to-Flows (record c { tx = some q }) q true out s c.held refl k st)
    happens-Flows c (other out) s (some q) t k st =
        rw (t, offer) (offer_to-Flows (record c { tx = some q }) q false out s c.held refl k st)
    happens-Flows c received s (some q) t k st =
        rw t (rw (append-nil s) (k, laws.sent-receive q ∙ st))

    after-Flows :
        (c : Connection Q) (es : List Event) (s : List Outgoing)
        → Flows c s
        → Flows (after c es) (s ++ all_of es)
    unfolding after
    after-Flows c [] s st = subst (λ l. Flows c l) (sym (append-nil s)) st
    after-Flows c (e ∷ es) s st =
        let next =
          append_assoc s (all_of (e ∷ [])) (all_of es)
          ∙ ap (λ l. s ++ l) (sym (all_of-cons e es)) in
        subst (λ l. Flows (after (happens c e) es) l) next
          (after-Flows (happens c e) es (s ++ all_of (e ∷ []))
            (happens-Flows c e s c.tx refl st.0 st.1))

    -- The order of what reaches a connection: while it has its sender, its queue was given what its own
    -- `connect` event sent, then, from when that event returned, all that others sent meanwhile, and
    -- then all that came after, each of the three in the order it was sent, with nothing lost and
    -- nothing twice. So a snapshot that a `connect` event sends comes before what is published.
    pub snapshot_comes_first :
        (user : Option Text) (remote : Option SocketAddr) (connecting later : List Event) (q : Q)
        → (after (accepted ch (after (fresh_connection ch user remote) connecting)) later).tx
          ≡ some q
        → ch.sent q ≡ own_of connecting ++ others_of connecting ++ all_of later
    snapshot_comes_first user remote connecting later q e =
        let new = fresh_connection ch user remote in
        let c = after new connecting in
        let stands = after-StandsAt new connecting [] [] (refl, laws.sent-fresh) in
        let flows =
          after-Flows (accepted ch c) later (own_of connecting ++ others_of connecting)
            (accepted-Flows c (own_of connecting) (others_of connecting) c.tx refl stands) in
        subst (λ o. SentBy o (own_of connecting ++ others_of connecting ++ all_of later)) e flows.1
