-- ===== src/Hub/Operations.antt =====
-- src/runtime/connections.rs, `Hub`: a connection's way in and out of the registry, and what is sent to it.
use toolsite.Common.{
  ℕ, suc, ◌+◌, Bool, true, false, Option, none, some, List, [], ◌∷◌, ◌++◌, leb, ltb, if◌then◌else◌,
  Text, same, Assoc, lookup, insert, remove, modify, length, count, is_some,
}
use toolsite.Hub.{
  Outgoing, Channel, Limits, SocketAddr, Refused, full_server, full_app, full_raw, full_ip,
  full_person, Result, ok, err, Connection, AppEntry, Inner, count_at, up_if, ip_of, release,
}

abbrev pub entry_connections : {Q : Type 0} → Option (AppEntry Q) → Assoc (Connection Q)
entry_connections none = []
entry_connections (some e) = e.connections

abbrev pub is_from : Option Text → Text → Bool
is_from none id = false
is_from (some from) id = same from id

module _ {Q : Type 0} where
  -- `inner.apps.get(app)` and its connections; no entry has none.
  abbrev pub connections_of : Inner Q → Text → Assoc (Connection Q)
  connections_of inner app = entry_connections (lookup app inner.apps)

  abbrev pub connection_of : Inner Q → Text → Text → Option (Connection Q)
  connection_of inner app id = lookup id (connections_of inner app)

  abbrev pub on_apps : (Assoc (AppEntry Q) → Assoc (AppEntry Q)) → Inner Q → Inner Q
  on_apps f inner = record inner { apps = f inner.apps }

  abbrev pub on_connections :
      (Assoc (Connection Q) → Assoc (Connection Q)) → AppEntry Q → AppEntry Q
  on_connections f e = record e { connections = f e.connections }

  -- A write to one connection of one app.
  abbrev pub write : Text → Text → (Connection Q → Connection Q) → Inner Q → Inner Q
  write app id f = on_apps (modify app (on_connections (modify id f)))

  abbrev pub is_raw : Connection Q → Bool
  is_raw c = is_some c.remote

  abbrev full_for_ip : Limits → Inner Q → Text → Option SocketAddr → Option Refused
  full_for_ip limits inner app none = none
  full_for_ip limits inner app (some remote) =
      if leb limits.raw_per_app (count (λ e. is_raw e.1) (connections_of inner app))
      then some full_raw
      else (if leb limits.per_ip (count_at remote.ip inner.per_ip) then some full_ip else none)

  abbrev full_for_person : Limits → Inner Q → Option Text → Option Refused
  full_for_person limits inner none = none
  full_for_person limits inner (some user) =
      if leb limits.per_person (count_at user inner.per_person) then some full_person else none

  -- Which ceiling stops a new connection.
  unfoldable pub ceiling :
      Limits → Inner Q → Text → Option Text → Option SocketAddr → Option Refused
  ceiling limits inner app user remote =
      if leb limits.total inner.total
      then some full_server
      else (if leb limits.per_app (length (connections_of inner app))
          then some full_app
          else (elim (full_for_ip limits inner app remote) [
            | some why ↦ some why
            | none ↦ full_for_person limits inner user
          ]))

  -- `entry(app).or_insert_with(AppEntry::new)`.
  abbrev pub entry_or_new : ℕ → Option (AppEntry Q) → AppEntry Q
  entry_or_new now (some e) = e
  entry_or_new now none = record {
    connections = [];
    window_start = now;
    sent_in_window = 0;
    last_warning = none;
  }

  module _ (ch : Channel Q) where
    abbrev pub fresh_connection : Option Text → Option SocketAddr → Connection Q
    fresh_connection user remote = record {
      user = user;
      remote = remote;
      topics = [];
      tx = some ch.fresh;
      held = some [];
      state = [];
    }

    abbrev pub admitted : Inner Q → Text → Option Text → Option SocketAddr → Text → ℕ → Inner Q
    admitted inner app user remote id now =
        let entry = entry_or_new now (lookup app inner.apps) in
        record inner {
          per_person = up_if user inner.per_person;
          per_ip = up_if (ip_of remote) inner.per_ip;
          total = inner.total + 1;
          apps =
              insert app (on_connections (insert id (fresh_connection user remote)) entry)
                inner.apps;
        }

    unfoldable pub register_from :
        Limits → Inner Q → Text → Option Text → Option SocketAddr → Text → ℕ → Result Text × Inner Q
    unfolding ceiling
    register_from limits inner app user remote id now =
        elim (ceiling limits inner app user remote) [
          | some why ↦ (err why, inner)
          | none ↦ (ok id, admitted inner app user remote id now)
        ]

  abbrev pub is_empty_app : Option (AppEntry Q) → Bool
  is_empty_app none = false
  is_empty_app (some e) = leb (length e.connections) 0

  abbrev pub drop_empty : Text → Inner Q → Inner Q
  drop_empty app inner =
      if is_empty_app (lookup app inner.apps) then on_apps (remove app) inner else inner

  unfoldable pub forget : Inner Q → Text → Text → Inner Q
  unfolding release
  forget inner app id = drop_empty app (elim (connection_of inner app id) [
    | none ↦ inner
    | some c ↦ release (on_apps (modify app (on_connections (remove id))) inner) c
  ])

  module _ (ch : Channel Q) where
    abbrev pub cut_off : Connection Q → Connection Q
    cut_off c = record c { tx = none; held = none }

    abbrev pub sent_or_cut : Connection Q → Option Q → Bool × Connection Q
    sent_or_cut c none = (false, cut_off c)
    sent_or_cut c (some q) = (true, record c { tx = some q })

    -- What `deliver` does to one connection that has its sender. `own` says that its own `connect`
    -- event is sending.
    abbrev pub offer_to :
        Connection Q → Q → Bool → Outgoing → Option (List Outgoing) → Bool × Connection Q
    offer_to c tx own out none = sent_or_cut c (ch.send tx out)
    offer_to c tx own out (some held) =
        if own
        then sent_or_cut c (ch.send tx out)
        else (if ltb (length held) (ch.capacity tx)
            then (true, record c { held = some (held ++ out ∷ []) })
            else (false, cut_off c))

    unfoldable pub offer : Connection Q → Bool → Outgoing → Bool × Connection Q
    offer c own out = elim c.tx [ none ↦ (false, c) | some tx ↦ offer_to c tx own out c.held ]

    -- Whether it was queued, where there is such a connection.
    abbrev pub offered : Option (Connection Q) → Bool → Outgoing → Bool
    offered none own out = false
    offered (some c) own out = (offer c own out).0

    -- How many it reached, and the connections.
    abbrev pub deliver_to :
        Assoc (Connection Q) → List Text → Outgoing → Option Text → ℕ × Assoc (Connection Q)
    deliver_to cs [] out from = (0, cs)
    deliver_to cs (id ∷ ids) out from =
        let own = is_from from id in
        let (reached, cs') = deliver_to (modify id (λ c. (offer c own out).1) cs) ids out from in
        ((if offered (lookup id cs) own out then suc reached else reached), cs')

    unfoldable pub deliver : Inner Q → Text → List Text → Outgoing → Option Text → ℕ × Inner Q
    unfolding offer
    deliver inner app ids out from = (
      (deliver_to (connections_of inner app) ids out from).0,
      on_apps (modify app (on_connections (λ cs. (deliver_to cs ids out from).1))) inner,
    )

    -- `for out in held { tx.try_send(out) … }`: the sender is gone with the first that fails.
    abbrev pub send_all : Q → List Outgoing → Option Q
    send_all tx [] = some tx
    send_all tx (out ∷ outs) = elim (ch.send tx out) [ none ↦ none | some tx' ↦ send_all tx' outs ]

    abbrev pub held_of : Option (List Outgoing) → List Outgoing
    held_of none = []
    held_of (some outs) = outs

    unfoldable pub accepted : Connection Q → Connection Q
    accepted c = elim c.tx [
      | none ↦ record c { held = none }
      | some tx ↦ record c { held = none; tx = send_all tx (held_of c.held) }
    ]

    unfoldable pub accept : Inner Q → Text → Text → Inner Q
    unfolding accepted
    accept inner app id = write app id accepted inner
