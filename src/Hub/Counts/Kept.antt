-- ===== src/Hub/Counts/Kept.antt =====
-- The methods of src/runtime/connections.rs that open and end no connection leave the counts alone.
use toolsite.Common.{
  ℕ, ◌≡◌, refl, Bool, true, false, not, Option, none, some, List, [], ◌∷◌, map, arith,
  if◌then◌else◌, Text, same, Assoc, lookup, modify, Distinct, map_option, is_some, lookup-modify,
  modify-Distinct, ◌∙◌, text_discrete,
}
use toolsite.Hub.{
  Limits, Message, Outgoing, Channel, Connection, AppEntry, Inner, spend, valid_topic, message,
  close, close,
}
use toolsite.Hub.Operations.{
  connections_of, connection_of, entry_connections, on_apps, on_connections, write, offer, deliver,
  deliver_to, accepted, accept, is_from,
}
use toolsite.Hub.Methods.{
  send, close_one, publish, close_app, transport_receives, subscribe, unsubscribe, state_set,
  join_topic, set_state, spent, spend_at, send_through, publish_through, close_through, leave_topic,
  check_message, on_topic,
}
use toolsite.Hub.Counts.{
  Shape, shape, size, tally, tally-modify, size-modify, IsSound, every, raw, held_by, comes_from,
}

module _ {Q : Type 0} where
  -- A write to an app's entry that keeps its connections' ids, holders and addresses.
  pub record KeepsEntry (f : AppEntry Q → AppEntry Q) : Type 0 where
    pub sizes :
        (p : Shape → Bool) (e : AppEntry Q) → size p (f e).connections ≡ size p e.connections
    pub distinct : (e : AppEntry Q) → Distinct e.connections → Distinct (f e).connections

  kept_entries :
      (f : AppEntry Q → AppEntry Q) (k : KeepsEntry f) (p : Shape → Bool) (o : Option (AppEntry Q))
      → size p (entry_connections (map_option f o)) ≡ size p (entry_connections o)
  kept_entries f k p none = refl
  kept_entries f k p (some e) = k.sizes p e

  kept_tally :
      (f : AppEntry Q → AppEntry Q) (k : KeepsEntry f) (p : Shape → Bool) (app : Text)
      (apps : Assoc (AppEntry Q))
      → tally p (modify app f apps) ≡ tally p apps
  kept_tally f k p app apps =
      omega (arith, tally-modify p app f apps, kept_entries f k p (lookup app apps))

  kept_size :
      (f : AppEntry Q → AppEntry Q) (k : KeepsEntry f) (p : Shape → Bool) (app at : Text)
      (apps : Assoc (AppEntry Q))
      → size p (entry_connections (lookup at (modify app f apps)))
        ≡ size p (entry_connections (lookup at apps))
  kept_size f k p app at apps = elim (text_discrete app at) [
    | yes q ↦ rw (lookup-modify app at f apps) (ground (arith, kept_entries f k p (lookup at apps)))
    | no n ↦ rw (lookup-modify app at f apps) (ground arith)
  ]

  Distinct-if :
      (f : AppEntry Q → AppEntry Q) (k : KeepsEntry f) (b : Bool) (o : Option (AppEntry Q))
      → Distinct (entry_connections o)
      → Distinct (entry_connections (if b then map_option f o else o))
  Distinct-if f k false o d = d
  Distinct-if f k true none d = d
  Distinct-if f k true (some e) d = k.distinct e d

  kept-Distinct :
      (f : AppEntry Q → AppEntry Q) (k : KeepsEntry f) (app at : Text) (apps : Assoc (AppEntry Q))
      → Distinct (entry_connections (lookup at apps))
      → Distinct (entry_connections (lookup at (modify app f apps)))
  kept-Distinct f k app at apps d =
      rw (lookup-modify app at f apps) (Distinct-if f k (same app at) (lookup at apps) d)

  pub modify-IsSound :
      (limits : Limits) (inner : Inner Q) (app : Text) (f : AppEntry Q → AppEntry Q)
      → KeepsEntry f
      → IsSound limits inner
      → IsSound limits (on_apps (modify app f) inner)
  modify-IsSound limits inner app f k s = record {
    apps-Distinct = modify-Distinct app f inner.apps s.apps-Distinct;
    ids-Distinct = λ at. kept-Distinct f k app at inner.apps (s.ids-Distinct at);
    total-eq = omega (arith, s.total-eq, kept_tally f k every app inner.apps);
    per_person-eq =
        λ u. omega (arith, s.per_person-eq u, kept_tally f k (held_by u) app inner.apps);
    per_ip-eq = λ ip. omega (arith, s.per_ip-eq ip, kept_tally f k (comes_from ip) app inner.apps);
    total-le = s.total-le;
    per_app-le = λ at. omega (arith, s.per_app-le at, kept_size f k every app at inner.apps);
    raw_per_app-le = λ at. omega (arith, s.raw_per_app-le at, kept_size f k raw app at inner.apps);
    per_person-le = s.per_person-le;
    per_ip-le = s.per_ip-le;
  }

  pub KeepsEntry-modify :
      (id : Text) (f : Connection Q → Connection Q)
      → ((c : Connection Q) → shape (f c) ≡ shape c)
      → KeepsEntry (on_connections (modify id f))
  KeepsEntry-modify id f h = record {
    sizes = λ p e. size-modify p id f e.connections h;
    distinct = λ e d. modify-Distinct id f e.connections d;
  }

  pub spend-connections :
      (e : AppEntry Q) (limit now : ℕ) → (spend e limit now).1.connections ≡ e.connections
  unfolding spend
  spend-connections e limit now = ground arith

  spend-KeepsEntry : (limit now : ℕ) → KeepsEntry (λ e. (spend e limit now).1)
  spend-KeepsEntry limit now = record {
    sizes = λ p e. rw (spend-connections e limit now) refl;
    distinct = λ e d. rw (spend-connections e limit now) d;
  }

  module _ (ch : Channel Q) where
    pub offer-shape :
        (own : Bool) (out : Outgoing) (c : Connection Q) → shape (offer ch c own out).1 ≡ shape c
    unfolding offer
    offer-shape own out c = ground arith

    accepted-shape : (c : Connection Q) → shape (accepted ch c) ≡ shape c
    unfolding accepted
    accepted-shape c = ground arith

    deliver_to-size :
        (p : Shape → Bool) (ids : List Text) (out : Outgoing) (from : Option Text)
        (cs : Assoc (Connection Q))
        → size p (deliver_to ch cs ids out from).1 ≡ size p cs
    deliver_to-size p [] out from cs = refl
    deliver_to-size p (id ∷ ids) out from cs =
        let f = λ (c : Connection Q). (offer ch c (is_from from id) out).1 in
        deliver_to-size p ids out from (modify id f cs)
        ∙ size-modify p id f cs (offer-shape (is_from from id) out)

    deliver_to-Distinct :
        (ids : List Text) (out : Outgoing) (from : Option Text) (cs : Assoc (Connection Q))
        → Distinct cs
        → Distinct (deliver_to ch cs ids out from).1
    deliver_to-Distinct [] out from cs d = d
    deliver_to-Distinct (id ∷ ids) out from cs d =
        let f = λ (c : Connection Q). (offer ch c (is_from from id) out).1 in
        deliver_to-Distinct ids out from (modify id f cs) (modify-Distinct id f cs d)

    module _ (limits : Limits) where
      pub deliver-IsSound :
          (inner : Inner Q) (app : Text) (ids : List Text) (out : Outgoing) (from : Option Text)
          → IsSound limits inner
          → IsSound limits (deliver ch inner app ids out from).1
      unfolding deliver
      deliver-IsSound inner app ids out from s =
          modify-IsSound limits inner app (on_connections (λ cs. (deliver_to ch cs ids out from).1))
            (record {
              sizes = λ p e. deliver_to-size p ids out from e.connections;
              distinct = λ e d. deliver_to-Distinct ids out from e.connections d;
            })
            s

      spent-IsSound :
          (inner : Inner Q) (app : Text) (now : ℕ)
          → IsSound limits inner
          → IsSound limits (spent inner app limits.rate_per_app now)
      spent-IsSound inner app now s =
          modify-IsSound limits inner app (λ e. (spend e limits.rate_per_app now).1)
            (spend-KeepsEntry limits.rate_per_app now) s

      write-IsSound :
          (inner : Inner Q) (app id : Text) (f : Connection Q → Connection Q)
          → ((c : Connection Q) → shape (f c) ≡ shape c)
          → IsSound limits inner
          → IsSound limits (write app id f inner)
      write-IsSound inner app id f h s =
          modify-IsSound limits inner app (on_connections (modify id f)) (KeepsEntry-modify id f h)
            s

      pub send-IsSound :
          (inner : Inner Q) (app id : Text) (m : Message) (from : Option Text) (now : ℕ)
          → IsSound limits inner
          → IsSound limits (send ch limits inner app id m from now).1
      unfolding send
      send-IsSound inner app id m from now s =
          let after = spent inner app limits.rate_per_app now in
          let next = spent-IsSound inner app now s in
          send_through (IsSound limits) (check_message m)
            (not (is_some (connection_of inner app id)))
            (spend_at inner app limits.rate_per_app now) inner after
            (deliver ch after app (id ∷ []) (message m) from) s next
            (deliver-IsSound after app (id ∷ []) (message m) from next)

      pub publish-IsSound :
          (inner : Inner Q) (app topic : Text) (m : Message) (from : Option Text) (now : ℕ)
          → IsSound limits inner
          → IsSound limits (publish ch limits inner app topic m from now).1
      unfolding publish
      publish-IsSound inner app topic m from now s =
          let after = spent inner app limits.rate_per_app now in
          let next = spent-IsSound inner app now s in
          let ids = on_topic ch topic (connections_of after app) in
          publish_through (IsSound limits) (valid_topic topic) (check_message m)
            (not (is_some (lookup app inner.apps))) (spend_at inner app limits.rate_per_app now)
            inner after (deliver ch after app ids (message m) from) s next
            (deliver-IsSound after app ids (message m) from next)

      pub close_one-IsSound :
          (inner : Inner Q) (app id : Text) (from : Option Text)
          → IsSound limits inner
          → IsSound limits (close_one ch inner app id from).1
      unfolding close_one
      close_one-IsSound inner app id from s =
          close_through (IsSound limits) (not (is_some (connection_of inner app id))) inner
            (deliver ch inner app (id ∷ []) close from) s
            (deliver-IsSound inner app (id ∷ []) close from s)

      pub close_app-IsSound :
          (inner : Inner Q) (app : Text)
          → IsSound limits inner
          → IsSound limits (close_app ch inner app)
      unfolding close_app
      close_app-IsSound inner app s =
          deliver-IsSound inner app (map (λ e. e.0) (connections_of inner app)) close none s

      pub accept-IsSound :
          (inner : Inner Q) (app id : Text)
          → IsSound limits inner
          → IsSound limits (accept ch inner app id)
      unfolding accept
      accept-IsSound inner app id s = write-IsSound inner app id (accepted ch) accepted-shape s

      pub receives-IsSound :
          (inner : Inner Q) (app id : Text)
          → IsSound limits inner
          → IsSound limits (transport_receives ch inner app id)
      unfolding transport_receives
      receives-IsSound inner app id s =
          write-IsSound inner app id (λ c. record c { tx = map_option ch.receive c.tx }) (λ c. refl)
            s

  join_topic-shape : (topic : Text) (c : Connection Q) → shape (join_topic topic c).1 ≡ shape c
  join_topic-shape topic c = ground arith

  set_state-shape :
      (key : Text) (value : Option Text) (c : Connection Q)
      → shape (set_state key value c).1 ≡ shape c
  set_state-shape key none c = refl
  set_state-shape key (some value) c = ground arith

  module _ (limits : Limits) where
    pub subscribe-IsSound :
        (inner : Inner Q) (app id topic : Text)
        → IsSound limits inner
        → IsSound limits (subscribe inner app id topic).1
    unfolding subscribe
    subscribe-IsSound inner app id topic s =
        modify-IsSound limits inner app (on_connections (modify id (λ c. (join_topic topic c).1)))
          (KeepsEntry-modify id (λ c. (join_topic topic c).1) (join_topic-shape topic)) s

    pub unsubscribe-IsSound :
        (inner : Inner Q) (app id topic : Text)
        → IsSound limits inner
        → IsSound limits (unsubscribe inner app id topic).1
    unfolding unsubscribe
    unsubscribe-IsSound inner app id topic s =
        modify-IsSound limits inner app (on_connections (modify id (leave_topic topic)))
          (KeepsEntry-modify id (leave_topic topic) (λ c. refl)) s

    pub state_set-IsSound :
        (inner : Inner Q) (app id key : Text) (value : Option Text)
        → IsSound limits inner
        → IsSound limits (state_set inner app id key value).1
    unfolding state_set
    state_set-IsSound inner app id key value s =
        modify-IsSound limits inner app
          (on_connections (modify id (λ c. (set_state key value c).1)))
          (KeepsEntry-modify id (λ c. (set_state key value c).1) (set_state-shape key value)) s
