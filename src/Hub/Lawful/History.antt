-- ===== src/Hub/Lawful/History.antt =====
-- The topics and the state of every connection of src/runtime/connections.rs, in every history.
use toolsite.Common.{
  ℕ, ◌≤◌, ◌≡◌, refl, Bool, true, Option, none, some, List, [], ◌∷◌, arith, Text, Assoc, lookup,
  insert, remove, modify, length, map_option, All, AllValues, AllValues-lookup, AllValues-insert,
  AllValues-remove, AllValues-modify, IfSome, text_discrete, map, not, is_some, Option-cases, subst,
  Bool-cases, inl, inr,
}
use toolsite.Hub.{
  Limits, Channel, Message, message, close, Outgoing, SocketAddr, Connection, AppEntry, Inner,
  may_join, user_topic_id, valid_topic, spend, ok, contains, state_bytes, max_topics,
  max_state_bytes, release,
}
use toolsite.Hub.Operations.{
  connections_of, connection_of, on_apps, on_connections, entry_or_new, register_from, ceiling,
  forget, offer, deliver, deliver_to, accepted, accept, is_from, write, drop_empty, is_empty_app,
  entry_connections, fresh_connection, admitted,
}
use toolsite.Hub.Methods.{
  send, close_one, publish, close_app, transport_receives, subscribe, unsubscribe, state_set,
  join_topic, leave_topic, set_state, spent, spend_at, send_through, publish_through, close_through,
  check_message, on_topic,
}
use toolsite.Hub.Steps.{
  Call, registers, forgets, accepts, receives, sends, closes, publishes, closes_app, subscribes,
  unsubscribes, sets, step, run,
}
use toolsite.Hub.Counts.Kept.{spend-connections}
use toolsite.Hub.Counts.History.{no_connections}
use toolsite.Hub.Lawful.{
  IsLawful, EntryIsLawful, AllLawful, Alike, IsLawful-Alike, leave-IsLawful, join-IsLawful,
  set-IsLawful,
}

module _ {Q : Type 0} where
  on-EntryIsLawful :
      (inner : Inner Q) (app : Text) (f : AppEntry Q → AppEntry Q)
      → ((e : AppEntry Q) → EntryIsLawful e → EntryIsLawful (f e))
      → AllLawful inner
      → AllLawful (on_apps (modify app f) inner)
  on-EntryIsLawful inner app f h l = AllValues-modify EntryIsLawful app f inner.apps h l

  write-AllLawful :
      (inner : Inner Q) (app id : Text) (f : Connection Q → Connection Q)
      → ((c : Connection Q) → IsLawful c → IsLawful (f c))
      → AllLawful inner
      → AllLawful (write app id f inner)
  write-AllLawful inner app id f h l =
      on-EntryIsLawful inner app (on_connections (modify id f))
        (λ e k. AllValues-modify IsLawful id f e.connections h k) l

  spend-EntryIsLawful :
      (limit now : ℕ) (e : AppEntry Q) → EntryIsLawful e → EntryIsLawful (spend e limit now).1
  spend-EntryIsLawful limit now e h = rw (spend-connections e limit now) h

  module _ (ch : Channel Q) where
    offer-Alike : (own : Bool) (out : Outgoing) (c : Connection Q) → Alike c (offer ch c own out).1
    unfolding offer
    offer-Alike own out c = (ground arith, ground arith, ground arith)

    accepted-Alike : (c : Connection Q) → Alike c (accepted ch c)
    unfolding accepted
    accepted-Alike c = (ground arith, ground arith, ground arith)

    deliver_to-IsLawful :
        (ids : List Text) (out : Outgoing) (from : Option Text) (cs : Assoc (Connection Q))
        → AllValues IsLawful cs
        → AllValues IsLawful (deliver_to ch cs ids out from).1
    deliver_to-IsLawful [] out from cs l = l
    deliver_to-IsLawful (id ∷ ids) out from cs l =
        let own = is_from from id in
        let f = λ (c : Connection Q). (offer ch c own out).1 in
        deliver_to-IsLawful ids out from (modify id f cs) (
          AllValues-modify IsLawful id f cs
            (λ c k. IsLawful-Alike c (f c) (offer-Alike own out c) k) l)

    deliver-AllLawful :
        (inner : Inner Q) (app : Text) (ids : List Text) (out : Outgoing) (from : Option Text)
        → AllLawful inner
        → AllLawful (deliver ch inner app ids out from).1
    unfolding deliver
    deliver-AllLawful inner app ids out from l =
        on-EntryIsLawful inner app (on_connections (λ cs. (deliver_to ch cs ids out from).1))
          (λ e k. deliver_to-IsLawful ids out from e.connections k) l

    fresh-IsLawful :
        (user : Option Text) (remote : Option SocketAddr)
        → IsLawful (fresh_connection ch user remote)
    fresh-IsLawful user remote = record {
      joined = tt;
      topics-le = omega arith;
      state-Distinct = tt;
      state-le = omega arith;
    }

    entry_or_new-IsLawful :
        (now : ℕ) (o : Option (AppEntry Q))
        → IfSome EntryIsLawful o
        → EntryIsLawful (entry_or_new now o)
    entry_or_new-IsLawful now none l = tt
    entry_or_new-IsLawful now (some e) l = l

    admitted-AllLawful :
        (inner : Inner Q) (app : Text) (user : Option Text) (remote : Option SocketAddr) (id : Text)
        (now : ℕ)
        → AllLawful inner
        → AllLawful (admitted ch inner app user remote id now)
    admitted-AllLawful inner app user remote id now l =
        let entry = entry_or_new now (lookup app inner.apps) in
        let new = fresh_connection ch user remote in
        AllValues-insert EntryIsLawful app (on_connections (insert id new) entry) inner.apps
          (AllValues-insert IsLawful id new entry.connections (fresh-IsLawful user remote) (
            entry_or_new-IsLawful now (lookup app inner.apps)
              (AllValues-lookup EntryIsLawful app inner.apps l)))
          l

    module _ (limits : Limits) where
      register-AllLawful :
          (inner : Inner Q) (app : Text) (user : Option Text) (remote : Option SocketAddr)
          (id : Text) (now : ℕ)
          → AllLawful inner
          → AllLawful (register_from ch limits inner app user remote id now).1
      unfolding register_from
      register-AllLawful inner app user remote id now l =
          elim (Option-cases (ceiling limits inner app user remote)) [
            | inl e ↦ rw (e, register_from) (admitted-AllLawful inner app user remote id now l)
            | inr (why, e) ↦ rw (e, register_from) l
          ]

      spent-AllLawful :
          (inner : Inner Q) (app : Text) (now : ℕ)
          → AllLawful inner
          → AllLawful (spent inner app limits.rate_per_app now)
      spent-AllLawful inner app now l =
          on-EntryIsLawful inner app (λ e. (spend e limits.rate_per_app now).1)
            (spend-EntryIsLawful limits.rate_per_app now) l

      send-AllLawful :
          (inner : Inner Q) (app id : Text) (m : Message) (from : Option Text) (now : ℕ)
          → AllLawful inner
          → AllLawful (send ch limits inner app id m from now).1
      unfolding send
      send-AllLawful inner app id m from now l =
          let after = spent inner app limits.rate_per_app now in
          let next = spent-AllLawful inner app now l in
          send_through AllLawful (check_message m) (not (is_some (connection_of inner app id)))
            (spend_at inner app limits.rate_per_app now) inner after
            (deliver ch after app (id ∷ []) (message m) from) l next
            (deliver-AllLawful after app (id ∷ []) (message m) from next)

      publish-AllLawful :
          (inner : Inner Q) (app topic : Text) (m : Message) (from : Option Text) (now : ℕ)
          → AllLawful inner
          → AllLawful (publish ch limits inner app topic m from now).1
      unfolding publish
      publish-AllLawful inner app topic m from now l =
          let after = spent inner app limits.rate_per_app now in
          let next = spent-AllLawful inner app now l in
          let ids = on_topic ch topic (connections_of after app) in
          publish_through AllLawful (valid_topic topic) (check_message m)
            (not (is_some (lookup app inner.apps))) (spend_at inner app limits.rate_per_app now)
            inner after (deliver ch after app ids (message m) from) l next
            (deliver-AllLawful after app ids (message m) from next)

      close_one-AllLawful :
          (inner : Inner Q) (app id : Text) (from : Option Text)
          → AllLawful inner
          → AllLawful (close_one ch inner app id from).1
      unfolding close_one
      close_one-AllLawful inner app id from l =
          close_through AllLawful (not (is_some (connection_of inner app id))) inner
            (deliver ch inner app (id ∷ []) close from) l
            (deliver-AllLawful inner app (id ∷ []) close from l)

  drop_empty-AllLawful :
      (inner : Inner Q) (app : Text) → AllLawful inner → AllLawful (drop_empty app inner)
  drop_empty-AllLawful inner app l = elim (Bool-cases (is_empty_app (lookup app inner.apps))) [
    | inl e ↦ rw e (AllValues-remove EntryIsLawful app inner.apps l)
    | inr e ↦ rw e l
  ]

  forget-AllLawful :
      (inner : Inner Q) (app id : Text) → AllLawful inner → AllLawful (forget inner app id)
  unfolding forget release
  forget-AllLawful inner app id l = elim (Option-cases (connection_of inner app id)) [
    | inl e ↦ rw (e, forget) (drop_empty-AllLawful inner app l)
    | inr (c, e) ↦
        rw (e, forget)
          (drop_empty-AllLawful
            (release (on_apps (modify app (on_connections (remove id))) inner) c) app
            (on-EntryIsLawful inner app (on_connections (remove id))
              (λ e k. AllValues-remove IsLawful id e.connections k) l))
  ]

  module _ (ch : Channel Q) (limits : Limits) where
    step-AllLawful :
        (inner : Inner Q) (c : ℕ × Call) → AllLawful inner → AllLawful (step ch limits inner c)
    unfolding step accept transport_receives close_app subscribe unsubscribe state_set
    step-AllLawful inner (now, registers app user remote id) l =
        register-AllLawful ch limits inner app user remote id now l
    step-AllLawful inner (now, forgets app id) l = forget-AllLawful inner app id l
    step-AllLawful inner (now, accepts app id) l =
        write-AllLawful inner app id (accepted ch)
          (λ c k. IsLawful-Alike c (accepted ch c) (accepted-Alike ch c) k) l
    step-AllLawful inner (now, receives app id) l =
        let f = λ (c : Connection Q). record c { tx = map_option ch.receive c.tx } in
        write-AllLawful inner app id f (λ c k. IsLawful-Alike c (f c) (refl, refl, refl) k) l
    step-AllLawful inner (now, sends app id m from) l =
        send-AllLawful ch limits inner app id m from now l
    step-AllLawful inner (now, closes app id from) l =
        close_one-AllLawful ch limits inner app id from l
    step-AllLawful inner (now, publishes app topic m from) l =
        publish-AllLawful ch limits inner app topic m from now l
    step-AllLawful inner (now, closes_app app) l =
        deliver-AllLawful ch inner app (map (λ e. e.0) (connections_of inner app)) close none l
    step-AllLawful inner (now, subscribes app id topic) l =
        write-AllLawful inner app id (λ c. (join_topic topic c).1) (join-IsLawful topic) l
    step-AllLawful inner (now, unsubscribes app id topic) l =
        write-AllLawful inner app id (leave_topic topic) (leave-IsLawful topic) l
    step-AllLawful inner (now, sets app id key value) l =
        write-AllLawful inner app id (λ c. (set_state key value c).1) (set-IsLawful key value) l

    run-AllLawful :
        (inner : Inner Q) (cs : List (ℕ × Call))
        → AllLawful inner
        → AllLawful (run ch limits inner cs)
    unfolding run
    run-AllLawful inner [] l = l
    run-AllLawful inner (c ∷ cs) l =
        run-AllLawful (step ch limits inner c) cs (step-AllLawful inner c l)

    IsLawful-connection :
        (inner : Inner Q) (app id : Text) (c : Connection Q)
        → AllLawful inner
        → connection_of inner app id ≡ some c
        → IsLawful c
    unfolding lookup
    IsLawful-connection inner app id c l e =
        lawful_at (lookup app inner.apps) (AllValues-lookup EntryIsLawful app inner.apps l) e
      where
        lawful_at :
            (o : Option (AppEntry Q))
            → IfSome EntryIsLawful o
            → lookup id (entry_connections o) ≡ some c
            → IsLawful c
        lawful_at none k e = cc
        lawful_at (some entry) k e =
            lawful_value e (AllValues-lookup IsLawful id entry.connections k)
          where
            lawful_value : {o : Option (Connection Q)} → o ≡ some c → IfSome IsLawful o → IsLawful c
            lawful_value e k = subst (λ o. IfSome IsLawful o) e k

    joined_contains :
        (topic : Text) (user : Option Text) (topics : List Text)
        → All (λ t. may_join t user ≡ ok tt) topics
        → contains topic topics ≡ true
        → may_join topic user ≡ ok tt
    joined_contains topic user [] h k = cc
    joined_contains topic user (t ∷ topics) h k = elim (text_discrete t topic) [
      | yes q ↦ ground (arith, h.0)
      | no n ↦ joined_contains topic user topics h.1 (ground arith)
    ]

    may_join_own :
        (topic owner : Text) (user : Option Text)
        → may_join topic user ≡ ok tt
        → user_topic_id topic ≡ some owner
        → user ≡ some owner
    unfolding may_join
    may_join_own topic owner none h e = ground arith
    may_join_own topic owner (some me) h e = ground arith

    -- What holds of every connection at any time: it is on at most 32 topics, keeps at most 64 KiB of
    -- state, each topic it is on is one that its holder may join, and a topic `user:<id>` that it is
    -- on is that of the account that holds it, whatever the handlers asked for.
    pub topics_are_own :
        (cs : List (ℕ × Call)) (app id : Text) (c : Connection Q)
        → connection_of (run ch limits no_connections cs) app id ≡ some c
        → (length c.topics ≤ max_topics)
          × (state_bytes c.state ≤ max_state_bytes)
          × ((topic : Text) → contains topic c.topics ≡ true → may_join topic c.user ≡ ok tt)
          × ((topic owner : Text)
              → contains topic c.topics ≡ true
              → user_topic_id topic ≡ some owner
              → c.user ≡ some owner)
    topics_are_own cs app id c e =
        let l =
          IsLawful-connection (run ch limits no_connections cs) app id c
            (run-AllLawful no_connections cs tt) e in
        (
          l.topics-le,
          l.state-le,
          λ topic h. joined_contains topic c.user c.topics l.joined h,
          λ topic owner h o.
              may_join_own topic owner c.user (joined_contains topic c.user c.topics l.joined h) o,
        )
