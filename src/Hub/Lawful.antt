-- ===== src/Hub/Lawful.antt =====
-- What holds of each connection of src/runtime/connections.rs at all times: the topics it is on, and
-- the state it keeps.
pub mod History
use toolsite.Common.{
  ℕ, zero, suc, ◌+◌, ◌-◌, ◌≤◌, ◌≡◌, refl, Bool, true, false, Option, none, some, List, [], ◌∷◌,
  arith, if◌then◌else◌, Text, codes, same, Assoc, lookup, insert, remove, modify, Distinct, length,
  map_option, All, AllValues, AllValues-lookup, AllValues-insert, AllValues-remove,
  AllValues-modify, IfSome, keep, text_discrete, insert-Distinct, remove-Distinct, map, not,
  is_some, ltb, Option-cases, Bool-cases, inl, inr,
}
use toolsite.Hub.{
  Limits, Channel, Message, message, close, Outgoing, SocketAddr, Connection, AppEntry, Inner,
  may_join, join_for, user_topic_id, valid_topic, spend, Result, ok, err, contains, set_insert,
  state_bytes, max_topics, max_state_bytes, release,
}
use toolsite.Hub.Operations.{
  connections_of, connection_of, on_apps, on_connections, entry_or_new, register_from, ceiling,
  forget, offer, deliver, deliver_to, accepted, accept, is_from, write, drop_empty, is_empty_app,
  fresh_connection, admitted,
}
use toolsite.Hub.Methods.{
  send, close_one, publish, close_app, transport_receives, subscribe, unsubscribe, state_set,
  join_topic, leave_topic, set_state, cost, join_if, is_full, keep_if, bytes_after, spent, spend_at,
  send_through, publish_through, close_through, check_message, on_topic,
}
use toolsite.Hub.Steps.{
  Call, registers, forgets, accepts, receives, sends, closes, publishes, closes_app, subscribes,
  unsubscribes, sets, step, run,
}
use toolsite.Hub.Counts.Kept.{spend-connections}
use toolsite.Hub.Counts.History.{no_connections}

keep-joined :
    (p : Text → Bool) (user : Option Text) (topics : List Text)
    → All (λ topic. may_join topic user ≡ ok tt) topics
    → All (λ topic. may_join topic user ≡ ok tt) (keep p topics)
keep-joined p user [] h = tt
keep-joined p user (t ∷ topics) h = ground (arith, keep-joined p user topics h.1)

keep-length : (p : Text → Bool) (topics : List Text) → length (keep p topics) ≤ length topics
keep-length p [] = omega arith
keep-length p (t ∷ topics) = ground (arith, keep-length p topics)

bytes-insert :
    (k v : Text) (state : Assoc Text)
    → state_bytes (insert k v state) + cost k (lookup k state)
      ≡ state_bytes state + length k + length v
unfolding insert lookup
bytes-insert k v [] = ground arith
bytes-insert k v ((j, w) ∷ state) = ground (arith, bytes-insert k v state)

bytes-remove : (k : Text) (state : Assoc Text) → state_bytes (remove k state) ≤ state_bytes state
unfolding remove
bytes-remove k [] = omega arith
bytes-remove k ((j, w) ∷ state) = ground (arith, bytes-remove k state)

joined_insert :
    (topic : Text) (user : Option Text) (topics : List Text)
    → may_join topic user ≡ ok tt
    → All (λ t. may_join t user ≡ ok tt) topics
    → All (λ t. may_join t user ≡ ok tt) (set_insert topic topics)
joined_insert topic user topics m h = elim (Bool-cases (contains topic topics)) [
  | inl e ↦ rw e h
  | inr e ↦ rw e (m, h)
]

module _ {Q : Type 0} where
  -- Every topic is one that the holder may join, there are at most 32, and the state has at most its
  -- 64 KiB, keys and values together.
  pub record IsLawful (c : Connection Q) : Type 0 where
    pub joined : All (λ topic. may_join topic c.user ≡ ok tt) c.topics
    pub topics-le : length c.topics ≤ max_topics
    pub state-Distinct : Distinct c.state
    pub state-le : state_bytes c.state ≤ max_state_bytes

  abbrev pub EntryIsLawful : AppEntry Q → Type 0
  EntryIsLawful e = AllValues IsLawful e.connections

  abbrev pub AllLawful : Inner Q → Type 0
  AllLawful inner = AllValues EntryIsLawful inner.apps

  -- The same topics, holder and state.
  abbrev pub Alike : Connection Q → Connection Q → Type 0
  Alike c d = (c.user ≡ d.user) × (c.topics ≡ d.topics) × (c.state ≡ d.state)

  pub IsLawful-Alike : (c d : Connection Q) → Alike c d → IsLawful c → IsLawful d
  IsLawful-Alike c d (u, t, s) l = record {
    joined = rw (← u) (rw (← t) l.joined);
    topics-le = rw (← t) l.topics-le;
    state-Distinct = rw (← s) l.state-Distinct;
    state-le = rw (← s) l.state-le;
  }

  pub leave-IsLawful :
      (topic : Text) (c : Connection Q) → IsLawful c → IsLawful (leave_topic topic c)
  leave-IsLawful topic c l = record {
    joined = keep-joined (λ t. not (same t topic)) c.user c.topics l.joined;
    topics-le = omega (arith, keep-length (λ t. not (same t topic)) c.topics, l.topics-le);
    state-Distinct = l.state-Distinct;
    state-le = l.state-le;
  }

  join_if-IsLawful :
      (r : Result Unit) (full : Bool) (topic : Text) (c : Connection Q)
      → may_join topic c.user ≡ r
      → is_full topic c.topics ≡ full
      → IsLawful c
      → IsLawful (join_if r full topic c).1
  join_if-IsLawful (err why) full topic c m f l = l
  join_if-IsLawful (ok _) true topic c m f l = l
  join_if-IsLawful (ok _) false topic c m f l = record {
    joined = joined_insert topic c.user c.topics m l.joined;
    topics-le = ground (arith, l.topics-le);
    state-Distinct = l.state-Distinct;
    state-le = l.state-le;
  }

  pub join-IsLawful :
      (topic : Text) (c : Connection Q) → IsLawful c → IsLawful (join_topic topic c).1
  join-IsLawful topic c l =
      join_if-IsLawful (may_join topic c.user) (is_full topic c.topics) topic c refl refl l

  keep_if-IsLawful :
      (full : Bool) (key value : Text) (c : Connection Q)
      → ltb max_state_bytes (bytes_after key value c.state) ≡ full
      → IsLawful c
      → IsLawful (keep_if full key value c).1
  keep_if-IsLawful true key value c f l = l
  keep_if-IsLawful false key value c f l = record {
    joined = l.joined;
    topics-le = l.topics-le;
    state-Distinct = insert-Distinct key value c.state l.state-Distinct;
    state-le = ground (arith, bytes-insert key value c.state);
  }

  pub set-IsLawful :
      (key : Text) (value : Option Text) (c : Connection Q)
      → IsLawful c
      → IsLawful (set_state key value c).1
  set-IsLawful key none c l = record {
    joined = l.joined;
    topics-le = l.topics-le;
    state-Distinct = remove-Distinct key c.state l.state-Distinct;
    state-le = omega (arith, bytes-remove key c.state, l.state-le);
  }
  set-IsLawful key (some value) c l =
      keep_if-IsLawful (ltb max_state_bytes (bytes_after key value c.state)) key value c refl l
