-- ===== src/Hub/Methods.antt =====
-- src/runtime/connections.rs, `Hub`: what a handler may do to its app's connections, and what the
-- transport does.
use toolsite.Common.{
  ℕ, ◌+◌, ◌-◌, Bool, true, false, not, ◌&&◌, Option, none, some, List, [], ◌∷◌, map, keep, leb, ltb,
  if◌then◌else◌, Text, same, Assoc, ◌==◌, lookup, insert, remove, modify, length, is_some,
  map_option,
}
use toolsite.Hub.{
  Message, len, message, close, Channel, Limits, not_open, too_many_topics, too_large, fell_behind,
  too_much_state, Result, ok, err, max_message_bytes, max_state_bytes, max_topics, valid_topic,
  may_join, contains, set_insert, state_bytes, Connection, Inner, spend,
}
use toolsite.Hub.Operations.{connections_of, connection_of, on_apps, write, deliver}

abbrev pub cost : Text → Option Text → ℕ
cost key none = 0
cost key (some old) = length key + length old

abbrev pub check_message : Message → Result Unit
check_message m = if ltb max_message_bytes (len m) then err too_large else ok tt

abbrev pub is_full : Text → List Text → Bool
is_full topic topics = not (contains topic topics) && leb max_topics (length topics)

abbrev pub bytes_after : Text → Text → Assoc Text → ℕ
bytes_after key value state =
    (state_bytes state - cost key (lookup key state)) + length key + length value

module _ {Q : Type 0} where
  -- The app's entry after `spend`, which also counts where it refuses.
  abbrev pub spent : Inner Q → Text → ℕ → ℕ → Inner Q
  spent inner app limit now = on_apps (modify app (λ e. (spend e limit now).1)) inner

  abbrev pub spend_at : Inner Q → Text → ℕ → ℕ → Result Unit
  spend_at inner app limit now = elim (lookup app inner.apps) [
    | none ↦ ok tt
    | some e ↦ (spend e limit now).0
  ]

  -- `?`: the call goes on from a step that did not refuse.
  abbrev pub or_refused :
      {A : Type 0} → Result Unit → Inner Q → Result A × Inner Q → Result A × Inner Q
  or_refused (err why) inner next = (err why, inner)
  or_refused (ok _) inner next = next

  abbrev pub reached_one : ℕ × Inner Q → Result Unit × Inner Q
  reached_one (n, inner) = ((if n == 1 then ok tt else err fell_behind), inner)

  abbrev pub reached_some : ℕ × Inner Q → Result ℕ × Inner Q
  reached_some (n, inner) = (ok n, inner)

  module _ (ch : Channel Q) where
    unfoldable pub send :
        Limits → Inner Q → Text → Text → Message → Option Text → ℕ → Result Unit × Inner Q
    unfolding deliver spend
    send limits inner app id m from now = or_refused (check_message m) inner (
        if not (is_some (connection_of inner app id))
        then (err not_open, inner)
        else (let after = spent inner app limits.rate_per_app now in
            or_refused (spend_at inner app limits.rate_per_app now) after
              (reached_one (deliver ch after app (id ∷ []) (message m) from))))

    unfoldable pub close_one : Inner Q → Text → Text → Option Text → Result Unit × Inner Q
    unfolding deliver
    close_one inner app id from =
        if not (is_some (connection_of inner app id))
        then (err not_open, inner)
        else (ok tt, (deliver ch inner app (id ∷ []) close from).1)

    abbrev pub on_topic : Text → Assoc (Connection Q) → List Text
    on_topic topic cs = map (λ e. e.0) (keep (λ e. contains topic e.1.topics) cs)

    unfoldable pub publish :
        Limits → Inner Q → Text → Text → Message → Option Text → ℕ → Result ℕ × Inner Q
    unfolding deliver spend valid_topic
    publish limits inner app topic m from now = or_refused (valid_topic topic) inner (
        or_refused (check_message m) inner (
          if not (is_some (lookup app inner.apps))
          then (ok 0, inner)
          else (let after = spent inner app limits.rate_per_app now in
              or_refused (spend_at inner app limits.rate_per_app now) after (
                let ids = on_topic topic (connections_of after app) in
                reached_some (deliver ch after app ids (message m) from)))))

    unfoldable pub close_app : Inner Q → Text → Inner Q
    unfolding deliver
    close_app inner app =
        (deliver ch inner app (map (λ e. e.0) (connections_of inner app)) close none).1

    -- The transport takes from the queue of a connection, which keeps its sender or is cut off.
    unfoldable pub transport_receives : Inner Q → Text → Text → Inner Q
    transport_receives inner app id =
        write app id (λ c. record c { tx = map_option ch.receive c.tx }) inner

  -- Whether the connection may join, and whether it has all the topics it may have.
  abbrev pub join_if : Result Unit → Bool → Text → Connection Q → Result Unit × Connection Q
  join_if (err why) full topic c = (err why, c)
  join_if (ok _) true topic c = (err too_many_topics, c)
  join_if (ok _) false topic c = (ok tt, record c { topics = set_insert topic c.topics })

  abbrev pub join_topic : Text → Connection Q → Result Unit × Connection Q
  join_topic topic c = join_if (may_join topic c.user) (is_full topic c.topics) topic c

  abbrev pub answer_of : {A : Type 0} → (Connection Q → Result A) → Option (Connection Q) → Result A
  answer_of f none = err not_open
  answer_of f (some c) = f c

  unfoldable pub subscribe : Inner Q → Text → Text → Text → Result Unit × Inner Q
  unfolding may_join
  subscribe inner app id topic = (
    answer_of (λ c. (join_topic topic c).0) (connection_of inner app id),
    write app id (λ c. (join_topic topic c).1) inner,
  )

  abbrev pub leave_topic : Text → Connection Q → Connection Q
  leave_topic topic c = record c { topics = keep (λ t. not (same t topic)) c.topics }

  unfoldable pub unsubscribe : Inner Q → Text → Text → Text → Result Unit × Inner Q
  unsubscribe inner app id topic =
      (answer_of (λ c. ok tt) (connection_of inner app id), write app id (leave_topic topic) inner)

  unfoldable pub state_get : Inner Q → Text → Text → Text → Option Text
  state_get inner app id key = elim (connection_of inner app id) [
    | none ↦ none
    | some c ↦ lookup key c.state
  ]

  abbrev pub keep_if : Bool → Text → Text → Connection Q → Result Unit × Connection Q
  keep_if true key value c = (err too_much_state, c)
  keep_if false key value c = (ok tt, record c { state = insert key value c.state })

  abbrev pub set_state : Text → Option Text → Connection Q → Result Unit × Connection Q
  set_state key none c = (ok tt, record c { state = remove key c.state })
  set_state key (some value) c =
      keep_if (ltb max_state_bytes (bytes_after key value c.state)) key value c

  unfoldable pub state_set : Inner Q → Text → Text → Text → Option Text → Result Unit × Inner Q
  state_set inner app id key value = (
    answer_of (λ c. (set_state key value c).0) (connection_of inner app id),
    write app id (λ c. (set_state key value c).1) inner,
  )

  unfoldable pub open_count : Inner Q → Text → ℕ
  open_count inner app = length (connections_of inner app)

-- What holds of the registry before a call and after each of its steps holds after the call.
module _ {Q : Type 0} (P : Inner Q → Type 0) where
  pub send_through :
      (r : Result Unit) (closed : Bool) (r' : Result Unit) (inner after : Inner Q)
      (done : ℕ × Inner Q)
      → P inner
      → P after
      → P done.1
      → P
          (or_refused r inner
            (if closed then (err not_open, inner) else or_refused r' after (reached_one done))).1
  send_through (err _) closed r' inner after done p q d = p
  send_through (ok _) true r' inner after done p q d = p
  send_through (ok _) false (err _) inner after done p q d = q
  send_through (ok _) false (ok _) inner after done p q d = d

  pub publish_through :
      (r r' : Result Unit) (closed : Bool) (r'' : Result Unit) (inner after : Inner Q)
      (done : ℕ × Inner Q)
      → P inner
      → P after
      → P done.1
      → P
          (or_refused r inner (
            or_refused r' inner
              (if closed then (ok 0, inner) else or_refused r'' after (reached_some done)))).1
  publish_through (err _) r' closed r'' inner after done p q d = p
  publish_through (ok _) (err _) closed r'' inner after done p q d = p
  publish_through (ok _) (ok _) true r'' inner after done p q d = p
  publish_through (ok _) (ok _) false (err _) inner after done p q d = q
  publish_through (ok _) (ok _) false (ok _) inner after done p q d = d

  pub close_through :
      (closed : Bool) (inner : Inner Q) (done : ℕ × Inner Q)
      → P inner
      → P done.1
      → P (if◌then◌else◌ {A = Result Unit × Inner Q} closed (err not_open, inner) (ok tt, done.1)).1
  close_through true inner done p d = p
  close_through false inner done p d = d
