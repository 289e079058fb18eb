-- ===== src/Hub/Tests.antt =====
-- The registry of src/runtime/connections.rs on small inputs, with a queue that is a list: the
-- theorems' hypotheses can hold.
use toolsite.Common.{
  ℕ, ◌+◌, ◌-◌, ◌≤◌, ◌≡◌, refl, true, none, some, List, [], ◌∷◌, ◌++◌, arith, Text, codes, length,
  if◌then◌else◌, ltb, lookup, insert, modify, text_discrete,
}
use toolsite.Hub.{
  text, Outgoing, message, close, Channel, ChannelLaws, Limits, Connection, count_at, contains,
  state_bytes, max_topics, max_state_bytes, may_join, user_topic_id, ok, spend, valid_topic,
}
use toolsite.Hub.Operations.{
  connections_of, connection_of, accepted, register_from, ceiling, offer, deliver, accept,
}
use toolsite.Hub.Methods.{open_count, subscribe, publish}
use toolsite.Hub.Steps.{Call, registers, subscribes, publishes, accepts, run, step, AllFresh}
use toolsite.Hub.Counts.{tally, size, every, raw, held_by, comes_from}
use toolsite.Hub.Counts.History.{no_connections, counts_and_ceilings}
use toolsite.Hub.Lawful.History.{topics_are_own}
use toolsite.Hub.Ordering.{Event, own, other, received, after, snapshot_comes_first}

-- What was sent, and how many of it were received.
abbrev Queue : Type 0
Queue = List Outgoing × ℕ

abbrev room : Queue → ℕ
room (sent, taken) = 64 - (length sent - taken)

abbrev list_channel : Channel Queue
list_channel = record {
  fresh = ([], 0);
  capacity = room;
  send = λ q out. if ltb 0 (room q) then some (q.0 ++ out ∷ [], q.1) else none;
  receive = λ q. (q.0, q.1 + 1);
  sent = λ q. q.0;
}

list_channel-Laws : ChannelLaws list_channel
list_channel-Laws = record {
  sent-fresh = refl;
  sent-receive = λ q. refl;
  sent-send = λ q q' out e. ground arith;
}

abbrev limits : Limits
limits = record {
  per_app = 2;
  per_person = 1;
  total = 10;
  rate_per_app = 3;
  raw_per_app = 1;
  per_ip = 1;
}

abbrev app : Text
app = codes "chat"

abbrev ann : Text
ann = codes "ann"

abbrev history : List (ℕ × Call)
history =
    (5, registers app (some ann) none (codes "c1"))
    ∷ (6, registers app none none (codes "c2"))
    ∷ (7, subscribes app (codes "c1") (codes "user:ann"))
    ∷ (8, accepts app (codes "c1"))
    ∷ (9, publishes app (codes "user:ann") (text (codes "hi")) none)
    ∷ []

history-AllFresh : AllFresh list_channel limits no_connections history
unfolding step register_from ceiling lookup insert text_discrete
history-AllFresh = (refl, (refl, (tt, (tt, (tt, tt)))))

counts_and_ceilings_example :
    let inner = run list_channel limits no_connections history in
    (inner.total ≡ tally every inner.apps)
    × (inner.total ≤ limits.total)
    × (count_at ann inner.per_person ≡ tally (held_by ann) inner.apps)
    × (tally (held_by ann) inner.apps ≤ limits.per_person)
    × (count_at (codes "::1") inner.per_ip ≡ tally (comes_from (codes "::1")) inner.apps)
    × (tally (comes_from (codes "::1")) inner.apps ≤ limits.per_ip)
    × (open_count inner app ≤ limits.per_app)
    × (size raw (connections_of inner app) ≤ limits.raw_per_app)
counts_and_ceilings_example =
    counts_and_ceilings list_channel limits history app ann (codes "::1") history-AllFresh

abbrev snapshot : Outgoing
snapshot = message (text (codes "snapshot"))

abbrev news : Outgoing
news = message (text (codes "news"))

abbrev connecting : List Event
connecting = other news ∷ own snapshot ∷ received ∷ []

snapshot_comes_first_example :
    list_channel.sent (snapshot ∷ news ∷ close ∷ [], 1) ≡ snapshot ∷ news ∷ close ∷ []
unfolding after offer accepted
snapshot_comes_first_example =
    snapshot_comes_first list_channel list_channel-Laws (some ann) none connecting
      (other close ∷ []) (snapshot ∷ news ∷ close ∷ [], 1) refl

abbrev own_connection : Connection Queue
own_connection = record {
  user = some ann;
  remote = none;
  topics = codes "user:ann" ∷ [];
  tx = some (message (text (codes "hi")) ∷ [], 0);
  held = none;
  state = [];
}

own_held :
    connection_of (run list_channel limits no_connections history) app (codes "c1")
    ≡ some own_connection
unfolding run step register_from ceiling subscribe may_join valid_topic accept accepted publish
    spend deliver offer lookup insert modify text_discrete
own_held = refl

topics_are_own_example :
    (length own_connection.topics ≤ max_topics)
    × (state_bytes own_connection.state ≤ max_state_bytes)
    × ((topic : Text)
        → contains topic own_connection.topics ≡ true
        → may_join topic own_connection.user ≡ ok tt)
    × ((topic owner : Text)
        → contains topic own_connection.topics ≡ true
        → user_topic_id topic ≡ some owner
        → own_connection.user ≡ some owner)
topics_are_own_example =
    topics_are_own list_channel limits history app (codes "c1") own_connection own_held
