-- ===== src/Hub.antt =====
-- src/runtime/connections.rs: the registry of live connections. This file is its data, the rules for
-- topics and the counters; the children are the operations and what they keep true. The lock makes
-- every method one step on the registry. A bounded queue (`mpsc::channel`) is other people's code: a
-- parameter, with what the registry relies on in `ChannelLaws`. An instant is a number of
-- nanoseconds; the id of a connection is drawn at random and is an argument.
mod Tests
pub mod Operations
pub mod Methods
pub mod Steps
pub mod Counts
pub mod Lawful
pub mod Ordering
use toolsite.Common.{
  ℕ, ◌+◌, ◌-◌, ◌*◌, ◌≡◌, Bool, true, false, not, ◌&&◌, ◌||◌, Option, none, some, List, [], ◌∷◌,
  ◌++◌, leb, ltb, if◌then◌else◌, Text, codes, same, Assoc, lookup, insert, remove, modify, length,
  all, any, is_some, map_option, strip_prefix, ◌==◌,
}

pub data Message : Type 0 where
  text binary : Text → Message

abbrev pub len : Message → ℕ
len (text s) = length s
len (binary s) = length s

pub data Outgoing : Type 0 where
  message : Message → Outgoing
  close : Outgoing

-- `send` is `try_send`, `none` where the queue is full or its reader is gone; `receive` is what the
-- transport does at the other end. `sent` says what was put in, in order, since the queue was made.
pub record Channel (Q : Type 0) : Type 0 where
  pub fresh : Q
  pub capacity : Q → ℕ
  pub send : Q → Outgoing → Option Q
  pub receive : Q → Q
  pub sent : Q → List Outgoing

pub record ChannelLaws {Q : Type 0} (ch : Channel Q) : Type 0 where
  pub sent-fresh : ch.sent ch.fresh ≡ []
  pub sent-receive : (q : Q) → ch.sent (ch.receive q) ≡ ch.sent q
  pub sent-send :
      (q q' : Q) (out : Outgoing) → ch.send q out ≡ some q' → ch.sent q' ≡ ch.sent q ++ out ∷ []

pub record Limits : Type 0 where
  pub per_app : ℕ
  pub per_person : ℕ
  pub total : ℕ
  pub rate_per_app : ℕ
  pub raw_per_app : ℕ
  pub per_ip : ℕ

-- Address and port.
pub record SocketAddr : Type 0 where
  pub ip : Text
  pub port : ℕ

-- What a call is refused for.
pub data Refused : Type 0 where
  full_server full_app full_raw full_ip full_person not_open bad_topic other_person : Refused
  too_many_topics too_fast too_large fell_behind too_much_state : Refused

pub data Result (A : Type 0) : Type 0 where
  ok : A → Result A
  err : Refused → Result A

abbrev pub max_message_bytes : ℕ
max_message_bytes = 64 * 1024

abbrev pub max_state_bytes : ℕ
max_state_bytes = 64 * 1024

abbrev pub max_topics : ℕ
max_topics = 32

-- One second.
abbrev pub second : ℕ
second = 1000000000

abbrev pub plain_byte : ℕ → Bool
plain_byte b = (leb 97 b && leb b 122) || (leb 48 b && leb b 57) || b == 45 || b == 95

abbrev pub id_byte : ℕ → Bool
id_byte b =
    (leb 97 b && leb b 122)
    || (leb 65 b && leb b 90)
    || (leb 48 b && leb b 57)
    || b == 45
    || b == 95

abbrev pub short : Text → Bool
short name = leb 1 (length name) && leb (length name) 64

abbrev pub plain_topic : Text → Bool
plain_topic name = short name && all plain_byte name

abbrev pub user_topic_id : Text → Option Text
user_topic_id name = elim (strip_prefix name (codes "user:")) [
  | none ↦ none
  | some id ↦ if short id && all id_byte id then some id else none
]

unfoldable pub valid_topic : Text → Result Unit
valid_topic topic =
    if plain_topic topic || is_some (user_topic_id topic) then ok tt else err bad_topic

abbrev pub join_for : Text → Option Text → Option Text → Result Unit
join_for topic none holder = ok tt
join_for topic (some id) (some me) = if same id me then ok tt else err other_person
join_for topic (some id) none = err other_person

unfoldable pub may_join : Text → Option Text → Result Unit
unfolding valid_topic
may_join topic holder = elim (valid_topic topic) [
  | err why ↦ err why
  | ok _ ↦ join_for topic (user_topic_id topic) holder
]

-- A set of topics is a list without repetitions.
abbrev pub contains : Text → List Text → Bool
contains topic topics = any (λ t. same t topic) topics

abbrev pub set_insert : Text → List Text → List Text
set_insert topic topics = if contains topic topics then topics else topic ∷ topics

abbrev pub state_bytes : Assoc Text → ℕ
state_bytes [] = 0
state_bytes ((k, v) ∷ state) = length k + length v + state_bytes state

module _ (Q : Type 0) where
  pub record Connection : Type 0 where
    pub user : Option Text
    pub remote : Option SocketAddr
    pub topics : List Text
    pub tx : Option Q
    pub held : Option (List Outgoing)
    pub state : Assoc Text

  pub record AppEntry : Type 0 where
    pub connections : Assoc Connection
    pub window_start : ℕ
    pub sent_in_window : ℕ
    pub last_warning : Option ℕ

  pub record Inner : Type 0 where
    pub apps : Assoc AppEntry
    pub per_person : Assoc ℕ
    pub per_ip : Assoc ℕ
    pub total : ℕ

-- `get(key).copied().unwrap_or(0)`.
abbrev pub count_at : Text → Assoc ℕ → ℕ
count_at k counts = elim (lookup k counts) [ none ↦ 0 | some n ↦ n ]

-- `*entry(key).or_default() += 1`.
abbrev pub count_up : Text → Assoc ℕ → Assoc ℕ
count_up k counts = insert k (count_at k counts + 1) counts

-- One less, and no entry for none.
abbrev pub count_down : Text → Assoc ℕ → Assoc ℕ
count_down k counts = elim (lookup k counts) [
  | none ↦ counts
  | some n ↦ if n - 1 == 0 then remove k counts else modify k (λ _. n - 1) counts
]

abbrev pub up_if : Option Text → Assoc ℕ → Assoc ℕ
up_if none counts = counts
up_if (some k) counts = count_up k counts

abbrev pub down_if : Option Text → Assoc ℕ → Assoc ℕ
down_if none counts = counts
down_if (some k) counts = count_down k counts

abbrev pub ip_of : Option SocketAddr → Option Text
ip_of = map_option (λ a. a.ip)

abbrev may_warn : ℕ → Option ℕ → Bool
may_warn now none = true
may_warn now (some at) = leb second (now - at)

module _ {Q : Type 0} where
  -- Counts one message against the app's rate, or refuses it.
  unfoldable pub spend : AppEntry Q → ℕ → ℕ → Result Unit × AppEntry Q
  spend entry limit now =
      let fresh = leb second (now - entry.window_start) in
      let start = if fresh then now else entry.window_start in
      let sent = if fresh then 0 else entry.sent_in_window in
      if leb limit sent
      then (
        err too_fast,
        record entry {
          window_start = start;
          sent_in_window = sent;
          last_warning = if may_warn now entry.last_warning then some now else entry.last_warning;
        },
      )
      else (ok tt, record entry { window_start = start; sent_in_window = sent + 1 })

  unfoldable pub release : Inner Q → Connection Q → Inner Q
  release inner c = record inner {
    total = inner.total - 1;
    per_ip = down_if (ip_of c.remote) inner.per_ip;
    per_person = down_if c.user inner.per_person;
  }
