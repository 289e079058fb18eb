-- ===== src/Hub/Counts/Entered.antt =====
-- A connection's way in (`register_from` of src/runtime/connections.rs) against the counts.
use toolsite.Common.{
  ℕ, ◌+◌, ◌≤◌, ◌<◌, ◌≡◌, refl, Bool, true, Option, none, some, arith, if◌then◌else◌, Text, same,
  Assoc, lookup, insert, Distinct, length, is_some, lookup-insert, insert-Distinct, inl, inr,
  Bool-cases, ap,
}
use toolsite.Hub.{
  Limits, Channel, SocketAddr, Connection, AppEntry, Inner, count_at, up_if, ip_of, Refused,
}
use toolsite.Hub.Operations.{
  connections_of, connection_of, entry_connections, entry_or_new, on_connections, ceiling, admitted,
  fresh_connection, register_from,
}
use toolsite.Hub.Counts.{
  Shape, size, one_if, tally, tally-insert, size-insert, size-every, IsSound, every, raw, held_by,
  comes_from, is_key, count_at-up,
}

pub count_at-up_if :
    (k : Text) (o : Option Text) (counts : Assoc ℕ)
    → count_at k (up_if o counts) ≡ count_at k counts + (if is_key k o then 1 else 0)
count_at-up_if k none counts = omega arith
count_at-up_if k (some j) counts = count_at-up j k counts

module _ {Q : Type 0} (ch : Channel Q) (limits : Limits) where
  -- What the ceilings leave room for.
  pub record HasRoom (inner : Inner Q) (app : Text) (user : Option Text)
      (remote : Option SocketAddr) : Type 0 where
    pub total-lt : inner.total < limits.total
    pub per_app-lt : length (connections_of inner app) < limits.per_app
    pub raw-lt : is_some remote ≡ true → size raw (connections_of inner app) < limits.raw_per_app
    pub ip-lt :
        (ip : Text) → is_key ip (ip_of remote) ≡ true → count_at ip inner.per_ip < limits.per_ip
    pub person-lt :
        (u : Text) → is_key u user ≡ true → count_at u inner.per_person < limits.per_person

  ceiling-HasRoom :
      (inner : Inner Q) (app : Text) (user : Option Text) (remote : Option SocketAddr)
      → ceiling limits inner app user remote ≡ none
      → HasRoom inner app user remote
  unfolding ceiling
  ceiling-HasRoom inner app user remote e = record {
    total-lt = ground arith;
    per_app-lt = ground arith;
    raw-lt = λ h. ground arith;
    ip-lt = λ ip h. ground arith;
    person-lt = λ u h. ground arith;
  }

  entry_or_new-connections :
      (now : ℕ) (o : Option (AppEntry Q)) → (entry_or_new now o).connections ≡ entry_connections o
  entry_or_new-connections now none = refl
  entry_or_new-connections now (some e) = refl

  module _ (inner : Inner Q) (app : Text) (user : Option Text) (remote : Option SocketAddr)
      (id : Text) (now : ℕ) where
    abbrev new : Connection Q
    new = fresh_connection ch user remote

    abbrev entered : Inner Q
    entered = admitted ch inner app user remote id now

    connections_of-admitted :
        (at : Text)
        → connections_of entered at ≡ (
            if same app at
            then insert id new (connections_of inner app)
            else connections_of inner at)
    connections_of-admitted at = ground (
      arith,
      lookup-insert app at
          (on_connections (insert id new) (entry_or_new now (lookup app inner.apps))) inner.apps,
      entry_or_new-connections now (lookup app inner.apps),
    )

    tally-admitted :
        (p : Shape → Bool)
        → connection_of inner app id ≡ none
        → tally p entered.apps ≡ tally p inner.apps + one_if p (some new)
    tally-admitted p f = omega (
      arith,
      tally-insert p app (on_connections (insert id new) (entry_or_new now (lookup app inner.apps)))
          inner.apps,
      ap (λ cs. size p (insert id new cs)) (entry_or_new-connections now (lookup app inner.apps)),
      size-insert p id new (connections_of inner app) f,
    )

    Distinct-at : (at : Text) → IsSound limits inner → Distinct (connections_of entered at)
    Distinct-at at s = elim (Bool-cases (same app at)) [
      | inl h ↦
          rw (connections_of-admitted at)
            (rw h (insert-Distinct id new (connections_of inner app) (s.ids-Distinct app)))
      | inr h ↦ rw (connections_of-admitted at) (rw h (s.ids-Distinct at))
    ]

    size_at :
        (p : Shape → Bool) (at : Text)
        → connection_of inner app id ≡ none
        → size p (connections_of entered at) ≡ (
            if same app at
            then size p (connections_of inner app) + one_if p (some new)
            else size p (connections_of inner at))
    size_at p at f = elim (Bool-cases (same app at)) [
      | inl h ↦
          rw (connections_of-admitted at) (rw h (size-insert p id new (connections_of inner app) f))
      | inr h ↦ rw (connections_of-admitted at) (rw h refl)
    ]

    per_app_at :
        (at : Text)
        → connection_of inner app id ≡ none
        → HasRoom inner app user remote
        → IsSound limits inner
        → size every (connections_of entered at) ≤ limits.per_app
    per_app_at at f r s = ground (
      arith,
      size_at every at f,
      s.per_app-le at,
      r.per_app-lt,
      size-every (connections_of inner app),
    )

    raw_at :
        (at : Text)
        → connection_of inner app id ≡ none
        → HasRoom inner app user remote
        → IsSound limits inner
        → size raw (connections_of entered at) ≤ limits.raw_per_app
    raw_at at f r s =
        ground (arith, size_at raw at f, s.raw_per_app-le at, s.raw_per_app-le app, r.raw-lt)

    admitted-IsSound :
        connection_of inner app id ≡ none
        → ceiling limits inner app user remote ≡ none
        → IsSound limits inner
        → IsSound limits entered
    admitted-IsSound f e s =
        let r = ceiling-HasRoom inner app user remote e in
        record {
          apps-Distinct = insert-Distinct app _ inner.apps s.apps-Distinct;
          ids-Distinct = λ at. Distinct-at at s;
          total-eq = omega (arith, s.total-eq, tally-admitted every f);
          per_person-eq = λ u. omega (
            arith,
            s.per_person-eq u,
            count_at-up_if u user inner.per_person,
            tally-admitted (held_by u) f,
          );
          per_ip-eq = λ ip. omega (
            arith,
            s.per_ip-eq ip,
            count_at-up_if ip (ip_of remote) inner.per_ip,
            tally-admitted (comes_from ip) f,
          );
          total-le = omega (arith, r.total-lt);
          per_app-le = λ at. per_app_at at f r s;
          raw_per_app-le = λ at. raw_at at f r s;
          per_person-le = λ u.
              ground
                (arith, s.per_person-le u, count_at-up_if u user inner.per_person, r.person-lt u);
          per_ip-le = λ ip.
              ground
                (arith, s.per_ip-le ip, count_at-up_if ip (ip_of remote) inner.per_ip, r.ip-lt ip);
        }

  pub register-IsSound :
      (inner : Inner Q) (app : Text) (user : Option Text) (remote : Option SocketAddr) (id : Text)
      (now : ℕ)
      → connection_of inner app id ≡ none
      → IsSound limits inner
      → IsSound limits (register_from ch limits inner app user remote id now).1
  unfolding register_from
  register-IsSound inner app user remote id now f s =
      registered (ceiling limits inner app user remote) refl
    where
      registered :
          (o : Option Refused)
          → ceiling limits inner app user remote ≡ o
          → IsSound limits (register_from ch limits inner app user remote id now).1
      registered none e =
          rw (e, register_from) (admitted-IsSound inner app user remote id now f e s)
      registered (some why) e = rw (e, register_from) s
