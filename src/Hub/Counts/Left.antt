-- ===== src/Hub/Counts/Left.antt =====
-- A connection's way out (`forget` of src/runtime/connections.rs) against the counts.
use toolsite.Common.{
  ℕ, ◌+◌, ◌-◌, ◌≤◌, ◌≡◌, refl, Bool, true, Option, none, some, [], ◌∷◌, arith, if◌then◌else◌, Text,
  same, Assoc, lookup, remove, modify, Distinct, length, map_option, lookup-modify, modify-Distinct,
  remove-Distinct, lookup-remove, same_eq, Option-cases, inl, inr, Bool-cases, ap,
}
use toolsite.Hub.{Limits, Connection, AppEntry, Inner, count_at, down_if, ip_of, release}
use toolsite.Hub.Operations.{
  connections_of, connection_of, entry_connections, on_apps, on_connections, forget, drop_empty,
  is_empty_app,
}
use toolsite.Hub.Counts.{
  Shape, size, one_if, tally, tally-modify, tally-remove, size-remove, IsSound, every, raw, held_by,
  comes_from, is_key, count_at-down,
}

count_at-down_if :
    (k : Text) (o : Option Text) (counts : Assoc ℕ)
    → count_at k (down_if o counts) ≡ count_at k counts - (if is_key k o then 1 else 0)
count_at-down_if k none counts = omega arith
count_at-down_if k (some j) counts = count_at-down j k counts

module _ {Q : Type 0} (limits : Limits) where
  empty_connections : (o : Option (AppEntry Q)) → is_empty_app o ≡ true → entry_connections o ≡ []
  empty_connections none h = refl
  empty_connections (some e) h = length_zero e.connections (ground arith)
    where
      length_zero : (cs : Assoc (Connection Q)) → length cs ≤ 0 → cs ≡ []
      length_zero [] h = refl
      length_zero (c ∷ cs) h = absurd (omega arith)

  removed_connections :
      (id : Text) (o : Option (AppEntry Q))
      → entry_connections (map_option (on_connections (remove id)) o)
        ≡ remove id (entry_connections o)
  unfolding remove
  removed_connections id none = refl
  removed_connections id (some e) = refl

  module _ (inner : Inner Q) (app : Text) where
    connections_of-removed :
        (at : Text)
        → entry_connections (lookup app inner.apps) ≡ []
        → connections_of (on_apps (remove app) inner) at ≡ connections_of inner at
    connections_of-removed at h = ground (arith, lookup-remove {V = AppEntry Q} app at inner.apps)

    tally-removed :
        (p : Shape → Bool)
        → entry_connections (lookup app inner.apps) ≡ []
        → IsSound limits inner
        → tally p (remove app inner.apps) ≡ tally p inner.apps
    tally-removed p h s =
        omega (arith, tally-remove p app inner.apps s.apps-Distinct, ap (λ cs. size p cs) h)

    removed-IsSound :
        entry_connections (lookup app inner.apps) ≡ []
        → IsSound limits inner
        → IsSound limits (on_apps (remove app) inner)
    removed-IsSound h s = record {
      apps-Distinct = remove-Distinct app inner.apps s.apps-Distinct;
      ids-Distinct = λ at. rw (connections_of-removed at h) (s.ids-Distinct at);
      total-eq = omega (arith, s.total-eq, tally-removed every h s);
      per_person-eq = λ u. omega (arith, s.per_person-eq u, tally-removed (held_by u) h s);
      per_ip-eq = λ ip. omega (arith, s.per_ip-eq ip, tally-removed (comes_from ip) h s);
      total-le = s.total-le;
      per_app-le = λ at. rw (connections_of-removed at h) (s.per_app-le at);
      raw_per_app-le = λ at. rw (connections_of-removed at h) (s.raw_per_app-le at);
      per_person-le = s.per_person-le;
      per_ip-le = s.per_ip-le;
    }

    drop_empty-IsSound : IsSound limits inner → IsSound limits (drop_empty app inner)
    drop_empty-IsSound s = elim (Bool-cases (is_empty_app (lookup app inner.apps))) [
      | inl e ↦ rw e (removed-IsSound (empty_connections (lookup app inner.apps) e) s)
      | inr e ↦ rw e s
    ]

    module _ (id : Text) (c : Connection Q) (l : connection_of inner app id ≡ some c) where
      abbrev without : Inner Q
      without = on_apps (modify app (on_connections (remove id))) inner

      connections_of-without :
          (at : Text)
          → connections_of without at ≡ (
              if same app at then remove id (connections_of inner app) else connections_of inner at)
      connections_of-without at = ground (
        arith,
        lookup-modify app at (on_connections (remove id)) inner.apps,
        removed_connections id (lookup app inner.apps),
      )

      tally-without :
          (p : Shape → Bool)
          → IsSound limits inner
          → tally p without.apps + one_if p (some c) ≡ tally p inner.apps
      tally-without p s = omega (
        arith,
        tally-modify p app (on_connections (remove id)) inner.apps,
        ap (λ cs. size p cs) (removed_connections id (lookup app inner.apps)),
        size-remove p id (connections_of inner app) (s.ids-Distinct app),
        ap (λ o. one_if p o) l,
      )

      size-without-le :
          (p : Shape → Bool) (at : Text)
          → IsSound limits inner
          → size p (connections_of without at) ≤ size p (connections_of inner at)
      size-without-le p at s = elim (Bool-cases (same app at)) [
        | inl h ↦ rw (connections_of-without at) (
            rw h (
              rw (← same_eq app at h)
                (omega (arith, size-remove p id (connections_of inner app) (s.ids-Distinct app)))))
        | inr h ↦ rw (connections_of-without at) (rw h (omega arith))
      ]

      Distinct-without : (at : Text) → IsSound limits inner → Distinct (connections_of without at)
      Distinct-without at s = elim (Bool-cases (same app at)) [
        | inl h ↦
            rw (connections_of-without at)
              (rw h (remove-Distinct id (connections_of inner app) (s.ids-Distinct app)))
        | inr h ↦ rw (connections_of-without at) (rw h (s.ids-Distinct at))
      ]

      released-IsSound : IsSound limits inner → IsSound limits (release without c)
      unfolding release
      released-IsSound s = record {
        apps-Distinct = modify-Distinct app (on_connections (remove id)) inner.apps s.apps-Distinct;
        ids-Distinct = λ at. Distinct-without at s;
        total-eq = omega (arith, s.total-eq, tally-without every s);
        per_person-eq = λ u. omega (
          arith,
          s.per_person-eq u,
          count_at-down_if u c.user inner.per_person,
          tally-without (held_by u) s,
        );
        per_ip-eq = λ ip. omega (
          arith,
          s.per_ip-eq ip,
          count_at-down_if ip (ip_of c.remote) inner.per_ip,
          tally-without (comes_from ip) s,
        );
        total-le = omega (arith, s.total-le);
        per_app-le = λ at. omega (arith, s.per_app-le at, size-without-le every at s);
        raw_per_app-le = λ at. omega (arith, s.raw_per_app-le at, size-without-le raw at s);
        per_person-le =
            λ u. omega (arith, s.per_person-le u, count_at-down_if u c.user inner.per_person);
        per_ip-le =
            λ ip. omega (arith, s.per_ip-le ip, count_at-down_if ip (ip_of c.remote) inner.per_ip);
      }

  pub forget-IsSound :
      (inner : Inner Q) (app id : Text)
      → IsSound limits inner
      → IsSound limits (forget inner app id)
  unfolding forget
  forget-IsSound inner app id s = elim (Option-cases (connection_of inner app id)) [
    | inl e ↦ rw (e, forget) (drop_empty-IsSound inner app s)
    | inr (c, e) ↦
        rw (e, forget)
          (drop_empty-IsSound (release (on_apps (modify app (on_connections (remove id))) inner) c)
            app (released-IsSound inner app id c e s))
  ]
