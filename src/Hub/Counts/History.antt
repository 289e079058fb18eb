-- ===== src/Hub/Counts/History.antt =====
-- The counts and the ceilings of src/runtime/connections.rs in every history.
use toolsite.Common.{ℕ, ◌≤◌, ◌≡◌, refl, List, [], ◌∷◌, arith, Text, lookup}
use toolsite.Hub.{Channel, Limits, Inner, count_at}
use toolsite.Hub.Operations.{connections_of}
use toolsite.Hub.Methods.{open_count}
use toolsite.Hub.Steps.{
  Call, registers, forgets, accepts, receives, sends, closes, publishes, closes_app, subscribes,
  unsubscribes, sets, step, run, IsFresh, AllFresh,
}
use toolsite.Hub.Counts.{IsSound, size, size-every, tally, every, raw, held_by, comes_from}
use toolsite.Hub.Counts.Kept.{
  send-IsSound, publish-IsSound, close_one-IsSound, close_app-IsSound, accept-IsSound,
  receives-IsSound, subscribe-IsSound, unsubscribe-IsSound, state_set-IsSound,
}
use toolsite.Hub.Counts.Entered.{register-IsSound}
use toolsite.Hub.Counts.Left.{forget-IsSound}

abbrev pub no_connections : {Q : Type 0} → Inner Q
no_connections = record { apps = []; per_person = []; per_ip = []; total = 0 }

module _ {Q : Type 0} (ch : Channel Q) (limits : Limits) where
  no_connections-IsSound : IsSound limits (no_connections {Q = Q})
  unfolding lookup
  no_connections-IsSound = record {
    apps-Distinct = tt;
    ids-Distinct = λ app. tt;
    total-eq = refl;
    per_person-eq = λ u. refl;
    per_ip-eq = λ ip. refl;
    total-le = omega arith;
    per_app-le = λ app. omega arith;
    raw_per_app-le = λ app. omega arith;
    per_person-le = λ u. omega arith;
    per_ip-le = λ ip. omega arith;
  }

  step-IsSound :
      (inner : Inner Q) (c : ℕ × Call)
      → IsFresh inner c
      → IsSound limits inner
      → IsSound limits (step ch limits inner c)
  unfolding step
  step-IsSound inner (now, registers app user remote id) f s =
      register-IsSound ch limits inner app user remote id now f s
  step-IsSound inner (now, forgets app id) f s = forget-IsSound limits inner app id s
  step-IsSound inner (now, accepts app id) f s = accept-IsSound ch limits inner app id s
  step-IsSound inner (now, receives app id) f s = receives-IsSound ch limits inner app id s
  step-IsSound inner (now, sends app id m from) f s =
      send-IsSound ch limits inner app id m from now s
  step-IsSound inner (now, closes app id from) f s = close_one-IsSound ch limits inner app id from s
  step-IsSound inner (now, publishes app topic m from) f s =
      publish-IsSound ch limits inner app topic m from now s
  step-IsSound inner (now, closes_app app) f s = close_app-IsSound ch limits inner app s
  step-IsSound inner (now, subscribes app id topic) f s =
      subscribe-IsSound limits inner app id topic s
  step-IsSound inner (now, unsubscribes app id topic) f s =
      unsubscribe-IsSound limits inner app id topic s
  step-IsSound inner (now, sets app id key value) f s =
      state_set-IsSound limits inner app id key value s

  run-IsSound :
      (inner : Inner Q) (cs : List (ℕ × Call))
      → AllFresh ch limits inner cs
      → IsSound limits inner
      → IsSound limits (run ch limits inner cs)
  unfolding run
  run-IsSound inner [] f s = s
  run-IsSound inner (c ∷ cs) f s =
      run-IsSound (step ch limits inner c) cs f.1 (step-IsSound inner c f.0 s)

  -- The counters never drift, and no ceiling is ever exceeded: in every history of calls that starts
  -- with no connections, in which each new id is one the app does not have, the total, each account's
  -- and each address's counters are the numbers of connections that are registered, closed by a
  -- queue that fell behind or not; and there are at most as many as the ceilings say, in all, on
  -- each app, from sockets on each app, of each account and of each address.
  pub counts_and_ceilings :
      (cs : List (ℕ × Call)) (app user ip : Text)
      → AllFresh ch limits no_connections cs
      → let inner = run ch limits no_connections cs in
        (inner.total ≡ tally every inner.apps)
        × (inner.total ≤ limits.total)
        × (count_at user inner.per_person ≡ tally (held_by user) inner.apps)
        × (tally (held_by user) inner.apps ≤ limits.per_person)
        × (count_at ip inner.per_ip ≡ tally (comes_from ip) inner.apps)
        × (tally (comes_from ip) inner.apps ≤ limits.per_ip)
        × (open_count inner app ≤ limits.per_app)
        × (size raw (connections_of inner app) ≤ limits.raw_per_app)
  unfolding open_count
  counts_and_ceilings cs app user ip f =
      let inner = run ch limits no_connections cs in
      let s = run-IsSound no_connections cs f no_connections-IsSound in
      (
        s.total-eq,
        s.total-le,
        s.per_person-eq user,
        omega (arith, s.per_person-eq user, s.per_person-le user),
        s.per_ip-eq ip,
        omega (arith, s.per_ip-eq ip, s.per_ip-le ip),
        omega (arith, size-every (connections_of inner app), s.per_app-le app),
        s.raw_per_app-le app,
      )
