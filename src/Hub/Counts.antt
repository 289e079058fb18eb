-- ===== src/Hub/Counts.antt =====
-- What the registry of src/runtime/connections.rs counts, against the connections it holds.
pub mod Kept
pub mod Entered
pub mod Left
pub mod History
use toolsite.Common.{
  ℕ, zero, suc, ◌+◌, ◌-◌, ◌≤◌, ◌≡◌, refl, Bool, true, false, ◌&&◌, Option, none, some, List, [],
  ◌∷◌, arith, if◌then◌else◌, Text, same, Assoc, lookup, insert, remove, modify, Distinct, count,
  length, map_option, is_some, lookup-remove, lookup-modify, lookup-insert, text_discrete,
  Option-cases, inl, inr,
}
use toolsite.Hub.{
  Limits, SocketAddr, Connection, AppEntry, Inner, count_at, count_up, count_down, up_if, down_if,
  ip_of,
}
use toolsite.Hub.Operations.{connections_of, entry_connections}

-- Who holds a connection and where it comes from, which no method changes.
abbrev pub Shape : Type 0
Shape = Option Text × Option SocketAddr

abbrev pub shape : {Q : Type 0} → Connection Q → Shape
shape c = (c.user, c.remote)

abbrev pub is_key : Text → Option Text → Bool
is_key k none = false
is_key k (some j) = same j k

abbrev pub every : Shape → Bool
every s = true

abbrev pub raw : Shape → Bool
raw s = is_some s.1

abbrev pub held_by : Text → Shape → Bool
held_by user s = is_key user s.0

abbrev pub comes_from : Text → Shape → Bool
comes_from ip s = is_key ip (ip_of s.1)

module _ {Q : Type 0} where
  -- How many of an app's connections, and of all apps'.
  abbrev pub size : (Shape → Bool) → Assoc (Connection Q) → ℕ
  size p cs = count (λ e. p (shape e.1)) cs

  abbrev pub one_if : (Shape → Bool) → Option (Connection Q) → ℕ
  one_if p none = 0
  one_if p (some c) = if p (shape c) then 1 else 0

  abbrev pub tally : (Shape → Bool) → Assoc (AppEntry Q) → ℕ
  tally p [] = 0
  tally p ((app, e) ∷ apps) = size p e.connections + tally p apps

  -- The counters are the numbers of connections there are, and no ceiling is exceeded.
  pub record IsSound (limits : Limits) (inner : Inner Q) : Type 0 where
    pub apps-Distinct : Distinct inner.apps
    pub ids-Distinct : (app : Text) → Distinct (connections_of inner app)
    pub total-eq : inner.total ≡ tally every inner.apps
    pub per_person-eq :
        (user : Text) → count_at user inner.per_person ≡ tally (held_by user) inner.apps
    pub per_ip-eq : (ip : Text) → count_at ip inner.per_ip ≡ tally (comes_from ip) inner.apps
    pub total-le : inner.total ≤ limits.total
    pub per_app-le : (app : Text) → size every (connections_of inner app) ≤ limits.per_app
    pub raw_per_app-le : (app : Text) → size raw (connections_of inner app) ≤ limits.raw_per_app
    pub per_person-le : (user : Text) → count_at user inner.per_person ≤ limits.per_person
    pub per_ip-le : (ip : Text) → count_at ip inner.per_ip ≤ limits.per_ip

  pub size-every : (cs : Assoc (Connection Q)) → size every cs ≡ length cs
  size-every [] = refl
  size-every (e ∷ cs) = ground (arith, size-every cs)

  pub size-insert :
      (p : Shape → Bool) (id : Text) (c : Connection Q) (cs : Assoc (Connection Q))
      → lookup id cs ≡ none
      → size p (insert id c cs) ≡ size p cs + one_if p (some c)
  unfolding insert lookup
  size-insert p id c [] h = ground arith
  size-insert p id c ((j, d) ∷ cs) h = ground (arith, size-insert p id c cs)

  size-remove-none :
      (p : Shape → Bool) (id : Text) (cs : Assoc (Connection Q))
      → lookup id cs ≡ none
      → size p (remove id cs) ≡ size p cs
  unfolding remove lookup
  size-remove-none p id [] h = refl
  size-remove-none p id ((j, d) ∷ cs) h = ground (arith, size-remove-none p id cs)

  pub size-remove :
      (p : Shape → Bool) (id : Text) (cs : Assoc (Connection Q))
      → Distinct cs
      → size p (remove id cs) + one_if p (lookup id cs) ≡ size p cs
  unfolding remove lookup
  size-remove p id [] d = refl
  size-remove p id ((j, c) ∷ cs) d =
      ground (arith, size-remove p id cs d.1, size-remove-none p id cs)

  pub size-modify :
      (p : Shape → Bool) (id : Text) (f : Connection Q → Connection Q) (cs : Assoc (Connection Q))
      → ((c : Connection Q) → shape (f c) ≡ shape c)
      → size p (modify id f cs) ≡ size p cs
  unfolding modify
  size-modify p id f [] h = refl
  size-modify p id f ((j, c) ∷ cs) h = ground (arith, size-modify p id f cs h, h c)

  pub tally-insert :
      (p : Shape → Bool) (app : Text) (e : AppEntry Q) (apps : Assoc (AppEntry Q))
      → tally p (insert app e apps) + size p (entry_connections (lookup app apps))
        ≡ tally p apps + size p e.connections
  unfolding insert lookup
  tally-insert p app e [] = ground arith
  tally-insert p app e ((j, d) ∷ apps) = ground (arith, tally-insert p app e apps)

  pub tally-modify :
      (p : Shape → Bool) (app : Text) (f : AppEntry Q → AppEntry Q) (apps : Assoc (AppEntry Q))
      → tally p (modify app f apps) + size p (entry_connections (lookup app apps))
        ≡ tally p apps + size p (entry_connections (map_option f (lookup app apps)))
  unfolding modify lookup
  tally-modify p app f [] = ground arith
  tally-modify p app f ((j, d) ∷ apps) = ground (arith, tally-modify p app f apps)

  tally-remove-none :
      (p : Shape → Bool) (app : Text) (apps : Assoc (AppEntry Q))
      → lookup app apps ≡ none
      → tally p (remove app apps) ≡ tally p apps
  unfolding remove lookup
  tally-remove-none p app [] h = refl
  tally-remove-none p app ((j, d) ∷ apps) h = ground (arith, tally-remove-none p app apps)

  pub tally-remove :
      (p : Shape → Bool) (app : Text) (apps : Assoc (AppEntry Q))
      → Distinct apps
      → tally p (remove app apps) + size p (entry_connections (lookup app apps)) ≡ tally p apps
  unfolding remove lookup
  tally-remove p app [] d = refl
  tally-remove p app ((j, e) ∷ apps) d =
      ground (arith, tally-remove p app apps d.1, tally-remove-none p app apps)

pub count_at-up :
    (k j : Text) (counts : Assoc ℕ)
    → count_at j (count_up k counts) ≡ count_at j counts + (if same k j then 1 else 0)
count_at-up k j counts = ground (arith, lookup-insert k j (count_at k counts + 1) counts)

pub count_at-down :
    (k j : Text) (counts : Assoc ℕ)
    → count_at j (count_down k counts) ≡ count_at j counts - (if same k j then 1 else 0)
count_at-down k j counts = elim (Option-cases (lookup k counts)) [
  | inl e ↦ ground (arith, e)
  | inr (n, e) ↦
      ground (arith, e, lookup-remove {V = ℕ} k j counts, lookup-modify k j (λ _. n - 1) counts)
]
