-- ===== src/Ports/Unique.antt =====
-- A port goes to one app (`parse` of src/platform/ports.rs).
use toolsite.Common.{
  ℕ, ◌≤◌, ◌≡◌, refl, true, false, Option, none, some, List, [], ◌∷◌, ◌++◌, arith, Text, All, ◌⊎◌,
  inl, inr, subst, trim,
}
use toolsite.Ports.{
  ◌>>=◌, parse_halves, place, PortProtocol, PortSocket, same_protocol, same_socket, Mapping,
  Mappings, app_for, maps, Refusal, min_port, valid_app, parse_item, parse_items, split_once,
  or_missing, protocol_of, port_from, u16_of, app_from, free_in,
}

same_protocol_comm : (p q : PortProtocol) → same_protocol p q ≡ same_protocol q p
same_protocol_comm PortProtocol.tcp PortProtocol.tcp = refl
same_protocol_comm PortProtocol.tcp PortProtocol.udp = refl
same_protocol_comm PortProtocol.udp PortProtocol.tcp = refl
same_protocol_comm PortProtocol.udp PortProtocol.udp = refl

same_protocol_refl : (p : PortProtocol) → same_protocol p p ≡ true
same_protocol_refl PortProtocol.tcp = refl
same_protocol_refl PortProtocol.udp = refl

same_socket_comm : (a b : PortSocket) → same_socket a b ≡ same_socket b a
same_socket_comm a b = ground (arith, same_protocol_comm a.protocol b.protocol)

same_socket_refl : (a : PortSocket) → same_socket a a ≡ true
same_socket_refl a = ground (arith, same_protocol_refl a.protocol)

-- A port that may be mapped, and an app's name.
abbrev pub IsGiven : Mapping → Type 0
IsGiven m = (min_port ≤ m.socket.port) × (m.socket.port ≤ 65535) × (valid_app m.app ≡ true)

-- No two mappings of one socket.
abbrev pub AreFair : Mappings → Type 0
AreFair [] = Unit
AreFair (m ∷ ms) = (app_for ms m.socket ≡ none) × IsGiven m × AreFair ms

app_for-append :
    (ms : Mappings) (m : Mapping) (s : PortSocket)
    → app_for ms s ≡ none
    → same_socket m.socket s ≡ false
    → app_for (ms ++ m ∷ []) s ≡ none
unfolding app_for
app_for-append [] m s n d = ground arith
app_for-append (x ∷ ms) m s n d = ground (arith, app_for-append ms m s)

AreFair-append :
    (ms : Mappings) (m : Mapping)
    → app_for ms m.socket ≡ none
    → IsGiven m
    → AreFair ms
    → AreFair (ms ++ m ∷ [])
unfolding app_for
AreFair-append [] m n g f = (refl, g, tt)
AreFair-append (x ∷ ms) m n g (h, k, f) = (
  app_for-append ms m x.socket h (ground (arith, same_socket_comm m.socket x.socket)),
  k,
  AreFair-append ms m (ground arith) g f,
)

pub port_from-inr :
    (text : Text) (o : Option ℕ) (n : ℕ) → port_from text o ≡ inr n → (min_port ≤ n) × (n ≤ 65535)
port_from-inr text none n e = absurd (cc)
port_from-inr text (some k) n e = (ground arith, ground arith)

app_from-inr : (app a : Text) → app_from app ≡ inr a → valid_app a ≡ true
app_from-inr app a e = ground arith

pub bind-inr :
    {A B : Type 0} (r : Refusal ⊎ A) (f : A → Refusal ⊎ B) (b : B)
    → (r >>= f) ≡ inr b
    → (a : A) × (r ≡ inr a) × (f a ≡ inr b)
bind-inr (inl why) f b e = absurd (cc)
bind-inr (inr a) f b e = (a, refl, e)

pub free_in-inr :
    (ms : Mappings) (s s' : PortSocket) (o : Option Text)
    → free_in ms s o ≡ inr s'
    → (o ≡ none) × (s ≡ s')
free_in-inr ms s s' none e = (refl, cc)
free_in-inr ms s s' (some app) e = absurd (cc)

pub inr-eq : {A B : Type 0} (x y : B) → ◌≡◌ {A = A ⊎ B} (inr x) (inr y) → x ≡ y
inr-eq x y e = cc

place-IsGiven :
    (ms : Mappings) (p : PortProtocol) (n : ℕ) (app : Text) (m : Mapping)
    → place ms p n app ≡ inr m
    → min_port ≤ n
    → n ≤ 65535
    → valid_app app ≡ true
    → (app_for ms m.socket ≡ none) × IsGiven m
place-IsGiven ms p n app m e low high v =
    let socket : PortSocket = record { protocol = p; port = n } in
    let (s, f, e') = bind-inr (free_in ms socket (app_for ms socket)) _ m e in
    let (free, q) = free_in-inr ms socket s (app_for ms socket) f in
    let m' : Mapping = record { socket = socket; app = app } in
    let eq : m' ≡ m = cc in
    subst (λ m. (app_for ms m.socket ≡ none) × IsGiven m) eq (free, (low, high, v))

parse_item-IsGiven :
    (ms : Mappings) (item : Text) (m : Mapping)
    → parse_item ms item ≡ inr m
    → (app_for ms m.socket ≡ none) × IsGiven m
unfolding parse_item
parse_item-IsGiven ms item m e =
    let (halves, h, e1) = bind-inr (or_missing item (split_once 61 item)) (parse_halves ms) m e in
    let (named, q, e2) =
      bind-inr (protocol_of (split_once 47 (trim halves.0)) (trim halves.0)) _ m e1 in
    let (number, n, e3) = bind-inr (port_from named.0 (u16_of named.0)) _ m e2 in
    let (app, v, e4) = bind-inr (app_from (trim halves.1)) _ m e3 in
    let (low, high) = port_from-inr named.0 (u16_of named.0) number n in
    place-IsGiven ms named.1 number app m e4 low high (app_from-inr (trim halves.1) app v)

pub parse_items-AreFair :
    (ms : Mappings) (items : List Text) (ms' : Mappings)
    → AreFair ms
    → parse_items ms items ≡ inr ms'
    → AreFair ms'
unfolding parse_items
parse_items-AreFair ms [] ms' f e = subst (λ ms. AreFair ms) (inr-eq ms ms' e) f
parse_items-AreFair ms (item ∷ items) ms' f e = next (parse_item ms item) refl e (λ m q r.
    let (n, g) = parse_item-IsGiven ms item m q in
    parse_items-AreFair (ms ++ m ∷ []) items ms' (AreFair-append ms m n g f) r)
  where
    next :
        (r : Refusal ⊎ Mapping)
        → parse_item ms item ≡ r
        → (elim r as (λ _. Refusal ⊎ Mappings) [
          | inl why ↦ inl why
          | inr m ↦ parse_items (ms ++ m ∷ []) items
        ])
          ≡ inr ms'
        → ((m : Mapping)
            → parse_item ms item ≡ inr m
            → parse_items (ms ++ m ∷ []) items ≡ inr ms'
            → AreFair ms')
        → AreFair ms'
    next (inl why) q e k = absurd (cc)
    next (inr m) q e k = k m q e

others_differ :
    (ms : Mappings) (s : PortSocket)
    → app_for ms s ≡ none
    → All (λ m. same_socket m.socket s ≡ false) ms
unfolding app_for
others_differ [] s n = tt
others_differ (m ∷ ms) s n = (ground arith, others_differ ms s (ground arith))

-- A mapping is in effect: its socket leads to its app, its port may be mapped, its app has a name.
abbrev pub IsInEffect : Mappings → Mapping → Type 0
IsInEffect ms m = (maps ms m.app m.socket ≡ true) × IsGiven m

pub fair-IsInEffect : (ms : Mappings) → AreFair ms → All (IsInEffect ms) ms
unfolding maps app_for
fair-IsInEffect [] f = tt
fair-IsInEffect (m ∷ ms) (n, g, f) = (
  (ground (arith, same_socket_refl m.socket), g),
  carried ms (others_differ ms m.socket n) (fair-IsInEffect ms f),
)
  where
    carried :
        (rest : Mappings)
        → All (λ x. same_socket x.socket m.socket ≡ false) rest
        → All (IsInEffect ms) rest
        → All (IsInEffect (m ∷ ms)) rest
    carried [] d h = tt
    carried (x ∷ rest) (d, ds) ((h, k), hs) =
        ((ground (arith, same_socket_comm m.socket x.socket), k), carried rest ds hs)
