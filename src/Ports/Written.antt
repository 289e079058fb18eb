-- ===== src/Ports/Written.antt =====
-- The mappings that `parse` of src/platform/ports.rs reads are those of the text.
use toolsite.Common.{
  ℕ, ◌≡◌, refl, Bool, false, not, Option, none, some, List, [], ◌∷◌, ◌++◌, map, keep, any, arith,
  Text, codes, All, ◌⊎◌, inl, inr, sym, ◌∙◌, ap, subst, trim, ◌==◌, same, same_eq, Bool-cases,
  Option-cases,
}
use toolsite.Access.Paths.{is_empty}
use toolsite.Ports.{
  parse_halves, place, PortProtocol, PortSocket, Mapping, Mappings, app_for, Refusal, parse_item,
  parse_items, parse, split_commas, split_once, before_sep, or_missing, protocol_of, port_from,
  u16_of, app_from, free_in,
}
use toolsite.Ports.Unique.{
  bind-inr, free_in-inr, inr-eq, parse_items-AreFair, fair-IsInEffect, IsInEffect,
}

abbrev pub has : ℕ → Text → Bool
has sep s = any (λ c. c == sep) s

abbrev pub word_of : PortProtocol → Text
word_of PortProtocol.tcp = codes "tcp"
word_of PortProtocol.udp = codes "udp"

-- `<port>/tcp`, `<port>/udp`, or `<port>` alone, which is of tcp.
abbrev pub WritesSocket : Text → PortSocket → Type 0
WritesSocket text s =
    ((has 47 text ≡ false) × (s.protocol ≡ PortProtocol.tcp) × (u16_of (trim text) ≡ some s.port))
    ⊎ ((number : Text) × (text ≡ number ++ 47 ∷ word_of s.protocol)
        × (has 47 number ≡ false)
        × (u16_of number ≡ some s.port))

-- `<socket>=<app>`, with white space around each.
abbrev pub Writes : Text → Mapping → Type 0
Writes item m =
    (port : Text) × (app : Text) × (item ≡ port ++ 61 ∷ app)
    × (has 61 port ≡ false)
    × WritesSocket (trim port) m.socket
    × (trim app ≡ m.app)

-- Item by item, in order.
abbrev pub WriteAll : List Text → Mappings → Type 0
WriteAll [] [] = Unit
WriteAll (item ∷ items) (m ∷ ms) = Writes item m × WriteAll items ms
WriteAll items ms = ⊥

split_once-none : (sep : ℕ) (s : Text) → split_once sep s ≡ none → has sep s ≡ false
split_once-none sep [] e = refl
split_once-none sep (c ∷ s) e = ground (arith, split_once-none sep s)

split_once-some :
    (sep : ℕ) (s : Text) (p : Text × Text)
    → split_once sep s ≡ some p
    → (s ≡ p.0 ++ sep ∷ p.1) × (has sep p.0 ≡ false)
split_once-some sep [] p e = absurd (let f : ⊥ = cc in f)
split_once-some sep (c ∷ s) p e = elim (Bool-cases (c == sep)) [
  | inl h ↦
      let at : c ≡ sep = ground arith in
      let is : ([], s) ≡ p = ground (arith, h) in
      subst (λ p. (c ∷ s ≡ p.0 ++ sep ∷ p.1) × (has sep p.0 ≡ false)) is (ap (λ x. x ∷ s) at, refl)
  | inr h ↦ elim (Option-cases (split_once sep s)) [
    | inl n ↦ absurd (let f : ⊥ = ground (arith, h, n) in f)
    | inr (q, n) ↦
        let (t, u) = split_once-some sep s q n in
        let is : before_sep c q ≡ p = ground (arith, h, n) in
        subst (λ p. (c ∷ s ≡ p.0 ++ sep ∷ p.1) × (has sep p.0 ≡ false)) is
          (ap (λ x. c ∷ x) t, ground (arith, h, u))
  ]
]

append_nil : (ms : Mappings) → ms ++ [] ≡ ms
append_nil [] = refl
append_nil (m ∷ ms) = ap (λ x. m ∷ x) (append_nil ms)

append_one : (ms : Mappings) (m : Mapping) (new : Mappings) → (ms ++ m ∷ []) ++ new ≡ ms ++ m ∷ new
append_one [] m new = refl
append_one (x ∷ ms) m new = ap (λ y. x ∷ y) (append_one ms m new)

port_from-is : (text : Text) (o : Option ℕ) (n : ℕ) → port_from text o ≡ inr n → o ≡ some n
port_from-is text none n e = absurd (let f : ⊥ = cc in f)
port_from-is text (some k) n e = ground arith

app_from-is : (app a : Text) → app_from app ≡ inr a → app ≡ a
app_from-is app a e = ground arith

tcp_or_udp :
    (number word : Text) (named : Text × PortProtocol)
    → protocol_of (some (number, word)) [] ≡ inr named
    → (number ≡ named.0) × (word ≡ word_of named.1)
tcp_or_udp number word named e = elim (Bool-cases (same word (codes "tcp"))) [
  | inl h ↦
      let is : (number, PortProtocol.tcp) ≡ named = ground (arith, h) in
      (ap (λ p. p.0) is, same_eq word (codes "tcp") h ∙ ap (λ p. word_of p.1) is)
  | inr n ↦ elim (Bool-cases (same word (codes "udp"))) [
    | inl h ↦
        let is : (number, PortProtocol.udp) ≡ named = ground (arith, n, h) in
        (ap (λ p. p.0) is, same_eq word (codes "udp") h ∙ ap (λ p. word_of p.1) is)
    | inr h ↦ absurd (let f : ⊥ = ground (arith, n, h) in f)
  ]
]

-- Which protocol, and the text of the number.
protocol_of-writes :
    (port : Text) (o : Option (Text × Text)) (named : Text × PortProtocol) (n : ℕ)
    → split_once 47 port ≡ o
    → protocol_of o port ≡ inr named
    → u16_of named.0 ≡ some n
    → WritesSocket port (record { protocol = named.1; port = n })
protocol_of-writes port none named n q e u =
    let is : (trim port, PortProtocol.tcp) ≡ named = inr-eq (trim port, PortProtocol.tcp) named e in
    inl (split_once-none 47 port q, sym (ap (λ p. p.1) is), ap (λ p. u16_of p.0) is ∙ u)
protocol_of-writes port (some (number, word)) named n q e u =
    let (a, b) = tcp_or_udp number word named e in
    let (t, h) = split_once-some 47 port (number, word) q in
    inr (number, t ∙ ap (λ w. number ++ 47 ∷ w) b, h, ap u16_of a ∙ u)

place-is :
    (ms : Mappings) (p : PortProtocol) (n : ℕ) (app : Text) (m : Mapping)
    → place ms p n app ≡ inr m
    → record { socket = record { protocol = p; port = n }; app = app } ≡ m
place-is ms p n app m e =
    let socket : PortSocket = record { protocol = p; port = n } in
    let (s, f, e') = bind-inr (free_in ms socket (app_for ms socket)) _ m e in
    let (free, q) = free_in-inr ms socket s (app_for ms socket) f in cc

or_missing-is :
    (item : Text) (o : Option (Text × Text)) (halves : Text × Text)
    → or_missing item o ≡ inr halves
    → o ≡ some halves
or_missing-is item none halves e = absurd (let f : ⊥ = cc in f)
or_missing-is item (some p) halves e = cc

parse_item-Writes :
    (ms : Mappings) (item : Text) (m : Mapping) → parse_item ms item ≡ inr m → Writes item m
unfolding parse_item
parse_item-Writes ms item m e =
    let (halves, h, e1) = bind-inr (or_missing item (split_once 61 item)) (parse_halves ms) m e in
    let (named, q, e2) =
      bind-inr (protocol_of (split_once 47 (trim halves.0)) (trim halves.0)) _ m e1 in
    let (number, n, e3) = bind-inr (port_from named.0 (u16_of named.0)) _ m e2 in
    let (app, v, e4) = bind-inr (app_from (trim halves.1)) _ m e3 in
    let (t, u) =
      split_once-some 61 item halves (or_missing-is item (split_once 61 item) halves h) in
    let socket =
      protocol_of-writes (trim halves.0) (split_once 47 (trim halves.0)) named number refl q
        (port_from-is named.0 (u16_of named.0) number n) in
    let is = place-is ms named.1 number app m e4 in
    (
      halves.0,
      halves.1,
      t,
      u,
      subst (λ s. WritesSocket (trim halves.0) s) (ap (λ m. m.socket) is) socket,
      app_from-is (trim halves.1) app v ∙ ap (λ m. m.app) is,
    )

parse_items-WriteAll :
    (ms : Mappings) (items : List Text) (ms' : Mappings)
    → parse_items ms items ≡ inr ms'
    → (new : Mappings) × (ms ++ new ≡ ms') × WriteAll items new
unfolding parse_items
parse_items-WriteAll ms [] ms' e = ([], append_nil ms ∙ inr-eq ms ms' e, tt)
parse_items-WriteAll ms (item ∷ items) ms' e =
    next (parse_item ms item) refl e (λ m. parse_items-WriteAll (ms ++ m ∷ []) items ms')
  where
    next :
        (r : Refusal ⊎ Mapping)
        → parse_item ms item ≡ r
        → (elim r as (λ _. Refusal ⊎ Mappings) [
          | inl why ↦ inl why
          | inr m ↦ parse_items (ms ++ m ∷ []) items
        ])
          ≡ inr ms'
        → ((m : Mapping)
            → parse_items (ms ++ m ∷ []) items ≡ inr ms'
            → (new : Mappings) × ((ms ++ m ∷ []) ++ new ≡ ms') × WriteAll items new)
        → (new : Mappings) × (ms ++ new ≡ ms') × WriteAll (item ∷ items) new
    next (inl why) q e k = absurd (let f : ⊥ = cc in f)
    next (inr m) q e k =
        let (new, is, all) = k m e in
        (m ∷ new, sym (append_one ms m new) ∙ is, (parse_item-Writes ms item m q, all))

-- The items of the variable: between commas, without white space around them, those not empty.
abbrev pub items_of : Text → List Text
items_of spec = keep (λ item. not (is_empty item)) (map trim (split_commas spec))

-- What the site's owner wrote is what holds: where the variable is accepted, its items, between commas,
-- are the mappings, one for one and in order, each written as `<port>/tcp`, `<port>/udp` or `<port>`
-- alone for tcp, then `=` and the app; and each is in effect, so no two give one socket to different
-- apps, each port is from 1024 to 65535 and each app's name is one segment of a slug.
pub parse-IsInEffect :
    (spec : Text) (ms : Mappings)
    → parse spec ≡ inr ms
    → WriteAll (items_of spec) ms × All (IsInEffect ms) ms
unfolding parse
parse-IsInEffect spec ms e =
    let (new, is, all) = parse_items-WriteAll [] (items_of spec) ms e in
    (
      subst (λ ms. WriteAll (items_of spec) ms) is all,
      fair-IsInEffect ms (parse_items-AreFair [] (items_of spec) ms tt e),
    )
