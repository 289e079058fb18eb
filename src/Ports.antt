-- ===== src/Ports.antt =====
-- src/platform/ports.rs: which app has which TCP or UDP port. A number is read as
-- by `str::parse`, and a name of an app as src/platform/tokens/mod.rs has it.
mod Tests
pub mod Unique
pub mod Written
use toolsite.Common.{
  ℕ, ◌+◌, ◌*◌, ◌-◌, Bool, true, false, not, ◌&&◌, ◌||◌, Option, none, some, List, [], ◌∷◌, ◌++◌,
  map, leb, ◌==◌, if◌then◌else◌, Text, codes, same, any, keep, map_option, trim, ◌⊎◌, inl, inr,
  is_some,
}
use toolsite.Limits.{digits_from}
use toolsite.Access.Paths.{is_empty, slash, valid_slug}

pub data PortProtocol : Type 0 where
  tcp udp : PortProtocol

abbrev pub same_protocol : PortProtocol → PortProtocol → Bool
same_protocol tcp tcp = true
same_protocol udp udp = true
same_protocol p q = false

pub record PortSocket : Type 0 where
  pub protocol : PortProtocol
  pub port : ℕ

-- `==` on sockets.
abbrev pub same_socket : PortSocket → PortSocket → Bool
same_socket a b = same_protocol a.protocol b.protocol && a.port == b.port

pub record Mapping : Type 0 where
  pub socket : PortSocket
  pub app : Text

abbrev pub Mappings : Type 0
Mappings = List Mapping

unfoldable pub app_for : Mappings → PortSocket → Option Text
app_for [] socket = none
app_for (m ∷ mappings) socket =
    if same_socket m.socket socket then some m.app else app_for mappings socket

abbrev pub is_app : Text → Option Text → Bool
is_app app none = false
is_app app (some found) = same found app

unfoldable pub maps : Mappings → Text → PortSocket → Bool
unfolding app_for
maps mappings app socket = is_app app (app_for mappings socket)

-- Why a mapping is refused.
pub data Refusal : Type 0 where
  no_app bad_protocol bad_port bad_app : Text → Refusal
  taken : PortSocket → Text → Refusal

abbrev pub min_port : ℕ
min_port = 1024

-- Before and after the first of a byte.
abbrev pub before_sep : ℕ → Text × Text → Text × Text
before_sep c (a, b) = (c ∷ a, b)

abbrev pub split_once : ℕ → Text → Option (Text × Text)
split_once sep [] = none
split_once sep (c ∷ s) =
    let rest = split_once sep s in if c == sep then some ([], s) else map_option (before_sep c) rest

abbrev pub protocol_of : Option (Text × Text) → Text → Refusal ⊎ (Text × PortProtocol)
protocol_of none port = inr (trim port, tcp)
protocol_of (some (port, word)) whole =
    if same word (codes "tcp")
    then inr (port, tcp)
    else (if same word (codes "udp") then inr (port, udp) else inl (bad_protocol word))

-- `u16::from_str`.
abbrev pub u16_digits : Text → Option ℕ
u16_digits [] = none
u16_digits (c ∷ s) = digits_from 0 (c ∷ s)

abbrev pub u16_of : Text → Option ℕ
u16_of [] = none
u16_of (c ∷ s) = if c == 43 then u16_digits s else u16_digits (c ∷ s)

abbrev pub port_from : Text → Option ℕ → Refusal ⊎ ℕ
port_from text none = inl (bad_port text)
port_from text (some n) = if leb min_port n && leb n 65535 then inr n else inl (bad_port text)

infixl 5 ◌>>=◌
abbrev pub ◌>>=◌ : {A B : Type 0} → Refusal ⊎ A → (A → Refusal ⊎ B) → Refusal ⊎ B
inl why >>= f = inl why
inr a >>= f = f a

abbrev pub or_missing : Text → Option (Text × Text) → Refusal ⊎ (Text × Text)
or_missing item none = inl (no_app item)
or_missing item (some p) = inr p

-- `valid_app`: one segment of a slug.
unfoldable pub valid_app : Text → Bool
unfolding valid_slug
valid_app app = valid_slug app && not (any (λ c. c == slash) app)

abbrev pub app_from : Text → Refusal ⊎ Text
app_from app = if valid_app app then inr app else inl (bad_app app)

-- A socket that no mapping has.
abbrev pub free_in : Mappings → PortSocket → Option Text → Refusal ⊎ PortSocket
free_in mappings socket none = inr socket
free_in mappings socket (some app) = inl (taken socket app)

-- Each step of an item on what the one before it gave.
abbrev pub place : Mappings → PortProtocol → ℕ → Text → Refusal ⊎ Mapping
place mappings protocol port app =
    let socket : PortSocket = record { protocol = protocol; port = port } in
    free_in mappings socket (app_for mappings socket)
    >>= (λ s. inr (record { socket = s; app = app }))

abbrev pub parse_halves : Mappings → Text × Text → Refusal ⊎ Mapping
parse_halves mappings (port, app) = do
  named ← protocol_of (split_once 47 (trim port)) (trim port)
  number ← port_from named.0 (u16_of named.0)
  app ← app_from (trim app)
  place mappings named.1 number app

unfoldable pub parse_item : Mappings → Text → Refusal ⊎ Mapping
unfolding app_for trim valid_app
parse_item mappings item = or_missing item (split_once 61 item) >>= parse_halves mappings

unfoldable pub parse_items : Mappings → List Text → Refusal ⊎ Mappings
unfolding parse_item
parse_items mappings [] = inr mappings
parse_items mappings (item ∷ items) = elim (parse_item mappings item) [
  | inl why ↦ inl why
  | inr m ↦ parse_items (mappings ++ m ∷ []) items
]

-- `split(',')`.
abbrev pub cons_head : ℕ → List Text → List Text
cons_head c [] = (c ∷ []) ∷ []
cons_head c (s ∷ ss) = (c ∷ s) ∷ ss

abbrev pub split_commas : Text → List Text
split_commas [] = [] ∷ []
split_commas (c ∷ s) = let rest = split_commas s in if c == 44 then [] ∷ rest else cons_head c rest

unfoldable pub parse : Text → Refusal ⊎ Mappings
unfolding parse_items trim
parse spec = parse_items [] (keep (λ item. not (is_empty item)) (map trim (split_commas spec)))

-- Of an app, what the catalog says: whether it is there, whether it is hidden, and its ports.
unfoldable pub admits : Mappings → Bool → Bool → List PortSocket → Text → PortSocket → Bool
unfolding maps
admits mappings exists hidden ports app socket =
    maps mappings app socket && exists && not hidden && any (λ s. same_socket s socket) ports
