-- ===== src/Ports/Tests.antt =====
-- A mapping of two ports (src/platform/ports.rs), and the theorem applied to it.
use toolsite.Common.{◌≡◌, refl, [], ◌∷◌, codes, All, inl, inr, trim, text_discrete}
use toolsite.Access.Paths.{valid_slug}
use toolsite.Ports.{tcp, udp, Mappings, parse, parse_item, app_for, valid_app, taken}
use toolsite.Ports.Unique.{IsInEffect}
use toolsite.Ports.Written.{WriteAll, items_of, parse-IsInEffect}

abbrev two : Mappings
two =
    record { socket = record { protocol = tcp; port = 1883 }; app = codes "mqtt-broker" }
    ∷ record { socket = record { protocol = udp; port = 5514 }; app = codes "syslog" }
    ∷ []

parse_two : parse (codes "1883=mqtt-broker, 5514/udp=syslog,") ≡ inr two
unfolding parse parse_item app_for valid_app valid_slug trim text_discrete
parse_two = refl

parse_twice :
    parse (codes "1883=a,1883/tcp=b")
    ≡ inl (taken (record { protocol = tcp; port = 1883 }) (codes "a"))
unfolding parse parse_item app_for valid_app valid_slug trim text_discrete
parse_twice = refl

parse-IsInEffect_example :
    WriteAll (items_of (codes "1883=mqtt-broker, 5514/udp=syslog,")) two × All (IsInEffect two) two
parse-IsInEffect_example =
    parse-IsInEffect (codes "1883=mqtt-broker, 5514/udp=syslog,") two parse_two
