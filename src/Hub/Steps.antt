-- ===== src/Hub/Steps.antt =====
-- Histories of the registry of src/runtime/connections.rs: any method, at any time, in any order.
use toolsite.Common.{ℕ, Option, none, List, [], ◌∷◌, Text, ◌≡◌}
use toolsite.Hub.{Message, Channel, Limits, SocketAddr, Inner}
use toolsite.Hub.Operations.{register_from, forget, accept, connection_of}
use toolsite.Hub.Methods.{
  send, close_one, publish, close_app, transport_receives, subscribe, unsubscribe, state_set,
}

pub data Call : Type 0 where
  registers : Text → Option Text → Option SocketAddr → Text → Call
  forgets accepts receives : Text → Text → Call
  sends : Text → Text → Message → Option Text → Call
  closes : Text → Text → Option Text → Call
  publishes : Text → Text → Message → Option Text → Call
  closes_app : Text → Call
  subscribes unsubscribes : Text → Text → Text → Call
  sets : Text → Text → Text → Option Text → Call

module _ {Q : Type 0} (ch : Channel Q) (limits : Limits) where
  unfoldable pub step : Inner Q → ℕ × Call → Inner Q
  step inner (now, registers app user remote id) =
      (register_from ch limits inner app user remote id now).1
  step inner (now, forgets app id) = forget inner app id
  step inner (now, accepts app id) = accept ch inner app id
  step inner (now, receives app id) = transport_receives ch inner app id
  step inner (now, sends app id m from) = (send ch limits inner app id m from now).1
  step inner (now, closes app id from) = (close_one ch inner app id from).1
  step inner (now, publishes app topic m from) = (publish ch limits inner app topic m from now).1
  step inner (now, closes_app app) = close_app ch inner app
  step inner (now, subscribes app id topic) = (subscribe inner app id topic).1
  step inner (now, unsubscribes app id topic) = (unsubscribe inner app id topic).1
  step inner (now, sets app id key value) = (state_set inner app id key value).1

  unfoldable pub run : Inner Q → List (ℕ × Call) → Inner Q
  run inner [] = inner
  run inner (c ∷ cs) = run (step inner c) cs

-- An id is drawn at random for each connection: the app has none of that id.
abbrev pub IsFresh : {Q : Type 0} → Inner Q → ℕ × Call → Type 0
IsFresh inner (now, registers app user remote id) = connection_of inner app id ≡ none
IsFresh inner (now, call) = Unit {0}

module _ {Q : Type 0} (ch : Channel Q) (limits : Limits) where
  abbrev pub AllFresh : Inner Q → List (ℕ × Call) → Type 0
  AllFresh inner [] = Unit
  AllFresh inner (c ∷ cs) = IsFresh inner c × AllFresh (step ch limits inner c) cs
