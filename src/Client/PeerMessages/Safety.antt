-- ===== src/Client/PeerMessages/Safety.antt =====
-- Whatever peers send, the loop of `handleIncomingPeerMessages` goes on.
use gosoulseek.Prelude.{◌≡◌}
use gosoulseek.Prelude.{Bytes, Option, some}
use gosoulseek.Client.KeyMap.{nat_key, bytes_key}
use gosoulseek.Client.Registry.{Registry}
use gosoulseek.Client.Search.Live.{Live}
use gosoulseek.Client.PeerMessages.{PeerState}
use gosoulseek.Client.PeerMessages.Methods.{Quiet}

-- A handler has gone on, and the registry is still quiet.
abbrev GoesOn : Option Registry → Type 0
GoesOn o = (u : Registry) × (o ≡ some u) × Quiet u

-- What the messages keep.
pub record InOrder (s : PeerState) : Type 0 where
  pub quiet : Quiet s.uploads.registry
  pub live : Live s.searches

record Continues (x : Bytes × Option PeerState) : Type 0 where
  state : PeerState
  goes_on : x.1 ≡ some state
  in_order : InOrder state
