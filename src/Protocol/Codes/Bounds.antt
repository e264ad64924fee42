-- ===== src/Protocol/Codes/Bounds.antt =====
-- The codes of protocol/codes.go fit four bytes.
use gosoulseek.Prelude.{◌^◌, ◌<◌, arith}
use gosoulseek.Protocol.Codes.{ServerCode, PeerCode, server_code, peer_code}

pub peer_code_small : (c : PeerCode) → peer_code c < 2 ^ 32
unfolding peer_code
peer_code_small PeerCode.browse_request = omega arith
peer_code_small _ = omega arith

pub server_code_small : (c : ServerCode) → server_code c < 2 ^ 32
unfolding server_code
server_code_small ServerCode.login = omega arith
server_code_small _ = omega arith
