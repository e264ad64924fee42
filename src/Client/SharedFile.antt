-- ===== src/Client/SharedFile.antt =====
-- The records of client/fileshare.go.
use gosoulseek.Prelude.{Bytes, List}
use gosoulseek.Prelude.Int.{ℤ}
use gosoulseek.Peer.File.{FileAttribute}

pub record SharedFolder : Type 0 where
  pub local_path : Bytes
  pub virtual_path : Bytes

pub record SharedFile : Type 0 where
  pub local_path : Bytes
  pub soulseek_path : Bytes
  pub size : ℤ
  pub extension : Bytes
  pub attributes : List FileAttribute
