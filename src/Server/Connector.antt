-- ===== src/Server/Connector.antt =====
-- The interfaces of internal/service/server_service.go to SSH: `serverConnector`, with the types of
-- internal/sshclient that it uses, `serverKeyProvider` and `geoResolver`.
use dijex_api.Prelude.{Bool, Option}
use dijex_api.Prelude.Int.{ℤ}
use dijex_api.Text.{Bytes}
use dijex_api.Action.{Reply}
use dijex_api.RemoteSession.{Remote}

-- `sshclient.Target`
pub record Target : Type 0 where
  pub host : Bytes
  pub port : ℤ
  pub user : Bytes
  pub password : Bytes

-- `sshclient.Facts`
pub record Facts : Type 0 where
  pub hostname : Bytes
  pub os : Bytes
  pub kernel_version : Bytes
  pub arch : Bytes
  pub cpu_cores : ℤ
  pub public_ip : Bytes

-- `sshclient.Result`
pub record SshResult : Type 0 where
  pub connected : Bool
  pub method : Bytes
  pub status : Bytes
  pub message : Bytes
  pub facts : Option Facts

-- `sshclient.InstallResult`
pub record InstallResult : Type 0 where
  pub connected : Bool
  pub already_installed : Bool
  pub installed : Bool
  pub verified : Bool
  pub status : Bytes
  pub message : Bytes

-- `*ssh.Client`: its sessions, and `Close`.
pub record Client (S : Type 0) : Type 0 where
  pub host : Remote S
  pub close : S → S

-- What `Dial` returns: a client and the method of the login, or a nil client and a result.
pub data Dialed (S : Type 0) : Type 0 where
  unreached : SshResult → Dialed S
  reached : Client S → Bytes → Dialed S

-- `sshkey.KeyInfo`, the fields that are read
pub record KeyInfo : Type 0 where
  pub valid : Bool
  pub public_key : Bytes

pub record Connector (S : Type 0) : Type 0 where
  pub connect : Target → S → S × SshResult
  pub ping : Target → S → S × SshResult
  pub install_public_key : Target → Bytes → S → S × InstallResult
  pub dial : Target → S → S × Dialed S
  -- `keys.Check`
  pub check_key : S → S × Reply KeyInfo
  -- `geo.Lookup`: code and name of the country; without a resolver there is none
  pub lookup_country : Bytes → Option (Bytes × Bytes)
