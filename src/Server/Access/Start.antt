-- ===== src/Server/Access/Start.antt =====
-- websocket_server.go: the listener with which runWebSocketServer ends.
use ech_tunnel.Base.{
  ℕ, ◌&&◌, not, Option, none, some, Bytes, codes, bytes_eq, is_empty, if◌then◌else◌,
}
use ech_tunnel.Dial.{version_tls13}
use ech_tunnel.Http.Request.{Url}

-- The flags `certFile` and `keyFile`.
pub record Files : Type 0 where
  pub cert_file : Bytes
  pub key_file : Bytes

-- A certificate: the one of the files, or the one that generateSelfSignedCert gives, by a handle.
pub data Certificate : Type 0 where
  from_files : Bytes → Bytes → Certificate
  self_signed : ℕ → Certificate

-- What is listened on: an address, and with TLS the certificate and the least version.
pub data Listener : Type 0 where
  plain : Bytes → Listener
  with_tls : Bytes → Certificate → ℕ → Listener

-- The second argument is what generateSelfSignedCert gives, and `none` is a fatal error.
unfoldable pub start_listener : Files → Option ℕ → Url → Option Listener
start_listener files generated url =
    if bytes_eq url.scheme (codes "wss")
    then if not (is_empty files.cert_file) && not (is_empty files.key_file)
      then some (with_tls url.host (from_files files.cert_file files.key_file) version_tls13)
      else elim generated [
        | none ↦ none
        | some cert ↦ some (with_tls url.host (self_signed cert) version_tls13)
      ]
    else some (plain url.host)
