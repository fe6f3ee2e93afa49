-- ===== src/Dial.antt =====
-- tcp_client.go: `dialWebSocketWithECH`, one WebSocket with a retry after a refresh of the ECH list,
-- and `buildTLSConfigWithECH`.
pub mod Strict
pub mod Rotation
use ech_tunnel.Base.{
  ℕ, zero, suc, ◌+◌, Bool, true, false, ◌||◌, ◌&&◌, not, List, [], ◌∷◌, ◌++◌, Option, none, some,
  ◌==◌, if◌then◌else◌, Bytes, codes, is_empty, contains, contains_byte,
}
use ech_tunnel.Pool.{Ws}
use ech_tunnel.Ech.Cache.{get_ech_list}

-- The fields that are set in the tls.Config; the pool of root certificates is a handle.
-- `rejection_error` is what EncryptedClientHelloRejectionVerify returns for every connection.
pub record TlsConfig : Type 0 where
  pub min_version : ℕ
  pub server_name : Bytes
  pub ech_config_list : Bytes
  pub rejection_error : Bytes
  pub root_cas : ℕ

-- tls.VersionTLS13
abbrev pub version_tls13 : ℕ
version_tls13 = 0x0304

-- The text of the error in UTF-8: "服务器拒绝 ECH（禁止回退）".
abbrev pub rejected_text : Bytes
rejected_text =
    0xe6 ∷ 0x9c ∷ 0x8d ∷ 0xe5 ∷ 0x8a ∷ 0xa1 ∷ 0xe5 ∷ 0x99 ∷ 0xa8 ∷ 0xe6 ∷ 0x8b ∷ 0x92 ∷ 0xe7 ∷ 0xbb
    ∷ 0x9d ∷ 0x20 ∷ 0x45 ∷ 0x43 ∷ 0x48 ∷ 0xef ∷ 0xbc ∷ 0x88 ∷ 0xe7 ∷ 0xa6 ∷ 0x81 ∷ 0xe6 ∷ 0xad
    ∷ 0xa2 ∷ 0xe5 ∷ 0x9b ∷ 0x9e ∷ 0xe9 ∷ 0x80 ∷ 0x80 ∷ 0xef ∷ 0xbc ∷ 0x89 ∷ []

-- The first argument is what x509.SystemCertPool gives.
unfoldable pub build_tls_config_with_ech : Option ℕ → Bytes → Bytes → Option TlsConfig
build_tls_config_with_ech none server_name ech_list = none
build_tls_config_with_ech (some roots) server_name ech_list = some (record {
  min_version = version_tls13;
  server_name = server_name;
  ech_config_list = ech_list;
  rejection_error = rejected_text;
  root_cas = roots;
})

-- The flags `token` and `ipAddr`.
pub record Flags : Type 0 where
  pub token : Bytes
  pub ip_addr : Bytes

-- The websocket.Dialer: its TLS configuration, its subprotocols, and the address that NetDial
-- connects to where it is set. Its sizes of buffers and its timeout are left out.
pub record Dialer : Type 0 where
  pub tls : TlsConfig
  pub subprotocols : List Bytes
  pub net_dial : Option Bytes

unfoldable pub new_dialer : Flags → TlsConfig → Dialer
new_dialer flags tls = record {
  tls = tls;
  subprotocols = if is_empty flags.token then [] else flags.token ∷ [];
  net_dial = if is_empty flags.ip_addr then none else some flags.ip_addr;
}

-- net.JoinHostPort
unfoldable pub join_host_port : Bytes → Bytes → Bytes
join_host_port host port =
    if contains_byte b':' host then b'[' ∷ (host ++ b']' ∷ b':' ∷ port) else host ++ b':' ∷ port

-- The address that a dialer connects to, where net.SplitHostPort is given and `none` is an error.
unfoldable pub dial_address : (Bytes → Option (Bytes × Bytes)) → Dialer → Bytes → Option Bytes
unfolding join_host_port
dial_address split_host_port d address = elim d.net_dial [
  | none ↦ some address
  | some ip_addr ↦ elim (split_host_port address) [
    | none ↦ none
    | some (host, port) ↦ some (join_host_port ip_addr port)
  ]
]

-- `dialer.Dial`: a connection, or the text of its error.
pub data DialResult : Type 0 where
  connected : Ws → DialResult
  dial_failed : Bytes → DialResult

unfoldable pub is_ech_error : Bytes → Bool
is_ech_error text = contains (codes "ECH") text || contains (codes "ech") text

-- The world during the attempts, which count from 1: the host name that url.Parse finds in an
-- address, the root certificates of the system, what a dial gives, and the list that refreshECH
-- leaves in the cache once it returns.
pub record World : Type 0 where
  pub hostname : Bytes → Option Bytes
  pub roots : ℕ → Option ℕ
  pub dial : ℕ → Dialer → DialResult
  pub refreshed : ℕ → Bytes

pub data DialError : Type 0 where
  bad_url ech_unavailable tls_failed retries_exhausted : DialError
  dial_error : Bytes → DialError

pub data Connection : Type 0 where
  ok : Ws → Connection
  error : DialError → Connection

-- The result, and the dialers that have dialled, in order.
abbrev pub Outcome : Type 0
Outcome = Connection × List Dialer

-- One dial of the loop, where `last` tells that no attempt is left behind it and `again` is what
-- the attempts behind it give.
unfoldable pub dial_once : World → ℕ → Bool → Dialer → Outcome → Outcome
dial_once w attempt last d again = elim (w.dial attempt d) [
  | connected ws ↦ (ok ws, d ∷ [])
  | dial_failed text ↦
      if is_ech_error text && not last
      then (again.0, d ∷ again.1)
      else (error (dial_error text), d ∷ [])
]

-- The rounds left are `maxRetries - attempt + 1`, so `attempt < maxRetries` says that more than one
-- is left.
unfoldable pub attempts : Flags → World → Bytes → ℕ → ℕ → Bytes → Outcome
unfolding dial_once new_dialer build_tls_config_with_ech
attempts flags w server_name zero attempt cache = (error retries_exhausted, [])
attempts flags w server_name (suc left) attempt cache =
    let again = attempts flags w server_name left (attempt + 1) (w.refreshed attempt) in
    elim (get_ech_list cache) [
      | none ↦ if left == 0 then (error ech_unavailable, []) else again
      | some ech_list ↦ elim (build_tls_config_with_ech (w.roots attempt) server_name ech_list) [
        | none ↦ (error tls_failed, [])
        | some tls ↦ dial_once w attempt (left == 0) (new_dialer flags tls) again
      ]
    ]

unfoldable pub dial_web_socket_with_ech : Flags → World → Bytes → ℕ → Bytes → Outcome
unfolding attempts
dial_web_socket_with_ech flags w ws_server_addr max_retries cache =
    elim (w.hostname ws_server_addr) [
      | none ↦ (error bad_url, [])
      | some server_name ↦ attempts flags w server_name max_retries 1 cache
    ]
