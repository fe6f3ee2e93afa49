-- ===== src/Proxy/Doors.antt =====
-- proxy.go: a client with the right credentials at the door of the proxy.
use ech_tunnel.Base.{
  ℕ, Bool, true, false, [], ◌∷◌, ◌+◌, ◌*◌, ◌≡◌, ap, Bytes, contains_byte, is_empty, if◌then◌else◌,
}
use ech_tunnel.Proxy.{protocol_of}
use ech_tunnel.Proxy.Connection.{socks, http_request, by_protocol, handle_proxy_connection}
use ech_tunnel.Socks5.{target_text}
use ech_tunnel.Socks5.Handshake.{ProxyConfig, go, connect, offers}
use ech_tunnel.Socks5.Handshake.Accepted.{conversation, conversation_accepted}
use ech_tunnel.Http.{Headers, is_authorized}
use ech_tunnel.Http.Handler
use ech_tunnel.Http.Handler.{tunnel, answer, auth_required}
use ech_tunnel.Http.Fields.{AllFields, add_fields}
use ech_tunnel.Http.Tunnelled.{connect_text, connect_decided}

module _ (write_ok : Bytes → Bool) (env : Handler.Env) (config : ProxyConfig) where
  socks_served :
      (methods host : Bytes) (high low : ℕ) (rest : Bytes)
      → is_empty config.username ≡ false
      → is_empty config.password ≡ false
      → offers methods ≡ true
      → write_ok (5 ∷ 2 ∷ []) ≡ true
      → write_ok (1 ∷ 0 ∷ []) ≡ true
      → handle_proxy_connection write_ok env config
          (5 ∷ conversation methods config host high low rest)
        ≡ socks (
            go
              ((5 ∷ 2 ∷ []) ∷ (1 ∷ 0 ∷ []) ∷ [])
              (connect (target_text 3 host (high * 256 + low)))
              rest)
  unfolding handle_proxy_connection by_protocol protocol_of
  socks_served methods host high low rest named guarded offered hello welcome = ap socks (
      conversation_accepted write_ok config methods host high low rest named guarded offered hello
        welcome)

  tunnel_decided :
      (target : Bytes) (fs : Headers) (rest : Bytes)
      → contains_byte 32 target ≡ false
      → contains_byte b'\n' target ≡ false
      → AllFields fs
      → handle_proxy_connection write_ok env config (connect_text target fs rest)
        ≡ http_request (
            if is_authorized config (add_fields fs []) then tunnel target else answer auth_required)
  unfolding handle_proxy_connection by_protocol protocol_of
  tunnel_decided target fs rest word line all =
      ap http_request (connect_decided env config target fs rest word line all)

  -- The two doors of the proxy, which has a name and a password, both non-empty. A SOCKS5 client that
  -- offers authentication by name and password, presents the configured ones and asks for a domain
  -- name and a port gets through, where the two answers can be written: both are sent, and its request
  -- names `host:port`. A CONNECT request of an HTTP client, with well-formed headers and a target
  -- without a space or a line end, gets a tunnel to exactly this target where the headers carry
  -- accepted credentials, and is asked for credentials otherwise.
  pub doors_open :
      (methods host : Bytes) (high low : ℕ) (target : Bytes) (fs : Headers) (rest : Bytes)
      → is_empty config.username ≡ false
      → is_empty config.password ≡ false
      → offers methods ≡ true
      → write_ok (5 ∷ 2 ∷ []) ≡ true
      → write_ok (1 ∷ 0 ∷ []) ≡ true
      → contains_byte 32 target ≡ false
      → contains_byte b'\n' target ≡ false
      → AllFields fs
      → (handle_proxy_connection write_ok env config
            (5 ∷ conversation methods config host high low rest)
          ≡ socks (
              go
                ((5 ∷ 2 ∷ []) ∷ (1 ∷ 0 ∷ []) ∷ [])
                (connect (target_text 3 host (high * 256 + low)))
                rest))
        × (handle_proxy_connection write_ok env config (connect_text target fs rest)
            ≡ http_request (
                if is_authorized config (add_fields fs [])
                then tunnel target
                else answer auth_required))
  doors_open methods host high low target fs rest named guarded offered hello welcome word line
        all =
      (
        socks_served methods host high low rest named guarded offered hello welcome,
        tunnel_decided target fs rest word line all,
      )
