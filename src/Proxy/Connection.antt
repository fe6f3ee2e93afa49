-- ===== src/Proxy/Connection.antt =====
-- proxy.go: `handleProxyConnection`, which finds out what a client speaks, and the accept loop of
-- `runProxyServer`.
use ech_tunnel.Base.{
  ℕ, Bool, true, false, List, [], ◌∷◌, ◌≡◌, refl, ap, arith, Bytes, is_empty, inl, inr, ◌⊎◌,
}
use ech_tunnel.Proxy.{Protocol, socks5, http, unknown, protocol_of}
use ech_tunnel.Socks5.Handshake.{ProxyConfig, Flow, stop, go, Request, handle_socks5_protocol}
use ech_tunnel.Socks5.Handshake.Auth.{Authenticated, no_bypass}
use ech_tunnel.Http.Handler
use ech_tunnel.Http.Handler.{Decision, handle_http_protocol}
use ech_tunnel.Http.Admission.{IsCredentialed, opens, http_no_bypass}

-- How a connection goes on: the client has closed it before its first byte, that byte is none that
-- the proxy knows, or one of the two handlers has it.
pub data Proxied : Type 0 where
  nothing_read unknown_protocol : Proxied
  socks : Flow Request → Proxied
  http_request : Decision → Proxied

-- The SOCKS5 handler goes on behind the first byte, and the HTTP handler gets it back.
unfoldable pub by_protocol :
    (Bytes → Bool) → Handler.Env → ProxyConfig → Protocol → ℕ → Bytes → Proxied
by_protocol write_ok env config socks5 b s = socks (handle_socks5_protocol write_ok config s)
by_protocol write_ok env config http b s = http_request (handle_http_protocol env config (b ∷ s))
by_protocol write_ok env config unknown b s = unknown_protocol

-- The input is all that the client will send.
unfoldable pub handle_proxy_connection :
    (Bytes → Bool) → Handler.Env → ProxyConfig → Bytes → Proxied
unfolding by_protocol
handle_proxy_connection write_ok env config [] = nothing_read
handle_proxy_connection write_ok env config (b ∷ s) =
    by_protocol write_ok env config (protocol_of b) b s

-- What `listener.Accept` gives: a connection by its handle, or an error.
pub data Accepted : Type 0 where
  accepted : ℕ → Accepted
  accept_failed : Bytes → Accepted

-- The accept loop of runProxyServer: the connections that a goroutine is started for.
unfoldable pub accept_loop : List Accepted → List ℕ
accept_loop [] = []
accept_loop (accepted c ∷ events) = c ∷ accept_loop events
accept_loop (accept_failed text ∷ events) = accept_loop events

-- A connection that gets through to a command or to a target.
abbrev pub admits : Proxied → Bool
admits (socks (go writes request rest)) = true
admits (http_request d) = opens d
admits _ = false

-- The client has presented the configured name and password, in one of the two protocols.
abbrev pub Presented : ProxyConfig → Bytes → Type 0
Presented config input =
    ((s : Bytes) × (input ≡ 5 ∷ s) × Authenticated config s) ⊎ IsCredentialed config input

socks_admitted :
    (r : Flow Request)
    → admits (socks r) ≡ true
    → (w : List Bytes) × (request : Request) × (rest : Bytes) × (r ≡ go w request rest)
socks_admitted (go w request rest) h = (w, request, rest, refl)
socks_admitted (stop w) h = absurd (ground (arith, h))

module _ (write_ok : Bytes → Bool) (env : Handler.Env) (config : ProxyConfig) (b : ℕ) (s : Bytes)
    (named : is_empty config.username ≡ false) (guarded : is_empty config.password ≡ false) where
  presented :
      (protocol : Protocol)
      → protocol_of b ≡ protocol
      → admits (by_protocol write_ok env config protocol b s) ≡ true
      → Presented config (b ∷ s)
  unfolding by_protocol protocol_of
  presented socks5 e h =
      let (w, request, rest, went) = socks_admitted (handle_socks5_protocol write_ok config s) h in
      let five : b ≡ 5 = ground (arith, e) in
      inl (s, ap (λ x. x ∷ s) five, no_bypass write_ok config s named guarded went)
  presented http e h = inr (http_no_bypass env config (b ∷ s) named guarded h)
  presented unknown e h = absurd (ground (arith, h))

-- With a name and a password configured, both non-empty, no byte sequence gets a client of the proxy
-- through, by SOCKS5 or by HTTP, to a connection or to an association, unless it presents exactly
-- the configured name and password: in the SOCKS5 conversation behind the byte 5, or in the
-- headers of an HTTP request.
pub proxy_no_bypass :
    (write_ok : Bytes → Bool) (env : Handler.Env) (config : ProxyConfig) (input : Bytes)
    → is_empty config.username ≡ false
    → is_empty config.password ≡ false
    → admits (handle_proxy_connection write_ok env config input) ≡ true
    → Presented config input
unfolding handle_proxy_connection
proxy_no_bypass write_ok env config [] named guarded h = absurd (ground (arith, h))
proxy_no_bypass write_ok env config (b ∷ s) named guarded h =
    presented write_ok env config b s named guarded (protocol_of b) refl h
