-- ===== src/Socks5/Handshake/Accepted.antt =====
-- What a client has to send to be let through, socks5.go.
use ech_tunnel.Base.{
  ℕ, ◌+◌, ◌*◌, Bool, true, false, [], ◌∷◌, ◌++◌, ◌≡◌, refl, arith, Bytes, length, length-append,
  is_empty, ltb, take-append_length, drop-append_length, bytes_eq_refl,
}
use ech_tunnel.Socks5.{target_text}
use ech_tunnel.Socks5.Handshake.{
  ProxyConfig, go, read_full, write, offers, choose_method, handle_user_pass_auth, connect,
  request_host, request_command, request_target, handle_request, handle_socks5_protocol,
}

read_full-append : (s t : Bytes) → read_full (length s) (s ++ t) ≡ go [] s t
unfolding read_full
read_full-append s t =
    let enough : ltb (length (s ++ t)) (length s) ≡ false = ground (arith, length-append s t) in
    rw (enough, read_full) (rw (take-append_length s t, drop-append_length s t) refl)

write-go :
    (write_ok : Bytes → Bool) (b s : Bytes)
    → write_ok b ≡ true
    → write write_ok b s ≡ go (b ∷ []) tt s
unfolding write
write-go write_ok b s sent = rw (sent, write) refl

-- CONNECT to a domain name, as RFC 1928 writes it.
abbrev pub connect_request : Bytes → ℕ → ℕ → Bytes → Bytes
connect_request host high low rest = 5 ∷ 1 ∷ 0 ∷ 3 ∷ length host ∷ (host ++ high ∷ low ∷ rest)

request_read :
    (host : Bytes) (high low : ℕ) (rest : Bytes)
    → handle_request (connect_request host high low rest)
      ≡ go [] (connect (target_text 3 host (high * 256 + low))) rest
unfolding handle_request request_target request_host request_command
request_read host high low rest =
    rw (read_full-append host (high ∷ low ∷ rest), handle_request) refl

-- Name and password, as RFC 1929 writes them.
abbrev pub credentials : Bytes → Bytes → Bytes → Bytes
credentials user pass rest = 1 ∷ length user ∷ (user ++ length pass ∷ (pass ++ rest))

credentials_read :
    (write_ok : Bytes → Bool) (config : ProxyConfig) (rest : Bytes)
    → write_ok (1 ∷ 0 ∷ []) ≡ true
    → handle_user_pass_auth write_ok config (credentials config.username config.password rest)
      ≡ go ((1 ∷ 0 ∷ []) ∷ []) tt rest
unfolding handle_user_pass_auth
credentials_read write_ok config rest sent =
    rw
      (
        read_full-append config.username (length config.password ∷ (config.password ++ rest)),
        handle_user_pass_auth,
      )
      (rw (read_full-append config.password rest) (
        rw (bytes_eq_refl config.username) (
          rw (bytes_eq_refl config.password) (rw (write-go write_ok (1 ∷ 0 ∷ []) rest sent) refl))))

-- The whole of what the client sends behind the version byte: its methods, its credentials and its
-- request.
abbrev pub conversation : Bytes → ProxyConfig → Bytes → ℕ → ℕ → Bytes → Bytes
conversation methods config host high low rest =
    length methods
    ∷ (methods ++ credentials config.username config.password (connect_request host high low rest))

method_chosen :
    (config : ProxyConfig) (methods : Bytes)
    → is_empty config.username ≡ false
    → is_empty config.password ≡ false
    → offers methods ≡ true
    → choose_method config methods ≡ 2
unfolding choose_method
method_chosen config methods named guarded offered =
    rw (named, choose_method) (rw guarded (rw offered refl))

-- A client that offers authentication by name and password, presents the configured ones, both
-- non-empty, and asks for a domain name and a port gets through, where the two answers can be
-- written: it is told that the method and the credentials are accepted, and its request reaches the
-- proxy as `host:port`, with what it has sent behind it still to be read.
pub conversation_accepted :
    (write_ok : Bytes → Bool) (config : ProxyConfig) (methods host : Bytes) (high low : ℕ)
    (rest : Bytes)
    → is_empty config.username ≡ false
    → is_empty config.password ≡ false
    → offers methods ≡ true
    → write_ok (5 ∷ 2 ∷ []) ≡ true
    → write_ok (1 ∷ 0 ∷ []) ≡ true
    → handle_socks5_protocol write_ok config (conversation methods config host high low rest)
      ≡ go ((5 ∷ 2 ∷ []) ∷ (1 ∷ 0 ∷ []) ∷ []) (connect (target_text 3 host (high * 256 + low))) rest
unfolding handle_socks5_protocol
conversation_accepted write_ok config methods host high low rest named guarded offered hello
      welcome =
    let request = connect_request host high low rest in
    let proof = credentials config.username config.password request in
    rw (read_full-append methods proof, handle_socks5_protocol)
      (rw (method_chosen config methods named guarded offered) (
        rw (write-go write_ok (5 ∷ 2 ∷ []) proof hello) (
          rw (credentials_read write_ok config request welcome)
            (rw (request_read host high low rest) refl))))
