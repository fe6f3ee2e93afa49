-- ===== src/Http/Admission.antt =====
-- Which requests get past the HTTP proxy's authentication.
use ech_tunnel.Base.{
  Bool, true, false, List, [], ◌∷◌, some, ◌≡◌, refl, arith, sym, ◌∙◌, Bytes, codes, lookup,
  bytes_key, bytes_eq, is_empty, split_n, Option-cases, Bool-cases, inl, inr, trim_space,
}
use ech_tunnel.Socks5.Handshake.{ProxyConfig}
use ech_tunnel.Http.{
  Headers, headers, read_failed, stuck, read_line, read_http_headers, validate_proxy_auth, or_empty,
  is_authorized, HeadersRead,
}
use ech_tunnel.Http.Request.{Url}
use ech_tunnel.Http.Handler.{
  Env, Decision, tunnel, forward, handle_connect, handle_forward, dispatch, handle_http_protocol,
  connect_with, forward_with,
}
use ech_tunnel.Http.Auth.{IsBasic, validate_sound}

-- The request line and the headers of a request that carries the configured credentials.
pub record IsCredentialed (config : ProxyConfig) (input : Bytes) : Type 0 where
  pub request_line : Bytes
  pub after_line : Bytes
  pub fields : Headers
  pub after_fields : Bytes
  pub authorization : Bytes
  pub line_read : read_line input ≡ some (request_line, after_line)
  pub fields_read : read_http_headers after_line ≡ headers fields after_fields
  pub carried : lookup (codes "Proxy-Authorization") fields ≡ some authorization
  pub basic : IsBasic authorization config.username config.password

-- The decisions that open a connection.
abbrev pub opens : Decision → Bool
opens (tunnel target) = true
opens (forward target first) = true
opens _ = false

validate_proxy_auth_nil : (user pass : Bytes) → validate_proxy_auth [] user pass ≡ false
unfolding validate_proxy_auth
validate_proxy_auth_nil user pass = refl

authorized_validates :
    (config : ProxyConfig) (m : Headers)
    → is_empty config.username ≡ false
    → is_empty config.password ≡ false
    → is_authorized config m
      ≡ validate_proxy_auth
          (or_empty (lookup (codes "Proxy-Authorization") m))
          config.username
          config.password
unfolding is_authorized
authorized_validates config m u p = rw (u, p)

authorized_carries :
    (config : ProxyConfig) (m : Headers)
    → is_empty config.username ≡ false
    → is_empty config.password ≡ false
    → is_authorized config m ≡ true
    → (a : Bytes) × (lookup (codes "Proxy-Authorization") m ≡ some a)
      × IsBasic a config.username config.password
authorized_carries config m u p h =
    let tested = sym (authorized_validates config m u p) ∙ h in
    elim (Option-cases (lookup (codes "Proxy-Authorization") m)) [
      | inl missing ↦
          let e = rw missing at tested in
          let no = validate_proxy_auth_nil config.username config.password in
          absurd (ground (arith, e, no))
      | inr (a, found) ↦
          (a, found, validate_sound a config.username config.password (rw found at tested))
    ]

-- The headers have been read, and they may pass.
record IsAdmitted (config : ProxyConfig) (r : HeadersRead) : Type 0 where
  fields : Headers
  after : Bytes
  read : r ≡ headers fields after
  authorized : is_authorized config fields ≡ true

connect_with-IsAdmitted :
    (config : ProxyConfig) (target : Bytes) (r : HeadersRead)
    → opens (connect_with config target r) ≡ true
    → IsAdmitted config r
unfolding connect_with
connect_with-IsAdmitted config target (headers m rest) h = record {
  fields = m;
  after = rest;
  read = refl;
  authorized = ground (arith, h);
}
connect_with-IsAdmitted config target read_failed h = cc
connect_with-IsAdmitted config target stuck h = cc

forward_with-IsAdmitted :
    (env : Env) (config : ProxyConfig) (method : Bytes) (url : Url) (r : HeadersRead)
    → opens (forward_with env config method url r) ≡ true
    → IsAdmitted config r
unfolding forward_with
forward_with-IsAdmitted env config method url (headers m rest) h = record {
  fields = m;
  after = rest;
  read = refl;
  authorized = ground (arith, h);
}
forward_with-IsAdmitted env config method url read_failed h = cc
forward_with-IsAdmitted env config method url stuck h = cc

handle_forward-IsAdmitted :
    (env : Env) (config : ProxyConfig) (method url input : Bytes)
    → opens (handle_forward env config method url input) ≡ true
    → IsAdmitted config (read_http_headers input)
unfolding handle_forward
handle_forward-IsAdmitted env config method url input h = elim (Option-cases (env.parse_url url)) [
  | inl broken ↦ absurd (ground (arith, h))
  | inr (u, parsed) ↦
      forward_with-IsAdmitted env config method u (read_http_headers input)
        (rw (parsed, handle_forward) at h)
]

dispatch-IsAdmitted :
    (env : Env) (config : ProxyConfig) (parts : List Bytes) (input : Bytes)
    → opens (dispatch env config parts input) ≡ true
    → IsAdmitted config (read_http_headers input)
unfolding dispatch handle_connect
dispatch-IsAdmitted env config [] input h = cc
dispatch-IsAdmitted env config (a ∷ []) input h = cc
dispatch-IsAdmitted env config (a ∷ b ∷ []) input h = cc
dispatch-IsAdmitted env config (method ∷ url ∷ version ∷ []) input h =
    elim (Bool-cases (bytes_eq method (codes "CONNECT"))) [
      | inl connecting ↦
          connect_with-IsAdmitted config url (read_http_headers input) (rw connecting at h)
      | inr forwarding ↦ handle_forward-IsAdmitted env config method url input (rw forwarding at h)
    ]
dispatch-IsAdmitted env config (a ∷ b ∷ c ∷ d ∷ parts) input h = cc

-- With a name and a password configured, both non-empty, a request opens a connection, for a tunnel
-- or to forward it, only if its headers carry `Basic` and a text that decodes to exactly the
-- configured name and password.
pub http_no_bypass :
    (env : Env) (config : ProxyConfig) (input : Bytes)
    → is_empty config.username ≡ false
    → is_empty config.password ≡ false
    → opens (handle_http_protocol env config input) ≡ true
    → IsCredentialed config input
unfolding handle_http_protocol
http_no_bypass env config input u p h = elim (Option-cases (read_line input)) [
  | inl broken ↦ absurd (ground (arith, h))
  | inr ((line, rest), found) ↦
      let admitted =
        dispatch-IsAdmitted env config (split_n 32 (trim_space line) 3) rest
          (rw (found, handle_http_protocol) at h) in
      let (a, carried, basic) = authorized_carries config admitted.fields u p admitted.authorized in
      record {
        request_line = line;
        after_line = rest;
        fields = admitted.fields;
        after_fields = admitted.after;
        authorization = a;
        line_read = found;
        fields_read = admitted.read;
        carried = carried;
        basic = basic;
      }
]
