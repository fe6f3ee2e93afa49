-- ===== src/Http/Total.antt =====
-- The loop of readHTTPHeaders against its fuel.
use ech_tunnel.Base.{
  ℕ, zero, suc, ◌<◌, List, [], ◌∷◌, ◌++◌, some, ◌≡◌, ◌≢◌, refl, arith, Bytes, length, length-append,
  cut, cut_sound, split_n, trim_space, is_empty, Option-cases, Bool-cases, inl, inr, bytes_eq,
  codes,
}
use ech_tunnel.Socks5.Handshake.{ProxyConfig}
use ech_tunnel.Http.{
  Headers, HeadersRead, headers, read_failed, stuck, read_line, header_rounds, read_http_headers,
}
use ech_tunnel.Http.Fields.{round_ends, round_goes_on}
use ech_tunnel.Http.Request.{Url}
use ech_tunnel.Http.Handler.{
  Env, out_of_fuel, hang_up, connect_with, forward_with, handle_connect, handle_forward, dispatch,
  handle_http_protocol,
}

read_line-shorter :
    (s : Bytes) {line rest : Bytes} → read_line s ≡ some (line, rest) → length rest < length s
unfolding read_line
read_line-shorter s {line} {rest} e = elim (Option-cases (cut b'\n' s)) [
  | inl missing ↦ let no = rw (missing, read_line) at e in cc
  | inr ((a, b), found) ↦
      let parts : some (let q : Bytes × Bytes = (a ++ b'\n' ∷ [], b) in q) ≡ some (line, rest) =
        rw (found, read_line) at e in
      let same : b ≡ rest = cc in
      let whole = cut_sound b'\n' s found in
      rw (whole, ← same) (omega (arith, length-append a (b'\n' ∷ b)))
]

header_rounds-ends :
    (fuel : ℕ) (m : Headers) (s : Bytes) → length s < fuel → header_rounds fuel m s ≢ stuck
unfolding header_rounds
header_rounds-ends zero m s h = absurd (omega arith)
header_rounds-ends (suc fuel) m s h = elim (Option-cases (read_line s)) [
  | inl missing ↦ rw (missing, header_rounds) (λ e. cc)
  | inr ((line, rest), found) ↦ elim (Bool-cases (is_empty (trim_space line))) [
    | inl blank ↦ rw (round_ends fuel m s found blank) (λ e. cc)
    | inr full ↦
        rw (round_goes_on fuel m s found full)
          (header_rounds-ends fuel _ rest (omega (arith, read_line-shorter s found)))
  ]
]

connect_with-ends :
    (config : ProxyConfig) (target : Bytes) (r : HeadersRead)
    → r ≢ stuck
    → connect_with config target r ≢ out_of_fuel
unfolding connect_with
connect_with-ends config target (headers m rest) h e = ground (arith, e)
connect_with-ends config target read_failed h e = cc
connect_with-ends config target stuck h e = h refl

forward_with-ends :
    (env : Env) (config : ProxyConfig) (method : Bytes) (url : Url) (r : HeadersRead)
    → r ≢ stuck
    → forward_with env config method url r ≢ out_of_fuel
unfolding forward_with
forward_with-ends env config method url (headers m rest) h e = ground (arith, e)
forward_with-ends env config method url read_failed h e = cc
forward_with-ends env config method url stuck h e = h refl

dispatch-ends :
    (env : Env) (config : ProxyConfig) (parts : List Bytes) (input : Bytes)
    → dispatch env config parts input ≢ out_of_fuel
unfolding dispatch handle_connect handle_forward read_http_headers
dispatch-ends env config [] input e = cc
dispatch-ends env config (a ∷ []) input e = cc
dispatch-ends env config (a ∷ b ∷ []) input e = cc
dispatch-ends env config (method ∷ url ∷ version ∷ []) input e =
    let read = header_rounds-ends (suc (length input)) [] input (omega arith) in
    elim (Bool-cases (bytes_eq method (codes "CONNECT"))) [
      | inl connecting ↦
          connect_with-ends config url (read_http_headers input) read
            (let h : handle_connect config url input ≡ out_of_fuel = rw connecting at e in h)
      | inr forwarding ↦ elim (Option-cases (env.parse_url url)) [
        | inl broken ↦ absurd (ground (arith, e))
        | inr (u, parsed) ↦
            let h : handle_forward env config method url input ≡ out_of_fuel = rw forwarding at e in
            forward_with-ends env config method u (read_http_headers input) read
              (rw (parsed, handle_forward) at h)
      ]
    ]
dispatch-ends env config (a ∷ b ∷ c ∷ d ∷ parts) input e = cc

-- handleHTTPProtocol decides on every input: the fuel of its loop over the headers is enough.
pub handle_http_protocol_total :
    (env : Env) (config : ProxyConfig) (input : Bytes)
    → handle_http_protocol env config input ≢ out_of_fuel
unfolding handle_http_protocol
handle_http_protocol_total env config input e = elim (Option-cases (read_line input)) [
  | inl broken ↦ let h : hang_up ≡ out_of_fuel = rw (broken, handle_http_protocol) at e in cc
  | inr ((line, rest), found) ↦
      dispatch-ends env config (split_n 32 (trim_space line) 3) rest
        (rw (found, handle_http_protocol) at e)
]
