-- ===== src/Http/Exchange.antt =====
-- A plain request from the bytes that the client sends to the bytes that the target gets.
use ech_tunnel.Base.{
  ◌<◌, true, false, List, [], ◌∷◌, ◌++◌, none, some, ◌≡◌, refl, sym, ap, ◌∙◌, arith, Bytes, codes,
  lookup, insert, erase, bytes_key, bytes_eq, contains_byte, append_assoc, append-nil, length, take,
  trim_space, trim_space-graphic, trim_right_crlf, first_graphic, first_graphic-append,
  last_graphic-append, split_n, split_n-append_three, take-append_length, Bool-cases, inl, inr, ◌⊎◌,
}
use mathlib.Core.Path.{subst}
use ech_tunnel.Socks5.Handshake.{ProxyConfig}
use ech_tunnel.Http.{Headers, headers, read_line, read_http_headers, is_authorized}
use ech_tunnel.Http.Request.{Url, crlf, target_address, request_path, build_request}
use ech_tunnel.Http.Handler.{
  Env, forward, body_limit, read_body, forward_with, handle_forward, dispatch, handle_http_protocol,
}
use ech_tunnel.Http.Fields.{
  IsField, AllFields, field_lines, add_fields, read_line-append, read_http_headers-fields,
}
use ech_tunnel.Http.Forwarding.{
  request_start, request_start-plain, forwarded_request_reads, passed_on,
}
use mathlib.Core.List.{Permᴰ}
use ech_tunnel.Http.Visited.{visited_reads, visited-AllFields}
use ech_tunnel.Http.Kept.{Distinct, read_http_headers-Distinct}

-- The request line as it is trimmed.
abbrev pub line_text : Bytes → Bytes → Bytes
line_text method target = method ++ (32 ∷ (target ++ codes " HTTP/1.1"))

pub trim_space-request :
    (method target : Bytes)
    → first_graphic method ≡ true
    → trim_space (request_start method target ++ b'\n' ∷ []) ≡ line_text method target
trim_space-request method target starts =
    let version = codes " HTTP/1.1" in
    let joined : line_text method target ++ crlf ≡ request_start method target ++ b'\n' ∷ [] =
      append_assoc method (32 ∷ (target ++ version)) crlf
      ∙ ap (λ (u : Bytes). method ++ (32 ∷ u))
          (append_assoc target version crlf
            ∙ sym (append_assoc target (version ++ b'\r' ∷ []) (b'\n' ∷ [])))
      ∙ sym (append_assoc method (32 ∷ (target ++ (version ++ b'\r' ∷ []))) (b'\n' ∷ [])) in
    subst (λ (t : Bytes). trim_space t ≡ line_text method target) joined
      (trim_space-graphic (line_text method target) crlf
        (first_graphic-append method (32 ∷ (target ++ version)) starts)
        (last_graphic-append method 32 (target ++ version)
          ∙ last_graphic-append (32 ∷ target) 32 (codes "HTTP/1.1"))
        trim_right_crlf)

pub split_n-request :
    (method target : Bytes)
    → contains_byte 32 method ≡ false
    → contains_byte 32 target ≡ false
    → split_n 32 (line_text method target) 3 ≡ method ∷ target ∷ codes "HTTP/1.1" ∷ []
split_n-request method target m t = split_n-append_three 32 method target (codes "HTTP/1.1") m t

-- The body is announced by its length, which is below the limit.
pub record IsFramed (env : Env) (m : Headers) (body : Bytes) : Type 0 where
  pub announced : Bytes
  pub found : lookup (codes "Content-Length") m ≡ some announced
  pub size : env.scan_length announced ≡ length body
  pub given : 0 < length body
  pub below : length body < body_limit

framed_body :
    (env : Env) (m : Headers) (body : Bytes)
    → IsFramed env m body
    → read_body env m body ≡ some body
unfolding read_body
framed_body env m body f =
    let whole : take (length body) body ≡ body =
      ap (take (length body)) (sym (append-nil body)) ∙ take-append_length body [] in
    rw (f.found, read_body) (rw f.size (ground (arith, f.given, f.below, whole)))

-- The body of a request that announces none is empty.
request_body :
    (env : Env) (m : Headers) (body : Bytes)
    → IsFramed env m body ⊎ ((lookup (codes "Content-Length") m ≡ none) × (body ≡ []))
    → read_body env m body ≡ some body
unfolding read_body
request_body env m body (inl framed) = framed_body env m body framed
request_body env m body (inr (missing, empty)) =
    rw (missing, read_body) (ap (λ (b : Bytes). some b) (sym empty))

erase-AllFields : (k : Bytes) (m : Headers) → AllFields m → AllFields (erase k m)
unfolding erase
erase-AllFields k [] all = tt
erase-AllFields k ((j, v) ∷ m) (f, all) = elim (Bool-cases (bytes_eq j k)) [
  | inl same ↦ rw same (erase-AllFields k m all)
  | inr other ↦ rw other (f, erase-AllFields k m all)
]

add_fields-AllFields : (fs m : Headers) → AllFields fs → AllFields m → AllFields (add_fields fs m)
unfolding insert
add_fields-AllFields [] m all ms = ms
add_fields-AllFields ((k, v) ∷ fs) m (f, all) ms =
    add_fields-AllFields fs (insert k v m) all (f, erase-AllFields k m ms)

add_fields-Distinct : (fs : Headers) → AllFields fs → Distinct (add_fields fs [])
add_fields-Distinct fs all =
    let distinct = read_http_headers-Distinct (field_lines fs ++ (crlf ++ [])) in
    rw (read_http_headers-fields fs [] all) at distinct

passed_on-visited :
    (url : Url) (m n : Headers) (j : Bytes)
    → lookup j n ≡ lookup j m
    → passed_on url n j ≡ passed_on url m j
passed_on-visited url m n j same = rw same refl

module _ (env : Env) (config : ProxyConfig) (method target : Bytes) (url : Url)
    (fs : List (Bytes × Bytes)) (body : Bytes)
    (admitted : is_authorized config (add_fields fs []) ≡ true)
    (starts : first_graphic method ≡ true) (plain : bytes_eq method (codes "CONNECT") ≡ false)
    (method_word : contains_byte 32 method ≡ false) (target_word : contains_byte 32 target ≡ false)
    (method_line : contains_byte b'\n' method ≡ false)
    (target_line : contains_byte b'\n' target ≡ false) (parsed : env.parse_url target ≡ some url)
    (all : AllFields fs)
    (framed : IsFramed env (add_fields fs []) body
      ⊎ ((lookup (codes "Content-Length") (add_fields fs []) ≡ none) × (body ≡ []))) where
  -- What the client sends.
  abbrev pub request_text : Bytes
  request_text = request_start method target ++ b'\n' ∷ (field_lines fs ++ (crlf ++ body))

  forwards :
      forward_with env config method url (headers (add_fields fs []) body)
      ≡ forward (target_address url) (build_request method url (env.visit (add_fields fs [])) body)
  unfolding forward_with
  forwards = rw admitted (rw (request_body env (add_fields fs []) body framed) refl)

  plain_request_forwarded :
      handle_http_protocol env config request_text
      ≡ forward (target_address url) (build_request method url (env.visit (add_fields fs [])) body)
  unfolding handle_http_protocol dispatch handle_forward
  plain_request_forwarded =
      rw
        (
          read_line-append (request_start method target) (field_lines fs ++ (crlf ++ body))
              (request_start-plain method target method_line target_line),
          handle_http_protocol,
        )
        (rw (trim_space-request method target starts) (
          rw (split_n-request method target method_word target_word) (
            rw (plain, dispatch)
              (rw (parsed, handle_forward) (rw (read_http_headers-fields fs body all) forwards)))))

  -- A plain request that the proxy admits goes to the target that its URL names. The bytes that the
  -- client sends make the proxy open a connection to it with a first frame, which the target reads as
  -- the same method with the path and query of the URL, the headers and the same body, byte for
  -- byte; in the headers the two proxy headers are missing, `Host` is the client's or else the
  -- URL's, and every other header has the client's last value, in whatever order the proxy visits
  -- the headers. The header lines are well-formed, the method begins with a visible character and is
  -- not CONNECT, method and target hold no space and, like the URL's path, no line end, the URL's
  -- host is a well-formed value, and the body is empty or announced by its length, which is below
  -- the limit.
  pub plain_request_arrives :
      Permᴰ (add_fields fs []) (env.visit (add_fields fs []))
      → contains_byte b'\n' (request_path url) ≡ false
      → IsField (codes "Host") url.host
      → (first rest : Bytes) × (q : Headers) × (handle_http_protocol env config request_text
          ≡ forward (target_address url) first)
        × (read_line first ≡ some (request_start method (request_path url) ++ b'\n' ∷ [], rest))
        × (read_http_headers rest ≡ headers q body)
        × ((j : Bytes) → lookup j q ≡ passed_on url (add_fields fs []) j)
  plain_request_arrives visits path_line host =
      let m = add_fields fs [] in
      let visited = visited_reads visits (add_fields-Distinct fs all) in
      let fields_ok = visited-AllFields visits (add_fields-AllFields fs [] all tt) in
      let (rest, q, line, fields, values) =
        forwarded_request_reads method url (env.visit m) body method_line path_line fields_ok
          visited.distinct host in
      (
        build_request method url (env.visit m) body,
        rest,
        q,
        plain_request_forwarded,
        line,
        fields,
        λ j. values j ∙ passed_on-visited url m (env.visit m) j (visited.same j),
      )
