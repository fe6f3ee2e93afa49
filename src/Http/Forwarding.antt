-- ===== src/Http/Forwarding.antt =====
-- The request that the HTTP proxy builds, as the target reads it.
use ech_tunnel.Base.{
  false, List, [], ◌∷◌, ◌++◌, Option, none, some, ◌≡◌, refl, sym, ap, ◌∙◌, arith, Bytes, codes,
  lookup, insert, bytes_key, bytes_eq, bytes_eq_iff, is_none, contains_byte, contains_byte-append,
  append_assoc, append-nil, lookup-insert, if◌then◌else◌, Bool-cases, inl, inr,
}
use ech_tunnel.Http.{Headers, headers, read_line, read_http_headers}
use ech_tunnel.Http.Request.{
  Url, crlf, request_path, is_proxy_header, header_line, forwarded_lines, host_line, build_request,
}
use ech_tunnel.Http.Fields.{
  IsField, AllFields, field_lines, add_fields, read_line-append, read_http_headers-fields,
}
use ech_tunnel.Http.Kept.{
  Distinct, kept, lookup-kept, kept-Distinct, kept-AllFields, forwarded_lines-kept,
  lookup-add_fields,
}

-- The field that host_line writes.
host_fields : Url → Headers → List (Bytes × Bytes)
host_fields url m = if is_none (lookup (codes "Host") m) then (codes "Host", url.host) ∷ [] else []

host_line-fields : (url : Url) (m : Headers) → host_line url m ≡ field_lines (host_fields url m)
unfolding host_line host_fields
host_line-fields url m = elim (Bool-cases (is_none (lookup (codes "Host") m))) [
  | inl missing ↦ rw missing (sym (append-nil (header_line (codes "Host") url.host)))
  | inr present ↦ rw present refl
]

host_fields-AllFields :
    (url : Url) (m : Headers) → IsField (codes "Host") url.host → AllFields (host_fields url m)
unfolding host_fields
host_fields-AllFields url m f = elim (Bool-cases (is_none (lookup (codes "Host") m))) [
  | inl missing ↦ rw missing (f, tt)
  | inr present ↦ rw present tt
]

AllFields-append : (fs gs : Headers) → AllFields fs → AllFields gs → AllFields (fs ++ gs)
AllFields-append [] gs a b = b
AllFields-append ((k, v) ∷ fs) gs (f, a) b = (f, AllFields-append fs gs a b)

field_lines-append : (fs gs : Headers) → field_lines (fs ++ gs) ≡ field_lines fs ++ field_lines gs
field_lines-append [] gs = refl
field_lines-append ((k, v) ∷ fs) gs =
    rw (field_lines-append fs gs)
      (sym (append_assoc (header_line k v) (field_lines fs) (field_lines gs)))

add_fields-append : (fs gs m : Headers) → add_fields (fs ++ gs) m ≡ add_fields gs (add_fields fs m)
add_fields-append [] gs m = refl
add_fields-append ((k, v) ∷ fs) gs m = add_fields-append fs gs (insert k v m)

-- What the target reads as the value of a header.
abbrev pub passed_on : Url → Headers → Bytes → Option Bytes
passed_on url m j =
    if is_proxy_header j
    then none
    else if bytes_eq (codes "Host") j
    then some (elim (lookup j m) [ none ↦ url.host | some v ↦ v ])
    else lookup j m

-- The headers that the target reads, as they are written.
abbrev sent_fields : Url → Headers → Headers
sent_fields url m = kept m ++ host_fields url m

lookup-add_kept :
    (m : Headers) (j : Bytes)
    → Distinct m
    → lookup j (add_fields (kept m) []) ≡ (if is_proxy_header j then none else lookup j m)
unfolding lookup
lookup-add_kept m j d =
    ground (arith, lookup-add_fields (kept m) [] j (kept-Distinct m d), lookup-kept j m)

lookup-add_host :
    (url : Url) (m n : Headers) (j : Bytes)
    → lookup j (add_fields (host_fields url m) n) ≡ (
        if is_none (lookup (codes "Host") m)
        then if bytes_eq (codes "Host") j then some url.host else lookup j n
        else lookup j n)
unfolding host_fields
lookup-add_host url m n j = elim (Bool-cases (is_none (lookup (codes "Host") m))) [
  | inl missing ↦ rw missing (lookup-insert (codes "Host") j url.host n)
  | inr present ↦ rw present refl
]

passed_on_host :
    (url : Url) (m : Headers) (x : Option Bytes)
    → (if is_none x then some url.host else x)
      ≡ some (elim x as (λ (y : Option Bytes). Bytes) [ none ↦ url.host | some v ↦ v ])
passed_on_host url m none = refl
passed_on_host url m (some v) = refl

host_passes : is_proxy_header (codes "Host") ≡ false
unfolding is_proxy_header bytes_eq
host_passes = refl

lookup-sent :
    (url : Url) (m : Headers) (j : Bytes)
    → Distinct m
    → lookup j (add_fields (sent_fields url m) []) ≡ passed_on url m j
lookup-sent url m j d =
    let filtered = lookup-add_kept m j d in
    rw (add_fields-append (kept m) (host_fields url m) [], lookup-add_host)
      (elim (Bool-cases (bytes_eq (codes "Host") j)) [
        | inl same ↦
            let e : codes "Host" ≡ j = (bytes_eq_iff (codes "Host") j).0 same in
            let passes : is_proxy_header j ≡ false = ap is_proxy_header (sym e) ∙ host_passes in
            let found : lookup (codes "Host") m ≡ lookup j m = ap (λ (k : Bytes). lookup k m) e in
            rw (filtered, passes, same, found) (passed_on_host url m (lookup j m))
        | inr other ↦ ground (arith, filtered, other)
      ])

-- The request line without its last byte.
abbrev pub request_start : Bytes → Bytes → Bytes
request_start method path = method ++ (32 ∷ (path ++ (codes " HTTP/1.1" ++ b'\r' ∷ [])))

pub request_start-plain :
    (method path : Bytes)
    → contains_byte b'\n' method ≡ false
    → contains_byte b'\n' path ≡ false
    → contains_byte b'\n' (request_start method path) ≡ false
request_start-plain method path h g =
    contains_byte-append b'\n' method (32 ∷ (path ++ (codes " HTTP/1.1" ++ b'\r' ∷ []))) h (
      unfold contains_byte in
      contains_byte-append b'\n' path (codes " HTTP/1.1" ++ b'\r' ∷ []) g
        (unfold contains_byte in refl))

build_request_cut :
    (method : Bytes) (url : Url) (m : Headers) (body : Bytes)
    → build_request method url m body
      ≡ request_start method (request_path url)
        ++ b'\n' ∷ (field_lines (sent_fields url m) ++ (crlf ++ body))
unfolding build_request
build_request_cut method url m body =
    let later = field_lines (sent_fields url m) ++ (crlf ++ body) in
    let path = request_path url in
    let ending = codes " HTTP/1.1" ++ b'\r' ∷ [] in
    let joined : forwarded_lines m ++ (host_line url m ++ (crlf ++ body)) ≡ later =
      rw
        (
          forwarded_lines-kept m,
          host_line-fields url m,
          field_lines-append (kept m) (host_fields url m),
        )
        (sym
          (append_assoc (field_lines (kept m)) (field_lines (host_fields url m)) (crlf ++ body))) in
    rw joined (
      sym (
        append_assoc method (32 ∷ (path ++ ending)) (b'\n' ∷ later)
        ∙ ap (λ (u : Bytes). method ++ (32 ∷ u)) (append_assoc path ending (b'\n' ∷ later))))

-- The request that the proxy builds is read by the target as a request line with the method and
-- the path with its query, headers, and the body, byte for byte. In these headers the two proxy
-- headers are missing, `Host` is the client's or else the host of the URL, and every other header
-- has the client's value. Neither method nor path holds a line end, the client's headers are
-- distinct and well-formed, and the URL's host is a well-formed value.
pub forwarded_request_reads :
    (method : Bytes) (url : Url) (m : Headers) (body : Bytes)
    → contains_byte b'\n' method ≡ false
    → contains_byte b'\n' (request_path url) ≡ false
    → AllFields m
    → Distinct m
    → IsField (codes "Host") url.host
    → (rest : Bytes) × (q : Headers) × (read_line (build_request method url m body)
        ≡ some (request_start method (request_path url) ++ b'\n' ∷ [], rest))
      × (read_http_headers rest ≡ headers q body)
      × ((j : Bytes) → lookup j q ≡ passed_on url m j)
forwarded_request_reads method url m body h g all d f = (
  field_lines (sent_fields url m) ++ (crlf ++ body),
  add_fields (sent_fields url m) [],
  rw (build_request_cut method url m body)
      (read_line-append _ _ (request_start-plain method (request_path url) h g)),
  read_http_headers-fields (sent_fields url m) body (
      AllFields-append (kept m) (host_fields url m) (kept-AllFields m all)
        (host_fields-AllFields url m f)),
  λ j. lookup-sent url m j d,
)
