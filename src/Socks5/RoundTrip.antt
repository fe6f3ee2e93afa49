-- ===== src/Socks5/RoundTrip.antt =====
-- buildSOCKS5UDPPacket and parseSOCKS5UDPPacket together.
use ech_tunnel.Base.{
  ℕ, ◌+◌, ◌*◌, ◌/◌, ◌%◌, ◌≤◌, ◌<◌, true, false, ◌∷◌, ◌++◌, Option, none, some, ◌≡◌, refl, ap, arith,
  ltb, ◌==◌, Bytes, take, drop, length, length-append, get_elem?-drop, drop-add, length-drop_eq,
  take-append_length, drop-append_length, Option-cases, Bool-cases, inl, inr, length-drop,
}
use mathlib.Core.Path.{subst}
use ech_tunnel.Net.{ip_string, to4}
use ech_tunnel.Socks5.{
  ok, err, byte_at, ipv4_addr, domain_addr, ipv6_addr, packet_host, target_text,
  parse_socks5_udp_packet, reply_address, build_socks5_udp_packet, name_too_long,
}

byte_at-drop : (p : Bytes) (i : ℕ) {x : ℕ} {s : Bytes} → drop i p ≡ x ∷ s → byte_at p i ≡ ok x
unfolding byte_at
byte_at-drop p i e = rw (get_elem?-drop p i e, byte_at)

-- A datagram whose address is read, up to its port, is read to its end.
parse_behind_host :
    (atyp high low : ℕ) (rest payload host : Bytes) (offset : ℕ)
    → 6 ≤ length rest
    → packet_host (0 ∷ 0 ∷ 0 ∷ atyp ∷ rest) atyp ≡ ok (host, offset)
    → drop offset (0 ∷ 0 ∷ 0 ∷ atyp ∷ rest) ≡ high ∷ low ∷ payload
    → parse_socks5_udp_packet (0 ∷ 0 ∷ 0 ∷ atyp ∷ rest)
      ≡ ok (target_text atyp host (high * 256 + low), payload)
unfolding parse_socks5_udp_packet
parse_behind_host atyp high low rest payload host offset long placed behind =
    let p : Bytes = 0 ∷ 0 ∷ 0 ∷ atyp ∷ rest in
    let size : offset + (length payload + 2) ≡ length p =
      omega (arith, length-drop_eq p offset behind) in
    let next : drop (offset + 1) p ≡ low ∷ payload = rw drop-add (rw behind) in
    let last : drop (offset + 2) p ≡ payload = rw drop-add (rw behind) in
    let enough : ltb (length p) 10 ≡ false = ground arith in
    let port : ltb (length p) (offset + 2) ≡ false = ground arith in
    rw enough (
      rw placed
        (rw port (rw (byte_at-drop p offset behind, byte_at-drop p (offset + 1) next) (rw last))))

take_front : (n : ℕ) (a s : Bytes) → length a ≡ n → take n (a ++ s) ≡ a
take_front n a s e = subst (λ m. take m (a ++ s) ≡ a) e (take-append_length a s)

drop_front : (n : ℕ) (a s : Bytes) → length a ≡ n → drop n (a ++ s) ≡ s
drop_front n a s e = subst (λ m. drop m (a ++ s) ≡ s) e (drop-append_length a s)

packet_host-v4 :
    (a s : Bytes)
    → length a ≡ 4
    → packet_host (0 ∷ 0 ∷ 0 ∷ ipv4_addr ∷ a ++ s) ipv4_addr ≡ ok (ip_string a, 8)
unfolding packet_host
packet_host-v4 a s e =
    let l = length-append a s in
    let fits : ltb (length (0 ∷ 0 ∷ 0 ∷ ipv4_addr ∷ a ++ s)) 8 ≡ false = ground arith in
    rw fits (rw (take_front 4 a s e) refl)

packet_host-v6 :
    (a s : Bytes)
    → length a ≡ 16
    → packet_host (0 ∷ 0 ∷ 0 ∷ ipv6_addr ∷ a ++ s) ipv6_addr ≡ ok (ip_string a, 20)
unfolding packet_host
packet_host-v6 a s e =
    let l = length-append a s in
    let fits : ltb (length (0 ∷ 0 ∷ 0 ∷ ipv6_addr ∷ a ++ s)) 20 ≡ false = ground arith in
    rw fits (rw (take_front 16 a s e) refl)

packet_host-domain :
    (a s : Bytes)
    → packet_host (0 ∷ 0 ∷ 0 ∷ domain_addr ∷ length a ∷ a ++ s) domain_addr ≡ ok (a, 5 + length a)
unfolding packet_host byte_at
packet_host-domain a s =
    let l = length-append a s in
    let some_byte : ltb (length (0 ∷ 0 ∷ 0 ∷ domain_addr ∷ length a ∷ a ++ s)) 5 ≡ false =
      ground arith in
    let fits : ltb (length (0 ∷ 0 ∷ 0 ∷ domain_addr ∷ length a ∷ a ++ s)) (5 + length a) ≡ false =
      ground arith in
    rw some_byte (rw fits (rw (take-append_length a s) refl))

to4-length : (ip : Bytes) {ip4 : Bytes} → length ip ≡ 16 → to4 ip ≡ some ip4 → length ip4 ≡ 4
unfolding to4
to4-length ip {ip4} sixteen e =
    let long : (length ip == 4) ≡ false = rw sixteen in
    let known : (length ip == 16) ≡ true = rw sixteen in
    let cut = length-drop 12 ip in ground (arith, long, known)

-- The text of the target that a datagram from `host` and `port` names.
unfoldable pub sender_text : (Bytes → Option Bytes) → Bytes → ℕ → Bytes
unfolding target_text
sender_text parse_ip host port = elim (parse_ip host) [
  | some ip ↦ elim (to4 ip) [
    | some ip4 ↦ target_text ipv4_addr (ip_string ip4) port
    | none ↦ target_text ipv6_addr (ip_string ip) port
  ]
  | none ↦ target_text domain_addr host port
]

two_bytes : (n : ℕ) → n < 65536 → n / 256 % 256 * 256 + n % 256 ≡ n
two_bytes n h = omega arith

-- What follows the address of a datagram.
abbrev tail : ℕ → Bytes → Bytes
tail port payload = port / 256 % 256 ∷ port % 256 ∷ payload

module _ (port : ℕ) (payload : Bytes) (small : port < 65536) where
  parse-v4 :
      (a : Bytes)
      → length a ≡ 4
      → parse_socks5_udp_packet (0 ∷ 0 ∷ 0 ∷ ipv4_addr ∷ a ++ tail port payload)
        ≡ ok (target_text ipv4_addr (ip_string a) port, payload)
  parse-v4 a e =
      subst
        (λ n.
          parse_socks5_udp_packet (0 ∷ 0 ∷ 0 ∷ ipv4_addr ∷ a ++ tail port payload)
          ≡ ok (target_text ipv4_addr (ip_string a) n, payload))
        (two_bytes port small)
        (parse_behind_host ipv4_addr _ _ (a ++ tail port payload) payload (ip_string a) 8
          (omega (arith, length-append a (tail port payload)))
          (packet_host-v4 a (tail port payload) e) (drop_front 4 a (tail port payload) e))

  parse-v6 :
      (a : Bytes)
      → length a ≡ 16
      → parse_socks5_udp_packet (0 ∷ 0 ∷ 0 ∷ ipv6_addr ∷ a ++ tail port payload)
        ≡ ok (target_text ipv6_addr (ip_string a) port, payload)
  parse-v6 a e =
      subst
        (λ n.
          parse_socks5_udp_packet (0 ∷ 0 ∷ 0 ∷ ipv6_addr ∷ a ++ tail port payload)
          ≡ ok (target_text ipv6_addr (ip_string a) n, payload))
        (two_bytes port small)
        (parse_behind_host ipv6_addr _ _ (a ++ tail port payload) payload (ip_string a) 20
          (omega (arith, length-append a (tail port payload)))
          (packet_host-v6 a (tail port payload) e) (drop_front 16 a (tail port payload) e))

  parse-domain :
      (a : Bytes)
      → 3 ≤ length a + length payload
      → parse_socks5_udp_packet (0 ∷ 0 ∷ 0 ∷ domain_addr ∷ length a ∷ a ++ tail port payload)
        ≡ ok (target_text domain_addr a port, payload)
  parse-domain a long =
      subst
        (λ n.
          parse_socks5_udp_packet (0 ∷ 0 ∷ 0 ∷ domain_addr ∷ length a ∷ a ++ tail port payload)
          ≡ ok (target_text domain_addr a n, payload))
        (two_bytes port small)
        (parse_behind_host domain_addr _ _ (length a ∷ a ++ tail port payload) payload a
          (5 + length a) (omega (arith, length-append a (tail port payload)))
          (packet_host-domain a (tail port payload))
          (rw (drop-add 5 (length a)) (drop-append_length a (tail port payload))))

made :
    (parse_ip : Bytes → Option Bytes) (host payload : Bytes) (port : ℕ) {address p : Bytes}
    → build_socks5_udp_packet parse_ip host port payload ≡ ok p
    → reply_address parse_ip host ≡ ok address
    → p ≡ 0 ∷ 0 ∷ 0 ∷ address ++ tail port payload
unfolding build_socks5_udp_packet
made parse_ip host payload port built e = let shape = rw e at built in cc

not_made :
    (parse_ip : Bytes → Option Bytes) (host payload : Bytes) (port : ℕ) {p : Bytes}
    → build_socks5_udp_packet parse_ip host port payload ≡ ok p
    → reply_address parse_ip host ≡ err name_too_long
    → ⊥
unfolding build_socks5_udp_packet
not_made parse_ip host payload port built e = let shape = rw e at built in cc

byte_lem : (host : Bytes) → ltb 255 (length host) ≡ false → length host % 256 ≡ length host
byte_lem host fits = ground arith

module _ (parse_ip : Bytes → Option Bytes)
    (sixteen : (h ip : Bytes) → parse_ip h ≡ some ip → length ip ≡ 16) where
  -- Given that `parse_ip` gives addresses of 16 bytes: where buildSOCKS5UDPPacket makes a packet of
  -- at least 10 bytes from a host, a port below 2 ^ 16 and a payload, parseSOCKS5UDPPacket reads the
  -- text of the host and the port, and the payload, back from it.
  pub parse-build :
      (host payload : Bytes) (port : ℕ) {p : Bytes}
      → port < 65536
      → build_socks5_udp_packet parse_ip host port payload ≡ ok p
      → 10 ≤ length p
      → parse_socks5_udp_packet p ≡ ok (sender_text parse_ip host port, payload)
  unfolding reply_address sender_text
  parse-build host payload port {p} small built long = elim (Option-cases (parse_ip host)) [
    | inl name ↦ elim (Bool-cases (ltb 255 (length host))) [
      | inl over ↦
          elim (not_made parse_ip host payload port built
            (rw (name, reply_address) (rw over refl))) [ ]
      | inr fits ↦
          let shape : p ≡ 0 ∷ 0 ∷ 0 ∷ domain_addr ∷ length host ∷ host ++ tail port payload =
            made parse_ip host payload port {address = domain_addr ∷ length host ∷ host} built
              (rw (name, reply_address) (rw fits (rw (byte_lem host fits) refl))) in
          let enough : 3 ≤ length host + length payload =
            omega
              (arith, length-append host (tail port payload), ap (λ (q : Bytes). length q) shape) in
          rw (name, sender_text) (rw shape (parse-domain port payload small host enough))
    ]
    | inr (ip, address) ↦ elim (Option-cases (to4 ip)) [
      | inl long_form ↦
          let shape : p ≡ 0 ∷ 0 ∷ 0 ∷ ipv6_addr ∷ ip ++ tail port payload =
            made parse_ip host payload port {address = ipv6_addr ∷ ip} built
              (rw (address, reply_address) (rw long_form refl)) in
          rw (address, sender_text)
            (rw long_form (rw shape (parse-v6 port payload small ip (sixteen host ip address))))
      | inr (ip4, short_form) ↦
          let four = to4-length ip (sixteen host ip address) short_form in
          let shape : p ≡ 0 ∷ 0 ∷ 0 ∷ ipv4_addr ∷ ip4 ++ tail port payload =
            made parse_ip host payload port {address = ipv4_addr ∷ ip4} built
              (rw (address, reply_address) (rw short_form refl)) in
          rw (address, sender_text)
            (rw short_form (rw shape (parse-v4 port payload small ip4 four)))
    ]
  ]
