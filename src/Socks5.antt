-- ===== src/Socks5.antt =====
-- socks5.go: the datagrams of the SOCKS5 UDP relay.
pub mod RoundTrip
pub mod Safety
pub mod Handshake
pub mod Association
pub mod Associate
use ech_tunnel.Base.{
  ℕ, ◌+◌, ◌*◌, ◌/◌, ◌%◌, Bool, true, false, ◌||◌, not, [], ◌∷◌, ◌++◌, Option, none, some, ltb, ◌==◌,
  if◌then◌else◌, Bytes, decimal, take, drop, length, get_elem?,
}
use ech_tunnel.Net.{ip_string, to4}

-- The errors of parseSOCKS5UDPPacket and buildSOCKS5UDPPacket. `panic` is no Go error: it stands
-- for an index out of range.
pub data PacketError : Type 0 where
  too_short bad_reserved fragmented bad_ipv4 no_length bad_domain bad_ipv6 bad_type no_port
        name_too_long panic :
      PacketError

pub data Parsed {ℓ} (A : Type ℓ) : Type ℓ where
  ok : A → Parsed A
  err : PacketError → Parsed A

infixl 5 ◌>>=◌ ◌>>◌
abbrev pub ◌>>=◌ {ℓ κ} : {A : Type ℓ} {B : Type κ} → Parsed A → (A → Parsed B) → Parsed B
ok a >>= f = f a
err e >>= f = err e

abbrev pub ◌>>◌ {ℓ} : {B : Type ℓ} → Parsed (Unit {0}) → Parsed B → Parsed B
m >> k = m >>= λ _. k

-- `if b { return err }`
abbrev pub fail_if : Bool → PacketError → Parsed (Unit {0})
fail_if true e = err e
fail_if false e = ok tt

-- packet[i]
unfoldable pub byte_at : Bytes → ℕ → Parsed ℕ
byte_at packet i = elim (get_elem? packet i) [ none ↦ err panic | some b ↦ ok b ]

abbrev pub ipv4_addr : ℕ
ipv4_addr = 1

abbrev pub domain_addr : ℕ
domain_addr = 3

abbrev pub ipv6_addr : ℕ
ipv6_addr = 4

-- The host of the address at offset 4, and the offset behind it.
unfoldable pub packet_host : Bytes → ℕ → Parsed (Bytes × ℕ)
unfolding byte_at
packet_host packet atyp =
    if atyp == ipv4_addr
    then (do fail_if (ltb (length packet) 8) bad_ipv4; ok (ip_string (take 4 (drop 4 packet)), 8))
    else if atyp == domain_addr
    then (do
      fail_if (ltb (length packet) 5) no_length
      size ← byte_at packet 4
      fail_if (ltb (length packet) (5 + size)) bad_domain
      ok (take size (drop 5 packet), 5 + size))
    else if atyp == ipv6_addr
    then (do
      fail_if (ltb (length packet) 20) bad_ipv6
      ok (ip_string (take 16 (drop 4 packet)), 20))
    else err bad_type

-- `[host]:port` for an IPv6 address, `host:port` otherwise
unfoldable pub target_text : ℕ → Bytes → ℕ → Bytes
target_text atyp host port =
    if atyp == ipv6_addr
    then b'[' ∷ (host ++ b']' ∷ b':' ∷ decimal port)
    else host ++ b':' ∷ decimal port

unfoldable pub parse_socks5_udp_packet : Bytes → Parsed (Bytes × Bytes)
unfolding byte_at packet_host
parse_socks5_udp_packet packet = do
  fail_if (ltb (length packet) 10) too_short
  r0 ← byte_at packet 0
  r1 ← byte_at packet 1
  fail_if (not (r0 == 0) || not (r1 == 0)) bad_reserved
  frag ← byte_at packet 2
  fail_if (not (frag == 0)) fragmented
  atyp ← byte_at packet 3
  place ← packet_host packet atyp
  fail_if (ltb (length packet) (place.1 + 2)) no_port
  high ← byte_at packet place.1
  low ← byte_at packet (place.1 + 1)
  ok (target_text atyp place.0 (high * 256 + low), drop (place.1 + 2) packet)

-- The type and the bytes of the address of a reply. `parse_ip` stands for `net.ParseIP`, which
-- gives the 16-byte form of an address in text, or nil.
unfoldable pub reply_address : (Bytes → Option Bytes) → Bytes → Parsed Bytes
reply_address parse_ip host = elim (parse_ip host) [
  | some ip ↦ elim (to4 ip) [ some ip4 ↦ ok (ipv4_addr ∷ ip4) | none ↦ ok (ipv6_addr ∷ ip) ]
  | none ↦
      fail_if (ltb 255 (length host)) name_too_long >> ok (domain_addr ∷ length host % 256 ∷ host)
]

-- A port is written as its low sixteen bits.
unfoldable pub build_socks5_udp_packet : (Bytes → Option Bytes) → Bytes → ℕ → Bytes → Parsed Bytes
unfolding reply_address
build_socks5_udp_packet parse_ip host port payload = do
  address ← reply_address parse_ip host
  ok (0 ∷ 0 ∷ 0 ∷ (address ++ port / 256 % 256 ∷ port % 256 ∷ payload))
