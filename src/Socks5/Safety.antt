-- ===== src/Socks5/Safety.antt =====
-- How parseSOCKS5UDPPacket ends on a packet of any content.
use ech_tunnel.Base.{
  ℕ, ◌+◌, ◌<◌, ◌≤◌, Bool, true, false, not, ◌||◌, ◌≡◌, ◌≢◌, refl, arith, ltb, ◌==◌, Bytes, length,
  get_elem?_in_range, if◌then◌else◌,
}
use ech_tunnel.Socks5.{
  Parsed, PacketError, ok, err, panic, ◌>>=◌, ◌>>◌, fail_if, byte_at, packet_host, ipv4_addr,
  domain_addr, ipv6_addr, parse_socks5_udp_packet, too_short, bad_reserved, fragmented, bad_ipv4,
  no_length, bad_domain, bad_ipv6, no_port,
}

-- The result is no panic.
record Calm {A : Type 0} (r : Parsed A) : Type 0 where
  calm : r ≢ err panic

ok-Calm : {A : Type 0} (a : A) → Calm (ok a)
ok-Calm a = record { calm = λ h. cc }

bind-Calm :
    {A B : Type 0} (m : Parsed A) (k : A → Parsed B)
    → Calm m
    → ((a : A) → Calm (k a))
    → Calm (m >>= k)
bind-Calm (ok a) k calm next = next a
bind-Calm (err e) k calm next = record { calm = λ h. calm.calm cc }

fail_if-Calm :
    {A : Type 0} (b : Bool) (e : PacketError) (k : Parsed A)
    → e ≢ panic
    → (b ≡ false → Calm k)
    → Calm (fail_if b e >> k)
fail_if-Calm true e k other next = record { calm = λ h. other cc }
fail_if-Calm false e k other next = next refl

byte_at-Calm : (p : Bytes) (i : ℕ) → i < length p → Calm (byte_at p i)
unfolding byte_at
byte_at-Calm p i h = let (x, e) = get_elem?_in_range p i h in rw (e, byte_at) (ok-Calm x)

if-Calm : {A : Type 0} (b : Bool) (x y : Parsed A) → Calm x → Calm y → Calm (if b then x else y)
if-Calm true x y cx cy = cx
if-Calm false x y cx cy = cy

packet_host-Calm : (p : Bytes) (atyp : ℕ) → 10 ≤ length p → Calm (packet_host p atyp)
unfolding packet_host
packet_host-Calm p atyp long =
    if-Calm (atyp == ipv4_addr) _ _
      (fail_if-Calm (ltb (length p) 8) bad_ipv4 _ (λ e. cc) (λ fits. ok-Calm _))
      (if-Calm (atyp == domain_addr) _ _
        (fail_if-Calm (ltb (length p) 5) no_length _ (λ e. cc)
          (λ fits. bind-Calm (byte_at p 4) _ (byte_at-Calm p 4 (omega arith)) (λ size.
            fail_if-Calm (ltb (length p) (5 + size)) bad_domain _ (λ e. cc) (λ full. ok-Calm _))))
        (if-Calm (atyp == ipv6_addr) _ _
          (fail_if-Calm (ltb (length p) 20) bad_ipv6 _ (λ e. cc) (λ fits. ok-Calm _))
          (record { calm = λ h. cc })))

-- parseSOCKS5UDPPacket returns a target and data or one of its errors on every packet: no byte that
-- it reads by its index is out of range.
pub parse_socks5_udp_packet_safe : (packet : Bytes) → parse_socks5_udp_packet packet ≢ err panic
unfolding parse_socks5_udp_packet
parse_socks5_udp_packet_safe p = Calm.calm (
    fail_if-Calm (ltb (length p) 10) too_short _ (λ e. cc)
      (λ short.
        let long : 10 ≤ length p = ground (arith, short) in
        bind-Calm (byte_at p 0) _ (byte_at-Calm p 0 (omega arith)) (λ r0.
          bind-Calm (byte_at p 1) _ (byte_at-Calm p 1 (omega arith)) (λ r1.
            fail_if-Calm (not (r0 == 0) || not (r1 == 0)) bad_reserved _ (λ e. cc)
              (λ zero_reserved. bind-Calm (byte_at p 2) _ (byte_at-Calm p 2 (omega arith)) (λ frag.
                fail_if-Calm (not (frag == 0)) fragmented _ (λ e. cc)
                  (λ whole. bind-Calm (byte_at p 3) _ (byte_at-Calm p 3 (omega arith)) (λ atyp.
                    bind-Calm (packet_host p atyp) _ (packet_host-Calm p atyp long) (λ place.
                      fail_if-Calm (ltb (length p) (place.1 + 2)) no_port _ (λ e. cc)
                        (λ port.
                          let room : place.1 + 2 ≤ length p = ground (arith, port) in
                          bind-Calm (byte_at p place.1) _
                            (byte_at-Calm p place.1 (omega (arith, room)))
                            (λ high.
                              bind-Calm (byte_at p (place.1 + 1)) _
                                (byte_at-Calm p (place.1 + 1) (omega (arith, room)))
                                (λ low. ok-Calm _))))))))))))
