-- ===== src/Socks5/Associate.antt =====
-- socks5.go: handleSOCKS5UDPAssociate, which opens an association, and sendSOCKS5UDPResponse.
use ech_tunnel.Base.{
  ℕ, ◌+◌, ◌*◌, ◌/◌, ◌%◌, ◌<◌, ◌≤◌, Bool, true, false, List, [], ◌∷◌, ◌++◌, Option, none, some, ◌≡◌,
  inl, inr, refl, arith, Bytes, AllBytes, length, length-append, if◌then◌else◌, Option-cases,
  Bool-cases, bytes_eq, bytes_key, length-drop, drop, lookup, lookup-insert_self, zero, suc, take,
  ◌&&◌, ◌==◌,
}
use mathlib.Core.Path.{subst}
use ech_tunnel.Wire.{text, binary, udp_connect_message, udp_data_message}
use ech_tunnel.Net.{to4, v4_prefix}
use ech_tunnel.Pool.{AssocId, Ws, Pool, register_udp, ws_write}
use ech_tunnel.Pool.Send.{first_ws}
use ech_tunnel.Socks5.{ok, parse_socks5_udp_packet}
use ech_tunnel.Socks5.Handshake.{ProxyConfig, error_response}
use ech_tunnel.Socks5.Association
use ech_tunnel.Socks5.Association.{Association, State, of_pool, go_wait, handle_udp_relay}
use ech_tunnel.Socks5.Association.Datagrams.{first_datagram_forwarded}

-- The type of an address and the address: the IPv4 form where there is one.
unfoldable pub address_part : Bytes → Option Bytes → Bytes
address_part ip (some ip4) = 1 ∷ ip4
address_part ip none = 4 ∷ ip

unfoldable pub udp_response : Bytes → ℕ → Bytes
unfolding address_part
udp_response ip port = 5 ∷ 0 ∷ 0 ∷ (address_part ip (to4 ip) ++ port / 256 % 256 ∷ port % 256 ∷ [])

-- `net.SplitHostPort`, whose port is not used, the address that `net.ResolveUDPAddr` finds for port 0
-- of the host, the local address and port that `net.ListenUDP` gets there, and which
-- writes to the TCP connection succeed.
pub record Env : Type 0 where
  pub split_host : Bytes → Option Bytes
  pub resolve : Bytes → Option ℕ
  pub listen : ℕ → Option (Bytes × ℕ)
  pub conn_ok : Bytes → Bool

-- The handler returns with an error, behind a refusal or a response that was lost, or an association
-- is open and waits for `done`, upon which it is closed.
pub data Associated : Type 0 where
  refused unanswered : Associated
  opened : State → Associated

-- The first part of the handler: the listener's address.
unfoldable pub listener_address : Env → ProxyConfig → Option (Bytes × ℕ)
listener_address env config = elim (env.split_host config.host) [
  | none ↦ none
  | some host ↦ elim (env.resolve host) [ none ↦ none | some addr ↦ env.listen addr ]
]

unfoldable pub new_association : Bytes → Association
new_association id = record {
  conn_id = id;
  client_udp_addr = none;
  closed = false;
  receiving = false;
}

-- The result, and what is written to the TCP connection.
unfoldable pub handle_udp_associate :
    Env → ProxyConfig → Bytes → AssocId → Pool → Associated × List Bytes
unfolding listener_address new_association udp_response error_response
handle_udp_associate env config id handle p = elim (listener_address env config) [
  | none ↦ (refused, error_response 1 ∷ [])
  | some (ip, port) ↦
      let response = udp_response ip port in
      if env.conn_ok response
      then (opened (new_association id, register_udp id handle p), response ∷ [])
      else (unanswered, response ∷ [])
]

AllBytes-append : (s t : Bytes) → AllBytes s → AllBytes t → AllBytes (s ++ t)
AllBytes-append [] t a b = b
AllBytes-append (x ∷ s) t (byte, a) b = (byte, AllBytes-append s t a b)

AllBytes-drop : (n : ℕ) (s : Bytes) → AllBytes s → AllBytes (drop n s)
AllBytes-drop zero s a = a
AllBytes-drop (suc n) [] a = tt
AllBytes-drop (suc n) (x ∷ s) (byte, a) = AllBytes-drop n s a

to4_short : (ip ip4 : Bytes) → to4 ip ≡ some ip4 → length ip4 ≡ 4
unfolding to4
to4_short ip ip4 e = ground (arith, e, length-drop 12 ip)

to4-AllBytes : (ip ip4 : Bytes) → to4 ip ≡ some ip4 → AllBytes ip → AllBytes ip4
unfolding to4
to4-AllBytes ip ip4 e bytes = elim (Bool-cases (length ip == 4)) [
  | inl four ↦
      let same : some ip ≡ some ip4 = rw (four, to4) at e in
      let whole : ip ≡ ip4 = cc in subst AllBytes whole bytes
  | inr long ↦ elim (Bool-cases (length ip == 16 && bytes_eq (take 12 ip) v4_prefix)) [
    | inl mapped ↦
        let same : some (drop 12 ip) ≡ some ip4 = rw (long, mapped, to4) at e in
        let last : drop 12 ip ≡ ip4 = cc in subst AllBytes last (AllBytes-drop 12 ip bytes)
    | inr other ↦ absurd (ground (arith, e, long, other))
  ]
]

address_bounds :
    (ip : Bytes)
    → AllBytes ip
    → length ip ≤ 16
    → AllBytes (address_part ip (to4 ip)) × (length (address_part ip (to4 ip)) ≤ 17)
unfolding address_part
address_bounds ip bytes size = elim (Option-cases (to4 ip)) [
  | inl long ↦ rw long ((omega arith, bytes), omega (arith, size))
  | inr (ip4, short) ↦
      rw short
        ((omega arith, to4-AllBytes ip ip4 short bytes), omega (arith, to4_short ip ip4 short))
]

-- The response to UDP ASSOCIATE fits into the 22 bytes that are made for it, whatever the address of
-- the listener is, of up to 16 bytes; each element is a byte, and the last two are the port's.
pub udp_response_bounds :
    (ip : Bytes) (port : ℕ)
    → AllBytes ip
    → length ip ≤ 16
    → port < 65536
    → AllBytes (udp_response ip port)
      × (length (udp_response ip port) ≤ 22)
      × ((front : Bytes) × (high low : ℕ) × (udp_response ip port ≡ front ++ high ∷ low ∷ [])
          × (high * 256 + low ≡ port))
unfolding udp_response
udp_response_bounds ip port bytes size small =
    let (address, short) = address_bounds ip bytes size in
    let part = address_part ip (to4 ip) in
    let ending : Bytes = port / 256 % 256 ∷ port % 256 ∷ [] in
    let all : AllBytes (part ++ ending) =
      AllBytes-append part ending address (omega arith, (omega arith, tt)) in
    (
      (omega arith, (omega arith, (omega arith, all))),
      omega (arith, length-append part ending, short),
      (5 ∷ 0 ∷ 0 ∷ part, port / 256 % 256, port % 256, refl, omega (arith, small)),
    )

module _ (env : Env) (run : Association.Env) (config : ProxyConfig) (id : Bytes) (handle : AssocId)
    (p : Pool) (ip : Bytes) (port : ℕ) (listens : listener_address env config ≡ some (ip, port))
    (answered : env.conn_ok (udp_response ip port) ≡ true) where
  -- UDP ASSOCIATE and the first datagram: where the listener is there and the response can be
  -- written, the client gets the response with the listener's address, the pool knows the
  -- association, and its first datagram that can be parsed makes the first connected channel, where
  -- UDP_CONNECT can be written, get UDP_CONNECT with the packet's target and then UDP_DATA with its
  -- payload, nothing else; the sender is the association's client from then on.
  pub associated_datagram_forwarded :
      (src packet target payload : Bytes) (c : ℕ) (ws : Ws)
      → parse_socks5_udp_packet packet ≡ ok (target, payload)
      → first_ws 0 p.ws_conns ≡ some (c, ws)
      → run.pool.ws_ok ws (udp_connect_message id target) ≡ true
      → (s : State) × (handle_udp_associate env config id handle p
          ≡ (opened s, udp_response ip port ∷ []))
        × (lookup id s.1.udp_map ≡ some handle)
        × ((handle_udp_relay run src packet s).1
            ≡ of_pool (ws_write ws text (udp_connect_message id target))
              ∷ go_wait id
              ∷ of_pool (ws_write ws binary (udp_data_message id payload))
              ∷ [])
        × ((handle_udp_relay run src packet s).0.0.client_udp_addr ≡ some src)
  unfolding handle_udp_associate new_association register_udp
  associated_datagram_forwarded src packet target payload c ws parsed first sent =
      let (written, remembered, channel) =
        first_datagram_forwarded run src packet target payload (new_association id)
          (register_udp id handle p) c ws parsed refl refl refl first sent in
      (
        (new_association id, register_udp id handle p),
        rw (listens, handle_udp_associate) (rw answered refl),
        lookup-insert_self id handle p.udp_map,
        written,
        remembered,
      )
