-- ===== src/Examples/Client.antt =====
-- pool.go on a pool with two channels, one registered connection and one message at a time.
use ech_tunnel.Base.{
  true, false, [], ◌∷◌, none, some, ◌≡◌, ◌≢◌, refl, Bytes, codes, lookup, bytes_key, nat_eq,
  bytes_eq,
}
use ech_tunnel.Wire.{text, tcp_message, claim_message}
use ech_tunnel.Pool.{Pool, Info, Env, ws_write, new_ech_pool, register, claim_channel}
use ech_tunnel.Pool.Receive.{claim_acked}
use ech_tunnel.Pool.Valid.{IsValid}
use ech_tunnel.Pool.Steps.{here, next, registered, reachable-IsValid}
use ech_tunnel.Pool.Race.{acks, acks_first_wins}
use ech_tunnel.Pool.Race.Claims.{overtaken_claim_panics}

abbrev id_a : Bytes
id_a = codes "a"

abbrev id_b : Bytes
id_b = codes "ab"

abbrev request : Info
request = record { target_addr = codes "host:80"; first_frame_data = codes "GET" }

abbrev writes_fine : Env
writes_fine = record { ws_ok = λ _ _. true; conn_ok = λ _ _. true; now = λ i. i }

abbrev writes_lost : Env
writes_lost = record { ws_ok = λ _ _. false; conn_ok = λ _ _. true; now = λ i. i }

abbrev two_channels : Pool
two_channels = record {
  ws_server_addr = codes "wss://server";
  connection_num = 2;
  ws_conns = some 11 ∷ some 12 ∷ [];
  tcp_map = [];
  udp_map = [];
  channel_map = [];
  conn_info = [];
  claim_times = [];
  connected = [];
  bound_by_channel = [];
}

-- The connection `a` waits for a channel.
abbrev waiting : Pool
waiting = record two_channels {
  tcp_map = (id_a, 7) ∷ [];
  conn_info = (id_a, request) ∷ [];
  connected = (id_a, false) ∷ [];
}

acks_first_wins_example :
    (q : Pool) × (acks writes_fine id_a ((1, 12) ∷ (0, 11) ∷ []) waiting
      ≡ (q, ws_write 12 text (tcp_message id_a (codes "host:80") (codes "GET")) ∷ []))
    × (lookup id_a q.channel_map ≡ some 1)
    × (lookup 1 q.bound_by_channel ≡ some id_a)
    × (lookup id_a q.conn_info ≡ none)
unfolding lookup bytes_eq
acks_first_wins_example =
    acks_first_wins writes_fine 1 12 id_a request waiting refl refl ((0, 11) ∷ []) refl

reachable-IsValid_example :
    IsValid (register id_a (codes "host:80") [] 7 (new_ech_pool (codes "wss://server") 2))
unfolding lookup new_ech_pool
reachable-IsValid_example =
    reachable-IsValid (codes "wss://server") 2
      (register id_a (codes "host:80") [] 7 (new_ech_pool (codes "wss://server") 2))
      (next here (registered id_a (codes "host:80") [] 7 refl))

overtaken_claim_panics_example :
    (q : Pool) × (claim_channel writes_fine id_a 0 11
        (register id_a (codes "host:80") [] 7 two_channels)
      ≡ some (q, ws_write 11 text (claim_message id_a 0) ∷ []))
    × (claim_channel writes_fine id_a 1 12 (claim_acked writes_fine 0 11 id_a q).0 ≡ none)
unfolding lookup
overtaken_claim_panics_example =
    overtaken_claim_panics writes_fine writes_fine id_a (codes "host:80") [] 7 0 1 11 12
      two_channels refl refl

other : id_b ≢ id_a
other e = cc
