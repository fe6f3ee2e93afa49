-- ===== src/Examples/Beside.antt =====
-- An association of socks5.go with what runs beside it, on a few events.
use ech_tunnel.Base.{
  true, false, [], ◌∷◌, ◌++◌, none, some, ◌≡◌, refl, arith, Bytes, codes, List, lookup, insert,
  erase, bytes_key, bytes_eq, decimal, replicate, take, length, split, drop,
}
use ech_tunnel.Wire.{text, binary, udp_connect_message, udp_data_message, udp_close_message}
use ech_tunnel.Pool.{ws_write}
use ech_tunnel.Pool.Send.{
  first_ws, bound_ws, ws_at, send_udp_connect, send_udp_data, send_udp_close,
}
use ech_tunnel.Socks5.Association.{
  Env, Effect, of_pool, go_wait, listener_close, handle_udp_packet, handle_udp_response, respond,
  reply, send_data, connect_first, forward, close, to_client, signal_done,
}
use ech_tunnel.Socks5.{
  build_socks5_udp_packet, reply_address, parse_socks5_udp_packet, packet_host, byte_at,
  target_text,
}
use ech_tunnel.Socks5.Association.World.{
  World, Event, datagram, packet_handled, control_ended, response, terminated, run, step, started,
  has_signal, relay_round, go_packet, read_into, run_packet, signal, terminate, respond_to,
}
use ech_tunnel.Socks5.Association.Talk.{Phase, Talk}
use ech_tunnel.Socks5.Association.Talk
use ech_tunnel.Socks5.Association.Spoken.{association_talks}
use ech_tunnel.Socks5.Association.Shared.{overwritten_datagram}
use ech_tunnel.Socks5.Association.Signals.{IsStuck, failed_reply_blocks}
use ech_tunnel.Examples.Association.{client, fresh, fine, second_connected, query}

-- A datagram, its goroutine, the end of the control connection, and the end of the handler.
abbrev life : List Event
life = datagram client query ∷ packet_handled fine 0 ∷ control_ended ∷ terminated fine ∷ []

abbrev said : List Effect
said =
    of_pool (ws_write 12 text (udp_connect_message (codes "u") (codes "ab:53")))
    ∷ go_wait (codes "u")
    ∷ of_pool (ws_write 12 binary (udp_data_message (codes "u") (codes "!")))
    ∷ of_pool (ws_write 12 text (udp_close_message (codes "u")))
    ∷ listener_close
    ∷ []

abbrev ended : World
ended = record {
  assoc = record {
    conn_id = codes "u";
    client_udp_addr = some client;
    closed = true;
    receiving = true;
  };
  pool = record second_connected { udp_map = []; channel_map = []; bound_by_channel = [] };
  buffer = query;
  pending = [];
  waiting = true;
  done = 0;
  finished = true;
}

life_runs : run life (started fresh second_connected (replicate 10 0)) ≡ some (ended, said)
unfolding run step started relay_round go_packet read_into run_packet signal terminate
    handle_udp_packet parse_socks5_udp_packet packet_host byte_at target_text decimal send_data
    connect_first forward close send_udp_connect send_udp_data send_udp_close first_ws bound_ws
    ws_at lookup insert erase bytes_eq
life_runs = refl

association_talks_example : (last : Phase) × Talk (codes "u") Talk.fresh said last
unfolding lookup
association_talks_example =
    association_talks fresh second_connected (replicate 10 0) life refl life_runs

-- The client has sent before, and no goroutine waits.
abbrev known : World
known = record {
  assoc = record fresh { client_udp_addr = some client };
  pool = second_connected;
  buffer = replicate 10 0;
  pending = [];
  waiting = false;
  done = 0;
  finished = false;
}

abbrev other_query : Bytes
other_query = 0 ∷ 0 ∷ 0 ∷ 3 ∷ 2 ∷ b'c' ∷ b'd' ∷ 0 ∷ 53 ∷ b'?' ∷ []

overwritten_datagram_example :
    (u v : World) × (run (datagram client query ∷ datagram client other_query ∷ []) known
      ≡ some (u, []))
    × (step (packet_handled fine 0) u
        ≡ some (
          v,
          (handle_udp_packet fine (take (length query) other_query) (known.assoc, known.pool)).1,
        ))
overwritten_datagram_example =
    overwritten_datagram fine client query other_query known refl refl (omega arith)

-- Replies cannot be sent. Two of them fail, the handler takes the first value, another reply fails
-- that was on its way, and so does the read of the closed socket.
abbrev lossy : Env
lossy = record fine { udp_ok = λ _. false }

abbrev full : World
full = record ended { done = 2 }

abbrev lost_reply : Event
lost_reply = response lossy (codes "ab:53") (codes "!")

-- What a reply tries to send.
abbrev answer_packet : Bytes
answer_packet = 0 ∷ 0 ∷ 0 ∷ 3 ∷ 2 ∷ b'a' ∷ b'b' ∷ 0 ∷ 53 ∷ b'!' ∷ []

abbrev lost : List Effect
lost = to_client client answer_packet ∷ signal_done ∷ []

-- The events lead to this world.
full_reached :
    run
      (datagram client query
        ∷ packet_handled fine 0
        ∷ lost_reply
        ∷ lost_reply
        ∷ terminated fine
        ∷ lost_reply
        ∷ [])
      (started fresh second_connected (replicate 10 0))
    ≡ some (full, take 3 said ++ (lost ++ (lost ++ (drop 3 said ++ lost))))
unfolding run step started relay_round go_packet read_into run_packet signal terminate respond_to
    handle_udp_packet parse_socks5_udp_packet packet_host byte_at target_text decimal send_data
    connect_first forward close send_udp_connect send_udp_data send_udp_close first_ws bound_ws
    ws_at lookup insert erase bytes_eq handle_udp_response respond reply split
    build_socks5_udp_packet reply_address
full_reached = refl

full-IsStuck : IsStuck full
full-IsStuck = record { full = refl; over = refl }

reply_fails : has_signal (handle_udp_response lossy (codes "ab:53") (codes "!") full.assoc) ≡ true
unfolding handle_udp_response respond reply split build_socks5_udp_packet reply_address
reply_fails = refl

failed_reply_blocks_example : step (response lossy (codes "ab:53") (codes "!")) full ≡ none
unfolding run
failed_reply_blocks_example =
    failed_reply_blocks full [] lossy (codes "ab:53") (codes "!") full-IsStuck refl reply_fails
