-- ===== src/Server/Udp.antt =====
-- websocket_server.go: the goroutine that reads the UDP socket of a connection and sends what
-- arrives to the client.
use ech_tunnel.Base.{Bool, true, false, List, [], ◌∷◌, ◌++◌, Bytes, erase, if◌then◌else◌, bytes_key}
use ech_tunnel.Wire.{binary, udp_reply_message}
use ech_tunnel.Server.{UdpConn, Session, Effect, ws_write, udp_close, Outcome}

-- What one round meets. A datagram comes with host and port of its sender, as `net.SplitHostPort`
-- gives them for the printed address: the host of an IPv6 address has no brackets.
pub data UdpEvent : Type 0 where
  cancelled timed_out failed : UdpEvent
  datagram : Bytes → Bytes → Bytes → UdpEvent

-- The loop over its rounds, with a flag that tells whether it has returned. A failed write to the
-- WebSocket is ignored.
unfoldable pub receive_loop : Bytes → List UdpEvent → Bool × List Effect
receive_loop id [] = (false, [])
receive_loop id (cancelled ∷ events) = (true, [])
receive_loop id (timed_out ∷ events) = receive_loop id events
receive_loop id (failed ∷ events) = (true, [])
receive_loop id (datagram host port b ∷ events) =
    let (ended, es) = receive_loop id events in
    (ended, ws_write binary (udp_reply_message id host port b) ∷ es)

-- The goroutine: the loop, and the deferred function once it has returned.
unfoldable pub receive_udp : Bytes → UdpConn → List UdpEvent → Session → Outcome
receive_udp id uc events s =
    let (ended, es) = receive_loop id events in
    if ended
    then (
      record s { udp_conns = erase id s.udp_conns; udp_targets = erase id s.udp_targets },
      es ++ udp_close uc ∷ [],
    )
    else (s, es)
