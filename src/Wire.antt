-- ===== src/Wire.antt =====
-- The messages of the tunnel protocol, as pool.go (client) and websocket_server.go (server) build
-- them: a name, a colon and fields that are separated by `|`.
use ech_tunnel.Base.{ℕ, ◌∷◌, ◌++◌, Bytes, codes, decimal}

-- websocket.TextMessage and websocket.BinaryMessage
pub data MsgType : Type 0 where
  text binary : MsgType

-- client to server
module _ (id : Bytes) where
  abbrev pub claim_message : ℕ → Bytes
  claim_message channel = codes "CLAIM:" ++ (id ++ b'|' ∷ decimal channel)

  abbrev pub tcp_message : Bytes → Bytes → Bytes
  tcp_message target first = codes "TCP:" ++ (id ++ b'|' ∷ (target ++ b'|' ∷ first))

  abbrev pub udp_connect_message : Bytes → Bytes
  udp_connect_message target = codes "UDP_CONNECT:" ++ (id ++ b'|' ∷ target)

  abbrev pub udp_close_message : Bytes
  udp_close_message = codes "UDP_CLOSE:" ++ id

  -- both ways
  abbrev pub data_message : Bytes → Bytes
  data_message payload = codes "DATA:" ++ (id ++ b'|' ∷ payload)

  abbrev pub udp_data_message : Bytes → Bytes
  udp_data_message payload = codes "UDP_DATA:" ++ (id ++ b'|' ∷ payload)

  abbrev pub close_message : Bytes
  close_message = codes "CLOSE:" ++ id

  -- server to client
  abbrev pub claim_ack_message : Bytes → Bytes
  claim_ack_message channel = codes "CLAIM_ACK:" ++ (id ++ b'|' ∷ channel)

  abbrev pub connected_message : Bytes
  connected_message = codes "CONNECTED:" ++ id

  abbrev pub udp_connected_message : Bytes
  udp_connected_message = codes "UDP_CONNECTED:" ++ id

  abbrev pub udp_error_message : Bytes → Bytes
  udp_error_message reason = codes "UDP_ERROR:" ++ (id ++ b'|' ∷ reason)

  abbrev pub udp_reply_message : Bytes → Bytes → Bytes → Bytes
  udp_reply_message host port payload =
      codes "UDP_DATA:" ++ (id ++ b'|' ∷ (host ++ b':' ∷ (port ++ b'|' ∷ payload)))
