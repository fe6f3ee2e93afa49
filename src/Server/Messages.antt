-- ===== src/Server/Messages.antt =====
-- How `handleWebSocket` reads the messages that the client builds.
use ech_tunnel.Base.{
  ℕ, false, ◌∷◌, [], ◌≡◌, refl, arith, Bytes, length-append, contains_byte, split_n-append_two,
  split_n-append_three, trim_prefix, decimal,
}
use ech_tunnel.Wire.{
  text, binary, claim_message, tcp_message, udp_connect_message, udp_close_message, data_message,
  udp_data_message, close_message, claim_ack_message,
}
use ech_tunnel.Server.{Session, Env, ws_write, go_tcp}
use ech_tunnel.Server.Dispatch.{
  forward_udp, udp_data_received, forward_tcp, data_received, open_udp, udp_connect_received,
  udp_close_received, claim_received, tcp_received, close_received, handle_binary, handle_text,
  handle_web_socket,
}

module _ (env : Env) (id : Bytes) (s : Session) where
  pub handle-close : handle_web_socket env text (close_message id) s ≡ close_received id s
  unfolding handle_web_socket handle_text trim_prefix
  handle-close = refl

  pub handle-udp_close :
      handle_web_socket env text (udp_close_message id) s ≡ udp_close_received id s
  unfolding handle_web_socket handle_text trim_prefix
  handle-udp_close = refl

module _ (env : Env) (id : Bytes) (plain : contains_byte b'|' id ≡ false) (s : Session) where
  pub handle-claim :
      (i : ℕ)
      → handle_web_socket env text (claim_message id i) s
        ≡ (s, ws_write text (claim_ack_message id (decimal i)) ∷ [])
  unfolding handle_web_socket handle_text claim_received
  handle-claim i = ground (arith, split_n-append_two b'|' id (decimal i))

  pub handle-data :
      (b : Bytes) → handle_web_socket env text (data_message id b) s ≡ forward_tcp id b s
  unfolding handle_web_socket handle_text data_received
  handle-data b = ground (arith, split_n-append_two b'|' id b)

  pub handle-udp_connect :
      (target : Bytes)
      → handle_web_socket env text (udp_connect_message id target) s ≡ open_udp env id target s
  unfolding handle_web_socket handle_text udp_connect_received
  handle-udp_connect target = ground (arith, split_n-append_two b'|' id target)

  pub handle-udp_data :
      (b : Bytes) → handle_web_socket env binary (udp_data_message id b) s ≡ forward_udp id b s
  unfolding handle_web_socket handle_binary udp_data_received
  handle-udp_data b = ground (arith, split_n-append_two b'|' id b, length-append id (b'|' ∷ b))

  pub handle-tcp :
      (target first : Bytes)
      → contains_byte b'|' target ≡ false
      → handle_web_socket env text (tcp_message id target first) s
        ≡ (s, go_tcp id target first ∷ [])
  unfolding handle_web_socket handle_text tcp_received
  handle-tcp target first h = ground (arith, split_n-append_three b'|' id target first)
