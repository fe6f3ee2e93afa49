-- ===== src/Pool/Messages.antt =====
-- How `handleChannel` reads the messages that the server builds.
use ech_tunnel.Base.{
  ℕ, false, ◌∷◌, [], ◌≡◌, refl, arith, Bytes, length-append, contains_byte, split_n-append_two,
  trim_prefix,
}
use ech_tunnel.Wire.{
  text, binary, claim_ack_message, connected_message, udp_connected_message, close_message,
  data_message,
}
use ech_tunnel.Pool.{Pool, Env, Ws}
use ech_tunnel.Pool.Receive.{
  data_received, data_or_raw, handle_binary, signal, claim_acked, claim_ack_received,
  close_received, handle_text, handle_channel,
}

module _ (env : Env) (channel : ℕ) (ws : Ws) (id : Bytes) (p : Pool) where
  pub handle-connected :
      handle_channel env channel ws text (connected_message id) p ≡ (signal id p, [])
  unfolding handle_channel handle_text trim_prefix
  handle-connected = refl

  pub handle-udp_connected :
      handle_channel env channel ws text (udp_connected_message id) p ≡ (signal id p, [])
  unfolding handle_channel handle_text trim_prefix
  handle-udp_connected = refl

  pub handle-close :
      handle_channel env channel ws text (close_message id) p ≡ close_received channel id p
  unfolding handle_channel handle_text trim_prefix
  handle-close = refl

module _ (env : Env) (channel : ℕ) (ws : Ws) (id : Bytes) (plain : contains_byte b'|' id ≡ false)
    (p : Pool) where
  pub handle-claim_ack :
      (c : Bytes)
      → handle_channel env channel ws text (claim_ack_message id c) p
        ≡ claim_acked env channel ws id p
  unfolding handle_channel handle_text claim_ack_received
  handle-claim_ack c = ground (arith, split_n-append_two b'|' id c)

  pub handle-data :
      (b : Bytes)
      → handle_channel env channel ws binary (data_message id b) p ≡ data_received env id b p
  unfolding handle_channel handle_binary data_or_raw
  handle-data b = ground (arith, split_n-append_two b'|' id b, length-append id (b'|' ∷ b))
