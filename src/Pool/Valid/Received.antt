-- ===== src/Pool/Valid/Received.antt =====
-- The messages that a channel receives against the pool's invariant.
use ech_tunnel.Base.{ℕ, ◌<◌, true, false, List, Bytes, bytes_key, nat_eq, if◌then◌else◌, Bool}
use ech_tunnel.Wire.{MsgType, text, binary}
use ech_tunnel.Pool.{Ws, Pool, Env, Effect}
use ech_tunnel.Pool.Receive.{
  udp_data_received, raw_received, data_or_raw, handle_binary, signal, claim_ack_received,
  close_received, handle_text, handle_channel, Outcome,
}
use ech_tunnel.Pool.Valid.{IsValid}
use ech_tunnel.Pool.Valid.Operations.{
  signal-IsValid, udp_data_received-IsValid, raw_received-IsValid, data_or_raw-IsValid,
  claim_ack_received-IsValid, close_received-IsValid,
}

-- An outcome with a valid pool.
record Keeps (o : Outcome) : Type 0 where
  pool : IsValid o.0

Keeps-if : (b : Bool) (x y : Outcome) → Keeps x → Keeps y → Keeps (if b then x else y)
Keeps-if true x y vx vy = vx
Keeps-if false x y vx vy = vy

module _ (p : Pool) (v : IsValid p) where
  Keeps-same : (es : List Effect) → Keeps (p, es)
  Keeps-same es = record { pool = v }

  Keeps-signal : (id : Bytes) (es : List Effect) → Keeps (signal id p, es)
  Keeps-signal id es = record { pool = signal-IsValid p v id }

  Keeps-udp_data : (parts : List Bytes) → Keeps (udp_data_received parts p)
  Keeps-udp_data parts = record { pool = udp_data_received-IsValid p v parts }

  Keeps-close : (channel : ℕ) (id : Bytes) → Keeps (close_received channel id p)
  Keeps-close channel id = record { pool = close_received-IsValid p v channel id }

module _ (p : Pool) (v : IsValid p) (env : Env) (channel : ℕ) where
  Keeps-data : (msg : Bytes) (parts : List Bytes) → Keeps (data_or_raw env channel msg parts p)
  Keeps-data msg parts = record { pool = data_or_raw-IsValid p v env channel msg parts }

  Keeps-raw : (msg : Bytes) → Keeps (raw_received env channel msg p)
  Keeps-raw msg = record { pool = raw_received-IsValid p v env channel msg }

  Keeps-claim_ack :
      channel < p.connection_num
      → (ws : Ws) (parts : List Bytes) → Keeps (claim_ack_received env channel ws parts p)
  Keeps-claim_ack h ws parts = record {
    pool = claim_ack_received-IsValid p v env channel ws parts h;
  }

ruleset keeps_rules = (
  Keeps-if, Keeps-same, Keeps-signal, Keeps-udp_data, Keeps-close, Keeps-data, Keeps-raw,
  Keeps-claim_ack,
)

module _ (p : Pool) (v : IsValid p) (env : Env) (channel : ℕ) (h : channel < p.connection_num) where
  handle_binary-Keeps : (msg : Bytes) → Keeps (handle_binary env channel msg p)
  unfolding handle_binary
  handle_binary-Keeps msg = search keeps_rules

  handle_text-Keeps : (ws : Ws) (msg : Bytes) → Keeps (handle_text env channel ws msg p)
  unfolding handle_text
  handle_text-Keeps ws msg = search keeps_rules depth 9

  pub handle_channel-IsValid :
      (ws : Ws) (m : MsgType) (msg : Bytes) → IsValid (handle_channel env channel ws m msg p).0
  unfolding handle_channel
  handle_channel-IsValid ws binary msg = (handle_binary-Keeps msg).pool
  handle_channel-IsValid ws text msg = (handle_text-Keeps ws msg).pool
