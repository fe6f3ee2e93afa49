-- ===== src/Pool/Steps.antt =====
-- What can happen to a pool, one step at a time and in any order: the steps of the channels'
-- goroutines, of the listeners and of the associations. A write stands in the same step as the
-- critical sections around it.
use ech_tunnel.Base.{ℕ, ◌<◌, Bool, List, Option, none, some, ◌≡◌, Bytes, lookup, erase, bytes_key}
use ech_tunnel.Wire.{MsgType}
use ech_tunnel.Pool.{
  Conn, AssocId, Ws, Pool, Env, Effect, new_ech_pool, dial_once, register, claim_channel,
  register_udp,
}
use ech_tunnel.Pool.Send.{send_udp_connect, send_udp_close, wait_connected}
use ech_tunnel.Pool.Receive.{handle_channel}
use ech_tunnel.Pool.Valid.{
  IsValid, new-IsValid, dial-IsValid, register-IsValid, claim_channel-IsValid, register_udp-IsValid,
  send_udp_connect-IsValid, send_udp_close-IsValid, wait_connected-IsValid,
}
use ech_tunnel.Pool.Valid.Received.{handle_channel-IsValid}

-- The deferred functions of handleSOCKS5Connect and of the two HTTP handlers end in
-- `delete(echPool.tcpMap, connID)`.
unfoldable pub drop_tunnel : Bytes → Pool → Pool
drop_tunnel id p = record p { tcp_map = erase id p.tcp_map }

-- A connection identifier is a fresh UUID: when it is registered it has no channel, and an
-- association's identifier is none that waits for a channel.
pub data Step (p : Pool) : Pool → Type 0 where
  dialled :
      {q : Pool} (index : ℕ) (dials : List (Option Ws)) (ws : Ws)
      → dial_once index dials p ≡ some (q, ws)
      → Step p q
  registered :
      (id target first : Bytes) (conn : Conn)
      → lookup id p.channel_map ≡ none
      → Step p (register id target first conn p)
  claimed :
      {q : Pool} (env : Env) (id : Bytes) (i : ℕ) (ws : Ws) (es : List Effect)
      → i < p.connection_num
      → claim_channel env id i ws p ≡ some (q, es)
      → Step p q
  udp_registered : (id : Bytes) (assoc : AssocId) → Step p (register_udp id assoc p)
  udp_connected :
      (env : Env) (id target : Bytes)
      → lookup id p.conn_info ≡ none
      → Step p (send_udp_connect env id target p).0
  udp_closed : (env : Env) (id : Bytes) → Step p (send_udp_close env id p).0
  waited :
      {q : Pool} (by_timer : Bool) (id : Bytes) (b : Bool)
      → wait_connected by_timer id p ≡ some (q, b)
      → Step p q
  received :
      (env : Env) (channel : ℕ) (ws : Ws) (m : MsgType) (msg : Bytes)
      → channel < p.connection_num
      → Step p (handle_channel env channel ws m msg p).0
  dropped : (id : Bytes) → Step p (drop_tunnel id p)

pub data Reach (p : Pool) : Pool → Type 0 where
  here : Reach p p
  next : {q r : Pool} → Reach p q → Step q r → Reach p r

pub Step-IsValid : {p q : Pool} → Step p q → IsValid p → IsValid q
unfolding drop_tunnel
Step-IsValid {p} {q} (dialled index dials ws e) v = dial-IsValid index dials p q ws e v
Step-IsValid {p} (registered id target first conn fresh) v =
    register-IsValid id target first conn p fresh v
Step-IsValid {p} {q} (claimed env id i ws es h e) v = claim_channel-IsValid env id i ws p q e h v
Step-IsValid {p} (udp_registered id assoc) v = register_udp-IsValid id assoc p v
Step-IsValid {p} (udp_connected env id target idle) v =
    send_udp_connect-IsValid env id target p idle v
Step-IsValid {p} (udp_closed env id) v = send_udp_close-IsValid env id p v
Step-IsValid {p} {q} (waited by_timer id b e) v = wait_connected-IsValid by_timer id p q b e v
Step-IsValid {p} (received env channel ws m msg h) v =
    handle_channel-IsValid p v env channel h ws m msg
Step-IsValid (dropped id) v = record {
  width = v.width;
  bound_below = v.bound_below;
  settled = v.settled;
  claims_below = v.claims_below;
}

pub Reach-IsValid : {p q : Pool} → IsValid p → Reach p q → IsValid q
Reach-IsValid v here = v
Reach-IsValid v (next r s) = Step-IsValid s (Reach-IsValid v r)

-- Whatever the order of dials, registrations, claims, messages, waits and closes, a pool that was
-- new before them is valid after them: it has one slot for each channel, every bound connection
-- has a channel that exists and no request that still waits, and claims are noted only for
-- channels that exist.
pub reachable-IsValid :
    (addr : Bytes) (n : ℕ) (p : Pool) → Reach (new_ech_pool addr n) p → IsValid p
reachable-IsValid addr n p r = Reach-IsValid (new-IsValid addr n) r
