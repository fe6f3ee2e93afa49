-- ===== src/Pool/Announced.antt =====
-- Why WaitConnected succeeds: the messages that set a signal.
use ech_tunnel.Base.{
  ℕ, Bool, true, none, some, ◌≡◌, ◌⊎◌, inl, inr, Bytes, lookup, bytes_key, nat_eq, lookup-nil,
}
use ech_tunnel.Wire.{connected_message, udp_connected_message}
use ech_tunnel.Pool.{Pool, new_ech_pool, register, register_udp}
use ech_tunnel.Pool.Send.{wait_connected}
use ech_tunnel.Pool.Steps.{
  Reach, dialled, registered, claimed, udp_registered, udp_connected, udp_closed, waited, received,
  dropped, here, next, drop_tunnel,
}
use ech_tunnel.Pool.Signals.{
  make_signal-NoneNew, dial_once-connected, claim_channel-connected, wait-NoneNew, wait_true-full,
  handle_channel-IsHonest, send_udp_connect-connected, send_udp_close-connected,
}

-- A message that reports a connection, of a TCP connection or an association, is among the messages
-- of these steps.
abbrev pub Reported : (id : Bytes) {p q : Pool} → Reach p q → Type 0
Reported id here = ⊥
Reported id (next r (received env c ws m msg h)) =
    ((msg ≡ connected_message id) ⊎ (msg ≡ udp_connected_message id)) ⊎ Reported id r
Reported id (next r _) = Reported id r

new-quiet : (addr : Bytes) (n : ℕ) (id : Bytes) → lookup id (new_ech_pool addr n).connected ≡ none
unfolding new_ech_pool
new-quiet addr n id = lookup-nil id

module _ (z : Pool) (quiet_start : (id : Bytes) → lookup id z.connected ≡ none) where
  full-Reported :
      {p : Pool} (id : Bytes) (r : Reach z p) → lookup id p.connected ≡ some true → Reported id r
  unfolding register register_udp drop_tunnel
  full-Reported id here h = let e = quiet_start id in cc
  full-Reported id (next {q = q} {r = q1} r (dialled index dials ws e)) h =
      full-Reported id r (rw (dial_once-connected index dials q q1 ws e) at h)
  full-Reported id (next {q} r (registered j target first conn fresh)) h =
      full-Reported id r (make_signal-NoneNew j q.connected id h)
  full-Reported id (next {q = q} {r = q1} r (claimed env j i ws es below e)) h =
      full-Reported id r (rw (claim_channel-connected env j i ws q q1 es e) at h)
  full-Reported id (next {q} r (udp_registered j assoc)) h =
      full-Reported id r (make_signal-NoneNew j q.connected id h)
  full-Reported id (next {q} r (udp_connected env j target idle)) h =
      full-Reported id r (rw (send_udp_connect-connected env q j target) at h)
  full-Reported id (next {q} r (udp_closed env j)) h =
      full-Reported id r (rw (send_udp_close-connected env q j) at h)
  full-Reported id (next {q = q} {r = q1} r (waited by_timer j b e)) h =
      full-Reported id r (wait-NoneNew by_timer j q q1 b e id h)
  full-Reported id (next {q} r (received env c ws m msg below)) h =
      elim ((handle_channel-IsHonest env c q ws m msg).honest id h) [
        | inl before ↦ inr (full-Reported id r before)
        | inr now ↦ inl now
      ]
  full-Reported id (next {q} r (dropped j)) h = full-Reported id r h

-- WaitConnected tells a handler that its connection is there only after a message of the server that
-- reports this connection, by CONNECTED or by UDP_CONNECTED: in every order of the pool's steps
-- from a new pool, such a message has been received.
pub wait_succeeds-Reported :
    (addr : Bytes) (n : ℕ) (p q : Pool) (r : Reach (new_ech_pool addr n) p) (by_timer : Bool)
    (id : Bytes)
    → wait_connected by_timer id p ≡ some (q, true)
    → Reported id r
wait_succeeds-Reported addr n p q r by_timer id e =
    full-Reported (new_ech_pool addr n) (new-quiet addr n) id r (wait_true-full by_timer id p q e)
