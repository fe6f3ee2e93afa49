-- ===== src/Pool/Delivery.antt =====
-- What messages from the server do to the connection that they name.
use ech_tunnel.Base.{
  ℕ, Bool, true, false, [], ◌∷◌, none, some, ◌≡◌, ◌≢◌, arith, Bytes, lookup, insert, lookup-insert,
  lookup-erase, lookup-insert_self, lookup-erase_self, bytes_key, nat_eq, bytes_eq_iff,
  if◌then◌else◌, bytes_eq,
}
use ech_tunnel.Wire.{text, connected_message, close_message}
use ech_tunnel.Pool.{Ws, Pool, Env, conn_close}
use ech_tunnel.Pool.Send.{wait_connected}
use ech_tunnel.Pool.Receive.{signal, forget, close_local, close_received, handle_channel}
use ech_tunnel.Pool.Messages.{handle-connected, handle-close}
use ech_tunnel.Pool.Race.{IsForgotten}

pub signal_known :
    (id : Bytes) (full : Bool) (p : Pool)
    → lookup id p.connected ≡ some full
    → signal id p ≡ record p { connected = insert id true p.connected }
unfolding signal
signal_known id full p h = rw (h, signal)

pub wait_full :
    (by_timer : Bool) (id : Bytes) (p : Pool)
    → lookup id p.connected ≡ some true
    → wait_connected by_timer id p ≡ (
        if by_timer
        then some (p, false)
        else some (record p { connected = insert id false p.connected }, true))
unfolding wait_connected
wait_full by_timer id p h = rw (h, wait_connected)

pub wait_empty :
    (by_timer : Bool) (id : Bytes) (p : Pool)
    → lookup id p.connected ≡ some false
    → wait_connected by_timer id p ≡ (if by_timer then some (p, false) else none)
unfolding wait_connected
wait_empty by_timer id p h = rw (h, wait_connected)

module _ (env : Env) (c : ℕ) (ws : Ws) (id : Bytes) (full : Bool) (p : Pool)
    (known : lookup id p.connected ≡ some full) where
  -- CONNECTED for a registered connection wakes the waiting handler, unless the `select` takes the
  -- case of its timer. However many such messages came, one wait is woken: the next one goes on
  -- waiting until its timer fires, and then it reports a failure. No other connection's signal is
  -- touched.
  pub connected_wakes_once :
      (again : Bool)
      → (q : Pool) × (wait_connected false id
            (handle_channel env c ws text (connected_message id) p).0
          ≡ some (q, true))
        × (wait_connected again id q ≡ (if again then some (q, false) else none))
        × ((j : Bytes)
            → lookup j q.connected ≡ (if bytes_eq id j then some false else lookup j p.connected))
  connected_wakes_once again =
      let woken : Pool = record p { connected = insert id true p.connected } in
      let q : Pool = record woken { connected = insert id false woken.connected } in
      (
        q,
        rw (handle-connected env c ws id p) (
            rw (signal_known id full p known)
              (wait_full false id woken (lookup-insert_self id true p.connected))),
        wait_empty again id q (lookup-insert_self id false woken.connected),
        λ j.
            ground (
              arith,
              lookup-insert id j true p.connected,
              lookup-insert id j false woken.connected,
            ),
      )

-- The maps for TCP connections say the same of `j`.
pub record SameFor (j : Bytes) (p q : Pool) : Type 0 where
  pub tcp : lookup j q.tcp_map ≡ lookup j p.tcp_map
  pub channel : lookup j q.channel_map ≡ lookup j p.channel_map
  pub info : lookup j q.conn_info ≡ lookup j p.conn_info
  pub claims : lookup j q.claim_times ≡ lookup j p.claim_times

pub forget-IsForgotten : (id : Bytes) (c : ℕ) (p : Pool) → IsForgotten id c (forget id c p)
unfolding forget
forget-IsForgotten id c p = record {
  tcp = lookup-erase_self id p.tcp_map;
  channel = lookup-erase_self id p.channel_map;
  info = lookup-erase_self id p.conn_info;
  claims = lookup-erase_self id p.claim_times;
  bound = lookup-erase_self c p.bound_by_channel;
}

pub forget-SameFor : (id j : Bytes) (c : ℕ) (p : Pool) → j ≢ id → SameFor j p (forget id c p)
unfolding forget
forget-SameFor id j c p other = record {
  tcp = ground (arith, lookup-erase id j p.tcp_map, bytes_eq_iff id j);
  channel = ground (arith, lookup-erase id j p.channel_map, bytes_eq_iff id j);
  info = ground (arith, lookup-erase id j p.conn_info, bytes_eq_iff id j);
  claims = ground (arith, lookup-erase id j p.claim_times, bytes_eq_iff id j);
}

-- CLOSE closes the local connection if there is one, removes the connection from every map for
-- TCP connections, and leaves what these maps say of every other connection `j`.
pub close_forgets :
    (env : Env) (c : ℕ) (ws : Ws) (id j : Bytes) (p : Pool)
    → j ≢ id
    → (q : Pool) × (handle_channel env c ws text (close_message id) p
        ≡ (q, elim (lookup id p.tcp_map) [ none ↦ [] | some conn ↦ conn_close conn ∷ [] ]))
      × IsForgotten id c q
      × SameFor j p q
unfolding close_received close_local
close_forgets env c ws id j p other = (
  forget id c p,
  rw (handle-close env c ws id p),
  forget-IsForgotten id c p,
  forget-SameFor id j c p other,
)
