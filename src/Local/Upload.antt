-- ===== src/Local/Upload.antt =====
-- The loop of a local connection and its end, as the server and the target see them.
use ech_tunnel.Base.{
  ℕ, true, false, List, [], ◌∷◌, ◌++◌, map, none, some, ◌≡◌, refl, sym, ap, ◌∙◌, Bytes, lookup,
  erase, bytes_key, contains_byte, append_assoc, ◌==◌, if◌then◌else◌,
}
use ech_tunnel.Wire.{text, data_message}
use ech_tunnel.Pool
use ech_tunnel.Pool.{Pool, Ws, ws_write}
use ech_tunnel.Pool.Send.{no_channel, bound_ws, send_data, send_close}
use ech_tunnel.Server
use ech_tunnel.Server.{Session, Conn}
use ech_tunnel.Tunnel.{to_server}
use ech_tunnel.Tunnel.Up.{to_server_one, close_reaches_target}
use ech_tunnel.Local.{
  FrontEnd, socks5_connect, http_connect, http_forward, tcp_forwarder, Round, Ended, read_ended,
  send_failed, after_send, upload, finish,
}
use ech_tunnel.Server.Dispatch.{forward_tcp}

-- What the server makes of two parts of the client's effects, one after the other.
to_server_append :
    (env : Server.Env) (ws : Ws) (es fs : List Pool.Effect) (s : Session)
    → to_server env ws (es ++ fs) s ≡ (
        let (s1, a) = to_server env ws es s in let (s2, b) = to_server env ws fs s1 in (s2, a ++ b))
unfolding to_server
to_server_append env ws [] fs s = refl
to_server_append env ws (Pool.ws_write w m msg ∷ es) fs s =
    let one = if w == ws then Server.Dispatch.handle_web_socket env m msg s else (s, []) in
    let two = to_server env ws es one.0 in
    let three = to_server env ws fs two.0 in
    rw (to_server_append env ws es fs one.0)
      (ap (λ (l : List Server.Effect). (three.0, l)) (sym (append_assoc one.1 two.1 three.1)))
to_server_append env ws (Pool.conn_write c b ∷ es) fs s = to_server_append env ws es fs s
to_server_append env ws (Pool.conn_close c ∷ es) fs s = to_server_append env ws es fs s
to_server_append env ws (Pool.go_send_close id ∷ es) fs s = to_server_append env ws es fs s
to_server_append env ws (Pool.udp_response a b d ∷ es) fs s = to_server_append env ws es fs s

-- Rounds of a connection that is bound to the channel `c` with WebSocket `ws`: the bytes that they
-- read and send, until the client ends or the binding is lost.
pub data Relayed (id : Bytes) (c : ℕ) (ws : Ws) : List Round → List Bytes → Ended → Type 0 where
  client_ended :
      (r : Round) (rest : List Round) → r.read ≡ none → Relayed id c ws (r ∷ rest) [] read_ended
  binding_lost :
      (r : Round) (rest : List Round) (b : Bytes)
      → r.read ≡ some b
      → bound_ws id r.pool ≡ none
      → Relayed id c ws (r ∷ rest) [] (send_failed no_channel)
  sent :
      {rest : List Round} {bs : List Bytes} {ended : Ended} (r : Round) (b : Bytes)
      → r.read ≡ some b
      → bound_ws id r.pool ≡ some (c, ws)
      → r.env.ws_ok ws (data_message id b) ≡ true
      → Relayed id c ws rest bs ended
      → Relayed id c ws (r ∷ rest) (b ∷ bs) ended

-- The messages of such rounds.
data_writes : Ws → Bytes → List Bytes → List Pool.Effect
data_writes ws id [] = []
data_writes ws id (b ∷ bs) = ws_write ws text (data_message id b) ∷ data_writes ws id bs

upload-Relayed :
    {id : Bytes} {c : ℕ} {ws : Ws} {rounds : List Round} {bs : List Bytes} {ended : Ended}
    → Relayed id c ws rounds bs ended
    → upload id rounds ≡ (ended, data_writes ws id bs)
unfolding upload after_send send_data data_writes
upload-Relayed (client_ended r rest h) = rw h refl
upload-Relayed {id} (binding_lost r rest b h lost) = rw h (rw (lost, send_data) refl)
upload-Relayed {id} (sent r b h bound ok more) =
    rw (h, upload) (rw (bound, send_data) (rw ok (rw (upload-Relayed more) refl)))

module _ (senv : Server.Env) (ws : Ws) (id : Bytes) (conn : Conn)
    (plain : contains_byte b'|' id ≡ false) where
  data_one :
      (b : Bytes) (s : Session)
      → lookup id s.conns ≡ some conn
      → to_server senv ws (ws_write ws text (data_message id b) ∷ []) s
        ≡ (s, Server.conn_write conn b ∷ [])
  unfolding forward_tcp
  data_one b s here =
      rw to_server_one
        (rw (Server.Messages.handle-data senv id plain s b) (rw (here, forward_tcp) refl))

  -- Every message of data is written to the target's connection.
  data_writes-reach :
      (bs : List Bytes) (s : Session)
      → lookup id s.conns ≡ some conn
      → to_server senv ws (data_writes ws id bs) s ≡ (s, map (Server.conn_write conn) bs)
  unfolding data_writes
  data_writes-reach [] s here = unfold to_server in refl
  data_writes-reach (b ∷ bs) s here =
      to_server_append senv ws (ws_write ws text (data_message id b) ∷ []) (data_writes ws id bs) s
      ∙ rw (data_one b s here, data_writes-reach bs s here) refl

-- The deferred function closes the local connection behind the CLOSE message.
finish_effects :
    (f : FrontEnd) (env : Pool.Env) (id : Bytes) (local : Pool.Conn) (p : Pool)
    → (finish f env id local p).1 ≡ (send_close env id p).1 ++ Pool.conn_close local ∷ []
unfolding finish
finish_effects socks5_connect env id local p = refl
finish_effects http_connect env id local p = refl
finish_effects http_forward env id local p = refl
finish_effects tcp_forwarder env id local p = refl

module _ (f : FrontEnd) (penv : Pool.Env) (senv : Server.Env) (c : ℕ) (ws : Ws) (id : Bytes)
    (local : Pool.Conn) (conn : Conn) (p : Pool) (s : Session)
    (plain : contains_byte b'|' id ≡ false) (bound : bound_ws id p ≡ some (c, ws))
    (here : lookup id s.conns ≡ some conn) where
  close_reaches :
      to_server senv ws (finish f penv id local p).1 s
      ≡ (record s { conns = erase id s.conns }, Server.conn_close conn ∷ [])
  unfolding to_server
  close_reaches = rw (finish_effects f penv id local p) (
      to_server_append senv ws (send_close penv id p).1 (Pool.conn_close local ∷ []) s
      ∙ rw (close_reaches_target penv senv c ws id [] conn p s bound here) refl)

  -- While its connection is bound to the channel, everything that the local client sends arrives
  -- at the target, byte for byte and in order, and the loop ends as the client or the pool ended it;
  -- then the handler's CLOSE closes the target's connection and removes it from the session. Each
  -- message of data is written successfully, the binding is there at the end, the identifier
  -- holds no `|`, and the server has the connection open.
  pub upload_delivered :
      {rounds : List Round} {bs : List Bytes} {ended : Ended}
      → Relayed id c ws rounds bs ended
      → ((upload id rounds).0 ≡ ended)
        × (to_server senv ws ((upload id rounds).1 ++ (finish f penv id local p).1) s ≡ (
          record s { conns = erase id s.conns },
          map (Server.conn_write conn) bs ++ Server.conn_close conn ∷ [],
        ))
  upload_delivered {rounds} {bs} relayed = rw (upload-Relayed relayed) (
    refl,
    to_server_append senv ws (data_writes ws id bs) (finish f penv id local p).1 s
        ∙ rw (data_writes-reach senv ws id conn plain bs s here, close_reaches) refl,
  )
