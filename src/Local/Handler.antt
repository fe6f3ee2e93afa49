-- ===== src/Local/Handler.antt =====
-- The whole of handleSOCKS5Connect (socks5.go), of handleHTTPConnect and handleHTTPForward behind
-- their checks (http_proxy.go), and of one connection of the forwarder (tcp_client.go).
use ech_tunnel.Base.{
  Bool, true, false, List, [], ◌∷◌, ◌++◌, none, some, ◌≡◌, refl, sym, ap, ◌∙◌, Bytes, append_assoc,
  Option-cases, Bool-cases, inl, inr, ◌⊎◌,
}
use ech_tunnel.Pool.{Conn, Pool, Env, Effect, conn_write, conn_close, register_and_claim}
use ech_tunnel.Pool.Send.{send_close, wait_connected, Error}
use ech_tunnel.Local.{
  FrontEnd, socks5_connect, http_connect, http_forward, tcp_forwarder, Opened, relaying, refused,
  answer_lost, refuse_client, success, answer_success, await_connection, Round, Ended, read_ended,
  send_failed, still_open, upload, finish,
}

-- One connection: its fresh identifier, its handle, its target and its first frame; the world and
-- the pool when it is registered, when its wait returns or its timer fires, and when the handler
-- ends; and the rounds of its loop.
pub record Visit : Type 0 where
  pub id : Bytes
  pub conn : Conn
  pub target : Bytes
  pub first : Bytes
  pub env : Env
  pub pool : Pool
  pub by_timer : Bool
  pub at_wait : Pool
  pub rounds : List Round
  pub end_env : Env
  pub at_end : Pool

-- Where a handler stands, with the pool that it leaves and what it has done.
pub data Handled : Type 0 where
  panicked : Handled
  waiting relays : List Effect → Handled
  returned : Pool → List Effect → Handled

-- The loop, and the deferred function when it has ended.
unfoldable pub relay : FrontEnd → Visit → List Effect → Handled
relay f v es =
    let (ended, fs) = upload v.id v.rounds in
    let (p, gs) = finish f v.end_env v.id v.conn v.at_end in
    elim ended [ still_open ↦ relays (es ++ fs) | _ ↦ returned p ((es ++ fs) ++ gs) ]

-- The loop behind a wait that has succeeded, or the return.
unfoldable pub after_wait : FrontEnd → Visit → List Effect → Opened → Pool → List Effect → Handled
after_wait f v es relaying q fs = relay f v (es ++ fs)
after_wait f v es refused q fs = returned q (es ++ fs)
after_wait f v es answer_lost q fs = returned q (es ++ fs)

unfoldable pub await_and_relay : FrontEnd → Visit → List Effect → Handled
unfolding after_wait
await_and_relay f v es = elim (await_connection f v.env v.by_timer v.id v.conn v.at_wait) [
  | none ↦ waiting es
  | some (o, q, fs) ↦ after_wait f v es o q fs
]

unfoldable pub handle_connection : FrontEnd → Visit → Handled
unfolding await_and_relay
handle_connection f v = elim (register_and_claim v.env v.id v.target v.first v.conn v.pool) [
  | none ↦ panicked
  | some (q, es) ↦ await_and_relay f v es
]

-- Effects whose last one closes the connection.
pub record ClosesLast (c : Conn) (es : List Effect) : Type 0 where
  pub before : List Effect
  pub last : es ≡ before ++ conn_close c ∷ []

-- A handler that has returned has closed its connection.
abbrev pub ClosedIfReturned : Conn → Handled → Type 0
ClosedIfReturned c (returned p es) = ClosesLast c es
ClosedIfReturned c _ = Unit

behind_closes :
    {c : Conn} {fs : List Effect} (es : List Effect) → ClosesLast c fs → ClosesLast c (es ++ fs)
behind_closes {c} es h = record {
  before = es ++ h.before;
  last = ap (◌++◌ es) h.last ∙ sym (append_assoc es h.before (conn_close c ∷ []));
}

finish_closes :
    (f : FrontEnd) (env : Env) (id : Bytes) (c : Conn) (p : Pool)
    → ClosesLast c (finish f env id c p).1
unfolding finish
finish_closes socks5_connect env id c p = record { before = (send_close env id p).1; last = refl }
finish_closes http_connect env id c p = record { before = (send_close env id p).1; last = refl }
finish_closes http_forward env id c p = record { before = (send_close env id p).1; last = refl }
finish_closes tcp_forwarder env id c p = record { before = (send_close env id p).1; last = refl }

refuse_closes : (f : FrontEnd) (c : Conn) → ClosesLast c (refuse_client f c)
unfolding refuse_client
refuse_closes socks5_connect c = record { before = _ ∷ []; last = refl }
refuse_closes http_connect c = record { before = _ ∷ []; last = refl }
refuse_closes http_forward c = record { before = _ ∷ []; last = refl }
refuse_closes tcp_forwarder c = record { before = []; last = refl }

Ended-cases :
    (ended : Ended)
    → (ended ≡ still_open) ⊎ (ended ≡ read_ended) ⊎ ((e : Error) × (ended ≡ send_failed e))
Ended-cases still_open = inl refl
Ended-cases read_ended = inr (inl refl)
Ended-cases (send_failed e) = inr (inr (e, refl))

module _ (f : FrontEnd) (v : Visit) where
  relay_closes : (es : List Effect) → ClosedIfReturned v.conn (relay f v es)
  unfolding relay
  relay_closes es =
      let closed =
        behind_closes (es ++ (upload v.id v.rounds).1)
          (finish_closes f v.end_env v.id v.conn v.at_end) in
      elim (Ended-cases (upload v.id v.rounds).0) [
        | inl going ↦ rw (going, relay) tt
        | inr (inl over) ↦ rw (over, relay) closed
        | inr (inr (e, lost)) ↦ rw (lost, relay) closed
      ]

  answered_closes :
      (es : List Effect) (q : Pool)
      → ClosedIfReturned v.conn
          (after_wait f v es (answer_success f v.env v.conn).0 q (answer_success f v.env v.conn).1)
  unfolding after_wait answer_success
  answered_closes es q = elim (Option-cases (success f)) [
    | inl silent ↦ rw (silent, answer_success) (relay_closes (es ++ []))
    | inr (msg, given) ↦ elim (Bool-cases (v.env.conn_ok v.conn msg)) [
      | inl written ↦ rw (given, answer_success) (rw written (relay_closes _))
      | inr lost ↦
          rw (given, answer_success)
            (rw lost
              (behind_closes es (record { before = conn_write v.conn msg ∷ []; last = refl })))
    ]
  ]

  await_closes : (es : List Effect) → ClosedIfReturned v.conn (await_and_relay f v es)
  unfolding await_and_relay await_connection
  await_closes es = elim (Option-cases (wait_connected v.by_timer v.id v.at_wait)) [
    | inl longer ↦ rw (longer, await_and_relay, await_connection) tt
    | inr ((q, false), over) ↦
        rw (over, await_and_relay, await_connection) (behind_closes es (refuse_closes f v.conn))
    | inr ((q, true), there) ↦ rw (there, await_and_relay, await_connection) (answered_closes es q)
  ]

-- Whatever happens to a connection of the SOCKS5 or the HTTP proxy or of the forwarder, once it is
-- accepted for a target: when its handler returns, for whatever reason (its wait has timed out, the
-- answer to the client is lost, a read or a send has failed), the last thing that is done is to
-- close the client's connection.
pub returned_closes : (f : FrontEnd) (v : Visit) → ClosedIfReturned v.conn (handle_connection f v)
unfolding handle_connection
returned_closes f v =
    elim (Option-cases (register_and_claim v.env v.id v.target v.first v.conn v.pool)) [
      | inl panics ↦ rw (panics, handle_connection) tt
      | inr ((q, es), claimed) ↦ rw (claimed, handle_connection) (await_closes f v es)
    ]
