-- ===== src/Server/Lifecycle.antt =====
-- The life of a TCP connection of the server, from its dial to its deferred function.
use ech_tunnel.Base.{
  Bool, true, false, List, [], ◌∷◌, ◌++◌, map, none, some, ◌≡◌, refl, arith, Bytes, lookup, insert,
  erase, is_empty, lookup-insert, lookup-erase, lookup-erase_self, bytes_key, Bool-cases, ◌⊎◌, inl,
  inr, append_assoc, if◌then◌else◌, bytes_eq, sym, ap,
}
use ech_tunnel.Wire.{text, binary, data_message, close_message, connected_message}
use ech_tunnel.Server.{Session, Effect, ws_write, conn_write, conn_close, Env, Conn, Outcome}
use ech_tunnel.Server.Tcp.{
  ReadEvent, timed_out, failed, chunk, read_loop, end_tcp, serve_tcp, handle_tcp_connection,
}

-- Reads that return bytes or time out.
abbrev pub AllOpen : List ReadEvent → Type 0
AllOpen [] = Unit
AllOpen (chunk b ∷ events) = AllOpen events
AllOpen (timed_out ∷ events) = AllOpen events
AllOpen (_ ∷ events) = ⊥

-- The bytes read, in order.
abbrev pub chunks : List ReadEvent → List Bytes
chunks [] = []
chunks (chunk b ∷ events) = b ∷ chunks events
chunks (_ ∷ events) = chunks events

-- The message for one piece.
abbrev pub data_frame : Bytes → Bytes → Effect
data_frame id b = ws_write binary (data_message id b)

abbrev pub first_write : Conn → Bytes → List Effect
first_write c first = if is_empty first then [] else conn_write c first ∷ []

-- A connection that has ended: its last effect closes `c`, and the session has no entry for it.
pub record HasEnded (id : Bytes) (c : Conn) (o : Outcome) : Type 0 where
  pub before : List Effect
  pub closes : o.1 ≡ before ++ conn_close c ∷ []
  pub removed : lookup id o.0.conns ≡ none

-- The session once the connection is in it, and once it is out again.
abbrev pub entered : Bytes → Conn → Session → Session
entered id c s = record s { conns = insert id c s.conns }

abbrev left : Bytes → Conn → Session → Session
left id c s = record s { conns = erase id (insert id c s.conns) }

serve_ended :
    (env : Env) (id : Bytes) (c : Conn) (events : List ReadEvent) (s : Session)
    → (read_loop env id c events).0 ≡ true
    → serve_tcp env id c events (entered id c s) ≡ (
      left id c s,
      ws_write text (connected_message id) ∷ (read_loop env id c events).1 ++ conn_close c ∷ [],
    )
unfolding serve_tcp end_tcp
serve_ended env id c events s ended = rw ended

module _ (env : Env) (id target first : Bytes) (c : Conn) (events : List ReadEvent) (s : Session)
    (dialled : env.dial target ≡ some c) where
  pub taken_lem :
      (is_empty first ≡ true) ⊎ (env.conn_ok c first ≡ true)
      → handle_tcp_connection env id target first events s ≡ (
        (serve_tcp env id c events (entered id c s)).0,
        first_write c first ++ (serve_tcp env id c events (entered id c s)).1,
      )
  unfolding handle_tcp_connection
  taken_lem h = rw (dialled, handle_tcp_connection) (ground arith)

  refused_lem :
      is_empty first ≡ false
      → env.conn_ok c first ≡ false
      → handle_tcp_connection env id target first events s
        ≡ (left id c s, conn_write c first ∷ ws_write text (close_message id) ∷ conn_close c ∷ [])
  unfolding handle_tcp_connection end_tcp
  refused_lem given lost = rw (dialled, handle_tcp_connection) (rw (given, lost))

  ended_lem :
      (is_empty first ≡ true) ⊎ (env.conn_ok c first ≡ true)
      → (read_loop env id c events).0 ≡ true
      → HasEnded id c (handle_tcp_connection env id target first events s)
  ended_lem h ended = rw (taken_lem h) (
      rw (serve_ended env id c events s ended) (record {
        before =
            first_write c first
            ++ ws_write text (connected_message id) ∷ (read_loop env id c events).1;
        closes = sym (append_assoc (first_write c first) _ _);
        removed = lookup-erase_self id _;
      }))

  tcp_refused :
      is_empty first ≡ false
      → env.conn_ok c first ≡ false
      → HasEnded id c (handle_tcp_connection env id target first events s)
  tcp_refused given lost = rw (refused_lem given lost) (record {
    before = conn_write c first ∷ ws_write text (close_message id) ∷ [];
    closes = refl;
    removed = lookup-erase_self id _;
  })

  -- When the reading loop of a dialled connection has returned, for whatever reason, or its first
  -- frame could not be written, the last effect closes the target, and the session has no entry for
  -- the connection.
  pub tcp_ends_closed :
      ((read_loop env id c events).0 ≡ true)
        ⊎ ((is_empty first ≡ false) × (env.conn_ok c first ≡ false))
      → HasEnded id c (handle_tcp_connection env id target first events s)
  tcp_ends_closed (inl ended) = elim (Bool-cases (is_empty first)) [
    | inl nothing ↦ ended_lem (inl nothing) ended
    | inr given ↦ elim (Bool-cases (env.conn_ok c first)) [
      | inl written ↦ ended_lem (inr written) ended
      | inr lost ↦ tcp_refused given lost
    ]
  ]
  tcp_ends_closed (inr (given, lost)) = tcp_refused given lost

read_to_failure :
    (env : Env) (id : Bytes) (c : Conn) (events more : List ReadEvent)
    → AllOpen events
    → ((msg : Bytes) → env.ws_ok msg ≡ true)
    → read_loop env id c (events ++ failed ∷ more)
      ≡ (true, map (data_frame id) (chunks events) ++ ws_write text (close_message id) ∷ [])
unfolding read_loop
read_to_failure env id c [] more h sends = refl
read_to_failure env id c (chunk b ∷ events) more h sends =
    rw (sends (data_message id b)) (rw (read_to_failure env id c events more h sends))
read_to_failure env id c (timed_out ∷ events) more h sends =
    read_to_failure env id c events more h sends
read_to_failure env id c (_ ∷ events) more h sends = absurd h

-- The whole life of a connection whose target is reached and whose writes succeed, up to a failed
-- read: the first frame goes to the target unless it is empty, CONNECTED to the client, then a DATA
-- message for each piece that was read, in order, then CLOSE, and the target is closed. Every other
-- connection stays in the session as it was.
pub tcp_transcript :
    (env : Env) (id target first : Bytes) (c : Conn) (events more : List ReadEvent) (s : Session)
    → env.dial target ≡ some c
    → env.conn_ok c first ≡ true
    → ((msg : Bytes) → env.ws_ok msg ≡ true)
    → AllOpen events
    → ((handle_tcp_connection env id target first (events ++ failed ∷ more) s).1
        ≡ first_write c first
          ++ ws_write text (connected_message id)
            ∷ (map (data_frame id) (chunks events)
                ++ ws_write text (close_message id) ∷ conn_close c ∷ []))
      × ((j : Bytes)
          → lookup j (handle_tcp_connection env id target first (events ++ failed ∷ more) s).0.conns
            ≡ (if bytes_eq id j then none else lookup j s.conns))
unfolding handle_tcp_connection end_tcp
tcp_transcript env id target first c events more s dialled taken sends h =
    let loop = read_to_failure env id c events more h sends in
    let whole = taken_lem env id target first c (events ++ failed ∷ more) s dialled (inr taken) in
    rw whole (
      rw
        (serve_ended env id c (events ++ failed ∷ more) s
          (ap (λ (r : Bool × List Effect). r.0) loop))
        (
          rw loop (
              ap (λ es. first_write c first ++ ws_write text (connected_message id) ∷ es)
                (append_assoc (map (data_frame id) (chunks events)) _ _)),
          λ j.
              ground (arith, lookup-erase id j (insert id c s.conns), lookup-insert id j c s.conns),
        ))
