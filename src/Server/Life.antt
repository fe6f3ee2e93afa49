-- ===== src/Server/Life.antt =====
-- websocket_server.go: the life of a session of `handleWebSocket`, from its first message to its
-- deferred function.
use ech_tunnel.Base.{
  List, [], ◌∷◌, ◌++◌, none, some, ◌≡◌, refl, sym, ap, ◌∙◌, Bytes, Map, lookup, bytes_key, bytes_eq,
  Bool-cases, inl, inr, append_assoc,
}
use ech_tunnel.Wire.{MsgType}
use ech_tunnel.Server.{
  Session, Effect, ws_close, conn_close, udp_close, Env, Outcome, Conn, UdpConn, new_session,
  close_conns, close_udp_conns, clean_up,
}
use ech_tunnel.Server.Dispatch.{handle_web_socket}

-- What the loop meets: a message that `wsConn.ReadMessage` gives, the error that ends it, and in
-- between whatever the goroutines of the connections have done to the maps.
pub data Read : Type 0 where
  message : Env → MsgType → Bytes → Read
  meanwhile : Session → Read
  read_failed : Read

-- The loop, and its deferred function behind an error.
unfoldable pub session_loop : List Read → Session → Outcome
session_loop [] s = (s, [])
session_loop (message env m msg ∷ reads) s =
    let (t, es) = handle_web_socket env m msg s in
    let (u, fs) = session_loop reads t in (u, es ++ fs)
session_loop (meanwhile t ∷ reads) s = session_loop reads t
session_loop (read_failed ∷ reads) s = clean_up s

-- Reads without an error
abbrev pub AllRead : List Read → Type 0
AllRead [] = Unit
AllRead (read_failed ∷ reads) = ⊥
AllRead (_ ∷ reads) = AllRead reads

-- An effect among others
pub record Has (e : Effect) (es : List Effect) : Type 0 where
  pub front : List Effect
  pub back : List Effect
  pub found : es ≡ front ++ e ∷ back

Has-behind : {e : Effect} {fs : List Effect} (es : List Effect) → Has e fs → Has e (es ++ fs)
Has-behind {e} es h = record {
  front = es ++ h.front;
  back = h.back;
  found = ap (◌++◌ es) h.found ∙ sym (append_assoc es h.front (e ∷ h.back));
}

Has-before : {e : Effect} {es : List Effect} (fs : List Effect) → Has e es → Has e (es ++ fs)
Has-before {e} fs h = record {
  front = h.front;
  back = h.back ++ fs;
  found = ap (λ es. es ++ fs) h.found ∙ append_assoc h.front (e ∷ h.back) fs;
}

close_conns-Has :
    (m : Map Bytes Conn) (id : Bytes) (c : Conn)
    → lookup id m ≡ some c
    → Has (conn_close c) (close_conns m)
unfolding close_conns lookup
close_conns-Has [] id c e = absurd (let no : none ≡ some c = e in cc)
close_conns-Has ((j, d) ∷ m) id c e = elim (Bool-cases (bytes_eq j id)) [
  | inl here ↦
      let same : d ≡ c = (let found : some d ≡ some c = rw here at e in cc) in
      record {
        front = [];
        back = close_conns m;
        found = ap (λ x. conn_close x ∷ close_conns m) same;
      }
  | inr other ↦
      let rest = close_conns-Has m id c (rw other at e) in Has-behind (conn_close d ∷ []) rest
]

close_udp_conns-Has :
    (m : Map Bytes UdpConn) (id : Bytes) (c : UdpConn)
    → lookup id m ≡ some c
    → Has (udp_close c) (close_udp_conns m)
unfolding close_udp_conns lookup
close_udp_conns-Has [] id c e = absurd (let no : none ≡ some c = e in cc)
close_udp_conns-Has ((j, d) ∷ m) id c e = elim (Bool-cases (bytes_eq j id)) [
  | inl here ↦
      let same : d ≡ c = (let found : some d ≡ some c = rw here at e in cc) in
      record {
        front = [];
        back = close_udp_conns m;
        found = ap (λ x. udp_close x ∷ close_udp_conns m) same;
      }
  | inr other ↦
      let rest = close_udp_conns-Has m id c (rw other at e) in Has-behind (udp_close d ∷ []) rest
]

loop-failed :
    (reads more : List Read) (s : Session)
    → AllRead reads
    → session_loop (reads ++ read_failed ∷ more) s
      ≡ (new_session, (session_loop reads s).1 ++ (clean_up (session_loop reads s).0).1)
unfolding session_loop clean_up
loop-failed [] more s h = refl
loop-failed (message env m msg ∷ reads) more s h =
    let t = (handle_web_socket env m msg s).0 in
    ap (λ (r : Outcome). (r.0, (handle_web_socket env m msg s).1 ++ r.1))
      (loop-failed reads more t h)
    ∙ ap (λ es. (new_session, es)) (sym (append_assoc (handle_web_socket env m msg s).1 _ _))
loop-failed (meanwhile t ∷ reads) more s h = loop-failed reads more t h
loop-failed (read_failed ∷ reads) more s h = absurd h

-- When the WebSocket of a session fails, whatever messages have come before and whatever the
-- goroutines have done in between: every TCP connection and every UDP socket that the session holds
-- is closed, the WebSocket is closed last, and the session holds nothing more.
pub session_end_closes_all :
    (reads more : List Read) (s : Session)
    → AllRead reads
    → ((session_loop (reads ++ read_failed ∷ more) s).0 ≡ new_session)
      × ((id : Bytes) (c : Conn)
          → lookup id (session_loop reads s).0.conns ≡ some c
          → Has (conn_close c) (session_loop (reads ++ read_failed ∷ more) s).1)
      × ((id : Bytes) (c : UdpConn)
          → lookup id (session_loop reads s).0.udp_conns ≡ some c
          → Has (udp_close c) (session_loop (reads ++ read_failed ∷ more) s).1)
      × ((es : List Effect) × ((session_loop (reads ++ read_failed ∷ more) s).1
            ≡ es ++ ws_close ∷ []))
unfolding clean_up
session_end_closes_all reads more s h =
    let t = (session_loop reads s).0 in
    let said = (session_loop reads s).1 in
    let tcp = close_conns t.conns in
    let udp = close_udp_conns t.udp_conns in
    let ending = udp ++ ws_close ∷ [] in
    rw (loop-failed reads more s h) (
      refl,
      λ id c e. Has-behind said (Has-before ending (close_conns-Has t.conns id c e)),
      λ id c e.
          Has-behind said
            (Has-behind tcp (Has-before (ws_close ∷ []) (close_udp_conns-Has t.udp_conns id c e))),
      (
        said ++ (tcp ++ udp),
        ap (◌++◌ said) (sym (append_assoc tcp udp (ws_close ∷ [])))
            ∙ sym (append_assoc said (tcp ++ udp) (ws_close ∷ [])),
      ),
    )
