-- ===== src/Socks5/Association/Talk.antt =====
-- What an association of socks5.go says to the server, whatever runs beside it.
pub mod Packets
pub mod Closing
pub mod Beside
use ech_tunnel.Base.{
  ℕ, true, false, List, [], ◌∷◌, ◌++◌, Option, none, some, ◌≡◌, refl, arith, Bytes, Bool-cases,
  Option-cases, inl, inr, lookup, bytes_key, insert, nat_eq, ◌⊎◌, erase,
}
use ech_tunnel.Wire.{text, binary, udp_connect_message, udp_data_message, udp_close_message}
use ech_tunnel.Pool.{Pool, Ws, ws_write}
use ech_tunnel.Pool.Send.{
  first_ws, bound_ws, send_udp_connect, send_udp_data, send_udp_close, write_error, Error, no_ws,
  write_failed,
}
use ech_tunnel.Socks5.{ok, err, parse_socks5_udp_packet, Parsed, PacketError}
use ech_tunnel.Socks5.Association.{
  Association, Effect, Env, State, of_pool, go_wait, listener_close, forward, connect_first,
  send_data, handle_udp_packet, close,
}

-- Nothing said; UDP_CONNECT said; UDP_CLOSE said.
pub data Phase : Type 0 where
  fresh opened ended : Phase

-- No effect of the pool.
abbrev pub IsBeside : Effect → Type 0
IsBeside (of_pool e) = ⊥
IsBeside _ = Unit

-- The messages of one association, in their order, from a phase to a phase: UDP_CONNECT is said in
-- the first phase only, and nothing but UDP_DATA and at the end UDP_CLOSE behind it.
pub data Talk (id : Bytes) : Phase → List Effect → Phase → Type 0 where
  silent : {a : Phase} → Talk id a [] a
  connects :
      (ws : Ws) (target : Bytes) {es : List Effect} {c : Phase}
      → Talk id opened es c
      → Talk id fresh (of_pool (ws_write ws text (udp_connect_message id target)) ∷ es) c
  sends :
      (ws : Ws) (payload : Bytes) {es : List Effect} {c : Phase}
      → Talk id opened es c
      → Talk id opened (of_pool (ws_write ws binary (udp_data_message id payload)) ∷ es) c
  closes :
      (ws : Ws) {es : List Effect} {c : Phase}
      → Talk id ended es c
      → Talk id opened (of_pool (ws_write ws text (udp_close_message id)) ∷ es) c
  beside :
      {e : Effect} {a : Phase} {es : List Effect} {c : Phase}
      → IsBeside e
      → Talk id a es c
      → Talk id a (e ∷ es) c

pub Talk-append :
    {id : Bytes} {a b c : Phase} {es fs : List Effect}
    → Talk id a es b
    → Talk id b fs c
    → Talk id a (es ++ fs) c
Talk-append silent u = u
Talk-append (connects ws target t) u = connects ws target (Talk-append t u)
Talk-append (sends ws payload t) u = sends ws payload (Talk-append t u)
Talk-append (closes ws t) u = closes ws (Talk-append t u)
Talk-append (beside h t) u = beside h (Talk-append t u)

-- What the phase says of the association and its channel.
abbrev pub Agrees : Phase → Bytes → Association → Pool → Type 0
Agrees fresh id a p = (a.conn_id ≡ id) × (lookup id p.channel_map ≡ none)
Agrees opened id a p = (a.conn_id ≡ id) × (a.receiving ≡ true)
Agrees ended id a p = (a.conn_id ≡ id) × (a.closed ≡ true)

-- Effects that lead from a phase to a state.
pub record Talked (id : Bytes) (before : Phase) (es : List Effect) (a : Association) (p : Pool)
    : Type 0 where
  pub after : Phase
  pub talk : Talk id before es after
  pub agrees : Agrees after id a p

pub unbound_ws : (id : Bytes) (p : Pool) → lookup id p.channel_map ≡ none → bound_ws id p ≡ none
unfolding bound_ws
unbound_ws id p h = rw (h, bound_ws) refl

pub nothing_said :
    {id : Bytes} (ph : Phase) {a : Association} {p : Pool} → Agrees ph id a p → Talked id ph [] a p
nothing_said ph h = record { after = ph; talk = silent; agrees = h }

-- What an operation says and leaves, from a phase.
abbrev pub Said : Bytes → Phase → State × List Effect → Type 0
Said id ph r = Talked id ph r.1 r.0.0 r.0.1
