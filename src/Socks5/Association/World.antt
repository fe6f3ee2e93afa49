-- ===== src/Socks5/Association/World.antt =====
-- socks5.go: an association together with what runs beside it: handleUDPRelay with the buffer that
-- it reads into, the goroutines of handleUDPPacket, the goroutine that waits for UDP_CONNECTED, the
-- control connection, the replies, and handleSOCKS5UDPAssociate, which waits for `done`.
pub mod Runs
use ech_tunnel.Base.{
  ℕ, suc, ◌-◌, Bool, true, false, ◌&&◌, ◌||◌, not, List, [], ◌∷◌, ◌++◌, Option, none, some, ltb,
  if◌then◌else◌, Bytes, bytes_eq, length, drop, take, get_elem?, lookup, bytes_key, is_none,
}
use ech_tunnel.Pool.{Pool}
use ech_tunnel.Pool.Send.{wait_connected}
use ech_tunnel.Socks5.Association.{
  Association, Effect, Env, go_wait, signal_done, handle_udp_packet, handle_udp_response, close,
}

-- `buffer` is the array that every round of handleUDPRelay reads into, and `pending` has the lengths
-- `n` of the slices `buffer[:n]` that goroutines of handleUDPPacket have still to read; a slice
-- shares the array. `done` is the number of values in the channel of that name, `waiting` tells
-- whether the goroutine of WaitConnected runs, and `finished` whether the handler has taken its
-- value.
pub record World : Type 0 where
  pub assoc : Association
  pub pool : Pool
  pub buffer : Bytes
  pub pending : List ℕ
  pub waiting : Bool
  pub done : ℕ
  pub finished : Bool

-- A datagram that handleUDPRelay reads, or its failure; a goroutine of handleUDPPacket, by its
-- place; the end of the wait, where the flag says that the timer has fired; a reply of the
-- server, which the channel may have looked up before the association ends; the end of the control
-- connection; the end of the handler; and anything that the pool does for other connections. The
-- events follow each other in any order, also in some that the code rules out: a datagram behind a
-- failed read, or a second end of the control connection.
pub data Event : Type 0 where
  datagram : Bytes → Bytes → Event
  read_failed control_ended : Event
  packet_handled : Env → ℕ → Event
  wait_ended : Bool → Event
  response : Env → Bytes → Bytes → Event
  terminated : Env → Event
  pool_moved : Pool → Event

abbrev pub Next : Type 0
Next = Option (World × List Effect)

-- `assoc.done <- true`: the channel has room for two values, and `none` is a goroutine that waits.
unfoldable pub signal : List Effect → World → Next
signal es w = if ltb w.done 2 then some (record w { done = suc w.done }, es) else none

-- The array behind a read, and a goroutine more.
unfoldable pub read_into : Bytes → World → World
read_into packet w = record w { buffer = packet ++ drop (length packet) w.buffer }

unfoldable pub go_packet : ℕ → World → World
go_packet n w = record w { pending = w.pending ++ n ∷ [] }

-- A round of handleUDPRelay.
unfoldable pub relay_round : Bytes → Bytes → World → World
unfolding read_into go_packet
relay_round src packet w = elim w.assoc.client_udp_addr [
  | none ↦
      go_packet (length packet)
        (read_into packet (record w { assoc = record w.assoc { client_udp_addr = some src } }))
  | some addr ↦
      if bytes_eq addr src
      then go_packet (length packet) (read_into packet w)
      else read_into packet w
]

abbrev pub has_wait : List Effect → Bool
has_wait [] = false
has_wait (go_wait id ∷ es) = true
has_wait (_ ∷ es) = has_wait es

abbrev pub has_signal : List Effect → Bool
has_signal [] = false
has_signal (signal_done ∷ es) = true
has_signal (_ ∷ es) = has_signal es

-- The goroutine at a place: it reads its slice of the array as the array is now.
unfoldable pub run_packet : Env → ℕ → World → Next
run_packet env k w = elim (get_elem? w.pending k) [
  | none ↦ none
  | some n ↦
      let ((a, p), es) = handle_udp_packet env (take n w.buffer) (w.assoc, w.pool) in
      some (
        record w {
          assoc = a;
          pool = p;
          pending = take k w.pending ++ drop (suc k) w.pending;
          waiting = w.waiting || has_wait es;
        },
        es,
      )
]

-- The goroutine of WaitConnected; `none` also while it waits.
unfoldable pub end_wait : Bool → World → Next
unfolding signal
end_wait by_timer w =
    if w.waiting
    then elim (wait_connected by_timer w.assoc.conn_id w.pool) [
      | none ↦ none
      | some (q, ok) ↦
          if ok
          then some (record w { pool = q; waiting = false }, [])
          else signal [] (record w { pool = q; waiting = false })
    ]
    else none

unfoldable pub respond_to : Env → Bytes → Bytes → World → Next
unfolding signal
respond_to env addr payload w =
    let es = handle_udp_response env addr payload w.assoc in
    if has_signal es then signal es w else some (w, es)

-- The end of handleSOCKS5UDPAssociate: it takes one value and closes the association.
unfoldable pub terminate : Env → World → Next
terminate env w =
    if not w.finished && ltb 0 w.done
    then (let ((a, p), es) = close env (w.assoc, w.pool) in
        some (record w { assoc = a; pool = p; done = w.done - 1; finished = true }, es))
    else none

-- Other connections never bind a channel to the association's identifier, which is a fresh UUID.
unfoldable pub keeps_unbound : Bytes → Pool → Pool → Bool
keeps_unbound id p q = is_none (lookup id q.channel_map) || not (is_none (lookup id p.channel_map))

unfoldable pub step : Event → World → Next
unfolding relay_round signal run_packet end_wait respond_to terminate keeps_unbound
step (datagram src packet) w = some (relay_round src packet w, [])
step read_failed w = signal [] w
step control_ended w = signal [] w
step (packet_handled env k) w = run_packet env k w
step (wait_ended by_timer) w = end_wait by_timer w
step (response env addr payload) w = respond_to env addr payload w
step (terminated env) w = terminate env w
step (pool_moved q) w =
    if keeps_unbound w.assoc.conn_id w.pool q then some (record w { pool = q }, []) else none

abbrev pub behind : List Effect → Next → Next
behind es none = none
behind es (some (u, fs)) = some (u, es ++ fs)

-- Events one after the other; `none` if one of them cannot happen.
unfoldable pub run : List Event → World → Next
run [] w = some (w, [])
run (e ∷ events) w = elim (step e w) [ none ↦ none | some (v, es) ↦ behind es (run events v) ]

-- Where handleSOCKS5UDPAssociate starts the goroutines.
unfoldable pub started : Association → Pool → Bytes → World
started a p buffer = record {
  assoc = a;
  pool = p;
  buffer = buffer;
  pending = [];
  waiting = false;
  done = 0;
  finished = false;
}
