-- ===== src/Local/Listener.antt =====
-- tcp_client.go: the accept loop of `startMultiChannelTCPForwarder`, which opens its connections one
-- after the other.
pub mod Transcript
use ech_tunnel.Base.{
  Bool, true, false, List, [], ◌∷◌, ◌++◌, none, some, ◌≡◌, refl, Bytes, lookup, bytes_key,
  if◌then◌else◌, ap, ◌∙◌, Bool-cases, inl, inr,
}
use ech_tunnel.Pool.{Conn, Pool, Env, Effect, conn_close, register_and_claim}
use ech_tunnel.Pool.Send.{wait_connected}
use ech_tunnel.Local.{
  relaying, refused, answer_lost, tcp_forwarder, await_connection, refuse_client,
}
use ech_tunnel.Proxy.Connection
use ech_tunnel.Proxy.Connection.{accept_loop}

-- A connection that is accepted: its fresh identifier, its handle and the bytes of its first read,
-- which are none after an error or five seconds; the world and the pool when it is registered,
-- and when its wait returns or the timer of the wait fires.
pub record Arrival : Type 0 where
  pub id : Bytes
  pub conn : Conn
  pub first : Bytes
  pub env : Env
  pub pool : Pool
  pub later : Pool
  pub by_timer : Bool

-- What `listener.Accept` gives.
pub data Accepted : Type 0 where
  accepted : Arrival → Accepted
  accept_failed : Bytes → Accepted

-- Where the loop stands: it accepts, it has returned, the program has ended with a panic, or it
-- waits for one connection.
pub data Listening : Type 0 where
  listening stopped panicked : Listening
  waits_for : Bytes → Listening

-- The loop's state, what it has done, and the connections for which it has started a goroutine that
-- relays.
pub record Progress : Type 0 where
  pub state : Listening
  pub effects : List Effect
  pub relays : List Bytes

unfoldable pub behind : List Effect → List Bytes → Progress → Progress
behind es ids p = record { state = p.state; effects = es ++ p.effects; relays = ids ++ p.relays }

-- The wait for a connection that is registered, in front of what the loop does behind it.
unfoldable pub await_arrival : Arrival → List Effect → Progress → Progress
unfolding await_connection behind
await_arrival a es rest =
    elim (await_connection tcp_forwarder a.env a.by_timer a.id a.conn a.later) [
      | none ↦ record { state = waits_for a.id; effects = es; relays = [] }
      | some (relaying, q, fs) ↦ behind (es ++ fs) (a.id ∷ []) rest
      | some (refused, q, fs) ↦ behind (es ++ fs) [] rest
      | some (answer_lost, q, fs) ↦ behind (es ++ fs) [] rest
    ]

unfoldable pub accept_arrival : Bytes → Arrival → Progress → Progress
unfolding await_arrival
accept_arrival target a rest = elim (register_and_claim a.env a.id target a.first a.conn a.pool) [
  | none ↦ record { state = panicked; effects = []; relays = [] }
  | some (q, es) ↦ await_arrival a es rest
]

unfoldable pub forwarder_loop : Bytes → List Accepted → Progress
forwarder_loop target [] = record { state = listening; effects = []; relays = [] }
forwarder_loop target (accept_failed text ∷ events) = record {
  state = stopped;
  effects = [];
  relays = [];
}
forwarder_loop target (accepted a ∷ events) = accept_arrival target a (forwarder_loop target events)

module _ (target text : Bytes) (more : List Accepted) where
  -- An error of Accept ends the listener for good.
  forwarder_loop-failed :
      (events : List Accepted)
      → forwarder_loop target (events ++ accept_failed text ∷ more)
        ≡ forwarder_loop target (events ++ accept_failed text ∷ [])
  unfolding forwarder_loop
  forwarder_loop-failed [] = refl
  forwarder_loop-failed (accept_failed t ∷ events) = refl
  forwarder_loop-failed (accepted a ∷ events) =
      ap (accept_arrival target a) (forwarder_loop-failed events)

accept_loop-failed :
    (text : Bytes) (old new : List Connection.Accepted)
    → accept_loop (old ++ Connection.accept_failed text ∷ new) ≡ accept_loop old ++ accept_loop new
unfolding accept_loop
accept_loop-failed text [] new = refl
accept_loop-failed text (Connection.accepted c ∷ old) new =
    ap (◌∷◌ c) (accept_loop-failed text old new)
accept_loop-failed text (Connection.accept_failed t ∷ old) new = accept_loop-failed text old new

-- An error of Accept has another meaning in the two client modes: the forwarder's loop returns, and
-- what arrives behind the error is never accepted, whereas the proxy's loop goes on with it.
pub accept_error_ends_forwarder :
    (target text : Bytes) (before after : List Accepted) (old new : List Connection.Accepted)
    → (forwarder_loop target (before ++ accept_failed text ∷ after)
        ≡ forwarder_loop target (before ++ accept_failed text ∷ []))
      × (accept_loop (old ++ Connection.accept_failed text ∷ new)
          ≡ accept_loop old ++ accept_loop new)
accept_error_ends_forwarder target text before after old new =
    (forwarder_loop-failed target text after before, accept_loop-failed text old new)
