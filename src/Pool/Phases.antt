-- ===== src/Pool/Phases.antt =====
-- The contract of the pool towards one TCP connection: a machine of three phases.
pub mod Received
pub mod Refines
use ech_tunnel.Base.{ℕ, Option, none, some, Bytes, lookup, bytes_key}
use ech_tunnel.Pool.{Pool, Info}

-- What the pool promises to do with a TCP connection: its request waits for a channel, or it is
-- bound to one.
pub data Phase : Type 0 where
  unknown : Phase
  waiting : Info → Phase
  bound : ℕ → Phase

-- A request is registered, possibly in the place of one that waits; a waiting request wins a channel;
-- and at any time the connection is forgotten. A bound connection keeps its channel until then.
pub data Move : Phase → Phase → Type 0 where
  stay : (x : Phase) → Move x x
  request : (info : Info) → Move unknown (waiting info)
  replace : (old info : Info) → Move (waiting old) (waiting info)
  win : (info : Info) (c : ℕ) → Move (waiting info) (bound c)
  end_phase : (x : Phase) → Move x unknown

-- The phase of a connection as the pool's maps have it.
abbrev pub phase_of : Option ℕ → Option Info → Phase
phase_of (some c) info = bound c
phase_of none (some info) = waiting info
phase_of none none = unknown

abbrev pub phase : Bytes → Pool → Phase
phase id p = phase_of (lookup id p.channel_map) (lookup id p.conn_info)
