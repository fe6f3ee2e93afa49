-- ===== src/Socks5/Association/World/Runs.antt =====
-- Runs of the events beside an association, and the rounds of its relay.
use ech_tunnel.Base.{
  suc, List, ◌∷◌, none, some, ◌≡◌, Bytes, Bool-cases, inl, inr, bytes_key, ltb, bytes_eq,
  if◌then◌else◌, length,
}
use mathlib.Core.Path.{subst}
use ech_tunnel.Socks5.Association.{Effect}
use ech_tunnel.Socks5.Association.World.{
  World, Event, Next, signal, read_into, go_packet, relay_round, step, run, behind,
}

-- A property of what an event leaves, if it can happen.
abbrev pub Whenever : (World × List Effect → Type 0) → Next → Type 0
Whenever P none = Unit
Whenever P (some r) = P r

pub signal_lem :
    (P : World × List Effect → Type 0) (es : List Effect) (w : World)
    → P (record w { done = suc w.done }, es)
    → Whenever P (signal es w)
unfolding signal
signal_lem P es w h = elim (Bool-cases (ltb w.done 2)) [
  | inl room ↦ rw (room, signal) h
  | inr full ↦ rw (full, signal) tt
]

module _ (w : World) (src packet : Bytes) where
  pub relay_new :
      w.assoc.client_udp_addr ≡ none
      → relay_round src packet w
        ≡ go_packet
            (length packet)
            (read_into packet (record w { assoc = record w.assoc { client_udp_addr = some src } }))
  unfolding relay_round
  relay_new new = rw (new, relay_round)

  pub relay_known :
      (addr : Bytes)
      → w.assoc.client_udp_addr ≡ some addr
      → relay_round src packet w ≡ (
          if bytes_eq addr src
          then go_packet (length packet) (read_into packet w)
          else read_into packet w)
  unfolding relay_round
  relay_known addr known = simp (known, relay_round)

pub Whenever-some :
    (P : World × List Effect → Type 0) {n : Next} {r : World × List Effect}
    → n ≡ some r
    → Whenever P n
    → P r
Whenever-some P e h = subst (Whenever P) e h

pub run_next :
    (e : Event) (events : List Event) (w : World) {v : World} {es : List Effect}
    → step e w ≡ some (v, es)
    → run (e ∷ events) w ≡ behind es (run events v)
unfolding run
run_next e events w happened = rw (happened, run)

pub run_stopped :
    (e : Event) (events : List Event) (w : World) → step e w ≡ none → run (e ∷ events) w ≡ none
unfolding run
run_stopped e events w never = rw (never, run)
