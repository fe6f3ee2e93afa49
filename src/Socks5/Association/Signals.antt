-- ===== src/Socks5/Association/Signals.antt =====
-- The channel `done` of an association of socks5.go: room for two values, and one is taken.
use ech_tunnel.Base.{
  ℕ, Bool, true, false, List, [], ◌∷◌, none, some, ◌≡◌, refl, arith, Bytes, Bool-cases,
  Option-cases, inl, inr, get_elem?,
}
use ech_tunnel.Pool.Send.{wait_connected}
use ech_tunnel.Socks5.Association.{Effect, Env, handle_udp_response}
use ech_tunnel.Socks5.Association.World.{
  World, Event, datagram, read_failed, control_ended, packet_handled, wait_ended, response,
  terminated, pool_moved, Next, signal, read_into, go_packet, relay_round, has_signal, run_packet,
  end_wait, respond_to, terminate, keeps_unbound, step, run, behind,
}
use ech_tunnel.Socks5.Association.World.Runs.{Whenever, Whenever-some, run_next, run_stopped}
use ech_tunnel.Pool.{Pool}

-- Two values in the channel, and nobody who takes one.
pub record IsStuck (w : World) : Type 0 where
  pub full : w.done ≡ 2
  pub over : w.finished ≡ true

abbrev StaysStuck : World × List Effect → Type 0
StaysStuck r = IsStuck r.0

signal_blocked : (es : List Effect) (w : World) → w.done ≡ 2 → signal es w ≡ none
unfolding signal
signal_blocked es w full = rw (full, signal) refl

module _ (w : World) (stuck : IsStuck w) where
  relay-IsStuck : (src packet : Bytes) → IsStuck (relay_round src packet w)
  unfolding relay_round go_packet read_into
  relay-IsStuck src packet = record {
    full = ground (arith, stuck.full);
    over = ground (arith, stuck.over);
  }

  signal_stuck : (es : List Effect) → Whenever StaysStuck (signal es w)
  signal_stuck es = rw (signal_blocked es w stuck.full) tt

  packet_stuck : (env : Env) (k : ℕ) → Whenever StaysStuck (run_packet env k w)
  unfolding run_packet
  packet_stuck env k = elim (Option-cases (get_elem? w.pending k)) [
    | inl missing ↦ rw (missing, run_packet) tt
    | inr (n, found) ↦ rw (found, run_packet) (record { full = stuck.full; over = stuck.over })
  ]

  terminate_stuck : (env : Env) → Whenever StaysStuck (terminate env w)
  unfolding terminate
  terminate_stuck env = rw (stuck.over, terminate) tt

  wait_stuck : (by_timer : Bool) → Whenever StaysStuck (end_wait by_timer w)
  unfolding end_wait
  wait_stuck by_timer = elim (Bool-cases w.waiting) [
    | inr idle ↦ rw (idle, end_wait) tt
    | inl waits ↦ elim (Option-cases (wait_connected by_timer w.assoc.conn_id w.pool)) [
      | inl longer ↦ rw (waits, end_wait) (rw longer tt)
      | inr ((q, connected), over) ↦
          let rest = record w { pool = q; waiting = false } in
          elim (Bool-cases connected) [
            | inl there ↦
                rw (waits, end_wait)
                  (rw over (rw there (record { full = stuck.full; over = stuck.over })))
            | inr late ↦
                rw (waits, end_wait) (rw over (rw late (rw (signal_blocked [] rest stuck.full) tt)))
          ]
    ]
  ]

  response_stuck :
      (env : Env) (addr payload : Bytes) → Whenever StaysStuck (respond_to env addr payload w)
  unfolding respond_to
  response_stuck env addr payload =
      elim (Bool-cases (has_signal (handle_udp_response env addr payload w.assoc))) [
        | inl signals ↦ rw (signals, respond_to) (signal_stuck _)
        | inr plain ↦ rw (plain, respond_to) stuck
      ]

  move_stuck : (q : Pool) → Whenever StaysStuck (step (pool_moved q) w)
  unfolding step
  move_stuck q = elim (Bool-cases (keeps_unbound w.assoc.conn_id w.pool q)) [
    | inl keeps ↦ rw (keeps, step) (record { full = stuck.full; over = stuck.over })
    | inr binds ↦ rw (binds, step) tt
  ]

  step_stuck : (e : Event) → Whenever StaysStuck (step e w)
  unfolding step
  step_stuck (datagram src packet) = relay-IsStuck src packet
  step_stuck read_failed = signal_stuck []
  step_stuck control_ended = signal_stuck []
  step_stuck (packet_handled env k) = packet_stuck env k
  step_stuck (wait_ended by_timer) = wait_stuck by_timer
  step_stuck (response env addr payload) = response_stuck env addr payload
  step_stuck (terminated env) = terminate_stuck env
  step_stuck (pool_moved q) = move_stuck q

behind_stuck :
    (es : List Effect) (n : Next) → Whenever StaysStuck n → Whenever StaysStuck (behind es n)
behind_stuck es none h = tt
behind_stuck es (some r) h = h

run_stuck : (events : List Event) (w : World) → IsStuck w → Whenever StaysStuck (run events w)
run_stuck [] w stuck = unfold run in stuck
run_stuck (e ∷ events) w stuck = elim (Option-cases (step e w)) [
  | inl never ↦ rw (run_stopped e events w never) tt
  | inr ((v, es), happened) ↦
      let still = Whenever-some StaysStuck happened (step_stuck w stuck e) in
      rw (run_next e events w happened) (behind_stuck es (run events v) (run_stuck events v still))
]

-- Once the handler has taken its value and two more have been sent, nothing that happens later ever
-- takes them: a reply that cannot be written to the client waits for room in `done` for ever, and
-- with it the goroutine of the channel that has called handleUDPResponse.
pub failed_reply_blocks :
    (w : World) (events : List Event) (env : Env) (addr payload : Bytes) {u : World}
    {es : List Effect}
    → IsStuck w
    → run events w ≡ some (u, es)
    → has_signal (handle_udp_response env addr payload u.assoc) ≡ true
    → step (response env addr payload) u ≡ none
unfolding step respond_to
failed_reply_blocks w events env addr payload {u} {es} stuck ran signals =
    let still = Whenever-some StaysStuck ran (run_stuck events w stuck) in
    rw (signals, respond_to) (signal_blocked _ u still.full)
