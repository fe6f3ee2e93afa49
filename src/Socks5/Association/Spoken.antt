-- ===== src/Socks5/Association/Spoken.antt =====
-- The messages of an association of socks5.go to the server, in every order of what runs beside it.
use ech_tunnel.Base.{
  ℕ, Bool, false, List, [], ◌∷◌, none, some, ◌≡◌, refl, arith, Bytes, not, Bool-cases, Option-cases,
  inl, inr, lookup, bytes_key, ltb, bytes_eq, get_elem?, take, ◌&&◌, split,
}
use mathlib.Core.Path.{subst}
use ech_tunnel.Pool.{Pool}
use ech_tunnel.Pool.Send.{wait_connected}
use ech_tunnel.Socks5.Association.{Association, Effect, Env, handle_udp_response}
use ech_tunnel.Socks5.Association.Talk.{
  Phase, fresh, opened, ended, Talk, Talk-append, Agrees, Talked, nothing_said,
}
use ech_tunnel.Socks5.Association.World.Runs.{
  Whenever, signal_lem, Whenever-some, run_next, run_stopped, relay_known, relay_new,
}
use ech_tunnel.Socks5.Association.Talk.Packets.{handle_udp_packet_talks}
use ech_tunnel.Socks5.Association.Talk.Closing.{close_talks}
use ech_tunnel.Socks5.Association.Talk.Beside.{respond-AllBeside, said_beside}
use ech_tunnel.Socks5.Association.World.{
  World, Event, datagram, read_failed, control_ended, packet_handled, wait_ended, response,
  terminated, pool_moved, Next, relay_round, has_signal, run_packet, end_wait, respond_to,
  terminate, keeps_unbound, step, run, started, behind,
}

-- What an event says and leaves, from a phase.
abbrev Spoken : Bytes → Phase → World × List Effect → Type 0
Spoken id ph r = Talked id ph r.1 r.0.assoc r.0.pool

waited_channels :
    (by_timer : Bool) (id : Bytes) (p : Pool) {q : Pool} {b : Bool}
    → wait_connected by_timer id p ≡ some (q, b)
    → q.channel_map ≡ p.channel_map
unfolding wait_connected
waited_channels by_timer id p e = ground (arith, e)

moved :
    (ph : Phase) (id : Bytes) (a : Association) (p q : Pool)
    → (lookup id p.channel_map ≡ none → lookup id q.channel_map ≡ none)
    → Agrees ph id a p
    → Agrees ph id a q
moved fresh id a p q keeps (named, unbound) = (named, keeps unbound)
moved opened id a p q keeps h = h
moved ended id a p q keeps h = h

relayed :
    (ph : Phase) (id : Bytes) (a : Association) (p : Pool) (addr : Bytes)
    → Agrees ph id a p
    → Agrees ph id (record a { client_udp_addr = some addr }) p
relayed fresh id a p addr h = h
relayed opened id a p addr h = h
relayed ended id a p addr h = h

module _ (w : World) (ph : Phase) (h : Agrees ph w.assoc.conn_id w.assoc w.pool) where
  relay-Spoken : (src packet : Bytes) → Spoken w.assoc.conn_id ph (relay_round src packet w, [])
  unfolding relay_round
  relay-Spoken src packet = elim (Option-cases w.assoc.client_udp_addr) [
    | inl new ↦
        rw (relay_new w src packet new)
          (nothing_said ph (relayed ph w.assoc.conn_id w.assoc w.pool src h))
    | inr (addr, known) ↦ elim (Bool-cases (bytes_eq addr src)) [
      | inl same ↦ rw (relay_known w src packet addr known) (rw same (nothing_said ph h))
      | inr other ↦ rw (relay_known w src packet addr known) (rw other (nothing_said ph h))
    ]
  ]

  packet-Spoken : (env : Env) (k : ℕ) → Whenever (Spoken w.assoc.conn_id ph) (run_packet env k w)
  unfolding run_packet
  packet-Spoken env k = elim (Option-cases (get_elem? w.pending k)) [
    | inl missing ↦ rw (missing, run_packet) tt
    | inr (n, found) ↦
        rw (found, run_packet) (handle_udp_packet_talks env (take n w.buffer) ph w.assoc w.pool h)
  ]

  terminate-Spoken : (env : Env) → Whenever (Spoken w.assoc.conn_id ph) (terminate env w)
  unfolding terminate
  terminate-Spoken env = elim (Bool-cases (not w.finished && ltb 0 w.done)) [
    | inl due ↦ rw (due, terminate) (close_talks env w.assoc w.pool ph h)
    | inr early ↦ rw (early, terminate) tt
  ]

  wait-Spoken : (by_timer : Bool) → Whenever (Spoken w.assoc.conn_id ph) (end_wait by_timer w)
  unfolding end_wait
  wait-Spoken by_timer = elim (Bool-cases w.waiting) [
    | inr idle ↦ rw (idle, end_wait) tt
    | inl waits ↦ elim (Option-cases (wait_connected by_timer w.assoc.conn_id w.pool)) [
      | inl longer ↦ rw (waits, end_wait) (rw longer tt)
      | inr ((q, connected), over) ↦
          let same = waited_channels by_timer w.assoc.conn_id w.pool over in
          let agrees = moved ph w.assoc.conn_id w.assoc w.pool q (λ unbound. rw same unbound) h in
          elim (Bool-cases connected) [
            | inl there ↦ rw (waits, end_wait) (rw over (rw there (nothing_said ph agrees)))
            | inr late ↦
                rw (waits, end_wait)
                  (rw over (
                    rw late (
                      signal_lem (Spoken w.assoc.conn_id ph) []
                        (record w { pool = q; waiting = false }) (nothing_said ph agrees))))
          ]
    ]
  ]

  response-Spoken :
      (env : Env) (addr payload : Bytes)
      → Whenever (Spoken w.assoc.conn_id ph) (respond_to env addr payload w)
  unfolding respond_to handle_udp_response
  response-Spoken env addr payload =
      let es = handle_udp_response env addr payload w.assoc in
      let quiet = respond-AllBeside env (split b':' addr) payload w.assoc in
      let said : Talked w.assoc.conn_id ph es w.assoc w.pool = record {
        after = ph;
        talk = said_beside es quiet;
        agrees = h;
      } in
      elim (Bool-cases (has_signal es)) [
        | inl signals ↦ rw (signals, respond_to) (signal_lem (Spoken w.assoc.conn_id ph) es w said)
        | inr plain ↦ rw (plain, respond_to) said
      ]

  move-Spoken : (q : Pool) → Whenever (Spoken w.assoc.conn_id ph) (step (pool_moved q) w)
  unfolding step keeps_unbound
  move-Spoken q = elim (Bool-cases (keeps_unbound w.assoc.conn_id w.pool q)) [
    | inl keeps ↦
        rw (keeps, step)
          (nothing_said ph (
            moved ph w.assoc.conn_id w.assoc w.pool q (λ unbound. ground (arith, keeps, unbound))
              h))
    | inr binds ↦ rw (binds, step) tt
  ]

  step-Spoken : (e : Event) → Whenever (Spoken w.assoc.conn_id ph) (step e w)
  unfolding step
  step-Spoken (datagram src packet) = relay-Spoken src packet
  step-Spoken read_failed = signal_lem (Spoken w.assoc.conn_id ph) [] w (nothing_said ph h)
  step-Spoken control_ended = signal_lem (Spoken w.assoc.conn_id ph) [] w (nothing_said ph h)
  step-Spoken (packet_handled env k) = packet-Spoken env k
  step-Spoken (wait_ended by_timer) = wait-Spoken by_timer
  step-Spoken (response env addr payload) = response-Spoken env addr payload
  step-Spoken (terminated env) = terminate-Spoken env
  step-Spoken (pool_moved q) = move-Spoken q

-- The phase of a run's end, for the identifier with which it began.
step-Spoken_as :
    (id : Bytes) (ph : Phase) (w : World) (e : Event)
    → Agrees ph id w.assoc w.pool
    → w.assoc.conn_id ≡ id
    → Whenever (Spoken id ph) (step e w)
step-Spoken_as id ph w e h named =
    subst (λ i. Agrees ph i w.assoc w.pool → Whenever (Spoken i ph) (step e w)) named
      (λ k. step-Spoken w ph k e) h

Agrees-named :
    (ph : Phase) (id : Bytes) (a : Association) (p : Pool) → Agrees ph id a p → a.conn_id ≡ id
Agrees-named fresh id a p h = h.0
Agrees-named opened id a p h = h.0
Agrees-named ended id a p h = h.0

behind-Spoken :
    (id : Bytes) (ph : Phase) (es : List Effect) (mid : Phase) (n : Next)
    → Talk id ph es mid
    → Whenever (Spoken id mid) n
    → Whenever (Spoken id ph) (behind es n)
behind-Spoken id ph es mid none t later = tt
behind-Spoken id ph es mid (some (u, fs)) t later = record {
  after = later.after;
  talk = Talk-append t later.talk;
  agrees = later.agrees;
}

run-Spoken :
    (id : Bytes) (events : List Event) (ph : Phase) (w : World)
    → Agrees ph id w.assoc w.pool
    → Whenever (Spoken id ph) (run events w)
run-Spoken id [] ph w h = unfold run in nothing_said ph h
run-Spoken id (e ∷ events) ph w h = elim (Option-cases (step e w)) [
  | inl never ↦ rw (run_stopped e events w never) tt
  | inr ((v, es), happened) ↦
      let named = Agrees-named ph id w.assoc w.pool h in
      let first = Whenever-some (Spoken id ph) happened (step-Spoken_as id ph w e h named) in
      rw (run_next e events w happened) (
        behind-Spoken id ph es first.after (run events v) first.talk
          (run-Spoken id events first.after v first.agrees))
]

-- Whatever runs beside a new association, in whatever order, what it says to the server begins with
-- UDP_CONNECT, which it says at most once; UDP_DATA messages follow, and behind UDP_CLOSE, which it
-- says at most once too, it says nothing more. Each message carries the association's identifier.
-- The identifier has no channel when the association begins, and no other connection binds one to
-- it.
pub association_talks :
    (a : Association) (p : Pool) (buffer : Bytes) (events : List Event) {u : World}
    {es : List Effect}
    → lookup a.conn_id p.channel_map ≡ none
    → run events (started a p buffer) ≡ some (u, es)
    → (last : Phase) × Talk a.conn_id fresh es last
unfolding started
association_talks a p buffer events unbound ran =
    let spoken =
      Whenever-some (Spoken a.conn_id fresh) ran
        (run-Spoken a.conn_id events fresh (started a p buffer) (refl, unbound)) in
    (spoken.after, spoken.talk)
