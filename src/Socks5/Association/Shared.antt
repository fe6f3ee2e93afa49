-- ===== src/Socks5/Association/Shared.antt =====
-- The array that the rounds of handleUDPRelay share, socks5.go.
use ech_tunnel.Base.{
  ℕ, zero, suc, ◌≤◌, List, [], ◌∷◌, ◌++◌, none, some, ◌≡◌, refl, arith, Bytes, length, take, drop,
  get_elem?, bytes_eq_refl, ◌||◌, ◌∙◌, ◌⊎◌, inl, inr, take-append_length, append-nil, ap,
}
use ech_tunnel.Socks5.Association.{Env, handle_udp_packet, handle_udp_relay, Association, Effect}
use ech_tunnel.Socks5.Association.World.{
  World, datagram, packet_handled, read_into, go_packet, relay_round, run_packet, step, run,
  has_wait, Event,
}
use ech_tunnel.Socks5.Association.World.Runs.{run_next, relay_known, relay_new}

take-append : (n : ℕ) (s t : Bytes) → n ≤ length s → take n (s ++ t) ≡ take n s
take-append zero s t h = refl
take-append (suc n) [] t h = absurd (omega arith)
take-append (suc n) (x ∷ s) t h = ground (arith, take-append n s t)

-- A round on a datagram of the client.
client_round :
    (w : World) (src packet : Bytes)
    → w.assoc.client_udp_addr ≡ some src
    → relay_round src packet w ≡ go_packet (length packet) (read_into packet w)
client_round w src packet known = relay_known w src packet src known ∙ rw (bytes_eq_refl src) refl

-- The state that the goroutine at a place leaves, which reads the bytes given.
abbrev ran : Env → ℕ → Bytes → World → World
ran env k s w = record w {
  assoc = (handle_udp_packet env s (w.assoc, w.pool)).0.0;
  pool = (handle_udp_packet env s (w.assoc, w.pool)).0.1;
  pending = take k w.pending ++ drop (suc k) w.pending;
  waiting = w.waiting || has_wait (handle_udp_packet env s (w.assoc, w.pool)).1;
}

packet_lem :
    (env : Env) (k n : ℕ) (s : Bytes) (w : World)
    → get_elem? w.pending k ≡ some n
    → take n w.buffer ≡ s
    → step (packet_handled env k) w
      ≡ some (ran env k s w, (handle_udp_packet env s (w.assoc, w.pool)).1)
unfolding step run_packet
packet_lem env k n s w there slice = rw (there, run_packet) (rw slice refl)

run_pair :
    (d e : Event) (w u v : World) (es : List Effect)
    → step d w ≡ some (u, [])
    → step e u ≡ some (v, es)
    → run (d ∷ e ∷ []) w ≡ some (v, es)
run_pair d e w u v es one two =
    run_next d (e ∷ []) w one ∙ rw (run_next e [] u two) (unfold run in rw (append-nil es) refl)

first_of : (n : ℕ) (ns more : List ℕ) → ns ≡ [] → get_elem? ((ns ++ n ∷ []) ++ more) 0 ≡ some n
first_of n ns more e = rw e refl

module _ (env : Env) (src first second : Bytes) (w : World)
    (known : w.assoc.client_udp_addr ≡ some src) (idle : w.pending ≡ [])
    (fits : length first ≤ length second) where
  -- Two datagrams of the client that follow each other before a goroutine runs: both are read into
  -- one array, so where the second is not shorter, the goroutine that was started for the first
  -- handles the beginning of the second, and no byte of the first plays a part any more.
  pub overwritten_datagram :
      (u v : World) × (run (datagram src first ∷ datagram src second ∷ []) w ≡ some (u, []))
      × (step (packet_handled env 0) u
          ≡ some (v, (handle_udp_packet env (take (length first) second) (w.assoc, w.pool)).1))
  unfolding run step go_packet read_into
  overwritten_datagram =
      let one = go_packet (length first) (read_into first w) in
      let two = go_packet (length second) (read_into second one) in
      let slice : take (length first) two.buffer ≡ take (length first) second =
        take-append (length first) second _ fits in
      (
        two,
        ran env 0 (take (length first) second) two,
        run_pair (datagram src first) (datagram src second) w one two []
            (unfold step in ap (λ r. some (r, [])) (client_round w src first known))
            (unfold step in ap (λ r. some (r, [])) (client_round one src second known)),
        packet_lem env 0 (length first) (take (length first) second) two
            (first_of (length first) w.pending (length second ∷ []) idle) slice,
      )

-- A round and its goroutine, one right behind the other.
abbrev pub Prompt : Env → Bytes → Bytes → World → Type 0
Prompt env src packet w =
    (v : World) × (run (datagram src packet ∷ packet_handled env 0 ∷ []) w
      ≡ some (v, (handle_udp_relay env src packet (w.assoc, w.pool)).1))
    × ((v.assoc, v.pool) ≡ (handle_udp_relay env src packet (w.assoc, w.pool)).0)
    × (v.pending ≡ [])

module _ (env : Env) (src packet : Bytes) (w : World) (idle : w.pending ≡ []) where
  handled_promptly :
      (b : Association)
      → relay_round src packet w
        ≡ go_packet (length packet) (read_into packet (record w { assoc = b }))
      → handle_udp_relay env src packet (w.assoc, w.pool) ≡ handle_udp_packet env packet (b, w.pool)
      → Prompt env src packet w
  unfolding run step go_packet read_into
  handled_promptly b reads handles =
      let one = go_packet (length packet) (read_into packet (record w { assoc = b })) in
      let there =
        packet_lem env 0 (length packet) packet one (rw idle refl) (take-append_length packet _) in
      (
        ran env 0 packet one,
        run_pair (datagram src packet) (packet_handled env 0) w one (ran env 0 packet one) _
            (unfold step in ap (λ r. some (r, [])) reads) (rw handles there),
        rw handles refl,
        rw idle refl,
      )

  relay_unknown :
      w.assoc.client_udp_addr ≡ none
      → handle_udp_relay env src packet (w.assoc, w.pool)
        ≡ handle_udp_packet env packet (record w.assoc { client_udp_addr = some src }, w.pool)
  unfolding handle_udp_relay
  relay_unknown new = rw (new, handle_udp_relay)

  relay_same :
      w.assoc.client_udp_addr ≡ some src
      → handle_udp_relay env src packet (w.assoc, w.pool)
        ≡ handle_udp_packet env packet (w.assoc, w.pool)
  unfolding handle_udp_relay
  relay_same known = simp (known, bytes_eq_refl src, handle_udp_relay)

  -- Where a goroutine runs before the next datagram is read, the array plays no part: a datagram of
  -- the client, or the first one of all, and its goroutine do together exactly what the relay does
  -- for the packet, with the same effects and the same association and pool.
  pub round-Prompt :
      (w.assoc.client_udp_addr ≡ none) ⊎ (w.assoc.client_udp_addr ≡ some src)
      → Prompt env src packet w
  round-Prompt (inl new) =
      handled_promptly (record w.assoc { client_udp_addr = some src }) (relay_new w src packet new)
        (relay_unknown new)
  round-Prompt (inr known) =
      handled_promptly w.assoc (client_round w src packet known) (relay_same known)
