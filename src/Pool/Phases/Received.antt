-- ===== src/Pool/Phases/Received.antt =====
-- The messages that a channel receives as moves of every connection.
use ech_tunnel.Base.{
  ℕ, Bool, true, false, List, [], ◌∷◌, Option, none, some, ◌≡◌, inl, inr, refl, ap, arith, Bytes,
  lookup, lookup-insert, lookup-erase, bytes_key, nat_eq, bytes_eq, bytes_eq_iff, if◌then◌else◌,
  Bool-cases, Option-cases,
}
use ech_tunnel.Wire.{MsgType, text, binary, tcp_message}
use ech_tunnel.Pool.{Pool, Ws, Info, Env, Effect, register}
use ech_tunnel.Pool.Receive.{
  Outcome, handle_channel, handle_text, handle_binary, signal, claim_ack_received, claim_acked,
  close_received, win_claim, forget, udp_data_received, data_or_raw, data_received, raw_received,
  write_local,
}
use ech_tunnel.Pool.Race.{acked_sent, acked_lost}
use ech_tunnel.Pool.Phases.{Phase, Move, stay, request, replace, win, end_phase, phase_of, phase}

pub Move-equal : {x y : Phase} → y ≡ x → Move x y
Move-equal {x} e = rw e (stay x)

-- The connections that a change of the maps leaves alone.
pub Move-same :
    (id : Bytes) (p q : Pool)
    → lookup id q.channel_map ≡ lookup id p.channel_map
    → lookup id q.conn_info ≡ lookup id p.conn_info
    → Move (phase id p) (phase id q)
Move-same id p q c i = Move-equal (rw (c, i) refl)

-- Every connection moves as the contract says.
pub record IsMove (p : Pool) (o : Outcome) : Type 0 where
  pub move : (id : Bytes) → Move (phase id p) (phase id o.0)

IsMove-if :
    (p : Pool) (b : Bool) (x y : Outcome) → IsMove p x → IsMove p y → IsMove p (if b then x else y)
IsMove-if p true x y hx hy = hx
IsMove-if p false x y hx hy = hy

module _ (p : Pool) where
  IsMove-same :
      (o : Outcome) → o.0.channel_map ≡ p.channel_map → o.0.conn_info ≡ p.conn_info → IsMove p o
  IsMove-same o c i = record {
    move = λ id. Move-same id p o.0 (ap (λ m. lookup id m) c) (ap (λ m. lookup id m) i);
  }

  request_moves :
      (c : Option ℕ) (i : Option Info) (info : Info)
      → c ≡ none
      → Move (phase_of c i) (phase_of c (some info))
  request_moves none none info e = request info
  request_moves none (some old) info e = replace old info
  request_moves (some d) i info e = absurd (ground (arith, e))

  pub register_moves :
      (id target first : Bytes) (conn : ℕ) (j : Bytes)
      → lookup id p.channel_map ≡ none
      → Move (phase j p) (phase j (register id target first conn p))
  unfolding register
  register_moves id target first conn j fresh =
      let info : Info = record { target_addr = target; first_frame_data = first } in
      rw (lookup-insert id j info p.conn_info) (elim (Bool-cases (bytes_eq id j)) [
        | inl same ↦
            let e : id ≡ j = (bytes_eq_iff id j).0 same in
            let free : lookup j p.channel_map ≡ none = rw e at fresh in
            rw same (request_moves (lookup j p.channel_map) (lookup j p.conn_info) info free)
        | inr other ↦ rw other (stay (phase j p))
      ])

  forget_moves :
      (id : Bytes) (c : ℕ) (q : Pool) (j : Bytes)
      → Move (phase j p) (phase j q)
      → Move (phase j p) (phase j (forget id c q))
  unfolding forget
  forget_moves id c q j m = elim (Bool-cases (bytes_eq id j)) [
    | inl same ↦
        rw (lookup-erase id j q.channel_map, lookup-erase id j q.conn_info)
          (rw same (end_phase (phase j p)))
    | inr other ↦ rw (lookup-erase id j q.channel_map, lookup-erase id j q.conn_info) (rw other m)
  ]

  win_moves :
      (id : Bytes) (c : ℕ) (info : Info) (j : Bytes)
      → lookup id p.channel_map ≡ none
      → lookup id p.conn_info ≡ some info
      → Move (phase j p) (phase j (win_claim id c p))
  unfolding win_claim
  win_moves id c info j fresh registered_info =
      rw (lookup-insert id j c p.channel_map, lookup-erase id j p.conn_info)
        (elim (Bool-cases (bytes_eq id j)) [
          | inl same ↦
              let e : id ≡ j = (bytes_eq_iff id j).0 same in
              let free : lookup j p.channel_map ≡ none = rw e at fresh in
              let asked : lookup j p.conn_info ≡ some info = rw e at registered_info in
              rw same (rw (free, asked) (win info c))
          | inr other ↦ rw other (stay (phase j p))
        ])

  claim_acked-IsMove :
      (env : Env) (c : ℕ) (ws : Ws) (id : Bytes) → IsMove p (claim_acked env c ws id p)
  unfolding claim_acked
  claim_acked-IsMove env c ws id = elim (Option-cases (lookup id p.channel_map)) [
    | inr (d, taken) ↦ rw (taken, claim_acked) (IsMove-same (p, []) refl refl)
    | inl free ↦ elim (Option-cases (lookup id p.conn_info)) [
      | inl gone ↦ rw (free, gone, claim_acked) (IsMove-same (p, []) refl refl)
      | inr (info, asked) ↦
          let msg = tcp_message id info.target_addr info.first_frame_data in
          let won = win_claim id c p in
          let wins : (j : Bytes) → Move (phase j p) (phase j won) =
            λ j. win_moves id c info j free asked in
          elim (Bool-cases (env.ws_ok ws msg)) [
            | inl sent ↦ rw (acked_sent env c ws id info p asked free sent) (record { move = wins })
            | inr lost ↦
                rw (acked_lost env c ws id info p asked free lost)
                  (record { move = λ j. forget_moves id c won j (wins j) })
          ]
    ]
  ]

  close-IsMove : (c : ℕ) (id : Bytes) → IsMove p (close_received c id p)
  unfolding close_received
  close-IsMove c id = record { move = λ j. forget_moves id c p j (stay (phase j p)) }

  signal-IsMove : (id : Bytes) (es : List Effect) → IsMove p (signal id p, es)
  unfolding signal
  signal-IsMove id es = IsMove-same (signal id p, es) (ground arith) (ground arith)

  claim_ack-IsMove :
      (env : Env) (c : ℕ) (ws : Ws) (parts : List Bytes)
      → IsMove p (claim_ack_received env c ws parts p)
  unfolding claim_ack_received
  claim_ack-IsMove env c ws [] = IsMove-same (p, []) refl refl
  claim_ack-IsMove env c ws (id ∷ []) = IsMove-same (p, []) refl refl
  claim_ack-IsMove env c ws (id ∷ rest ∷ []) = claim_acked-IsMove env c ws id
  claim_ack-IsMove env c ws (id ∷ rest ∷ x ∷ parts) = IsMove-same (p, []) refl refl

  udp_data-IsMove : (parts : List Bytes) → IsMove p (udp_data_received parts p)
  unfolding udp_data_received
  udp_data-IsMove [] = IsMove-same (p, []) refl refl
  udp_data-IsMove (id ∷ []) = IsMove-same (p, []) refl refl
  udp_data-IsMove (id ∷ addr ∷ []) = IsMove-same (p, []) refl refl
  udp_data-IsMove (id ∷ addr ∷ payload ∷ []) = IsMove-same _ (ground arith) (ground arith)
  udp_data-IsMove (id ∷ addr ∷ payload ∷ x ∷ parts) = IsMove-same (p, []) refl refl

  raw-IsMove : (env : Env) (c : ℕ) (msg : Bytes) → IsMove p (raw_received env c msg p)
  unfolding raw_received write_local
  raw-IsMove env c msg = IsMove-same (raw_received env c msg p) (ground arith) (ground arith)

  data_or_raw-IsMove :
      (env : Env) (c : ℕ) (msg : Bytes) (parts : List Bytes)
      → IsMove p (data_or_raw env c msg parts p)
  unfolding data_or_raw data_received write_local
  data_or_raw-IsMove env c msg [] = raw-IsMove env c msg
  data_or_raw-IsMove env c msg (id ∷ []) = raw-IsMove env c msg
  data_or_raw-IsMove env c msg (id ∷ payload ∷ []) =
      IsMove-same (data_received env id payload p) (ground arith) (ground arith)
  data_or_raw-IsMove env c msg (id ∷ payload ∷ x ∷ parts) = raw-IsMove env c msg

  same-IsMove : (es : List Effect) → IsMove p (p, es)
  same-IsMove es = IsMove-same (p, es) refl refl

ruleset move_rules = (
  IsMove-if, same-IsMove, signal-IsMove, udp_data-IsMove, close-IsMove, data_or_raw-IsMove,
  raw-IsMove, claim_ack-IsMove,
)

pub handle_channel-IsMove :
    (p : Pool) (env : Env) (c : ℕ) (ws : Ws) (m : MsgType) (msg : Bytes)
    → IsMove p (handle_channel env c ws m msg p)
unfolding handle_channel handle_binary handle_text
handle_channel-IsMove p env c ws binary msg = search move_rules
handle_channel-IsMove p env c ws text msg = search move_rules depth 9
