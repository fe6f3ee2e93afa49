-- ===== src/Pool/Valid/Operations.antt =====
-- The operations behind the messages of a channel against the pool's invariant.
use ech_tunnel.Base.{
  ℕ, ◌<◌, true, false, List, [], ◌∷◌, none, some, arith, Bytes, Map, lookup, erase, is_none,
  is_empty, lookup-insert, lookup-erase, bytes_key, nat_eq, Bool-cases, Option-cases, inl, inr,
  if◌then◌else◌, Bool,
}
use ech_tunnel.Pool.{Conn, Ws, Pool, Env}
use ech_tunnel.Pool.Receive.{
  udp_data_received, write_local, data_received, raw_received, data_or_raw, signal, take_claim,
  win_claim, forget, claim_acked, claim_ack_received, close_received, Outcome, or_empty,
}
use ech_tunnel.Pool.Valid.{IsValid}
use ech_tunnel.Pool.Valid.Below.{ClaimsBelow, ClaimsBelow-insert, ClaimsBelow-erase, Below-erase}

pub take_claim-ClaimsBelow :
    (id : Bytes) (channel n : ℕ) (m : Map Bytes (Map ℕ ℕ))
    → ClaimsBelow n m
    → ClaimsBelow n (take_claim id channel m)
unfolding take_claim
take_claim-ClaimsBelow id channel n m c = elim (Option-cases (lookup id m)) [
  | inl missing ↦ rw (missing, take_claim) c
  | inr (times, found) ↦
      let left = Below-erase times channel (c id times found) in
      elim (Bool-cases (is_none (lookup channel times))) [
        | inl unclaimed ↦ rw (found, take_claim) (rw unclaimed c)
        | inr claimed ↦ elim (Bool-cases (is_empty (erase channel times))) [
          | inl last ↦ rw (found, take_claim) (rw (claimed, last) (ClaimsBelow-erase m id c))
          | inr more ↦
              rw (found, take_claim)
                (rw (claimed, more) (ClaimsBelow-insert m id c (erase channel times) left))
        ]
      ]
]

module _ (p : Pool) (v : IsValid p) where
  write_local-IsValid :
      (env : Env) (id : Bytes) (c : Conn) (b : Bytes) → IsValid (write_local env id c b p).0
  unfolding write_local
  write_local-IsValid env id c b = elim (Bool-cases (env.conn_ok c b)) [
    | inl sent ↦ rw (sent, write_local) v
    | inr failed ↦
        rw (failed, write_local)
          (record {
            width = v.width;
            bound_below = v.bound_below;
            settled = v.settled;
            claims_below = v.claims_below;
          })
  ]

  pub data_received-IsValid : (env : Env) (id b : Bytes) → IsValid (data_received env id b p).0
  unfolding data_received
  data_received-IsValid env id b = elim (Option-cases (lookup id p.tcp_map)) [
    | inl missing ↦ rw (missing, data_received) v
    | inr (c, found) ↦ rw (found, data_received) (write_local-IsValid env id c b)
  ]

  pub signal-IsValid : (id : Bytes) → IsValid (signal id p)
  unfolding signal
  signal-IsValid id = elim (Bool-cases (is_none (lookup id p.connected))) [
    | inl missing ↦ rw (missing, signal) v
    | inr known ↦
        rw (known, signal)
          (record {
            width = v.width;
            bound_below = v.bound_below;
            settled = v.settled;
            claims_below = v.claims_below;
          })
  ]

  win_claim-IsValid :
      (id : Bytes) (channel : ℕ) → channel < p.connection_num → IsValid (win_claim id channel p)
  unfolding win_claim
  win_claim-IsValid id channel h = record {
    width = v.width;
    bound_below =
        λ j c k. ground (arith, v.bound_below j c, lookup-insert id j channel p.channel_map);
    settled = λ j c k. ground (
      arith,
      v.settled j c,
      lookup-insert id j channel p.channel_map,
      lookup-erase id j p.conn_info,
    );
    claims_below = take_claim-ClaimsBelow id channel p.connection_num p.claim_times v.claims_below;
  }

  forget-IsValid : (id : Bytes) (channel : ℕ) → IsValid (forget id channel p)
  unfolding forget
  forget-IsValid id channel = record {
    width = v.width;
    bound_below = λ j c k. ground (arith, v.bound_below j c, lookup-erase id j p.channel_map);
    settled = λ j c k.
        ground
          (arith, v.settled j c, lookup-erase id j p.channel_map, lookup-erase id j p.conn_info);
    claims_below = ClaimsBelow-erase p.claim_times id v.claims_below;
  }

-- Both branches of a test.
IsValid-if : (b : Bool) (x y : Outcome) → IsValid x.0 → IsValid y.0 → IsValid (if b then x else y).0
IsValid-if true x y vx vy = vx
IsValid-if false x y vx vy = vy

module _ (p : Pool) (v : IsValid p) where
  pub udp_data_received-IsValid : (parts : List Bytes) → IsValid (udp_data_received parts p).0
  unfolding udp_data_received
  udp_data_received-IsValid (id ∷ addr ∷ payload ∷ []) = elim (Option-cases (lookup id p.udp_map)) [
    | inl missing ↦ rw (missing, udp_data_received) v
    | inr (assoc, found) ↦ rw (found, udp_data_received) v
  ]
  udp_data_received-IsValid _ = v

  pub raw_received-IsValid :
      (env : Env) (channel : ℕ) (msg : Bytes) → IsValid (raw_received env channel msg p).0
  unfolding raw_received
  raw_received-IsValid env channel msg =
      let id = or_empty (lookup channel p.bound_by_channel) in
      IsValid-if (is_empty id) _ _ v (bound id)
    where
      bound :
          (id : Bytes)
          → IsValid
              (let o : Outcome = elim (lookup id p.tcp_map) [
                | none ↦ (p, [])
                | some c ↦ write_local env id c msg p
              ] in
                o).0
      bound id =
          elim (lookup id p.tcp_map)
            as (λ r.
              IsValid
                (let o : Outcome = elim r [
                  | none ↦ (p, [])
                  | some c ↦ write_local env id c msg p
                ] in
                  o).0) [ none ↦ v | some c ↦ write_local-IsValid p v env id c msg ]

  pub data_or_raw-IsValid :
      (env : Env) (channel : ℕ) (msg : Bytes) (parts : List Bytes)
      → IsValid (data_or_raw env channel msg parts p).0
  unfolding data_or_raw
  data_or_raw-IsValid env channel msg (id ∷ payload ∷ []) = data_received-IsValid p v env id payload
  data_or_raw-IsValid env channel msg _ = raw_received-IsValid env channel msg

  claim_acked-IsValid :
      (env : Env) (channel : ℕ) (ws : Ws) (id : Bytes)
      → channel < p.connection_num
      → IsValid (claim_acked env channel ws id p).0
  unfolding claim_acked
  claim_acked-IsValid env channel ws id h = elim (Bool-cases (is_none (lookup id p.channel_map))) [
    | inr bound ↦ rw (bound, claim_acked) v
    | inl free ↦ elim (Option-cases (lookup id p.conn_info)) [
      | inl missing ↦ rw (free, claim_acked) (rw (missing, claim_acked) v)
      | inr (info, found) ↦
          rw (free, claim_acked)
            (rw (found, claim_acked)
              (IsValid-if _ _ _ (win_claim-IsValid p v id channel h) (
                forget-IsValid (win_claim id channel p) (win_claim-IsValid p v id channel h) id
                  channel)))
    ]
  ]

  pub claim_ack_received-IsValid :
      (env : Env) (channel : ℕ) (ws : Ws) (parts : List Bytes)
      → channel < p.connection_num
      → IsValid (claim_ack_received env channel ws parts p).0
  unfolding claim_ack_received
  claim_ack_received-IsValid env channel ws (id ∷ rest ∷ []) h =
      claim_acked-IsValid env channel ws id h
  claim_ack_received-IsValid env channel ws _ h = v

  pub close_received-IsValid : (channel : ℕ) (id : Bytes) → IsValid (close_received channel id p).0
  unfolding close_received
  close_received-IsValid channel id = forget-IsValid p v id channel
