-- ===== src/Pool/Signals.antt =====
-- What the operations of a pool do to its signals, the map `connected`.
use ech_tunnel.Base.{
  ℕ, Bool, true, false, List, [], ◌∷◌, ◌++◌, Option, none, some, ◌≡◌, ◌⊎◌, inl, inr, refl, ap, ◌∙◌,
  arith, Bytes, codes, Map, lookup, lookup-insert, bytes_key, nat_eq, bytes_eq, bytes_eq_iff,
  if◌then◌else◌, has_prefix, trim_prefix, has_prefix_sound, Bool-cases, Option-cases, split_n, drop,
}
use ech_tunnel.Wire.{MsgType, text, binary, connected_message, udp_connected_message}
use ech_tunnel.Pool.{Pool, Ws, Env, Effect, dial_once, claim_channel, make_signal}
use ech_tunnel.Pool.Send.{send_udp_connect, send_udp_close, wait_connected, first_ws, bound_ws}
use ech_tunnel.Pool.Receive.{
  Outcome, handle_channel, handle_text, handle_binary, signal, claim_ack_received, claim_acked,
  close_received, win_claim, forget, udp_data_received, data_or_raw, data_received, raw_received,
  write_local,
}

-- The signals that are set after the step were set before.
abbrev pub NoneNew : Map Bytes Bool → Map Bytes Bool → Type 0
NoneNew m n = (id : Bytes) → lookup id n ≡ some true → lookup id m ≡ some true

pub make_signal-NoneNew : (id : Bytes) (m : Map Bytes Bool) → NoneNew m (make_signal id m)
unfolding make_signal
make_signal-NoneNew id m j h = ground (arith, h, lookup-insert id j false m)

pub dial_once-connected :
    (index : ℕ) (dials : List (Option Ws)) (p q : Pool) (ws : Ws)
    → dial_once index dials p ≡ some (q, ws)
    → q.connected ≡ p.connected
unfolding dial_once
dial_once-connected index [] p q ws e = cc
dial_once-connected index (none ∷ dials) p q ws e = dial_once-connected index dials p q ws e
dial_once-connected index (some w ∷ dials) p q ws e = ground (arith, e)

pub claim_channel-connected :
    (env : Env) (id : Bytes) (i : ℕ) (ws : Ws) (p q : Pool) (es : List Effect)
    → claim_channel env id i ws p ≡ some (q, es)
    → q.connected ≡ p.connected
unfolding claim_channel
claim_channel-connected env id i ws p q es e = elim (Option-cases (lookup id p.claim_times)) [
  | inl missing ↦ ground (arith, e, missing)
  | inr (times, found) ↦ ground (arith, e, found)
]

-- After the message, a signal that is set was set before or is announced by the message.
pub record IsHonest (p : Pool) (msg : Bytes) (o : Outcome) : Type 0 where
  pub honest :
      (id : Bytes)
      → lookup id o.0.connected ≡ some true
      → (lookup id p.connected ≡ some true)
        ⊎ ((msg ≡ connected_message id) ⊎ (msg ≡ udp_connected_message id))

IsHonest-if :
    {p : Pool} {msg : Bytes} (b : Bool) (x y : Outcome)
    → (b ≡ true → IsHonest p msg x)
    → IsHonest p msg y
    → IsHonest p msg (if b then x else y)
IsHonest-if true x y hx hy = hx refl
IsHonest-if false x y hx hy = hy

module _ (p : Pool) (msg : Bytes) where
  quiet : (o : Outcome) → o.0.connected ≡ p.connected → IsHonest p msg o
  quiet o e = record { honest = λ id h. inl (rw e at h) }

  behind_prefix : (name : Bytes) → has_prefix name msg ≡ true → msg ≡ name ++ trim_prefix name msg
  unfolding trim_prefix
  behind_prefix name pre = rw pre (has_prefix_sound name msg pre)

  signal-lookup :
      (id j : Bytes)
      → lookup j (signal id p).connected ≡ some true
      → (lookup j p.connected ≡ some true) ⊎ (id ≡ j)
  unfolding signal
  signal-lookup id j h = elim (Bool-cases (bytes_eq id j)) [
    | inl same ↦ inr ((bytes_eq_iff id j).0 same)
    | inr other ↦ inl (ground (arith, h, lookup-insert id j true p.connected, other))
  ]

  announced :
      (name : Bytes)
      → ((id : Bytes)
          → msg ≡ name ++ id
          → (msg ≡ connected_message id) ⊎ (msg ≡ udp_connected_message id))
      → has_prefix name msg ≡ true
      → IsHonest p msg (signal (trim_prefix name msg) p, [])
  announced name known pre = record {
    honest = λ id h. elim (signal-lookup (trim_prefix name msg) id h) [
      | inl before ↦ inl before
      | inr named ↦ inr (known id (behind_prefix name pre ∙ ap (λ (t : Bytes). name ++ t) named))
    ];
  }

module _ (env : Env) (c : ℕ) (p : Pool) where
  data_or_raw-connected :
      (msg : Bytes) (parts : List Bytes) → (data_or_raw env c msg parts p).0.connected ≡ p.connected
  unfolding data_or_raw data_received raw_received write_local
  data_or_raw-connected msg [] = ground arith
  data_or_raw-connected msg (id ∷ []) = ground arith
  data_or_raw-connected msg (id ∷ payload ∷ []) = ground arith
  data_or_raw-connected msg (id ∷ payload ∷ x ∷ parts) = ground arith

  udp_data-connected : (parts : List Bytes) → (udp_data_received parts p).0.connected ≡ p.connected
  unfolding udp_data_received
  udp_data-connected [] = refl
  udp_data-connected (id ∷ []) = refl
  udp_data-connected (id ∷ addr ∷ []) = refl
  udp_data-connected (id ∷ addr ∷ payload ∷ []) = ground arith
  udp_data-connected (id ∷ addr ∷ payload ∷ x ∷ parts) = refl

  handle_binary-connected : (msg : Bytes) → (handle_binary env c msg p).0.connected ≡ p.connected
  unfolding handle_binary raw_received write_local
  handle_binary-connected msg = ground (
    arith,
    udp_data-connected (split_n b'|' (drop 9 msg) 3),
    data_or_raw-connected msg (split_n b'|' (drop 5 msg) 2),
  )

  claim_ack-connected :
      (ws : Ws) (parts : List Bytes)
      → (claim_ack_received env c ws parts p).0.connected ≡ p.connected
  unfolding claim_ack_received claim_acked win_claim forget
  claim_ack-connected ws [] = refl
  claim_ack-connected ws (id ∷ []) = refl
  claim_ack-connected ws (id ∷ rest ∷ []) = ground arith
  claim_ack-connected ws (id ∷ rest ∷ x ∷ parts) = refl

  close-connected : (id : Bytes) → (close_received c id p).0.connected ≡ p.connected
  unfolding close_received forget
  close-connected id = refl

  handle_text-IsHonest : (ws : Ws) (msg : Bytes) → IsHonest p msg (handle_text env c ws msg p)
  unfolding handle_text
  handle_text-IsHonest ws msg =
      let same = quiet p msg (p, []) refl in
      let acked =
        quiet p msg (claim_ack_received env c ws (split_n b'|' (drop 10 msg) 2) p)
          (claim_ack-connected ws (split_n b'|' (drop 10 msg) 2)) in
      let closed =
        quiet p msg (close_received c (trim_prefix (codes "CLOSE:") msg) p)
          (close-connected (trim_prefix (codes "CLOSE:") msg)) in
      IsHonest-if _ _ _ (announced p msg (codes "UDP_CONNECTED:") (λ id e. inr e)) (
        IsHonest-if _ _ _ (λ _. same)
          (IsHonest-if _ _ _ (λ _. acked)
            (IsHonest-if _ _ _ (announced p msg (codes "CONNECTED:") (λ id e. inl e))
              (IsHonest-if _ _ _ (λ _. same) (IsHonest-if _ _ _ (λ _. closed) same)))))

  pub handle_channel-IsHonest :
      (ws : Ws) (m : MsgType) (msg : Bytes) → IsHonest p msg (handle_channel env c ws m msg p)
  unfolding handle_channel
  handle_channel-IsHonest ws binary msg = quiet p msg _ (handle_binary-connected msg)
  handle_channel-IsHonest ws text msg = handle_text-IsHonest ws msg

module _ (env : Env) (p : Pool) where
  pub send_udp_connect-connected :
      (id target : Bytes) → (send_udp_connect env id target p).0.connected ≡ p.connected
  unfolding send_udp_connect
  send_udp_connect-connected id target = elim (Option-cases (first_ws 0 p.ws_conns)) [
    | inl missing ↦ ground (arith, missing)
    | inr ((c, ws), found) ↦ ground (arith, found)
  ]

  pub send_udp_close-connected : (id : Bytes) → (send_udp_close env id p).0.connected ≡ p.connected
  unfolding send_udp_close
  send_udp_close-connected id = elim (Option-cases (bound_ws id p)) [
    | inl missing ↦ ground (arith, missing)
    | inr ((c, ws), found) ↦ ground (arith, found)
  ]

-- Waiting clears a signal, or changes nothing; it succeeds where the signal is set.
pub wait-NoneNew :
    (by_timer : Bool) (id : Bytes) (p q : Pool) (b : Bool)
    → wait_connected by_timer id p ≡ some (q, b)
    → NoneNew p.connected q.connected
unfolding wait_connected
wait-NoneNew by_timer id p q b e j h = ground (arith, e, h, lookup-insert id j false p.connected)

pub wait_true-full :
    (by_timer : Bool) (id : Bytes) (p q : Pool)
    → wait_connected by_timer id p ≡ some (q, true)
    → lookup id p.connected ≡ some true
unfolding wait_connected
wait_true-full by_timer id p q e = ground (arith, e)
