-- ===== src/Socks5/Association/Talk/Closing.antt =====
-- Close of socks5.go as part of what an association says.
use ech_tunnel.Base.{
  ℕ, true, false, [], ◌∷◌, none, some, ◌≡◌, refl, arith, Bytes, Bool-cases, Option-cases, inl, inr,
  bytes_key, nat_eq, erase,
}
use ech_tunnel.Wire.{text, udp_close_message}
use ech_tunnel.Pool.{Pool, Ws, ws_write}
use ech_tunnel.Pool.Send.{bound_ws, send_udp_close, write_error}
use ech_tunnel.Socks5.Association.{Association, Env, of_pool, listener_close, close}
use ech_tunnel.Socks5.Association.Talk.{
  Phase, fresh, opened, ended, silent, closes, beside, Agrees, Said, unbound_ws, nothing_said,
}

module _ (env : Env) (a : Association) (p : Pool) where
  close_again : a.closed ≡ true → close env (a, p) ≡ ((a, p), [])
  unfolding close
  close_again over = ground (arith, over)

  close_unbound :
      a.closed ≡ false
      → bound_ws a.conn_id p ≡ none
      → close env (a, p) ≡ ((record a { closed = true }, p), listener_close ∷ [])
  unfolding close
  close_unbound live missing =
      let quiet : send_udp_close env.pool a.conn_id p ≡ (p, none, []) =
        unfold send_udp_close in rw (missing, send_udp_close) in
      rw (live, close) (rw quiet)

  -- The pool behind SendUDPClose.
  abbrev closed_on : ℕ → Pool
  closed_on c = record p {
    channel_map = erase a.conn_id p.channel_map;
    bound_by_channel = erase c p.bound_by_channel;
    udp_map = erase a.conn_id p.udp_map;
  }

  abbrev bye : Bytes
  bye = udp_close_message a.conn_id

  close_bound :
      (c : ℕ) (ws : Ws)
      → a.closed ≡ false
      → bound_ws a.conn_id p ≡ some (c, ws)
      → close env (a, p) ≡ (
        (record a { closed = true }, closed_on c),
        of_pool (ws_write ws text bye) ∷ listener_close ∷ [],
      )
  unfolding close
  close_bound c ws live found =
      let said : send_udp_close env.pool a.conn_id p
          ≡ (closed_on c, write_error (env.pool.ws_ok ws bye), ws_write ws text bye ∷ []) =
        unfold send_udp_close in rw (found, send_udp_close) in
      rw (live, close) (rw said)

  close_open : a.closed ≡ false → a.receiving ≡ true → Said a.conn_id opened (close env (a, p))
  close_open live begun = elim (Option-cases (bound_ws a.conn_id p)) [
    | inl missing ↦
        rw (close_unbound live missing)
          (record { after = opened; talk = beside tt silent; agrees = (refl, begun) })
    | inr ((c, ws), found) ↦
        rw (close_bound c ws live found)
          (record { after = ended; talk = closes ws (beside tt silent); agrees = (refl, refl) })
  ]

  close_live :
      (ph : Phase)
      → a.closed ≡ false
      → Agrees ph a.conn_id a p
      → Said a.conn_id ph (close env (a, p))
  close_live fresh live (named, unbound) =
      rw (close_unbound live (unbound_ws a.conn_id p unbound))
        (record { after = fresh; talk = beside tt silent; agrees = (refl, unbound) })
  close_live opened live (named, begun) = close_open live begun
  close_live ended live (named, over) = absurd (ground (arith, live, over))

  pub close_talks : (ph : Phase) → Agrees ph a.conn_id a p → Said a.conn_id ph (close env (a, p))
  close_talks ph h = elim (Bool-cases a.closed) [
    | inl over ↦ rw (close_again over) (nothing_said ph h)
    | inr live ↦ close_live ph live h
  ]
