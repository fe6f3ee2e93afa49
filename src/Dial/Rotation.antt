-- ===== src/Dial/Rotation.antt =====
-- A rotated ECH key, tcp_client.go.
use ech_tunnel.Base.{
  ℕ, suc, true, false, [], ◌∷◌, some, ◌≡◌, refl, arith, ◌==◌, Bytes, is_empty, ◌∙◌,
}
use ech_tunnel.Pool.{Ws}
use ech_tunnel.Dial.{
  Flags, connected, dial_failed, is_ech_error, World, ok, attempts, dial_web_socket_with_ech,
}
use ech_tunnel.Dial.Strict.{dial_once-connected, dial_once-failed, secured, attempt_dials}

module _ (flags : Flags) (w : World) (ws_server_addr host : Bytes) (left : ℕ) (cache : Bytes)
    (read : w.hostname ws_server_addr ≡ some host) (full : is_empty cache ≡ false)
    (first second : ℕ) (roots : w.roots 1 ≡ some first) (roots_again : w.roots 2 ≡ some second)
    (text : Bytes) (rotated : w.dial 1 (secured flags host first cache) ≡ dial_failed text)
    (about_ech : is_ech_error text ≡ true) (renewed : is_empty (w.refreshed 1) ≡ false) (ws : Ws)
    (accepted : w.dial 2 (secured flags host second (w.refreshed 1)) ≡ connected ws) where
  second_attempt :
      attempts flags w host (suc left) 2 (w.refreshed 1)
      ≡ (ok ws, secured flags host second (w.refreshed 1) ∷ [])
  second_attempt =
      attempt_dials flags host w left 2 (w.refreshed 1) second renewed roots_again
      ∙ dial_once-connected w 2 (left == 0) (secured flags host second (w.refreshed 1)) _ accepted

  first_attempt :
      attempts flags w host (suc (suc left)) 1 cache
      ≡ (ok ws, secured flags host first cache ∷ secured flags host second (w.refreshed 1) ∷ [])
  first_attempt =
      let more : (suc left == 0) ≡ false = ground arith in
      attempt_dials flags host w (suc left) 1 cache first full roots
      ∙ (dial_once-failed w 1 (suc left == 0) (secured flags host first cache) _ rotated
          ∙ rw (about_ech, more, second_attempt) refl)

  -- A key that has been rotated: where the first dial fails with a text that mentions ECH, the
  -- refreshed list is not empty, and the second dial, which uses it, gets through, the result is the
  -- connection of the second dial, given two attempts or more. The first dial uses the cached
  -- list.
  pub rotated_key_recovered :
      dial_web_socket_with_ech flags w ws_server_addr (suc (suc left)) cache
      ≡ (ok ws, secured flags host first cache ∷ secured flags host second (w.refreshed 1) ∷ [])
  unfolding dial_web_socket_with_ech
  rotated_key_recovered = rw (read, dial_web_socket_with_ech) first_attempt
