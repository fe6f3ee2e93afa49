-- ===== src/Dial/Strict.antt =====
-- What every dial of tcp_client.go has in common.
use ech_tunnel.Base.{
  ℕ, zero, suc, ◌+◌, ◌≤◌, ◌<◌, Bool, true, false, List, [], ◌∷◌, none, some, ◌≡◌, ◌≢◌, refl, arith,
  ◌==◌, if◌then◌else◌, Bytes, length, is_empty, Option-cases, Bool-cases, inl, inr, ◌⊎◌, ◌&&◌, not,
  contains,
}
use ech_tunnel.Pool.{Ws}
use ech_tunnel.Ech.Cache.{get_ech_list}
use ech_tunnel.Dial.{
  version_tls13, rejected_text, build_tls_config_with_ech, Flags, Dialer, new_dialer, DialResult,
  connected, dial_failed, is_ech_error, World, ech_unavailable, tls_failed, retries_exhausted,
  dial_error, ok, error, Outcome, dial_once, attempts, dial_web_socket_with_ech, Connection,
}

-- A dialer that cannot fall back: TLS 1.3 at least, an ECH list, an error for every rejection that
-- counts as an ECH error, the name of the server, and the token as the only subprotocol.
pub record IsStrict (flags : Flags) (host : Bytes) (d : Dialer) : Type 0 where
  version : d.tls.min_version ≡ version_tls13
  with_ech : is_empty d.tls.ech_config_list ≡ false
  no_fallback : is_ech_error d.tls.rejection_error ≡ true
  named : d.tls.server_name ≡ host
  presents : d.subprotocols ≡ (if is_empty flags.token then [] else flags.token ∷ [])

abbrev pub AllStrict : Flags → Bytes → List Dialer → Type 0
AllStrict flags host [] = Unit
AllStrict flags host (d ∷ ds) = IsStrict flags host d × AllStrict flags host ds

-- What holds of every run with `n` attempts.
record Strict (flags : Flags) (host : Bytes) (n : ℕ) (o : Outcome) : Type 0 where
  all : AllStrict flags host o.1
  at_most : length o.1 ≤ n
  not_exhausted : 0 < n → o.0 ≢ error retries_exhausted

DialResult-cases :
    (r : DialResult) → ((ws : Ws) × (r ≡ connected ws)) ⊎ ((text : Bytes) × (r ≡ dial_failed text))
DialResult-cases (connected ws) = inl (ws, refl)
DialResult-cases (dial_failed text) = inr (text, refl)

module _ (w : World) (attempt : ℕ) (last : Bool) (d : Dialer) (again : Outcome) where
  pub dial_once-connected :
      {ws : Ws}
      → w.dial attempt d ≡ connected ws
      → dial_once w attempt last d again ≡ (ok ws, d ∷ [])
  unfolding dial_once
  dial_once-connected e = rw (e, dial_once)

  pub dial_once-failed :
      {text : Bytes}
      → w.dial attempt d ≡ dial_failed text
      → dial_once w attempt last d again ≡ (
          if is_ech_error text && not last
          then (again.0, d ∷ again.1)
          else (error (dial_error text), d ∷ []))
  unfolding dial_once
  dial_once-failed e = rw (e, dial_once)

module _ (flags : Flags) (host : Bytes) where
  -- A run that ends with this dial.
  one_dial :
      (left : ℕ) (d : Dialer) (c : Connection)
      → c ≢ error retries_exhausted
      → IsStrict flags host d
      → Strict flags host (suc left) (c, d ∷ [])
  one_dial left d c other strict = record {
    all = (strict, tt);
    at_most = omega arith;
    not_exhausted = λ _. other;
  }

  dial_once-Strict :
      (w : World) (attempt left : ℕ) (d : Dialer) (again : Outcome)
      → IsStrict flags host d
      → Strict flags host left again
      → Strict flags host (suc left) (dial_once w attempt (left == 0) d again)
  dial_once-Strict w attempt left d again strict rest = elim (DialResult-cases (w.dial attempt d)) [
    | inl (ws, e) ↦
        rw (dial_once-connected w attempt (left == 0) d again e)
          (one_dial left d (ok ws) (λ k. cc) strict)
    | inr (text, e) ↦
        rw (dial_once-failed w attempt (left == 0) d again e)
          (elim (Bool-cases (is_ech_error text && not (left == 0))) [
            | inr other ↦ rw other (one_dial left d (error (dial_error text)) (λ k. cc) strict)
            | inl retried ↦ rw retried (record {
              all = (strict, rest.all);
              at_most = omega (arith, rest.at_most);
              not_exhausted = λ _. rest.not_exhausted (ground (arith, retried));
            })
          ])
  ]

  -- The configuration that is built, and its dialer.
  abbrev pub secured : ℕ → Bytes → Dialer
  secured roots ech_list = new_dialer flags (record {
    min_version = version_tls13;
    server_name = host;
    ech_config_list = ech_list;
    rejection_error = rejected_text;
    root_cas = roots;
  })

  secured-IsStrict :
      (roots : ℕ) (ech_list : Bytes)
      → is_empty ech_list ≡ false
      → IsStrict flags host (secured roots ech_list)
  unfolding new_dialer is_ech_error contains
  secured-IsStrict roots ech_list full = record {
    version = refl;
    with_ech = full;
    no_fallback = refl;
    named = refl;
    presents = refl;
  }

  module _ (w : World) (left attempt : ℕ) (cache : Bytes) where
    -- The attempts behind one.
    abbrev pub again_after : Outcome
    again_after = attempts flags w host left (attempt + 1) (w.refreshed attempt)

    attempt_without :
        is_empty cache ≡ true
        → attempts flags w host (suc left) attempt cache
          ≡ (if left == 0 then (error ech_unavailable, []) else again_after)
    unfolding attempts get_ech_list
    attempt_without none_there = rw (none_there, attempts, get_ech_list)

    attempt_unverified :
        is_empty cache ≡ false
        → w.roots attempt ≡ none
        → attempts flags w host (suc left) attempt cache ≡ (error tls_failed, [])
    unfolding attempts get_ech_list build_tls_config_with_ech
    attempt_unverified full missing = rw (full, attempts, get_ech_list) (rw missing refl)

    pub attempt_dials :
        (roots : ℕ)
        → is_empty cache ≡ false
        → w.roots attempt ≡ some roots
        → attempts flags w host (suc left) attempt cache
          ≡ dial_once w attempt (left == 0) (secured roots cache) again_after
    unfolding attempts get_ech_list build_tls_config_with_ech
    attempt_dials roots full found = rw (full, attempts, get_ech_list) (rw found refl)

  no_dial : (n : ℕ) (c : Connection) → c ≢ error retries_exhausted → Strict flags host n (c, [])
  no_dial n c other = record { all = tt; at_most = omega arith; not_exhausted = λ _. other }

  attempts-Strict :
      (w : World) (n attempt : ℕ) (cache : Bytes)
      → Strict flags host n (attempts flags w host n attempt cache)
  attempts-Strict w zero attempt cache =
      unfold attempts in
      record { all = tt; at_most = omega arith; not_exhausted = λ h. absurd (omega arith) }
  attempts-Strict w (suc left) attempt cache =
      let rest = attempts-Strict w left (attempt + 1) (w.refreshed attempt) in
      elim (Bool-cases (is_empty cache)) [
        | inl missing ↦
            rw (attempt_without w left attempt cache missing) (elim (Bool-cases (left == 0)) [
              | inl over ↦ rw over (no_dial (suc left) (error ech_unavailable) (λ k. cc))
              | inr more ↦ rw more (record {
                all = rest.all;
                at_most = omega (arith, rest.at_most);
                not_exhausted = λ _. rest.not_exhausted (ground (arith, more));
              })
            ])
        | inr full ↦ elim (Option-cases (w.roots attempt)) [
          | inl unverified ↦
              rw (attempt_unverified w left attempt cache full unverified)
                (no_dial (suc left) (error tls_failed) (λ k. cc))
          | inr (roots, found) ↦ rw (attempt_dials w left attempt cache roots full found) (
              dial_once-Strict w attempt left (secured roots cache) _
                (secured-IsStrict roots cache full) rest)
        ]
      ]

-- With a URL that can be read and at least one attempt: every dial offers ECH with a configuration
-- list, asks for TLS 1.3 at least, names the host of the URL, whatever address it connects to,
-- refuses every connection whose ECH is rejected with an error that counts as an ECH error, and
-- presents the token where there is one; none dials more than `max_retries` times, and the error
-- behind the loop is never returned. There is no fallback to a handshake without ECH, whatever the
-- cache holds and whatever dials and refreshes bring.
pub dial_strict :
    (flags : Flags) (w : World) (ws_server_addr host : Bytes) (max_retries : ℕ) (cache : Bytes)
    → w.hostname ws_server_addr ≡ some host
    → 0 < max_retries
    → AllStrict flags host (dial_web_socket_with_ech flags w ws_server_addr max_retries cache).1
      × (length (dial_web_socket_with_ech flags w ws_server_addr max_retries cache).1 ≤ max_retries)
      × ((dial_web_socket_with_ech flags w ws_server_addr max_retries cache).0
          ≢ error retries_exhausted)
unfolding dial_web_socket_with_ech
dial_strict flags w ws_server_addr host max_retries cache read some_attempt =
    let strict = attempts-Strict flags host w max_retries 1 cache in
    rw (read, dial_web_socket_with_ech)
      (strict.all, strict.at_most, strict.not_exhausted some_attempt)
