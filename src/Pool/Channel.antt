-- ===== src/Pool/Channel.antt =====
-- pool.go: Start, and the loop of handleChannel with redialChannel behind an error of its read.
use ech_tunnel.Base.{
  ℕ, zero, suc, List, [], ◌∷◌, ◌++◌, map, Option, none, some, ◌≡◌, refl, ap, ◌∙◌, arith, Bytes,
  length, set, replicate, length-append, append_assoc,
}
use ech_tunnel.Wire.{MsgType}
use ech_tunnel.Pool.{Ws, Pool, Env, Effect, new_ech_pool, dial_once}
use ech_tunnel.Pool.Receive.{handle_channel}

-- The goroutines of Start, from a channel on, each with the outcomes of its dials; `none` while one
-- of them still dials.
unfoldable pub start_from : ℕ → List (List (Option Ws)) → Pool → Option Pool
start_from index [] p = some p
start_from index (dials ∷ rest) p = elim (dial_once index dials p) [
  | none ↦ none
  | some (q, ws) ↦ start_from (suc index) rest q
]

-- What the loop of a channel meets: a message, what other goroutines have done to the pool in
-- between, and an error of the read with the outcomes of the dials of redialChannel.
pub data Event : Type 0 where
  message : Env → MsgType → Bytes → Event
  meanwhile : Pool → Event
  read_failed : List (Option Ws) → Event

-- The pool, the WebSocket that the channel is read from, or `none` while it is dialled, and what
-- has been done.
abbrev pub Progress : Type 0
Progress = Pool × Option Ws × List Effect

-- redialChannel: the loop is the one of dialOnce.
unfoldable pub redial_channel : ℕ → List (Option Ws) → Pool → Option (Pool × Ws)
redial_channel channel dials p = dial_once channel dials p

-- redialChannel starts handleChannel again with the new WebSocket.
unfoldable pub channel_loop : ℕ → Ws → List Event → Pool → Progress
unfolding redial_channel
channel_loop channel ws [] p = (p, some ws, [])
channel_loop channel ws (message env m msg ∷ events) p =
    let (q, es) = handle_channel env channel ws m msg p in
    let (r, end, fs) = channel_loop channel ws events q in (r, end, es ++ fs)
channel_loop channel ws (meanwhile q ∷ events) p = channel_loop channel ws events q
channel_loop channel ws (read_failed dials ∷ events) p = elim (redial_channel channel dials p) [
  | none ↦ (p, none, [])
  | some (q, again) ↦ channel_loop channel again events q
]

-- The pool with a WebSocket at a channel.
abbrev pub with_ws : ℕ → Ws → Pool → Pool
with_ws channel ws p = record p { ws_conns = set p.ws_conns channel (some ws) }

pub dial_once-failures :
    (index k : ℕ) (ws : Ws) (more : List (Option Ws)) (p : Pool)
    → dial_once index (replicate k none ++ some ws ∷ more) p ≡ some (with_ws index ws p, ws)
unfolding dial_once
dial_once-failures index zero ws more p = refl
dial_once-failures index (suc k) ws more p = dial_once-failures index k ws more p

-- A channel whose WebSocket fails is dialled until a dial succeeds, however many fail before; then
-- its messages are handled again, answers go out on the new WebSocket, which stands at the channel's
-- place in the pool, and all else that the pool knows is as it was.
pub failed_channel_resumes :
    (channel k : ℕ) (ws again : Ws) (more : List (Option Ws)) (events : List Event) (p : Pool)
    → channel_loop channel ws (read_failed (replicate k none ++ some again ∷ more) ∷ events) p
      ≡ channel_loop channel again events (with_ws channel again p)
unfolding channel_loop redial_channel
failed_channel_resumes channel k ws again more events p =
    rw (dial_once-failures channel k again more p, channel_loop) refl

-- The outcomes of the dials of a channel that is reached behind a number of failures.
abbrev pub reached : ℕ × Ws → List (Option Ws)
reached (k, ws) = replicate k none ++ some ws ∷ []

abbrev pub ws_of : ℕ × Ws → Option Ws
ws_of (k, ws) = some ws

set-append :
    (front : List (Option Ws)) (n : ℕ) (w : Option Ws)
    → set (front ++ replicate (suc n) none) (length front) w ≡ (front ++ w ∷ []) ++ replicate n none
set-append [] n w = refl
set-append (x ∷ front) n w = ap (◌∷◌ x) (set-append front n w)

started_from :
    (front : List (Option Ws)) (outcomes : List (ℕ × Ws)) (p : Pool)
    → p.ws_conns ≡ front ++ replicate (length outcomes) none
    → (q : Pool) × (start_from (length front) (map reached outcomes) p ≡ some q)
      × (q.ws_conns ≡ front ++ map ws_of outcomes)
unfolding start_from
started_from front [] p e = (p, refl, e)
started_from front ((k, ws) ∷ outcomes) p e =
    let more = front ++ some ws ∷ [] in
    let connected = with_ws (length front) ws p in
    let slots =
      ap (λ conns. set conns (length front) (some ws)) e
      ∙ set-append front (length outcomes) (some ws) in
    let next : suc (length front) ≡ length more =
      omega (arith, length-append front (some ws ∷ [])) in
    let (q, ran, full) = started_from more outcomes connected slots in
    (
      q,
      rw (dial_once-failures (length front) k ws [] p, start_from) (rw next ran),
      full ∙ append_assoc front (some ws ∷ []) (map ws_of outcomes),
    )

-- Start on a new pool: where every channel's dial succeeds some time, whatever fails before, each
-- channel ends up with the WebSocket that its dial has brought, and no slot stays empty.
pub start_connects_all :
    (addr : Bytes) (outcomes : List (ℕ × Ws))
    → (q : Pool) × (start_from 0 (map reached outcomes) (new_ech_pool addr (length outcomes))
        ≡ some q)
      × (q.ws_conns ≡ map ws_of outcomes)
unfolding new_ech_pool
start_connects_all addr outcomes =
    started_from [] outcomes (new_ech_pool addr (length outcomes)) refl
