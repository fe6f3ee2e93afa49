-- ===== src/Tunnel.antt =====
-- The two ends of one WebSocket: what the client's pool writes is handled by the server, and what
-- the server writes is handled by the client, whole messages in order.
pub mod Up
pub mod Down
pub mod Redial
pub mod Datagrams
use ech_tunnel.Base.{ℕ, List, [], ◌∷◌, ◌++◌, ◌==◌, if◌then◌else◌}
use ech_tunnel.Pool
use ech_tunnel.Pool.{Pool, Ws}
use ech_tunnel.Pool.Receive.{handle_channel}
use ech_tunnel.Server
use ech_tunnel.Server.{Session}
use ech_tunnel.Server.Dispatch.{handle_web_socket}

-- The session of `ws` handles the messages among the client's effects that are written to `ws`.
unfoldable pub to_server : Server.Env → Ws → List Pool.Effect → Session → Server.Outcome
to_server env ws [] s = (s, [])
to_server env ws (Pool.ws_write w m msg ∷ es) s =
    let (s1, fs) = if w == ws then handle_web_socket env m msg s else (s, []) in
    let (s2, gs) = to_server env ws es s1 in (s2, fs ++ gs)
to_server env ws (e ∷ es) s = to_server env ws es s

-- The client's channel with WebSocket `ws` handles the messages among the server's effects.
unfoldable pub to_client : Pool.Env → ℕ → Ws → List Server.Effect → Pool → Pool × List Pool.Effect
to_client env channel ws [] p = (p, [])
to_client env channel ws (Server.ws_write m msg ∷ es) p =
    let (p1, fs) = handle_channel env channel ws m msg p in
    let (p2, gs) = to_client env channel ws es p1 in (p2, fs ++ gs)
to_client env channel ws (e ∷ es) p = to_client env channel ws es p
