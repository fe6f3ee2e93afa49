-- ===== src/Local.antt =====
-- The client's side of one TCP connection, which the SOCKS5 CONNECT, the two HTTP handlers and the
-- forwarder share: socks5.go (handleSOCKS5Connect), http_proxy.go (from RegisterAndClaim on) and
-- tcp_client.go (startMultiChannelTCPForwarder).
pub mod Upload
pub mod Opening
pub mod Refusal
pub mod Listener
pub mod Handler
use ech_tunnel.Base.{
  ℕ, Bool, true, false, List, [], ◌∷◌, ◌++◌, Option, none, some, Bytes, codes, if◌then◌else◌,
}
use ech_tunnel.Pool.{Conn, Pool, Env, Effect, conn_write, conn_close}
use ech_tunnel.Pool.Send.{Error, send_data, send_close, wait_connected}
use ech_tunnel.Pool.Steps.{drop_tunnel}
use ech_tunnel.Socks5.Handshake.{error_response}
use ech_tunnel.Http.Request.{crlf}

-- Who owns the connection.
pub data FrontEnd : Type 0 where
  socks5_connect http_connect http_forward tcp_forwarder : FrontEnd

abbrev pub gateway_timeout : Bytes
gateway_timeout = codes "HTTP/1.1 504 Gateway Timeout" ++ (crlf ++ crlf)

abbrev pub established : Bytes
established = codes "HTTP/1.1 200 Connection Established" ++ (crlf ++ crlf)

-- What happens to the connection when WaitConnected reports a failure. The SOCKS5 and the HTTP
-- handlers return to handleProxyConnection, whose deferred function closes it.
unfoldable pub refuse_client : FrontEnd → Conn → List Effect
unfolding error_response
refuse_client socks5_connect c = conn_write c (error_response 1) ∷ conn_close c ∷ []
refuse_client http_connect c = conn_write c gateway_timeout ∷ conn_close c ∷ []
refuse_client http_forward c = conn_write c gateway_timeout ∷ conn_close c ∷ []
refuse_client tcp_forwarder c = conn_close c ∷ []

-- The answer that tells the client of success, where there is one.
unfoldable pub success : FrontEnd → Option Bytes
unfolding error_response
success socks5_connect = some (error_response 0)
success http_connect = some established
success http_forward = none
success tcp_forwarder = none

-- Where the handler stands after WaitConnected: it relays data, or it has returned.
pub data Opened : Type 0 where
  relaying refused answer_lost : Opened

unfoldable pub answer_success : FrontEnd → Env → Conn → Opened × List Effect
unfolding success
answer_success f env c = elim (success f) [
  | none ↦ (relaying, [])
  | some msg ↦
      if env.conn_ok c msg
      then (relaying, conn_write c msg ∷ [])
      else (answer_lost, conn_write c msg ∷ conn_close c ∷ [])
]

-- WaitConnected and what follows it, up to the loop; `none` while it waits.
unfoldable pub await_connection :
    FrontEnd → Env → Bool → Bytes → Conn → Pool → Option (Opened × Pool × List Effect)
unfolding refuse_client answer_success
await_connection f env by_timer id c p = elim (wait_connected by_timer id p) [
  | none ↦ none
  | some (q, false) ↦ some (refused, q, refuse_client f c)
  | some (q, true) ↦ let (o, es) = answer_success f env c in some (o, q, es)
]

-- A round of the loop: what `conn.Read` gave, `none` for an error, and the pool as it was when
-- the data were sent.
pub record Round : Type 0 where
  pub read : Option Bytes
  pub env : Env
  pub pool : Pool

-- How the loop ends: at an error of the read, at an error of SendData, or not yet.
pub data Ended : Type 0 where
  read_ended : Ended
  send_failed : Error → Ended
  still_open : Ended

-- SendData returned: the loop returns its error, or goes on.
unfoldable pub after_send : Option Error × List Effect → Ended × List Effect → Ended × List Effect
after_send (some e, es) later = (send_failed e, es)
after_send (none, es) (ended, fs) = (ended, es ++ fs)

unfoldable pub upload : Bytes → List Round → Ended × List Effect
unfolding after_send
upload id [] = (still_open, [])
upload id (r ∷ rounds) =
    let later = upload id rounds in
    elim r.read [
      | none ↦ (read_ended, [])
      | some b ↦ after_send (send_data r.env id b r.pool) later
    ]

-- The deferred function. The forwarder's leaves `tcpMap` as it is.
unfoldable pub finish : FrontEnd → Env → Bytes → Conn → Pool → Pool × List Effect
finish tcp_forwarder env id c p = (p, (send_close env id p).1 ++ conn_close c ∷ [])
finish f env id c p = (drop_tunnel id p, (send_close env id p).1 ++ conn_close c ∷ [])
