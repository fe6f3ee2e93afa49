-- ===== src/Server/Dispatch.antt =====
-- websocket_server.go: the message loop of `handleWebSocket`, one message at a time.
use ech_tunnel.Base.{
  ◌&&◌, List, [], ◌∷◌, none, some, Bytes, codes, lookup, insert, erase, drop, length, ltb,
  if◌then◌else◌, has_prefix, trim_prefix, split_n, bytes_key,
}
use ech_tunnel.Wire.{
  MsgType, text, binary, claim_ack_message, udp_connected_message, udp_error_message,
}
use ech_tunnel.Server.{
  Session, ws_write, conn_write, conn_close, udp_write, udp_close, go_tcp, go_udp, Env, Outcome,
}

-- The UTF-8 bytes of 解析地址失败 and 创建UDP失败.
abbrev pub resolve_failed : Bytes
resolve_failed =
    0xe8 ∷ 0xa7 ∷ 0xa3 ∷ 0xe6 ∷ 0x9e ∷ 0x90 ∷ 0xe5 ∷ 0x9c ∷ 0xb0 ∷ 0xe5 ∷ 0x9d ∷ 0x80 ∷ 0xe5 ∷ 0xa4
    ∷ 0xb1 ∷ 0xe8 ∷ 0xb4 ∷ 0xa5 ∷ []

abbrev pub listen_failed : Bytes
listen_failed =
    0xe5 ∷ 0x88 ∷ 0x9b ∷ 0xe5 ∷ 0xbb ∷ 0xba ∷ b'U' ∷ b'D' ∷ b'P' ∷ 0xe5 ∷ 0xa4 ∷ 0xb1 ∷ 0xe8 ∷ 0xb4
    ∷ 0xa5 ∷ []

-- A datagram goes to the target of its connection, where socket and target are known.
unfoldable pub forward_udp : Bytes → Bytes → Session → Outcome
forward_udp id payload s = elim (lookup id s.udp_conns) [
  | none ↦ (s, [])
  | some uc ↦ elim (lookup id s.udp_targets) [
    | none ↦ (s, [])
    | some addr ↦ (s, udp_write uc payload addr ∷ [])
  ]
]

unfoldable pub udp_data_received : List Bytes → Session → Outcome
udp_data_received (id ∷ payload ∷ []) s = forward_udp id payload s
udp_data_received parts s = (s, [])

-- A failed write to the target is only logged.
unfoldable pub forward_tcp : Bytes → Bytes → Session → Outcome
forward_tcp id payload s = elim (lookup id s.conns) [
  | none ↦ (s, [])
  | some c ↦ (s, conn_write c payload ∷ [])
]

unfoldable pub data_received : List Bytes → Session → Outcome
data_received (id ∷ payload ∷ []) s = forward_tcp id payload s
data_received parts s = (s, [])

unfoldable pub open_udp : Env → Bytes → Bytes → Session → Outcome
open_udp env id target s = elim (env.resolve target) [
  | none ↦ (s, ws_write text (udp_error_message id resolve_failed) ∷ [])
  | some addr ↦ elim env.listen_udp [
    | none ↦ (s, ws_write text (udp_error_message id listen_failed) ∷ [])
    | some uc ↦ (
      record s { udp_conns = insert id uc s.udp_conns; udp_targets = insert id addr s.udp_targets },
      go_udp id uc ∷ ws_write text (udp_connected_message id) ∷ [],
    )
  ]
]

unfoldable pub udp_connect_received : Env → List Bytes → Session → Outcome
udp_connect_received env (id ∷ target ∷ []) s = open_udp env id target s
udp_connect_received env parts s = (s, [])

unfoldable pub udp_close_received : Bytes → Session → Outcome
udp_close_received id s = elim (lookup id s.udp_conns) [
  | none ↦ (s, [])
  | some uc ↦ (
    record s { udp_conns = erase id s.udp_conns; udp_targets = erase id s.udp_targets },
    udp_close uc ∷ [],
  )
]

unfoldable pub claim_received : List Bytes → Session → Outcome
claim_received (id ∷ channel ∷ []) s = (s, ws_write text (claim_ack_message id channel) ∷ [])
claim_received parts s = (s, [])

-- The first frame may be missing.
unfoldable pub tcp_received : List Bytes → Session → Outcome
tcp_received (id ∷ target ∷ []) s = (s, go_tcp id target [] ∷ [])
tcp_received (id ∷ target ∷ first ∷ []) s = (s, go_tcp id target first ∷ [])
tcp_received parts s = (s, [])

unfoldable pub close_received : Bytes → Session → Outcome
close_received id s = elim (lookup id s.conns) [
  | none ↦ (s, [])
  | some c ↦ (record s { conns = erase id s.conns }, conn_close c ∷ [])
]

unfoldable pub handle_binary : Bytes → Session → Outcome
handle_binary msg s =
    if ltb 9 (length msg) && has_prefix (codes "UDP_DATA:") msg
    then udp_data_received (split_n b'|' (drop 9 msg) 2) s
    else if ltb 5 (length msg) && has_prefix (codes "DATA:") msg
    then data_received (split_n b'|' (drop 5 msg) 2) s
    else (s, [])

unfoldable pub handle_text : Env → Bytes → Session → Outcome
handle_text env msg s =
    if has_prefix (codes "UDP_CONNECT:") msg
    then udp_connect_received env (split_n b'|' (drop 12 msg) 2) s
    else if has_prefix (codes "UDP_CLOSE:") msg
    then udp_close_received (trim_prefix (codes "UDP_CLOSE:") msg) s
    else if has_prefix (codes "CLAIM:") msg
    then claim_received (split_n b'|' (drop 6 msg) 2) s
    else if has_prefix (codes "TCP:") msg
    then tcp_received (split_n b'|' (drop 4 msg) 3) s
    else if has_prefix (codes "DATA:") msg
    then data_received (split_n b'|' (drop 5 msg) 2) s
    else if has_prefix (codes "CLOSE:") msg
    then close_received (trim_prefix (codes "CLOSE:") msg) s
    else (s, [])

-- One round of the loop, on a message that was read.
unfoldable pub handle_web_socket : Env → MsgType → Bytes → Session → Outcome
handle_web_socket env binary msg s = handle_binary msg s
handle_web_socket env text msg s = handle_text env msg s
