-- ===== src/Server/Access.antt =====
-- websocket_server.go: runWebSocketServer up to the start of its listener, and the checks of its
-- HTTP handler. The networks of package net are parameters.
pub mod Admission
pub mod Start
use ech_tunnel.Base.{
  Bool, true, false, ◌||◌, List, [], ◌∷◌, ◌++◌, Option, none, some, ◌≡◌, ◌↔◌, ◌⊎◌, inl, inr, refl,
  ◌∙◌, sym, arith, Bytes, codes, bytes_eq, bytes_eq_iff, is_empty, split, trim_space, if◌then◌else◌,
  Bool-cases, Option-cases, not,
}
use ech_tunnel.Http.Request.{Url}

-- `net.ParseCIDR`, `(*net.IPNet).Contains`, where `none` is a nil address, `net.ParseIP` and
-- `net.SplitHostPort`, whose port is not used.
pub record Env (Net : Type 0) : Type 0 where
  pub parse_url : Bytes → Option Url
  pub parse_cidr : Bytes → Option Net
  pub contains : Net → Option Bytes → Bool
  pub parse_ip : Bytes → Option Bytes
  pub split_host : Bytes → Option Bytes

-- The flags `cidrs` and `token`.
pub record Flags : Type 0 where
  pub cidrs : Bytes
  pub token : Bytes

-- What the handler reads of a request: `r.RemoteAddr` and the header Sec-WebSocket-Protocol, which
-- is empty where it is missing.
pub record Request : Type 0 where
  pub remote_addr : Bytes
  pub protocol : Bytes

-- The handler's answer: one of three errors, or it hands the request to `upgrader.Upgrade`.
pub data Verdict : Type 0 where
  bad_request forbidden unauthorized upgrade : Verdict

-- The path of the handler.
unfoldable pub server_path : Url → Bytes
server_path url = if is_empty url.path then codes "/" else url.path

module _ {Net : Type 0} (env : Env Net) where
  -- `none` is a fatal error.
  unfoldable pub nets_of : List Bytes → Option (List Net)
  nets_of [] = some []
  nets_of (text ∷ texts) =
      let later = nets_of texts in
      elim (env.parse_cidr (trim_space text)) [
        | none ↦ none
        | some net ↦ elim later [ none ↦ none | some nets ↦ some (net ∷ nets) ]
      ]

  unfoldable pub allowed_nets : Flags → Option (List Net)
  unfolding nets_of
  allowed_nets flags = nets_of (split b',' flags.cidrs)

  unfoldable pub is_allowed : List Net → Option Bytes → Bool
  is_allowed [] ip = false
  is_allowed (net ∷ nets) ip = let rest = is_allowed nets ip in env.contains net ip || rest

  -- The test of the token.
  unfoldable pub token_matches : Flags → Request → Bool
  token_matches flags r = is_empty flags.token || bytes_eq r.protocol flags.token

  unfoldable pub verdict : Flags → List Net → Request → Verdict
  unfolding is_allowed token_matches
  verdict flags nets r = elim (env.split_host r.remote_addr) [
    | none ↦ bad_request
    | some host ↦
        if is_allowed nets (env.parse_ip host)
        then if token_matches flags r then upgrade else unauthorized
        else forbidden
  ]

  -- The server as it is started: it ends with a fatal error, or it answers each request.
  unfoldable pub serve : Flags → Bytes → Option (Bytes × (Request → Verdict))
  unfolding server_path verdict
  serve flags addr = elim (env.parse_url addr) [
    | none ↦ none
    | some url ↦ elim (allowed_nets flags) [
      | none ↦ none
      | some nets ↦ some (server_path url, verdict flags nets)
    ]
  ]
