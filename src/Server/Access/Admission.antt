-- ===== src/Server/Access/Admission.antt =====
-- Which requests the server upgrades to a WebSocket.
use ech_tunnel.Base.{
  true, List, [], ◌∷◌, Option, some, ◌≡◌, ◌↔◌, ◌⊎◌, inl, inr, refl, sym, arith, Bytes, bytes_eq_iff,
  is_empty, split, trim_space, Bool-cases, Option-cases,
}
use ech_tunnel.Server.Access.{
  Env, Flags, Request, Verdict, bad_request, forbidden, unauthorized, upgrade, nets_of,
  allowed_nets, is_allowed, token_matches, verdict, serve, server_path,
}

is_empty_nil : (s : Bytes) → is_empty s ≡ true → s ≡ []
is_empty_nil [] h = refl
is_empty_nil (x ∷ s) h = cc

-- Some element of the list is as `P` says.
abbrev pub AnyOf : (Bytes → Type 0) → List Bytes → Type 0
AnyOf P [] = ⊥
AnyOf P (x ∷ xs) = P x ⊎ AnyOf P xs

module _ {Net : Type 0} (env : Env Net) where
  -- One of the texts is the range of a network that has the address.
  abbrev pub InRange : Option Bytes → Bytes → Type 0
  InRange ip text =
      (net : Net) × (env.parse_cidr (trim_space text) ≡ some net) × (env.contains net ip ≡ true)

  -- What the flags demand of a request.
  pub record IsAdmitted (flags : Flags) (r : Request) : Type 0 where
    pub host : Bytes
    pub addressed : env.split_host r.remote_addr ≡ some host
    pub in_range : AnyOf (InRange (env.parse_ip host)) (split b',' flags.cidrs)
    pub authenticated : (flags.token ≡ []) ⊎ (r.protocol ≡ flags.token)

  nets_cons :
      (text : Bytes) (texts : List Bytes) (nets : List Net)
      → nets_of env (text ∷ texts) ≡ some nets
      → (net : Net) × (later : List Net) × (env.parse_cidr (trim_space text) ≡ some net)
        × (nets_of env texts ≡ some later)
        × (nets ≡ net ∷ later)
  unfolding nets_of
  nets_cons text texts nets e = elim (Option-cases (env.parse_cidr (trim_space text))) [
    | inl missing ↦ absurd (ground (arith, e, missing))
    | inr (net, found) ↦ elim (Option-cases (nets_of env texts)) [
      | inl wrong ↦ absurd (ground (arith, e, found, wrong))
      | inr (later, rest) ↦ (net, later, found, rest, ground (arith, e, found, rest))
    ]
  ]

  is_allowed-InRange :
      (texts : List Bytes) (nets : List Net) (ip : Option Bytes)
      → nets_of env texts ≡ some nets
      → (is_allowed env nets ip ≡ true) ↔ AnyOf (InRange ip) texts
  unfolding is_allowed nets_of
  is_allowed-InRange [] nets ip e =
      let none_left : nets ≡ [] = cc in rw none_left ((λ h. ground (arith, h)), λ no. absurd no)
  is_allowed-InRange (text ∷ texts) nets ip e =
      let (net, later, found, rest, made) = nets_cons text texts nets e in
      let (there, back) = is_allowed-InRange texts later ip rest in
      rw made (
        (λ h. elim (Bool-cases (env.contains net ip)) [
          | inl inside ↦ inl (net, found, inside)
          | inr outside ↦ inr (there (ground (arith, h, outside)))
        ]),
        λ any. elim any [
          | inl (other, parsed, inside) ↦
              let same : other ≡ net = cc in
              let here : env.contains net ip ≡ true = rw same at inside in ground (arith, here)
          | inr more ↦ let later_ok = back more in ground (arith, later_ok)
        ],
      )

  token_matches_lem :
      (flags : Flags) (r : Request)
      → (token_matches env flags r ≡ true) ↔ ((flags.token ≡ []) ⊎ (r.protocol ≡ flags.token))
  unfolding token_matches
  token_matches_lem flags r = (
    (λ h. elim (Bool-cases (is_empty flags.token)) [
      | inl open_to_all ↦ inl (is_empty_nil flags.token open_to_all)
      | inr needed ↦ inr ((bytes_eq_iff r.protocol flags.token).0 (ground (arith, h, needed)))
    ]),
    λ known. elim known [
      | inl none_set ↦ rw none_set refl
      | inr same ↦ let equal = (bytes_eq_iff r.protocol flags.token).1 same in ground (arith, equal)
    ],
  )

  verdict_upgrades :
      (flags : Flags) (nets : List Net) (r : Request)
      → allowed_nets env flags ≡ some nets
      → (verdict env flags nets r ≡ upgrade) ↔ IsAdmitted flags r
  unfolding verdict allowed_nets
  verdict_upgrades flags nets r e = (
    (λ h. elim (Option-cases (env.split_host r.remote_addr)) [
      | inl missing ↦ let wrong : bad_request ≡ upgrade = rw (missing, verdict) at h in cc
      | inr (host, found) ↦ elim (Bool-cases (is_allowed env nets (env.parse_ip host))) [
        | inr outside ↦ let wrong : forbidden ≡ upgrade = rw (found, outside, verdict) at h in cc
        | inl inside ↦ elim (Bool-cases (token_matches env flags r)) [
          | inr other ↦
              let wrong : unauthorized ≡ upgrade = rw (found, inside, other, verdict) at h in cc
          | inl same ↦ record {
            host = host;
            addressed = found;
            in_range =
                (is_allowed-InRange (split b',' flags.cidrs) nets (env.parse_ip host) e).0 inside;
            authenticated = (token_matches_lem flags r).0 same;
          }
        ]
      ]
    ]),
    λ ok.
        let inside =
          (is_allowed-InRange (split b',' flags.cidrs) nets (env.parse_ip ok.host) e).1
            ok.in_range in
        let same = (token_matches_lem flags r).1 ok.authenticated in
        rw (ok.addressed, verdict) (rw (inside, same) refl),
  )

  -- A server that has started hands a request to the upgrade exactly when the request's address
  -- lies in one of the configured ranges and, where a token is configured, its subprotocol is
  -- this token.
  pub upgrades-IsAdmitted :
      (flags : Flags) (addr path : Bytes) (handler : Request → Verdict) (r : Request)
      → serve env flags addr ≡ some (path, handler)
      → (handler r ≡ upgrade) ↔ IsAdmitted flags r
  unfolding serve
  upgrades-IsAdmitted flags addr path handler r e = elim (Option-cases (env.parse_url addr)) [
    | inl missing ↦ absurd (ground (arith, e, missing))
    | inr (url, found) ↦ elim (Option-cases (allowed_nets env flags)) [
      | inl wrong ↦ absurd (ground (arith, e, found, wrong))
      | inr (nets, parsed) ↦
          let started : some (
                let q : Bytes × (Request → Verdict) = (server_path url, verdict env flags nets) in
                q)
              ≡ some (path, handler) =
            rw (found, parsed, serve) at e in
          let made : verdict env flags nets ≡ handler = cc in
          rw (sym made) (verdict_upgrades flags nets r parsed)
    ]
  ]
