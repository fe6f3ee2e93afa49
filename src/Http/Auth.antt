-- ===== src/Http/Auth.antt =====
-- validateProxyAuth of http_proxy.go.
use ech_tunnel.Base.{
  true, false, ◌&&◌, ◌∷◌, ◌++◌, none, some, ◌≡◌, ◌↔◌, refl, arith, sym, ap, ◌∙◌, Bytes, bytes_key,
  bytes_eq, bytes_eq_iff, bytes_eq_refl, is_empty, has_prefix, trim_prefix, drop, contains_byte,
  cut, cut_sound, split_n, split_n-append_two, has_prefix_sound, has_prefix-append, Option-cases,
  Bool-cases, inl, inr,
}
use ech_tunnel.Base64.{decode_string}
use ech_tunnel.Http.{basic_prefix, same_credentials, validate_proxy_auth}

-- The text of an authorization for `user` and `pass`.
pub record IsBasic (header user pass : Bytes) : Type 0 where
  pub encoded : Bytes
  pub shape : header ≡ basic_prefix ++ encoded
  pub decoded : decode_string encoded ≡ some (user ++ b':' ∷ pass)

same_credentials_sound :
    (d user pass : Bytes)
    → same_credentials (split_n b':' d 2) user pass ≡ true
    → d ≡ user ++ b':' ∷ pass
unfolding same_credentials split_n
same_credentials_sound d user pass h = elim (Option-cases (cut b':' d)) [
  | inl missing ↦ let e : false ≡ true = rw (missing, split_n, same_credentials) at h in cc
  | inr ((u, v), found) ↦
      let e : (bytes_eq u user && bytes_eq v pass) ≡ true =
        rw (found, split_n, same_credentials) at h in
      let name : u ≡ user = (bytes_eq_iff u user).0 (ground (arith, e)) in
      let word : v ≡ pass = (bytes_eq_iff v pass).0 (ground (arith, e)) in
      let whole = cut_sound b':' d found in cc
]

module _ (header user pass : Bytes) (given : is_empty header ≡ false)
    (basic : has_prefix basic_prefix header ≡ true) where
  validate_broken :
      decode_string (drop 6 header) ≡ none → validate_proxy_auth header user pass ≡ false
  unfolding validate_proxy_auth trim_prefix
  validate_broken broken = rw (given, basic, validate_proxy_auth) (rw broken)

  validate_decoded :
      (d : Bytes)
      → decode_string (drop 6 header) ≡ some d
      → validate_proxy_auth header user pass ≡ same_credentials (split_n b':' d 2) user pass
  unfolding validate_proxy_auth trim_prefix
  validate_decoded d decoded = rw (given, basic, validate_proxy_auth) (rw decoded)

pub validate_sound :
    (header user pass : Bytes)
    → validate_proxy_auth header user pass ≡ true
    → IsBasic header user pass
unfolding validate_proxy_auth
validate_sound header user pass h = elim (Bool-cases (is_empty header)) [
  | inl nothing ↦ let e : false ≡ true = rw nothing at h in cc
  | inr given ↦ elim (Bool-cases (has_prefix basic_prefix header)) [
    | inr other ↦ let e : false ≡ true = rw (given, other) at h in cc
    | inl basic ↦ elim (Option-cases (decode_string (drop 6 header))) [
      | inl broken ↦ let e = validate_broken header user pass given basic broken in cc
      | inr (d, decoded) ↦ record {
        encoded = drop 6 header;
        shape = has_prefix_sound basic_prefix header basic;
        decoded =
            decoded
            ∙ ap some (
                same_credentials_sound d user pass
                  (sym (validate_decoded header user pass given basic d decoded) ∙ h));
      }
    ]
  ]
]

same_credentials_self :
    (user pass : Bytes)
    → contains_byte b':' user ≡ false
    → same_credentials (split_n b':' (user ++ b':' ∷ pass) 2) user pass ≡ true
unfolding same_credentials
same_credentials_self user pass plain =
    rw (split_n-append_two b':' user pass plain)
      (ground (arith, bytes_eq_refl user, bytes_eq_refl pass))

validate_complete :
    (header user pass : Bytes)
    → contains_byte b':' user ≡ false
    → IsBasic header user pass
    → validate_proxy_auth header user pass ≡ true
validate_complete header user pass plain b = rw b.shape (
    validate_decoded (basic_prefix ++ b.encoded) user pass refl
      (has_prefix-append basic_prefix b.encoded) (user ++ b':' ∷ pass) b.decoded
    ∙ same_credentials_self user pass plain)

-- Where the configured name holds no colon: a header passes exactly when it is `Basic ` and a text
-- that decodes to the configured name, a colon and the configured password.
pub validate_proxy_auth_lem :
    (header user pass : Bytes)
    → contains_byte b':' user ≡ false
    → (validate_proxy_auth header user pass ≡ true) ↔ IsBasic header user pass
validate_proxy_auth_lem header user pass plain =
    (validate_sound header user pass, validate_complete header user pass plain)
