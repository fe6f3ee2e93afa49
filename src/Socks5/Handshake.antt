-- ===== src/Socks5/Handshake.antt =====
-- socks5.go: the SOCKS5 conversation on the TCP connection, from behind the version byte to the
-- command: `handleSOCKS5Protocol`, `handleSOCKS5UserPassAuth` and `handleSOCKS5Request`, with
-- `ProxyConfig` of proxy.go.
pub mod Auth
pub mod Accepted
use ech_tunnel.Base.{
  ℕ, ◌+◌, ◌*◌, Bool, true, false, not, ◌||◌, ◌&&◌, List, [], ◌∷◌, ◌++◌, ltb, ◌==◌, if◌then◌else◌,
  Bytes, bytes_eq, take, drop, length, is_empty, replicate,
}
use ech_tunnel.Net.{ip_string}
use ech_tunnel.Socks5.{ipv4_addr, domain_addr, ipv6_addr, target_text}

pub record ProxyConfig : Type 0 where
  pub username : Bytes
  pub password : Bytes
  pub host : Bytes

-- A stretch of the conversation: the writes tried, in order, and, unless a handler returned early,
-- its result and the input left. The input is all that the client will send before it closes.
pub data Flow {ℓ} (A : Type ℓ) : Type ℓ where
  stop : List Bytes → Flow A
  go : List Bytes → A → Bytes → Flow A

abbrev pub more_writes {ℓ} : {A : Type ℓ} → List Bytes → Flow A → Flow A
more_writes w (stop v) = stop (w ++ v)
more_writes w (go v a s) = go (w ++ v) a s

abbrev pub resume {ℓ κ} : {A : Type ℓ} {B : Type κ} → Flow A → (A → Bytes → Flow B) → Flow B
resume (stop w) f = stop w
resume (go w a s) f = more_writes w (f a s)

infixl 5 ◌>>=◌ ◌>>◌
abbrev pub ◌>>=◌ {ℓ κ} :
    {A : Type ℓ} {B : Type κ} → (Bytes → Flow A) → (A → Bytes → Flow B) → Bytes → Flow B
(m >>= f) s = resume (m s) f

abbrev pub ◌>>◌ {ℓ} : {B : Type ℓ} → (Bytes → Flow (Unit {0})) → (Bytes → Flow B) → Bytes → Flow B
m >> k = m >>= λ _. k

abbrev pub give {ℓ} : {A : Type ℓ} → A → Bytes → Flow A
give a s = go [] a s

-- io.ReadFull of one byte and of `n` bytes
abbrev pub read_byte : Bytes → Flow ℕ
read_byte [] = stop []
read_byte (x ∷ s) = go [] x s

unfoldable pub read_full : ℕ → Bytes → Flow Bytes
read_full n s = if ltb (length s) n then stop [] else go [] (take n s) (drop n s)

-- conn.Write: `write_ok` says whether it succeeds.
unfoldable pub write : (Bytes → Bool) → Bytes → Bytes → Flow (Unit {0})
write write_ok b s = if write_ok b then go (b ∷ []) tt s else stop (b ∷ [])

abbrev pub require : Bool → Bytes → Flow (Unit {0})
require true s = go [] tt s
require false s = stop []

abbrev no_auth : ℕ
no_auth = 0

abbrev pub user_pass_auth : ℕ
user_pass_auth = 2

abbrev no_acceptable : ℕ
no_acceptable = 0xff

-- `for _, m := range methods { if m == UserPassAuth { found = true; break } }`
abbrev pub offers : List ℕ → Bool
offers [] = false
offers (m ∷ ms) = m == user_pass_auth || offers ms

unfoldable pub choose_method : ProxyConfig → Bytes → ℕ
choose_method config methods =
    if not (is_empty config.username) && not (is_empty config.password)
    then (if offers methods then user_pass_auth else no_acceptable)
    else no_auth

unfoldable pub handle_user_pass_auth : (Bytes → Bool) → ProxyConfig → Bytes → Flow (Unit {0})
handle_user_pass_auth write_ok config = do
  version ← read_byte
  user_len ← read_byte
  require (version == 1)
  user ← read_full user_len
  pass_len ← read_byte
  pass ← read_full pass_len
  let same = bytes_eq user config.username && bytes_eq pass config.password
  write write_ok (1 ∷ (if same then 0 else 1) ∷ [])
  require same

-- What handleSOCKS5Request goes on with.
pub data Request : Type 0 where
  connect udp_associate : Bytes → Request

unfoldable pub error_response : ℕ → Bytes
error_response status = 5 ∷ status ∷ 0 ∷ 1 ∷ replicate 6 0

abbrev command_not_supported : ℕ
command_not_supported = 7

abbrev address_type_not_supported : ℕ
address_type_not_supported = 8

-- The response that refuses, and nothing more, whether or not its write succeeds.
refuse : ℕ → Bytes → Flow Request
unfolding error_response
refuse status s = stop (error_response status ∷ [])

request_host : ℕ → Bytes → Flow Bytes
request_host atyp =
    if atyp == ipv4_addr
    then (do ip ← read_full 4; give (ip_string ip))
    else if atyp == domain_addr
    then (do size ← read_byte; read_full size)
    else (do ip ← read_full 16; give (ip_string ip))

request_command : ℕ → Bytes → Bytes → Flow Request
unfolding refuse
request_command command target =
    if command == 1
    then give (connect target)
    else if command == 3
    then give (udp_associate target)
    else refuse command_not_supported

request_target : ℕ → ℕ → Bytes → Flow Request
unfolding request_host request_command
request_target atyp command = do
  host ← request_host atyp
  high ← read_byte
  low ← read_byte
  request_command command (target_text atyp host (high * 256 + low))

unfoldable pub handle_request : Bytes → Flow Request
unfolding request_target refuse
handle_request = do
  version ← read_byte
  command ← read_byte
  reserved ← read_byte
  atyp ← read_byte
  require (version == 5)
  let known = atyp == ipv4_addr || atyp == domain_addr || atyp == ipv6_addr
  if known then request_target atyp command else refuse address_type_not_supported

unfoldable pub handle_socks5_protocol : (Bytes → Bool) → ProxyConfig → Bytes → Flow Request
unfolding choose_method handle_user_pass_auth handle_request
handle_socks5_protocol write_ok config = do
  n_methods ← read_byte
  methods ← read_full n_methods
  let method = choose_method config methods
  write write_ok (5 ∷ method ∷ [])
  require (not (method == no_acceptable))
  (if method == user_pass_auth then handle_user_pass_auth write_ok config else give tt)
  handle_request
