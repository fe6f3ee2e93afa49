-- ===== src/Base64.antt =====
-- Package encoding/base64, StdEncoding: EncodeToString and DecodeString, as ech.go and
-- http_proxy.go use them.
pub mod RoundTrip
pub mod Url
use ech_tunnel.Base.{
  ℕ, ◌+◌, ◌-◌, ◌*◌, ◌/◌, ◌%◌, ◌&&◌, ◌||◌, [], ◌∷◌, Option, none, some, ltb, leb, ◌==◌,
  if◌then◌else◌, Bytes, is_empty,
}

-- The letter for six bits.
encode_sextet : ℕ → ℕ
encode_sextet n =
    if ltb n 26
    then b'A' + n
    else if ltb n 52
    then b'a' + (n - 26)
    else if ltb n 62
    then b'0' + (n - 52)
    else if n == 62
    then b'+'
    else b'/'

decode_sextet : ℕ → Option ℕ
decode_sextet c =
    if leb b'A' c && leb c b'Z'
    then some (c - b'A')
    else if leb b'a' c && leb c b'z'
    then some (c - b'a' + 26)
    else if leb b'0' c && leb c b'9'
    then some (c - b'0' + 52)
    else if c == b'+'
    then some 62
    else if c == b'/'
    then some 63
    else none

unfoldable pub encode_to_string : Bytes → Bytes
unfolding encode_sextet
encode_to_string [] = []
encode_to_string (a ∷ []) = encode_sextet (a / 4) ∷ encode_sextet (a % 4 * 16) ∷ b'=' ∷ b'=' ∷ []
encode_to_string (a ∷ b ∷ []) =
    encode_sextet (a / 4)
    ∷ encode_sextet (a % 4 * 16 + b / 16)
    ∷ encode_sextet (b % 16 * 4)
    ∷ b'='
    ∷ []
encode_to_string (a ∷ b ∷ c ∷ s) =
    encode_sextet (a / 4)
    ∷ encode_sextet (a % 4 * 16 + b / 16)
    ∷ encode_sextet (b % 16 * 4 + c / 64)
    ∷ encode_sextet (c % 64)
    ∷ encode_to_string s

-- The bytes of two, three or four sextets.
quantum_one : Option ℕ → Option ℕ → Option Bytes
quantum_one (some x) (some y) = some ((x * 4 + y / 16) ∷ [])
quantum_one _ _ = none

quantum_two : Option ℕ → Option ℕ → Option ℕ → Option Bytes
quantum_two (some x) (some y) (some z) = some ((x * 4 + y / 16) ∷ (y % 16 * 16 + z / 4) ∷ [])
quantum_two _ _ _ = none

quantum_three : Option ℕ → Option ℕ → Option ℕ → Option ℕ → Option Bytes → Option Bytes
quantum_three (some x) (some y) (some z) (some w) (some s) =
    some ((x * 4 + y / 16) ∷ (y % 16 * 16 + z / 4) ∷ (z % 4 * 64 + w) ∷ s)
quantum_three _ _ _ _ _ = none

-- Groups of four letters; padding ends the text.
decode_quanta : Bytes → Option Bytes
unfolding decode_sextet quantum_one quantum_two quantum_three
decode_quanta [] = some []
decode_quanta (a ∷ b ∷ c ∷ d ∷ s) =
    let rest = decode_quanta s in
    if d == b'=' && is_empty s
    then if c == b'='
      then quantum_one (decode_sextet a) (decode_sextet b)
      else quantum_two (decode_sextet a) (decode_sextet b) (decode_sextet c)
    else quantum_three (decode_sextet a) (decode_sextet b) (decode_sextet c) (decode_sextet d) rest
decode_quanta _ = none

-- Line breaks are skipped.
without_breaks : Bytes → Bytes
without_breaks [] = []
without_breaks (c ∷ s) =
    let rest = without_breaks s in if c == b'\n' || c == b'\r' then rest else c ∷ rest

unfoldable pub decode_string : Bytes → Option Bytes
unfolding decode_quanta without_breaks
decode_string s = decode_quanta (without_breaks s)
