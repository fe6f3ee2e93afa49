-- ===== src/Base64/Url.antt =====
-- Package encoding/base64, RawURLEncoding: the letters of URLs, and no padding.
use ech_tunnel.Base.{
  ℕ, ◌+◌, ◌-◌, ◌*◌, ◌/◌, ◌%◌, ◌<◌, ◌&&◌, ◌||◌, Bool, true, [], ◌∷◌, Option, none, some, ltb, leb,
  ◌==◌, if◌then◌else◌, Bytes, AllBytes, ◌≡◌, refl, ap, arith,
}
use mathlib.Core.Path.{ap₂}
use ech_tunnel.Base64.{quantum_one, quantum_two, quantum_three}
use ech_tunnel.Base64.RoundTrip.{regroup}

-- The letter for six bits.
encode_letter : ℕ → ℕ
encode_letter n =
    if ltb n 26
    then b'A' + n
    else if ltb n 52
    then b'a' + (n - 26)
    else if ltb n 62
    then b'0' + (n - 52)
    else if n == 62
    then b'-'
    else b'_'

decode_letter : ℕ → Option ℕ
decode_letter c =
    if leb b'A' c && leb c b'Z'
    then some (c - b'A')
    else if leb b'a' c && leb c b'z'
    then some (c - b'a' + 26)
    else if leb b'0' c && leb c b'9'
    then some (c - b'0' + 52)
    else if c == b'-'
    then some 62
    else if c == b'_'
    then some 63
    else none

unfoldable pub raw_url_encode : Bytes → Bytes
unfolding encode_letter
raw_url_encode [] = []
raw_url_encode (a ∷ []) = encode_letter (a / 4) ∷ encode_letter (a % 4 * 16) ∷ []
raw_url_encode (a ∷ b ∷ []) =
    encode_letter (a / 4) ∷ encode_letter (a % 4 * 16 + b / 16) ∷ encode_letter (b % 16 * 4) ∷ []
raw_url_encode (a ∷ b ∷ c ∷ s) =
    encode_letter (a / 4)
    ∷ encode_letter (a % 4 * 16 + b / 16)
    ∷ encode_letter (b % 16 * 4 + c / 64)
    ∷ encode_letter (c % 64)
    ∷ raw_url_encode s

-- How a server reads the text back: groups of four letters, and two or three at the end.
unfoldable pub raw_url_decode : Bytes → Option Bytes
unfolding decode_letter quantum_one quantum_two quantum_three
raw_url_decode [] = some []
raw_url_decode (a ∷ []) = none
raw_url_decode (a ∷ b ∷ []) = quantum_one (decode_letter a) (decode_letter b)
raw_url_decode (a ∷ b ∷ c ∷ []) = quantum_two (decode_letter a) (decode_letter b) (decode_letter c)
raw_url_decode (a ∷ b ∷ c ∷ d ∷ s) =
    quantum_three (decode_letter a) (decode_letter b) (decode_letter c) (decode_letter d)
      (raw_url_decode s)

decode-encode_letter : (n : ℕ) → n < 64 → decode_letter (encode_letter n) ≡ some n
unfolding decode_letter encode_letter
decode-encode_letter n h = ground arith

-- What url.QueryEscape leaves as it is: letters, digits, `-`, `_`, `.` and `~`.
abbrev pub unreserved : ℕ → Bool
unreserved c =
    leb b'A' c && leb c b'Z'
    || leb b'a' c && leb c b'z'
    || leb b'0' c && leb c b'9'
    || c == b'-'
    || c == b'_'
    || c == b'.'
    || c == b'~'

abbrev pub AllUnreserved : Bytes → Type 0
AllUnreserved [] = Unit
AllUnreserved (c ∷ s) = (unreserved c ≡ true) × AllUnreserved s

encode_letter-unreserved : (n : ℕ) → n < 64 → unreserved (encode_letter n) ≡ true
unfolding encode_letter
encode_letter-unreserved n h = ground arith

pub raw_url_encode-AllUnreserved : (s : Bytes) → AllBytes s → AllUnreserved (raw_url_encode s)
unfolding raw_url_encode
raw_url_encode-AllUnreserved [] h = tt
raw_url_encode-AllUnreserved (a ∷ []) h = (
  encode_letter-unreserved (a / 4) (omega arith),
  (encode_letter-unreserved (a % 4 * 16) (omega arith), tt),
)
raw_url_encode-AllUnreserved (a ∷ b ∷ []) h = (
  encode_letter-unreserved (a / 4) (omega arith),
  (
    encode_letter-unreserved (a % 4 * 16 + b / 16) (omega arith),
    (encode_letter-unreserved (b % 16 * 4) (omega arith), tt),
  ),
)
raw_url_encode-AllUnreserved (a ∷ b ∷ c ∷ s) (ha, (hb, (hc, hs))) = (
  encode_letter-unreserved (a / 4) (omega arith),
  (
    encode_letter-unreserved (a % 4 * 16 + b / 16) (omega arith),
    (
      encode_letter-unreserved (b % 16 * 4 + c / 64) (omega arith),
      (encode_letter-unreserved (c % 64) (omega arith), raw_url_encode-AllUnreserved s hs),
    ),
  ),
)

-- Decoding an encoded byte string gives it back.
pub raw_url_decode-encode : (s : Bytes) → AllBytes s → raw_url_decode (raw_url_encode s) ≡ some s
unfolding raw_url_decode raw_url_encode quantum_one quantum_two quantum_three
raw_url_decode-encode [] h = refl
raw_url_decode-encode (a ∷ []) h = rw (decode-encode_letter (a / 4) (omega arith)) (
    rw (decode-encode_letter (a % 4 * 16) (omega arith))
      (ap (λ (n : ℕ). some (n ∷ [])) (omega arith)))
raw_url_decode-encode (a ∷ b ∷ []) (ha, (hb, _)) =
    let (ea, eb, _) = regroup a b 0 ha hb (omega arith) in
    rw (decode-encode_letter (a / 4) (omega arith)) (
      rw (decode-encode_letter (a % 4 * 16 + b / 16) (omega arith)) (
        rw (decode-encode_letter (b % 16 * 4) (omega arith))
          (ap₂ (λ (x y : ℕ). some (x ∷ y ∷ [])) ea (omega (arith, eb)))))
raw_url_decode-encode (a ∷ b ∷ c ∷ s) (ha, (hb, (hc, hs))) =
    let (ea, eb, ec) = regroup a b c ha hb hc in
    rw (decode-encode_letter (a / 4) (omega arith)) (
      rw (decode-encode_letter (a % 4 * 16 + b / 16) (omega arith)) (
        rw (decode-encode_letter (b % 16 * 4 + c / 64) (omega arith)) (
          rw (decode-encode_letter (c % 64) (omega arith))
            (rw (raw_url_decode-encode s hs) (rw (ea, eb, ec))))))
