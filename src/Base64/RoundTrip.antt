-- ===== src/Base64/RoundTrip.antt =====
-- Encoding and decoding together.
use ech_tunnel.Base.{
  ℕ, ◌+◌, ◌*◌, ◌/◌, ◌%◌, ◌<◌, ◌||◌, false, [], ◌∷◌, some, ◌≡◌, refl, arith, ◌==◌, Bytes, AllBytes,
  Option, ap, is_empty,
}
use ech_tunnel.Base64.{
  encode_sextet, decode_sextet, encode_to_string, quantum_three, decode_quanta, without_breaks,
  decode_string,
}
use mathlib.Core.Path.{ap₂}

decode-encode_sextet : (n : ℕ) → n < 64 → decode_sextet (encode_sextet n) ≡ some n
unfolding decode_sextet encode_sextet
decode-encode_sextet n h = ground arith

-- No letter is padding or a line break.
encode_sextet_letter :
    (n : ℕ)
    → n < 64
    → ((encode_sextet n == b'=') ≡ false)
      × ((encode_sextet n == b'\n' || encode_sextet n == b'\r') ≡ false)
unfolding encode_sextet
encode_sextet_letter n h = ground arith

-- Three bytes as four sextets, and back.
pub regroup :
    (a b c : ℕ)
    → a < 256
    → b < 256
    → c < 256
    → (a / 4 * 4 + (a % 4 * 16 + b / 16) / 16 ≡ a)
      × ((a % 4 * 16 + b / 16) % 16 * 16 + (b % 16 * 4 + c / 64) / 4 ≡ b)
      × ((b % 16 * 4 + c / 64) % 4 * 64 + c % 64 ≡ c)
regroup a b c ha hb hc = (omega arith, omega arith, omega arith)

one_quantum :
    (a b c : ℕ) (rest : Option Bytes) (s : Bytes)
    → a < 256
    → b < 256
    → c < 256
    → rest ≡ some s
    → quantum_three
        (decode_sextet (encode_sextet (a / 4)))
        (decode_sextet (encode_sextet (a % 4 * 16 + b / 16)))
        (decode_sextet (encode_sextet (b % 16 * 4 + c / 64)))
        (decode_sextet (encode_sextet (c % 64)))
        rest
      ≡ some (a ∷ b ∷ c ∷ s)
unfolding quantum_three
one_quantum a b c rest s ha hb hc e =
    let (ea, eb, ec) = regroup a b c ha hb hc in
    rw (decode-encode_sextet (a / 4) (omega arith)) (
      rw (decode-encode_sextet (a % 4 * 16 + b / 16) (omega arith)) (
        rw (decode-encode_sextet (b % 16 * 4 + c / 64) (omega arith))
          (rw (decode-encode_sextet (c % 64) (omega arith)) (rw (e, ea, eb, ec)))))

decode_quanta-encode : (s : Bytes) → AllBytes s → decode_quanta (encode_to_string s) ≡ some s
unfolding decode_quanta encode_to_string
decode_quanta-encode [] h = refl
decode_quanta-encode (a ∷ []) h = rw (decode-encode_sextet (a / 4) (omega arith)) (
    rw (decode-encode_sextet (a % 4 * 16) (omega arith))
      (ap (λ (n : ℕ). some (n ∷ [])) (omega arith)))
decode_quanta-encode (a ∷ b ∷ []) (ha, (hb, _)) =
    let (letter, _) = encode_sextet_letter (b % 16 * 4) (omega arith) in
    let (ea, eb, _) = regroup a b 0 ha hb (omega arith) in
    rw letter (
      rw (decode-encode_sextet (a / 4) (omega arith)) (
        rw (decode-encode_sextet (a % 4 * 16 + b / 16) (omega arith)) (
          rw (decode-encode_sextet (b % 16 * 4) (omega arith))
            (ap₂ (λ (x y : ℕ). some (x ∷ y ∷ [])) ea (omega (arith, eb))))))
decode_quanta-encode (a ∷ b ∷ c ∷ s) (ha, (hb, (hc, hs))) =
    let (letter, _) = encode_sextet_letter (c % 64) (omega arith) in
    rw letter (one_quantum a b c _ s ha hb hc (decode_quanta-encode s hs))

without_break :
    (n : ℕ) (s : Bytes)
    → n < 64
    → without_breaks (encode_sextet n ∷ s) ≡ encode_sextet n ∷ without_breaks s
unfolding without_breaks
without_break n s h = let (_, plain) = encode_sextet_letter n h in rw plain

without_breaks-encode :
    (s : Bytes) → AllBytes s → without_breaks (encode_to_string s) ≡ encode_to_string s
unfolding encode_to_string
without_breaks-encode [] h = unfold without_breaks in refl
without_breaks-encode (a ∷ []) h =
    rw (without_break (a / 4) _ (omega arith))
      (rw (without_break (a % 4 * 16) _ (omega arith)) (unfold without_breaks in refl))
without_breaks-encode (a ∷ b ∷ []) h = rw (without_break (a / 4) _ (omega arith)) (
    rw (without_break (a % 4 * 16 + b / 16) _ (omega arith))
      (rw (without_break (b % 16 * 4) _ (omega arith)) (unfold without_breaks in refl)))
without_breaks-encode (a ∷ b ∷ c ∷ s) (ha, (hb, (hc, hs))) =
    rw (without_break (a / 4) _ (omega arith)) (
      rw (without_break (a % 4 * 16 + b / 16) _ (omega arith)) (
        rw (without_break (b % 16 * 4 + c / 64) _ (omega arith))
          (rw (without_break (c % 64) _ (omega arith)) (rw (without_breaks-encode s hs)))))

-- Decoding an encoded byte string gives it back.
pub decode-encode : (s : Bytes) → AllBytes s → decode_string (encode_to_string s) ≡ some s
unfolding decode_string
decode-encode s h = rw (without_breaks-encode s h) (decode_quanta-encode s h)

-- Only the empty byte string is encoded as the empty text.
pub encode-ne-nil : (a : ℕ) (s : Bytes) → is_empty (encode_to_string (a ∷ s)) ≡ false
unfolding encode_to_string
encode-ne-nil a [] = refl
encode-ne-nil a (b ∷ []) = refl
encode-ne-nil a (b ∷ c ∷ s) = refl
