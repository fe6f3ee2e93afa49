-- ===== src/Ech.antt =====
-- ech.go: the DNS query for the HTTPS record, and the search of its answer for the ECH
-- configuration list. Offsets stay below the length of the message plus 65,546, so Go's 64-bit
-- `int` does not overflow.
pub mod Total
pub mod View
pub mod Record
pub mod Response
pub mod Cache
pub mod Query
pub mod Exchange
use Prim.Native.Nat.{bit_and}
use ech_tunnel.Base.{
  ℕ, zero, suc, ◌+◌, ◌*◌, ◌/◌, ◌%◌, Bool, true, false, List, [], ◌∷◌, ◌++◌, Option, none, some, ltb,
  leb, ◌==◌, if◌then◌else◌, Bytes, codes, length, get_elem?, take, drop, split, has_prefix,
  is_empty, ◌||◌,
}
use ech_tunnel.Base64.{encode_to_string}

-- How a run of the code ends: with a value, with the panic of an index or slice out of range, or
-- not within the fuel given to a loop.
pub data Run {ℓ} (A : Type ℓ) : Type ℓ where
  done : A → Run A
  panic : Run A
  stuck : Run A

infixl 5 ◌>>=◌
abbrev pub ◌>>=◌ {ℓ κ} : {A : Type ℓ} {B : Type κ} → Run A → (A → Run B) → Run B
done a >>= f = f a
panic >>= f = panic
stuck >>= f = stuck

-- d[i]
unfoldable pub index : Bytes → ℕ → Run ℕ
index d i = elim (get_elem? d i) [ none ↦ panic | some b ↦ done b ]

-- binary.BigEndian.Uint16(d[i : i+2])
unfoldable pub uint16 : Bytes → ℕ → Run ℕ
unfolding index
uint16 d i = do high ← index d i; low ← index d (i + 1); done (high * 256 + low)

-- d[i : i+n]
unfoldable pub slice : Bytes → ℕ → ℕ → Run Bytes
slice d i n = if leb (i + n) (length d) then done (take n (drop i d)) else panic

-- `for offset < len(d) && d[offset] != 0 { offset += int(d[offset]) + 1 }`
unfoldable pub skip_labels : ℕ → Bytes → ℕ → Run ℕ
unfolding index
skip_labels zero d offset = stuck
skip_labels (suc fuel) d offset =
    let next = index d offset >>= λ b. skip_labels fuel d (offset + (b + 1)) in
    if ltb offset (length d)
    then (do b ← index d offset; if b == 0 then done offset else next)
    else done offset

-- Each round of the loop moves on by at least one byte.
abbrev pub skip_name : Bytes → ℕ → Run ℕ
skip_name d offset = do end ← skip_labels (suc (length d)) d offset; done (end + 1)

-- The loop over the SvcParams.
unfoldable pub svc_params : ℕ → Bytes → ℕ → Run Bytes
unfolding uint16 slice
svc_params zero d offset = stuck
svc_params (suc fuel) d offset =
    let next = λ (o : ℕ). svc_params fuel d o in
    if leb (offset + 4) (length d)
    then (do
      key ← uint16 d offset
      size ← uint16 d (offset + 2)
      if ltb (length d) (offset + 4 + size) then done [] else do
        value ← slice d (offset + 4) size
        if key == 5 then done (encode_to_string value) else next (offset + 4 + size))
    else done []

-- The offset behind the TargetName, which begins behind the priority.
unfoldable pub target_name : Bytes → Run ℕ
target_name d =
    if ltb 2 (length d)
    then (do b ← index d 2; if b == 0 then done 3 else skip_name d 2)
    else skip_name d 2

unfoldable pub parse_https_record : Bytes → Run Bytes
unfolding target_name
parse_https_record d =
    if ltb (length d) 2
    then done []
    else (do offset ← target_name d; svc_params (suc (length d)) d offset)

-- response[offset]&0xC0 == 0xC0
unfoldable pub is_pointer : ℕ → Bool
is_pointer b = bit_and b 0xc0 == 0xc0

-- The offset behind the NAME of an answer.
unfoldable pub answer_name : Bytes → ℕ → Run ℕ
unfolding is_pointer
answer_name d offset = do
  b ← index d offset
  if is_pointer b then done (offset + 2) else skip_name d offset

-- The loop over the answers, with the number of rounds left.
unfoldable pub answers : ℕ → Bytes → ℕ → Run Bytes
unfolding uint16 slice answer_name
answers zero d offset = done []
answers (suc rounds) d offset =
    let next = λ (o : ℕ). answers rounds d o in
    if leb (length d) offset then done [] else (do
      behind ← answer_name d offset
      if ltb (length d) (behind + 10) then done [] else do
        rr_type ← uint16 d behind
        size ← uint16 d (behind + 8)
        if ltb (length d) (behind + 10 + size) then done [] else do
          rdata ← slice d (behind + 10) size
          if rr_type == 65
              then (do
                ech ← parse_https_record rdata
                if is_empty ech then next (behind + 10 + size) else done ech)
              else next (behind + 10 + size))

-- The results of parseDNSResponse: the text, empty if there is no ECH parameter, or an error.
pub data Reply : Type 0 where
  found : Bytes → Reply
  bad_length no_answers : Reply

unfoldable pub parse_dns_response : Bytes → Run Reply
parse_dns_response d = if ltb (length d) 12 then done bad_length else do
  count ← uint16 d 6
  if count == 0 then done no_answers else do
    name ← skip_labels (suc (length d)) d 12
    ech ← answers count d (name + 5)
    done (found ech)

-- A label with the byte of its length, which wraps around.
unfoldable pub label_bytes : List Bytes → Bytes
label_bytes [] = []
label_bytes (l ∷ ls) = length l % 256 ∷ (l ++ label_bytes ls)

-- buildDNSQuery; a uint16 is its high and its low byte.
unfoldable pub build_dns_query : Bytes → ℕ → Bytes
unfolding label_bytes
build_dns_query domain qtype =
    0
    ∷ 1
    ∷ 1
    ∷ 0
    ∷ 0
    ∷ 1
    ∷ 0
    ∷ 0
    ∷ 0
    ∷ 0
    ∷ 0
    ∷ 0
    ∷ (label_bytes (split b'.' domain) ++ 0 ∷ qtype / 256 % 256 ∷ qtype % 256 ∷ 0 ∷ 1 ∷ [])

-- queryHTTPSRecord: the URL of the server.
unfoldable pub doh_url : Bytes → Bytes
doh_url server =
    if has_prefix (codes "https://") server || has_prefix (codes "http://") server
    then server
    else codes "https://" ++ server
