-- ===== src/Ech/Record.antt =====
-- HTTPS records as RFC 9460 lays them out, and what `parseHTTPSRecord` finds in them.
use ech_tunnel.Base.{
  ℕ, zero, suc, ◌+◌, ◌-◌, ◌/◌, ◌%◌, ◌<◌, true, false, List, [], ◌∷◌, ◌++◌, ◌≡◌, ap, ◌∙◌, arith, ltb,
  leb, ◌==◌, if◌then◌else◌, Bytes, length,
}
use ech_tunnel.Base64.{encode_to_string}
use ech_tunnel.Ech.{
  done, uint16, skip_name, target_name, svc_params, parse_https_record, label_bytes,
}
use ech_tunnel.Ech.View.{
  At, At-start, At-append, At-index, At-uint16, At-slice, AllLabels, skip_labels-At,
}

-- SvcParams: a key and a value each.
abbrev pub Params : Type 0
Params = List (ℕ × Bytes)

abbrev pub AllParams : Params → Type 0
AllParams [] = Unit
AllParams ((key, value) ∷ ps) = (key < 65536) × (length value < 65536) × AllParams ps

-- The four bytes before a value.
abbrev param_head : ℕ → ℕ → Bytes
param_head key size = key / 256 ∷ key % 256 ∷ size / 256 ∷ size % 256 ∷ []

unfoldable pub param_bytes : Params → Bytes
param_bytes [] = []
param_bytes ((key, value) ∷ ps) = param_head key (length value) ++ (value ++ param_bytes ps)

-- The value of the first parameter with key 5, in base64; empty if there is none.
unfoldable pub first_ech : Params → Bytes
first_ech [] = []
first_ech ((key, value) ∷ ps) = if key == 5 then encode_to_string value else first_ech ps

unfoldable pub https_record : ℕ → List Bytes → Params → Bytes
https_record priority target ps =
    (priority / 256 ∷ priority % 256 ∷ []) ++ (label_bytes target ++ 0 ∷ param_bytes ps)

svc_params-At :
    (fuel : ℕ) (d : Bytes) (offset : ℕ) (ps : Params)
    → length d - offset < fuel
    → AllParams ps
    → At d offset (param_bytes ps)
    → svc_params fuel d offset ≡ done (first_ech ps)
unfolding svc_params param_bytes first_ech
svc_params-At zero d offset ps h all a = absurd (omega arith)
svc_params-At (suc fuel) d offset [] h all a =
    let over : leb (offset + 4) (length d) ≡ false = ground (arith, a.within) in rw over
svc_params-At (suc fuel) d offset ((key, value) ∷ ps) h (small, short, all) a =
    let size = length value in
    let behind = At-append d offset (param_head key size) (value ++ param_bytes ps) a in
    let last = At-append d (offset + 4) value (param_bytes ps) behind in
    let inside : leb (offset + 4) (length d) ≡ true = ground (arith, a.within) in
    let fits : ltb (length d) (offset + 4 + size) ≡ false = ground (arith, last.within) in
    let ek : uint16 d offset ≡ done key = At-uint16 d offset _ _ _ a ∙ ap done (omega arith) in
    let middle = At-append d offset (key / 256 ∷ key % 256 ∷ []) _ a in
    let es : uint16 d (offset + 2) ≡ done size =
      At-uint16 d (offset + 2) _ _ _ middle ∙ ap done (omega arith) in
    let ev = At-slice d (offset + 4) value (param_bytes ps) behind in
    let ih = svc_params-At fuel d (offset + 4 + size) ps (omega (arith, a.within)) all last in
    rw inside (rw (ek, es) (rw fits (rw ev (rw ih (ground arith)))))

pub skip_name-At :
    (d : Bytes) (offset : ℕ) (ls : List Bytes) (s : Bytes)
    → AllLabels ls
    → At d offset (label_bytes ls ++ 0 ∷ s)
    → skip_name d offset ≡ done (offset + length (label_bytes ls) + 1)
skip_name-At d offset ls s all a =
    rw (skip_labels-At (suc (length d)) d offset ls s (omega arith) all a)

target_name-At :
    (d : Bytes) (ls : List Bytes) (s : Bytes)
    → AllLabels ls
    → At d 2 (label_bytes ls ++ 0 ∷ s)
    → target_name d ≡ done (2 + length (label_bytes ls) + 1)
unfolding target_name label_bytes
target_name-At d [] s all a =
    let inside : ltb 2 (length d) ≡ true = ground (arith, a.within) in
    rw (inside, At-index d 2 0 s a)
target_name-At d (l ∷ ls) s (full, short, all) a =
    let inside : ltb 2 (length d) ≡ true = ground (arith, a.within) in
    let label : (length l % 256 == 0) ≡ false = ground arith in
    rw (inside, At-index d 2 _ _ a) (rw (label, skip_name-At d 2 (l ∷ ls) s (full, short, all) a))

whole :
    (priority : ℕ) (target : List Bytes) (ps : Params)
    → At
        (https_record priority target ps)
        0
        ((priority / 256 ∷ priority % 256 ∷ []) ++ (label_bytes target ++ 0 ∷ param_bytes ps))
unfolding https_record
whole priority target ps = At-start _

-- On a record of a priority, a target name and parameters, parseHTTPSRecord returns the value of
-- the first parameter with key 5, in base64, and the empty text if there is none.
pub parse_https_record-https_record :
    (priority : ℕ) (target : List Bytes) (ps : Params)
    → AllLabels target
    → AllParams ps
    → parse_https_record (https_record priority target ps) ≡ done (first_ech ps)
unfolding parse_https_record
parse_https_record-https_record priority target ps labels params =
    let d = https_record priority target ps in
    let name = label_bytes target in
    let a : At d 2 (name ++ 0 ∷ param_bytes ps) =
      At-append d 0 (priority / 256 ∷ priority % 256 ∷ []) _ (whole priority target ps) in
    let b = At-append d 2 name (0 ∷ param_bytes ps) a in
    let c = At-append d (2 + length name) (0 ∷ []) (param_bytes ps) b in
    let long : ltb (length d) 2 ≡ false = ground (arith, a.within) in
    rw (long, target_name-At d target (param_bytes ps) labels a)
      (svc_params-At (suc (length d)) d (2 + length name + 1) ps (omega arith) params c)
