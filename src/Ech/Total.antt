-- ===== src/Ech/Total.antt =====
-- How the parsers of ech.go end: indexes and slices against the length, loops against their fuel.
use ech_tunnel.Base.{
  ℕ, zero, suc, ◌+◌, ◌-◌, ◌*◌, ◌≤◌, ◌<◌, [], ◌≡◌, refl, arith, ltb, leb, ◌==◌, Bytes, length,
  get_elem?_in_range, Bool-cases, inl, inr, is_empty, le→leb, take, drop,
}
use ech_tunnel.Base64.{encode_to_string}
use ech_tunnel.Ech.{
  Run, done, index, uint16, slice, skip_labels, svc_params, parse_https_record, is_pointer, answers,
  found, bad_length, no_answers, parse_dns_response, skip_name, target_name, answer_name,
}

-- The run ends with a value.
abbrev pub Returns {ℓ} : {A : Type ℓ} → Run A → Type ℓ
Returns {A = A} m = (a : A) × (m ≡ done a)

index_total : (d : Bytes) (i : ℕ) → i < length d → Returns (index d i)
unfolding index
index_total d i h = let (b, e) = get_elem?_in_range d i h in (b, rw (e, index))

uint16_total : (d : Bytes) (i : ℕ) → i + 2 ≤ length d → Returns (uint16 d i)
unfolding uint16
uint16_total d i h =
    let (high, eh) = index_total d i (omega arith) in
    let (low, el) = index_total d (i + 1) (omega arith) in (high * 256 + low, rw (eh, el))

slice_total : (d : Bytes) (i n : ℕ) → i + n ≤ length d → slice d i n ≡ done (take n (drop i d))
unfolding slice
slice_total d i n h = rw (le→leb (i + n) (length d) h)

pub skip_labels_total :
    (fuel : ℕ) (d : Bytes) (offset : ℕ)
    → length d - offset < fuel
    → (end : ℕ) × (skip_labels fuel d offset ≡ done end) × (offset ≤ end)
unfolding skip_labels
skip_labels_total zero d offset h = absurd (omega arith)
skip_labels_total (suc fuel) d offset h = elim (Bool-cases (ltb offset (length d))) [
  | inr over ↦ (offset, rw over, omega arith)
  | inl inside ↦
      let (b, e) = index_total d offset (ground arith) in
      elim (Bool-cases (b == 0)) [
        | inl last ↦ (offset, rw (inside, e) (rw last), omega arith)
        | inr more ↦
            let (end, ih, far) = skip_labels_total fuel d (offset + (b + 1)) (ground arith) in
            (end, rw (inside, e) (rw (more, ih)), omega arith)
      ]
]

skip_name_total :
    (d : Bytes) (offset : ℕ) → (end : ℕ) × (skip_name d offset ≡ done end) × (offset < end)
skip_name_total d offset =
    let (end, e, far) = skip_labels_total (suc (length d)) d offset (omega arith) in
    (end + 1, rw e, omega arith)

svc_params_total :
    (fuel : ℕ) (d : Bytes) (offset : ℕ)
    → length d - offset < fuel
    → Returns (svc_params fuel d offset)
unfolding svc_params
svc_params_total zero d offset h = absurd (omega arith)
svc_params_total (suc fuel) d offset h = elim (Bool-cases (leb (offset + 4) (length d))) [
  | inr over ↦ ([], rw over)
  | inl inside ↦
      let room : offset + 4 ≤ length d = ground arith in
      let (key, ek) = uint16_total d offset (omega arith) in
      let (size, es) = uint16_total d (offset + 2) (omega arith) in
      elim (Bool-cases (ltb (length d) (offset + 4 + size))) [
        | inl short ↦ ([], rw inside (rw (ek, es) (rw short)))
        | inr fits ↦
            let value = slice_total d (offset + 4) size (ground arith) in
            elim (Bool-cases (key == 5)) [
              | inl ech ↦ (
                encode_to_string (take size (drop (offset + 4) d)),
                rw inside (rw (ek, es) (rw fits (rw value (rw ech)))),
              )
              | inr other ↦
                  let (r, ih) = svc_params_total fuel d (offset + 4 + size) (omega arith) in
                  (r, rw inside (rw (ek, es) (rw fits (rw value (rw (other, ih))))))
            ]
      ]
]

target_name_total : (d : Bytes) → Returns (target_name d)
unfolding target_name
target_name_total d =
    let (end, es, _) = skip_name_total d 2 in
    elim (Bool-cases (ltb 2 (length d))) [
      | inr over ↦ (end, rw (over, es))
      | inl inside ↦
          let (b, e) = index_total d 2 (ground arith) in
          elim (Bool-cases (b == 0)) [
            | inl root ↦ (3, rw (inside, e) (rw root))
            | inr label ↦ (end, rw (inside, e) (rw (label, es)))
          ]
    ]

-- parseHTTPSRecord returns on every input, without a panic.
pub parse_https_record_total : (d : Bytes) → Returns (parse_https_record d)
unfolding parse_https_record
parse_https_record_total d = elim (Bool-cases (ltb (length d) 2)) [
  | inl short ↦ ([], rw short)
  | inr long ↦
      let (offset, e) = target_name_total d in
      let (r, es) = svc_params_total (suc (length d)) d offset (omega arith) in
      (r, rw (long, e) (rw es))
]

answer_name_total : (d : Bytes) (offset : ℕ) → offset < length d → Returns (answer_name d offset)
unfolding answer_name
answer_name_total d offset h =
    let (b, e) = index_total d offset h in
    elim (Bool-cases (is_pointer b)) [
      | inl pointer ↦ (offset + 2, rw e (rw pointer))
      | inr labels ↦ let (end, es, _) = skip_name_total d offset in (end, rw e (rw (labels, es)))
    ]

answers_total : (rounds : ℕ) (d : Bytes) (offset : ℕ) → Returns (answers rounds d offset)
unfolding answers
answers_total zero d offset = ([], refl)
answers_total (suc rounds) d offset = elim (Bool-cases (leb (length d) offset)) [
  | inl over ↦ ([], rw over)
  | inr inside ↦
      let (behind, en) = answer_name_total d offset (ground arith) in
      elim (Bool-cases (ltb (length d) (behind + 10))) [
        | inl short ↦ ([], rw (inside, en) (rw short))
        | inr header ↦
            let (rr_type, et) = uint16_total d behind (ground arith) in
            let (size, es) = uint16_total d (behind + 8) (ground arith) in
            let (later, ih) = answers_total rounds d (behind + 10 + size) in
            elim (Bool-cases (ltb (length d) (behind + 10 + size))) [
              | inl cut ↦ ([], rw (inside, en) (rw (header, et, es) (rw cut)))
              | inr fits ↦
                  let value = slice_total d (behind + 10) size (ground arith) in
                  let (ech, ee) = parse_https_record_total (take size (drop (behind + 10) d)) in
                  elim (Bool-cases (rr_type == 65)) [
                    | inr other ↦ (
                      later,
                      rw (inside, en) (rw (header, et, es) (rw (fits, value) (rw (other, ih)))),
                    )
                    | inl https ↦ elim (Bool-cases (is_empty ech)) [
                      | inl nothing ↦ (
                        later,
                        rw (inside, en)
                            (rw (header, et, es)
                              (rw (fits, value) (rw (https, ee) (rw (nothing, ih))))),
                      )
                      | inr something ↦ (
                        ech,
                        rw (inside, en)
                            (rw (header, et, es)
                              (rw (fits, value) (rw (https, ee) (rw something)))),
                      )
                    ]
                  ]
            ]
      ]
]

-- parseDNSResponse returns on every input, a text or one of its two errors: whatever a server sends,
-- no index or slice is out of range and every loop ends.
pub parse_dns_response_total : (d : Bytes) → Returns (parse_dns_response d)
unfolding parse_dns_response
parse_dns_response_total d = elim (Bool-cases (ltb (length d) 12)) [
  | inl short ↦ (bad_length, rw short)
  | inr long ↦
      let (count, ec) = uint16_total d 6 (ground arith) in
      elim (Bool-cases (count == 0)) [
        | inl nothing ↦ (no_answers, rw (long, ec) (rw nothing))
        | inr some_answers ↦
            let (name, en, _) = skip_labels_total (suc (length d)) d 12 (omega arith) in
            let (ech, ea) = answers_total count d (name + 5) in
            (found ech, rw (long, ec) (rw (some_answers, en, ea)))
      ]
]
