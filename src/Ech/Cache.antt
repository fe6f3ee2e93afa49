-- ===== src/Ech/Cache.antt =====
-- ech.go: prepareECH, which fills the cache of the ECH configuration list, refreshECH, which is
-- prepareECH again, and getECHList.
use ech_tunnel.Base.{
  ℕ, zero, suc, ◌<◌, true, false, List, [], ◌∷◌, ◌++◌, Option, none, some, ◌≡◌, ap, arith, ◌==◌,
  if◌then◌else◌, Bytes, AllBytes, length, is_empty, split, replicate, length-append, Bool-cases,
  inl, inr,
}
use ech_tunnel.Base64.{encode_to_string, decode_string}
use ech_tunnel.Base64.RoundTrip.{decode-encode, encode-ne-nil}
use ech_tunnel.Ech.{done, found, parse_dns_response, parse_https_record}
use ech_tunnel.Ech.Total.{parse_https_record_total}
use ech_tunnel.Ech.View.{AllLabels}
use ech_tunnel.Ech.Record.{
  Params, AllParams, first_ech, https_record, parse_https_record-https_record,
}
use ech_tunnel.Ech.Response.{
  Answer, Header, AllAnswers, ech_of, first_https, response, parse_dns_response-response,
}

-- What queryDoH makes of the body of a response; `none` stands for its errors, those of the request
-- among them.
unfoldable pub query_result : Option Bytes → Option Bytes
query_result none = none
query_result (some body) = elim (parse_dns_response body) [
  | done r ↦ (elim r [ found ech ↦ some ech | _ ↦ none ])
  | _ ↦ none
]

-- The loop of prepareECH over the bodies that its queries bring; the result is what it stores in
-- `echList`, and `none` says that it is still trying.
unfoldable pub prepare_ech : List (Option Bytes) → Option Bytes
prepare_ech [] = none
prepare_ech (body ∷ bodies) =
    let again = prepare_ech bodies in
    elim (query_result body) [
      | none ↦ again
      | some ech ↦
          if is_empty ech
          then again
          else elim (decode_string ech) [ none ↦ again | some raw ↦ some raw ]
    ]

-- refreshECH
unfoldable pub refresh_ech : List (Option Bytes) → Option Bytes
refresh_ech bodies = prepare_ech bodies

-- getECHList on the cached list; `none` is its error.
unfoldable pub get_ech_list : Bytes → Option Bytes
get_ech_list ech_list = if is_empty ech_list then none else some ech_list

-- An answer is an HTTPS record of a priority, a target name and parameters.
abbrev pub HttpsAnswer : Answer → ℕ → List Bytes → Params → Type 0
HttpsAnswer a priority target ps = (a.rr_type ≡ 65) × (a.rdata ≡ https_record priority target ps)

-- Something that is found in an HTTPS record is the result.
full_found :
    (x : Answer) (xs : List Answer)
    → (x.rr_type == 65) ≡ true
    → is_empty (ech_of x.rdata) ≡ false
    → ¬ (first_https (x ∷ xs) ≡ [])
unfolding first_https
full_found x xs typed full nothing =
    let empty : ech_of x.rdata ≡ [] = rw (typed, full) at nothing in
    absurd (ground (arith, full, ap is_empty empty))

module _ (a : Answer) (priority : ℕ) (target : List Bytes) (ps : Params) (b : ℕ) (config : Bytes)
    (https : HttpsAnswer a priority target ps) (labels : AllLabels target) (params : AllParams ps)
    (bytes : AllBytes (b ∷ config)) (holds : first_ech ps ≡ encode_to_string (b ∷ config)) where
  ech_of_answer : ech_of a.rdata ≡ encode_to_string (b ∷ config)
  ech_of_answer = cc (
    ap parse_https_record https.1,
    (parse_https_record_total a.rdata).1,
    parse_https_record-https_record priority target ps labels params,
    holds,
  )

  first_found : (xs : List Answer) → first_https (a ∷ xs) ≡ encode_to_string (b ∷ config)
  unfolding first_https
  first_found xs =
      let full : is_empty (ech_of a.rdata) ≡ false = rw ech_of_answer (encode-ne-nil b config) in
      let typed : (a.rr_type == 65) ≡ true = ground (arith, https.0) in
      rw (typed, full) ech_of_answer

  -- The answers before it in which nothing is found do not matter.
  found_behind :
      (earlier later : List Answer)
      → first_https earlier ≡ []
      → first_https (earlier ++ a ∷ later) ≡ encode_to_string (b ∷ config)
  unfolding first_https
  found_behind [] later nothing = first_found later
  found_behind (x ∷ earlier) later nothing =
      let ih = found_behind earlier later in
      elim (Bool-cases (x.rr_type == 65)) [
        | inr other ↦ rw other (ih (rw other at nothing))
        | inl typed ↦ elim (Bool-cases (is_empty (ech_of x.rdata))) [
          | inl empty ↦ rw (typed, empty) (ih (rw (typed, empty) at nothing))
          | inr full ↦ absurd (full_found x earlier typed full nothing)
        ]
      ]

  module _ (h : Header) (domain : Bytes) (earlier later : List Answer) (tail : Bytes)
      (bodies : List (Option Bytes)) (labels_ok : AllLabels (split b'.' domain))
      (nothing : first_https earlier ≡ []) (answers_ok : AllAnswers (earlier ++ a ∷ later))
      (few : length (earlier ++ a ∷ later) < 65536) where
    abbrev body : Bytes
    body = response h domain (earlier ++ a ∷ later) tail

    queried : query_result (some body) ≡ some (encode_to_string (b ∷ config))
    unfolding query_result
    queried =
        let some_answers : 0 < length (earlier ++ a ∷ later) =
          omega (arith, length-append earlier (a ∷ later)) in
        let parsed =
          parse_dns_response-response h domain (earlier ++ a ∷ later) tail labels_ok answers_ok
            some_answers few in
        rw (parsed, query_result) (rw (found_behind earlier later nothing))

    prepared : prepare_ech (some body ∷ bodies) ≡ some (b ∷ config)
    unfolding prepare_ech
    prepared =
        rw (queried, prepare_ech)
          (rw (encode-ne-nil b config) (rw (decode-encode (b ∷ config) bytes)))

    -- However many queries fail before it, a response to the program's own query with an HTTPS
    -- record that has a non-empty ECH parameter ends prepareECH, where nothing is found in the
    -- answers before it, and the list that it caches is that parameter's value, byte for byte. The
    -- answers are well formed, fewer than 65536, and the labels of the domain and of the target
    -- name are not empty and shorter than 256 bytes.
    pub prepare_ech-response :
        (failures : ℕ)
        → prepare_ech (replicate failures none ++ some body ∷ bodies) ≡ some (b ∷ config)
    unfolding prepare_ech query_result
    prepare_ech-response zero = prepared
    prepare_ech-response (suc n) = prepare_ech-response n
