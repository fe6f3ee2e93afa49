-- ===== src/Ech/Response.antt =====
-- DNS responses as RFC 1035 lays them out, and what `parseDNSResponse` finds in them.

use ech_tunnel.Base.{
  ℕ, zero, suc, ◌+◌, ◌/◌, ◌%◌, ◌<◌, Bool, true, false, List, [], ◌∷◌, ◌++◌, ◌≡◌, refl, ap, ◌∙◌,
  arith, ltb, leb, ◌==◌, if◌then◌else◌, Bytes, length, length-append, drop, is_empty, split,
  append_assoc,
}
use mathlib.Core.Path.{subst}
use ech_tunnel.Ech.{
  done, uint16, skip_name, is_pointer, answer_name, answers, label_bytes, found, parse_dns_response,
  build_dns_query,
}
use ech_tunnel.Ech.Total.{parse_https_record_total}
use ech_tunnel.Ech.View.{
  At, At-start, At-append, At-index, At-uint16, At-slice, AllLabels, skip_labels-At,
}
use ech_tunnel.Ech.Record.{skip_name-At}

-- The NAME of an answer: a pointer into the message, or labels of its own up to the root. A name
-- that begins with labels and goes on with a pointer is neither.
pub data Name : Type 0 where
  pointer : ℕ → Name
  labels : List Bytes → Name

pub record Answer : Type 0 where
  pub name : Name
  pub rr_type : ℕ
  pub rr_class : ℕ
  pub ttl : ℕ
  pub rdata : Bytes

-- What the header of a response holds besides the counts of questions and answers: the identifier,
-- the flags with the response code, and the counts of the two sections behind the answers.
pub record Header : Type 0 where
  pub id : ℕ
  pub flags : ℕ
  pub authorities : ℕ
  pub additionals : ℕ

-- A pointer's first byte is at least 192, a label's first byte less.
abbrev pub FirstIsShort : List Bytes → Type 0
FirstIsShort [] = Unit
FirstIsShort (l ∷ ls) = length l < 64

abbrev pub IsName : Name → Type 0
IsName (pointer n) = n < 16384
IsName (labels ls) = AllLabels ls × FirstIsShort ls

abbrev pub AllAnswers : List Answer → Type 0
AllAnswers [] = Unit
AllAnswers (a ∷ rest) =
    IsName a.name × (a.rr_type < 65536) × (length a.rdata < 65536) × AllAnswers rest

name_bytes : Name → Bytes
name_bytes (pointer n) = (192 + n / 256) ∷ n % 256 ∷ []
name_bytes (labels ls) = label_bytes ls ++ 0 ∷ []

-- A number in 16 bits.
abbrev word : ℕ → Bytes
word n = n / 256 ∷ n % 256 ∷ []

-- TYPE, CLASS and TTL.
abbrev kind_bytes : Answer → Bytes
kind_bytes a = word a.rr_type ++ (word a.rr_class ++ (word (a.ttl / 65536) ++ word (a.ttl % 65536)))

-- TYPE, CLASS, TTL and RDLENGTH.
abbrev answer_head : Answer → Bytes
answer_head a = kind_bytes a ++ word (length a.rdata)

-- The answers, and what follows them.
answer_bytes : List Answer → Bytes → Bytes
unfolding name_bytes
answer_bytes [] tail = tail
answer_bytes (a ∷ rest) tail =
    name_bytes a.name ++ (answer_head a ++ (a.rdata ++ answer_bytes rest tail))

-- What the record of one answer gives, and the first of the answers of type HTTPS that gives
-- something.
abbrev pub ech_of : Bytes → Bytes
ech_of rdata = (parse_https_record_total rdata).0

unfoldable pub first_https : List Answer → Bytes
first_https [] = []
first_https (a ∷ rest) =
    let ech = ech_of a.rdata in
    let later = first_https rest in
    if a.rr_type == 65 then (if is_empty ech then later else ech) else later

-- Below `n`, a byte of 192 more is a pointer's first byte, and the byte itself is not.
top_bits_tell : ℕ → Bool
unfolding is_pointer
top_bits_tell zero = true
top_bits_tell (suc n) =
    let below = top_bits_tell n in
    if is_pointer n then false else if is_pointer (192 + n) then below else false

pointer_or_label :
    (n b : ℕ)
    → b < n
    → top_bits_tell n ≡ true
    → (is_pointer (192 + b) ≡ true) × (is_pointer b ≡ false)
unfolding top_bits_tell
pointer_or_label zero b h all = absurd (omega arith)
pointer_or_label (suc n) b h all = ground (arith, pointer_or_label n b)

six_bits : top_bits_tell 64 ≡ true
unfolding top_bits_tell is_pointer
six_bits = refl

is_pointer_high : (n : ℕ) → n < 64 → is_pointer (192 + n) ≡ true
is_pointer_high n h = (pointer_or_label 64 n h six_bits).0

is_pointer_low : (n : ℕ) → n < 64 → is_pointer n ≡ false
is_pointer_low n h = (pointer_or_label 64 n h six_bits).1

-- The first byte of a name in labels is no pointer.
first_label :
    (d : Bytes) (offset : ℕ) (ls : List Bytes) (s : Bytes)
    → AllLabels ls
    → FirstIsShort ls
    → At d offset (label_bytes ls ++ 0 ∷ s)
    → answer_name d offset ≡ skip_name d offset
unfolding answer_name label_bytes
first_label d offset [] s all short a = rw (At-index d offset 0 s a)
first_label d offset (l ∷ ls) s all short a =
    rw (At-index d offset _ _ a) (rw (is_pointer_low (length l % 256) (omega arith)))

answer_name-At :
    (d : Bytes) (offset : ℕ) (n : Name) (s : Bytes)
    → IsName n
    → At d offset (name_bytes n ++ s)
    → answer_name d offset ≡ done (offset + length (name_bytes n))
unfolding answer_name name_bytes
answer_name-At d offset (pointer n) s h a =
    rw (At-index d offset (192 + n / 256) _ a) (rw (is_pointer_high (n / 256) (omega arith)))
answer_name-At d offset (labels ls) s (all, short) a =
    let b : At d offset (label_bytes ls ++ 0 ∷ s) = rw (append_assoc (label_bytes ls)) at a in
    rw (first_label d offset ls s all short b) (
      rw (skip_name-At d offset ls s all b)
        (ap done (omega (arith, length-append (label_bytes ls) (0 ∷ [])))))

answers-At :
    (d : Bytes) (offset : ℕ) (xs : List Answer) (tail : Bytes)
    → AllAnswers xs
    → At d offset (answer_bytes xs tail)
    → answers (length xs) d offset ≡ done (first_https xs)
unfolding answers answer_bytes first_https
answers-At d offset [] tail all a = refl
answers-At d offset (x ∷ rest) tail (named, typed, short, all) a =
    let size = length x.rdata in
    let name = name_bytes x.name in
    let behind = offset + length name in
    let after : Bytes = x.rdata ++ answer_bytes rest tail in
    let b = At-append d offset name (answer_head x ++ after) a in
    let c = At-append d behind (answer_head x) after b in
    let e = At-append d (behind + 10) x.rdata (answer_bytes rest tail) c in
    let inside : leb (length d) offset ≡ false = ground (arith, b.within) in
    let header : ltb (length d) (behind + 10) ≡ false = ground (arith, c.within) in
    let fits : ltb (length d) (behind + 10 + size) ≡ false = ground (arith, e.within) in
    let et : uint16 d behind ≡ done x.rr_type =
      At-uint16 d behind _ _ _ b ∙ ap done (omega arith) in
    let middle = At-append d behind (kind_bytes x) (word size ++ after) b in
    let es : uint16 d (behind + 8) ≡ done size =
      At-uint16 d (behind + 8) _ _ _ middle ∙ ap done (omega arith) in
    let ev = At-slice d (behind + 10) x.rdata (answer_bytes rest tail) c in
    let ih = answers-At d (behind + 10 + size) rest tail all e in
    let ee = (parse_https_record_total x.rdata).1 in
    rw (inside, answer_name-At d offset x.name _ named a)
      (rw (header, et, es) (rw (fits, ev) (rw (ee, ih) (ground arith))))

-- The header, with one question and `count` answers.
abbrev header_bytes : Header → ℕ → Bytes
header_bytes h count =
    word h.id
    ++ (word h.flags ++ (word 1 ++ (word count ++ (word h.authorities ++ word h.additionals))))

-- A response to the query that buildDNSQuery makes for `domain`: a header, the question of the
-- query, the answers, and whatever follows, such as the other two sections.
unfoldable pub response : Header → Bytes → List Answer → Bytes → Bytes
unfolding build_dns_query answer_bytes
response h domain xs tail =
    header_bytes h (length xs) ++ (drop 12 (build_dns_query domain 65) ++ answer_bytes xs tail)

-- The parts of a response, at their offsets.
question_At :
    (h : Header) (domain : Bytes) (xs : List Answer) (tail : Bytes)
    → At
        (response h domain xs tail)
        12
        (label_bytes (split b'.' domain) ++ 0 ∷ 0 ∷ 65 ∷ 0 ∷ 1 ∷ answer_bytes xs tail)
unfolding response
question_At h domain xs tail =
    let name = label_bytes (split b'.' domain) in
    let d = response h domain xs tail in
    let ending : Bytes = 0 ∷ 0 ∷ 65 ∷ 0 ∷ 1 ∷ [] in
    subst (λ t. At d 12 t) (append_assoc name ending (answer_bytes xs tail))
      (At-append d 0 (header_bytes h (length xs)) ((name ++ ending) ++ answer_bytes xs tail)
        (At-start d))

count_At :
    (h : Header) (domain : Bytes) (xs : List Answer) (tail : Bytes)
    → length xs < 65536
    → uint16 (response h domain xs tail) 6 ≡ done (length xs)
unfolding response
count_At h domain xs tail few =
    At-uint16 (response h domain xs tail) 6 (length xs / 256) (length xs % 256) _ (
      At-append (response h domain xs tail) 0 (word h.id ++ (word h.flags ++ word 1)) _
        (At-start _))
    ∙ ap done (omega arith)

-- On a response that repeats the question of buildDNSQuery, with any identifier, flags and
-- response code, any TTL, and any further sections, parseDNSResponse returns what parseHTTPSRecord
-- finds in the first answer of type HTTPS in which it finds something, and the empty text if there
-- is none. There is an answer, and there are fewer than 65536; types and lengths fit into 16 bits;
-- the name of each answer is a pointer, or labels that are not empty and shorter than 256 bytes, the
-- first one than 64, up to the root, but never labels that go on with a pointer. The labels of the
-- domain are not empty and shorter than 256 bytes.
pub parse_dns_response-response :
    (h : Header) (domain : Bytes) (xs : List Answer) (tail : Bytes)
    → AllLabels (split b'.' domain)
    → AllAnswers xs
    → 0 < length xs
    → length xs < 65536
    → parse_dns_response (response h domain xs tail) ≡ done (found (first_https xs))
unfolding parse_dns_response
parse_dns_response-response h domain xs tail labels_ok answers_ok some_answers few =
    let d = response h domain xs tail in
    let ls = split b'.' domain in
    let a = question_At h domain xs tail in
    let b = At-append d 12 (label_bytes ls) _ a in
    let c =
      At-append d (12 + length (label_bytes ls)) (0 ∷ 0 ∷ 65 ∷ 0 ∷ 1 ∷ []) (answer_bytes xs tail)
        b in
    let long : ltb (length d) 12 ≡ false = ground (arith, a.within) in
    let counted : (length xs == 0) ≡ false = ground arith in
    rw (long, count_At h domain xs tail few)
      (rw (counted, skip_labels-At (suc (length d)) d 12 ls _ (omega arith) labels_ok a)
        (rw (answers-At d (12 + length (label_bytes ls) + 5) xs tail answers_ok c)))
