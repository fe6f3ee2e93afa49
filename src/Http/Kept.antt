-- ===== src/Http/Kept.antt =====
-- The headers that the HTTP proxy passes on, and the map that the target makes of them.
use ech_tunnel.Base.{
  ℕ, List, [], ◌∷◌, none, some, ◌≡◌, refl, ap, ◌∙◌, arith, Bytes, lookup, insert, bytes_key,
  bytes_eq, bytes_eq_iff, is_empty, lookup-insert, if◌then◌else◌, Bool-cases, inl, inr, erase,
  lookup-erase, lookup-erase_self, trim_space, split_n, zero, suc, length, Option-cases,
}
use ech_tunnel.Http.{
  Headers, headers, read_line, read_http_headers, stuck, read_failed, HeadersRead, add_header,
  header_rounds,
}
use ech_tunnel.Http.Request.{is_proxy_header, forwarded_lines}
use ech_tunnel.Http.Fields.{AllFields, field_lines, add_fields, round_ends, round_goes_on}

-- A map: no key twice.
abbrev pub Distinct : Headers → Type 0
Distinct [] = Unit
Distinct ((key, value) ∷ m) = (lookup key m ≡ none) × Distinct m

-- The entries that are passed on.
abbrev pub kept : Headers → Headers
unfolding is_proxy_header
kept [] = []
kept ((key, value) ∷ m) =
    let rest = kept m in if is_proxy_header key then rest else (key, value) ∷ rest

pub lookup-kept :
    (j : Bytes) (m : Headers) → lookup j (kept m) ≡ (if is_proxy_header j then none else lookup j m)
unfolding kept lookup
lookup-kept j [] = ground arith
lookup-kept j ((k, v) ∷ m) = elim (Bool-cases (bytes_eq k j)) [
  | inl same ↦
      let e : k ≡ j = (bytes_eq_iff k j).0 same in
      let proxy : is_proxy_header k ≡ is_proxy_header j = ap is_proxy_header e in
      ground (arith, lookup-kept j m, same, proxy)
  | inr other ↦ ground (arith, lookup-kept j m, other)
]

pub kept-Distinct : (m : Headers) → Distinct m → Distinct (kept m)
unfolding kept
kept-Distinct [] d = tt
kept-Distinct ((k, v) ∷ m) (new, d) = elim (Bool-cases (is_proxy_header k)) [
  | inl proxy ↦ rw proxy (kept-Distinct m d)
  | inr plain ↦ rw plain (lookup-kept k m ∙ rw (plain, new) refl, kept-Distinct m d)
]

pub kept-AllFields : (m : Headers) → AllFields m → AllFields (kept m)
unfolding kept
kept-AllFields [] all = tt
kept-AllFields ((k, v) ∷ m) (f, all) = elim (Bool-cases (is_proxy_header k)) [
  | inl proxy ↦ rw proxy (kept-AllFields m all)
  | inr plain ↦ rw plain (f, kept-AllFields m all)
]

pub forwarded_lines-kept : (m : Headers) → forwarded_lines m ≡ field_lines (kept m)
unfolding kept forwarded_lines
forwarded_lines-kept [] = refl
forwarded_lines-kept ((k, v) ∷ m) = ground (arith, forwarded_lines-kept m)

pub lookup-add_fields :
    (fs m : Headers) (j : Bytes)
    → Distinct fs
    → lookup j (add_fields fs m) ≡ elim (lookup j fs) [ none ↦ lookup j m | some v ↦ some v ]
unfolding lookup
lookup-add_fields [] m j d = refl
lookup-add_fields ((k, v) ∷ fs) m j (new, d) = elim (Bool-cases (bytes_eq k j)) [
  | inl same ↦
      let e : k ≡ j = (bytes_eq_iff k j).0 same in
      let missing : lookup j fs ≡ none = rw e at new in
      ground (arith, lookup-add_fields fs (insert k v m) j d, lookup-insert k j v m, same, missing)
  | inr other ↦
      ground (arith, lookup-add_fields fs (insert k v m) j d, lookup-insert k j v m, other)
]

erase-Distinct : (k : Bytes) (m : Headers) → Distinct m → Distinct (erase k m)
unfolding erase
erase-Distinct k [] d = tt
erase-Distinct k ((j, v) ∷ m) (new, d) = elim (Bool-cases (bytes_eq j k)) [
  | inl same ↦ rw same (erase-Distinct k m d)
  | inr other ↦ rw other (ground (arith, lookup-erase k j m, new), erase-Distinct k m d)
]

insert-Distinct : (k v : Bytes) (m : Headers) → Distinct m → Distinct (insert k v m)
unfolding insert
insert-Distinct k v m d = (lookup-erase_self k m, erase-Distinct k m d)

add_header-Distinct :
    (parts : List Bytes) (m : Headers) → Distinct m → Distinct (add_header parts m)
unfolding add_header
add_header-Distinct [] m d = d
add_header-Distinct (key ∷ []) m d = d
add_header-Distinct (key ∷ value ∷ []) m d = insert-Distinct (trim_space key) (trim_space value) m d
add_header-Distinct (key ∷ value ∷ x ∷ parts) m d = d

-- Of the ways in which reading the headers ends, those with distinct headers.
abbrev pub ReadsDistinct : HeadersRead → Type 0
ReadsDistinct (headers m rest) = Distinct m
ReadsDistinct read_failed = Unit
ReadsDistinct stuck = Unit

header_rounds-Distinct :
    (fuel : ℕ) (m : Headers) (s : Bytes) → Distinct m → ReadsDistinct (header_rounds fuel m s)
unfolding header_rounds
header_rounds-Distinct zero m s d = tt
header_rounds-Distinct (suc fuel) m s d = elim (Option-cases (read_line s)) [
  | inl missing ↦ rw (missing, header_rounds) tt
  | inr ((line, rest), found) ↦ elim (Bool-cases (is_empty (trim_space line))) [
    | inl empty ↦ rw (round_ends fuel m s found empty) d
    | inr full ↦ rw (round_goes_on fuel m s found full) (
        header_rounds-Distinct fuel (add_header (split_n b':' (trim_space line) 2) m) rest
          (add_header-Distinct (split_n b':' (trim_space line) 2) m d))
  ]
]

pub read_http_headers-Distinct : (s : Bytes) → ReadsDistinct (read_http_headers s)
unfolding read_http_headers
read_http_headers-Distinct s = header_rounds-Distinct (suc (length s)) [] s tt
