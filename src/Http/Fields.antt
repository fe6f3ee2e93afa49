-- ===== src/Http/Fields.antt =====
-- Headers as a client writes them, read by readHTTPHeaders.
use ech_tunnel.Base.{
  ℕ, zero, suc, ◌<◌, ◌≤◌, true, false, List, [], ◌∷◌, ◌++◌, some, ◌≡◌, refl, arith, Bytes, insert,
  bytes_key, is_empty, contains_byte, cut-append, split_n, split_n-append_two, trim_space,
  first_graphic, last_graphic, length, length-append, inl, inr, ◌⊎◌, append_assoc,
  trim_space-graphic, trim_space_self, trim_space_nil, trim_space-space, trim_right_crlf,
  trim_right_space_crlf, ◌∙◌, contains_byte-append, ap, sym, append-nil, trim_space_crlf,
  first_graphic-append, last_graphic-append,
}
use mathlib.Core.Path.{subst}
use ech_tunnel.Http.{Headers, headers, read_line, add_header, header_rounds, read_http_headers}
use ech_tunnel.Http.Request.{crlf, header_line}

-- A key begins and ends with a visible character and holds neither a colon nor a line end; a value
-- holds no line end, and is empty or begins and ends with a visible character.
pub record IsField (key value : Bytes) : Type 0 where
  pub key_first : first_graphic key ≡ true
  pub key_last : last_graphic key ≡ true
  pub no_colon : contains_byte b':' key ≡ false
  pub key_line : contains_byte b'\n' key ≡ false
  pub value_line : contains_byte b'\n' value ≡ false
  pub value_ends : (value ≡ []) ⊎ ((first_graphic value ≡ true) × (last_graphic value ≡ true))

-- A header line without its white space at the end.
abbrev bare_line : Bytes → Bytes → Bytes
bare_line key [] = key ++ (b':' ∷ [])
bare_line key (v ∷ vs) = key ++ (b':' ∷ 32 ∷ v ∷ vs)

value_graphic :
    (v : ℕ) (vs : Bytes)
    → (v ∷ vs ≡ []) ⊎ ((first_graphic (v ∷ vs) ≡ true) × (last_graphic (v ∷ vs) ≡ true))
    → (first_graphic (v ∷ vs) ≡ true) × (last_graphic (v ∷ vs) ≡ true)
value_graphic v vs (inl e) = cc
value_graphic v vs (inr h) = h

trim_space-line :
    (key value : Bytes)
    → IsField key value
    → trim_space (header_line key value) ≡ bare_line key value
trim_space-line key [] f =
    subst (λ t. trim_space t ≡ key ++ (b':' ∷ [])) (append_assoc key (b':' ∷ []) (32 ∷ crlf))
      (trim_space-graphic (key ++ (b':' ∷ [])) (32 ∷ crlf)
        (first_graphic-append key (b':' ∷ []) f.key_first) (last_graphic-append key b':' [])
        trim_right_space_crlf)
trim_space-line key (v ∷ vs) f =
    subst (λ t. trim_space t ≡ bare_line key (v ∷ vs)) (append_assoc key (b':' ∷ 32 ∷ v ∷ vs) crlf)
      (trim_space-graphic (bare_line key (v ∷ vs)) crlf
        (first_graphic-append key (b':' ∷ 32 ∷ v ∷ vs) f.key_first)
        (last_graphic-append key b':' (32 ∷ v ∷ vs) ∙ (value_graphic v vs f.value_ends).1)
        trim_right_crlf)

-- The line that readHTTPHeaders trims, split: the trimmed parts are key and value.
add_header-line :
    (key value : Bytes) (m : Headers)
    → IsField key value
    → add_header (split_n b':' (bare_line key value) 2) m ≡ insert key value m
unfolding add_header
add_header-line key [] m f =
    rw (split_n-append_two b':' key [] f.no_colon)
      (rw (trim_space_self key f.key_first f.key_last) (rw trim_space_nil))
add_header-line key (v ∷ vs) m f =
    let (front, back) = value_graphic v vs f.value_ends in
    rw (split_n-append_two b':' key (32 ∷ v ∷ vs) f.no_colon)
      (rw (trim_space_self key f.key_first f.key_last) (rw (trim_space-space (v ∷ vs) front back)))

bare_line-full : (key value : Bytes) → IsField key value → is_empty (bare_line key value) ≡ false
bare_line-full [] value f = let e = f.key_first in cc
bare_line-full (x ∷ key) [] f = refl
bare_line-full (x ∷ key) (v ∷ vs) f = refl

pub read_line-append :
    (s t : Bytes)
    → contains_byte b'\n' s ≡ false
    → read_line (s ++ b'\n' ∷ t) ≡ some (s ++ b'\n' ∷ [], t)
unfolding read_line
read_line-append s t h = rw (cut-append b'\n' s t h, read_line)

-- A header line without its last byte.
abbrev line_body : Bytes → Bytes → Bytes
line_body key value = key ++ (b':' ∷ 32 ∷ (value ++ b'\r' ∷ []))

header_line_cut :
    (key value t : Bytes) → header_line key value ++ t ≡ line_body key value ++ b'\n' ∷ t
header_line_cut key value t =
    let inner = append_assoc value crlf t in
    let outer = append_assoc key (b':' ∷ 32 ∷ (value ++ crlf)) t in
    let inner2 = append_assoc value (b'\r' ∷ []) (b'\n' ∷ t) in
    let outer2 = append_assoc key (b':' ∷ 32 ∷ (value ++ b'\r' ∷ [])) (b'\n' ∷ t) in
    outer ∙ ap (λ (u : Bytes). key ++ (b':' ∷ 32 ∷ u)) (inner ∙ sym inner2) ∙ sym outer2

line_body-plain :
    (key value : Bytes) → IsField key value → contains_byte b'\n' (line_body key value) ≡ false
line_body-plain key value f =
    contains_byte-append b'\n' key (b':' ∷ 32 ∷ (value ++ b'\r' ∷ [])) f.key_line (
      unfold contains_byte in
      contains_byte-append b'\n' value (b'\r' ∷ []) f.value_line (unfold contains_byte in refl))

read_line-line :
    (key value t : Bytes)
    → IsField key value
    → read_line (header_line key value ++ t) ≡ some (header_line key value, t)
read_line-line key value t f = rw (header_line_cut key value t) (
    read_line-append (line_body key value) t (line_body-plain key value f)
    ∙ ap (λ (u : Bytes). some (u, t)) (sym (header_line_cut key value []) ∙ append-nil _))

-- Header lines, and the headers that they make, the first line first.
abbrev pub field_lines : List (Bytes × Bytes) → Bytes
field_lines [] = []
field_lines ((key, value) ∷ fs) = header_line key value ++ field_lines fs

abbrev pub add_fields : List (Bytes × Bytes) → Headers → Headers
add_fields [] m = m
add_fields ((key, value) ∷ fs) m = add_fields fs (insert key value m)

abbrev pub AllFields : List (Bytes × Bytes) → Type 0
AllFields [] = Unit
AllFields ((key, value) ∷ fs) = IsField key value × AllFields fs

abbrev size : List (Bytes × Bytes) → ℕ
size [] = 0
size (f ∷ fs) = suc (size fs)

pub round_ends :
    (fuel : ℕ) (m : Headers) (s : Bytes) {line rest : Bytes}
    → read_line s ≡ some (line, rest)
    → is_empty (trim_space line) ≡ true
    → header_rounds (suc fuel) m s ≡ headers m rest
unfolding header_rounds
round_ends fuel m s e h = rw (e, header_rounds) (rw h)

pub round_goes_on :
    (fuel : ℕ) (m : Headers) (s : Bytes) {line rest : Bytes}
    → read_line s ≡ some (line, rest)
    → is_empty (trim_space line) ≡ false
    → header_rounds (suc fuel) m s
      ≡ header_rounds fuel (add_header (split_n b':' (trim_space line) 2) m) rest
unfolding header_rounds
round_goes_on fuel m s e h = rw (e, header_rounds) (rw h)

header_rounds-fields :
    (fuel : ℕ) (fs : List (Bytes × Bytes)) (m : Headers) (rest : Bytes)
    → size fs < fuel
    → AllFields fs
    → header_rounds fuel m (field_lines fs ++ (crlf ++ rest)) ≡ headers (add_fields fs m) rest
header_rounds-fields zero fs m rest h all = absurd (omega arith)
header_rounds-fields (suc fuel) [] m rest h all =
    round_ends fuel m (crlf ++ rest)
      (read_line-append (b'\r' ∷ []) rest (unfold contains_byte in refl)) (rw trim_space_crlf)
header_rounds-fields (suc fuel) ((key, value) ∷ fs) m rest h (f, all) =
    let trimmed = trim_space-line key value f in
    let later = field_lines fs ++ (crlf ++ rest) in
    rw (append_assoc (header_line key value) (field_lines fs) (crlf ++ rest)) (
      round_goes_on fuel m (header_line key value ++ later) (read_line-line key value later f)
        (rw trimmed (bare_line-full key value f))
      ∙ rw trimmed (
          rw (add_header-line key value m f)
            (header_rounds-fields fuel fs (insert key value m) rest (omega arith) all)))

size-field_lines : (fs : List (Bytes × Bytes)) → size fs ≤ length (field_lines fs)
size-field_lines [] = omega arith
size-field_lines ((key, value) ∷ fs) = omega (
  arith,
  length-append (header_line key value) (field_lines fs),
  length-append key (b':' ∷ 32 ∷ (value ++ crlf)),
  size-field_lines fs,
)

pub read_http_headers-fields :
    (fs : List (Bytes × Bytes)) (rest : Bytes)
    → AllFields fs
    → read_http_headers (field_lines fs ++ (crlf ++ rest)) ≡ headers (add_fields fs []) rest
unfolding read_http_headers
read_http_headers-fields fs rest all =
    header_rounds-fields (suc (length (field_lines fs ++ (crlf ++ rest)))) fs [] rest
      (omega (arith, length-append (field_lines fs) (crlf ++ rest), size-field_lines fs)) all
