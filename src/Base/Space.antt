-- ===== src/Base/Space.antt =====
-- strings.TrimSpace: the white space of Unicode, as its UTF-8 bytes.
use Prim.Native.Nat.{ℕ, zero, suc}
use mathlib.Core.Path.{◌≡◌, refl, subst}
use mathlib.Core.Bool.{Bool, true, false, ◌&&◌, ◌||◌}
use mathlib.Core.Option.{Option, none, some}
use mathlib.Core.Logic.{inl, inr}
use mathlib.Core.List.{List, [], ◌∷◌, ◌++◌, append-nil}
use native.Mathlib.Omega.{arith}
use ech_tunnel.Base.Tests.{ltb, if◌then◌else◌, Bool-cases}
use ech_tunnel.Base.Lists.{length, drop}
use ech_tunnel.Base.Text.{Bytes, has_prefix, bytes_eq, bytes_eq_iff}

abbrev ascii_spaces : List Bytes
ascii_spaces = (9 ∷ []) ∷ (10 ∷ []) ∷ (11 ∷ []) ∷ (12 ∷ []) ∷ (13 ∷ []) ∷ (32 ∷ []) ∷ []

-- U+0085, U+00A0, U+1680, U+2000 to U+200A, U+2028, U+2029, U+202F, U+205F and U+3000.
abbrev wide_spaces : List Bytes
wide_spaces =
    (0xc2 ∷ 0x85 ∷ [])
    ∷ (0xc2 ∷ 0xa0 ∷ [])
    ∷ (0xe1 ∷ 0x9a ∷ 0x80 ∷ [])
    ∷ (0xe2 ∷ 0x80 ∷ 0x80 ∷ [])
    ∷ (0xe2 ∷ 0x80 ∷ 0x81 ∷ [])
    ∷ (0xe2 ∷ 0x80 ∷ 0x82 ∷ [])
    ∷ (0xe2 ∷ 0x80 ∷ 0x83 ∷ [])
    ∷ (0xe2 ∷ 0x80 ∷ 0x84 ∷ [])
    ∷ (0xe2 ∷ 0x80 ∷ 0x85 ∷ [])
    ∷ (0xe2 ∷ 0x80 ∷ 0x86 ∷ [])
    ∷ (0xe2 ∷ 0x80 ∷ 0x87 ∷ [])
    ∷ (0xe2 ∷ 0x80 ∷ 0x88 ∷ [])
    ∷ (0xe2 ∷ 0x80 ∷ 0x89 ∷ [])
    ∷ (0xe2 ∷ 0x80 ∷ 0x8a ∷ [])
    ∷ (0xe2 ∷ 0x80 ∷ 0xa8 ∷ [])
    ∷ (0xe2 ∷ 0x80 ∷ 0xa9 ∷ [])
    ∷ (0xe2 ∷ 0x80 ∷ 0xaf ∷ [])
    ∷ (0xe2 ∷ 0x81 ∷ 0x9f ∷ [])
    ∷ (0xe3 ∷ 0x80 ∷ 0x80 ∷ [])
    ∷ []

-- The text behind the first of the prefixes that it has.
strip_one : List Bytes → Bytes → Option Bytes
strip_one [] s = none
strip_one (p ∷ ps) s = if has_prefix p s then some (drop (length p) s) else strip_one ps s

is_one_of : List Bytes → Bytes → Bool
is_one_of [] s = false
is_one_of (p ∷ ps) s = bytes_eq p s || is_one_of ps s

abbrev spaces : List Bytes
spaces = ascii_spaces ++ wide_spaces

-- Each round takes a byte at least, so as many rounds as bytes are enough.
trim_left_rounds : ℕ → Bytes → Bytes
unfolding strip_one
trim_left_rounds zero s = s
trim_left_rounds (suc n) s = elim (strip_one spaces s) [ none ↦ s | some t ↦ trim_left_rounds n t ]

unfoldable pub trim_left : Bytes → Bytes
unfolding trim_left_rounds
trim_left s = trim_left_rounds (length s) s

-- What is left of a text from its end on: white space is dropped where nothing is left behind it.
unfoldable pub trim_right : Bytes → Bytes
unfolding is_one_of
trim_right [] = []
trim_right (x ∷ s) = let r = trim_right s in if is_one_of spaces (x ∷ r) then [] else x ∷ r

unfoldable pub trim_space : Bytes → Bytes
trim_space s = trim_right (trim_left s)

-- A visible ASCII character.
abbrev pub graphic : ℕ → Bool
graphic b = ltb 32 b && ltb b 127

abbrev pub first_graphic : Bytes → Bool
first_graphic [] = false
first_graphic (x ∷ s) = graphic x

abbrev pub last_graphic : Bytes → Bool
last_graphic [] = false
last_graphic (x ∷ []) = graphic x
last_graphic (x ∷ y ∷ s) = last_graphic (y ∷ s)

-- No white space begins or ends in a visible character.
no_first : List Bytes → Bool
no_first [] = true
no_first (p ∷ ps) = let rest = no_first ps in if first_graphic p then false else rest

no_last : List Bytes → Bool
no_last [] = true
no_last (p ∷ ps) = let rest = no_last ps in if last_graphic p then false else rest

spaces-no_first : no_first spaces ≡ true
unfolding no_first
spaces-no_first = refl

spaces-no_last : no_last spaces ≡ true
unfolding no_last
spaces-no_last = refl

abbrev no_empty : List Bytes → Bool
no_empty [] = true
no_empty ([] ∷ ps) = false
no_empty ((x ∷ p) ∷ ps) = no_empty ps

strip_one-none :
    (ps : List Bytes) (x : ℕ) (s : Bytes)
    → no_empty ps ≡ true
    → no_first ps ≡ true
    → graphic x ≡ true
    → strip_one ps (x ∷ s) ≡ none
unfolding strip_one no_first
strip_one-none [] x s e h g = refl
strip_one-none ([] ∷ ps) x s e h g = cc
strip_one-none ((y ∷ p) ∷ ps) x s e h g = ground (arith, strip_one-none ps x s)

is_one_of-none :
    (ps : List Bytes) (s : Bytes)
    → no_last ps ≡ true
    → last_graphic s ≡ true
    → is_one_of ps s ≡ false
unfolding is_one_of no_last
is_one_of-none [] s h g = refl
is_one_of-none (p ∷ ps) s h g = elim (Bool-cases (bytes_eq p s)) [
  | inl same ↦
      let e : p ≡ s = (bytes_eq_iff p s).0 same in
      let b : last_graphic p ≡ true = rw e g in absurd (ground (arith, b))
  | inr other ↦ ground (arith, is_one_of-none ps s, other)
]

pub trim_left-graphic : (s : Bytes) → first_graphic s ≡ true → trim_left s ≡ s
unfolding trim_left trim_left_rounds
trim_left-graphic [] h = cc
trim_left-graphic (x ∷ s) h =
    rw (strip_one-none spaces x s refl spaces-no_first h, trim_left_rounds)

-- Behind a text that ends in a visible character, white space is dropped.
pub trim_right-append :
    (s t : Bytes) → last_graphic s ≡ true → trim_right t ≡ [] → trim_right (s ++ t) ≡ s
unfolding trim_right
trim_right-append [] t h e = cc
trim_right-append (x ∷ []) t h e = rw e (rw (is_one_of-none spaces (x ∷ []) spaces-no_last h))
trim_right-append (x ∷ y ∷ s) t h e =
    rw (trim_right-append (y ∷ s) t h e) (rw (is_one_of-none spaces (x ∷ y ∷ s) spaces-no_last h))

pub trim_space-graphic :
    (s t : Bytes)
    → first_graphic s ≡ true
    → last_graphic s ≡ true
    → trim_right t ≡ []
    → trim_space (s ++ t) ≡ s
unfolding trim_space
trim_space-graphic [] t f l e = cc
trim_space-graphic (x ∷ s) t f l e =
    rw (trim_left-graphic (x ∷ (s ++ t)) f) (trim_right-append (x ∷ s) t l e)

pub trim_space_self :
    (s : Bytes) → first_graphic s ≡ true → last_graphic s ≡ true → trim_space s ≡ s
unfolding trim_right
trim_space_self s f l =
    subst (λ u. trim_space u ≡ s) (append-nil s) (trim_space-graphic s [] f l refl)

pub trim_space_nil : trim_space [] ≡ []
unfolding trim_space trim_left trim_left_rounds trim_right strip_one
trim_space_nil = refl

-- One space in front is dropped.
pub trim_space-space :
    (s : Bytes) → first_graphic s ≡ true → last_graphic s ≡ true → trim_space (32 ∷ s) ≡ s
unfolding trim_space trim_left trim_left_rounds strip_one
trim_space-space [] f l = cc
trim_space-space (x ∷ s) f l =
    rw (strip_one-none spaces x s refl spaces-no_first f, trim_left_rounds)
      (subst (λ u. trim_right u ≡ x ∷ s) (append-nil (x ∷ s))
        (trim_right-append (x ∷ s) [] l (unfold trim_right in refl)))

pub trim_right_crlf : trim_right (13 ∷ 10 ∷ []) ≡ []
unfolding trim_right is_one_of bytes_eq
trim_right_crlf = refl

pub trim_right_space_crlf : trim_right (32 ∷ 13 ∷ 10 ∷ []) ≡ []
unfolding trim_right is_one_of bytes_eq
trim_right_space_crlf = refl

pub trim_space_crlf : trim_space (13 ∷ 10 ∷ []) ≡ []
unfolding trim_space trim_left trim_left_rounds trim_right strip_one
trim_space_crlf = refl

pub first_graphic-append : (s t : Bytes) → first_graphic s ≡ true → first_graphic (s ++ t) ≡ true
first_graphic-append [] t h = cc
first_graphic-append (x ∷ s) t h = h

pub last_graphic-append :
    (s : Bytes) (x : ℕ) (t : Bytes) → last_graphic (s ++ x ∷ t) ≡ last_graphic (x ∷ t)
last_graphic-append [] x t = refl
last_graphic-append (y ∷ []) x t = refl
last_graphic-append (y ∷ z ∷ s) x t = last_graphic-append (z ∷ s) x t
