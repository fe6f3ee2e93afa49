-- ===== src/Base/Text.antt =====
-- Go strings and byte slices as lists of byte values, and the functions of package strings that
-- the program calls: HasPrefix, TrimPrefix, Contains and Index of one byte, Split and SplitN.
use Prim.Native.Char.{code}
use Prim.Native.String.{String}
use Prim.Native.Nat.{ℕ, zero, suc, ◌<◌, ◌≤◌}
use mathlib.Core.Path.{◌≡◌, refl}
use mathlib.Core.Logic.{◌↔◌}
use mathlib.Core.Bool.{Bool, true, false, ◌&&◌, ◌||◌}
use mathlib.Core.Option.{Option, none, some}
use mathlib.Core.List.{List, [], ◌∷◌, ◌++◌}
use native.Mathlib.Omega.{arith}
use mathlib.Core.Logic.{inl, inr}
use ech_tunnel.Base.Tests.{◌==◌, if◌then◌else◌, Eq, ==_iff, Bool-cases, Option-cases}
use ech_tunnel.Base.Lists.{length, drop}

abbrev pub Bytes : Type 0
Bytes = List ℕ

-- The bytes of an ASCII text.
abbrev pub codes : String → Bytes
codes String.[] = []
codes (String.◌∷◌ c s) = code c ∷ codes s

-- Every element is the value of a byte.
abbrev pub AllBytes : Bytes → Type 0
AllBytes [] = Unit
AllBytes (b ∷ s) = (b < 256) × AllBytes s

unfoldable pub bytes_eq : Bytes → Bytes → Bool
bytes_eq [] [] = true
bytes_eq (x ∷ s) (y ∷ t) = x == y && bytes_eq s t
bytes_eq _ _ = false

pub bytes_eq_iff : (s t : Bytes) → (bytes_eq s t ≡ true) ↔ (s ≡ t)
unfolding bytes_eq
bytes_eq_iff [] [] = ground arith
bytes_eq_iff [] (y ∷ t) = ground arith
bytes_eq_iff (x ∷ s) [] = ground arith
bytes_eq_iff (x ∷ s) (y ∷ t) = ground (arith, bytes_eq_iff s t, ==_iff x y)

instance abbrev pub bytes_key : Eq Bytes
bytes_key = record { beq = bytes_eq; beq_iff = bytes_eq_iff }

pub bytes_eq_refl : (s : Bytes) → bytes_eq s s ≡ true
bytes_eq_refl s = (bytes_eq_iff s s).1 refl

-- strings.HasPrefix(s, p), with the prefix first
abbrev pub has_prefix : Bytes → Bytes → Bool
has_prefix [] s = true
has_prefix (x ∷ p) [] = false
has_prefix (x ∷ p) (y ∷ s) = x == y && has_prefix p s

-- strings.TrimPrefix(s, p), with the prefix first
unfoldable pub trim_prefix : Bytes → Bytes → Bytes
trim_prefix p s = if has_prefix p s then drop (length p) s else s

-- strings.Contains(s, c) for a text of one byte
unfoldable pub contains_byte : ℕ → Bytes → Bool
contains_byte c [] = false
contains_byte c (x ∷ s) = x == c || contains_byte c s

-- The bytes before and after the first `c`.
unfoldable pub cut : ℕ → Bytes → Option (Bytes × Bytes)
cut c [] = none
cut c (x ∷ s) =
    if x == c then some ([], s) else elim (cut c s) [ none ↦ none | some (a, b) ↦ some (x ∷ a, b) ]

-- strings.SplitN(s, c, n) and bytes.SplitN for a separator of one byte
unfoldable pub split_n : ℕ → Bytes → ℕ → List Bytes
unfolding cut
split_n c s zero = []
split_n c s (suc zero) = s ∷ []
split_n c s (suc (suc n)) = elim (cut c s) [ none ↦ s ∷ [] | some (a, b) ↦ a ∷ split_n c b (suc n) ]

abbrev pub onto_first : ℕ → List Bytes → List Bytes
onto_first x [] = (x ∷ []) ∷ []
onto_first x (p ∷ ps) = (x ∷ p) ∷ ps

-- strings.Split(s, c) for a separator of one byte
unfoldable pub split : ℕ → Bytes → List Bytes
split c [] = [] ∷ []
split c (x ∷ s) = let rest = split c s in if x == c then [] ∷ rest else onto_first x rest

-- A byte in a text that is put together.
pub contains_byte-middle : (c : ℕ) (s t : Bytes) → contains_byte c (s ++ c ∷ t) ≡ true
unfolding contains_byte
contains_byte-middle c [] t = ground arith
contains_byte-middle c (x ∷ s) t = ground (arith, contains_byte-middle c s t)

pub contains_byte-append :
    (c : ℕ) (s t : Bytes)
    → contains_byte c s ≡ false
    → contains_byte c t ≡ false
    → contains_byte c (s ++ t) ≡ false
unfolding contains_byte
contains_byte-append c [] t h k = k
contains_byte-append c (x ∷ s) t h k = ground (arith, contains_byte-append c s t)

-- A text without the byte `c` is cut right behind it.
pub cut-append :
    (c : ℕ) (s t : Bytes) → contains_byte c s ≡ false → cut c (s ++ c ∷ t) ≡ some (s, t)
unfolding cut contains_byte
cut-append c [] t h = ground arith
cut-append c (x ∷ s) t h = ground (arith, cut-append c s t)

pub cut-none : (c : ℕ) (s : Bytes) → contains_byte c s ≡ false → cut c s ≡ none
unfolding cut contains_byte
cut-none c [] h = refl
cut-none c (x ∷ s) h = ground (arith, cut-none c s)

pub split_n-append_two :
    (c : ℕ) (s t : Bytes) → contains_byte c s ≡ false → split_n c (s ++ c ∷ t) 2 ≡ s ∷ t ∷ []
unfolding split_n
split_n-append_two c s t h = ground (arith, cut-append c s t)

pub split_n-append_three :
    (c : ℕ) (s t u : Bytes)
    → contains_byte c s ≡ false
    → contains_byte c t ≡ false
    → split_n c (s ++ c ∷ (t ++ c ∷ u)) 3 ≡ s ∷ t ∷ u ∷ []
unfolding split_n
split_n-append_three c s t u h k = ground (arith, cut-append c s (t ++ c ∷ u), cut-append c t u)

length-onto_first : (x : ℕ) (ps : List Bytes) → length ps ≤ length (onto_first x ps)
length-onto_first x [] = omega arith
length-onto_first x (p ∷ ps) = omega arith

length-split : (c : ℕ) (s : Bytes) → 1 ≤ length (split c s)
unfolding split
length-split c [] = omega arith
length-split c (x ∷ s) = ground (arith, length-split c s, length-onto_first x (split c s))

length-split_one : (c : ℕ) (s t : Bytes) → 2 ≤ length (split c (s ++ c ∷ t))
unfolding split
length-split_one c [] t = ground (arith, length-split c t)
length-split_one c (x ∷ s) t =
    ground (arith, length-split_one c s t, length-onto_first x (split c (s ++ c ∷ t)))

-- A text with `c` before a further `c` has more than two parts.
pub length-split_two :
    (c : ℕ) (s t : Bytes) → contains_byte c s ≡ true → 3 ≤ length (split c (s ++ c ∷ t))
unfolding split contains_byte
length-split_two c [] t h = cc
length-split_two c (x ∷ s) t h = ground (
  arith,
  length-split_one c s t,
  length-split_two c s t,
  length-onto_first x (split c (s ++ c ∷ t)),
)

-- Without `c` there is one part, and with one `c` there are two.
pub split_plain : (c : ℕ) (s : Bytes) → contains_byte c s ≡ false → split c s ≡ s ∷ []
unfolding split contains_byte
split_plain c [] h = refl
split_plain c (x ∷ s) h = ground (arith, split_plain c s)

pub split-append :
    (c : ℕ) (s t : Bytes)
    → contains_byte c s ≡ false
    → contains_byte c t ≡ false
    → split c (s ++ c ∷ t) ≡ s ∷ t ∷ []
unfolding split contains_byte
split-append c [] t h k = ground (arith, split_plain c t)
split-append c (x ∷ s) t h k = ground (arith, split-append c s t)

pub cut_sound : (c : ℕ) (s : Bytes) {a b : Bytes} → cut c s ≡ some (a, b) → s ≡ a ++ c ∷ b
unfolding cut
cut_sound c [] e = cc
cut_sound c (x ∷ s) {a} {b} e = elim (Bool-cases (x == c)) [
  | inl here ↦
      let same : x ≡ c = (==_iff x c).0 here in
      let found : some (let q : Bytes × Bytes = ([], s) in q) ≡ some (a, b) = rw here at e in cc
  | inr later ↦ elim (Option-cases (cut c s)) [
    | inl missing ↦ let none_found = rw (later, missing) at e in cc
    | inr ((u, v), found) ↦
        let ih = cut_sound c s found in
        let first : some (let q : Bytes × Bytes = (x ∷ u, v) in q) ≡ some (a, b) =
          rw (later, found) at e in
        cc
  ]
]

pub has_prefix_sound : (p s : Bytes) → has_prefix p s ≡ true → s ≡ p ++ drop (length p) s
has_prefix_sound [] s h = refl
has_prefix_sound (x ∷ p) [] h = cc
has_prefix_sound (x ∷ p) (y ∷ s) h =
    let parts : (x ≡ y) × (has_prefix p s ≡ true) = ground arith in
    let ih = has_prefix_sound p s parts.1 in cc parts.0

pub has_prefix-append : (p s : Bytes) → has_prefix p (p ++ s) ≡ true
has_prefix-append [] s = refl
has_prefix-append (x ∷ p) s = ground (arith, has_prefix-append p s)
