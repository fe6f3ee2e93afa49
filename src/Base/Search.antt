-- ===== src/Base/Search.antt =====
-- strings.Contains for a text.

use mathlib.Core.Path.{◌≡◌, refl}
use mathlib.Core.Logic.{inl, inr}
use mathlib.Core.Bool.{Bool, true, ◌||◌}
use mathlib.Core.List.{[], ◌∷◌, ◌++◌}
use native.Mathlib.Omega.{arith}
use ech_tunnel.Base.Tests.{Bool-cases}
use ech_tunnel.Base.Lists.{length, drop}
use ech_tunnel.Base.Text.{Bytes, has_prefix, has_prefix_sound, has_prefix-append}
use ech_tunnel.Base.Maps.{is_empty}

-- strings.Contains(s, p), with the text that is sought first
unfoldable pub contains : Bytes → Bytes → Bool
contains p [] = is_empty p
contains p (x ∷ s) = has_prefix p (x ∷ s) || contains p s

-- A text is found wherever it stands.
pub contains-middle : (p s t : Bytes) → contains p (s ++ (p ++ t)) ≡ true
unfolding contains
contains-middle [] [] [] = refl
contains-middle [] [] (y ∷ t) = refl
contains-middle (x ∷ p) [] t = ground (arith, has_prefix-append (x ∷ p) t)
contains-middle p (x ∷ s) t = ground (arith, contains-middle p s t)

-- What is found is there.
pub contains_sound : (p s : Bytes) → contains p s ≡ true → (a b : Bytes) × (s ≡ a ++ (p ++ b))
unfolding contains
contains_sound [] [] h = ([], [], refl)
contains_sound (x ∷ p) [] h = absurd (ground (arith, h))
contains_sound p (x ∷ s) h = elim (Bool-cases (has_prefix p (x ∷ s))) [
  | inl at ↦ ([], drop (length p) (x ∷ s), has_prefix_sound p (x ∷ s) at)
  | inr later ↦ let (a, b, e) = contains_sound p s (ground (arith, h, later)) in (x ∷ a, b, cc)
]
