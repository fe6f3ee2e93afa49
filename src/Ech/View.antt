-- ===== src/Ech/View.antt =====
-- Reading a message from an offset, seen as the list of the bytes that are left there.
use ech_tunnel.Base.{
  ℕ, zero, suc, ◌+◌, ◌-◌, ◌*◌, ◌%◌, ◌<◌, false, List, [], ◌∷◌, ◌++◌, ◌≡◌, refl, ap, ◌∙◌, arith,
  ◌==◌, Bytes, length, length-append, drop, drop-append_length, take-append_length, lt→ltb, le→leb,
  append_assoc, drop-add, get_elem?-drop,
}
use ech_tunnel.Ech.{done, index, uint16, slice, skip_labels, label_bytes}
use mathlib.Core.Path.{subst}

-- At `offset` the message goes on with `s`, up to its end.
pub record At (d : Bytes) (offset : ℕ) (s : Bytes) : Type 0 where
  pub rest : drop offset d ≡ s
  pub within : offset + length s ≡ length d

pub At-start : (d : Bytes) → At d 0 d
At-start d = record { rest = refl; within = omega arith }

module _ (d : Bytes) (offset : ℕ) where
  pub At-append : (s t : Bytes) → At d offset (s ++ t) → At d (offset + length s) t
  At-append s t a = record {
    rest = rw drop-add (rw a.rest (drop-append_length s t));
    within = omega (arith, a.within, length-append s t);
  }

  pub At-index : (x : ℕ) (s : Bytes) → At d offset (x ∷ s) → index d offset ≡ done x
  unfolding index
  At-index x s a = rw (get_elem?-drop d offset a.rest, index)

  pub At-cons : (x : ℕ) (s : Bytes) → At d offset (x ∷ s) → At d (offset + 1) s
  At-cons x s a = At-append (x ∷ []) s a

module _ (d : Bytes) (offset : ℕ) where
  pub At-uint16 :
      (high low : ℕ) (s : Bytes)
      → At d offset (high ∷ low ∷ s)
      → uint16 d offset ≡ done (high * 256 + low)
  unfolding uint16
  At-uint16 high low s a = rw (
    At-index d offset high (low ∷ s) a,
    At-index d (offset + 1) low s (At-cons d offset high (low ∷ s) a),
  )

  pub At-slice : (v s : Bytes) → At d offset (v ++ s) → slice d offset (length v) ≡ done v
  unfolding slice
  At-slice v s a =
      rw (le→leb (offset + length v) (length d) (omega (arith, a.within, length-append v s)))
        (rw a.rest (ap done (take-append_length v s)))

-- A domain name's labels: none is empty, and each length fits a byte.
abbrev pub AllLabels : List Bytes → Type 0
AllLabels [] = Unit
AllLabels (l ∷ ls) = (0 < length l) × (length l < 256) × AllLabels ls

-- The loop over the labels stops at the zero byte that ends the name.
pub skip_labels-At :
    (fuel : ℕ) (d : Bytes) (offset : ℕ) (ls : List Bytes) (s : Bytes)
    → length d - offset < fuel
    → AllLabels ls
    → At d offset (label_bytes ls ++ 0 ∷ s)
    → skip_labels fuel d offset ≡ done (offset + length (label_bytes ls))
unfolding skip_labels label_bytes
skip_labels-At zero d offset ls s h all a = absurd (omega arith)
skip_labels-At (suc fuel) d offset [] s h all a =
    let inside = lt→ltb offset (length d) (omega (arith, a.within)) in
    rw (inside, At-index d offset 0 s a) (ap (λ (n : ℕ). done n) (omega arith))
skip_labels-At (suc fuel) d offset (l ∷ ls) s h (full, short, all) a =
    let head : Bytes = length l % 256 ∷ l in
    let whole : At d offset (head ++ (label_bytes ls ++ 0 ∷ s)) = rw (append_assoc l) at a in
    let behind = At-append d offset head (label_bytes ls ++ 0 ∷ s) whole in
    let inside = lt→ltb offset (length d) (ground (arith, a.within)) in
    let size : length l % 256 ≡ length l = omega arith in
    let e : index d offset ≡ done (length l) = At-index d offset _ _ whole ∙ ap done size in
    let positive : (length l == 0) ≡ false = ground arith in
    let moved : offset + suc (length l) ≡ offset + (length l + 1) = omega arith in
    let ih =
      skip_labels-At fuel d (offset + (length l + 1)) ls s (omega arith) all
        (subst (λ o. At d o (label_bytes ls ++ 0 ∷ s)) moved behind) in
    rw (inside, e) (rw (positive, ih) (ap done (omega (arith, length-append l (label_bytes ls)))))
