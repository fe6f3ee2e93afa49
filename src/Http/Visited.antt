-- ===== src/Http/Visited.antt =====
-- The order in which a range loop of Go visits a map of headers, which is any order.
use ech_tunnel.Base.{
  ◌∷◌, none, some, ◌≡◌, refl, ◌∙◌, arith, Bytes, lookup, bytes_key, bytes_eq, Bool-cases, inl, inr,
  bytes_eq_iff, false,
}
use mathlib.Core.Path.{subst}
use mathlib.Core.List.{Permᴰ}
use ech_tunnel.Http.{Headers}
use ech_tunnel.Http.Fields.{AllFields}
use ech_tunnel.Http.Kept.{Distinct}

-- A list that reads like a map in another order: no key twice, the same values.
pub record ReadsLike (n m : Headers) : Type 0 where
  pub distinct : Distinct n
  pub same : (j : Bytes) → lookup j n ≡ lookup j m

ReadsLike-cons :
    (a : Bytes × Bytes) (m n : Headers)
    → Distinct (a ∷ m)
    → ReadsLike n m
    → ReadsLike (a ∷ n) (a ∷ m)
unfolding lookup
ReadsLike-cons (k, v) m n (new, d) r = record {
  distinct = (r.same k ∙ new, r.distinct);
  same = λ j. ground (arith, r.same j);
}

ReadsLike-swap :
    (a b : Bytes × Bytes) (m : Headers) → Distinct (a ∷ b ∷ m) → ReadsLike (b ∷ a ∷ m) (a ∷ b ∷ m)
unfolding lookup
ReadsLike-swap (k, v) (j, w) m (new, (next, d)) = elim (Bool-cases (bytes_eq j k)) [
  | inl same ↦ absurd (let no : some w ≡ none = rw same at new in cc)
  | inr apart ↦
      let apart_too : bytes_eq k j ≡ false =
        ground (arith, apart, bytes_eq_iff k j, bytes_eq_iff j k) in
      let first : lookup k m ≡ none = rw apart at new in
      record {
        distinct = (rw apart_too next, (first, d));
        same = λ i. ground (arith, apart, bytes_eq_iff k i, bytes_eq_iff j i, bytes_eq_iff j k);
      }
]

-- Every order of a map without a key twice reads like it.
pub visited_reads : {m n : Headers} → Permᴰ m n → Distinct m → ReadsLike n m
visited_reads Permᴰ.nil d = record { distinct = tt; same = λ j. refl }
visited_reads (Permᴰ.cons {a = a} {l₁ = m} {l₂ = n} e p) (new, d) =
    subst (λ (x : Bytes × Bytes). ReadsLike (x ∷ n) (a ∷ m)) e
      (ReadsLike-cons a m n (new, d) (visited_reads p d))
visited_reads (Permᴰ.swap {a = a} {b = b} {b' = y} {l = l} e f) d =
    subst (λ (x : Bytes × Bytes). ReadsLike (x ∷ y ∷ l) (a ∷ b ∷ l)) f
      (subst (λ (z : Bytes × Bytes). ReadsLike (b ∷ z ∷ l) (a ∷ b ∷ l)) e (ReadsLike-swap a b l d))
visited_reads (Permᴰ.trans p q) d =
    let one = visited_reads p d in
    let two = visited_reads q one.distinct in
    record { distinct = two.distinct; same = λ j. two.same j ∙ one.same j }

pub visited-AllFields : {m n : Headers} → Permᴰ m n → AllFields m → AllFields n
visited-AllFields Permᴰ.nil all = tt
visited-AllFields (Permᴰ.cons {l₂ = n} e p) (f, all) =
    subst (λ (x : Bytes × Bytes). AllFields (x ∷ n)) e (f, visited-AllFields p all)
visited-AllFields (Permᴰ.swap {b = b} {b' = y} {l = l} e f) (h, (k, all)) =
    subst (λ (x : Bytes × Bytes). AllFields (x ∷ y ∷ l)) f
      (subst (λ (z : Bytes × Bytes). AllFields (b ∷ z ∷ l)) e (k, (h, all)))
visited-AllFields (Permᴰ.trans p q) all = visited-AllFields q (visited-AllFields p all)
