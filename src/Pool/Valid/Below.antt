-- ===== src/Pool/Valid/Below.antt =====
-- Claim times that mention only channels below a bound, and changes of them.
use ech_tunnel.Base.{
  ℕ, ◌<◌, [], some, ◌≡◌, arith, Bytes, Map, lookup, insert, erase, is_none, lookup-insert,
  lookup-erase, bytes_key, nat_eq, ==_iff, if◌then◌else◌, Bool-cases, inl, inr,
}

abbrev pub Below : ℕ → Map ℕ ℕ → Type 0
Below n times = (i t : ℕ) → lookup i times ≡ some t → i < n

abbrev pub ClaimsBelow : ℕ → Map Bytes (Map ℕ ℕ) → Type 0
ClaimsBelow n m = (id : Bytes) (times : Map ℕ ℕ) → lookup id m ≡ some times → Below n times

pub Below-nil : (n : ℕ) → Below n []
unfolding lookup
Below-nil n i t h = cc

pub Below-insert :
    {n : ℕ} (times : Map ℕ ℕ) (i now : ℕ) → i < n → Below n times → Below n (insert i now times)
Below-insert times i now h b k t found =
    ground (arith, b k t, lookup-insert i k now times, ==_iff i k)

pub Below-erase : {n : ℕ} (times : Map ℕ ℕ) (i : ℕ) → Below n times → Below n (erase i times)
Below-erase times i b k t found = ground (arith, b k t, lookup-erase i k times)

module _ {n : ℕ} (m : Map Bytes (Map ℕ ℕ)) (id : Bytes) (c : ClaimsBelow n m) where
  pub ClaimsBelow-insert : (times : Map ℕ ℕ) → Below n times → ClaimsBelow n (insert id times m)
  ClaimsBelow-insert times b j later found i t h =
      ground
        (arith, b i t, λ (p : lookup j m ≡ some later). c j later p i t, lookup-insert id j times m)

  pub ClaimsBelow-erase : ClaimsBelow n (erase id m)
  ClaimsBelow-erase j later found i t h =
      ground (arith, λ (p : lookup j m ≡ some later). c j later p i t, lookup-erase id j m)

  pub ClaimsBelow-touch : ClaimsBelow n (if is_none (lookup id m) then insert id [] m else m)
  ClaimsBelow-touch = elim (Bool-cases (is_none (lookup id m))) [
    | inl new ↦ rw new (ClaimsBelow-insert [] (Below-nil n))
    | inr old ↦ rw old c
  ]
