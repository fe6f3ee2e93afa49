-- ===== src/Net.antt =====
-- Package net: the printed form of IP addresses (`net.IP.String`) and `To4`, as socks5.go uses them.
pub mod Errors
use ech_tunnel.Base.{
  ℕ, ◌+◌, ◌-◌, ◌*◌, ◌/◌, ◌%◌, ◌&&◌, List, [], ◌∷◌, ◌++◌, Option, none, some, ltb, leb, ◌==◌,
  if◌then◌else◌, Bytes, decimal, take, drop, length, replicate, bytes_eq,
}

-- An IPv4 address in dotted form.
unfoldable pub dotted : Bytes → Bytes
dotted (a ∷ b ∷ c ∷ d ∷ []) =
    decimal a ++ (b'.' ∷ (decimal b ++ (b'.' ∷ (decimal c ++ (b'.' ∷ decimal d)))))
dotted _ = []

-- The prefix of an IPv4 address in IPv6 form.
abbrev pub v4_prefix : Bytes
v4_prefix = replicate 10 0 ++ 0xff ∷ 0xff ∷ []

-- ip.To4()
unfoldable pub to4 : Bytes → Option Bytes
to4 ip =
    if length ip == 4
    then some ip
    else if length ip == 16 && bytes_eq (take 12 ip) v4_prefix
    then some (drop 12 ip)
    else none

hex_digit : ℕ → ℕ
hex_digit n = if ltb n 10 then b'0' + n else b'a' + (n - 10)

-- A group of 16 bits in hexadecimal, without leading zeros.
hex_group : ℕ → Bytes
unfolding hex_digit
hex_group n =
    if ltb n 16
    then hex_digit n ∷ []
    else if ltb n 256
    then hex_digit (n / 16) ∷ hex_digit (n % 16) ∷ []
    else if ltb n 4096
    then hex_digit (n / 256) ∷ hex_digit (n / 16 % 16) ∷ hex_digit (n % 16) ∷ []
    else hex_digit (n / 4096)
      ∷ hex_digit (n / 256 % 16)
      ∷ hex_digit (n / 16 % 16)
      ∷ hex_digit (n % 16)
      ∷ []

groups : Bytes → List ℕ
groups (h ∷ l ∷ s) = (h * 256 + l) ∷ groups s
groups _ = []

-- The zeros at the front.
zeros : List ℕ → ℕ
zeros [] = 0
zeros (g ∷ gs) = let more = zeros gs in if g == 0 then more + 1 else 0

-- The first of the longest runs of at least two zero groups: its start and its length, where the
-- best one so far is `start` and `run`.
longest_run : ℕ → ℕ → ℕ → List ℕ → ℕ × ℕ
unfolding zeros
longest_run start run i [] = (start, run)
longest_run start run i (g ∷ gs) =
    let n = zeros (g ∷ gs) in
    let better = leb 2 n && ltb run n in
    longest_run (if better then i else start) (if better then n else run) (i + 1) gs

join_colons : List ℕ → Bytes
unfolding hex_group
join_colons [] = []
join_colons (g ∷ []) = hex_group g
join_colons (g ∷ h ∷ gs) = hex_group g ++ b':' ∷ join_colons (h ∷ gs)

-- Sixteen bytes in the form of RFC 5952.
ip6_string : List ℕ → Bytes
unfolding longest_run join_colons
ip6_string gs =
    let (start, run) = longest_run 0 0 0 gs in
    if run == 0
    then join_colons gs
    else join_colons (take start gs) ++ b':' ∷ b':' ∷ join_colons (drop (start + run) gs)

unfoldable pub ip_string : Bytes → Bytes
unfolding dotted to4 groups ip6_string
ip_string ip = elim (to4 ip) [ some ip4 ↦ dotted ip4 | none ↦ ip6_string (groups ip) ]
