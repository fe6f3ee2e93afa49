-- ===== src/Socks5/Association/Others.antt =====
-- What the pool of pool.go does for other connections, beside an association of socks5.go.
use ech_tunnel.Base.{
  Bool, true, Option, none, some, ◌≡◌, refl, arith, Bytes, lookup, bytes_key, ℕ, false,
  Option-cases, inl, inr,
}
use ech_tunnel.Pool.{Pool, Info}
use ech_tunnel.Pool.Valid.{IsValid}
use ech_tunnel.Pool.Steps.{Step}
use ech_tunnel.Pool.Phases.{
  Phase, unknown, waiting, bound, Move, stay, request, replace, win, end_phase, phase_of, phase,
}
use ech_tunnel.Pool.Phases.Refines.{IsTcp, step-Move}
use ech_tunnel.Socks5.Association.World.{keeps_unbound}

abbrev is_bound : Phase → Bool
is_bound (bound c) = true
is_bound _ = false

move_unbound : {x y : Phase} → Move x y → x ≡ unknown → is_bound y ≡ false
move_unbound (stay x) e = rw e refl
move_unbound (request info) e = refl
move_unbound (replace old info) e = refl
move_unbound (win info c) e = absurd (let no : waiting info ≡ unknown = e in cc)
move_unbound (end_phase x) e = refl

unbound_channel : (c : Option ℕ) (i : Option Info) → is_bound (phase_of c i) ≡ false → c ≡ none
unbound_channel none i h = refl
unbound_channel (some c) i h = cc

-- No step of a valid pool binds a channel to an association that has none, unless it is the
-- association's own UDP_CONNECT: its identifier belongs to no request.
pub others_keep_unbound :
    {p q : Pool} (id : Bytes) (s : Step p q)
    → IsValid p
    → IsTcp id s
    → lookup id p.conn_info ≡ none
    → keeps_unbound id p q ≡ true
unfolding keeps_unbound
others_keep_unbound {p} {q} id s valid other idle = elim (Option-cases (lookup id p.channel_map)) [
  | inr (c, has) ↦ ground (arith, has)
  | inl without ↦
      let unknown_before : phase id p ≡ unknown = rw (without, idle) refl in
      let still = move_unbound (step-Move id s valid other) unknown_before in
      let none_there = unbound_channel (lookup id q.channel_map) (lookup id q.conn_info) still in
      rw (none_there, keeps_unbound) refl
]
