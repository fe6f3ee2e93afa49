-- ===== src/Socks5/Handshake/Auth.antt =====
-- The authentication of the SOCKS5 conversation.
use ech_tunnel.Base.{
  ℕ, zero, suc, Bool, true, false, not, ◌&&◌, List, [], ◌∷◌, ◌++◌, ◌≡◌, refl, sym, ap, ◌∙◌, arith,
  ltb, ◌==◌, ==_iff, if◌then◌else◌, Bytes, bytes_eq, bytes_eq_iff, take, drop, length, is_empty,
  Bool-cases, inl, inr, append_assoc,
}
use mathlib.Core.Path.{subst}
use ech_tunnel.Socks5.Handshake.{
  ProxyConfig, Flow, stop, go, more_writes, resume, read_byte, read_full, write, require, give,
  offers, choose_method, handle_user_pass_auth, handle_socks5_protocol, Request,
}

more_writes-go :
    {A : Type 0} (w v : List Bytes) (x : Flow A) {a : A} {r : Bytes}
    → more_writes w x ≡ go v a r
    → (u : List Bytes) × (x ≡ go u a r)
more_writes-go w v (stop u) e = cc
more_writes-go w v (go u a s) e = (u, cc)

-- Both parts of a stretch that gave a result.
record Split {A B : Type 0} (x : Flow A) (f : A → Bytes → Flow B) (b : B) (r : Bytes) : Type 0 where
  value : A
  left : Bytes
  writes : List Bytes
  later : List Bytes
  first : x ≡ go writes value left
  second : f value left ≡ go later b r

split :
    {A B : Type 0} {x : Flow A} {f : A → Bytes → Flow B} {w : List Bytes} {b : B} {r : Bytes}
    → resume x f ≡ go w b r
    → Split x f b r
split {x = stop u} e = cc
split {x = go u a t} {f} {w} e =
    let (later, second) = more_writes-go u w (f a t) e in
    record { value = a; left = t; writes = u; later = later; first = refl; second = second }

read_byte-go : (s : Bytes) {w : List Bytes} {x : ℕ} {r : Bytes} → read_byte s ≡ go w x r → s ≡ x ∷ r
read_byte-go [] e = cc
read_byte-go (x ∷ s) e = cc

take-drop : (n : ℕ) (s : Bytes) → s ≡ take n s ++ drop n s
take-drop zero s = refl
take-drop (suc n) [] = refl
take-drop (suc n) (x ∷ s) = ap (◌∷◌ x) (take-drop n s)

length-take : (n : ℕ) (s : Bytes) → ltb (length s) n ≡ false → length (take n s) ≡ n
length-take zero s h = refl
length-take (suc n) [] h = ground arith
length-take (suc n) (x ∷ s) h = ap suc (length-take n s (ground arith))

read_full-go :
    (n : ℕ) (s : Bytes) {w : List Bytes} {a : Bytes} {r : Bytes}
    → read_full n s ≡ go w a r
    → (s ≡ a ++ r) × (length a ≡ n)
unfolding read_full
read_full-go n s {w} {a} {r} e = elim (Bool-cases (ltb (length s) n)) [
  | inl short ↦ let e1 = rw short at e in cc
  | inr enough ↦
      let e1 : go [] (take n s) (drop n s) ≡ go w a r = rw enough at e in
      (let taken : take n s ≡ a = cc in
        let dropped : drop n s ≡ r = cc in
        (
          subst (λ t. s ≡ t ++ r) taken (subst (λ t. s ≡ take n s ++ t) dropped (take-drop n s)),
          sym (ap (λ (t : Bytes). length t) taken) ∙ length-take n s enough,
        ))
]

require-go :
    (b : Bool) (s : Bytes) {w : List Bytes} {a : Unit {0}} {r : Bytes}
    → require b s ≡ go w a r
    → (b ≡ true) × (s ≡ r)
require-go true s e = (refl, cc)
require-go false s e = cc

write-go :
    (write_ok : Bytes → Bool) (b s : Bytes) {w : List Bytes} {a : Unit {0}} {r : Bytes}
    → write write_ok b s ≡ go w a r
    → s ≡ r
unfolding write
write-go write_ok b s {w} {a} {r} e = elim (Bool-cases (write_ok b)) [
  | inl written ↦ let e1 : go (b ∷ []) tt s ≡ go w a r = rw written at e in cc
  | inr lost ↦ let e1 : stop (b ∷ []) ≡ go w a r = rw lost at e in cc
]

-- The bytes of a client that presents the configured name and password.
abbrev pub credentials : ProxyConfig → Bytes
credentials config =
    1 ∷ length config.username ∷ config.username ++ length config.password ∷ config.password

glue :
    {s s1 s2 s3 s4 s5 s6 s7 r user pass name word : Bytes} {v u p : ℕ}
    → s ≡ v ∷ s1
    → s1 ≡ u ∷ s2
    → s2 ≡ s3
    → s3 ≡ user ++ s4
    → s4 ≡ p ∷ s5
    → s5 ≡ pass ++ s6
    → s6 ≡ s7
    → s7 ≡ r
    → v ≡ 1
    → length user ≡ u
    → length pass ≡ p
    → user ≡ name
    → pass ≡ word
    → s ≡ 1 ∷ length name ∷ (name ++ (length word ∷ (word ++ r)))
glue b1 b2 b3 b4 b5 b6 b7 b8 v u p n w = cc

user_pass_go :
    (write_ok : Bytes → Bool) (config : ProxyConfig) (s : Bytes) {w : List Bytes} {a : Unit {0}}
    {r : Bytes}
    → handle_user_pass_auth write_ok config s ≡ go w a r
    → s ≡ credentials config ++ r
unfolding handle_user_pass_auth
user_pass_go write_ok config s {w} {a} {r} e =
    let s1 = split {x = read_byte s} e in
    let s2 = split {x = read_byte s1.left} s1.second in
    let s3 = split {x = require (s1.value == 1) s2.left} s2.second in
    let s4 = split {x = read_full s2.value s3.left} s3.second in
    let s5 = split {x = read_byte s4.left} s4.second in
    let s6 = split {x = read_full s5.value s5.left} s5.second in
    let same = bytes_eq s4.value config.username && bytes_eq s6.value config.password in
    let s7 = split {x = write write_ok (1 ∷ (if same then 0 else 1) ∷ []) s6.left} s6.second in
    let (one, skip) = require-go (s1.value == 1) s2.left s3.first in
    let (user, user_size) = read_full-go s2.value s3.left s4.first in
    let (pass, pass_size) = read_full-go s5.value s5.left s6.first in
    let (equal, end) = require-go same s7.left s7.second in
    let version : s1.value ≡ 1 = (==_iff s1.value 1).0 one in
    let name : s4.value ≡ config.username =
      (bytes_eq_iff s4.value config.username).0 (ground (arith, equal)) in
    let word : s6.value ≡ config.password =
      (bytes_eq_iff s6.value config.password).0 (ground (arith, equal)) in
    let b1 : s ≡ s1.value ∷ s1.left = read_byte-go s s1.first in
    let b2 : s1.left ≡ s2.value ∷ s2.left = read_byte-go s1.left s2.first in
    let b3 : s4.left ≡ s5.value ∷ s5.left = read_byte-go s4.left s5.first in
    let b4 : s6.left ≡ s7.left = write-go write_ok _ s6.left s7.first in
    glue b1 b2 skip user b3 pass b4 end version user_size pass_size name word
    ∙ sym (
        ap (λ u. 1 ∷ length config.username ∷ u)
          (append_assoc config.username (length config.password ∷ config.password) r))

-- A client that offers the method of RFC 1929 and presents the configured name and password.
pub record Authenticated (config : ProxyConfig) (input : Bytes) : Type 0 where
  pub methods : Bytes
  pub later : Bytes
  pub offered : offers methods ≡ true
  pub sent : input ≡ length methods ∷ methods ++ (credentials config ++ later)

start :
    (methods : Bytes) {s s1 s2 s3 s4 r : Bytes} {n : ℕ}
    → s ≡ n ∷ s1
    → s1 ≡ methods ++ s2
    → length methods ≡ n
    → s2 ≡ s3
    → s3 ≡ s4
    → s4 ≡ r
    → s ≡ length methods ∷ methods ++ r
start methods a b c d e f = cc

taken :
    (b : Bool) (f g : Bytes → Flow (Unit {0})) (s : Bytes) {x : Flow (Unit {0})}
    → b ≡ true
    → (if b then f else g) s ≡ x
    → f s ≡ x
taken true f g s b e = e
taken false f g s b e = cc

chosen_lem :
    (config : ProxyConfig) (methods : Bytes)
    → is_empty config.username ≡ false
    → is_empty config.password ≡ false
    → not (choose_method config methods == 0xff) ≡ true
    → (offers methods ≡ true) × ((choose_method config methods == 2) ≡ true)
unfolding choose_method
chosen_lem config methods u p e = ground (arith, u, p)

-- With a name and a password configured, both non-empty, a conversation gets to a CONNECT or a UDP
-- ASSOCIATE only if the client offers authentication by name and password and then presents
-- exactly the configured ones, whichever of the server's writes succeed.
pub no_bypass :
    (write_ok : Bytes → Bool) (config : ProxyConfig) (input : Bytes) {w : List Bytes}
    {request : Request} {rest : Bytes}
    → is_empty config.username ≡ false
    → is_empty config.password ≡ false
    → handle_socks5_protocol write_ok config input ≡ go w request rest
    → Authenticated config input
unfolding handle_socks5_protocol
no_bypass write_ok config input {w} {request} {rest} u p e =
    let s1 = split {x = read_byte input} e in
    let s2 = split {x = read_full s1.value s1.left} s1.second in
    let method = choose_method config s2.value in
    let s3 = split {x = write write_ok (5 ∷ method ∷ []) s2.left} s2.second in
    let s4 = split {x = require (not (method == 0xff)) s3.left} s3.second in
    let s5 =
      split {x = (if method == 2 then handle_user_pass_auth write_ok config else give tt) s4.left}
        s4.second in
    let (size, length_lem) = read_full-go s1.value s1.left s2.first in
    let (acceptable, skip) = require-go (not (method == 0xff)) s3.left s4.first in
    let (offered, chosen) = chosen_lem config s2.value u p acceptable in
    let proof : handle_user_pass_auth write_ok config s4.left ≡ go s5.writes s5.value s5.left =
      taken (choose_method config s2.value == 2) _ _ s4.left chosen s5.first in
    record {
      methods = s2.value;
      later = s5.left;
      offered = offered;
      sent =
          start s2.value (read_byte-go input s1.first) size length_lem
            (write-go write_ok _ s2.left s3.first) skip
            (user_pass_go write_ok config s4.left proof);
    }
