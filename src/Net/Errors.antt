-- ===== src/Net/Errors.antt =====
-- utils.go: `isNormalCloseError`.
use ech_tunnel.Base.{
  Bool, true, false, ◌||◌, ◌++◌, Option, none, some, ◌≡◌, refl, Bytes, codes, contains,
  contains-middle,
}

-- An error: io.EOF, or any other by its text.
pub data Error : Type 0 where
  eof : Error
  other : Bytes → Error

-- `none` is a nil error.
unfoldable pub is_normal_close_error : Option Error → Bool
is_normal_close_error none = false
is_normal_close_error (some eof) = true
is_normal_close_error (some (other text)) =
    contains (codes "use of closed network connection") text
    || contains (codes "broken pipe") text
    || contains (codes "connection reset by peer") text
    || contains (codes "normal closure") text

-- The error of a read from a closed connection is normal, whatever package net writes around its
-- text.
pub closed_connection_normal :
    (before after : Bytes)
    → is_normal_close_error
        (some (other (before ++ (codes "use of closed network connection" ++ after))))
      ≡ true
unfolding is_normal_close_error
closed_connection_normal before after =
    rw (contains-middle (codes "use of closed network connection") before after) refl
