-- ===== src/Proxy/Handshake.antt =====
-- Who gets past `readHandshake` of image/agent/internal/proxy/socks5.go.
use mathlib.Core.List.{append_assoc}
use expressvpn_container.Base.{
  Bool, true, false, Option, none, some, [], ◌∷◌, ◌++◌, ◌≡◌, refl, ap, ◌∙◌, ◌==◌, length, any,
  arith,
}
use expressvpn_container.Base.Text.{Bytes, bytes_eq_iff}
use expressvpn_container.Proxy.Conn.{Conn, ok, ◌>>◌, write, read_full-append}
use expressvpn_container.Proxy.Socks5.{
  Credentials, verify_user_pass, verify, wanted, read_handshake,
}

-- A client's greeting, and its credentials where they are asked for.
abbrev pub hello : Bytes → Bytes
hello methods = 5 ∷ length methods ∷ methods

abbrev pub credentials : Option Credentials → Bytes
credentials none = []
credentials (some a) = 1 ∷ length a.username ∷ (a.username ++ length a.password ∷ a.password)

-- What the server answers a client that it lets in.
abbrev pub welcome : Option Credentials → Bytes
welcome none = 5 ∷ 0 ∷ []
welcome (some _) = 5 ∷ 2 ∷ 1 ∷ 0 ∷ []

abbrev pub offers : Option Credentials → Bytes → Bool
offers auth methods = any (λ m. m == wanted auth) methods

abbrev pub conn : Bytes → Bytes → Conn
conn input output = record { input = input; output = output; deaf = false }

verify_complete :
    (a : Credentials) (rest out : Bytes)
    → verify_user_pass a (conn (credentials (some a) ++ rest) out)
      ≡ (ok tt, conn rest (out ++ (1 ∷ 0 ∷ [])))
unfolding verify_user_pass write
verify_complete a rest out = ground (
  arith,
  read_full-append (1 ∷ length a.username ∷ [])
      ((a.username ++ length a.password ∷ a.password) ++ rest) out false,
  read_full-append a.username (length a.password ∷ (a.password ++ rest)) out false,
  append_assoc a.username (length a.password ∷ a.password) rest,
  read_full-append (length a.password ∷ []) (a.password ++ rest) out false,
  read_full-append a.password rest out false,
  bytes_eq_iff a.username a.username,
  bytes_eq_iff a.password a.password,
)

then_verify :
    (auth : Option Credentials) (rest out : Bytes)
    → verify auth (conn (credentials auth ++ rest) (out ++ (5 ∷ wanted auth ∷ [])))
      ≡ (ok tt, conn rest (out ++ welcome auth))
unfolding verify
then_verify none rest out = refl
then_verify (some a) rest out =
    verify_complete a rest (out ++ (5 ∷ 2 ∷ []))
    ∙ ap (λ o. (ok tt, conn rest o)) (append_assoc out (5 ∷ 2 ∷ []) (1 ∷ 0 ∷ []))

chosen :
    (auth : Option Credentials) (rest out : Bytes)
    → (write (5 ∷ wanted auth ∷ []) >> verify auth) (conn (credentials auth ++ rest) out)
      ≡ (ok tt, conn rest (out ++ welcome auth))
unfolding write
chosen auth rest out = then_verify auth rest out

-- A client whose greeting offers the method that the server asks for, and who then sends the right
-- credentials where some are configured, is let in: just these bytes are consumed, and the answers
-- are the choice of the method and the acceptance of the credentials.
pub read_handshake_accepts :
    (auth : Option Credentials) (methods rest out : Bytes)
    → offers auth methods ≡ true
    → read_handshake auth (conn (hello methods ++ (credentials auth ++ rest)) out)
      ≡ (ok tt, conn rest (out ++ welcome auth))
unfolding read_handshake
read_handshake_accepts auth methods rest out h =
    rw
      (read_full-append (5 ∷ length methods ∷ []) (methods ++ (credentials auth ++ rest)) out false)
      (rw (read_full-append methods (credentials auth ++ rest) out false)
        (rw h (chosen auth rest out)))
