-- ===== src/Proxy/Socks5.antt =====
-- The messages of image/agent/internal/proxy/socks5.go, read from and written to a connection.
use expressvpn_container.Base.{
  ℕ, ◌+◌, Bool, true, false, ◌&&◌, Option, none, some, [], ◌∷◌, ◌++◌, ◌==◌, take, any,
  if◌then◌else◌,
}
use expressvpn_container.Base.Text.{Bytes, bytes_eq}
use expressvpn_container.Proxy.Conn.{
  Error, err, not_socks5, no_method, bad_userpass_version, bad_credentials, bad_request_version,
  unsupported_addr, M, pure, raise, guard, ◌>>=◌, ◌>>◌, read_full, write, byte_at,
}
use expressvpn_container.Proxy.Address.{
  Ip, AddrSpec, Endpoint, to4, to16, port_bytes, be16, atyp_ipv4, atyp_domain, atyp_ipv6,
}

-- `config.ProxyAuth`, as bytes.
pub record Credentials : Type 0 where
  pub username : Bytes
  pub password : Bytes

-- A refusal is written without looking at whether it went out.
refuse : Bytes → Error → M (Unit {0})
refuse bs e c = (err e, (write bs c).1)

-- `verifyUserPass`
unfoldable pub verify_user_pass : Credentials → M (Unit {0})
unfolding refuse
verify_user_pass auth = do
  hdr ← read_full 2
  guard (byte_at hdr 0 == 1) bad_userpass_version
  uname ← read_full (byte_at hdr 1)
  plen ← read_full 1
  passwd ← read_full (byte_at plen 0)
  (if bytes_eq uname auth.username && bytes_eq passwd auth.password
      then write (1 ∷ 0 ∷ [])
      else refuse (1 ∷ 1 ∷ []) bad_credentials)

-- The method that the server wants, and what follows when the client offers it.
abbrev pub wanted : Option Credentials → ℕ
wanted none = 0
wanted (some _) = 2

unfoldable pub verify : Option Credentials → M (Unit {0})
verify none = pure tt
verify (some auth) = verify_user_pass auth

choose_method : Option Credentials → Bool → M (Unit {0})
unfolding refuse
choose_method auth true = do write (5 ∷ wanted auth ∷ []); verify auth
choose_method auth false = refuse (5 ∷ 255 ∷ []) no_method

-- `readHandshake`
unfoldable pub read_handshake : Option Credentials → M (Unit {0})
unfolding choose_method
read_handshake auth = do
  hdr ← read_full 2
  guard (byte_at hdr 0 == 5) not_socks5
  methods ← read_full (byte_at hdr 1)
  choose_method auth (any (λ m. m == wanted auth) methods)

abbrev ip_and_port : ℕ → Bytes → AddrSpec
ip_and_port n buf = record {
  host = [];
  ip = take n buf;
  port = be16 (byte_at buf n) (byte_at buf (n + 1));
}

abbrev host_and_port : ℕ → Bytes → AddrSpec
host_and_port n buf = record {
  host = take n buf;
  ip = [];
  port = be16 (byte_at buf n) (byte_at buf (n + 1));
}

read_ip : ℕ → M AddrSpec
read_ip n = do buf ← read_full (n + 2); pure (ip_and_port n buf)

read_domain : M AddrSpec
read_domain = do
  l ← read_full 1
  buf ← read_full (byte_at l 0 + 2)
  pure (host_and_port (byte_at l 0) buf)

-- `readAddr`
unfoldable pub read_addr : ℕ → M AddrSpec
unfolding read_ip read_domain
read_addr atyp =
    if atyp == atyp_ipv4
    then read_ip 4
    else if atyp == atyp_ipv6
    then read_ip 16
    else if atyp == atyp_domain
    then read_domain
    else raise unsupported_addr

-- `readRequest`: the command and the address.
unfoldable pub read_request : M (ℕ × AddrSpec)
read_request = do
  hdr ← read_full 4
  guard (byte_at hdr 0 == 5) bad_request_version
  addr ← read_addr (byte_at hdr 3)
  pure (byte_at hdr 1, addr)

reply_header : ℕ → Option Ip → Ip → Bytes
reply_header rep (some raw) ip = 5 ∷ rep ∷ 0 ∷ atyp_ipv4 ∷ raw
reply_header rep none ip = 5 ∷ rep ∷ 0 ∷ atyp_ipv6 ∷ to16 ip

-- The bytes of `writeReply`; with no bound address it gives 0.0.0.0:0.
unfoldable pub reply : ℕ → Option Endpoint → Bytes
unfolding reply_header
reply rep none = 5 ∷ rep ∷ 0 ∷ atyp_ipv4 ∷ 0 ∷ 0 ∷ 0 ∷ 0 ∷ 0 ∷ 0 ∷ []
reply rep (some e) = reply_header rep (to4 e.ip) e.ip ++ port_bytes e.port

-- `writeReply`
abbrev pub write_reply : ℕ → Option Endpoint → M (Unit {0})
write_reply rep bnd = write (reply rep bnd)
