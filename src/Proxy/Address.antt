-- ===== src/Proxy/Address.antt =====
-- Addresses: `addrSpec` of image/agent/internal/proxy/socks5.go, and what the code uses of Go's
-- `net.IP` and `encoding/binary`.
use expressvpn_container.Base.{
  ℕ, ◌+◌, ◌*◌, ◌/◌, ◌%◌, ◌<◌, ◌&&◌, Option, none, some, [], ◌∷◌, ◌++◌, ◌≡◌, ◌==◌, length, take,
  drop, if◌then◌else◌, arith,
}
use expressvpn_container.Base.Text.{Bytes, bytes_eq}

-- An IP address is 4 or 16 bytes, or none at all (`nil`).
abbrev pub Ip : Type 0
Ip = Bytes

pub record AddrSpec : Type 0 where
  pub host : Bytes
  pub ip : Ip
  pub port : ℕ

-- An address with a port: `*net.TCPAddr`, `*net.UDPAddr`, or the text that `JoinHostPort` makes.
pub record Endpoint : Type 0 where
  pub ip : Ip
  pub port : ℕ

abbrev pub v4_prefix : Bytes
v4_prefix = 0 ∷ 0 ∷ 0 ∷ 0 ∷ 0 ∷ 0 ∷ 0 ∷ 0 ∷ 0 ∷ 0 ∷ 255 ∷ 255 ∷ []

-- `IP.To4` and `IP.To16`.
unfoldable pub to4 : Ip → Option Ip
unfolding bytes_eq
to4 ip =
    if length ip == 4
    then some ip
    else if length ip == 16 && bytes_eq (take 12 ip) v4_prefix
    then some (drop 12 ip)
    else none

unfoldable pub to16 : Ip → Ip
to16 ip = if length ip == 4 then v4_prefix ++ ip else if length ip == 16 then ip else []

-- `net.IPv4zero`
abbrev pub ipv4_zero : Ip
ipv4_zero = v4_prefix ++ (0 ∷ 0 ∷ 0 ∷ 0 ∷ [])

-- `binary.BigEndian.AppendUint16` of a port, and `Uint16`.
abbrev pub port_bytes : ℕ → Bytes
port_bytes p = (p / 256) % 256 ∷ p % 256 ∷ []

abbrev pub be16 : ℕ → ℕ → ℕ
be16 hi lo = hi * 256 + lo

pub be16-port_bytes : (p : ℕ) → p < 65536 → be16 ((p / 256) % 256) (p % 256) ≡ p
be16-port_bytes p h = omega arith

abbrev pub atyp_ipv4 : ℕ
atyp_ipv4 = 1

abbrev pub atyp_domain : ℕ
atyp_domain = 3

abbrev pub atyp_ipv6 : ℕ
atyp_ipv6 = 4
