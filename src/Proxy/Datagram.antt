-- ===== src/Proxy/Datagram.antt =====
-- The headers of relayed datagrams: `parseUDPHeader` and `packUDPHeader` of
-- image/agent/internal/proxy/udp.go.
use mathlib.Core.List.{append_assoc}
use expressvpn_container.Base.{
  inl, inr, zero, suc, ◌-◌, ◌⊎◌, ◌-◌, ℕ, ◌+◌, ◌<◌, not, ◌||◌, Option, none, some, [], ◌∷◌, ◌++◌,
  ◌≡◌, refl, ◌==◌, leb, length, take, drop, if◌then◌else◌, arith, take-append, drop-append,
  length-append,
}
use expressvpn_container.Base.Text.{Bytes, bytes_eq}
use expressvpn_container.Proxy.Conn.{byte_at}
use expressvpn_container.Proxy.Address.{
  Ip, Endpoint, to4, to16, port_bytes, be16, be16-port_bytes, atyp_ipv4, atyp_domain, atyp_ipv6,
}

-- `binary.BigEndian.Uint16` of the two bytes at a place.
abbrev port_at : ℕ → Bytes → ℕ
port_at n bs = be16 (byte_at (drop n bs) 0) (byte_at (drop n bs) 1)

-- The header's length and the target, for an address of `n` bytes after the first four bytes.
parse_ip : ℕ → Bytes → Option (ℕ × Endpoint)
parse_ip n body =
    if not (leb (n + 2) (length body))
    then none
    else some (4 + (n + 2), record { ip = take n body; port = port_at n body })

-- `resolver` turns a host name into an address, or fails.
module _ (resolver : Bytes → Option Ip) where
  -- An empty name is not resolved, and leaves no address.
  resolved : Bytes → Option Ip
  resolved [] = some []
  resolved (b ∷ bs) = resolver (b ∷ bs)

  with_ip : ℕ → ℕ → Option Ip → Option (ℕ × Endpoint)
  with_ip consumed port none = none
  with_ip consumed port (some ip) = some (consumed, record { ip = ip; port = port })

  parse_name : ℕ → Bytes → Option (ℕ × Endpoint)
  unfolding resolved with_ip
  parse_name l body =
      if not (leb (l + 2) (length body))
      then none
      else with_ip (7 + l) (port_at l body) (resolved (take l body))

  parse_domain : Bytes → Option (ℕ × Endpoint)
  unfolding parse_name
  parse_domain body =
      if not (leb 1 (length body)) then none else parse_name (byte_at body 0) (drop 1 body)

  by_atyp : ℕ → Bytes → Option (ℕ × Endpoint)
  unfolding parse_ip parse_domain
  by_atyp atyp body =
      if atyp == atyp_ipv4
      then parse_ip 4 body
      else if atyp == atyp_ipv6
      then parse_ip 16 body
      else if atyp == atyp_domain
      then parse_domain body
      else none

  -- `parseUDPHeader`: the length of the header and the target.
  unfoldable pub parse_udp_header : Bytes → Option (ℕ × Endpoint)
  unfolding by_atyp
  parse_udp_header pkt =
      if not (leb 4 (length pkt)) || not (byte_at pkt 2 == 0)
      then none
      else by_atyp (byte_at pkt 3) (drop 4 pkt)

pack_ip : Option Ip → Ip → Bytes
pack_ip (some raw) ip = 0 ∷ 0 ∷ 0 ∷ atyp_ipv4 ∷ raw
pack_ip none ip = 0 ∷ 0 ∷ 0 ∷ atyp_ipv6 ∷ to16 ip

-- `packUDPHeader`
unfoldable pub pack_udp_header : Endpoint → Bytes
unfolding pack_ip
pack_udp_header from = pack_ip (to4 from.ip) from.ip ++ port_bytes from.port

-- The address as a header carries it: four bytes where `To4` gives them.
abbrev pub canonical : Option Ip → Ip → Ip
canonical (some raw) ip = raw
canonical none ip = ip

-- The two sizes of `net.IP`.
abbrev pub IsIp : Ip → Type 0
IsIp ip = (length ip ≡ 4) ⊎ (length ip ≡ 16)

parse_ip-append :
    (raw rest : Bytes) (p : ℕ)
    → p < 65536
    → parse_ip (length raw) (raw ++ (port_bytes p ++ rest))
      ≡ some (4 + (length raw + 2), record { ip = raw; port = p })
unfolding parse_ip
parse_ip-append raw rest p h = rw (length-append raw (port_bytes p ++ rest)) (
    rw (take-append raw (port_bytes p ++ rest))
      (rw (drop-append raw (port_bytes p ++ rest)) (rw (be16-port_bytes p h) (ground arith))))

length-drop : (n : ℕ) (xs : Bytes) → length (drop n xs) ≡ length xs - n
length-drop zero xs = omega arith
length-drop (suc n) [] = omega arith
length-drop (suc n) (x ∷ xs) = omega (arith, length-drop n xs)

to4-length : (ip raw : Ip) → to4 ip ≡ some raw → length raw ≡ 4
unfolding to4 bytes_eq
to4-length ip raw h = ground (arith, length-drop 12 ip)

to16_wide : (ip : Ip) → IsIp ip → to4 ip ≡ none → (to16 ip ≡ ip) × (length ip ≡ 16)
unfolding to4 to16 bytes_eq
to16_wide ip v h = ground arith

module _ (resolver : Bytes → Option Ip) where
  parse_udp_header_ip :
      (t : ℕ) (raw payload : Bytes) (p : ℕ)
      → ((t ≡ atyp_ipv4) × (length raw ≡ 4)) ⊎ ((t ≡ atyp_ipv6) × (length raw ≡ 16))
      → p < 65536
      → parse_udp_header resolver (0 ∷ 0 ∷ 0 ∷ t ∷ (raw ++ (port_bytes p ++ payload)))
        ≡ some (length (0 ∷ 0 ∷ 0 ∷ t ∷ raw) + 2, record { ip = raw; port = p })
  unfolding parse_udp_header by_atyp
  parse_udp_header_ip t raw payload p v h = ground (arith, parse_ip-append raw payload p h)

  parse_udp_header-pack_ip :
      (o : Option Ip) (ip : Ip) (payload : Bytes) (p : ℕ)
      → IsIp ip
      → to4 ip ≡ o
      → p < 65536
      → parse_udp_header resolver (pack_ip o ip ++ (port_bytes p ++ payload))
        ≡ some (length (pack_ip o ip) + 2, record { ip = canonical o ip; port = p })
  unfolding pack_ip
  parse_udp_header-pack_ip (some raw) ip payload p v e h =
      parse_udp_header_ip atyp_ipv4 raw payload p (inl (refl, to4-length ip raw e)) h
  parse_udp_header-pack_ip none ip payload p v e h =
      let (same, size) = to16_wide ip v e in
      rw same (parse_udp_header_ip atyp_ipv6 ip payload p (inr (refl, size)) h)

  -- A datagram that carries the header of an endpoint is read back as this endpoint, its address
  -- in four bytes where it has such a form, and the header's length is the place where the payload
  -- starts.
  pub parse_udp_header-pack_udp_header :
      (from : Endpoint) (payload : Bytes)
      → IsIp from.ip
      → from.port < 65536
      → parse_udp_header resolver (pack_udp_header from ++ payload)
        ≡ some (
          length (pack_udp_header from),
          record { ip = canonical (to4 from.ip) from.ip; port = from.port },
        )
  unfolding pack_udp_header
  parse_udp_header-pack_udp_header from payload v h =
      rw (append_assoc (pack_ip (to4 from.ip) from.ip) (port_bytes from.port) payload) (
        rw (length-append (pack_ip (to4 from.ip) from.ip) (port_bytes from.port))
          (parse_udp_header-pack_ip (to4 from.ip) from.ip payload from.port v refl h))
