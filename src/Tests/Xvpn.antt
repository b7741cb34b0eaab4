-- ===== src/Tests/Xvpn.antt =====
-- Protocols chosen by image/agent/internal/xvpn/protocol.go.
use expressvpn_container.Base.{String, ◌≡◌, ◌≢◌, ◌⊎◌, refl}
use expressvpn_container.State.{tri_true}
use expressvpn_container.Xvpn.Protocol.{needs_udp, effective_protocol, effective-needs_udp}

abbrev socks : String
socks = "socks5"

effective-needs_udp_example : (socks ≢ "socks5") ⊎ (tri_true ≡ tri_true)
unfolding effective_protocol needs_udp
effective-needs_udp_example = effective-needs_udp "wireguard" socks tri_true refl
