-- ===== src/Xvpn/Protocol.antt =====
-- The choice of the protocol: image/agent/internal/xvpn/protocol.go.
use expressvpn_container.Base.{
  String, Bool, true, false, not, ◌⊎◌, List, [], ◌∷◌, ◌≡◌, ◌≢◌, refl, str_eq, eq_iff, any,
  if◌then◌else◌, arith,
}
use expressvpn_container.State.{TriState, tri_unknown, tri_true, tri_false}

-- The protocols that need UDP at the uplink.
abbrev pub udp_protocols : List String
udp_protocols = "auto" ∷ "lightway_udp" ∷ "openvpn_udp" ∷ "wireguard" ∷ []

unfoldable pub needs_udp : String → Bool
needs_udp p = any (str_eq p) udp_protocols

by_uplink : String → TriState → String × String
by_uplink requested tri_true = (requested, "")
by_uplink requested tri_false = ("lightway_tcp", "uplink has no UDP")
by_uplink requested tri_unknown = ("lightway_tcp", "uplink UDP support unknown")

effective_of : String → String → TriState → String × String
effective_of requested mode udp =
    if not (str_eq mode "socks5")
    then (requested, "")
    else if not (needs_udp requested)
    then (requested, "")
    else by_uplink requested udp

-- `EffectiveProtocol`: the protocol handed to the daemon, and why it was replaced.
unfoldable pub effective_protocol : String → String → TriState → String × String
unfolding effective_of by_uplink
effective_protocol requested mode udp =
    effective_of (if str_eq requested "" then "auto" else requested) mode udp

tcp-needs_udp : needs_udp "lightway_tcp" ≡ false
unfolding needs_udp
tcp-needs_udp = refl

effective_of-needs_udp :
    (requested mode : String) (udp : TriState)
    → needs_udp (effective_of requested mode udp).0 ≡ true
    → (mode ≢ "socks5") ⊎ (udp ≡ tri_true)
unfolding effective_of by_uplink
effective_of-needs_udp requested mode udp h = ground (arith, eq_iff mode "socks5", tcp-needs_udp)

-- The daemon gets a protocol that needs UDP only if the uplink is not a socks5 one, or is known
-- to carry UDP.
pub effective-needs_udp :
    (requested mode : String) (udp : TriState)
    → needs_udp (effective_protocol requested mode udp).0 ≡ true
    → (mode ≢ "socks5") ⊎ (udp ≡ tri_true)
unfolding effective_protocol
effective-needs_udp requested mode udp h = effective_of-needs_udp _ mode udp h

-- The requested protocol, or "auto" where none is requested, is replaced only with a reason, and
-- a reason is given only for a protocol that needs UDP over a socks5 uplink.
pub effective_reason :
    (requested mode : String) (udp : TriState)
    → let asked = if str_eq requested "" then "auto" else requested in
      (effective_protocol requested mode udp ≡ (asked, ""))
      ⊎ ((mode ≡ "socks5")
          × (needs_udp asked ≡ true)
          × (udp ≢ tri_true)
          × ((effective_protocol requested mode udp).0 ≡ "lightway_tcp"))
unfolding effective_protocol
effective_reason requested mode tri_true = ground arith
effective_reason requested mode udp = ground (arith, eq_iff mode "socks5")
