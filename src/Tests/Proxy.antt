-- ===== src/Tests/Proxy.antt =====
-- Datagrams and clients of image/agent/internal/proxy on concrete inputs.
use expressvpn_container.Base.{
  false, true, Option, none, some, [], ◌∷◌, ◌++◌, ◌≡◌, refl, inl, arith,
}
use expressvpn_container.Base.Text.{Bytes}
use expressvpn_container.Proxy.Conn.{ok, Conn, read_full, write}
use expressvpn_container.Proxy.Address.{Ip, Endpoint, to4}
use expressvpn_container.Proxy.Handshake.{hello, credentials, conn, read_handshake_accepts}
use expressvpn_container.Proxy.Socks5.{
  Credentials, read_handshake, verify, read_request, read_addr, reply,
}
use expressvpn_container.Proxy.Datagram.{
  parse_udp_header, pack_udp_header, parse_udp_header-pack_udp_header,
}
use expressvpn_container.Proxy.Server.{
  Server, Silent, handle, handle_connect, resolve, handle-Silent,
}

abbrev nobody : Bytes → Option Ip
nobody name = none

abbrev dns : Endpoint
dns = record { ip = 8 ∷ 8 ∷ 8 ∷ 8 ∷ []; port = 53 }

parse_udp_header-pack_udp_header_example :
    parse_udp_header nobody (pack_udp_header dns ++ (1 ∷ 2 ∷ [])) ≡ some (10, dns)
unfolding pack_udp_header to4
parse_udp_header-pack_udp_header_example =
    parse_udp_header-pack_udp_header nobody dns (1 ∷ 2 ∷ []) (inl refl) (omega arith)

-- A greeting without a password, and a request to connect to 8.8.8.8:53.
abbrev client : Conn
client = record {
  input = 5 ∷ 1 ∷ 0 ∷ 5 ∷ 1 ∷ 0 ∷ 1 ∷ 8 ∷ 8 ∷ 8 ∷ 8 ∷ 0 ∷ 53 ∷ [];
  output = [];
  deaf = false;
}

abbrev down : Server
down = record {
  gate = false;
  resolver = nobody;
  dial = λ t. some dns;
  udp = some 1080;
  published_port = 0;
  carried = λ t. (7, 9);
}

abbrev up : Server
up = record down { gate = true }

handle-Silent_example : Silent (handle down none client)
handle-Silent_example = handle-Silent down none client (inl refl)

-- The client is refused while the tunnel is down, and served while it is up.
refused_down :
    (handle down none client).conn.output ≡ 5 ∷ 0 ∷ 5 ∷ 3 ∷ 0 ∷ 1 ∷ 0 ∷ 0 ∷ 0 ∷ 0 ∷ 0 ∷ 0 ∷ []
unfolding handle read_handshake read_full write verify read_request read_addr handle_connect reply
refused_down = refl

served_up : (handle up none client).dialed ≡ dns ∷ []
unfolding handle read_handshake read_full write verify read_request read_addr handle_connect reply
    resolve to4
served_up = refl

abbrev user : Option Credentials
user = some (record { username = 97 ∷ []; password = 98 ∷ 99 ∷ [] })

read_handshake_accepts_example :
    read_handshake user (conn (hello (0 ∷ 2 ∷ []) ++ (credentials user ++ (7 ∷ []))) [])
    ≡ (ok tt, conn (7 ∷ []) (5 ∷ 2 ∷ 1 ∷ 0 ∷ []))
read_handshake_accepts_example = read_handshake_accepts user (0 ∷ 2 ∷ []) (7 ∷ []) [] refl
