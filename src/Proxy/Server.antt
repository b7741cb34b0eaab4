-- ===== src/Proxy/Server.antt =====
-- One client of the proxy, from its greeting to the end of its connection: `handle`,
-- `handleConnect` and `handleUDPAssociate` of image/agent/internal/proxy/server.go and udp.go, and
-- `resolve` of socks5.go.
use expressvpn_container.Base.{
  if_both, ℕ, Bool, false, not, Option, none, some, List, [], ◌∷◌, ◌≡◌, refl, ◌⊎◌, inl, inr, ◌==◌,
  if◌then◌else◌,
}
use expressvpn_container.Base.Text.{Bytes}
use expressvpn_container.Proxy.Conn.{Conn, Error, unsupported_addr, Result, ok, err, write}
use expressvpn_container.Proxy.Address.{Ip, AddrSpec, Endpoint, ipv4_zero}
use expressvpn_container.Proxy.Socks5.{Credentials, read_handshake, read_request, reply}

-- What the server has and what it calls: whether the tunnel is up, the resolver, the dialer (which
-- gives the local address of the new connection), the UDP relay's port where there is a relay,
-- the published port (0 when none is known), and how many bytes a relayed connection carries each
-- way.
pub record Server : Type 0 where
  pub gate : Bool
  pub resolver : Bytes → Option Ip
  pub dial : Endpoint → Option Endpoint
  pub udp : Option ℕ
  pub published_port : ℕ
  pub carried : Endpoint → ℕ × ℕ

-- What serving a client did: its connection, the names resolved, the addresses dialed and the
-- bytes counted.
pub record Served : Type 0 where
  pub conn : Conn
  pub asked : List Bytes
  pub dialed : List Endpoint
  pub counted : ℕ × ℕ

abbrev pub ended : Conn → Served
ended c = record { conn = c; asked = []; dialed = []; counted = (0, 0) }

-- A reply whose own failure is not looked at.
abbrev pub refused : ℕ → Conn → Conn
refused rep c = (write (reply rep none) c).1

-- The name that `resolve` asks for.
abbrev pub names : AddrSpec → List Bytes
names a = elim a.host [ [] ↦ [] | b ∷ bs ↦ (b ∷ bs) ∷ [] ]

at_port : ℕ → Option Ip → Option Endpoint
at_port port none = none
at_port port (some ip) = some (record { ip = ip; port = port })

-- `resolve`
unfoldable pub resolve : Server → AddrSpec → Option Endpoint
unfolding at_port
resolve s a = elim a.host [
  | [] ↦ some (record { ip = a.ip; port = a.port })
  | b ∷ bs ↦ at_port a.port (s.resolver (b ∷ bs))
]

-- The reply to a client that is connected; without it nothing is relayed.
relay : Server → AddrSpec → Endpoint → Result (Unit {0}) × Conn → Served
relay s a t (err _, c) = record { conn = c; asked = names a; dialed = t ∷ []; counted = (0, 0) }
relay s a t (ok _, c) = record { conn = c; asked = names a; dialed = t ∷ []; counted = s.carried t }

dial_target : Server → AddrSpec → Endpoint → Option Endpoint → Conn → Served
unfolding relay
dial_target s a t none c = record {
  conn = refused 3 c;
  asked = names a;
  dialed = t ∷ [];
  counted = (0, 0);
}
dial_target s a t (some local) c = relay s a t (write (reply 0 (some local)) c)

connect_to : Server → AddrSpec → Option Endpoint → Conn → Served
unfolding dial_target
connect_to s a none c = record (ended (refused 4 c)) { asked = names a }
connect_to s a (some t) c = dial_target s a t (s.dial t) c

-- `handleConnect`
unfoldable pub handle_connect : Server → AddrSpec → Conn → Served
unfolding connect_to
handle_connect s a c = if not s.gate then ended (refused 3 c) else connect_to s a (resolve s a) c

associate : Server → Option ℕ → Conn → Conn
associate s none c = refused 1 c
associate s (some own) c =
    let port = if s.published_port == 0 then own else s.published_port in
    (write (reply 0 (some (record { ip = ipv4_zero; port = port }))) c).1

-- `handleUDPAssociate`, up to the wait for the client to hang up.
unfoldable pub handle_udp_associate : Server → Conn → Served
unfolding associate
handle_udp_associate s c = if not s.gate then ended (refused 3 c) else ended (associate s s.udp c)

by_command : Server → ℕ × AddrSpec → Conn → Served
by_command s (cmd, a) c =
    if cmd == 1
    then handle_connect s a c
    else if cmd == 3
    then handle_udp_associate s c
    else ended (refused 7 c)

after_request : Server → Result (ℕ × AddrSpec) × Conn → Served
unfolding by_command
after_request s (ok r, c) = by_command s r c
after_request s (err unsupported_addr, c) = ended (refused 8 c)
after_request s (err _, c) = ended c

after_handshake : Server → Result (Unit {0}) × Conn → Served
unfolding after_request
after_handshake s (ok _, c) = after_request s (read_request c)
after_handshake s (err _, c) = ended c

-- `handle`, where `auth` is what the configuration asks of clients.
unfoldable pub handle : Server → Option Credentials → Conn → Served
unfolding after_handshake
handle s auth c = after_handshake s (read_handshake auth c)

-- Neither a name was resolved nor an address dialed nor a byte relayed.
pub record Silent (x : Served) : Type 0 where
  pub no_names : x.asked ≡ []
  pub no_dials : x.dialed ≡ []
  pub no_bytes : x.counted ≡ (0, 0)

ended-Silent : (c : Conn) → Silent (ended c)
ended-Silent c = record { no_names = refl; no_dials = refl; no_bytes = refl }

by_command-Silent :
    (s : Server) (r : ℕ × AddrSpec) (c : Conn) → s.gate ≡ false → Silent (by_command s r c)
unfolding by_command handle_connect handle_udp_associate
by_command-Silent s (cmd, a) c shut = rw shut (
    if_both Silent (cmd == 1) (ended-Silent _)
      (if_both Silent (cmd == 3) (ended-Silent _) (ended-Silent _)))

after_request-Silent :
    (s : Server) (x : Result (ℕ × AddrSpec)) (c : Conn)
    → s.gate ≡ false
    → Silent (after_request s (x, c))
unfolding after_request
after_request-Silent s (ok r) c shut = by_command-Silent s r c shut
after_request-Silent s (err unsupported_addr) c shut = ended-Silent _
after_request-Silent s (err _) c shut = ended-Silent _

after_handshake-Silent :
    (s : Server) (x : Result (Unit {0})) (c : Conn)
    → (s.gate ≡ false) ⊎ ((e : Error) × (x ≡ err e))
    → Silent (after_handshake s (x, c))
unfolding after_handshake
after_handshake-Silent s (ok _) c (inl shut) =
    after_request-Silent s (read_request c).0 (read_request c).1 shut
after_handshake-Silent s (ok _) c (inr (e, h)) = cc h
after_handshake-Silent s (err _) c h = ended-Silent c

-- While the tunnel is down, and for a client that does not pass the handshake, nothing is
-- resolved, dialed or relayed, whatever the client sends.
pub handle-Silent :
    (s : Server) (auth : Option Credentials) (c : Conn)
    → (s.gate ≡ false) ⊎ ((e : Error) × ((read_handshake auth c).0 ≡ err e))
    → Silent (handle s auth c)
unfolding handle
handle-Silent s auth c h =
    after_handshake-Silent s (read_handshake auth c).0 (read_handshake auth c).1 h
