-- ===== src/Tests/Relay.antt =====
-- Datagrams through the UDP relay, for image/agent/internal/proxy/udp.go.
use expressvpn_container.Base.{
  ◌*◌, String, true, false, Option, none, List, [], ◌∷◌, ◌++◌, map, ◌≡◌, ◌≢◌, refl, ◌==◌,
  if◌then◌else◌,
}
use expressvpn_container.Base.Dict.{lookup, insert, remove}
use expressvpn_container.Base.Text.{Bytes}
use expressvpn_container.Proxy.Address.{to4, Ip, Endpoint}
use expressvpn_container.Proxy.Datagram.{parse_udp_header, pack_udp_header}
use expressvpn_container.Proxy.Relay.{Sent, Event, datagram, new, step, run, find_flow, minute}
use expressvpn_container.Proxy.Relay.Flows.{Relayed, step-Relayed}
use expressvpn_container.Proxy.Relay.Idle.{datagrams_keep_flows}

-- The addresses here differ in the port, and two of them have a text of their own.
abbrev show : Endpoint → String
show e = if e.port == 53 then "target" else "client"

abbrev no_names : Bytes → Option Ip
no_names name = none

abbrev client : Endpoint
client = record { ip = 10 ∷ 0 ∷ 0 ∷ 9 ∷ []; port = 4000 }

abbrev target : Endpoint
target = record { ip = 8 ∷ 8 ∷ 8 ∷ 8 ∷ []; port = 53 }

-- A header for the target with the payload 7.
abbrev question : Bytes
question = 0 ∷ 0 ∷ 0 ∷ 1 ∷ 8 ∷ 8 ∷ 8 ∷ 8 ∷ 0 ∷ 53 ∷ 7 ∷ []

abbrev asked : List Event
asked = datagram 5 true client question ∷ []

abbrev answer : Event
answer = datagram 6 false target (9 ∷ [])

step-Relayed_example :
    Relayed show no_names asked answer
      (run show no_names asked (new 0))
      (step show no_names answer (run show no_names asked (new 0)))
step-Relayed_example = step-Relayed show no_names 0 asked answer

bodies : List Sent → List Bytes
bodies ss = map (λ (s : Sent). s.body) ss

-- The payload goes out, and the answer comes back behind the header, also with the tunnel down.
answered :
    bodies (run show no_names (asked ++ (answer ∷ [])) (new 0)).sent
    ≡ (0 ∷ 0 ∷ 0 ∷ 1 ∷ 8 ∷ 8 ∷ 8 ∷ 8 ∷ 0 ∷ 53 ∷ 9 ∷ []) ∷ (7 ∷ []) ∷ []
unfolding bodies run step lookup find_flow parse_udp_header insert remove pack_udp_header to4
answered = refl

datagrams_keep_flows_example :
    lookup "client"
      (run show no_names
        (datagram (60 * minute) true target (9 ∷ []) ∷ [])
        (run show no_names asked (new 0))).flows
    ≢ none
unfolding run step lookup find_flow parse_udp_header insert remove pack_udp_header to4
datagrams_keep_flows_example =
    datagrams_keep_flows show no_names "client" (datagram (60 * minute) true target (9 ∷ []) ∷ [])
      (run show no_names asked (new 0)) (refl, tt) (λ e. cc e)
