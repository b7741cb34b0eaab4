-- ===== src/Tests/Selfcheck.antt =====
-- A self check on a settled agent, for image/agent/internal/selfcheck/selfcheck.go.
use expressvpn_container.Base.{String, true, false, some, [], ◌∷◌, ◌≡◌, refl}
use expressvpn_container.State.{
  State, initial, connected, up, want_connected, set_connection, set_desired,
}
use expressvpn_container.Selfcheck.{Outside, Look, run, judge, wait_from}
use expressvpn_container.Selfcheck.Verdicts.{Vouched, run-Vouched}

abbrev steady : State
unfolding initial
steady =
    let s = set_desired want_connected (set_connection connected (initial "1.0" 0)) in
    record s { uplink = record s.uplink { status = up } }

abbrev look : Look
look = record { seen = steady; over = false }

abbrev world : String → Outside
world ip = record {
  looks = λ h. look ∷ look ∷ look ∷ [];
  state = λ h. steady;
  mode = λ h. "socks5";
  via_proxy = λ h. some ("1.2.3.4", "DE");
  via_uplink = λ h. some ip;
  resolves = some (λ h. true);
  tunnel_ns = some "10.1.0.1";
}

run-Vouched_example : Vouched (world "5.6.7.8") (run (world "5.6.7.8") [])
run-Vouched_example = run-Vouched (world "5.6.7.8") []

settled_ok : (run (world "5.6.7.8") []).verdict ≡ "ok"
unfolding steady run judge wait_from
settled_ok = refl

-- The proxy shows the address of the uplink.
leak_found : (run (world "1.2.3.4") []).reasons ≡ "same_ip" ∷ []
unfolding steady run judge wait_from
leak_found = refl
