-- ===== src/Tests/Driver.antt =====
-- A daemon that obeys, for image/agent/internal/xvpn.
use expressvpn_container.Base.Strings.{trim_space}
use expressvpn_container.Base.{
  ◌≤◌, ℕ, ◌+◌, ◌/◌, Bool, true, false, List, [], ◌∷◌, ◌≡◌, ◌≢◌, refl, str_eq, if◌then◌else◌, arith,
}
use expressvpn_container.Base.Int.{pos}
use expressvpn_container.State.{initial}
use expressvpn_container.Xvpn.Errors.{classify_error}
use expressvpn_container.Xvpn.Parse.{parse_connection_state}
use expressvpn_container.Xvpn.Cli
use expressvpn_container.Xvpn.Cli.{
  raw_connection_state, run_ctl, set, Host, Session, Command, ctl, pause, exited, bad, good, Result,
}
use expressvpn_container.Xvpn.Manager.{
  attempts, try_once, ensure_disconnected, wait_connected, out_of_rounds, poll, connect,
  connect_timeout, connect_poll, disconnect_timeout, disconnect_poll, reads_connected,
  reads_disconnected,
}
use expressvpn_container.Xvpn.Manager.Waits.{ClockRuns, poll_ends}
use expressvpn_container.Xvpn.Manager.Fresh.{Fresh}
use expressvpn_container.Xvpn.Manager.Fresh.Established.{Confirmed, connect-Fresh}

-- The time that the pauses took.
abbrev clock : List Command → ℕ
clock [] = 0
clock (pause d ∷ log) = clock log + d
clock (ctl _ _ _ ∷ log) = clock log

abbrev told_to_connect : List Command → Bool
told_to_connect [] = false
told_to_connect (pause d ∷ log) = told_to_connect log
told_to_connect (ctl action _ _ ∷ log) =
    let before = told_to_connect log in if str_eq action "connect" then true else before

abbrev daemon : Host
daemon = record {
  answer =
      λ log args. exited (if told_to_connect log then "Connected\n" else "Disconnected\n") (pos 0);
  now = clock;
  cancelled = λ log. false;
  meanwhile = λ log s. s;
  login_file = λ log code. good "/tmp/code";
  error_text = λ e. "failed";
  decimal = λ n. "15";
}

daemon-ClockRuns : ClockRuns daemon
daemon-ClockRuns = record { forward = forward; pauses = λ d log. omega arith }
  where
    forward : (c : Command) (log : List Command) → clock log ≤ clock (c ∷ log)
    forward (pause d) log = omega arith
    forward (ctl _ _ _) log = omega arith

abbrev start : Session
unfolding initial
start = record { st = initial "1.0" 0; log = [] }

poll_ends_example :
    ((poll daemon reads_connected connect_poll connect_timeout
        (connect_timeout / connect_poll + 2)
        start).0
      ≢ out_of_rounds)
    × ((poll daemon reads_disconnected disconnect_poll disconnect_timeout
          (disconnect_timeout / disconnect_poll + 2)
          start).0
        ≢ out_of_rounds)
unfolding start
poll_ends_example = poll_ends daemon daemon-ClockRuns start

connect-Fresh_example :
    Fresh daemon (connect daemon "de" "wireguard" start).1.log
    × ((connect daemon "de" "wireguard" start).0 ≡ good tt
        → Confirmed daemon (connect daemon "de" "wireguard" start).1.log)
unfolding start
connect-Fresh_example = connect-Fresh daemon "de" "wireguard" start tt

connect_succeeds : (connect daemon "de" "wireguard" start).0 ≡ good tt
unfolding connect attempts try_once ensure_disconnected raw_connection_state run_ctl classify_error
    trim_space start set Cli.connect wait_connected poll parse_connection_state
connect_succeeds = refl
