-- ===== src/Xvpn/Manager.antt =====
-- Sessions of the daemon: image/agent/internal/xvpn/manager.go.
pub mod Waits
pub mod Fresh
use expressvpn_container.Base.{
  ◌%◌, ℕ, suc, zero, ◌+◌, ◌*◌, ◌/◌, String, Bool, true, false, not, ◌&&◌, ◌||◌, Option, none, some,
  List, [], ◌∷◌, ltb, ◌==◌, str_eq, if◌then◌else◌,
}
use expressvpn_container.Base.Int.{pos}
use expressvpn_container.Config.{ExpressVpn}
use expressvpn_container.State
use expressvpn_container.State.{
  State, connected, reconnecting, disconnected, logged_in, logged_out, want_disconnected,
  set_connection, set_desired, is_connected, is_disconnected, conn, wants_connected,
}
use expressvpn_container.Xvpn.Errors.{Err, cli, other}
use expressvpn_container.Xvpn.Parse.{
  Status, raw_disconnected, parse_connection_state, protocol_to_cli,
}
use expressvpn_container.Xvpn.Cli
use expressvpn_container.Xvpn.Cli.{
  Host, Session, Command, pause, M, Result, good, bad, pure, raise, ◌>>=◌, ◌>>◌, update,
  raw_connection_state, get, set, connection_state,
}

-- `defaultTimings`, in nanoseconds, and the number of attempts.
abbrev pub connect_timeout : ℕ
connect_timeout = 45000000000

abbrev pub connect_poll : ℕ
connect_poll = 500000000

abbrev pub disconnect_timeout : ℕ
disconnect_timeout = 15000000000

abbrev pub disconnect_poll : ℕ
disconnect_poll = 300000000

abbrev pub retry_delay : ℕ
retry_delay = 2000000000

abbrev pub connect_retries : ℕ
connect_retries = 3

abbrev refusal : String → String → Err
refusal code text = cli (record { code = code; message = text; exit = pos 0 })

-- `ctx.Err()`
abbrev cancel_error : Err
cancel_error = other "context canceled"

abbrev pub paused : ℕ → Session → Session
paused d w = record w { log = pause d ∷ w.log }

-- How a wait ends. The rounds run out only if the clock stands still.
pub data Wait : Type 0 where
  reached : Wait
  late : Result String → Wait
  stopped : Wait
  out_of_rounds : Wait

abbrev pub reads_connected : Result String → Bool
reads_connected (good raw) = is_connected (parse_connection_state raw)
reads_connected (bad _) = false

abbrev pub reads_disconnected : Result String → Bool
reads_disconnected (good raw) = str_eq raw raw_disconnected
reads_disconnected (bad _) = false

abbrev last_state : Result String → String
last_state (good raw) = raw
last_state (bad _) = ""

-- `LoggedIn` of the status, where there is one.
abbrev knows_account : Result Status → Bool
knows_account (good s) = s.logged_in
knows_account (bad _) = false

-- An error that makes further attempts pointless.
abbrev pub hopeless : Err → Bool
hopeless (cli e) = str_eq e.code "unknown_location" || str_eq e.code "not_logged_in"
hopeless (other _) = false

module _ (h : Host) where
  -- The loop of `waitConnected` and `waitDisconnected`: ask, look at the clock, pause.
  unfoldable pub poll : (Result String → Bool) → ℕ → ℕ → ℕ → Session → Wait × Session
  poll enough gap deadline zero w = (out_of_rounds, w)
  poll enough gap deadline (suc n) w =
      let (r, w1) = raw_connection_state h w in
      let later = poll enough gap deadline n (paused gap w1) in
      if enough r
      then (reached, w1)
      else if ltb deadline (h.now w1.log)
      then (late r, w1)
      else if h.cancelled w1.log
      then (stopped, w1)
      else later

  connected_result : Wait × Session → Result (Unit {0}) × Session
  connected_result (reached, w) = (good tt, w)
  connected_result (stopped, w) = (bad cancel_error, w)
  connected_result (_, w) =
      (bad (refusal "connect_failed" "tunnel did not reach Connected in 45s"), w)

  -- `waitConnected`
  unfoldable pub wait_connected : M (Unit {0})
  unfolding connected_result
  wait_connected w = connected_result (
      poll reads_connected connect_poll (h.now w.log + connect_timeout)
        (connect_timeout / connect_poll + 2) w)

  disconnected_result : Wait × Session → Result (Unit {0}) × Session
  disconnected_result (reached, w) = (good tt, w)
  disconnected_result (stopped, w) = (bad cancel_error, w)
  disconnected_result (late r, w) = (bad (refusal "disconnect_failed" (last_state r)), w)
  disconnected_result (out_of_rounds, w) = (bad (refusal "disconnect_failed" ""), w)

  -- `waitDisconnected`; of the message only the last state is kept.
  unfoldable pub wait_disconnected : M (Unit {0})
  unfolding disconnected_result
  wait_disconnected w = disconnected_result (
      poll reads_disconnected disconnect_poll (h.now w.log + disconnect_timeout)
        (disconnect_timeout / disconnect_poll + 2) w)

  -- `Disconnect`
  unfoldable pub disconnect : M (Unit {0})
  disconnect = do
    Cli.disconnect h
    update
        (λ s. record s { expressvpn = record s.expressvpn { public_ip = ""; connected_at = none } })
    wait_disconnected

  -- `ensureDisconnected`
  unfoldable pub ensure_disconnected : M (Unit {0})
  ensure_disconnected w =
      let (r, w1) = raw_connection_state h w in
      if reads_disconnected r then (good tt, w1) else disconnect w1

  set_protocol : String → M (Unit {0})
  set_protocol protocol w =
      if str_eq protocol "" then (good tt, w) else set h "protocol" (protocol_to_cli protocol) w

  value_or_empty : String → M String
  value_or_empty what w = let (r, w1) = get h what w in (good (last_state r), w1)

  -- `afterConnect`
  unfoldable pub after_connect : M (Unit {0})
  unfolding value_or_empty
  after_connect = do
    region ← value_or_empty "region"
    pubip ← value_or_empty "pubip"
    λ w.
        update
          (λ s. record s {
            expressvpn = record s.expressvpn {
              location =
                  if str_eq region "" || str_eq region "smart"
                  then s.expressvpn.location
                  else region;
              public_ip = pubip;
              connected_at = some (h.now w.log);
            };
          })
          w

  after_wait : Result (Unit {0}) × Session → Result (Option Err) × Session
  after_wait (bad e, w) = (good (some e), w)
  after_wait (good _, w) = (good none, (after_connect w).1)

  after_command : Result (Unit {0}) × Session → Result (Option Err) × Session
  unfolding after_wait
  after_command (bad e, w) = (good (some e), w)
  after_command (good _, w) = after_wait (wait_connected w)

  -- One attempt: over at once, or ended with the error that another attempt may mend.
  unfoldable pub try_once : String → String → M (Option Err)
  unfolding set_protocol after_command
  try_once location protocol = do
    ensure_disconnected
    set_protocol protocol
    λ w. after_command (Cli.connect h location 45 w)

  judge : ℕ → ℕ → M (Unit {0}) → Result (Option Err) × Session → Result (Unit {0}) × Session
  judge left delay again (bad e, w) = (bad e, w)
  judge left delay again (good none, w) = (good tt, w)
  judge left delay again (good (some e), w) =
      if hopeless e
      then (bad e, w)
      else if left == 0
      then (bad (refusal "connect_failed" (h.error_text e)), w)
      else if h.cancelled w.log
      then (bad cancel_error, w)
      else again (paused delay w)

  -- The attempts that are left, with the pause before the next one.
  unfoldable pub attempts : String → String → ℕ → ℕ → M (Unit {0})
  unfolding judge
  attempts location protocol zero delay w = (bad (refusal "connect_failed" ""), w)
  attempts location protocol (suc n) delay w =
      judge n delay (attempts location protocol n (delay * 2)) (try_once location protocol w)

  -- `Connect`
  unfoldable pub connect : String → String → M (Unit {0})
  connect location protocol w = attempts location protocol connect_retries retry_delay w

  toggles : List (String × Bool) → M (Unit {0})
  toggles [] = pure tt
  toggles ((key, on) ∷ ts) = do set h key (if on then "true" else "false"); toggles ts

  -- `ApplySettings`. The switches are set in the order of this list, which Go leaves open.
  unfoldable pub apply_settings : ExpressVpn → M (Unit {0})
  unfolding toggles
  apply_settings c = toggles (
      ("blockAds", c.protections.ads)
      ∷ ("blockTrackers", c.protections.trackers)
      ∷ ("blockMalicious", c.protections.malicious)
      ∷ ("blockAdult", c.protections.adult)
      ∷ [])

  set_auth : State.Auth → M (Unit {0})
  set_auth a = update (λ s. record s { expressvpn = record s.expressvpn { auth = a } })

  -- `Login`
  unfoldable pub login : String → M (Unit {0})
  unfolding set_auth
  login code w =
      let (r, w1) = Cli.status h w in
      if knows_account r then set_auth logged_in w1 else (Cli.login h code >> set_auth logged_in) w1

  -- `Logout`
  unfoldable pub logout : M (Unit {0})
  logout = do
    Cli.logout h
    update (λ s. set_desired want_disconnected (record s {
      expressvpn = record s.expressvpn { auth = logged_out; connection = disconnected };
    }))

  relock : Result String → M (Unit {0})
  relock (bad e) w = (good tt, w)
  relock (good v) w =
      if str_eq v "false" then (good tt, w) else (good tt, (set h "networklock" "false" w).1)

  -- `ensureNetworkLockOff`
  unfoldable pub ensure_network_lock_off : M (Unit {0})
  unfolding relock
  ensure_network_lock_off w = let (r, w1) = get h "networklock" w in relock r w1

  by_daemon : Result State.Connection → Session → Bool × Session
  by_daemon (bad e) w = (false, w)
  by_daemon (good k) w =
      if wants_connected w.st.desired && is_connected (conn w.st) && not (is_connected k)
      then (true, record w { st = set_connection reconnecting w.st })
      else if is_disconnected (conn w.st) && is_connected k
      then (false, record w { st = set_connection connected w.st })
      else (false, w)

  -- `superviseOnce`: whether the reconciler is woken.
  unfoldable pub supervise_once : Session → Bool × Session
  unfolding by_daemon
  supervise_once w = let (r, w1) = connection_state h w in by_daemon r w1

  -- A tick of `Supervise`, the one that makes `polls`.
  unfoldable pub supervise_tick : ℕ → Session → Bool × Session
  supervise_tick polls w =
      supervise_once (if polls % 20 == 0 then (ensure_network_lock_off w).1 else w)
