-- ===== src/Reconciler/Connecting.antt =====
-- The fourth layer of `reconcile` in image/agent/internal/reconciler/reconciler.go: connecting,
-- and what follows a failed attempt.
use expressvpn_container.Base.{
  ℕ, ◌+◌, ◌-◌, ◌*◌, ◌^◌, String, Bool, false, not, ◌&&◌, ◌||◌, Option, none, some, ◌∷◌, ltb, leb,
  str_eq, if◌then◌else◌,
}
use expressvpn_container.Config.{Config}
use expressvpn_container.State.{
  State, Connection, disconnected, connecting, connected, reconnecting, error, conn, set_connection,
  set_udp, is_connected, is_disconnected, is_reconnecting, is_connecting, is_error, is_unknown,
  TriState,
}
use expressvpn_container.Xvpn.Errors.{Err}
use expressvpn_container.Xvpn.Protocol.{effective_protocol}
use expressvpn_container.Reconciler.World.{
  ConnSpec, spec_eq, Reconciler, wait_udp, connect, disconnect, World, Drivers, update, called,
  fail, err_code,
}

abbrev pub second : ℕ
second = 1000000000

abbrev pub max_reconnect_failures : ℕ
max_reconnect_failures = 10

-- `time.Second << (n - 1)`, at most a minute. Below ten failures the shift does not overflow.
unfoldable pub backoff_of : ℕ → ℕ
backoff_of n = let b = second * 2 ^ (n - 1) in if ltb (60 * second) b then 60 * second else b

-- The counter and the time of the next attempt, after failure number `n`.
unfoldable pub count_failure : ℕ → Reconciler → Reconciler
unfolding backoff_of
count_failure now r =
    let n = r.connect_failures + 1 in
    if ltb n max_reconnect_failures
    then record r { connect_failures = n; next_retry_at = now + backoff_of n }
    else record r { connect_failures = n }

unfoldable pub spec_of : Config → ConnSpec
spec_of c = record { location = c.expressvpn.location; protocol = c.expressvpn.protocol }

-- The configuration differs from the one of the running connection.
abbrev pub spec_changed : Option ConnSpec → ConnSpec → Bool
spec_changed none want = false
spec_changed (some a) want = not (spec_eq a want)

unfoldable pub needs_connect : Reconciler → Connection → ConnSpec → Bool
needs_connect r k want =
    not (str_eq r.force_reason "")
    || is_disconnected k
    || is_reconnecting k
    || is_error k
    || (spec_changed r.applied_conn want && is_connected k)

-- What the snapshot shows while the driver works.
unfoldable pub mark_connecting : State → State
mark_connecting s =
    if is_connected (conn s)
    then set_connection reconnecting s
    else if not (is_reconnecting (conn s))
    then set_connection connecting s
    else s

unfoldable pub set_protocol : String → String × String → State → State
set_protocol requested (effective, reason) s = record s {
  expressvpn = record s.expressvpn {
    protocol = record { requested = requested; effective = effective; reason = reason };
  };
}

unfoldable pub after_connected : ConnSpec → State → State
after_connected want s = record s {
  expressvpn = record s.expressvpn {
    connection = connected;
    location = if not (str_eq want.location "") then want.location else s.expressvpn.location;
  };
  last_error = none;
}

module _ (d : Drivers) where
  -- `onConnectFailure`. The driver's own retries are stopped first, whatever that returns.
  unfoldable pub on_connect_failure : Err → World → World
  on_connect_failure e w =
      let r' = count_failure (d.now w.calls) w.r in
      let quiet = called disconnect (d.disconnection w.calls w.st).1 (record w { r = r' }) in
      if leb max_reconnect_failures r'.connect_failures
      then update (set_connection error) (fail d "reconnect_exhausted" e quiet)
      else (let failed =
            update (set_connection error) (fail d (err_code e "connect_failed") e quiet) in
          record failed { timers = backoff_of r'.connect_failures ∷ failed.timers })

  -- The UDP support by which the protocol is chosen: the published one, or that of the probe
  -- under way.
  unfoldable pub settle_udp : Config → World → TriState × World
  settle_udp c w =
      let known = w.st.uplink.udp_supported in
      let (v, s') = d.udp w.calls w.st in
      let asked = called wait_udp s' w in
      if str_eq c.uplink.mode "socks5" && str_eq c.uplink.socks5.udp "auto" && is_unknown known
      then if is_unknown v then (known, asked) else (v, update (set_udp v) asked)
      else (known, w)

  -- What follows `Connect` of the driver.
  unfoldable pub finish_connect : ConnSpec → Option Err → World → World
  finish_connect want (some e) w = on_connect_failure e w
  finish_connect want none w = update (after_connected want) (record w {
    r = record w.r { connect_failures = 0; next_retry_at = 0; applied_conn = some want };
  })

  -- One attempt, from the moment it is decided on.
  unfoldable pub attempt : Config → World → World
  attempt c w =
      let want = spec_of c in
      let requested = if str_eq want.protocol "" then "auto" else want.protocol in
      let (udp, w1) = settle_udp c (update mark_connecting w) in
      let chosen = effective_protocol requested c.uplink.mode udp in
      let w2 = update (set_protocol requested chosen) w1 in
      let (e, s') = d.connection w2.calls want.location chosen.0 w2.st in
      finish_connect want e (called (connect want.location chosen.0) s' w2)

  -- No attempt is due: it is not forced, and the failures are too many or the time has not come.
  unfoldable pub must_wait : World → Bool
  must_wait w =
      str_eq w.r.force_reason ""
      && (leb max_reconnect_failures w.r.connect_failures
          || not (ltb w.r.next_retry_at (d.now w.calls)))

  -- The branch for a desired connection. The reason to reconnect is used up whether or not an
  -- attempt follows.
  unfoldable pub want_connection : Config → World → World
  want_connection c w =
      let taken = record w { r = record w.r { force_reason = "" } } in
      if not (needs_connect w.r (conn w.st) (spec_of c))
      then taken
      else if must_wait w
      then taken
      else attempt c taken

  unfoldable pub finish_disconnect : Option Err → World → World
  finish_disconnect (some e) w = fail d "disconnect_failed" e w
  finish_disconnect none w =
      update (set_connection disconnected) (record w { r = record w.r { applied_conn = none } })

  -- The branch for no desired connection.
  unfoldable pub want_disconnection : World → World
  want_disconnection w =
      let (e, s') = d.disconnection w.calls w.st in
      if is_connected (conn w.st) || is_connecting (conn w.st) || is_reconnecting (conn w.st)
      then finish_disconnect e (called disconnect s' w)
      else w
