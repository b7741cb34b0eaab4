-- ===== src/Reconciler/Actions.antt =====
-- The user's actions: image/agent/internal/reconciler/actions.go, and what they call in
-- reconciler.go. They change what is wanted, wake the loop, and wait for its result.
pub mod Outcomes
pub mod Settling
use expressvpn_container.Base.{
  ℕ, zero, suc, ◌+◌, ◌-◌, ◌*◌, ◌%◌, ◌≤◌, ◌<◌, String, Bool, true, false, not, ◌&&◌, ◌||◌, Option,
  none, some, List, [], ◌∷◌, ◌++◌, map, reverse, ◌≡◌, ◌≢◌, ◌↔◌, ◌⊎◌, inl, inr, refl, sym, ap, ◌∙◌,
  subst, ◌==◌, ltb, leb, str_eq, eq_iff, if◌then◌else◌, arith, Bool-cases, Option-cases, if_both,
  if_either, length, take, drop, get_or, set, replicate, filter,
}
use Prim.Native.String.{◌++◌ as cat}
use expressvpn_container.Base.Int.{pos}
use expressvpn_container.State
use expressvpn_container.State.{
  State, Connection, connected, disconnected, reconnecting, conn, set_connection, set_desired,
  is_connected, is_disconnected, is_error, want_connected, want_disconnected, wants_connected,
}
use expressvpn_container.Xvpn.Errors.{Err, CliError, cli, other}
use expressvpn_container.Config.{Config, FieldError}
use expressvpn_container.Config.Json.{Json, obj, str, field, end}
use expressvpn_container.Config.Store.{
  Store, Library, Patched, applied, refused, save_failed, apply_merge_patch,
}
use expressvpn_container.Reconciler.World.{World, Reconciler}

-- What the actions ask of `AccountDriver`, `LocationSource` and `Probers`.
pub data Asked : Type 0 where
  login : String → Asked
  logout refresh selfcheck probe : Asked

-- The configuration, the loop with the snapshot, whether a wake-up waits in the loop's channel,
-- and what was asked of the account, the locations and the probes (newest first).
pub record Agent : Type 0 where
  pub cfg : Store
  pub world : World
  pub woken : Bool
  pub asked : List Asked

-- How an action ends: with an error of its own or of what it calls, or with one of the
-- configuration's store.
pub data Done : Type 0 where
  fine : Done
  failed : Err → Done
  rejected : FieldError → Done
  not_saved : Done

-- Their answers, which may depend on all that was asked before. A probe may be missing.
pub record Services : Type 0 where
  pub login_error : List Asked → String → Option Err
  pub logout_error : List Asked → Option Err
  pub refresh_error : List Asked → Option Err
  pub selfcheck_error : Option (List Asked → Option Err)
  pub probe_error : Option (List Asked → Option Err)

abbrev pub own_error : String → String → Done
own_error code message = failed (cli (record { code = code; message = message; exit = pos 0 }))

abbrev pub done_by : Option Err → Done
done_by none = fine
done_by (some e) = failed e

-- `r.st.Update(f)`
abbrev pub update : (State → State) → Agent → Agent
update f a = record a { world = record a.world { st = f a.world.st } }

-- `Wake`: the channel holds one wake-up at most.
abbrev pub wake : Agent → Agent
wake a = record a { woken = true }

-- `forgetConnection`
unfoldable pub forget_connection : String → Agent → Agent
forget_connection reason a = record a {
  world = record a.world { r = record a.world.r { force_reason = reason } };
}

-- `ResetRetries`
unfoldable pub reset_retries : Agent → Agent
reset_retries a = wake (record a {
  world = record a.world { r = record a.world.r { connect_failures = 0; next_retry_at = 0 } };
})

abbrev pub name_of : Connection → String
name_of Connection.disconnected = "disconnected"
name_of Connection.connecting = "connecting"
name_of Connection.connected = "connected"
name_of Connection.reconnecting = "reconnecting"
name_of Connection.error = "error"

-- `==` on connections
abbrev pub conn_eq : Connection → Connection → Bool
conn_eq a b = str_eq (name_of a) (name_of b)

abbrev pub connection_failed : Option State.Error → Done
connection_failed none = failed (other "connection failed")
connection_failed (some e) = own_error e.code e.message

-- `waitConnection`, for the snapshots that its channel delivers before its time is over.
unfoldable pub wait_connection : Connection → List State → Done
wait_connection target [] = failed (other (cat "timed out waiting for " (name_of target)))
wait_connection target (s ∷ ss) =
    let rest = wait_connection target ss in
    if conn_eq (conn s) target
    then fine
    else if is_error (conn s)
    then connection_failed s.last_error
    else rest

-- The body of the patch that sets the location.
abbrev pub location_patch : String → Json
location_patch l = obj (field "expressvpn" (obj (field "location" (str l) end)) end)

-- What `Connect` writes into the snapshot.
unfoldable pub connect_wanted : State → State
connect_wanted s =
    let s1 = set_desired want_connected s in
    let s2 = if is_error (conn s1) then set_connection disconnected s1 else s1 in
    record s2 { last_error = none }

-- What the subscription delivers during a wait depends on what the loop and others do. `seen` is
-- given the agent as it is when the wait begins.
module _ (lib : Library) (services : Services) (seen : Agent → List State) where
  -- `Connect` from the change of the snapshot on.
  unfoldable pub connect_now : Agent → Done × Agent
  connect_now a =
      let a1 = reset_retries (update connect_wanted a) in (wait_connection connected (seen a1), a1)

  after_patch : Patched × Store → Agent → Done × Agent
  unfolding connect_now
  after_patch (applied ks, c) a = connect_now (record a { cfg = c })
  after_patch (refused e, c) a = (rejected e, record a { cfg = c })
  after_patch (save_failed, c) a = (not_saved, record a { cfg = c })

  -- `Connect`, with whether the configuration can be saved.
  unfoldable pub connect : Bool → String → Agent → Done × Agent
  unfolding after_patch
  connect saved location a =
      if not (str_eq location "")
      then after_patch (apply_merge_patch lib saved (some (location_patch location)) a.cfg) a
      else connect_now a

  -- `Disconnect`
  unfoldable pub disconnect : Agent → Done × Agent
  disconnect a =
      let a1 = wake (update (set_desired want_disconnected) a) in
      (wait_connection disconnected (seen a1), a1)

  -- `Reconnect`
  unfoldable pub reconnect : Agent → Done × Agent
  reconnect a =
      let a1 =
        reset_retries (forget_connection "user_request" (update (set_connection reconnecting) a)) in
      if not (wants_connected a.world.st.desired)
      then (own_error "not_connected" "nothing to reconnect: desired state is disconnected", a)
      else (wait_connection connected (seen a1), a1)

  abbrev pub ask : Asked → Agent → Agent
  ask q a = record a { asked = q ∷ a.asked }

  -- After a login the locations are asked for, in a goroutine of their own.
  after_login : Option Err → Agent → Done × Agent
  after_login (some e) a = (failed e, a)
  after_login none a = (fine, ask refresh a)

  -- `Login`
  unfoldable pub log_in : String → Agent → Done × Agent
  unfolding after_login
  log_in code a =
      if str_eq code ""
      then (own_error "invalid_activation_code" "activation code is empty", a)
      else after_login (services.login_error a.asked code) (ask (login code) a)

  -- `Logout`
  unfoldable pub log_out : Agent → Done × Agent
  log_out a = (done_by (services.logout_error a.asked), ask logout a)

  -- `RefreshLocations`
  unfoldable pub refresh_locations : Agent → Done × Agent
  refresh_locations a = (done_by (services.refresh_error a.asked), ask refresh a)

  by_probe : Option (List Asked → Option Err) → Asked → String → Agent → Done × Agent
  by_probe none q message a = (own_error "not_implemented" message, a)
  by_probe (some f) q message a = (done_by (f a.asked), ask q a)

  -- `Selfcheck`
  unfoldable pub self_check : Agent → Done × Agent
  unfolding by_probe
  self_check a = by_probe services.selfcheck_error selfcheck "self-check is not available yet" a

  -- `ProbeUplink`
  unfoldable pub probe_uplink : Agent → Done × Agent
  unfolding by_probe
  probe_uplink a = by_probe services.probe_error probe "uplink probe is not available yet" a
