-- ===== src/Tests/Reconciler.antt =====
-- Passes of image/agent/internal/reconciler/reconciler.go with drivers that answer.
use expressvpn_container.Base.{
  String, Option, none, some, [], ◌∷◌, ◌≡◌, refl, str_eq, length, ◌≤◌, ◌*◌, ◌+◌, arith,
  if◌then◌else◌, false,
}
use expressvpn_container.Config
use expressvpn_container.Config.{Config, default, uplink_eq}
use expressvpn_container.State
use expressvpn_container.State.{
  State, initial, want_connected, set_desired, set_connection, connected, tri_true, up,
}
use expressvpn_container.Xvpn.Errors.{Err, other}
use expressvpn_container.Reconciler.World.{Reconciler, World, Drivers, new, stop, next, world}
use expressvpn_container.Reconciler.Connecting.{second, count_failure, spec_of, attempt}
use expressvpn_container.Reconciler.Pass.{reconcile, run, killswitch_layer, finish_killswitch}
use expressvpn_container.Reconciler.Safety.{Guarded, started, run-Guarded}
use expressvpn_container.Reconciler.Retry.{
  Outcome, connect_answer, count_failure_due, attempt-Outcome,
}
use expressvpn_container.Reconciler.Progress.{Willing, Ready}
use expressvpn_container.Reconciler.Progress.Settling.{Standing, run-Settled}
use expressvpn_container.Base.{replicate}
use expressvpn_container.Reconciler.Reverts.{Settled, reconcile_rests, killswitch_revert_skipped}
use expressvpn_container.Reconciler.Stale.{uplink_calls, uplink_revert_skipped}

abbrev pub text_of : Err → String
text_of (other t) = t
text_of _ = "failed"

abbrev pub shown : String → State.Uplink
shown mode = record {
  mode = mode;
  status = up;
  udp_supported = tri_true;
  endpoint = "";
  reason = "";
}

abbrev pub refused : String → Option Err
refused mode = if str_eq mode "socks5" then some (other "refused") else none

-- Drivers that refuse the socks5 mode, and a clock that counts calls.
abbrev pub drivers : Drivers
drivers = record {
  killswitch = λ cs u s. (refused u.mode, s);
  uplink = λ cs u s. (shown u.mode, refused u.mode, s);
  udp = λ cs s. (tri_true, s);
  settings = λ cs e s. (none, s);
  connection = λ cs l p s. (none, s);
  disconnection = λ cs s. (none, s);
  now = length;
  error_text = text_of;
}

abbrev pub host_mode : Config
unfolding default
host_mode = default

abbrev socks_mode : Config
socks_mode = record host_mode { uplink = record host_mode.uplink { mode = "socks5" } }

abbrev pub wanting : State
unfolding initial
wanting = set_desired want_connected (initial "1.0" 0)

run-Guarded_example :
    Guarded (run drivers (host_mode ∷ socks_mode ∷ host_mode ∷ []) (started wanting)).calls
run-Guarded_example = run-Guarded drivers (host_mode ∷ socks_mode ∷ host_mode ∷ []) wanting

abbrev pub after_three : Reconciler
unfolding new
after_three = record new { connect_failures = 3; next_retry_at = 9 }

count_failure_due_example :
    ((count_failure 7 after_three).connect_failures ≡ 4)
    × (7 + second ≤ (count_failure 7 after_three).next_retry_at)
    × ((count_failure 7 after_three).next_retry_at ≤ 7 + 60 * second)
unfolding after_three
count_failure_due_example = count_failure_due 7 after_three (omega arith)

abbrev pub waiting : World
waiting = record { r = after_three; st = wanting; calls = []; timers = [] }

attempt-Outcome_example :
    Outcome drivers host_mode
      (connect_answer drivers host_mode waiting)
      waiting
      (attempt drivers host_mode waiting)
attempt-Outcome_example = attempt-Outcome drivers host_mode waiting

abbrev settled : World
unfolding spec_of
settled = record {
  r = record after_three {
    applied_ks = some host_mode.uplink;
    applied_uplink = some host_mode.uplink;
    applied_evpn = some host_mode.expressvpn;
    applied_conn = some (spec_of host_mode);
  };
  st = set_connection connected wanting;
  calls = [];
  timers = [];
}

settled-Settled : Settled host_mode settled
unfolding Config.expressvpn_eq settled host_mode wanting after_three
settled-Settled = record {
  killswitch = refl;
  uplink = refl;
  settings = refl;
  connection = refl;
  desired = refl;
  spec = refl;
  unforced = refl;
}

reconcile_rests_example : reconcile drivers host_mode settled ≡ settled
reconcile_rests_example = reconcile_rests drivers host_mode settled settled-Settled

socks-host : uplink_eq host_mode.uplink socks_mode.uplink ≡ false
unfolding uplink_eq host_mode
socks-host = refl

killswitch_revert_skipped_example :
    (w' : World) × (killswitch_layer drivers socks_mode settled ≡ stop w')
    × (w'.st.killswitch.active ≡ false)
    × (killswitch_layer drivers host_mode w' ≡ next w')
unfolding settled
killswitch_revert_skipped_example =
    killswitch_revert_skipped drivers socks_mode host_mode settled (other "refused") refl socks-host
      refl

-- Drivers whose uplink refuses the socks5 mode.
abbrev half : Drivers
half = record drivers { killswitch = λ cs u s. (none, s) }

-- The kill switch of the other configuration has been applied.
abbrev guarded : World
unfolding settled killswitch_layer finish_killswitch uplink_eq host_mode
guarded = world (killswitch_layer half socks_mode settled)

guarded_next : killswitch_layer half socks_mode settled ≡ next guarded
unfolding guarded
guarded_next = refl

uplink_revert_skipped_example :
    ((reconcile half socks_mode settled).st.uplink ≡ shown "socks5")
    × (uplink_calls (reconcile half socks_mode settled).calls ≡ (socks_mode.uplink, false) ∷ [])
    × (uplink_calls (run half (replicate 2 host_mode) (reconcile half socks_mode settled)).calls
        ≡ uplink_calls (reconcile half socks_mode settled).calls)
unfolding settled
uplink_revert_skipped_example =
    uplink_revert_skipped half socks_mode host_mode settled guarded (other "refused") 2 refl
      socks-host guarded_next refl

-- Drivers that succeed, with a clock that is past every backoff.
abbrev pub willing : Drivers
willing = record drivers {
  killswitch = λ cs u s. (none, s);
  uplink = λ cs u s. (shown u.mode, none, s);
  now = λ cs. length cs + 10;
}

pub willing-Willing : Willing willing
willing-Willing = record {
  killswitch_ok = λ cs u s. refl;
  killswitch_quiet = λ cs u s. (refl, refl);
  uplink_ok = λ cs u s. refl;
  uplink_quiet = λ cs u s. (refl, refl);
  udp_quiet = λ cs s. refl;
  settings_ok = λ cs e s. refl;
  settings_quiet = λ cs e s. (refl, refl);
  connection_ok = λ cs l p s. refl;
  connection_quiet = λ cs l p s. refl;
}

waiting-Ready : Ready willing waiting
unfolding after_three wanting
waiting-Ready = record { wanted = refl; lost = refl; few = omega arith; due = λ cs. omega arith }

run-Settled_example : Standing socks_mode (run willing (replicate 3 socks_mode) waiting)
run-Settled_example = run-Settled willing willing-Willing socks_mode 2 waiting waiting-Ready
