-- ===== src/Tests/Store/Actions.antt =====
-- Actions of a user, for image/agent/internal/reconciler/actions.go.
use expressvpn_container.Base.{
  String, true, false, none, some, List, [], ◌∷◌, ◌≡◌, ◌↔◌, refl, arith, replicate,
}
use expressvpn_container.State
use expressvpn_container.State.{
  State, conn, error, connected, disconnected, set_connection, want_disconnected,
}
use expressvpn_container.Config.{validate, one_of, check_auth}
use expressvpn_container.Config.Json.{Json, str, lookup, merge_patch, insert, to_fields, old_keys}
use expressvpn_container.Config.Store.{Library, apply_merge_patch}
use expressvpn_container.Reconciler.Progress.Settling.{Standing}
use expressvpn_container.Reconciler.Pass.{run}
use expressvpn_container.Reconciler.Actions.{
  reset_retries, connect_wanted, Agent, Asked, fine, Services, own_error, wait_connection, connect,
  disconnect, log_in,
}
use expressvpn_container.Reconciler.Actions.Outcomes.{
  Arrives, wait_connection_fine_iff, disconnect_after_error,
}
use expressvpn_container.Reconciler.Actions.Settling.{is_refused, chosen, connect-Settled}
use expressvpn_container.Tests.Store
use expressvpn_container.Tests.Store.{library, closed}
use expressvpn_container.Tests.Reconciler.{willing, willing-Willing, waiting}

abbrev value_text : Json → String
value_text (str s) = s
value_text _ = ""

-- A library that tells one location from another.
abbrev lib : Library
lib = record library { marshal = value_text }

abbrev services : Services
services = record {
  login_error = λ asked code. none;
  logout_error = λ asked. none;
  refresh_error = λ asked. none;
  selfcheck_error = none;
  probe_error = none;
}

-- The loop connects at once, or nothing changes.
abbrev quick : Agent → List State
quick a = a.world.st ∷ set_connection connected a.world.st ∷ []

abbrev still : Agent → List State
still a = a.world.st ∷ []

-- Ten attempts have failed.
abbrev lost : State.Error
lost = record { code = "reconnect_exhausted"; message = "no answer"; at = 5 }

abbrev stuck : Agent
stuck = record {
  cfg = closed;
  world = record waiting {
    st = record (set_connection error waiting.st) { last_error = some lost };
    r = record waiting.r { connect_failures = 10 };
  };
  woken = false;
  asked = [];
}

connect_stores :
    (connect lib services quick true "Spain" stuck).1.cfg.cur.expressvpn.location ≡ "Spain"
unfolding connect apply_merge_patch library Store.decode_config lookup merge_patch insert to_fields
    validate one_of check_auth old_keys reset_retries connect_wanted
connect_stores = refl

connect_taken : is_refused (connect lib services quick true "Spain" stuck).0 ≡ false
unfolding connect apply_merge_patch library Store.decode_config lookup merge_patch insert to_fields
    validate one_of check_auth old_keys reset_retries connect_wanted wait_connection
connect_taken = refl

connect-Settled_example :
    ((connect lib services quick true "Spain" stuck).1.cfg.cur ≡ chosen "Spain" closed.cur)
    × Standing (chosen "Spain" closed.cur) (
        run willing
          (replicate 3 (chosen "Spain" closed.cur))
          (connect lib services quick true "Spain" stuck).1.world)
connect-Settled_example =
    connect-Settled willing willing-Willing (λ cs. omega arith) 2 lib services quick (λ a b e. e)
      true "Spain" stuck refl connect_taken

abbrev arriving : List State
arriving = waiting.st ∷ set_connection connected waiting.st ∷ []

wait_connection_fine_iff_example :
    (wait_connection connected arriving ≡ fine) ↔ Arrives connected arriving
wait_connection_fine_iff_example = wait_connection_fine_iff connected arriving

disconnect_after_error_example :
    ((disconnect lib services still stuck).0 ≡ own_error "reconnect_exhausted" "no answer")
    × ((disconnect lib services still stuck).1.world.st.desired ≡ want_disconnected)
disconnect_after_error_example =
    disconnect_after_error lib services still (λ a. ([], refl)) stuck refl

login_without_code :
    log_in lib services still "" stuck
    ≡ (own_error "invalid_activation_code" "activation code is empty", stuck)
unfolding log_in
login_without_code = refl

login_refreshes :
    (log_in lib services still "code" stuck).1.asked ≡ Asked.refresh ∷ Asked.login "code" ∷ []
unfolding log_in
login_refreshes = refl
