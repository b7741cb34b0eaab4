-- ===== src/Reconciler/World.antt =====
-- The state of image/agent/internal/reconciler/reconciler.go, the drivers that it calls, and the
-- history of those calls.
use expressvpn_container.Base.{
  ℕ, String, Bool, true, false, ◌&&◌, Option, none, some, List, ◌∷◌, str_eq,
}
use expressvpn_container.Config
use expressvpn_container.State
use expressvpn_container.State.{State, TriState}
use expressvpn_container.Xvpn.Errors.{Err, cli, other}

pub record ConnSpec : Type 0 where
  pub location : String
  pub protocol : String

-- `*appliedConn != want`
abbrev pub spec_eq : ConnSpec → ConnSpec → Bool
spec_eq a b = str_eq a.location b.location && str_eq a.protocol b.protocol

-- The fields that the loop keeps between passes. An empty `force_reason` forces nothing.
pub record Reconciler : Type 0 where
  pub applied_ks : Option Config.Uplink
  pub applied_uplink : Option Config.Uplink
  pub applied_evpn : Option Config.ExpressVpn
  pub applied_conn : Option ConnSpec
  pub connect_failures : ℕ
  pub next_retry_at : ℕ
  pub force_reason : String

unfoldable pub new : Reconciler
new = record {
  applied_ks = none;
  applied_uplink = none;
  applied_evpn = none;
  applied_conn = none;
  connect_failures = 0;
  next_retry_at = 0;
  force_reason = "";
}

-- A call of a driver, with whether it succeeded where that matters later.
pub data Call : Type 0 where
  apply_killswitch : Config.Uplink → Bool → Call
  apply_uplink : Config.Uplink → Bool → Call
  apply_settings : Config.ExpressVpn → Call
  wait_udp : Call
  connect : String → String → Call
  disconnect : Call

-- The loop, the snapshot in the store, the calls made so far (newest first), and the wake-ups
-- that `time.AfterFunc` has been asked for.
pub record World : Type 0 where
  pub r : Reconciler
  pub st : State
  pub calls : List Call
  pub timers : List ℕ

-- `XVPNDriver`, `UplinkDriver` and `KillswitchDriver`, and the clock. A driver's answer may depend
-- on all the calls before it, and it may change the snapshot; what other goroutines write while
-- the loop waits for a driver is a part of that change.
pub record Drivers : Type 0 where
  pub killswitch : List Call → Config.Uplink → State → Option Err × State
  pub uplink : List Call → Config.Uplink → State → State.Uplink × Option Err × State
  pub udp : List Call → State → TriState × State
  pub settings : List Call → Config.ExpressVpn → State → Option Err × State
  pub connection : List Call → String → String → State → Option Err × State
  pub disconnection : List Call → State → Option Err × State
  pub now : List Call → ℕ
  pub error_text : Err → String

abbrev pub is_none {ℓ} : {A : Type ℓ} → Option A → Bool
is_none none = true
is_none (some _) = false

-- `r.st.Update(f)`
abbrev pub update : (State → State) → World → World
update f w = record w { st = f w.st }

-- A driver has answered.
abbrev pub called : Call → State → World → World
called c s w = record w { st = s; calls = c ∷ w.calls }

module _ (d : Drivers) where
  -- `fail`: the last error, as it is published.
  unfoldable pub fail : String → Err → World → World
  fail code e w =
      update
        (λ s. record s {
          last_error = some (record { code = code; message = d.error_text e; at = d.now w.calls });
        })
        w

-- `errCode`
abbrev pub err_code : Err → String → String
err_code (cli e) def = e.code
err_code (other _) def = def

-- One layer of a pass ends the pass or lets the next layer run.
pub data Pass : Type 0 where
  stop next : World → Pass

infixl 5 ◌>>=◌
abbrev pub ◌>>=◌ : Pass → (World → Pass) → Pass
stop w >>= f = stop w
next w >>= f = f w

abbrev pub world : Pass → World
world (stop w) = w
world (next w) = w
