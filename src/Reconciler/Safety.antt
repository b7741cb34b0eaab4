-- ===== src/Reconciler/Safety.antt =====
-- What holds of the calls that the loop makes, over any number of passes and whatever the drivers
-- answer.
use expressvpn_container.Base.{
  ◌∙◌, ◌&&◌, ◌&&◌, str_eq, refl, inl, inr, Bool-cases, not, ap, Bool-cases, String, if_both, true,
  Option, none, some, List, [], ◌∷◌, ◌≡◌, arith,
}
use expressvpn_container.Config
use expressvpn_container.Config.{Config, uplink_eq_iff}
use expressvpn_container.State
use expressvpn_container.State.{
  wants_connected, is_unknown, conn, State, TriState, Desired, want_connected, want_disconnected,
}
use expressvpn_container.Xvpn.Errors.{Err}
use expressvpn_container.Reconciler.World.{
  ◌>>=◌, is_none, update, world, new, ConnSpec, Drivers, called, connect, fail, Call,
  apply_killswitch, apply_uplink, connect, World, Drivers, Pass, stop, next,
}
use expressvpn_container.Reconciler.Connecting.{
  must_wait, spec_of, needs_connect, mark_connecting, want_disconnection, finish_disconnect,
  want_connection, count_failure, settle_udp, finish_connect, attempt, on_connect_failure,
}
use expressvpn_container.Reconciler.Pass.{
  start_uplink, settings_are, finish_settings, finish_killswitch, run, reconcile, by_desired,
  uplink_layer, connection_layer, settings_layer, finish_uplink, applied_is, killswitch_layer,
}

-- The uplink of the newest successful call of each kind.
abbrev pub last_killswitch : List Call → Option Config.Uplink
last_killswitch [] = none
last_killswitch (apply_killswitch u true ∷ cs) = some u
last_killswitch (_ ∷ cs) = last_killswitch cs

abbrev pub last_uplink : List Call → Option Config.Uplink
last_uplink [] = none
last_uplink (apply_uplink u true ∷ cs) = some u
last_uplink (_ ∷ cs) = last_uplink cs

-- Before each call of `Connect` the kill switch and the uplink were applied, for one uplink.
abbrev pub Guarded : List Call → Type 0
Guarded [] = Unit
Guarded (connect _ _ ∷ cs) =
    ((u : Config.Uplink) × (last_killswitch cs ≡ some u) × (last_uplink cs ≡ some u)) × Guarded cs
Guarded (_ ∷ cs) = Guarded cs

pub record Inv (w : World) : Type 0 where
  pub killswitch_is : w.r.applied_ks ≡ last_killswitch w.calls
  pub uplink_is : w.r.applied_uplink ≡ last_uplink w.calls
  pub guarded : Guarded w.calls

record Ready (u : Config.Uplink) (w : World) : Type 0 where
  inv : Inv w
  killswitch : w.r.applied_ks ≡ some u
  uplink : w.r.applied_uplink ≡ some u

abbrev Ensures : (World → Type 0) → Pass → Type 0
Ensures Q (stop w) = Inv w
Ensures Q (next w) = Q w

applied_is-eq : (a : Option Config.Uplink) (u : Config.Uplink) → applied_is a u ≡ true → a ≡ some u
applied_is-eq none u h = cc
applied_is-eq (some a) u h = ap some ((uplink_eq_iff a u).0 h)

-- The agent before its first pass.
abbrev pub started : State → World
started s = record { r = new; st = s; calls = []; timers = [] }

Ready-st : {u : Config.Uplink} {w : World} (s : State) → Ready u w → Ready u (record w { st = s })
Ready-st s v = record {
  inv = record {
    killswitch_is = v.inv.killswitch_is;
    uplink_is = v.inv.uplink_is;
    guarded = v.inv.guarded;
  };
  killswitch = v.killswitch;
  uplink = v.uplink;
}

start_uplink-Inv :
    (c : Config) (desired : Desired) (w : World)
    → Inv w
    → Inv (start_uplink c desired w) × ((start_uplink c desired w).r.applied_ks ≡ w.r.applied_ks)
unfolding start_uplink
start_uplink-Inv c desired w v =
    elim (Bool-cases (wants_connected desired && not (is_none w.r.applied_uplink))) [
      | inl h ↦ rw h (ground arith, refl)
      | inr h ↦ rw h (ground arith, refl)
    ]

module _ (d : Drivers) where
  on_connect_failure-Inv : (e : Err) (w : World) → Inv w → Inv (on_connect_failure d e w)
  unfolding on_connect_failure count_failure fail
  on_connect_failure-Inv e w v = ground arith

  settle_udp-Ready :
      (c : Config) (u : Config.Uplink) (w : World) → Ready u w → Ready u (settle_udp d c w).1
  unfolding settle_udp
  settle_udp-Ready c u w v =
      elim (Bool-cases (
        str_eq c.uplink.mode "socks5"
        && str_eq c.uplink.socks5.udp "auto"
        && is_unknown w.st.uplink.udp_supported)) [
          | inl h ↦ rw h (elim (Bool-cases (is_unknown (d.udp w.calls w.st).0)) [
            | inl k ↦ rw k (ground arith)
            | inr k ↦ rw k (ground arith)
          ])
          | inr h ↦ rw h v
        ]

  finish_connect-Inv :
      (want : ConnSpec) (e : Option Err) (w : World) → Inv w → Inv (finish_connect d want e w)
  unfolding finish_connect
  finish_connect-Inv want none w v = ground arith
  finish_connect-Inv want (some e) w v = on_connect_failure-Inv e w v

  connect-Inv :
      (u : Config.Uplink) (l p : String) (s : State) (w : World)
      → Ready u w
      → Inv (called (connect l p) s w)
  connect-Inv u l p s w v = record {
    killswitch_is = v.inv.killswitch_is;
    uplink_is = v.inv.uplink_is;
    guarded = (
      (u, cc (v.killswitch, v.inv.killswitch_is), cc (v.uplink, v.inv.uplink_is)),
      v.inv.guarded,
    );
  }

  attempt-Inv : (c : Config) (u : Config.Uplink) (w : World) → Ready u w → Inv (attempt d c w)
  unfolding attempt
  attempt-Inv c u w v = finish_connect-Inv _ _ _ (
      connect-Inv u _ _ _ _
        (settle_udp-Ready c u (update mark_connecting w) (Ready-st (mark_connecting w.st) v)))

  want_connection-Inv :
      (c : Config) (u : Config.Uplink) (w : World) → Ready u w → Inv (want_connection d c w)
  unfolding want_connection
  want_connection-Inv c u w v =
      elim (Bool-cases (not (needs_connect w.r (conn w.st) (spec_of c)))) [
        | inl h ↦ rw h (ground arith)
        | inr h ↦ rw h (elim (Bool-cases (must_wait d w)) [
          | inl k ↦ rw k (ground arith)
          | inr k ↦
              rw k
                (attempt-Inv c u (record w { r = record w.r { force_reason = "" } }) (ground arith))
        ])
      ]

  finish_disconnect-Inv : (e : Option Err) (w : World) → Inv w → Inv (finish_disconnect d e w)
  unfolding finish_disconnect fail
  finish_disconnect-Inv none w v = ground arith
  finish_disconnect-Inv (some e) w v = ground arith

  want_disconnection-Inv : (w : World) → Inv w → Inv (want_disconnection d w)
  unfolding want_disconnection
  want_disconnection-Inv w v = if_both Inv _ (finish_disconnect-Inv _ _ (ground arith)) v

  connection_layer-Inv :
      (c : Config) (u : Config.Uplink) (desired : Desired) (w : World)
      → Ready u w
      → Inv (by_desired d c desired w)
  unfolding by_desired
  connection_layer-Inv c u want_connected w v = want_connection-Inv c u w v
  connection_layer-Inv c u want_disconnected w v = want_disconnection-Inv w v.inv

  finish_settings-Ready :
      (c : Config) (u : Config.Uplink) (e : Option Err) (w : World)
      → Ready u w
      → Ready u (finish_settings d c e w)
  unfolding finish_settings fail
  finish_settings-Ready c u none w v = ground arith
  finish_settings-Ready c u (some e) w v = ground arith

  settings_layer-Ready :
      (c : Config) (u : Config.Uplink) (w : World) → Ready u w → Ready u (settings_layer d c w)
  unfolding settings_layer
  settings_layer-Ready c u w v = elim (Bool-cases (settings_are w.r.applied_evpn c.expressvpn)) [
    | inl h ↦ rw h v
    | inr h ↦ rw h (finish_settings-Ready c u _ _ (ground arith))
  ]

  finish_killswitch-Inv :
      (c : Config) (e : Option Err) (s : State) (w : World)
      → Inv w
      → Ensures
          (λ w'. Inv w' × (w'.r.applied_ks ≡ some c.uplink))
          (finish_killswitch d c e (called (apply_killswitch c.uplink (is_none e)) s w))
  unfolding finish_killswitch fail
  finish_killswitch-Inv c none s w v = (ground arith, refl)
  finish_killswitch-Inv c (some e) s w v = ground arith

  killswitch_layer-Inv :
      (c : Config) (w : World)
      → Inv w
      → Ensures (λ w'. Inv w' × (w'.r.applied_ks ≡ some c.uplink)) (killswitch_layer d c w)
  unfolding killswitch_layer
  killswitch_layer-Inv c w v = elim (Bool-cases (applied_is w.r.applied_ks c.uplink)) [
    | inl h ↦ rw h (v, applied_is-eq _ _ h)
    | inr h ↦ rw h (finish_killswitch-Inv c _ _ w v)
  ]

  finish_uplink-Ready :
      (c : Config) (us : State.Uplink) (e : Option Err) (s : State) (w : World)
      → Inv w
      → w.r.applied_ks ≡ some c.uplink
      → Ensures
          (Ready c.uplink)
          (finish_uplink d c us e (called (apply_uplink c.uplink (is_none e)) s w))
  unfolding finish_uplink fail
  finish_uplink-Ready c us none s w v h = ground arith
  finish_uplink-Ready c us (some e) s w v h = ground arith

  uplink_layer-Ready :
      (c : Config) (desired : Desired) (w : World)
      → Inv w
      → w.r.applied_ks ≡ some c.uplink
      → Ensures (Ready c.uplink) (uplink_layer d c desired w)
  unfolding uplink_layer
  uplink_layer-Ready c desired w v k = elim (Bool-cases (applied_is w.r.applied_uplink c.uplink)) [
    | inl h ↦ rw h (record { inv = v; killswitch = k; uplink = applied_is-eq _ _ h })
    | inr h ↦
        let (v', k') = start_uplink-Inv c desired w v in
        rw h (finish_uplink-Ready c _ _ _ _ v' (k' ∙ k))
  ]

  after_uplink-Inv :
      (c : Config) (p : Pass)
      → Ensures (Ready c.uplink) p
      → Inv (world (p >>= λ w. next (connection_layer d c (settings_layer d c w))))
  unfolding connection_layer
  after_uplink-Inv c (stop w) v = v
  after_uplink-Inv c (next w) v =
      connection_layer-Inv c c.uplink _ _ (settings_layer-Ready c c.uplink w v)

  after_killswitch-Inv :
      (c : Config) (desired : Desired) (p : Pass)
      → Ensures (λ w'. Inv w' × (w'.r.applied_ks ≡ some c.uplink)) p
      → Inv (
          world (
            p >>= λ w1. uplink_layer d c desired w1 >>= λ w.
            next (connection_layer d c (settings_layer d c w))))
  after_killswitch-Inv c desired (stop w) v = v
  after_killswitch-Inv c desired (next w) (v, k) =
      after_uplink-Inv c _ (uplink_layer-Ready c desired w v k)

  pub reconcile-Inv : (c : Config) (w : World) → Inv w → Inv (reconcile d c w)
  unfolding reconcile
  reconcile-Inv c w v = after_killswitch-Inv c _ _ (killswitch_layer-Inv c w v)

  run-Inv : (cs : List Config) (w : World) → Inv w → Inv (run d cs w)
  unfolding run
  run-Inv [] w v = v
  run-Inv (c ∷ cs) w v = run-Inv cs (reconcile d c w) (reconcile-Inv c w v)

  -- From the start of the agent, over any passes with any configurations and whatever the drivers
  -- answer, each call of `Connect` comes after a successful kill switch and a successful uplink
  -- call, and the newest such calls before it were for one and the same uplink configuration.
  pub run-Guarded : (cs : List Config) (s : State) → Guarded (run d cs (started s)).calls
  unfolding new
  run-Guarded cs s =
      (run-Inv cs (started s)
        (record { killswitch_is = refl; uplink_is = refl; guarded = tt })).guarded
