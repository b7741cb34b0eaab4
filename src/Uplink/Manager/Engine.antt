-- ===== src/Uplink/Manager/Engine.antt =====
-- Whether the tunnel program runs and the default route leads to it, along the set-up and the teardown
-- of image/agent/internal/uplink/manager.go.
pub mod Steps
use Prim.Native.String.{◌++◌ as cat}
use expressvpn_container.Base.{
  String, Bool, true, false, ◌&&◌, Option, none, some, List, [], ◌∷◌, ◌≡◌, ◌≢◌, refl, sym, ◌∙◌,
  str_eq, eq_iff, if◌then◌else◌, if_both, if_either, arith,
}
use expressvpn_container.Config
use expressvpn_container.Uplink.System.{
  System, Manager, Action, command, Step, go, wrong, M, after, need, need_some, ◌>>=◌, ◌>>◌,
}
use expressvpn_container.Uplink.Routes.{
  tun_iface, exception, ip_route, detect_gateway, apply_routes, restore_host_routes,
  restore_resolver, redirect_resolver,
}
use expressvpn_container.Uplink.Manager.{
  stop_proc, host_routes, teardown, launch_engine, set_routes, find_proxy, find_gateway, pin_route,
  try_proxy, write_engine, settle, raise_engine, prepare_engine, over_gateway, over_proxy, build,
}

-- Whether a command sets the default route, and then whether it leads to the tunnel program. The
-- spare default route has a metric, and is another one.
abbrev pub sets_default : List String → Option Bool
sets_default (_ ∷ _ ∷ verb ∷ dest ∷ _ ∷ _ ∷ _ ∷ iface ∷ []) =
    if str_eq verb "replace" && str_eq dest "default" then some (str_eq iface tun_iface) else none
sets_default _ = none

abbrev pub or_before : Option Bool → Bool → Bool
or_before none b = b
or_before (some a) b = a

-- The last command for the default route asked for the tunnel program.
abbrev pub tunnelled : List Action → Bool
tunnelled [] = false
tunnelled (command args ∷ l) = or_before (sets_default args) (tunnelled l)
tunnelled (_ ∷ l) = tunnelled l

-- The tunnel program does not run, and the default route was not led to it.
pub record Off (m : Manager) : Type 0 where
  pub stopped : m.running ≡ false
  pub direct : tunnelled m.log ≡ false

-- It runs, the default route was led to it, and the way back is known.
pub record On (m : Manager) : Type 0 where
  pub running : m.running ≡ true
  pub through : tunnelled m.log ≡ true
  pub gateway : m.gw ≢ ""

not_empty : (s : String) → s ≢ "" → str_eq s "" ≡ false
not_empty s h = ground (arith, eq_iff s "")

module _ (sys : System) where
  stop_proc-stopped :
      (m : Manager) → ((stop_proc sys m).running ≡ false) × ((stop_proc sys m).gw ≡ m.gw)
  unfolding stop_proc
  stop_proc-stopped m = ground arith

  restore_resolver-kept :
      (m : Manager) → ((restore_resolver m).running ≡ m.running) × ((restore_resolver m).gw ≡ m.gw)
  unfolding restore_resolver
  restore_resolver-kept m = ground arith

  restore_host_routes-direct :
      (p g : String) (m : Manager)
      → (tunnelled (restore_host_routes sys p g m).log ≡ false)
        × ((restore_host_routes sys p g m).running ≡ m.running)
  unfolding restore_host_routes ip_route
  restore_host_routes-direct p g m = (ground arith, ground arith)

  pub teardown-Off : (m : Manager) → m.gw ≢ "" → Off (teardown sys m)
  unfolding teardown host_routes
  teardown-Off m h =
      let (stopped, gw) = stop_proc-stopped m in
      let (kept, gw') = restore_resolver-kept (stop_proc sys m) in
      let m' = restore_resolver (stop_proc sys m) in
      let back = restore_host_routes-direct m'.proxy_ip m'.gw m' in
      rw (not_empty m'.gw (λ e. h (sym gw ∙ (sym gw' ∙ e))))
        (record { stopped = back.1 ∙ (kept ∙ stopped); direct = back.0 })

  -- The default route stays where it was.
  exception-direct :
      (p g : String) (l : List Action)
      → tunnelled l ≡ false
      → tunnelled (command ("ip" ∷ "route" ∷ exception sys p g) ∷ l) ≡ false
  exception-direct p g l h =
      if_both (λ (o : Option Bool). or_before o (tunnelled l) ≡ false)
        (str_eq (cat p "/32") "default") refl h

  apply_routes-kept :
      (p g : String) (m : Manager)
      → ((apply_routes sys p g m).1.running ≡ m.running) × ((apply_routes sys p g m).1.gw ≡ m.gw)
  unfolding apply_routes ip_route
  apply_routes-kept p g m = ground arith

  apply_routes-through :
      (p g : String) (m : Manager)
      → (apply_routes sys p g m).0 ≡ true
      → tunnelled (apply_routes sys p g m).1.log ≡ true
  unfolding apply_routes ip_route
  apply_routes-through p g m h = ground arith

  detect_gateway-kept :
      (m : Manager)
      → ((detect_gateway sys m).1.running ≡ m.running)
        × (tunnelled (detect_gateway sys m).1.log ≡ tunnelled m.log)
  unfolding detect_gateway
  detect_gateway-kept m = ground arith
