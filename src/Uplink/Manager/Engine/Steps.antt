-- ===== src/Uplink/Manager/Engine/Steps.antt =====
-- The steps of `Apply` of image/agent/internal/uplink/manager.go, and whether the tunnel program has the
-- default route after each.
use expressvpn_container.Base.{
  String, Bool, true, false, Option, none, some, [], ◌∷◌, ◌≡◌, ◌≢◌, refl, sym, ◌∙◌, if_both,
  if_either, arith,
}
use expressvpn_container.Config
use expressvpn_container.Uplink.System.{
  System, Manager, command, Step, go, wrong, M, after, need, need_some, ◌>>=◌, ◌>>◌,
}
use expressvpn_container.Uplink.Routes.{ip_route, detect_gateway, apply_routes, redirect_resolver}
use expressvpn_container.Uplink.Manager.{
  launch_engine, set_routes, find_proxy, find_gateway, pin_route, try_proxy, write_engine, settle,
  raise_engine, prepare_engine, over_gateway, over_proxy, build,
}
use expressvpn_container.Uplink.Manager.Engine.{
  tunnelled, Off, On, teardown-Off, exception-direct, apply_routes-kept, apply_routes-through,
  detect_gateway-kept,
}

module _ (sys : System) where
  -- A step goes on with `P`, or ends with nothing running and the default route where it was.
  abbrev pub Reaches : {A : Type 0} → (A → Manager → Type 0) → Step A × Manager → Type 0
  Reaches P (go a, m) = P a m
  Reaches P (wrong why, m) = Off m

  after-Reaches :
      {A B : Type 0} (P : A → Manager → Type 0) (Q : B → Manager → Type 0) (f : A → M B)
      (r : Step A) (m : Manager)
      → Reaches P (r, m)
      → ((a : A) (m' : Manager) → P a m' → Reaches Q (f a m'))
      → Reaches Q (after f r m)
  after-Reaches P Q f (go a) m v k = k a m v
  after-Reaches P Q f (wrong why) m v k = v

  bind-Reaches :
      {A B : Type 0} (P : A → Manager → Type 0) (Q : B → Manager → Type 0) (x : M A) (f : A → M B)
      (m : Manager)
      → Reaches P (x m)
      → ((a : A) (m' : Manager) → P a m' → Reaches Q (f a m'))
      → Reaches Q ((x >>= f) m)
  bind-Reaches P Q x f m v k = after-Reaches P Q f (x m).0 (x m).1 v k

  -- Nothing runs, and the gateway of the way back is noted.
  record Pinned (m : Manager) : Type 0 where
    off : Off m
    gateway : m.gw ≢ ""

  -- The program runs, and the default route is where it was.
  record Launched (m : Manager) : Type 0 where
    running : m.running ≡ true
    direct : tunnelled m.log ≡ false
    gateway : m.gw ≢ ""

  Off-same :
      (m m' : Manager)
      → m'.running ≡ m.running
      → tunnelled m'.log ≡ tunnelled m.log
      → Off m
      → Off m'
  Off-same m m' e k v = record { stopped = e ∙ v.stopped; direct = k ∙ v.direct }

  need-Reaches :
      (P : Manager → Type 0) (b : Bool) (why : String) (m : Manager)
      → P m
      → (P m → Off m)
      → Reaches (λ _. P) (need b why m)
  need-Reaches P true why m v k = v
  need-Reaches P false why m v k = k v

  need_some-Reaches :
      {A : Type 0} (P : A → Type 0) (o : Option A) (why : String) (m : Manager)
      → ((a : A) → o ≡ some a → P a)
      → Off m
      → Reaches (λ a m'. P a × Off m') (need_some o why m)
  need_some-Reaches P none why m k v = v
  need_some-Reaches P (some a) why m k v = (k a refl, v)

  find_proxy-Reaches :
      (c : Config.Uplink) (m : Manager)
      → Off m
      → Reaches (λ _ m'. Unit {0} × Off m') (find_proxy sys c m)
  unfolding find_proxy
  find_proxy-Reaches c m v =
      need_some-Reaches (λ _. Unit {0}) _ _ _ (λ _ _. tt) (Off-same m _ refl refl v)

  pin_route-Reaches :
      (ip gw : String) (m : Manager)
      → gw ≢ ""
      → Off m
      → Reaches (λ _. Pinned) (pin_route sys ip gw m)
  unfolding pin_route ip_route
  pin_route-Reaches ip gw m named v =
      need-Reaches Pinned _ _ _
        (record {
          off = record { stopped = v.stopped; direct = exception-direct sys ip gw m.log v.direct };
          gateway = named;
        })
        (λ w. w.off)

  try_proxy-Reaches :
      (c : Config.Uplink) (ip : String) (m : Manager)
      → Pinned m
      → Reaches (λ _. Pinned) (try_proxy sys c ip m)
  unfolding try_proxy
  try_proxy-Reaches c ip m v =
      need-Reaches Pinned _ _ _ (record { off = Off-same m _ refl refl v.off; gateway = v.gateway })
        (λ w. w.off)

  write_engine-Reaches : (m : Manager) → Pinned m → Reaches (λ _. Pinned) (write_engine sys m)
  unfolding write_engine
  write_engine-Reaches m v =
      need-Reaches Pinned _ _ _ (record { off = Off-same m _ refl refl v.off; gateway = v.gateway })
        (λ w. w.off)

  launch_engine-Reaches : (m : Manager) → Pinned m → Reaches (λ _. Launched) (launch_engine sys m)
  unfolding launch_engine
  launch_engine-Reaches m v =
      if_both (Reaches (λ _. Launched)) (sys.launched m.log)
        (record { running = refl; direct = v.off.direct; gateway = v.gateway })
        (record { stopped = refl; direct = v.off.direct })

  set_routes-Reaches :
      (p g : String) (m : Manager) → Launched m → Reaches (λ _. On) (set_routes sys p g m)
  unfolding set_routes
  set_routes-Reaches p g m v =
      let (runs, gw) = apply_routes-kept sys p g m in
      if_either (Reaches (λ _. On)) (apply_routes sys p g m).0
        (λ e. record {
          running = runs ∙ v.running;
          through = apply_routes-through sys p g m e;
          gateway = λ k. v.gateway (sym gw ∙ k);
        })
        (λ _. teardown-Off sys (apply_routes sys p g m).1 (λ k. v.gateway (sym gw ∙ k)))

  settle-Reaches : (c : Config.Uplink) (m : Manager) → On m → Reaches (λ _. On) (settle sys c m)
  unfolding settle redirect_resolver
  settle-Reaches c m v = record { running = v.running; through = v.through; gateway = v.gateway }

  raise_engine-Reaches :
      (c : Config.Uplink) (ip gw : String) (m : Manager)
      → Pinned m
      → Reaches (λ _. On) (raise_engine sys c ip gw m)
  unfolding raise_engine
  raise_engine-Reaches c ip gw m v =
      bind-Reaches (λ _. Launched) (λ _. On) (launch_engine sys)
        (λ _. set_routes sys ip gw >> settle sys c) m (launch_engine-Reaches m v)
        λ _ m1 v1.
          bind-Reaches (λ _. On) (λ _. On) (set_routes sys ip gw) (λ _. settle sys c) m1
            (set_routes-Reaches ip gw m1 v1) λ _. settle-Reaches c

  prepare_engine-Reaches :
      (c : Config.Uplink) (ip gw : String) (m : Manager)
      → Pinned m
      → Reaches (λ _. On) (prepare_engine sys c ip gw m)
  unfolding prepare_engine
  prepare_engine-Reaches c ip gw m v =
      bind-Reaches (λ _. Pinned) (λ _. On) (try_proxy sys c ip)
        (λ _. write_engine sys >> raise_engine sys c ip gw) m (try_proxy-Reaches c ip m v)
        λ _ m1 v1.
          bind-Reaches (λ _. Pinned) (λ _. On) (write_engine sys) (λ _. raise_engine sys c ip gw) m1
            (write_engine-Reaches m1 v1) λ _. raise_engine-Reaches c ip gw

  -- The gateway that is printed as one has a name.
  module _ (named : (out gw : String) → sys.default_via out ≡ some gw → gw ≢ "") where
    detect_gateway-named :
        (m : Manager) (gw : String) → (detect_gateway sys m).0 ≡ some gw → gw ≢ ""
    unfolding detect_gateway
    detect_gateway-named m gw e =
        let own = "ip" ∷ "-4" ∷ "route" ∷ "show" ∷ "default" ∷ "dev" ∷ "eth0" ∷ [] in
        let all = "ip" ∷ "-4" ∷ "route" ∷ "show" ∷ "default" ∷ [] in
        let first = named (sys.run m.log own).1 gw in
        let second = named (sys.run (command own ∷ m.log) all).1 gw in ground (arith, first, second)

    find_gateway-Reaches :
        (m : Manager) → Off m → Reaches (λ gw m'. (gw ≢ "") × Off m') (find_gateway sys m)
    unfolding find_gateway
    find_gateway-Reaches m v =
        let (runs, same) = detect_gateway-kept sys m in
        need_some-Reaches (λ gw. gw ≢ "") _ _ _ (detect_gateway-named m) (Off-same m _ runs same v)

    pub build-Reaches :
        (c : Config.Uplink) (m : Manager) → Off m → Reaches (λ _. On) (build sys c m)
    unfolding build over_proxy over_gateway
    build-Reaches c m v =
        bind-Reaches (λ _ m'. Unit {0} × Off m') (λ _. On) (find_proxy sys c) (over_proxy sys c) m
          (find_proxy-Reaches c m v)
          λ ip m1 v1.
            bind-Reaches (λ gw m'. (gw ≢ "") × Off m') (λ _. On) (find_gateway sys)
              (over_gateway sys c ip) m1 (find_gateway-Reaches m1 v1.1)
              λ gw m2 v2.
                bind-Reaches (λ _. Pinned) (λ _. On) (pin_route sys ip gw)
                  (λ _. prepare_engine sys c ip gw) m2 (pin_route-Reaches ip gw m2 v2.0 v2.1)
                  λ _. prepare_engine-Reaches c ip gw
