-- ===== src/Uplink/Manager/Outcome.antt =====
-- What `Apply` of image/agent/internal/uplink/manager.go leaves behind, and whose probes count.
use expressvpn_container.Base.{
  Option-cases, ℕ, ◌<◌, String, Bool, true, false, Option, none, some, ◌≡◌, refl, ap, ◌∙◌, subst,
  inl, inr, str_eq, if◌then◌else◌, if_both, arith,
}
use expressvpn_container.Config
use expressvpn_container.Uplink.System.{
  System, Manager, Step, go, wrong, M, after, need, need_some, ◌>>=◌, ◌>>◌,
}
use expressvpn_container.Uplink.Routes.{
  restore_host_routes, restore_resolver, apply_routes, detect_gateway, ip_route, redirect_resolver,
}
use expressvpn_container.Uplink.Manager.{
  over_gateway, try_proxy, raise_engine, pin_route, find_proxy, over_proxy, settle, write_engine,
  find_gateway, prepare_engine, in_socks5, stop_proc, host_routes, teardown, leave_socks5,
  launch_engine, set_routes, build,
}

-- A probe's number is below the counter, and it probes a socks5 uplink.
pub record Inv (m : Manager) : Type 0 where
  pub numbered : (r : ℕ) → m.probe_run ≡ some r → r < m.probes
  pub probed : (r : ℕ) → m.probe_run ≡ some r → in_socks5 m.applied ≡ true

-- No socks5 uplink stands, no probe counts, and `n` probes were started.
pub record Idle (n : ℕ) (m : Manager) : Type 0 where
  pub not_socks5 : in_socks5 m.applied ≡ false
  pub no_probe : m.probe_run ≡ none
  pub count : m.probes ≡ n

-- The three fields that matter here are the same.
record Same (m m' : Manager) : Type 0 where
  applied_same : m'.applied ≡ m.applied
  run_same : m'.probe_run ≡ m.probe_run
  count_same : m'.probes ≡ m.probes

unmoved : (m : Manager) → Same m m
unmoved m = record { applied_same = refl; run_same = refl; count_same = refl }

Idle-Same : {n : ℕ} {m m' : Manager} → Same m m' → Idle n m → Idle n m'
Idle-Same s v = record {
  not_socks5 = ap in_socks5 s.applied_same ∙ v.not_socks5;
  no_probe = s.run_same ∙ v.no_probe;
  count = s.count_same ∙ v.count;
}

stop_proc-Same : (sys : System) (m : Manager) → Same m (stop_proc sys m)
unfolding stop_proc
stop_proc-Same sys m =
    if_both (Same m) m.running (record { applied_same = refl; run_same = refl; count_same = refl })
      (unmoved m)

restore_resolver-probes : (m : Manager) → (restore_resolver m).probes ≡ m.probes
unfolding restore_resolver
restore_resolver-probes m = ground arith

module _ (sys : System) where
  restore_host_routes-probes :
      (p g : String) (m : Manager) → (restore_host_routes sys p g m).probes ≡ m.probes
  unfolding restore_host_routes ip_route
  restore_host_routes-probes p g m = ground arith

  apply_routes-Same : (p g : String) (m : Manager) → Same m (apply_routes sys p g m).1
  unfolding apply_routes ip_route
  apply_routes-Same p g m = record {
    applied_same = ground arith;
    run_same = ground arith;
    count_same = ground arith;
  }

  detect_gateway-Same : (m : Manager) → Same m (detect_gateway sys m).1
  unfolding detect_gateway
  detect_gateway-Same m = record {
    applied_same = ground arith;
    run_same = ground arith;
    count_same = ground arith;
  }

  host_routes-probes : (m : Manager) → (host_routes sys m).probes ≡ m.probes
  unfolding host_routes
  host_routes-probes m =
      if_both (λ (x : Manager). x.probes ≡ m.probes) (str_eq m.gw "") refl
        (restore_host_routes-probes _ _ m)

  teardown-Idle : (m : Manager) → Idle m.probes (teardown sys m)
  unfolding teardown
  teardown-Idle m = record {
    not_socks5 = refl;
    no_probe = refl;
    count = host_routes-probes _ ∙ restore_resolver-probes _ ∙ (stop_proc-Same sys m).count_same;
  }

  no_probe_outside : (m : Manager) → Inv m → in_socks5 m.applied ≡ false → m.probe_run ≡ none
  no_probe_outside m v e = elim (Option-cases m.probe_run) [
    | inl k ↦ k
    | inr (r, k) ↦ cc (v.probed r k, e)
  ]

  leave_Idle :
      (b : Bool) (m : Manager)
      → in_socks5 m.applied ≡ b
      → Inv m
      → Idle m.probes (if b then teardown sys m else m)
  leave_Idle true m e v = teardown-Idle m
  leave_Idle false m e v = record {
    not_socks5 = e;
    no_probe = no_probe_outside m v e;
    count = refl;
  }

  pub leave_socks5-Idle : (m : Manager) → Inv m → Idle m.probes (leave_socks5 sys m)
  leave_socks5-Idle m v = leave_Idle (in_socks5 m.applied) m refl v

  -- What a step leaves: what holds where it goes on, and that nothing stands where it ends.
  abbrev pub Leaves : {A : Type 0} → ℕ → (Manager → Type 0) → Step A × Manager → Type 0
  Leaves n P (go a, m) = P m
  Leaves n P (wrong why, m) = Idle n m

  after-Leaves :
      {A B : Type 0} (n : ℕ) (P Q : Manager → Type 0) (f : A → M B) (r : Step A) (m : Manager)
      → Leaves n P (r, m)
      → ((a : A) (m' : Manager) → P m' → Leaves n Q (f a m'))
      → Leaves n Q (after f r m)
  after-Leaves n P Q f (go a) m v k = k a m v
  after-Leaves n P Q f (wrong why) m v k = v

  need-Leaves :
      (n : ℕ) (b : Bool) (why : String) (m : Manager) → Idle n m → Leaves n (Idle n) (need b why m)
  need-Leaves n true why m v = v
  need-Leaves n false why m v = v

  need_some-Leaves :
      {A : Type 0} (n : ℕ) (o : Option A) (why : String) (m : Manager)
      → Idle n m
      → Leaves n (Idle n) (need_some o why m)
  need_some-Leaves n (some a) why m v = v
  need_some-Leaves n none why m v = v

  -- The new uplink stands, and its probe is still to start.
  pub record Standing (c : Config.Uplink) (n : ℕ) (m : Manager) : Type 0 where
    pub applied : m.applied ≡ some c
    pub no_probe : m.probe_run ≡ none
    pub count : m.probes ≡ n

  launch_engine-Leaves : (n : ℕ) (m : Manager) → Idle n m → Leaves n (Idle n) (launch_engine sys m)
  unfolding launch_engine
  launch_engine-Leaves n m v =
      if_both (Leaves n (Idle n)) (sys.launched m.log)
        (Idle-Same (record { applied_same = refl; run_same = refl; count_same = refl }) v)
        (Idle-Same (record { applied_same = refl; run_same = refl; count_same = refl }) v)

  set_routes-Leaves :
      (n : ℕ) (ip gw : String) (m : Manager) → Idle n m → Leaves n (Idle n) (set_routes sys ip gw m)
  unfolding set_routes
  set_routes-Leaves n ip gw m v =
      let same = apply_routes-Same ip gw m in
      if_both (Leaves n (Idle n)) (apply_routes sys ip gw m).0 (Idle-Same same v) (
        subst (λ k. Idle k (teardown sys (apply_routes sys ip gw m).1)) (same.count_same ∙ v.count)
          (teardown-Idle _))

  bind-Leaves :
      {A B : Type 0} (n : ℕ) (Q : Manager → Type 0) (x : M A) (f : A → M B) (m : Manager)
      → Leaves n (Idle n) (x m)
      → ((a : A) (m' : Manager) → Idle n m' → Leaves n Q (f a m'))
      → Leaves n Q ((x >>= f) m)
  bind-Leaves n Q x f m v k = after-Leaves n (Idle n) Q f (x m).0 (x m).1 v k

  -- Changing other fields leaves nothing standing.
  same_fields :
      {n : ℕ} {m m' : Manager}
      → m'.applied ≡ m.applied
      → m'.probe_run ≡ m.probe_run
      → m'.probes ≡ m.probes
      → Idle n m
      → Idle n m'
  same_fields a r c v = Idle-Same (record { applied_same = a; run_same = r; count_same = c }) v

  settle-Leaves :
      (c : Config.Uplink) (n : ℕ) (m : Manager)
      → Idle n m
      → Leaves n (Standing c n) (settle sys c m)
  unfolding settle redirect_resolver
  settle-Leaves c n m v = record { applied = refl; no_probe = v.no_probe; count = v.count }

  find_proxy-Leaves :
      (c : Config.Uplink) (n : ℕ) (m : Manager) → Idle n m → Leaves n (Idle n) (find_proxy sys c m)
  unfolding find_proxy
  find_proxy-Leaves c n m v = need_some-Leaves n _ _ _ (same_fields refl refl refl v)

  find_gateway-Leaves : (n : ℕ) (m : Manager) → Idle n m → Leaves n (Idle n) (find_gateway sys m)
  unfolding find_gateway
  find_gateway-Leaves n m v = need_some-Leaves n _ _ _ (Idle-Same (detect_gateway-Same m) v)

  pin_route-Leaves :
      (ip gw : String) (n : ℕ) (m : Manager) → Idle n m → Leaves n (Idle n) (pin_route sys ip gw m)
  unfolding pin_route ip_route
  pin_route-Leaves ip gw n m v = need-Leaves n _ _ _ (same_fields refl refl refl v)

  try_proxy-Leaves :
      (c : Config.Uplink) (ip : String) (n : ℕ) (m : Manager)
      → Idle n m
      → Leaves n (Idle n) (try_proxy sys c ip m)
  unfolding try_proxy
  try_proxy-Leaves c ip n m v = need-Leaves n _ _ _ (same_fields refl refl refl v)

  write_engine-Leaves : (n : ℕ) (m : Manager) → Idle n m → Leaves n (Idle n) (write_engine sys m)
  unfolding write_engine
  write_engine-Leaves n m v = need-Leaves n _ _ _ (same_fields refl refl refl v)

  raise_engine-Leaves :
      (c : Config.Uplink) (ip gw : String) (n : ℕ) (m : Manager)
      → Idle n m
      → Leaves n (Standing c n) (raise_engine sys c ip gw m)
  unfolding raise_engine
  raise_engine-Leaves c ip gw n m v =
      bind-Leaves n (Standing c n) (launch_engine sys) (λ _. set_routes sys ip gw >> settle sys c) m
        (launch_engine-Leaves n m v)
        λ _ m1 v1.
          bind-Leaves n (Standing c n) (set_routes sys ip gw) (λ _. settle sys c) m1
            (set_routes-Leaves n ip gw m1 v1) λ _. settle-Leaves c n

  prepare_engine-Leaves :
      (c : Config.Uplink) (ip gw : String) (n : ℕ) (m : Manager)
      → Idle n m
      → Leaves n (Standing c n) (prepare_engine sys c ip gw m)
  unfolding prepare_engine
  prepare_engine-Leaves c ip gw n m v =
      bind-Leaves n (Standing c n) (try_proxy sys c ip)
        (λ _. write_engine sys >> raise_engine sys c ip gw) m (try_proxy-Leaves c ip n m v)
        λ _ m1 v1.
          bind-Leaves n (Standing c n) (write_engine sys) (λ _. raise_engine sys c ip gw) m1
            (write_engine-Leaves n m1 v1) λ _. raise_engine-Leaves c ip gw n

  pub build-Leaves :
      (c : Config.Uplink) (n : ℕ) (m : Manager) → Idle n m → Leaves n (Standing c n) (build sys c m)
  unfolding build over_proxy over_gateway
  build-Leaves c n m v =
      bind-Leaves n (Standing c n) (find_proxy sys c) (over_proxy sys c) m
        (find_proxy-Leaves c n m v)
        λ ip m1 v1.
          bind-Leaves n (Standing c n) (find_gateway sys) (over_gateway sys c ip) m1
            (find_gateway-Leaves n m1 v1)
            λ gw m2 v2.
              bind-Leaves n (Standing c n) (pin_route sys ip gw) (λ _. prepare_engine sys c ip gw)
                m2 (pin_route-Leaves ip gw n m2 v2) λ _. prepare_engine-Leaves c ip gw n
