-- ===== src/Killswitch/Manager/Enforced.antt =====
-- What `Apply` of image/agent/internal/killswitch/manager.go leaves in force.
use expressvpn_container.Base.{
  ℕ, String, Bool, true, false, Option, none, some, List, [], ◌∷◌, ◌≡◌, ◌⊎◌, inl, inr, refl, ◌∙◌,
  ◌==◌, str_eq, if◌then◌else◌, if_both,
}
use expressvpn_container.Config
use expressvpn_container.Killswitch.Rule.{
  Params, mark, Verdict, accept, Line, rules, Packet, Filter,
}
use expressvpn_container.Killswitch.Ruleset.{nft_ruleset}
use expressvpn_container.Killswitch.Iptables.{iptables_ruleset}
use expressvpn_container.Killswitch.Verdicts.{client_may, marked-nft_ruleset, backends_agree}
use expressvpn_container.Killswitch.Manager.{
  is_some, add_jump, Action, ask_subnet, resolve_name, load_nft, load_legacy, check_jump,
  insert_jump, Outside, Event, nft, iptables, Manager, did, write_rules, load, apply_nft, jump,
  ensure_jump, apply_iptables, fall_back, load_rules, base_params, with_proxy, resolve_and_load,
  apply, actions,
}

-- The rule file that was loaded last.
abbrev pub in_force : List Event → Option (List Line)
in_force [] = none
in_force ((load_nft ls, true) ∷ es) = some ls
in_force ((load_legacy ls, true) ∷ es) = some ls
in_force (e ∷ es) = in_force es

-- What the newest look at the jump to the legacy chain, or its insertion, found.
abbrev pub has_jump : List Event → Bool
has_jump [] = false
has_jump ((check_jump, ok) ∷ es) = ok
has_jump ((insert_jump, ok) ∷ es) = ok
has_jump (e ∷ es) = has_jump es

-- The rules for the asked mode are the last loaded ones, and reached from the output chain.
pub data Enforces (c : Config.Uplink) (m : Manager) : Type 0 where
  by_nft :
      m.backend ≡ nft
      → m.params.mode ≡ c.mode
      → in_force m.log ≡ some (nft_ruleset m.params)
      → Enforces c m
  by_iptables :
      m.backend ≡ iptables
      → m.params.mode ≡ c.mode
      → in_force m.log ≡ some (iptables_ruleset m.params)
      → has_jump m.log ≡ true
      → Enforces c m

-- A failure changes neither the parameters nor the backend.
pub data Outcome (c : Config.Uplink) (m : Manager) (r : Bool × Manager) : Type 0 where
  enforced : r.0 ≡ true → Enforces c r.1 → Outcome c m r
  failed : r.0 ≡ false → r.1.params ≡ m.params → r.1.backend ≡ m.backend → Outcome c m r

-- A step on the way: the fields are as before, and after a success `P` holds.
record Way (m : Manager) (P : Manager → Type 0) (r : Bool × Manager) : Type 0 where
  same_params : r.1.params ≡ m.params
  same_backend : r.1.backend ≡ m.backend
  done : (r.0 ≡ false) ⊎ P r.1

loaded_now :
    (a : Action) (ls : List Line) (ok : Bool) (es : List Event)
    → (a ≡ load_nft ls) ⊎ (a ≡ load_legacy ls)
    → (ok ≡ false) ⊎ (in_force ((a, ok) ∷ es) ≡ some ls)
loaded_now a ls false es k = inl refl
loaded_now a ls true es (inl e) = inr (rw e)
loaded_now a ls true es (inr e) = inr (rw e)

inserted_now :
    (ls : List Line) (ok : Bool) (es : List Event)
    → in_force es ≡ some ls
    → (ok ≡ false)
      ⊎ ((in_force ((insert_jump, ok) ∷ es) ≡ some ls) × (has_jump ((insert_jump, ok) ∷ es) ≡ true))
inserted_now ls false es v = inl refl
inserted_now ls true es v = inr (v, refl)

module _ (out : Outside) where
  write_rules-Way : (ls : List Line) (m : Manager) → Way m (λ _. Unit {0}) (write_rules out ls m)
  unfolding write_rules
  write_rules-Way ls m = record { same_params = refl; same_backend = refl; done = inr tt }

  Loaded : List Line → Manager → Type 0
  Loaded ls m = in_force m.log ≡ some ls

  load-Way :
      (a : Action) (ls : List Line) (m : Manager) (r : Bool × Manager)
      → (a ≡ load_nft ls) ⊎ (a ≡ load_legacy ls)
      → Way m (λ _. Unit {0}) r
      → Way m (Loaded ls) (load out a r)
  unfolding load Loaded
  load-Way a ls m (false, m') k v = record {
    same_params = v.same_params;
    same_backend = v.same_backend;
    done = inl refl;
  }
  load-Way a ls m (true, m') k v = record {
    same_params = v.same_params;
    same_backend = v.same_backend;
    done = loaded_now a ls _ _ k;
  }

  apply_nft-Way : (p : Params) (m : Manager) → Way m (Loaded (nft_ruleset p)) (apply_nft out p m)
  unfolding apply_nft
  apply_nft-Way p m =
      load-Way (load_nft (nft_ruleset p)) (nft_ruleset p) m (write_rules out (nft_ruleset p) m)
        (inl refl) (write_rules-Way (nft_ruleset p) m)

  Hooked : List Line → Manager → Type 0
  Hooked ls m = (in_force m.log ≡ some ls) × (has_jump m.log ≡ true)

  add_jump-Way :
      (ls : List Line) (m0 m : Manager)
      → m.params ≡ m0.params
      → m.backend ≡ m0.backend
      → Loaded ls m
      → Way m0 (Hooked ls) (add_jump out m)
  unfolding add_jump Loaded Hooked
  add_jump-Way ls m0 m p b v = record {
    same_params = p;
    same_backend = b;
    done = inserted_now ls (out.inserted (actions m.log)) m.log v;
  }

  jump-Way :
      (ls : List Line) (m0 m : Manager) (exit : Option ℕ)
      → m.params ≡ m0.params
      → m.backend ≡ m0.backend
      → Loaded ls m
      → Way m0 (Hooked ls) (jump out exit m)
  unfolding jump Loaded Hooked
  jump-Way ls m0 m none p b v = record { same_params = p; same_backend = b; done = inl refl }
  jump-Way ls m0 m (some exit) p b v =
      if_both (Way m0 (Hooked ls)) (exit == 0)
        (record { same_params = p; same_backend = b; done = inr (v, refl) })
        (add_jump-Way ls m0 (did check_jump false m) p b v)

  ensure_jump-Way :
      (ls : List Line) (m : Manager) (r : Bool × Manager)
      → Way m (Loaded ls) r
      → Way m (Hooked ls) (ensure_jump out r)
  unfolding ensure_jump
  ensure_jump-Way ls m (false, m') v = record {
    same_params = v.same_params;
    same_backend = v.same_backend;
    done = inl refl;
  }
  ensure_jump-Way ls m (true, m') v = elim v.done [
    | inl e ↦ cc e
    | inr l ↦ jump-Way ls m m' (out.jump_exit (actions m'.log)) v.same_params v.same_backend l
  ]

  apply_iptables-Way :
      (p : Params) (m : Manager) → Way m (Hooked (iptables_ruleset p)) (apply_iptables out p m)
  unfolding apply_iptables
  apply_iptables-Way p m =
      ensure_jump-Way (iptables_ruleset p) m
        (load out (load_legacy (iptables_ruleset p)) (write_rules out (iptables_ruleset p) m))
        (load-Way (load_legacy (iptables_ruleset p)) (iptables_ruleset p) m
          (write_rules out (iptables_ruleset p) m) (inr refl)
          (write_rules-Way (iptables_ruleset p) m))

  fall_back-Outcome :
      (c : Config.Uplink) (p : Params) (m m1 : Manager) (r : Bool × Manager)
      → p.mode ≡ c.mode
      → m1.params ≡ m.params
      → m1.backend ≡ m.backend
      → Way m1 (Hooked (iptables_ruleset p)) r
      → Outcome c m (fall_back out p r)
  unfolding fall_back Hooked
  fall_back-Outcome c p m m1 (false, m2) e a b v =
      failed refl (v.same_params ∙ a) (v.same_backend ∙ b)
  fall_back-Outcome c p m m1 (true, m2) e a b v = elim v.done [
    | inl k ↦ cc k
    | inr (l, j) ↦ enforced refl (by_iptables refl e l j)
  ]

  load_rules-Outcome :
      (c : Config.Uplink) (p : Params) (m : Manager) (r : Bool × Manager)
      → p.mode ≡ c.mode
      → Way m (Loaded (nft_ruleset p)) r
      → Outcome c m (load_rules out p r)
  unfolding load_rules Loaded
  load_rules-Outcome c p m (false, m1) e v =
      fall_back-Outcome c p m m1 (apply_iptables out p m1) e v.same_params v.same_backend
        (apply_iptables-Way p m1)
  load_rules-Outcome c p m (true, m1) e v = elim v.done [
    | inl k ↦ cc k
    | inr l ↦ enforced refl (by_nft refl e l)
  ]

  -- What was done before changes neither the parameters nor the backend.
  Outcome-did :
      (c : Config.Uplink) (a : Action) (ok : Bool) (m : Manager) (r : Bool × Manager)
      → Outcome c (did a ok m) r
      → Outcome c m r
  Outcome-did c a ok m r (enforced e v) = enforced e v
  Outcome-did c a ok m r (failed e p b) = failed e p b

  with_proxy-Outcome :
      (c : Config.Uplink) (p : Params) (ip : Option String) (m : Manager)
      → p.mode ≡ c.mode
      → Outcome c m (with_proxy out c p ip m)
  unfolding with_proxy
  with_proxy-Outcome c p none m e = failed refl refl refl
  with_proxy-Outcome c p (some ip) m e =
      let p' : Params = record p { proxy_ip = ip; proxy_port = c.socks5.port } in
      load_rules-Outcome c p' m (apply_nft out p' m) e (apply_nft-Way p' m)

  resolve_and_load-Outcome :
      (c : Config.Uplink) (p : Params) (m : Manager)
      → p.mode ≡ c.mode
      → Outcome c m (resolve_and_load out c p m)
  unfolding resolve_and_load
  resolve_and_load-Outcome c p m e =
      let ip = out.resolve (actions m.log) c.socks5.host in
      let m' = did (resolve_name c.socks5.host) (is_some ip) m in
      if_both (Outcome c m) (str_eq c.mode "socks5")
        (Outcome-did c (resolve_name c.socks5.host) (is_some ip) m (with_proxy out c p ip m')
          (with_proxy-Outcome c p ip m' e))
        (load_rules-Outcome c p m (apply_nft out p m) e (apply_nft-Way p m))

  base_params-mode :
      (c : Config.Uplink) (net : Option String) (p : Params)
      → (base_params out c net p).mode ≡ c.mode
  unfolding base_params
  base_params-mode c none p = refl
  base_params-mode c (some net) p = refl

  -- If `Apply` succeeds, then the rule file that was loaded last is the one of the recorded backend
  -- for the recorded parameters, whose mode is the asked one, and with the legacy backend the
  -- output chain jumps to it. If it fails, then the parameters and the backend are as before.
  pub apply-Outcome : (c : Config.Uplink) (m : Manager) → Outcome c m (apply out c m)
  unfolding apply
  apply-Outcome c m =
      let net = out.subnet (actions m.log) m.params.eth_iface in
      let p = base_params out c net m.params in
      let m' = did (ask_subnet m.params.eth_iface) (is_some net) m in
      Outcome-did c (ask_subnet m.params.eth_iface) (is_some net) m (resolve_and_load out c p m')
        (resolve_and_load-Outcome c p m' (base_params-mode c net m.params))

module _ (member : String → ℕ → Bool) (kernel : Filter member) (k : Packet) where
  -- The packet meets its fate by the rules in force.
  abbrev pub Confines : Manager → Type 0
  Confines m =
      (ls : List Line) × (in_force m.log ≡ some ls)
      × (kernel.classify (rules ls) k
          ≡ (if client_may member m.params k then accept else Verdict.drop))

  Enforces-Confines :
      (c : Config.Uplink) (m : Manager) → k.fwmark ≡ mark → Enforces c m → Confines m
  Enforces-Confines c m h (by_nft b e l) =
      (nft_ruleset m.params, l, marked-nft_ruleset member kernel m.params k h)
  Enforces-Confines c m h (by_iptables b e l j) = (
    iptables_ruleset m.params,
    l,
    backends_agree member kernel kernel m.params k ∙ marked-nft_ruleset member kernel m.params k h,
  )

  -- After a successful `Apply`, a packet of a proxy client, which bears the mark, passes the rule
  -- file that was loaded last exactly if it goes to the loopback or the tunnel interface, or over
  -- the container's interface into the recorded Docker subnet when one is known.
  pub apply-Confines :
      (out : Outside) (c : Config.Uplink) (m : Manager)
      → k.fwmark ≡ mark
      → (apply out c m).0 ≡ true
      → Confines (apply out c m).1
  apply-Confines out c m marked h = elim (apply-Outcome out c m) [
    | enforced e v ↦ Enforces-Confines c (apply out c m).1 marked v
    | failed e p b ↦ cc (h, e)
  ]
