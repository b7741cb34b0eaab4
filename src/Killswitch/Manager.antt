-- ===== src/Killswitch/Manager.antt =====
-- `Manager` of image/agent/internal/killswitch/manager.go: loading the rules, with the fallback for
-- kernels without nf_tables, and reading the counters of dropped packets.
pub mod Enforced
use expressvpn_container.Base.{
  ℕ, zero, suc, ◌+◌, ◌-◌, ◌*◌, ◌%◌, ◌≤◌, ◌<◌, String, Bool, true, false, not, ◌&&◌, ◌||◌, Option,
  none, some, List, [], ◌∷◌, ◌++◌, map, reverse, ◌≡◌, ◌≢◌, ◌↔◌, ◌⊎◌, inl, inr, refl, sym, ap, ◌∙◌,
  subst, ◌==◌, ltb, leb, str_eq, eq_iff, if◌then◌else◌, arith, Bool-cases, Option-cases, if_both,
  if_either, length, take, drop, get_or, set, replicate, filter,
}
use expressvpn_container.Base.Int.{ℤ}
use expressvpn_container.Config
use expressvpn_container.Killswitch.Rule.{Params, defaults, Line}
use expressvpn_container.Killswitch.Ruleset.{nft_ruleset}
use expressvpn_container.Killswitch.Iptables.{iptables_ruleset}

-- What is done to the outside: asking for the subnet of an interface and for the address of a name,
-- writing a rule file and loading it, and the jump to the legacy chain.
pub data Action : Type 0 where
  ask_subnet resolve_name : String → Action
  write_file load_nft load_legacy : List Line → Action
  check_jump insert_jump list_nft list_legacy : Action

-- `Runner` and what else the manager calls. Each answer may depend on all that was done before,
-- newest first. A run succeeded if it started and ended with 0. `nft_counts` are the numbers after
-- `packets` in a text, and `legacy_counts` those of its DROP rules, both as `ParseInt` reads them.
pub record Outside : Type 0 where
  pub subnet : List Action → String → Option String
  pub resolve : List Action → String → Option String
  pub written : List Action → List Line → Bool
  pub loaded : List Action → Action → Bool
  pub jump_exit : List Action → Option ℕ
  pub inserted : List Action → Bool
  pub listed : List Action → Action → Option String
  pub nft_counts : String → List ℕ
  pub legacy_counts : String → List ℕ

-- An action, and whether it succeeded.
abbrev pub Event : Type 0
Event = Action × Bool

pub data Backend : Type 0 where
  none_yet nft iptables : Backend

pub record Manager : Type 0 where
  pub params : Params
  pub backend : Backend
  pub legacy_logged : Bool
  pub log : List Event

-- `NewManager`
unfoldable pub new : Manager
unfolding defaults
new = record { params = defaults; backend = none_yet; legacy_logged = false; log = [] }

abbrev pub did : Action → Bool → Manager → Manager
did a ok m = record m { log = (a, ok) ∷ m.log }

abbrev pub actions : List Event → List Action
actions es = map (λ (e : Event). e.0) es

abbrev pub is_some {ℓ} : {A : Type ℓ} → Option A → Bool
is_some none = false
is_some (some _) = true

module _ (out : Outside) where
  write_rules : List Line → Manager → Bool × Manager
  write_rules ls m = let ok = out.written (actions m.log) ls in (ok, did (write_file ls) ok m)

  load : Action → Bool × Manager → Bool × Manager
  load a (false, m) = (false, m)
  load a (true, m) = let ok = out.loaded (actions m.log) a in (ok, did a ok m)

  -- `applyNFT`
  unfoldable pub apply_nft : Params → Manager → Bool × Manager
  unfolding write_rules load
  apply_nft p m = load (load_nft (nft_ruleset p)) (write_rules (nft_ruleset p) m)

  add_jump : Manager → Bool × Manager
  add_jump m = let ok = out.inserted (actions m.log) in (ok, did insert_jump ok m)

  -- The jump is inserted where the check ran and did not find it.
  jump : Option ℕ → Manager → Bool × Manager
  unfolding add_jump
  jump none m = (false, did check_jump false m)
  jump (some exit) m =
      if exit == 0 then (true, did check_jump true m) else add_jump (did check_jump false m)

  ensure_jump : Bool × Manager → Bool × Manager
  unfolding jump
  ensure_jump (false, m) = (false, m)
  ensure_jump (true, m) = jump (out.jump_exit (actions m.log)) m

  -- `applyIptables`
  unfoldable pub apply_iptables : Params → Manager → Bool × Manager
  unfolding write_rules load ensure_jump
  apply_iptables p m =
      ensure_jump (load (load_legacy (iptables_ruleset p)) (write_rules (iptables_ruleset p) m))

  fall_back : Params → Bool × Manager → Bool × Manager
  fall_back p (true, m) = (true, record m { backend = iptables; params = p; legacy_logged = true })
  fall_back p (false, m) = (false, m)

  load_rules : Params → Bool × Manager → Bool × Manager
  unfolding fall_back
  load_rules p (true, m) = (true, record m { backend = nft; params = p })
  load_rules p (false, m) = fall_back p (apply_iptables p m)

  -- The parameters of the rules, before the proxy's address.
  base_params : Config.Uplink → Option String → Params → Params
  base_params c none p = record p { mode = c.mode }
  base_params c (some net) p = record p { mode = c.mode; docker_subnet = net }

  with_proxy : Config.Uplink → Params → Option String → Manager → Bool × Manager
  unfolding load_rules
  with_proxy c p none m = (false, m)
  with_proxy c p (some ip) m =
      let p' = record p { proxy_ip = ip; proxy_port = c.socks5.port } in
      load_rules p' (apply_nft p' m)

  resolve_and_load : Config.Uplink → Params → Manager → Bool × Manager
  unfolding with_proxy load_rules
  resolve_and_load c p m =
      let ip = out.resolve (actions m.log) c.socks5.host in
      if str_eq c.mode "socks5"
      then with_proxy c p ip (did (resolve_name c.socks5.host) (is_some ip) m)
      else load_rules p (apply_nft p m)

  -- `Apply`: whether it succeeded, and the manager.
  unfoldable pub apply : Config.Uplink → Manager → Bool × Manager
  unfolding base_params resolve_and_load
  apply c m =
      let net = out.subnet (actions m.log) m.params.eth_iface in
      resolve_and_load c (base_params c net m.params)
        (did (ask_subnet m.params.eth_iface) (is_some net) m)

  sum : List ℕ → ℕ
  sum [] = 0
  sum (n ∷ ns) = n + sum ns

  counted : (String → List ℕ) → Option String → Option ℕ
  unfolding sum
  counted counts none = none
  counted counts (some text) = some (sum (counts text))

  list_by : Backend → Action
  list_by iptables = list_legacy
  list_by _ = list_nft

  counts_by : Backend → String → List ℕ
  counts_by iptables = out.legacy_counts
  counts_by _ = out.nft_counts

  -- `Dropped` and `droppedIptables`: the packets dropped, unless the counters cannot be listed.
  unfoldable pub dropped : Manager → Option ℕ × Manager
  unfolding counted list_by counts_by
  dropped m =
      let text = out.listed (actions m.log) (list_by m.backend) in
      (counted (counts_by m.backend) text, did (list_by m.backend) (is_some text) m)
