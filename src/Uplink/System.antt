-- ===== src/Uplink/System.antt =====
-- What image/agent/internal/uplink does to the outside, and what the outside answers.
use expressvpn_container.Base.{ℕ, String, Bool, true, false, Option, none, some, List, ◌∷◌}
use expressvpn_container.Base.Int.{ℤ}
use expressvpn_container.Config
use expressvpn_container.State.{State}

-- `proxy_check` is `tcpCheck`; `launch` and `halt` are `startLocked` with its wait for the
-- interface, and `stopProcLocked`; `probe` starts the goroutine of a UDP probe.
pub data Action : Type 0 where
  command : List String → Action
  lookup : String → Action
  proxy_check : String → ℤ → Action
  write_config launch halt redirect : Action
  restore : String → Action
  probe : ℕ → Action

-- Each answer may depend on all that was done before (newest first). `default_via` is the regular
-- expression `default via (\S+)`, and `endpoint` is `JoinHostPort`.
pub record System : Type 0 where
  pub run : List Action → List String → Bool × String
  pub resolve : List Action → String → Option String
  pub reachable : List Action → String → ℤ → Bool
  pub config_written : List Action → Bool
  pub launched : List Action → Bool
  pub alive : List Action → Bool
  pub old_resolver : List Action → Option String
  pub default_via : String → Option String
  pub endpoint : String → ℤ → String

-- The fields of `Manager` that change, the snapshot, and the history. Probes are numbered.
pub record Manager : Type 0 where
  pub applied : Option Config.Uplink
  pub running : Bool
  pub probe_run : Option ℕ
  pub probes : ℕ
  pub proxy_ip : String
  pub gw : String
  pub saved_resolv : Option String
  pub st : State
  pub log : List Action

abbrev pub did : Action → Manager → Manager
did a m = record m { log = a ∷ m.log }

-- A step of `Apply` goes on with a value, or ends with what is wrong.
pub data Step (A : Type 0) : Type 0 where
  go : A → Step A
  wrong : String → Step A

abbrev pub M : Type 0 → Type 0
M A = Manager → Step A × Manager

abbrev pub pure : {A : Type 0} → A → M A
pure a m = (go a, m)

abbrev pub after : {A B : Type 0} → (A → M B) → Step A → M B
after f (go a) m = f a m
after f (wrong e) m = (wrong e, m)

infixl 5 ◌>>=◌ ◌>>◌
abbrev pub ◌>>=◌ : {A B : Type 0} → M A → (A → M B) → M B
◌>>=◌ x f m = let (r, m') = x m in after f r m'

abbrev pub ◌>>◌ : {A B : Type 0} → M A → M B → M B
x >> k = x >>= λ _. k

abbrev pub modify : (Manager → Manager) → M (Unit {0})
modify f m = (go tt, f m)

-- What is required, with the reason that is published where it does not hold.
abbrev pub need : Bool → String → M (Unit {0})
need true why m = (go tt, m)
need false why m = (wrong why, m)

abbrev pub need_some : {A : Type 0} → Option A → String → M A
need_some none why m = (wrong why, m)
need_some (some a) why m = (go a, m)
