-- ===== src/Xvpn/Cli.antt =====
-- Calls of expressvpnctl: image/agent/internal/xvpn/cli.go, over the programs that the agent starts.
use Prim.Native.String.{◌++◌ as cat}
use expressvpn_container.Base.{
  ℕ, String, Bool, none, some, List, [], ◌∷◌, ◌≡◌, refl, str_eq, if◌then◌else◌,
}
use expressvpn_container.Base.Int.{ℤ}
use expressvpn_container.Base.Strings.{trim_space}
use expressvpn_container.State.{State, Connection}
use expressvpn_container.Xvpn.Errors.{Err, other, classify_error}
use expressvpn_container.Xvpn.Parse.{
  parse_connection_state, Status, parse_status, parse_value, parse_regions, parse_smart,
}

-- What the agent does to the outside: a run of expressvpnctl with its action, its arguments and
-- its timeout in seconds, or a pause.
pub data Command : Type 0 where
  ctl : String → List String → ℕ → Command
  pause : ℕ → Command

pub data Output : Type 0 where
  exited : String → ℤ → Output
  not_run : String → Output

pub data Result {ℓ} (A : Type ℓ) : Type ℓ where
  good : A → Result A
  bad : Err → Result A

-- The programs and the clock. Whatever is asked for, the answer may depend on all that was done
-- before (newest first). `meanwhile` is what other goroutines do to the snapshot during a command;
-- `cancelled` tells whether the context ends before a pause does; `login_file` is the temporary
-- file for an activation code, or why it cannot be written; `decimal` is `strconv.Itoa`.
pub record Host : Type 0 where
  pub answer : List Command → List String → Output
  pub now : List Command → ℕ
  pub cancelled : List Command → Bool
  pub meanwhile : List Command → State → State
  pub login_file : List Command → String → Result String
  pub error_text : Err → String
  pub decimal : ℕ → String

pub record Session : Type 0 where
  pub st : State
  pub log : List Command

abbrev pub M : Type 0 → Type 0
M A = Session → Result A × Session

abbrev pub pure : {A : Type 0} → A → M A
pure a w = (good a, w)

abbrev pub raise : {A : Type 0} → Err → M A
raise e w = (bad e, w)

abbrev pub after : {A B : Type 0} → (A → M B) → Result A → M B
after f (good a) w = f a w
after f (bad e) w = (bad e, w)

infixl 5 ◌>>=◌ ◌>>◌
abbrev pub ◌>>=◌ : {A B : Type 0} → M A → (A → M B) → M B
◌>>=◌ m f w = let (r, w') = m w in after f r w'

abbrev pub ◌>>◌ : {A B : Type 0} → M A → M B → M B
m >> k = m >>= λ _. k

abbrev pub update : (State → State) → M (Unit {0})
update f w = (good tt, record w { st = f w.st })

read_output : String → Output → Result String
read_output action (not_run why) =
    bad (other (cat "run expressvpnctl " (cat action (cat ": " why))))
read_output action (exited out code) = elim (classify_error action out code) [
  | none ↦ good out
  | some e ↦ bad e
]

abbrev trimmed : Result String → Result String
trimmed (good s) = good (trim_space s)
trimmed (bad e) = bad e

module _ (h : Host) where
  -- `CLI.run`
  unfoldable pub run_ctl : String → ℕ → List String → M String
  unfolding read_output
  run_ctl action timeout args w = (
    read_output action (h.answer w.log ("-t" ∷ h.decimal timeout ∷ args)),
    record { st = h.meanwhile w.log w.st; log = ctl action args timeout ∷ w.log },
  )

  -- What the daemon says of its connection when it is asked after `log`.
  abbrev pub raw_at : List Command → Result String
  unfolding read_output
  raw_at log =
      trimmed
        (read_output "get" (h.answer log ("-t" ∷ h.decimal 15 ∷ "get" ∷ "connectionstate" ∷ [])))

  -- `RawConnectionState`
  unfoldable pub raw_connection_state : M String
  raw_connection_state = do
    out ← run_ctl "get" 15 ("get" ∷ "connectionstate" ∷ [])
    pure (trim_space out)

  abbrev pub state_asked : Session → Session
  state_asked w = record {
    st = h.meanwhile w.log w.st;
    log = ctl "get" ("get" ∷ "connectionstate" ∷ []) 15 ∷ w.log;
  }

  after_trim :
      (r : Result String) (w : Session) → after (λ out. pure (trim_space out)) r w ≡ (trimmed r, w)
  after_trim (good s) w = refl
  after_trim (bad e) w = refl

  -- The question is put once, and its answer depends on the history alone.
  pub raw_connection_state_lem :
      (w : Session) → raw_connection_state w ≡ (raw_at w.log, state_asked w)
  unfolding raw_connection_state run_ctl raw_at
  raw_connection_state_lem w = after_trim _ _

  -- `ConnectionState`
  unfoldable pub connection_state : M Connection
  connection_state = do raw ← raw_connection_state; pure (parse_connection_state raw)

  -- `Status`
  unfoldable pub status : M Status
  status = do out ← run_ctl "status" 15 ("status" ∷ []); pure (parse_status out)

  -- `Get`
  unfoldable pub get : String → M String
  get what = do out ← run_ctl "get" 15 ("get" ∷ what ∷ []); pure (parse_value out)

  -- `Regions`
  unfoldable pub regions : M (List String)
  regions = do out ← run_ctl "get" 15 ("get" ∷ "regions" ∷ []); pure (parse_regions out)

  -- `Smart`
  unfoldable pub smart : M String
  smart = do out ← run_ctl "get" 15 ("get" ∷ "smart" ∷ []); pure (parse_smart out)

  -- `Set`
  unfoldable pub set : String → String → M (Unit {0})
  set what value = do run_ctl "set" 15 ("set" ∷ what ∷ value ∷ []); pure tt

  -- `BackgroundEnable`
  unfoldable pub background_enable : M (Unit {0})
  background_enable = do run_ctl "background" 15 ("background" ∷ "enable" ∷ []); pure tt

  -- `Connect`, with its timeout in seconds.
  unfoldable pub connect : String → ℕ → M (Unit {0})
  connect location timeout = do
    run_ctl "connect" timeout ("connect" ∷ (if str_eq location "" then [] else location ∷ []))
    pure tt

  -- `Disconnect`
  unfoldable pub disconnect : M (Unit {0})
  disconnect = do run_ctl "disconnect" 15 ("disconnect" ∷ []); pure tt

  -- `Login`: the code is handed over in a file.
  unfoldable pub login : String → M (Unit {0})
  login code = do
    path ← λ w. (h.login_file w.log code, w)
    run_ctl "login" 60 ("login" ∷ path ∷ [])
    pure tt

  -- `Logout`
  unfoldable pub logout : M (Unit {0})
  logout = do run_ctl "logout" 30 ("logout" ∷ []); pure tt
