-- ===== src/Config/Validation.antt =====
-- What `Validate` accepts and what `Redacted` hides, for image/agent/internal/config/config.go.
use expressvpn_container.Base.{
  String, ◌≤◌, true, false, Option, none, some, List, [], ◌∷◌, ◌≡◌, ◌≢◌, refl, ◌↔◌, ◌⊎◌, str_eq,
  eq_iff, arith, Bool-cases, inl, inr, ◌&&◌,
}
use mathlib.Core.Path.{ap₂}
use expressvpn_container.Base.Int.{ℤ, pos, negsuc}
use expressvpn_container.Config.{
  Config, ProxyAuth, known_protocols, one_of, port_invalid, check_auth, validate, mask,
  mask_password, redact_auth, redacted,
}

-- The text is one of the list.
abbrev pub OneOf : List String → String → Type 0
OneOf [] s = ⊥
OneOf (x ∷ xs) s = (s ≡ x) ⊎ OneOf xs s

abbrev pub InPortRange : ℤ → Type 0
InPortRange (pos n) = (1 ≤ n) × (n ≤ 65535)
InPortRange (negsuc _) = ⊥

abbrev pub AuthComplete : Option ProxyAuth → Type 0
AuthComplete none = Unit
AuthComplete (some a) = (a.username ≢ "") × (a.password ≢ "")

-- The configurations that the agent may run with.
pub record IsValid (c : Config) : Type 0 where
  pub protocol_known : OneOf known_protocols c.expressvpn.protocol
  pub mode_known : OneOf ("host" ∷ "socks5" ∷ []) c.uplink.mode
  pub host_given : c.uplink.mode ≡ "socks5" → c.uplink.socks5.host ≢ ""
  pub port_in_range : c.uplink.mode ≡ "socks5" → InPortRange c.uplink.socks5.port
  pub udp_known : OneOf ("auto" ∷ "on" ∷ "off" ∷ []) c.uplink.socks5.udp
  pub auth_complete : AuthComplete c.proxy.auth

one_of_iff : (xs : List String) (s : String) → (one_of xs s ≡ true) ↔ OneOf xs s
unfolding one_of
one_of_iff [] s = (λ h. cc, λ h. absurd h)
one_of_iff (x ∷ xs) s = ground (arith, eq_iff s x, one_of_iff xs s)

port_invalid_iff : (p : ℤ) → (port_invalid p ≡ false) ↔ InPortRange p
port_invalid_iff (pos n) = ground arith
port_invalid_iff (negsuc n) = (λ h. cc, λ h. absurd h)

check_auth_iff : (a : Option ProxyAuth) → (check_auth a ≡ none) ↔ AuthComplete a
unfolding check_auth
check_auth_iff none = ground arith
check_auth_iff (some a) = ground (arith, eq_iff a.username "", eq_iff a.password "")

-- The tests of `Validate`, all passed.
record Passes (c : Config) : Type 0 where
  protocol : one_of known_protocols c.expressvpn.protocol ≡ true
  mode : one_of ("host" ∷ "socks5" ∷ []) c.uplink.mode ≡ true
  host : (str_eq c.uplink.mode "socks5" && str_eq c.uplink.socks5.host "") ≡ false
  port : (str_eq c.uplink.mode "socks5" && port_invalid c.uplink.socks5.port) ≡ false
  udp : one_of ("auto" ∷ "on" ∷ "off" ∷ []) c.uplink.socks5.udp ≡ true
  auth : check_auth c.proxy.auth ≡ none

Passes-IsValid : {c : Config} → Passes c → IsValid c
Passes-IsValid {c} p = record {
  protocol_known = (one_of_iff _ _).0 p.protocol;
  mode_known = (one_of_iff _ _).0 p.mode;
  host_given =
      λ m. ground (arith, p.host, eq_iff c.uplink.mode "socks5", eq_iff c.uplink.socks5.host "");
  port_in_range =
      λ m. (port_invalid_iff _).0 (ground (arith, p.port, eq_iff c.uplink.mode "socks5"));
  udp_known = (one_of_iff _ _).0 p.udp;
  auth_complete = (check_auth_iff _).0 p.auth;
}

IsValid-Passes : {c : Config} → IsValid c → Passes c
IsValid-Passes {c} v = record {
  protocol = (one_of_iff _ _).1 v.protocol_known;
  mode = (one_of_iff _ _).1 v.mode_known;
  host =
      ground (arith, v.host_given, eq_iff c.uplink.mode "socks5", eq_iff c.uplink.socks5.host "");
  port = elim (Bool-cases (str_eq c.uplink.mode "socks5")) [
    | inl m ↦ rw m ((port_invalid_iff _).1 (v.port_in_range ((eq_iff _ _).0 m)))
    | inr m ↦ rw m
  ];
  udp = (one_of_iff _ _).1 v.udp_known;
  auth = (check_auth_iff _).1 v.auth_complete;
}

mask_password-empty : (p : String) → str_eq (mask_password p) "" ≡ str_eq p ""
unfolding mask_password
mask_password-empty p = elim (Bool-cases (str_eq p "")) [ inl h ↦ rw h h | inr h ↦ rw h ]

check_auth-redact_auth : (a : Option ProxyAuth) → check_auth (redact_auth a) ≡ check_auth a
unfolding check_auth redact_auth
check_auth-redact_auth none = refl
check_auth-redact_auth (some a) = rw mask_password-empty

mask_password_idem : (p : String) → mask_password (mask_password p) ≡ mask_password p
unfolding mask_password
mask_password_idem p = ground (arith, eq_iff p "")

redact_auth_idem : (a : Option ProxyAuth) → redact_auth (redact_auth a) ≡ redact_auth a
unfolding redact_auth
redact_auth_idem none = refl
redact_auth_idem (some a) = ground (arith, eq_iff a.password "")

module _ (unknown : String → String → String) where
  validate-Passes : (c : Config) → validate unknown c ≡ none → Passes c
  unfolding validate
  validate-Passes c h = ground arith

  Passes-validate : (c : Config) → Passes c → validate unknown c ≡ none
  unfolding validate
  Passes-validate c p = ground arith

  -- `Validate` returns no error exactly for a known protocol and mode, a host and a port within
  -- 1..65535 in socks5 mode, a known udp setting, and both credentials where the inbound proxy
  -- asks for them.
  pub validate_iff : (c : Config) → (validate unknown c ≡ none) ↔ IsValid c
  validate_iff c =
      (λ h. Passes-IsValid (validate-Passes c h), λ v. Passes-validate c (IsValid-Passes v))

  -- The masked copy of a configuration passes and fails validation as the configuration does.
  pub validate-redacted : (c : Config) → validate unknown (redacted c) ≡ validate unknown c
  unfolding validate redacted
  validate-redacted c = rw check_auth-redact_auth

-- A password is shown as nothing or as the mask.
abbrev pub Hidden : String → Type 0
Hidden p = (p ≡ "") ⊎ (p ≡ mask)

abbrev pub AuthHidden : Option ProxyAuth → Type 0
AuthHidden none = Unit
AuthHidden (some a) = Hidden a.password

redact_auth-AuthHidden : (a : Option ProxyAuth) → AuthHidden (redact_auth a)
unfolding redact_auth
redact_auth-AuthHidden none = tt
redact_auth-AuthHidden (some a) = ground (arith, eq_iff a.password "")

-- In the masked copy both passwords are empty or "***", and masking it again changes nothing.
pub redacted-Hidden :
    (c : Config)
    → Hidden (redacted c).uplink.socks5.password
      × AuthHidden (redacted c).proxy.auth
      × (redacted (redacted c) ≡ redacted c)
unfolding redacted
redacted-Hidden c = (
  ground (arith, eq_iff c.uplink.socks5.password ""),
  redact_auth-AuthHidden c.proxy.auth,
  ap₂
      (λ p a. record c {
        uplink = record c.uplink { socks5 = record c.uplink.socks5 { password = p } };
        proxy = record { auth = a };
      })
      (mask_password_idem c.uplink.socks5.password) (redact_auth_idem c.proxy.auth),
)
