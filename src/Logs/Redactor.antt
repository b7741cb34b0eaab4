-- ===== src/Logs/Redactor.antt =====
-- `Redactor` of image/agent/internal/logs/logs.go: the secrets that no log line may show.
use expressvpn_container.Base.{ℕ, String, List, [], ◌∷◌, ◌++◌, any, str_eq, if◌then◌else◌, ltb}
use expressvpn_container.Base.Strings.{replace_all}

-- The registered secrets, in the order of their registration.
abbrev pub Redactor : Type 0
Redactor = List String

-- `Add`. The length of a text counts its bytes, which a parameter gives.
unfoldable pub add : (String → ℕ) → String → Redactor → Redactor
add len secret r =
    if ltb (len secret) 4 then r else if any (str_eq secret) r then r else r ++ (secret ∷ [])

-- `Redact`
unfoldable pub redact : Redactor → String → String
redact [] s = s
redact (secret ∷ r) s = redact r (replace_all s secret "***")
