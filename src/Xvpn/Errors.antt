-- ===== src/Xvpn/Errors.antt =====
-- Errors: image/agent/internal/xvpn/errors.go.
use expressvpn_container.Base.{String, ◌&&◌, ◌||◌, Option, none, some, str_eq, if◌then◌else◌}
use expressvpn_container.Base.Int.{ℤ, pos, int_eq}
use expressvpn_container.Base.Strings.{contains, trim_space}

-- `CLIError`, with the exit code of the program that failed.
pub record CliError : Type 0 where
  pub code : String
  pub message : String
  pub exit : ℤ

-- A Go `error` of this program: a `*CLIError`, or any other with its text.
pub data Err : Type 0 where
  cli : CliError → Err
  other : String → Err

code_of : String → String → String
code_of action out =
    if contains out "Timed out after"
    then "daemon_not_ready"
    else if contains out "requires a logged in account"
    then "not_logged_in"
    else if contains out "Cannot find region" || contains out "Unknown region:"
    then "unknown_location"
    else if str_eq action "login"
        && (contains out "Unable to log in" || contains out "Request failed")
    then "invalid_activation_code"
    else "cli_failed"

-- `classifyError`
unfoldable pub classify_error : String → String → ℤ → Option Err
unfolding code_of
classify_error action out exit =
    if int_eq exit (pos 0)
    then none
    else some (cli (record { code = code_of action out; message = trim_space out; exit = exit }))
