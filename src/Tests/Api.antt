-- ===== src/Tests/Api.antt =====
-- Sessions and operations of image/agent/internal/api on concrete inputs.
use expressvpn_container.Base.{
  ℕ, String, true, false, none, some, List, [], ◌∷◌, ◌++◌, ◌≡◌, refl, ◌↔◌, ◌⊎◌, str_eq, eq_iff,
  arith,
}
use expressvpn_container.Base.Dict.{lookup, insert}
use expressvpn_container.Api.Sessions.{
  Hasher, PasswordFile, SessionInfo, SessionManager, Request, throttled, set_password,
  verify_password, disable, verify_request,
}
use expressvpn_container.Api.Sessions.Guard.{
  LetIn, verify_request_iff, verify_request-set_password, disable_outcome,
}
use expressvpn_container.Api.Sessions.Throttle.{guess_all, guess_all_throttles}
use expressvpn_container.Api.Operations.{OpManager, new, start, get}
use expressvpn_container.Api.Operations.Exclusive.{
  Reachable, initially, starting, IsRunning, held-IsRunning,
}

-- A hash that hides nothing.
unfoldable pub plain : Hasher
plain = record { make = λ salt p. p; check = str_eq; check-make = λ salt p. (eq_iff p p).1 refl }

abbrev pub file : PasswordFile
file = record { phc = "secret"; modified = 10; size = 98 }

abbrev pub fresh_manager : SessionManager
fresh_manager = record {
  password = some file;
  disabled = false;
  faults = [];
  sessions = [];
  failures = 0;
  blocked_to = 0;
}

abbrev opened : SessionInfo
opened = record { expires = 500; pw_version = some (10, 98) }

abbrev with_session : SessionManager
with_session = record fresh_manager { sessions = ("t", opened) ∷ [] }

abbrev posting : Request
posting = record { session = some "t"; csrf = some "c"; csrf_header = "c"; method = "POST" }

verify_request_iff_example :
    ((verify_request posting 20 with_session).0 ≡ true) ↔ LetIn posting 20 with_session
verify_request_iff_example = verify_request_iff posting 20 with_session

posting_let_in : (verify_request posting 20 with_session).0 ≡ true
unfolding verify_request lookup
posting_let_in = refl

abbrev changed : SessionManager
changed = record with_session { password = some (record { phc = "new"; modified = 30; size = 98 }) }

changes : set_password plain 1 "new" 30 98 with_session ≡ (none, changed)
unfolding set_password plain
changes = refl

verify_request-set_password_example : (verify_request posting 40 changed).0 ≡ false
unfolding lookup
verify_request-set_password_example =
    verify_request-set_password plain 1 "new" 30 98 40 with_session posting "t" opened changes refl
      refl (λ e. ground arith)

disable_outcome_example :
    (((disable plain "secret" 5 with_session).0 ≡ (true, none))
      × ((disable plain "secret" 5 with_session).1.password ≡ none)
      × ((disable plain "secret" 5 with_session).1.disabled ≡ true)
      × ((disable plain "secret" 5 with_session).1.sessions ≡ []))
    ⊎ (((disable plain "secret" 5 with_session).0.0 ≡ false)
        × ((disable plain "secret" 5 with_session).1.password ≡ some file)
        × ((disable plain "secret" 5 with_session).1.sessions ≡ ("t", opened) ∷ []))
disable_outcome_example = disable_outcome plain "secret" 5 with_session

abbrev guesses : List (String × ℕ)
guesses = ("a", 1) ∷ ("b", 2) ∷ ("c", 3) ∷ ("d", 4) ∷ []

guess_all_throttles_example :
    (verify_password plain "secret" 6
      (guess_all plain (guesses ++ (("e", 5) ∷ [])) fresh_manager)).0
    ≡ (false, some throttled)
unfolding plain
guess_all_throttles_example =
    guess_all_throttles plain file guesses "e" "secret" 5 6 fresh_manager refl
      ((refl, omega arith), ((refl, omega arith), ((refl, omega arith), ((refl, omega arith), tt))))
      (refl, omega arith) refl (omega arith)

abbrev one_running : OpManager
unfolding start
one_running = (start "op_1" "connect" "expressvpn" 7 new).1

start-Reachable : Reachable one_running
unfolding lookup start one_running
start-Reachable = starting "op_1" "connect" "expressvpn" 7 new initially refl

held-IsRunning_example :
    IsRunning (get "op_1" one_running)
    × ((s : String) → lookup s one_running.by_resource ≡ some "op_1" → s ≡ "expressvpn")
unfolding one_running lookup insert
held-IsRunning_example = held-IsRunning one_running "expressvpn" "op_1" start-Reachable refl
