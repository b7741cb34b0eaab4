-- ===== src/Api/Sessions.antt =====
-- The administrator's password and the sessions: image/agent/internal/api/sessions.go.
use expressvpn_container.Base.{
  ◌≡◌, ℕ, ◌+◌, String, Bool, true, false, not, ◌&&◌, ◌||◌, Option, none, some, List, [], ◌∷◌, ltb,
  leb, ◌==◌, str_eq, if◌then◌else◌,
}
use expressvpn_container.Base.Dict.{Dict, lookup, remove, insert}
pub mod Guard
pub mod Throttle

-- `sessionTTL`, `throttleAfter` and `throttleFor`, in nanoseconds.
abbrev pub session_ttl : ℕ
session_ttl = 2592000000000000

abbrev pub throttle_after : ℕ
throttle_after = 5

abbrev pub throttle_for : ℕ
throttle_for = 30000000000

-- A file's size and the time of its last change; none stands for the empty text that `pwVersion`
-- gives when there is no file.
abbrev pub Version : Type 0
Version = Option (ℕ × ℕ)

pub record SessionInfo : Type 0 where
  pub expires : ℕ
  pub pw_version : Version

-- The password file: the hash in it, and what `Stat` says of it.
pub record PasswordFile : Type 0 where
  pub phc : String
  pub modified : ℕ
  pub size : ℕ

-- The manager with the two files. Each operation that changes a file uses up one entry of
-- `faults`, and fails where that is true; a failed operation leaves the files as they were.
pub record SessionManager : Type 0 where
  pub password : Option PasswordFile
  pub disabled : Bool
  pub faults : List Bool
  pub sessions : Dict SessionInfo
  pub failures : ℕ
  pub blocked_to : ℕ

pub data Failure : Type 0 where
  password_set throttled no_file io : Failure

abbrev pub some_file : Option PasswordFile → Bool
some_file none = false
some_file (some _) = true

-- `HasPassword`
abbrev pub has_password : SessionManager → Bool
has_password m = some_file m.password

-- `AuthDisabled`: a marker beside a password is removed, whether or not that succeeds.
unfoldable pub drop_marker : SessionManager → SessionManager
drop_marker m = elim m.faults [
  | [] ↦ record m { disabled = false }
  | f ∷ fs ↦ record m { disabled = m.disabled && f; faults = fs }
]

unfoldable pub auth_disabled : SessionManager → Bool × SessionManager
unfolding drop_marker
auth_disabled m = if has_password m then (false, drop_marker m) else (m.disabled, m)

-- The next operation on a file: whether it succeeds.
abbrev pub attempt : SessionManager → Bool × SessionManager
attempt m = elim m.faults [ [] ↦ (true, m) | f ∷ fs ↦ (not f, record m { faults = fs }) ]

abbrev version_of : Option PasswordFile → Version
version_of none = none
version_of (some f) = some (f.modified, f.size)

-- `pwVersion`
abbrev pub pw_version : SessionManager → Version
pw_version m = version_of m.password

write_marker : SessionManager → Option Failure × SessionManager
write_marker m =
    let (fine, m1) = attempt m in
    if fine then (none, record m1 { disabled = true }) else (some io, m1)

-- `Skip`
unfoldable pub skip : SessionManager → Option Failure × SessionManager
unfolding write_marker
skip m =
    let (made, m1) = attempt m in
    let written = write_marker m1 in
    if has_password m then (some password_set, m) else if made then written else (some io, m1)

abbrev pub drop_all_sessions : SessionManager → SessionManager
drop_all_sessions m = record m { sessions = [] }

-- A wrong guess: the fifth in a row closes the door for half a minute.
unfoldable pub count_failure : ℕ → SessionManager → SessionManager
count_failure now m =
    if leb throttle_after (m.failures + 1)
    then record m { failures = 0; blocked_to = now + throttle_for }
    else record m { failures = m.failures + 1 }

-- The rest of `VerifyPassword` after the file is read; `ok` is what `verifyPHC` says.
judge : Bool → ℕ → SessionManager → (Bool × Option Failure) × SessionManager
judge true now m = ((true, none), record m { failures = 0 })
judge false now m = ((false, none), count_failure now m)

-- `make salt password` is the line that argon2id and the encoding of the hash give, and
-- `check line password` what `verifyPHC` says of such a line.
pub record Hasher : Type 0 where
  pub make : ℕ → String → String
  pub check : String → String → Bool
  pub check-make : (salt : ℕ) (p : String) → check (make salt p) p ≡ true

module _ (hasher : Hasher) where
  read_and_judge :
      Option PasswordFile → String → ℕ → SessionManager → (Bool × Option Failure) × SessionManager
  unfolding judge
  read_and_judge none guess now m = ((false, some no_file), m)
  read_and_judge (some f) guess now m = judge (hasher.check f.phc guess) now m

  -- `VerifyPassword`; `now` stands for both of its readings of the clock.
  unfoldable pub verify_password :
      String → ℕ → SessionManager → (Bool × Option Failure) × SessionManager
  unfolding read_and_judge
  verify_password guess now m =
      if ltb now m.blocked_to
      then ((false, some throttled), m)
      else read_and_judge m.password guess now m

  remove_password : SessionManager → (Bool × Option Failure) × SessionManager
  remove_password m =
      let (fine, m1) = attempt m in
      if fine
      then ((true, none), drop_all_sessions (record m1 { password = none }))
      else ((false, some io), m1)

  mark_and_remove : SessionManager → (Bool × Option Failure) × SessionManager
  unfolding remove_password write_marker
  mark_and_remove m =
      let (e, m1) = write_marker m in
      elim e [ none ↦ remove_password m1 | some x ↦ ((false, some x), m1) ]

  after_check : (Bool × Option Failure) × SessionManager → (Bool × Option Failure) × SessionManager
  unfolding mark_and_remove
  after_check ((true, none), m) = mark_and_remove m
  after_check r = r

  -- `Disable`
  unfoldable pub disable : String → ℕ → SessionManager → (Bool × Option Failure) × SessionManager
  unfolding after_check
  disable guess now m = after_check (verify_password guess now m)

  clear_marker : SessionManager → Option Failure × SessionManager
  clear_marker m =
      let (fine, m1) = attempt m in
      if not m.disabled
      then (none, m1)
      else if fine
      then (none, record m1 { disabled = false })
      else (some io, m1)

  -- `SetPassword` at time `now`, with the salt that was drawn. Creating the directory, writing
  -- the file and removing the marker may each fail.
  unfoldable pub set_password :
      ℕ → String → ℕ → ℕ → SessionManager → Option Failure × SessionManager
  unfolding clear_marker
  set_password salt p now size m =
      let (made, m1) = attempt m in
      let (written, m2) = attempt m1 in
      let cleared = clear_marker (record m2 {
        password = some (record { phc = hasher.make salt p; modified = now; size = size });
      }) in
      if not made then (some io, m1) else if not written then (some io, m2) else cleared

-- `CreateSession` with the token that was drawn.
unfoldable pub create_session : String → ℕ → SessionManager → SessionManager
create_session token now m = record m {
  sessions =
      insert token (record { expires = now + session_ttl; pw_version = pw_version m }) m.sessions;
}

-- `DropSession`
unfoldable pub drop_session : String → SessionManager → SessionManager
drop_session token m = record m { sessions = remove token m.sessions }

pub record Request : Type 0 where
  pub session : Option String
  pub csrf : Option String
  pub csrf_header : String
  pub method : String

abbrev pub version_eq : Version → Version → Bool
version_eq none none = true
version_eq (some (a, b)) (some (c, d)) = a == c && b == d
version_eq _ _ = false

abbrev pub csrf_matches : Option String → String → Bool
csrf_matches none h = false
csrf_matches (some c) h = str_eq c h

abbrev pub reads_only : String → Bool
reads_only s = str_eq s "GET" || str_eq s "HEAD" || str_eq s "OPTIONS"

check_session : String → Option SessionInfo → Request → ℕ → SessionManager → Bool × SessionManager
check_session token none r now m = (false, m)
check_session token (some i) r now m =
    if ltb i.expires now
    then (false, m)
    else if not (version_eq i.pw_version (pw_version m))
    then (false, drop_session token m)
    else (reads_only r.method || csrf_matches r.csrf r.csrf_header, m)

-- `VerifyRequest` at time `now`.
unfoldable pub verify_request : Request → ℕ → SessionManager → Bool × SessionManager
unfolding check_session
verify_request r now m = elim r.session [
  | none ↦ (false, m)
  | some token ↦ check_session token (lookup token m.sessions) r now m
]

-- `ResetPassword`, run as a process of its own: the files only.
unfoldable pub reset_password : SessionManager → Option Failure × SessionManager
reset_password m =
    let (fine, m1) = attempt m in
    let m2 = record m1 { password = none } in
    let (fine', m3) = attempt m2 in
    if some_file m.password && not fine
    then (some io, m1)
    else if m.disabled && not fine'
    then (some io, m3)
    else (none, record m3 { disabled = false })
