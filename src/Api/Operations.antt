-- ===== src/Api/Operations.antt =====
-- Asynchronous operations: image/agent/internal/api/operations.go.
use expressvpn_container.Base.{[], ℕ, String, Option, none, some}
use expressvpn_container.Base.Dict.{Dict, lookup, remove, insert}
pub mod Exclusive

pub data OpStatus : Type 0 where
  running succeeded failed : OpStatus

pub record Operation : Type 0 where
  pub id : String
  pub action : String
  pub status : OpStatus
  pub started_at : ℕ
  pub finished_at : Option ℕ
  pub error_code : String
  pub error : String

pub record OpManager : Type 0 where
  pub ops : Dict Operation
  pub by_resource : Dict String

-- `NewOpManager`
abbrev pub new : OpManager
new = record { ops = []; by_resource = [] }

-- The operation itself, or the id of the one that holds the resource.
pub data Started : Type 0 where
  conflict : String → Started
  operation : Operation → Started

abbrev pub new_operation : String → String → ℕ → Operation
new_operation id action now = record {
  id = id;
  action = action;
  status = running;
  started_at = now;
  finished_at = none;
  error_code = "";
  error = "";
}

start_free : Option String → String → String → String → ℕ → OpManager → Started × OpManager
start_free (some id) fresh action resource now m = (conflict id, m)
start_free none fresh action resource now m = (
  operation (new_operation fresh action now),
  record {
    ops = insert fresh (new_operation fresh action now) m.ops;
    by_resource = insert resource fresh m.by_resource;
  },
)

-- `Start`, with the id that `newOpID` drew. The goroutine that it starts ends in `finish`.
unfoldable pub start : String → String → String → ℕ → OpManager → Started × OpManager
unfolding start_free
start fresh action resource now m =
    start_free (lookup resource m.by_resource) fresh action resource now m

-- What the action returned: nothing, an `*ActionError` with its code, or another error's text.
pub data Outcome : Type 0 where
  fine : Outcome
  action_error : String → String → Outcome
  other_error : String → Outcome

unfoldable pub ended : Outcome → ℕ → Operation → Operation
ended fine now op = record op { status = succeeded; finished_at = some now }
ended (action_error code text) now op = record op {
  status = failed;
  finished_at = some now;
  error_code = code;
  error = text;
}
ended (other_error text) now op = record op {
  status = failed;
  finished_at = some now;
  error_code = "internal";
  error = text;
}

replace : String → Option Operation → Outcome → ℕ → Dict Operation → Dict Operation
unfolding ended
replace id none o now d = d
replace id (some op) o now d = insert id (ended o now op) d

-- The end of the goroutine, which has a pointer to its operation.
unfoldable pub finish : String → String → Outcome → ℕ → OpManager → OpManager
unfolding replace
finish id resource o now m = record {
  ops = replace id (lookup id m.ops) o now m.ops;
  by_resource = remove resource m.by_resource;
}

-- `Get`
abbrev pub get : String → OpManager → Option Operation
get id m = lookup id m.ops
