-- ===== src/Tests/Logs.antt =====
-- A journal of three entries, for image/agent/internal/logs/logs.go.
use expressvpn_container.Base.{
  ℕ, String, List, [], ◌∷◌, map, reverse, ◌≡◌, refl, arith, take, filter,
}
use expressvpn_container.Logs.Redactor.{redact, add}
use expressvpn_container.Base.Strings.{replace_all}
use expressvpn_container.Logs.Buffer.{Entry, new, query, append, wanted, entry_of, collect}
use expressvpn_container.Logs.Buffer.History.{Op, log, hide, run, history, query_refines}

abbrev size : String → ℕ
size s = 8

abbrev session : List Op
session =
    log 1 "agent" "INFO" "started"
    ∷ hide "E1234567"
    ∷ log 2 "uplink" "INFO" "up"
    ∷ log 3 "agent" "INFO" "code E1234567 used"
    ∷ log 4 "agent" "INFO" "done"
    ∷ []

query_refines_example :
    query "agent" 0 10 (run size session (new 3 []))
    ≡ reverse (take 10 (filter (wanted "agent" 0) (take 3 (history size session [] []))))
query_refines_example = query_refines size 3 [] session "agent" 0 10 (omega arith)

messages : List Entry → List String
messages es = map (λ (e : Entry). e.message) es

-- The first entry is gone, the second is of another component, and the code is hidden.
session_shown :
    messages (query "agent" 0 10 (run size session (new 3 []))) ≡ "code *** used" ∷ "done" ∷ []
unfolding messages query run append redact entry_of wanted collect new add replace_all
session_shown = refl
