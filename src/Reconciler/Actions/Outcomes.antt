-- ===== src/Reconciler/Actions/Outcomes.antt =====
-- How the user's actions of image/agent/internal/reconciler/actions.go end.
use expressvpn_container.Base.{
  arith, String, true, Option, none, some, List, [], ◌∷◌, ◌≡◌, ◌≢◌, ◌↔◌, inl, inr, refl, sym, ap,
  ◌∙◌, str_eq, eq_iff, if◌then◌else◌, arith, Bool-cases,
}
use expressvpn_container.State
use expressvpn_container.State.{
  State, Connection, disconnected, connecting, connected, reconnecting, error, conn, set_connection,
  is_error, want_connected, want_disconnected,
}
use expressvpn_container.Config.Store.{Library}
use expressvpn_container.Reconciler.Actions.{
  Agent, fine, Services, name_of, conn_eq, connection_failed, wait_connection, disconnect,
}

by_name : String → Connection
by_name t =
    if str_eq t "disconnected"
    then disconnected
    else if str_eq t "connecting"
    then connecting
    else if str_eq t "connected"
    then connected
    else if str_eq t "reconnecting"
    then reconnecting
    else error

by_name-name_of : (k : Connection) → by_name (name_of k) ≡ k
unfolding by_name
by_name-name_of disconnected = refl
by_name-name_of connecting = refl
by_name-name_of connected = refl
by_name-name_of reconnecting = refl
by_name-name_of error = refl

conn_eq_iff : (a b : Connection) → (conn_eq a b ≡ true) ↔ (a ≡ b)
conn_eq_iff a b = (
  λ e.
      sym (by_name-name_of a)
      ∙ (ap by_name ((eq_iff (name_of a) (name_of b)).0 e) ∙ by_name-name_of b),
  λ e. (eq_iff (name_of a) (name_of b)).1 (ap name_of e),
)

-- A snapshot with the connection `target` arrives, and none of a failure before it.
pub data Arrives (target : Connection) : List State → Type 0 where
  now : (s : State) (ss : List State) → conn s ≡ target → Arrives target (s ∷ ss)
  later :
      (s : State) (ss : List State) → conn s ≢ error → Arrives target ss → Arrives target (s ∷ ss)

connection_failed-fine : (o : Option State.Error) → connection_failed o ≢ fine
connection_failed-fine none e = cc e
connection_failed-fine (some x) e = cc e

error_iff : (k : Connection) → (is_error k ≡ true) ↔ (k ≡ error)
error_iff disconnected = (λ e. cc e, λ e. cc e)
error_iff connecting = (λ e. cc e, λ e. cc e)
error_iff connected = (λ e. cc e, λ e. cc e)
error_iff reconnecting = (λ e. cc e, λ e. cc e)
error_iff error = (λ e. refl, λ e. refl)

wait-Arrives :
    (target : Connection) (ss : List State) → wait_connection target ss ≡ fine → Arrives target ss
unfolding wait_connection
wait-Arrives target [] e = cc e
wait-Arrives target (s ∷ ss) e = elim (Bool-cases (conn_eq (conn s) target)) [
  | inl h ↦ now s ss ((conn_eq_iff (conn s) target).0 h)
  | inr h ↦ elim (Bool-cases (is_error (conn s))) [
    | inl k ↦ absurd (connection_failed-fine s.last_error (grind arith))
    | inr k ↦
        later s ss (λ q. let j = (error_iff (conn s)).1 q in cc (j, k))
          (wait-Arrives target ss (grind arith))
  ]
]

Arrives-wait :
    (target : Connection) (ss : List State) → Arrives target ss → wait_connection target ss ≡ fine
unfolding wait_connection
Arrives-wait target [] v = elim v [ ]
Arrives-wait target (s ∷ ss) (now _ _ h) = let k = conn_eq_iff (conn s) target in grind arith
Arrives-wait target (s ∷ ss) (later _ _ h v) =
    let rest = Arrives-wait target ss v in let k = error_iff (conn s) in grind arith

-- A wait for a connection succeeds exactly where a snapshot with it arrives within the time and
-- before any snapshot of a failure.
pub wait_connection_fine_iff :
    (target : Connection) (ss : List State) → (wait_connection target ss ≡ fine) ↔ Arrives target ss
wait_connection_fine_iff target ss = (wait-Arrives target ss, Arrives-wait target ss)

-- The first snapshot that a wait gets is the one that the subscription finds.
abbrev pub IsPrompt : (Agent → List State) → Type 0
IsPrompt seen = (a : Agent) → (ss : List State) × (seen a ≡ a.world.st ∷ ss)

wait_error :
    (target : Connection) (s : State) (ss : List State)
    → conn s ≡ error
    → target ≢ error
    → wait_connection target (s ∷ ss) ≡ connection_failed s.last_error
unfolding wait_connection
wait_error target s ss e ne =
    let k = conn_eq_iff (conn s) target in let j = error_iff (conn s) in grind arith

-- After a failed connection a wait that gets the snapshot it finds ends Disconnect at once with the
-- error of that connection, although the wish to be disconnected is noted.
pub disconnect_after_error :
    (lib : Library) (services : Services) (seen : Agent → List State)
    → IsPrompt seen
    → (a : Agent) → conn a.world.st ≡ error
    → ((disconnect lib services seen a).0 ≡ connection_failed a.world.st.last_error)
      × ((disconnect lib services seen a).1.world.st.desired ≡ want_disconnected)
unfolding disconnect
disconnect_after_error lib services seen prompt a e =
    let (ss, first) = prompt _ in
    (ap (wait_connection disconnected) first ∙ wait_error disconnected _ ss e (λ q. cc q), refl)
