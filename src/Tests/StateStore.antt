-- ===== src/Tests/StateStore.antt =====
-- Snapshots of image/agent/internal/state/store.go with one subscriber.
use expressvpn_container.Base.{some, List, [], ◌∷◌, map, ◌≡◌, refl, ap}
use expressvpn_container.Base.{All}
use expressvpn_container.State.{State, initial, set_connection, connecting, connected, conn}
use expressvpn_container.State
use expressvpn_container.State.Store.{Channel, new}
use expressvpn_container.State.Store.Freshness.{Op, IsFresh, run, run-IsFresh}
use expressvpn_container.State.Store.Interleaving.{System, Reach, Stale, late_delivery}

abbrev first : State
first = initial "1.0" 0

abbrev calls : List Op
calls =
    Op.join 1
    ∷ Op.change (set_connection connecting)
    ∷ Op.join 2
    ∷ Op.read 1
    ∷ Op.change (set_connection connected)
    ∷ Op.leave 2
    ∷ []

-- The second change pushes out the first one, which nobody has read.
pushed_out :
    map
      (λ (c : Channel). c.held)
      (run
        (Op.join 1
          ∷ Op.change (set_connection connecting)
          ∷ Op.change (set_connection connected)
          ∷ [])
        (new first)).subs
    ≡ some (set_connection connected first) ∷ []
unfolding run State.Store.update
pushed_out = refl

run-IsFresh_example : All (IsFresh (run calls (new first)).cur) (run calls (new first)).subs
run-IsFresh_example = run-IsFresh calls (new first) tt

late_delivery_example :
    (t : System) × Reach first t
    × (t.cur ≡ set_connection connected (set_connection connecting first))
    × Stale (set_connection connecting first) t
late_delivery_example =
    late_delivery first (set_connection connecting) (set_connection connected) (λ e. cc (ap conn e))
