-- ===== src/State/Store/Interleaving.antt =====
-- `Update` of image/agent/internal/state/store.go by several goroutines: it delivers after it has
-- released the lock, so steps of others come between.
use expressvpn_container.Base.{
  ℕ, Bool, true, false, Option, none, some, ◌≡◌, ◌≢◌, refl, ◌∙◌, ◌==◌, if◌then◌else◌, arith,
}
use expressvpn_container.State.{State}
use expressvpn_container.State.Store.{try_send, drain}

-- Where a writer is: outside of `Update`, or with a snapshot to deliver before its first send, its
-- receive or its second send.
pub data Pc : Type 0 where
  idle : Pc
  sending draining retrying : State → Pc

-- One subscriber, and the writers by their numbers.
pub record System : Type 0 where
  pub cur : State
  pub held : Option State
  pub last : Option State
  pub pc : ℕ → Pc

abbrev pub set_pc : ℕ → Pc → (ℕ → Pc) → ℕ → Pc
set_pc i p pc j = if j == i then p else pc j

-- After a send a writer is done, or goes on to `full`.
abbrev pub sent_or : Pc → Bool → Pc
sent_or full true = idle
sent_or full false = full

pub data Step (s : System) : System → Type 0 where
  change :
      (i : ℕ) (f : State → State)
      → s.pc i ≡ idle
      → Step s (record s { cur = f s.cur; pc = set_pc i (sending (f s.cur)) s.pc })
  send :
      (i : ℕ) (v : State)
      → s.pc i ≡ sending v
      → Step s (record s {
        held = (try_send v s.held).1;
        pc = set_pc i (sent_or (draining v) (try_send v s.held).0) s.pc;
      })
  receive :
      (i : ℕ) (v : State)
      → s.pc i ≡ draining v
      → Step s (record s { held = drain s.held; pc = set_pc i (retrying v) s.pc })
  resend :
      (i : ℕ) (v : State)
      → s.pc i ≡ retrying v
      → Step s (record s { held = (try_send v s.held).1; pc = set_pc i idle s.pc })
  read : (v : State) → s.held ≡ some v → Step s (record s { held = none; last = some v })

-- The reader has received the first snapshot, and no writer is under way.
abbrev pub start : State → System
start s = record { cur = s; held = none; last = some s; pc = λ i. idle }

pub data Reach (s : State) : System → Type 0 where
  here : Reach s (start s)
  later : {t u : System} → Reach s t → Step t u → Reach s u

-- A quiet system whose reader will take `v`, which is not the current snapshot, as its newest.
pub record Stale (v : State) (t : System) : Type 0 where
  pub quiet : (i : ℕ) → t.pc i ≡ idle
  pub waiting : t.held ≡ some v
  pub outdated : v ≢ t.cur

-- Both writers change the snapshot, the second delivers and is read, and then the first delivers.
swapped :
    (s : State) (f g : State → State)
    → (t : System) × Reach s t
      × (t.cur ≡ g (f s))
      × (t.held ≡ some (f s))
      × ((i : ℕ) → t.pc i ≡ idle)
swapped s f g = (
  _,
  later
      (later
        (later (later (later here (change 0 f refl)) (change 1 g refl)) (send 1 (g (f s)) refl))
        (read (g (f s)) refl))
      (send 0 (f s) refl),
  refl,
  refl,
  λ i. ground arith,
)

-- For any two changes of which the second is not without effect there is an interleaving that
-- ends with all writers done, and with the older snapshot in the channel as the last that the
-- reader will receive.
pub late_delivery :
    (s : State) (f g : State → State)
    → f s ≢ g (f s)
    → (t : System) × Reach s t × (t.cur ≡ g (f s)) × Stale (f s) t
late_delivery s f g ne =
    let (t, r, c, h, q) = swapped s f g in
    (t, r, c, record { quiet = q; waiting = h; outdated = λ e. ne (e ∙ c) })
