-- ===== src/State/Store.antt =====
-- `Store` of image/agent/internal/state/store.go: the snapshot and the channels of its subscribers.
pub mod Freshness
pub mod Interleaving
use expressvpn_container.Base.{
  ℕ, zero, suc, ◌+◌, ◌-◌, ◌*◌, ◌%◌, ◌≤◌, ◌<◌, String, Bool, true, false, not, ◌&&◌, ◌||◌, Option,
  none, some, List, [], ◌∷◌, ◌++◌, map, reverse, ◌≡◌, ◌≢◌, ◌↔◌, ◌⊎◌, inl, inr, refl, sym, ap, ◌∙◌,
  subst, ◌==◌, ltb, leb, str_eq, eq_iff, if◌then◌else◌, arith, Bool-cases, Option-cases, if_both,
  if_either, length, take, drop, get_or, set, replicate, filter,
}
use expressvpn_container.State.{State}

-- A channel holds at most one snapshot. `last` is what its reader received last.
pub record Channel : Type 0 where
  pub id : ℕ
  pub held : Option State
  pub last : Option State

pub record Store : Type 0 where
  pub cur : State
  pub subs : List Channel

-- `NewStore`
abbrev pub new : State → Store
new s = record { cur = s; subs = [] }

-- `Get`
abbrev pub get : Store → State
get s = s.cur

-- The sends and the receive that never wait.
abbrev pub try_send : State → Option State → Bool × Option State
try_send v none = (true, some v)
try_send v (some old) = (false, some old)

abbrev pub drain : Option State → Option State
drain held = none

-- The three attempts of `Update` at one channel.
unfoldable pub deliver : State → Option State → Option State
deliver v held = let (sent, h) = try_send v held in if sent then h else (try_send v (drain h)).1

-- `Update`, whose deliveries no other call comes between.
unfoldable pub update : (State → State) → Store → Store
unfolding deliver
update f s =
    let v = f s.cur in
    record { cur = v; subs = map (λ (c : Channel). record c { held = deliver v c.held }) s.subs }

-- `Subscribe` with a new channel, which gets the current snapshot at once.
abbrev pub subscribe : ℕ → Store → Store
subscribe id s = record s { subs = record { id = id; held = some s.cur; last = none } ∷ s.subs }

remove : ℕ → List Channel → List Channel
remove id [] = []
remove id (c ∷ cs) = let rest = remove id cs in if c.id == id then rest else c ∷ rest

-- The function that `Subscribe` returns.
unfoldable pub cancel : ℕ → Store → Store
unfolding remove
cancel id s = record s { subs = remove id s.subs }

-- A reader takes what its channel holds.
take_held : Option State → Channel → Channel
take_held none c = c
take_held (some v) c = record c { held = none; last = some v }

receive_in : ℕ → List Channel → List Channel
unfolding take_held
receive_in id [] = []
receive_in id (c ∷ cs) = (if c.id == id then take_held c.held c else c) ∷ receive_in id cs

unfoldable pub receive : ℕ → Store → Store
unfolding receive_in
receive id s = record s { subs = receive_in id s.subs }
