-- ===== src/State/Store/Freshness.antt =====
-- What a subscriber of image/agent/internal/state/store.go has seen, where the calls come one after
-- the other.
use expressvpn_container.Base.{
  ℕ, Option, none, some, List, [], ◌∷◌, map, ◌≡◌, ◌⊎◌, inl, inr, refl, sym, ◌∙◌, ◌==◌, if_both,
}
use expressvpn_container.Base.{All}
use expressvpn_container.State.{State}
use expressvpn_container.State.Store.{
  Channel, Store, deliver, update, subscribe, remove, cancel, take_held, receive_in, receive,
}

pub data Op : Type 0 where
  change : (State → State) → Op
  join leave read : ℕ → Op

unfoldable pub step : Op → Store → Store
step (change f) s = update f s
step (join id) s = subscribe id s
step (leave id) s = cancel id s
step (read id) s = receive id s

unfoldable pub run : List Op → Store → Store
unfolding step
run [] s = s
run (o ∷ os) s = run os (step o s)

-- The newest snapshot of a subscriber is the current one: it waits in the channel, or it was the
-- last that the reader received.
abbrev pub IsFresh : State → Channel → Type 0
IsFresh cur c = (c.held ≡ some cur) ⊎ ((c.held ≡ none) × (c.last ≡ some cur))

deliver_lem : (v : State) (held : Option State) → deliver v held ≡ some v
unfolding deliver
deliver_lem v none = refl
deliver_lem v (some old) = refl

update-IsFresh :
    (v : State) (cs : List Channel)
    → All (IsFresh v) (map (λ (c : Channel). record c { held = deliver v c.held }) cs)
update-IsFresh v [] = tt
update-IsFresh v (c ∷ cs) = (inl (deliver_lem v c.held), update-IsFresh v cs)

remove-IsFresh :
    (id : ℕ) (cur : State) (cs : List Channel)
    → All (IsFresh cur) cs
    → All (IsFresh cur) (remove id cs)
unfolding remove
remove-IsFresh id cur [] v = v
remove-IsFresh id cur (c ∷ cs) v =
    if_both (All (IsFresh cur)) (c.id == id) (remove-IsFresh id cur cs v.1)
      (v.0, remove-IsFresh id cur cs v.1)

take_held-IsFresh :
    (cur : State) (o : Option State) (c : Channel)
    → c.held ≡ o
    → IsFresh cur c
    → IsFresh cur (take_held o c)
unfolding take_held
take_held-IsFresh cur none c e v = v
take_held-IsFresh cur (some x) c e (inl h) = inr (refl, sym e ∙ h)
take_held-IsFresh cur (some x) c e (inr (h, l)) = cc (e, h)

receive_in-IsFresh :
    (id : ℕ) (cur : State) (cs : List Channel)
    → All (IsFresh cur) cs
    → All (IsFresh cur) (receive_in id cs)
unfolding receive_in
receive_in-IsFresh id cur [] v = v
receive_in-IsFresh id cur (c ∷ cs) v = (
  if_both (IsFresh cur) (c.id == id) (take_held-IsFresh cur c.held c refl v.0) v.0,
  receive_in-IsFresh id cur cs v.1,
)

step-IsFresh :
    (o : Op) (s : Store) → All (IsFresh s.cur) s.subs → All (IsFresh (step o s).cur) (step o s).subs
unfolding step update cancel receive
step-IsFresh (change f) s v = update-IsFresh (f s.cur) s.subs
step-IsFresh (join id) s v = (inl refl, v)
step-IsFresh (leave id) s v = remove-IsFresh id s.cur s.subs v
step-IsFresh (read id) s v = receive_in-IsFresh id s.cur s.subs v

-- Where the newest snapshot that each subscriber has, in its channel or from its last read, is the
-- current one, it is so after any calls that come one after the other.
pub run-IsFresh :
    (os : List Op) (s : Store)
    → All (IsFresh s.cur) s.subs
    → All (IsFresh (run os s).cur) (run os s).subs
unfolding run
run-IsFresh [] s v = v
run-IsFresh (o ∷ os) s v = run-IsFresh os (step o s) (step-IsFresh o s v)
