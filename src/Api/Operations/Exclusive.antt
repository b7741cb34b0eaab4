-- ===== src/Api/Operations/Exclusive.antt =====
-- One operation at a time on each resource, for image/agent/internal/api/operations.go.
use expressvpn_container.Base.{
  subst, ℕ, String, Option, none, some, ◌≡◌, ◌≢◌, refl, ap, subst, sym, ◌∙◌, ◌⊎◌, inl, inr, str_eq,
  eq_iff, Bool-cases,
}
use expressvpn_container.Base.Dict.{
  lookup, insert, remove, lookup-insert, lookup-insert_other, lookup-remove, lookup-remove_other,
}
use expressvpn_container.Api.Operations.{
  Operation, OpManager, Outcome, conflict, operation, running, new, new_operation, start,
  start_free, finish, replace, get,
}

-- What the program can do to the manager: requests start operations, under ids that are not yet
-- taken, and each running operation ends.
pub data Reachable : OpManager → Type 0 where
  initially : Reachable new
  starting :
      (fresh action resource : String) (now : ℕ) (m : OpManager)
      → Reachable m
      → get fresh m ≡ none
      → Reachable (start fresh action resource now m).1
  ending :
      (id resource : String) (o : Outcome) (now : ℕ) (m : OpManager)
      → Reachable m
      → lookup resource m.by_resource ≡ some id
      → Reachable (finish id resource o now m)

abbrev pub IsRunning : Option Operation → Type 0
IsRunning none = ⊥
IsRunning (some op) = op.status ≡ running

record Inv (m : OpManager) : Type 0 where
  held : (resource id : String) → lookup resource m.by_resource ≡ some id → IsRunning (get id m)
  apart :
      (r s id : String)
      → lookup r m.by_resource ≡ some id
      → lookup s m.by_resource ≡ some id
      → r ≡ s

str_cases : (a b : String) → (a ≡ b) ⊎ (a ≢ b)
str_cases a b = elim (Bool-cases (str_eq a b)) [
  | inl h ↦ inl ((eq_iff a b).0 h)
  | inr h ↦ inr (λ e. cc (h, (eq_iff a b).1 e))
]

-- Adding an operation under a new id on a free resource.
abbrev added : String → String → String → ℕ → OpManager → OpManager
added fresh action resource now m = record {
  ops = insert fresh (new_operation fresh action now) m.ops;
  by_resource = insert resource fresh m.by_resource;
}

not_fresh :
    (m : OpManager) (fresh r : String)
    → Inv m
    → get fresh m ≡ none
    → lookup r m.by_resource ≢ some fresh
not_fresh m fresh r v f h = subst IsRunning f (v.held r fresh h)

-- Which resource an id stands for after that.
holder :
    (fresh action resource : String) (now : ℕ) (m : OpManager) (r id : String)
    → lookup r (added fresh action resource now m).by_resource ≡ some id
    → ((r ≡ resource) × (id ≡ fresh)) ⊎ (lookup r m.by_resource ≡ some id)
holder fresh action resource now m r id h = elim (str_cases r resource) [
  | inl e ↦ inl (e, cc (lookup-insert resource fresh m.by_resource, e, h))
  | inr ne ↦ inr (sym (lookup-insert_other resource r fresh m.by_resource ne) ∙ h)
]

added-held :
    (fresh action resource : String) (now : ℕ) (m : OpManager)
    → Inv m
    → get fresh m ≡ none
    → (r id : String) → lookup r (added fresh action resource now m).by_resource ≡ some id
    → IsRunning (get id (added fresh action resource now m))
added-held fresh action resource now m v f r id h =
    let op = new_operation fresh action now in
    elim (holder fresh action resource now m r id h) [
      | inl (_, e) ↦
          subst (λ x. IsRunning (lookup x (insert fresh op m.ops))) (sym e)
            (subst IsRunning (sym (lookup-insert fresh op m.ops)) refl)
      | inr k ↦
          subst IsRunning
            (sym (
              lookup-insert_other fresh id op m.ops (λ e. not_fresh m fresh r v f (k ∙ ap some e))))
            (v.held r id k)
    ]

added-apart :
    (fresh action resource : String) (now : ℕ) (m : OpManager)
    → Inv m
    → get fresh m ≡ none
    → (r s id : String) → lookup r (added fresh action resource now m).by_resource ≡ some id
    → lookup s (added fresh action resource now m).by_resource ≡ some id
    → r ≡ s
added-apart fresh action resource now m v f r s id h k =
    elim (holder fresh action resource now m r id h) [
      | inl (e, i) ↦ elim (holder fresh action resource now m s id k) [
        | inl (e', _) ↦ e ∙ sym e'
        | inr k' ↦ absurd (not_fresh m fresh s v f (k' ∙ ap some i))
      ]
      | inr h' ↦ elim (holder fresh action resource now m s id k) [
        | inl (_, i) ↦ absurd (not_fresh m fresh r v f (h' ∙ ap some i))
        | inr k' ↦ v.apart r s id h' k'
      ]
    ]

start_free-Inv :
    (o : Option String) (fresh action resource : String) (now : ℕ) (m : OpManager)
    → Inv m
    → get fresh m ≡ none
    → Inv (start_free o fresh action resource now m).1
unfolding start_free
start_free-Inv (some id) fresh action resource now m v f = v
start_free-Inv none fresh action resource now m v f = record {
  held = added-held fresh action resource now m v f;
  apart = added-apart fresh action resource now m v f;
}

lookup-replace :
    (id i : String) (x : Option Operation) (o : Outcome) (now : ℕ) (m : OpManager)
    → i ≢ id
    → lookup i (replace id x o now m.ops) ≡ lookup i m.ops
unfolding replace
lookup-replace id i none o now m ne = refl
lookup-replace id i (some op) o now m ne = lookup-insert_other id i _ m.ops ne

still_held :
    (resource r id : String) (m : OpManager)
    → lookup r (remove resource m.by_resource) ≡ some id
    → (r ≢ resource) × (lookup r m.by_resource ≡ some id)
still_held resource r id m h = elim (str_cases r resource) [
  | inl e ↦ cc (lookup-remove resource m.by_resource, e, h)
  | inr ne ↦ (ne, sym (lookup-remove_other resource r m.by_resource ne) ∙ h)
]

finish-Inv :
    (id resource : String) (o : Outcome) (now : ℕ) (m : OpManager)
    → Inv m
    → lookup resource m.by_resource ≡ some id
    → Inv (finish id resource o now m)
unfolding finish
finish-Inv id resource o now m v own = record {
  held = λ r i h.
      let (ne, k) = still_held resource r i m h in
      subst IsRunning
        (sym (
          lookup-replace id i (lookup id m.ops) o now m
            (λ e. ne (v.apart r resource i k (own ∙ ap some (sym e))))))
        (v.held r i k);
  apart =
      λ r s i h k. v.apart r s i (still_held resource r i m h).1 (still_held resource s i m k).1;
}

new-Inv : Inv new
unfolding lookup
new-Inv = record { held = λ r id h. cc h; apart = λ r s id h k. cc h }

Reachable-Inv : {m : OpManager} → Reachable m → Inv m
unfolding start
Reachable-Inv initially = new-Inv
Reachable-Inv (starting fresh action resource now m p f) =
    start_free-Inv (lookup resource m.by_resource) fresh action resource now m (Reachable-Inv p) f
Reachable-Inv (ending id resource o now m p own) =
    finish-Inv id resource o now m (Reachable-Inv p) own

-- At every moment two resources never share an operation, and the operation that holds a resource
-- is one that `Get` finds and shows as running.
pub held-IsRunning :
    (m : OpManager) (r id : String)
    → Reachable m
    → lookup r m.by_resource ≡ some id
    → IsRunning (get id m) × ((s : String) → lookup s m.by_resource ≡ some id → s ≡ r)
held-IsRunning m r id p h = let v = Reachable-Inv p in (v.held r id h, λ s k. v.apart s r id k h)

-- From the start of an operation to its end every further start on its resource is refused with
-- its id, whatever happened on another resource; once it ended the next start goes through.
pub start_refused :
    (m : OpManager) (id resource fresh action : String) (o : Outcome) (now : ℕ)
    → lookup resource m.by_resource ≡ none
    → (i other : String) → resource ≢ other
    → let m1 = (start id action resource now m).1 in
      ((start fresh action resource now m1).0 ≡ conflict id)
      × ((start fresh action resource now (finish i other o now m1)).0 ≡ conflict id)
      × ((start fresh action resource now (finish id resource o now m1)).0
          ≡ operation (new_operation fresh action now))
unfolding start start_free finish
start_refused m id resource fresh action o now free i other ne =
    let held = lookup-insert resource id m.by_resource in
    rw free (
      rw held (
        rw (lookup-remove_other other resource (insert resource id m.by_resource) ne) (
          rw held
            (rw (lookup-remove resource (insert resource id m.by_resource)) (refl, refl, refl)))))
