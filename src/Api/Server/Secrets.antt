-- ===== src/Api/Server/Secrets.antt =====
-- Which secrets the log of image/agent/internal/api/server.go knows when an operation runs.
use expressvpn_container.Base.{
  ℕ, ◌<◌, String, Bool, true, not, Option, none, some, List, [], ◌∷◌, ◌++◌, ◌≡◌, ◌⊎◌, inl, inr,
  refl, sym, subst, ltb, str_eq, eq_iff, arith, if_both, if_either,
}
use expressvpn_container.Base.{any, All}
use expressvpn_container.Base.Dict.{lookup}
use expressvpn_container.Logs.Redactor.{Redactor, add}
use expressvpn_container.Api.Operations.{OpManager, Started, conflict, operation, start}
use expressvpn_container.Api.Server.{
  Server, Reply, Task, login, Sent, ActionBody, decoded, task_of, Draw, Texts, register, by_start,
  launch, by_body, by_resource, handle_action, action_resources,
}

-- The activation code that an operation runs with.
abbrev pub code_of : Option Task → String
code_of (some (login code)) = code
code_of _ = ""

-- There is no code, or it is too short to be hidden, or it is a registered secret.
abbrev pub IsHidden : (String → ℕ) → Redactor → String → Type 0
IsHidden len red code = (code ≡ "") ⊎ ((len code < 4) ⊎ (any (str_eq code) red ≡ true))

any_more : (p : String → Bool) (xs ys : List String) → any p xs ≡ true → any p (xs ++ ys) ≡ true
any_more p [] ys e = cc e
any_more p (x ∷ xs) ys e = let ih = any_more p xs ys in ground (arith, ih)

any_last :
    (p : String → Bool) (xs : List String) (y : String) → p y ≡ true → any p (xs ++ (y ∷ [])) ≡ true
any_last p [] y e = ground (arith, e)
any_last p (x ∷ xs) y e = let ih = any_last p xs y e in ground (arith, ih)

add_keeps :
    (len : String → ℕ) (x c : String) (r : Redactor)
    → any (str_eq x) r ≡ true
    → any (str_eq x) (add len c r) ≡ true
unfolding add
add_keeps len x c r e =
    let P : Redactor → Type 0 = λ s. any (str_eq x) s ≡ true in
    if_both P (ltb (len c) 4) e (if_both P (any (str_eq c) r) e (any_more (str_eq x) r (c ∷ []) e))

add-IsHidden :
    (len : String → ℕ) (x c : String) (r : Redactor)
    → IsHidden len r x
    → IsHidden len (add len c r) x
add-IsHidden len x c r (inl e) = inl e
add-IsHidden len x c r (inr (inl e)) = inr (inl e)
add-IsHidden len x c r (inr (inr e)) = inr (inr (add_keeps len x c r e))

add_registers : (len : String → ℕ) (c : String) (r : Redactor) → IsHidden len (add len c r) c
unfolding add
add_registers len c r =
    let P : Redactor → Type 0 = λ s. IsHidden len s c in
    if_either P (ltb (len c) 4) (λ e. inr (inl (ground arith)))
      (λ _.
        if_either P (any (str_eq c) r) (λ e. inr (inr e))
          (λ _. inr (inr (any_last (str_eq c) r c ((eq_iff c c).1 refl)))))

-- The code of every operation that was started is hidden.
abbrev pub AllHidden : (String → ℕ) → Redactor → List (String × Option Task) → Type 0
AllHidden len red ts = All (λ (t : String × Option Task). IsHidden len red (code_of t.1)) ts

add-AllHidden :
    (len : String → ℕ) (c : String) (r : Redactor) (ts : List (String × Option Task))
    → AllHidden len r ts
    → AllHidden len (add len c r) ts
add-AllHidden len c r [] v = v
add-AllHidden len c r (t ∷ ts) v =
    (add-IsHidden len (code_of t.1) c r v.0, add-AllHidden len c r ts v.1)

task_of_code :
    (name : String) (b : Sent)
    → (code_of (task_of name b) ≡ "") ⊎ (code_of (task_of name b) ≡ b.activation_code)
unfolding task_of
task_of_code name b =
    let P : Option Task → Type 0 = λ t. (code_of t ≡ "") ⊎ (code_of t ≡ b.activation_code) in
    if_both P (str_eq name "connect") (inl refl) (
      if_both P (str_eq name "disconnect") (inl refl) (
        if_both P (str_eq name "reconnect") (inl refl) (
          if_both P (str_eq name "login") (inr refl) (
            if_both P (str_eq name "logout") (inl refl) (
              if_both P (str_eq name "refresh-locations") (inl refl) (
                if_both P (str_eq name "selfcheck") (inl refl)
                  (if_both P (str_eq name "probe-uplink") (inl refl) (inl refl))))))))

task_of-IsHidden :
    (len : String → ℕ) (red : Redactor) (name : String) (b : Sent)
    → IsHidden len red b.activation_code
    → IsHidden len red (code_of (task_of name b))
task_of-IsHidden len red name b v = elim (task_of_code name b) [
  | inl e ↦ inl e
  | inr e ↦ subst (IsHidden len red) (sym e) v
]

module _ (texts : Texts) where
  abbrev Safe : Server → Type 0
  Safe s = AllHidden texts.len s.logs.red s.tasks

  register-Safe :
      (code : String) (s : Server)
      → Safe s
      → Safe (register texts code s) × IsHidden texts.len (register texts code s).logs.red code
  unfolding register
  register-Safe code s v =
      if_either (λ (t : Server). Safe t × IsHidden texts.len t.logs.red code) (not (str_eq code ""))
        (λ _. (
          add-AllHidden texts.len code s.logs.red s.tasks v,
          add_registers texts.len code s.logs.red,
        ))
        (λ e. (v, inl (ground (arith, eq_iff code ""))))

  by_start-Safe :
      (task : Option Task) (x : Started × OpManager) (s : Server)
      → IsHidden texts.len s.logs.red (code_of task)
      → Safe s
      → Safe (by_start texts task x s).1
  unfolding by_start
  by_start-Safe task (conflict id, ops) s h v = v
  by_start-Safe task (operation op, ops) s h v = (h, v)

  launch-Safe :
      (draw : Draw) (name resource : String) (b : Sent) (s : Server)
      → IsHidden texts.len s.logs.red b.activation_code
      → Safe s
      → Safe (launch texts draw name resource b s).1
  unfolding launch
  launch-Safe draw name resource b s h v =
      if_both (λ (x : Reply × Server). Safe x.1) s.actions
        (by_start-Safe (task_of name b) (start draw.id name resource draw.now s.ops) s
          (task_of-IsHidden texts.len s.logs.red name b h) v)
        v

  by_body-Safe :
      (draw : Draw) (name resource : String) (o : Option Sent) (s : Server)
      → Safe s
      → Safe (by_body texts draw name resource o s).1
  unfolding by_body
  by_body-Safe draw name resource none s v = v
  by_body-Safe draw name resource (some b) s v =
      let (v1, h) = register-Safe b.activation_code s v in
      launch-Safe draw name resource b (register texts b.activation_code s) h v1

  by_resource-Safe :
      (draw : Draw) (name : String) (o : Option String) (body : ActionBody) (s : Server)
      → Safe s
      → Safe (by_resource texts draw name o body s).1
  unfolding by_resource
  by_resource-Safe draw name none body s v = v
  by_resource-Safe draw name (some resource) body s v =
      by_body-Safe draw name resource (decoded body) s v

  -- An action keeps it that the activation code of every operation started so far, unless it is
  -- shorter than four bytes, is among the secrets that the log hides.
  pub handle_action-AllHidden :
      (draw : Draw) (name : String) (body : ActionBody) (s : Server)
      → AllHidden texts.len s.logs.red s.tasks
      → AllHidden texts.len
          (handle_action texts draw name body s).1.logs.red
          (handle_action texts draw name body s).1.tasks
  unfolding handle_action
  handle_action-AllHidden draw name body s v =
      by_resource-Safe draw name (lookup name action_resources) body s v
