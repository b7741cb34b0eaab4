-- ===== src/Api/Login/Outcomes.antt =====
-- What the handlers of image/agent/internal/api/auth_handlers.go can do to the password and to the
-- sessions.
use expressvpn_container.Base.{
  String, Bool, true, false, Option, none, some, ◌≡◌, refl, ap, ◌∙◌, ◌⊎◌, inl, inr, arith, if_both,
}
use expressvpn_container.Api.Sessions.{
  password_set, throttled, no_file, io, SessionManager, PasswordFile, Hasher, Request,
  create_session, disable, auth_disabled, drop_marker, drop_session,
}
use expressvpn_container.Api.Sessions.Guard.{verify_password_lem, disable_lem, disable_outcome}
use expressvpn_container.Api.Login.{
  Failure, Reply, Draw, enter, handle_setup, handle_skip, after_disable, disable_by, handle_disable,
  after_login, login_by, handle_login, change_checked, handle_password, handle_logout,
  handle_logout_all,
}

-- The requests of auth_handlers.go that change something.
pub data Op : Type 0 where
  setup : Bool → Option String → Op
  skipping : Op
  disabling login : Option String → Op
  changing : Option (String × String) → Op
  logout : Request → Op
  logout_all : Op

module _ (hasher : Hasher) (draw : Draw) where
  abbrev pub handle : Op → SessionManager → Reply × SessionManager
  handle (setup foreign body) m = handle_setup hasher draw foreign body m
  handle skipping m = handle_skip hasher draw m
  handle (disabling body) m = handle_disable hasher draw body m
  handle (login body) m = handle_login hasher draw body m
  handle (changing body) m = handle_password hasher draw body m
  handle (logout r) m = handle_logout r m
  handle logout_all m = handle_logout_all m

  -- The request shows the password whose hash is in the file.
  abbrev pub Knows : PasswordFile → Op → Type 0
  Knows f (disabling (some p)) = hasher.check f.phc p ≡ true
  Knows f (changing (some (p, _))) = hasher.check f.phc p ≡ true
  Knows f _ = ⊥

  abbrev Held : PasswordFile → Type 0 → Reply × SessionManager → Type 0
  Held f K p = (p.1.password ≡ some f) ⊎ K

  after_login-password :
      (r : Bool × Option Failure) (m : SessionManager)
      → (after_login hasher draw (r, m)).1.password ≡ m.password
  unfolding after_login enter create_session
  after_login-password (true, none) m = refl
  after_login-password (true, some e) m = refl
  after_login-password (false, e) m = refl

  login-Held :
      (body : Option String) (f : PasswordFile) (m : SessionManager)
      → m.password ≡ some f
      → (login_by hasher draw body m).1.password ≡ some f
  unfolding login_by
  login-Held none f m h = h
  login-Held (some p) f m h =
      after_login-password _ _ ∙ (verify_password_lem hasher p draw.now m).0 ∙ h

  after_disable-password :
      (r : Bool × Option Failure) (m : SessionManager)
      → (after_disable hasher draw (r, m)).1.password ≡ m.password
  unfolding after_disable
  after_disable-password (true, none) m = refl
  after_disable-password (true, some e) m = refl
  after_disable-password (false, e) m = refl

  disable-Held :
      (p : String) (f : PasswordFile) (m : SessionManager)
      → m.password ≡ some f
      → Held f
          (hasher.check f.phc p ≡ true)
          (after_disable hasher draw (disable hasher p draw.now m))
  disable-Held p f m h = elim (disable_outcome hasher p draw.now m) [
    | inl (good, _, _, _) ↦ inr (disable_lem hasher p draw.now m f h (ap (λ x. x.0) good))
    | inr (_, same, _) ↦ inl (after_disable-password _ _ ∙ same ∙ h)
  ]

  change-Held :
      (new : String) (r : Bool × Option Failure) (f : PasswordFile) (m : SessionManager)
      (K : Type 0)
      → m.password ≡ some f
      → (r.0 ≡ true → K)
      → Held f K (change_checked hasher draw new (r, m))
  unfolding change_checked
  change-Held new (true, none) f m K h k = inr (k refl)
  change-Held new (true, some e) f m K h k = inr (k refl)
  change-Held new (false, none) f m K h k = inl h
  change-Held new (false, some password_set) f m K h k = inl h
  change-Held new (false, some throttled) f m K h k = inl h
  change-Held new (false, some no_file) f m K h k = inl h
  change-Held new (false, some io) f m K h k = inl h

  -- Once there is a password, no request changes or removes it except one to switch the
  -- protection off or to change the password, and that only by showing it.
  pub handle_keeps_password :
      (op : Op) (f : PasswordFile) (m : SessionManager)
      → m.password ≡ some f
      → Held f (Knows f op) (handle op m)
  unfolding handle_setup handle_skip auth_disabled drop_marker handle_login handle_logout
      handle_logout_all drop_session handle_disable disable_by handle_password
  handle_keeps_password (setup foreign body) f m h = ground arith
  handle_keeps_password skipping f m h = ground arith
  handle_keeps_password (disabling none) f m h = ground arith
  handle_keeps_password (disabling (some p)) f m h =
      if_both (Held f (hasher.check f.phc p ≡ true)) _ (inl h) (disable-Held p f m h)
  handle_keeps_password (login body) f m h =
      if_both (Held f (Knows f (login body))) _ (inl h) (inl (login-Held body f m h))
  handle_keeps_password (changing none) f m h = inl h
  handle_keeps_password (changing (some (p, new))) f m h =
      let (same, knows) = verify_password_lem hasher p draw.now m in
      change-Held new _ f _ _ (same ∙ h) (knows f h)
  handle_keeps_password (logout r) f m h = ground arith
  handle_keeps_password logout_all f m h = inl h
