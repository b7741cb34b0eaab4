-- ===== src/Api/Login/Opened.antt =====
-- To whom the handlers of image/agent/internal/api/auth_handlers.go that anybody may call open a
-- session, and what they do to a password.
use expressvpn_container.Base.{
  String, Bool, true, false, not, ◌&&◌, Option, none, some, ◌≡◌, refl, ◌⊎◌, inl, inr, arith,
  if_either,
}
use expressvpn_container.Api.Sessions.{
  SessionManager, PasswordFile, Hasher, Failure, has_password, auth_disabled, verify_password,
  drop_marker, skip, throttled,
}
use expressvpn_container.Api.Sessions.Guard.{verify_password_lem}
use expressvpn_container.Api.Login.{
  Reply, Draw, handle_setup, handle_skip, handle_login, login_by, after_login, after_skip,
  unchecked,
}

module _ (hasher : Hasher) (draw : Draw) where
  -- The answer opens no session, or there was no password, or it was shown.
  abbrev pub Earned : Option String → SessionManager → Reply → Type 0
  Earned shown m a =
      (a.session ≡ none)
      ⊎ ((m.password ≡ none)
          ⊎ ((p : String) × (f : PasswordFile) × (shown ≡ some p)
              × (m.password ≡ some f)
              × (hasher.check f.phc p ≡ true)))

  abbrev EarnedBy : Option String → SessionManager → Reply × SessionManager → Type 0
  EarnedBy shown m x = Earned shown m x.0

  some_password :
      (m : SessionManager) → has_password m ≡ true → (f : PasswordFile) × (m.password ≡ some f)
  some_password m e = by_file m.password refl
    where
      by_file :
          (o : Option PasswordFile) → m.password ≡ o → (f : PasswordFile) × (m.password ≡ some f)
      by_file none h = cc (e, h)
      by_file (some f) h = (f, h)

  no_file-password :
      (m : SessionManager) → has_password (auth_disabled m).1 ≡ false → m.password ≡ none
  unfolding auth_disabled drop_marker
  no_file-password m k = ground arith

  pub setup-Earned :
      (foreign : Bool) (body : Option String) (m : SessionManager)
      → Earned none m (handle_setup hasher draw foreign body m).0
  unfolding handle_setup auth_disabled
  setup-Earned foreign body m =
      let (off, m1) = auth_disabled m in
      if_either (EarnedBy none m) (off && foreign) (λ e. inl refl)
        (λ e.
          if_either (EarnedBy none m) (has_password m1) (λ k. inl refl)
            (λ k. inr (inl (no_file-password m k))))

  after_skip-session :
      (o : Option Failure) (m : SessionManager) → (after_skip hasher draw (o, m)).0.session ≡ none
  unfolding after_skip
  after_skip-session none m = refl
  after_skip-session (some e) m = refl

  pub skip-Earned : (m : SessionManager) → Earned none m (handle_skip hasher draw m).0
  unfolding handle_skip
  skip-Earned m =
      if_either (EarnedBy none m) (has_password m) (λ e. inl refl)
        (λ e.
          if_either (EarnedBy none m) (auth_disabled m).0 (λ k. inl refl)
            (λ k.
              inl (after_skip-session (skip (auth_disabled m).1).0 (skip (auth_disabled m).1).1)))

  unchecked-session : (o : Option Failure) → (unchecked hasher draw o).session ≡ none
  unfolding unchecked
  unchecked-session none = refl
  unchecked-session (some throttled) = refl
  unchecked-session (some _) = refl

  after_login-Earned :
      (p : String) (f : PasswordFile) (m : SessionManager) (r : Bool × Option Failure)
      (m1 : SessionManager)
      → m.password ≡ some f
      → (r.0 ≡ true → hasher.check f.phc p ≡ true)
      → EarnedBy (some p) m (after_login hasher draw (r, m1))
  unfolding after_login
  after_login-Earned p f m (true, none) m1 h k = inr (inr (p, f, refl, h, k refl))
  after_login-Earned p f m (true, some e) m1 h k = inl (unchecked-session (some e))
  after_login-Earned p f m (false, e) m1 h k = inl (unchecked-session e)

  pub login-Earned :
      (body : Option String) (m : SessionManager)
      → Earned body m (handle_login hasher draw body m).0
  unfolding handle_login login_by
  login-Earned none m =
      if_either (EarnedBy none m) (not (has_password m)) (λ e. inl refl) (λ e. inl refl)
  login-Earned (some p) m =
      if_either (EarnedBy (some p) m) (not (has_password m)) (λ e. inl refl)
        (λ e.
          let (f, h) = some_password m (ground arith) in
          after_login-Earned p f m (verify_password hasher p draw.now m).0 _ h
            ((verify_password_lem hasher p draw.now m).1 f h))
