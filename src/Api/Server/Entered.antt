-- ===== src/Api/Server/Entered.antt =====
-- What a request to image/agent/internal/api/server.go reaches that does not pass `requireAuth`.
use expressvpn_container.Base.{
  String, Bool, true, not, ◌&&◌, Option, none, some, ◌≡◌, ◌⊎◌, inl, inr, refl, ◌∙◌, subst, if_both,
  if_either,
}
use expressvpn_container.Config.Store.{Library}
use expressvpn_container.Api.Sessions.{
  SessionManager, PasswordFile, Hasher, has_password, auth_disabled,
}
use expressvpn_container.Api.Access.{
  Call, Access, Decision, passed, cross_site, unauthorized, cross_site_blocked, authorized,
  require_auth,
}
use expressvpn_container.Api.Access.Tokens.{
  HasFile, require_auth-tokens, require_auth-HasFile, authorized-tokens, authorized-HasFile,
  auth_disabled-password,
}
use expressvpn_container.Api.Access.Entry.{Grounds, require_auth-Grounds}
use expressvpn_container.Api.Login
use expressvpn_container.Api.Login.{handle_setup, handle_skip, handle_login}
use expressvpn_container.Api.Login.Outcomes.{Op, handle_keeps_password}
use expressvpn_container.Api.Login.Outcomes
use expressvpn_container.Api.Login.Opened.{Earned, setup-Earned, skip-Earned, login-Earned}
use expressvpn_container.Api.Server.{
  Server, Reply, reply, problem, healthy, page, standing, signed, Draw, Texts,
}
use expressvpn_container.Api.Server.Routing.{
  Request, auth_login, is_open, needs_sessions, has_sessions, routed, other_page, by_manager,
  status_by, handle_status, handle, admit, by_pattern, serve,
}

-- No part of the server has changed, but for the sessions and the password's files, and a password
-- that there was is still there.
pub record Kept (s t : Server) : Type 0 where
  pub tokens : t.access.tokens ≡ s.access.tokens
  pub config : t.config ≡ s.config
  pub logs : t.logs ≡ s.logs
  pub ops : t.ops ≡ s.ops
  pub tasks : t.tasks ≡ s.tasks
  pub password : (f : PasswordFile) → HasFile f s.access.sessions → HasFile f t.access.sessions

-- The password that a request shows in order to log in.
abbrev pub shown_by : Request → Option String
shown_by (auth_login body) = body
shown_by _ = none

module _ (hasher : Hasher) (draw : Draw) where
  -- The answer is one of the two refusals; or says only that the server is up, or is a page or the
  -- lack of one; or tells whether there is a password and whether the protection is off, with a
  -- further flag; or it is one of a handler of the password, and opens a session only
  -- where there was no password or the right one was shown.
  pub data Public (s : Server) (r : Request) (a : Reply) : Type 0 where
    refused : a ≡ reply 401 (problem "unauthorized") → Public s r a
    foreign : a ≡ reply 403 (problem "cross_site_blocked") → Public s r a
    up : a ≡ reply 200 healthy → Public s r a
    paged : a ≡ reply 200 page → Public s r a
    lost : a ≡ reply 404 (problem "page not found") → Public s r a
    told :
        (m : SessionManager) (let_in : Bool)
        → s.access.sessions ≡ some m
        → a ≡ reply 200 (standing (has_password (auth_disabled m).1) (auth_disabled m).0 let_in)
        → Public s r a
    answered :
        (m : SessionManager) (l : Login.Reply)
        → s.access.sessions ≡ some m
        → a ≡ reply l.status (signed l)
        → Earned hasher draw.login (shown_by r) m l
        → Public s r a

  abbrev pub Outside : Server → Request → Reply × Server → Type 0
  Outside s r x = Public s r x.0 × Kept s x.1

  all-Kept : (s : Server) → Kept s s
  all-Kept s = record {
    tokens = refl;
    config = refl;
    logs = refl;
    ops = refl;
    tasks = refl;
    password = λ f h. h;
  }

  access-Kept :
      (a : Access) (s : Server)
      → a.tokens ≡ s.access.tokens
      → ((f : PasswordFile) → HasFile f s.access.sessions → HasFile f a.sessions)
      → Kept s (record s { access = a })
  access-Kept a s e h = record {
    tokens = e;
    config = refl;
    logs = refl;
    ops = refl;
    tasks = refl;
    password = h;
  }

  module _ (url_host : String → Option String) (equal_fold : String → String → Bool) where
    other_page-Outside :
        (s : Server) (r : Request) → Outside s r (other_page url_host equal_fold hasher s)
    unfolding other_page
    other_page-Outside s r =
        (if_both (λ (a : Reply). Public s r a) s.pages (paged refl) (lost refl), all-Kept s)

    by_manager-Outside :
        (f : SessionManager → Login.Reply × SessionManager) (o : Option SessionManager) (s : Server)
        (r : Request)
        → s.access.sessions ≡ o
        → ((m : SessionManager) → Earned hasher draw.login (shown_by r) m (f m).0)
        → ((m : SessionManager) (w : PasswordFile)
            → m.password ≡ some w
            → (f m).1.password ≡ some w)
        → Outside s r (by_manager url_host equal_fold hasher f o s)
    unfolding by_manager
    by_manager-Outside f none s r e earned kept = other_page-Outside s r
    by_manager-Outside f (some m) s r e earned kept = (
      answered m (f m).0 e refl (earned m),
      access-Kept (record s.access { sessions = some (f m).1 }) s refl
          (λ w h. kept m w (subst (HasFile w) e h)),
    )

    status_by-Outside :
        (c : Call) (o : Option SessionManager) (s : Server) (r : Request)
        → s.access.sessions ≡ o
        → Outside s r (status_by url_host equal_fold hasher c draw o s)
    unfolding status_by
    status_by-Outside c none s r e = other_page-Outside s r
    status_by-Outside c (some m) s r e =
        let (off, m1) = auth_disabled m in
        let a1 : Access = record s.access { sessions = some m1 } in
        let kept : (w : PasswordFile) → HasFile w s.access.sessions → HasFile w (some m1) =
          λ w h. auth_disabled-password m ∙ subst (HasFile w) e h in
        (
          told m _ e refl,
          if_both (λ (a : Access). Kept s (record s { access = a })) off
              (access-Kept a1 s refl kept)
              (access-Kept (authorized url_host equal_fold c draw.now a1).1 s
                (authorized-tokens url_host equal_fold c draw.now a1)
                (λ w h. authorized-HasFile url_host equal_fold w c draw.now a1 (kept w h))),
        )

    keeps :
        (op : Op)
        → ((w : PasswordFile) → Outcomes.Knows hasher draw.login w op → ⊥)
        → (m : SessionManager) (w : PasswordFile) → m.password ≡ some w
        → (Outcomes.handle hasher draw.login op m).1.password ≡ some w
    keeps op never m w h = elim (handle_keeps_password hasher draw.login op w m h) [
      | inl k ↦ k
      | inr k ↦ absurd (never w k)
    ]

    module _ (lib : Library) (texts : Texts) (c : Call) where
      open-Outside :
          (r : Request) (s : Server)
          → is_open r ≡ true
          → Outside s r (handle url_host equal_fold hasher lib texts draw c r s)
      unfolding handle handle_status
      open-Outside Request.healthz s e = (up refl, all-Kept s)
      open-Outside Request.other s e = other_page-Outside s Request.other
      open-Outside Request.auth_status s e =
          status_by-Outside c s.access.sessions s Request.auth_status refl
      open-Outside Request.auth_skip s e =
          by_manager-Outside (handle_skip hasher draw.login) s.access.sessions s Request.auth_skip
            refl (skip-Earned hasher draw.login) (keeps Op.skipping (λ w k. k))
      open-Outside (Request.auth_setup body) s e =
          let far = cross_site_blocked url_host equal_fold c in
          by_manager-Outside (handle_setup hasher draw.login far body) s.access.sessions s
            (Request.auth_setup body) refl (setup-Earned hasher draw.login far body)
            (keeps (Op.setup far body) (λ w k. k))
      open-Outside (Request.auth_login body) s e =
          by_manager-Outside (handle_login hasher draw.login body) s.access.sessions s
            (Request.auth_login body) refl (login-Earned hasher draw.login body)
            (keeps (Op.login body) (λ w k. k))
      open-Outside r s e = cc e

      admitted :
          (G : Type 0) (r : Request) (p : Decision × Access) (s : Server)
          → p.1.tokens ≡ s.access.tokens
          → ((f : PasswordFile) → HasFile f s.access.sessions → HasFile f p.1.sessions)
          → (p.0 ≡ passed → G)
          → G ⊎ Outside s r (admit url_host equal_fold hasher lib texts draw c r p s)
      unfolding admit
      admitted G r (passed, a) s e h g = inl (g refl)
      admitted G r (cross_site, a) s e h g = inr (foreign refl, access-Kept a s e h)
      admitted G r (unauthorized, a) s e h g = inr (refused refl, access-Kept a s e h)

      by_pattern-Grounds :
          (r : Request) (s : Server)
          → Grounds url_host equal_fold c draw.now s.access
            ⊎ Outside s r (by_pattern url_host equal_fold hasher lib texts draw c r s)
      unfolding by_pattern
      by_pattern-Grounds r s =
          let G = Grounds url_host equal_fold c draw.now s.access in
          if_either (λ (x : Reply × Server). G ⊎ Outside s r x) (is_open r)
            (λ e. inr (open-Outside r s e))
            (λ e.
              admitted G r (require_auth url_host equal_fold c draw.now s.access) s
                (require_auth-tokens url_host equal_fold c draw.now s.access)
                (λ f h. require_auth-HasFile url_host equal_fold f c draw.now s.access h)
                (require_auth-Grounds url_host equal_fold c draw.now s.access))

      -- Every request has grounds on which it passes `requireAuth`, or its answer is `Public` and
      -- the server is `Kept`: the answer is a refusal, says only that the server is up, is a page or
      -- the lack of one, tells whether there is a password and whether the protection is off, with
      -- a further flag, or comes from a handler of the password and opens a session only
      -- where there was no password or the right one was shown; and neither the token, the
      -- configuration, the log, the operations nor what they run has changed, nor a password that
      -- there was.
      pub serve-Grounds :
          (r : Request) (s : Server)
          → Grounds url_host equal_fold c draw.now s.access
            ⊎ Outside s r (serve url_host equal_fold hasher lib texts draw c r s)
      unfolding serve routed by_pattern handle
      serve-Grounds r s =
          if_both
            (λ (x : Request).
              Grounds url_host equal_fold c draw.now s.access
              ⊎ Outside s r (by_pattern url_host equal_fold hasher lib texts draw c x s))
            (needs_sessions r && not (has_sessions s.access.sessions))
            (inr (other_page-Outside s r)) (by_pattern-Grounds r s)
