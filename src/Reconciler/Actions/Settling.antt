-- ===== src/Reconciler/Actions/Settling.antt =====
-- What the loop of image/agent/internal/reconciler/reconciler.go makes of the user's actions.
use expressvpn_container.Base.{
  ℕ, suc, ◌<◌, String, Bool, true, false, not, some, List, ◌≡◌, refl, str_eq, arith, if◌then◌else◌,
  replicate,
}
use expressvpn_container.State.{State, conn, want_connected}
use expressvpn_container.Config.Store.{
  Store, Library, Patched, applied, refused, save_failed, apply_merge_patch,
}
use expressvpn_container.Reconciler.World.{Drivers, Call}
use expressvpn_container.Config.{Config}
use expressvpn_container.Config.Json.{str}
use expressvpn_container.Config.Store.Location.{with_location, Holds, location_body-Holds}
use expressvpn_container.Reconciler.Pass.{run}
use expressvpn_container.Reconciler.Progress.{Willing, is_lost}
use expressvpn_container.Reconciler.Progress.Settling.{Standing, run-Settled}
use expressvpn_container.Reconciler.Actions.{
  Agent, Done, rejected, not_saved, Services, connect_wanted, reset_retries, connect_now,
  after_patch, connect, location_patch,
}

-- The configuration's store has not taken the patch.
abbrev pub is_refused : Done → Bool
is_refused (rejected e) = true
is_refused not_saved = true
is_refused _ = false

connect_wanted-lost :
    (s : State) → is_lost (conn s) ≡ true → is_lost (conn (connect_wanted s)) ≡ true
unfolding connect_wanted
connect_wanted-lost s v = ground arith

connect_wanted-desired : (s : State) → (connect_wanted s).desired ≡ want_connected
unfolding connect_wanted
connect_wanted-desired s = ground arith

-- The configuration once `Connect` was asked for this location.
abbrev pub chosen : String → Config → Config
chosen location c = if not (str_eq location "") then with_location location c else c

module _ (d : Drivers) (willing : Willing d) (started : (cs : List Call) → 0 < d.now cs)
    (n : ℕ) where
  -- An action that was not refused leaves this configuration, and the passes that follow it are with
  -- it.
  Follows : Config → Done × Agent → Type 0
  Follows c x =
      is_refused x.0 ≡ false
      → (x.1.cfg.cur ≡ c) × Standing c (run d (replicate (suc n) c) x.1.world)

  module _ (lib : Library) (services : Services) (seen : Agent → List State)
      (told_apart : (a b : String) → lib.marshal (str a) ≡ lib.marshal (str b) → a ≡ b) where
    by_location :
        (b : Bool) (x y : Done × Agent) (c c' : Config)
        → Follows c x
        → Follows c' y
        → Follows (if b then c else c') (if b then x else y)
    by_location true x y c c' p q = p
    by_location false x y c c' p q = q

    connect_now-Follows :
        (c : Config) (a : Agent)
        → a.cfg.cur ≡ c
        → is_lost (conn a.world.st) ≡ true
        → Follows c (connect_now lib services seen a)
    unfolding Follows connect_now reset_retries
    connect_now-Follows c a same v _ = (
      same,
      run-Settled d willing c n _ (record {
        wanted = connect_wanted-desired a.world.st;
        lost = connect_wanted-lost a.world.st v;
        few = omega arith;
        due = started;
      }),
    )

    after_patch-Follows :
        (c : Config) (p : Patched × Store) (a : Agent)
        → Holds c p
        → is_lost (conn a.world.st) ≡ true
        → Follows c (after_patch lib services seen p a)
    unfolding Follows after_patch
    after_patch-Follows c (applied ks, s) a h v e =
        connect_now-Follows c (record a { cfg = s }) (h refl) v e
    after_patch-Follows c (refused x, s) a h v e = cc e
    after_patch-Follows c (save_failed, s) a h v e = cc e

    -- With drivers that succeed and a clock past zero, Connect of a user whose connection is
    -- lost is followed by a connection at rest: unless the configuration's store refuses the
    -- location, Connect leaves the stored configuration as it was but for the location asked for,
    -- if one was; and the first pass after it, and any number of passes from one on, leave this
    -- configuration applied and a connection shown, the last thing asked of the driver about it
    -- being to connect to this location, however many attempts have failed before and whenever the
    -- next one was due. The library writes different locations as different JSON texts.
    pub connect-Settled :
        (saved : Bool) (location : String) (a : Agent)
        → is_lost (conn a.world.st) ≡ true
        → is_refused (connect lib services seen saved location a).0 ≡ false
        → ((connect lib services seen saved location a).1.cfg.cur ≡ chosen location a.cfg.cur)
          × Standing (chosen location a.cfg.cur) (
              run d
                (replicate (suc n) (chosen location a.cfg.cur))
                (connect lib services seen saved location a).1.world)
    unfolding connect Follows
    connect-Settled saved location a v =
        by_location (not (str_eq location "")) _ _ _ _
          (after_patch-Follows (with_location location a.cfg.cur)
            (apply_merge_patch lib saved (some (location_patch location)) a.cfg) a
            (location_body-Holds lib saved location a.cfg told_apart) v)
          (connect_now-Follows a.cfg.cur a refl v)
