-- ===== src/Shell/Life.antt =====
-- A process from its start in src-tauri/src/lib.rs, over any events.
use keynoxis.Base.{ℕ, List, String, refl, ◌≡◌, ◌⊎◌, true}
use keynoxis.Fido.Credentials.{Encoding}
use keynoxis.Provider.{Hardware}
use keynoxis.Ipc.Operation.{FidoDevice}
use keynoxis.Ipc.Sessions.{Moment, run}
use keynoxis.Ipc.Sessions.Agreement.{Agree, Within, pending_locks, raced, run-Agree}
use keynoxis.Shell.Startup.{Launch, setup}
use keynoxis.Shell.Startup.Protected.{setup-Accounts}

module _ (x : Encoding) (v : Launch) where
  setup-Agree : Agree (setup x v).0.runtime
  setup-Agree = λ path. let (p, u, _) = setup-Accounts x v in rw (p, u) refl

  -- From the start of the process, over any commands, operations, locks, signatures, detections and
  -- events of the system and of the tray that are a `Moment`, in whatever order, also with others in
  -- the middle of a lock: where each lock that began has ended, no device counts as unlocked whose PIN
  -- is not in memory; and a PIN is in memory exactly while its device counts as unlocked, unless an
  -- operation succeeded in the middle of a lock.
  pub run-setup-Agree :
      (d : FidoDevice) (h : Hardware) (trim : String → String) (to_string : ℕ → String)
      (es : List Moment)
      → pending_locks 0 es ≡ 0
      → Within (run d h trim to_string es (setup x v).0.runtime)
        × ((raced 0 es ≡ true) ⊎ Agree (run d h trim to_string es (setup x v).0.runtime))
  run-setup-Agree d h trim to_string es ended =
      run-Agree d h trim to_string es (setup x v).0.runtime ended setup-Agree
