-- ===== src/Agent/Start/Sockets.antt =====
-- The socket of src-tauri/src/agent/start.rs, from its creation to its removal.
use Prim.Native.String.{◌++◌ as concat}
use keynoxis.Base.{
  ℕ, Bool, true, false, [], if◌then◌else◌, ◌==◌, Nat_eq, List_eq, Option_eq, Option, none, some,
  Result, ok, err, chars, ◌≡◌, refl, arith, ap, ◌∙◌, sym, eq_self, is_some, option_map,
}
use keynoxis.Agent.Integration.{Text}
use keynoxis.Agent.Files.{
  Directory, File, lookup, remove, put, join, private_mode, set_permissions, with_mode, call,
  lookup-put, lookup-remove,
}
use keynoxis.Agent.Integration.Install.{install}
use keynoxis.Agent.Integration.Install as Install
use keynoxis.Agent.Integration.Install.Calls.{call-ok}
use keynoxis.Agent.Integration.Install.Texts.{join-differs}
use keynoxis.Agent.Integration.Install.Installed.{temporary-differs}
use keynoxis.Agent.Integration.Install.Untouched.{install-kept}
use keynoxis.Agent.Start.{
  Agent, System, ensure, drop_agent, is_healthy, bound, secured, listening, installed,
  cleanup_legacy_socket, identity_of, is_listening_socket, same_identity,
}

abbrev pub socket_path : Text → Text
socket_path home = join (join home (chars ".ssh")) (chars "keynoxis.sock")

-- The agent's own socket: private, and with a listener.
abbrev pub own_socket : ℕ × ℕ → File
own_socket identity = record {
  contents = [];
  mode = private_mode;
  socket = some (record { identity = identity; is_listening = true });
}

abbrev agent_at : Text → ℕ × ℕ → Agent
agent_at home identity = record { socket = socket_path home; socket_identity = identity }

-- The agent is at the socket of the user's SSH directory, which is its own.
abbrev pub Owns : Text → Agent → Directory → Type 0
Owns home a files =
    (a.socket ≡ socket_path home)
    × (lookup (socket_path home) files ≡ some (own_socket a.socket_identity))

value_or {ℓ} : {A : Type ℓ} → A → Result A → A
value_or a (ok b) = b
value_or a (err e) = a

same-ok {ℓ} :
    {A : Type ℓ} (x : A) (files1 : Directory) {files : Directory} {a : A}
    → ◌≡◌ {A = Directory × Result A} (files1, ok x) (files, ok a)
    → (files1 ≡ files) × (x ≡ a)
unfolding value_or
same-ok x files1 h = (ap (λ p. p.0) h, ap (λ p. value_or x p.1) h)

lookup-put_self :
    (path : Text) (f : File) (files : Directory) → lookup path (put path f files) ≡ some f
lookup-put_self path f files = lookup-put path path f files ∙ rw (eq_self path) refl

with_mode_self :
    (path : Text) (mode : ℕ) (o : Option File) (f : File) (files : Directory)
    → o ≡ some f
    → lookup path (with_mode path mode o files) ≡ some (record f { mode = mode })
with_mode_self path mode none f files h = cc
with_mode_self path mode (some g) f files h =
    lookup-put_self path _ files ∙ ap (option_map (λ (x : File). record x { mode = mode })) h

module _ (v : System) (w : Install.System) (home : Text) where
  install-socket :
      (files : Directory)
      → lookup (socket_path home) (install w home (socket_path home) files).0
        ≡ lookup (socket_path home) files
  install-socket files =
      install-kept (socket_path home) w home (socket_path home) files
        (join-differs (join home (chars ".ssh")) _ _ refl)
        (join-differs (join home (chars ".ssh")) _ _ refl)
        (join-differs (join home (chars ".ssh")) _ _ refl)
        (temporary-differs (join home (chars ".ssh")) _ refl)

  installed-Owns :
      (identity : ℕ × ℕ) (p : Directory × Result (Unit {0})) {files : Directory} {a : Agent}
      → lookup (socket_path home) p.0 ≡ some (own_socket identity)
      → installed v (install w) (agent_at home identity) p ≡ (files, ok a)
      → (a ≡ agent_at home identity) × Owns home a files
  installed-Owns identity (files1, ok u) {files} {a} h k =
      let (f, e) = same-ok (agent_at home identity) files1 k in
      (
        sym e,
        (
          ap (λ (x : Agent). x.socket) (sym e),
          ap (lookup (socket_path home)) (sym f)
              ∙ (h ∙ ap (λ (x : Agent). some (own_socket x.socket_identity)) e),
        ),
      )
  installed-Owns identity (files1, err e) h k = cc

  secured-Owns :
      (identity : ℕ × ℕ) (files : Directory) {files' : Directory} {a : Agent}
      → secured v
          (install w)
          home
          (socket_path home)
          identity
          (bound v (socket_path home) identity files)
        ≡ (files', ok a)
      → (a ≡ agent_at home identity) × Owns home a files'
  secured-Owns identity files h =
      let path = socket_path home in
      let files1 = bound v path identity files in
      let files2 = set_permissions path private_mode files1 in
      let at =
        with_mode_self path private_mode (lookup path files1) _ files1
          (lookup-put_self path _ files) in
      installed-Owns identity (install w home path files2) (install-socket files2 ∙ at) (
        call-ok _ v.configure _ files2 _
          (call-ok _ v.inspect _ files2 _ (call-ok _ v.secure _ files2 _ h)))

  listening-Owns :
      (files : Directory) (o : Result (ℕ × ℕ)) {files' : Directory} {a : Agent}
      → listening v (install w) home (socket_path home) files o ≡ (files', ok a)
      → (o ≡ ok a.socket_identity) × Owns home a files'
  listening-Owns files (err e) h = cc
  listening-Owns files (ok identity) h =
      let (e, owns) = secured-Owns identity files h in
      (ap (λ (x : Agent). ok x.socket_identity) (sym e), owns)

  cleared-Owns :
      (b : Bool) (files : Directory) {files' : Directory} {a : Agent}
      → (if b
          then call
              (concat "Could not clear stale Keynoxis socket: ")
              v.remove_stale
              files
              (remove (socket_path home) files)
              (λ files2. listening v (install w) home (socket_path home) files2 v.bind)
          else listening v (install w) home (socket_path home) files v.bind)
        ≡ (files', ok a)
      → (v.bind ≡ ok a.socket_identity) × Owns home a files'
  cleared-Owns true files h =
      listening-Owns (remove (socket_path home) files) v.bind (call-ok _ v.remove_stale files _ _ h)
  cleared-Owns false files h = listening-Owns files v.bind h

  pub ensure-Owns :
      (files : Directory) {files' : Directory} {a : Agent}
      → ensure v (install w) (ok home) files ≡ (files', ok a)
      → (v.bind ≡ ok a.socket_identity) × Owns home a files'
  unfolding ensure
  ensure-Owns files h =
      let files1 = cleanup_legacy_socket v.remove_legacy (join home (chars ".ssh")) files in
      cleared-Owns (is_some (lookup (socket_path home) files1)) files1
        (call-ok _ v.create_directory files files _ h)

identity-own :
    (a b : Agent) (home : Text) (files : Directory)
    → a.socket ≡ socket_path home
    → Owns home b files
    → same_identity (identity_of (lookup a.socket files)) a.socket_identity
      ≡ same_identity (some b.socket_identity) a.socket_identity
identity-own a b home files h (s, o) =
    ap (λ p. same_identity (identity_of (lookup p files)) a.socket_identity) h
    ∙ ap (λ f. same_identity (identity_of f) a.socket_identity) o

dropped :
    (b : Bool) (path : Text) (files : Directory)
    → b ≡ false
    → (if b then remove path files else files) ≡ files
dropped true path files h = cc
dropped false path files h = refl

module _ (v1 v2 : System) (w1 w2 : Install.System) (home : Text) (files files1 files2 : Directory)
    (a b : Agent) (first : ensure v1 (install w1) (ok home) files ≡ (files1, ok a))
    (second : ensure v2 (install w2) (ok home) files1 ≡ (files2, ok b)) where
  -- When a second process starts its agent at the socket of a first, with a socket of another
  -- identity, the second agent is healthy, its socket is private, and the end of the first agent
  -- changes nothing.
  pub drop_agent-ensure :
      same_identity (some b.socket_identity) a.socket_identity ≡ false
      → (is_healthy files2 b ≡ true)
        × (lookup b.socket files2 ≡ some (own_socket b.socket_identity))
        × (drop_agent a files2 ≡ files2)
  unfolding is_healthy drop_agent
  drop_agent-ensure differs =
      let (_, (p, _)) = ensure-Owns v1 w1 home files first in
      let (_, owns) = ensure-Owns v2 w2 home files1 second in
      let (q, o) = owns in
      let found = ap (λ path. lookup path files2) q ∙ o in
      (
        ap is_listening_socket found,
        found,
        dropped _ a.socket files2 (identity-own a b home files2 p owns ∙ differs),
      )

same_self : (i : ℕ × ℕ) → same_identity (some i) i ≡ true
same_self (d, n) = ground arith

module _ (v : System) (w : Install.System) (home : Text) (files files' : Directory)
    (a : Agent) where
  -- An agent that started owns the socket that was bound, private and with its listener; and when it
  -- ends, no socket is left there, and every other file stays.
  ensure-drop_agent :
      ensure v (install w) (ok home) files ≡ (files', ok a)
      → (v.bind ≡ ok a.socket_identity)
        × Owns home a files'
        × ((path : Text)
            → lookup path (drop_agent a files')
              ≡ (if a.socket == path then none else lookup path files'))
  unfolding drop_agent
  ensure-drop_agent h =
      let (e, owns) = ensure-Owns v w home files h in
      (
        e,
        owns,
        λ path.
            rw (identity-own a a home files' owns.0 owns, same_self a.socket_identity)
              (lookup-remove path a.socket files'),
      )
