-- ===== src/Agent/Start.antt =====
-- src-tauri/src/agent/start.rs: the agent's socket, and the limit on its connections.
pub mod Connections
pub mod Sockets
use keynoxis.Base.{
  ℕ, ◌+◌, ◌-◌, ◌%◌, Bool, true, false, not, ◌&&◌, List, [], ◌∷◌, if◌then◌else◌, ◌==◌, Nat_eq,
  Option_eq, Option, none, some, String, Result, ok, err, is_some, option_map, chars, ltb, retain,
  contains,
}
use Prim.Native.String.{◌++◌ as concat}
use keynoxis.Activity.{u64_mod}
use keynoxis.Agent.Integration.{Text}
use keynoxis.Agent.Files.{
  Directory, File, Socket, lookup, remove, put, join, private_mode, Refusal, set_permissions,
  try_set_permissions, call,
}

abbrev pub max_agent_connections : ℕ
max_agent_connections = 32

pub record ConnectionLimiter : Type 0 where
  pub active : ℕ
  pub limit : ℕ

abbrev pub new : ℕ → ConnectionLimiter
new limit = record { active = 0; limit = limit }

-- With whether there is a permit.
unfoldable pub try_acquire : ConnectionLimiter → ConnectionLimiter × Bool
try_acquire l =
    if ltb l.active l.limit then (record l { active = l.active + 1 }, true) else (l, false)

-- A permit is dropped: `fetch_sub` wraps around.
unfoldable pub release : ConnectionLimiter → ConnectionLimiter
release l = record l { active = (l.active + (u64_mod - 1)) % u64_mod }

-- The thread that accepts, and the connections that are served, each in a thread that holds a permit.
pub record Listener : Type 0 where
  pub connections : ConnectionLimiter
  pub served : List ℕ
  pub is_stopped : Bool

abbrev pub start : Listener
start = record { connections = new max_agent_connections; served = []; is_stopped = false }

abbrev served_if : ℕ → Listener → ConnectionLimiter × Bool → Listener
served_if id s (l, true) = record s { connections = l; served = id ∷ s.served }
served_if id s (l, false) = record s { connections = l }

-- A connection that comes in, under a number of its own, and is closed at once without a permit.
unfoldable pub accept : ℕ → Listener → Listener
accept id s = served_if id s (try_acquire s.connections)

abbrev pub without : ℕ → List ℕ → List ℕ
without id [] = []
without id (x ∷ xs) = if x == id then xs else x ∷ without id xs

-- A connection's thread ends, with whatever result, and drops its permit.
unfoldable pub close : ℕ → Listener → Listener
close id s = record s { connections = release s.connections; served = without id s.served }

pub record Agent : Type 0 where
  pub socket : Text
  pub socket_identity : ℕ × ℕ

abbrev pub is_listening_socket : Option File → Bool
is_listening_socket none = false
is_listening_socket (some f) = is_listening_to f.socket
  where
    is_listening_to : Option Socket → Bool
    is_listening_to none = false
    is_listening_to (some s) = s.is_listening

unfoldable pub is_healthy : Directory → Agent → Bool
is_healthy files a = is_listening_socket (lookup a.socket files)

abbrev pub identity_of : Option File → Option (ℕ × ℕ)
identity_of none = none
identity_of (some f) = option_map (λ (s : Socket). s.identity) f.socket

abbrev pub same_identity : Option (ℕ × ℕ) → ℕ × ℕ → Bool
same_identity none b = false
same_identity (some (d, i)) (d', i') = d == d' && i == i'

-- The agent is dropped. Its thread ends before, and the listener with it.
unfoldable pub drop_agent : Agent → Directory → Directory
drop_agent a files =
    if same_identity (identity_of (lookup a.socket files)) a.socket_identity
    then remove a.socket files
    else files

abbrev is_dead_socket : Option File → Bool
is_dead_socket none = false
is_dead_socket (some f) = is_dead f.socket
  where
    is_dead : Option Socket → Bool
    is_dead none = false
    is_dead (some s) = not s.is_listening

abbrev remove_unless : Refusal → Text → Directory → Directory
remove_unless none path files = remove path files
remove_unless (some e) path files = files

abbrev pub legacy_socket : Text → Text
legacy_socket ssh_directory = join ssh_directory (chars "yubiagent.sock")

unfoldable pub cleanup_legacy_socket : Refusal → Text → Directory → Directory
cleanup_legacy_socket refused ssh_directory files =
    let legacy = legacy_socket ssh_directory in
    if is_dead_socket (lookup legacy files) then remove_unless refused legacy files else files

-- What the system answers on the way: a refusal of each call, and the new socket.
pub record System : Type 0 where
  pub create_directory : Refusal
  pub remove_legacy : Refusal
  pub remove_stale : Refusal
  pub bind : Result (ℕ × ℕ)
  pub secure : Refusal
  pub inspect : Refusal
  pub configure : Refusal
  pub socket_mode : ℕ

abbrev pub bound : System → Text → ℕ × ℕ → Directory → Directory
bound v path identity files =
    put path
      (record {
        contents = [];
        mode = v.socket_mode;
        socket = some (record { identity = identity; is_listening = true });
      })
      files

-- A listener that is given up leaves its socket behind, and nobody listens there.
abbrev unheard : Text → Directory → Option File → Directory
unheard path files (some f) =
    put path
      (record f {
        socket = option_map (λ (s : Socket). record s { is_listening = false }) f.socket;
      })
      files
unheard path files none = files

abbrev give_up : Text → Directory → Directory
give_up path files = unheard path files (lookup path files)

abbrev said : String → String → String
said what e = concat what e

-- The integration comes from agent/integration.rs.
module _ (v : System) (install : Text → Text → Directory → Directory × Result (Unit {0})) where
  abbrev pub installed : Agent → Directory × Result (Unit {0}) → Directory × Result Agent
  installed a (files, ok u) = (files, ok a)
  installed a (files, err e) = (give_up a.socket files, err e)

  -- The socket exists: it is the agent's once it is private and does not block.
  abbrev pub secured : Text → Text → ℕ × ℕ → Directory → Directory × Result Agent
  secured home path identity files =
      call (said "Could not secure Keynoxis socket: ") v.secure (give_up path files)
        (set_permissions path private_mode files)
        λ files1.
          call (said "Could not inspect Keynoxis socket: ") v.inspect (give_up path files1) files1
            λ files2.
              call (said "Could not configure Keynoxis socket: ") v.configure (give_up path files2)
                files2
                λ files3.
                  installed (record { socket = path; socket_identity = identity })
                    (install home path files3)

  abbrev pub listening : Text → Text → Directory → Result (ℕ × ℕ) → Directory × Result Agent
  listening home path files (err e) = (files, err (concat "Could not create Keynoxis socket: " e))
  listening home path files (ok identity) = secured home path identity (bound v path identity files)

  -- `path.exists()`.
  abbrev pub cleared :
      Text → Directory → (Directory → Directory × Result Agent) → Directory × Result Agent
  cleared path files next =
      if is_some (lookup path files)
      then call (said "Could not clear stale Keynoxis socket: ") v.remove_stale files
          (remove path files) next
      else next files

  unfoldable pub ensure : Result Text → Directory → Directory × Result Agent
  ensure (err e) files = (files, err e)
  ensure (ok home) files =
      let ssh_directory = join home (chars ".ssh") in
      call (said "Could not create ~/.ssh: ") v.create_directory files files λ files1.
        let path = join ssh_directory (chars "keynoxis.sock") in
        cleared path (cleanup_legacy_socket v.remove_legacy ssh_directory files1)
          λ files2. listening home path files2 v.bind
