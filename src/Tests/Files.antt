-- ===== src/Tests/Files.antt =====
-- The agent's socket, and the user's SSH configuration.
use keynoxis.Stores as Stores
use keynoxis.Stores.{activity_file, commit_file}
use keynoxis.Stores.Atomic.{Replaces, commit_file-Replaces}
use keynoxis.Base.{
  ℕ, true, [], ◌∷◌, none, some, ok, ◌≡◌, refl, sym, chars, Nat_eq, List_eq, Bytes, Result,
}
use keynoxis.Agent.Integration.{Text, migrated_config, shell_quote}
use keynoxis.Agent.Integration as Integration
use keynoxis.Agent.Integration.Quotes.{unquote, unquote-shell_quote}
use keynoxis.Agent.Integration.Install.{install, atomic_write, remove_legacy_integration}
use keynoxis.Agent.Integration.Install as Install
use keynoxis.Agent.Integration.Install.Installed.{IsInstalled, install-IsInstalled}
use keynoxis.Agent.Files.{Directory, lookup}
use keynoxis.Agent.Start.{System, Agent, ensure, cleanup_legacy_socket, drop_agent, is_healthy}
use keynoxis.Agent.Start.Sockets.{own_socket, socket_path, drop_agent-ensure}

unquote-shell_quote_example :
    unquote (shell_quote (chars "/a \"b\"\\c")) ≡ some (chars "/a \"b\"\\c")
unquote-shell_quote_example = unquote-shell_quote (chars "/a \"b\"\\c")

abbrev config : Text
config = chars "Include ~/.ssh/yubiagent.conf\r\n\nHost work\n    User deploy\n"

abbrev willing : Install.System
willing = record {
  write_integration = none;
  secure_integration = none;
  read_config = none;
  write_temporary = none;
  secure_temporary = none;
  rename_temporary = none;
  secure_config = none;
  read_legacy = none;
  remove_legacy = none;
  default_mode = 0o644;
}

abbrev home : Text
home = chars "/u"

abbrev files : Directory
files = (chars "/u/.ssh/config", record { contents = config; mode = 0o644; socket = none }) ∷ []

abbrev installed : Directory
installed = (install willing home (chars "/u/s") files).0

installation : install willing home (chars "/u/s") files ≡ (installed, ok tt)
unfolding install atomic_write remove_legacy_integration migrated_config Integration.trim
    Integration.include_line Integration.legacy_include_line shell_quote
installation = refl

install-IsInstalled_example : IsInstalled home (chars "/u/s") files installed
install-IsInstalled_example =
    install-IsInstalled willing home (chars "/u/s") files installed installation

abbrev system : ℕ → System
system inode = record {
  create_directory = none;
  remove_legacy = none;
  remove_stale = none;
  bind = ok (1, inode);
  secure = none;
  inspect = none;
  configure = none;
  socket_mode = 0o755;
}

abbrev agent : ℕ → Agent
agent inode = record { socket = socket_path home; socket_identity = (1, inode) }

abbrev once : Directory
once = (ensure (system 10) (install willing) (ok home) []).0

abbrev twice : Directory
twice = (ensure (system 11) (install willing) (ok home) once).0

first_start : ensure (system 10) (install willing) (ok home) [] ≡ (once, ok (agent 10))
unfolding ensure cleanup_legacy_socket install atomic_write remove_legacy_integration
    migrated_config Integration.trim Integration.include_line Integration.legacy_include_line
    shell_quote
first_start = refl

second_start : ensure (system 11) (install willing) (ok home) once ≡ (twice, ok (agent 11))
unfolding ensure cleanup_legacy_socket install atomic_write remove_legacy_integration
    migrated_config Integration.trim Integration.include_line Integration.legacy_include_line
    shell_quote
second_start = refl

drop_agent-ensure_example :
    (is_healthy twice (agent 11) ≡ true)
    × (lookup (socket_path home) twice ≡ some (own_socket (1, 11)))
    × (drop_agent (agent 10) twice ≡ twice)
drop_agent-ensure_example =
    drop_agent-ensure (system 10) (system 11) willing willing home [] once twice (agent 10)
      (agent 11) first_start second_start refl

abbrev data_system : Stores.System
data_system = record {
  data_directory = ok (chars "/data");
  create_directory = none;
  write_temporary = none;
  secure_temporary = none;
  rename_temporary = none;
  read = none;
  default_mode = 0o644;
}

abbrev kept_bytes : Bytes → Result Bytes
kept_bytes bytes = ok bytes

commit_file-Replaces_example :
    Replaces kept_bytes data_system activity_file
      (chars "/data")
      (1 ∷ [])
      []
      (commit_file data_system activity_file (kept_bytes (1 ∷ [])) [])
commit_file-Replaces_example =
    commit_file-Replaces kept_bytes data_system activity_file (chars "/data") kept_bytes (1 ∷ []) []
      refl (λ bytes h. sym h)
