-- ===== src/Lifecycle/Reasons.antt =====
-- The flags of src-tauri/src/lifecycle.rs as a set of reasons to be away.
use keynoxis.Base.{
  ℕ, ◌+◌, Bool, true, false, not, ◌||◌, ◌≡◌, if◌then◌else◌, ◌==◌, Nat_eq, ◌⊎◌, none, some, is_some,
  [], Option, String, Result, ok, err,
}
use keynoxis.Lifecycle.{Recovery}
use keynoxis.State.{RuntimeState}
use keynoxis.Activity.{wrapping_suc}
use keynoxis.Settings.Lock.Cleared.{IsCleared}

-- Why the user is away.
pub record Reasons : Type 0 where
  pub is_screen_locked : Bool
  pub is_asleep : Bool
  pub is_inactive : Bool

abbrev pub weight : Bool → ℕ → ℕ
weight true n = n
weight false n = 0

abbrev pub flags_of : Reasons → ℕ
flags_of v = weight v.is_screen_locked 1 + weight v.is_asleep 2 + weight v.is_inactive 4

abbrev pub is_away : Reasons → Bool
is_away v = v.is_screen_locked || v.is_asleep || v.is_inactive

-- What the events mean.
abbrev pub next : ℕ → Reasons → Reasons
next event v =
    if event == 1
    then record v { is_screen_locked = true }
    else if event == 2
    then record v { is_screen_locked = false }
    else if event == 3
    then record v { is_asleep = true }
    else if event == 4
    then record v { is_asleep = false }
    else if event == 5
    then record v { is_inactive = true }
    else if event == 6
    then record v { is_inactive = false }
    else v

-- Only the flags are new.
abbrev pub Kept : RuntimeState → Reasons → RuntimeState → Type 0
Kept r v' r' = r' ≡ record r { lifecycle_flags = flags_of v' }

-- Before other threads come in, nothing is pending, who waits for a touch is told, and no PIN is in
-- memory; then the session is cleared.
pub record HasLeft (meanwhile : RuntimeState → RuntimeState) (r r' : RuntimeState) : Type 0 where
  pub handed_over : RuntimeState
  pub no_creation : handed_over.app.pending_key_creation ≡ none
  pub no_algorithm : handed_over.app.pending_key_algorithm ≡ none
  pub no_deletion : handed_over.app.pending_key_deletion ≡ none
  pub no_rename : handed_over.app.pending_key_rename ≡ none
  pub told : handed_over.auth_dismiss_generation ≡ wrapping_suc r.auth_dismiss_generation
  pub no_pins : handed_over.pins ≡ []
  pub same_keys : handed_over.app.keys ≡ r.app.keys
  pub cleared : IsCleared (meanwhile handed_over) r'

-- The socket of the agent afterwards: that of an agent which runs and is healthy stays, and else it is
-- what starting the agent again gives, if that succeeds.
abbrev pub given : Result String → Option String
given (ok socket) = some socket
given (err e) = none

abbrev pub recovered : Recovery → Option String → Option String
recovered x (some socket) = if x.is_healthy then some socket else given x.start_agent
recovered x none = given x.start_agent

-- The session is as it was; the agent is recovered, counts as running exactly if it has a socket,
-- and that socket is the one that is shown.
pub record HasReturned (x : Recovery) (r r' : RuntimeState) : Type 0 where
  pub socket : r'.agent_socket ≡ recovered x r.agent_socket
  pub shown : (r'.agent_socket ≡ none) ⊎ (r'.app.ssh_socket ≡ r'.agent_socket)
  pub same_pins : r'.pins ≡ r.pins
  pub same_paths : r'.app.unlocked_device_paths ≡ r.app.unlocked_device_paths
  pub same_keys : r'.app.keys ≡ r.app.keys
  pub running : r'.app.agent_running ≡ is_some r'.agent_socket

-- From the reasons before to those after, with the flags that they are.
pub record Moves (x : Recovery) (meanwhile : RuntimeState → RuntimeState) (v v' : Reasons)
    (r r' : RuntimeState) : Type 0 where
  pub flags : r'.lifecycle_flags ≡ flags_of v'
  pub change :
      ((is_away v ≡ is_away v') × Kept r v' r')
      ⊎ (((is_away v ≡ false) × (is_away v' ≡ true) × HasLeft meanwhile r r')
          ⊎ ((is_away v ≡ true) × (is_away v' ≡ false) × HasReturned x r r'))

-- The test that both directions make: nothing begins and nothing ends.
abbrev pub stays : Reasons → Reasons → Bool
stays v v' = if is_away v then is_away v' else not (is_away v')
