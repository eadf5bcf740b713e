-- ===== src/Lifecycle/Resumed.antt =====
-- What src-tauri/src/lifecycle.rs does when the user comes back: the agent is recovered.
use keynoxis.Base.{
  ℕ, Bool, true, false, ◌≡◌, refl, arith, Nat_eq, inl, inr, ap, ◌∙◌, sym, none, some, ◌⊎◌, is_some,
  Option, String, Result, ok, err,
}
use keynoxis.State.{RuntimeState, AppState}
use keynoxis.Activity.{record_activity}
use keynoxis.Lifecycle.{Recovery, recover_agent, resume, resumed_app, show_if}
use keynoxis.Lifecycle.Reasons.{given, recovered}

abbrev pub IsGiven : RuntimeState × Result String → Type 0
IsGiven p = p.0.agent_socket ≡ given p.1

-- What coming back does once the agent was recovered.
pub record IsResumed (r r' : RuntimeState) : Type 0 where
  pub socket : r'.agent_socket ≡ r.agent_socket
  pub shown : (r'.agent_socket ≡ none) ⊎ (r'.app.ssh_socket ≡ r'.agent_socket)
  pub same_pins : r'.pins ≡ r.pins
  pub same_paths : r'.app.unlocked_device_paths ≡ r.app.unlocked_device_paths
  pub same_keys : r'.app.keys ≡ r.app.keys
  pub running : r'.app.agent_running ≡ is_some r'.agent_socket
  pub same_flags : r'.lifecycle_flags ≡ r.lifecycle_flags

module _ (now : ℕ) where
  resumed_app_frame :
      (prompts : Bool) (socket : String) (s : AppState)
      → ((resumed_app prompts socket s).unlocked_device_paths ≡ s.unlocked_device_paths)
        × ((resumed_app prompts socket s).keys ≡ s.keys)
        × ((resumed_app prompts socket s).agent_running ≡ true)
        × ((resumed_app prompts socket s).ssh_socket ≡ some socket)
  unfolding resumed_app
  resumed_app_frame prompts socket s = ground arith

  show_if_frame :
      (b : Bool) (r : RuntimeState)
      → ((show_if b r).app ≡ r.app)
        × ((show_if b r).pins ≡ r.pins)
        × ((show_if b r).agent_socket ≡ r.agent_socket)
        × ((show_if b r).lifecycle_flags ≡ r.lifecycle_flags)
  show_if_frame true r = (refl, refl, refl, refl)
  show_if_frame false r = (refl, refl, refl, refl)

  pub resume_lem :
      (event_name : String) (p : RuntimeState × Result String)
      → IsGiven p
      → IsResumed p.0 (resume now event_name p)
  unfolding record_activity
  resume_lem event_name (r, ok socket) e =
      let (u, k, t, n) = resumed_app_frame r.prompt_pin_after_mac_unlock socket r.app in
      let (a, p, g, f) = show_if_frame _ _ in
      record {
        socket = g;
        shown = inr (ap (λ (s : AppState). s.ssh_socket) a ∙ (n ∙ sym (g ∙ e)));
        same_pins = p;
        same_paths = ap (λ (s : AppState). s.unlocked_device_paths) a ∙ u;
        same_keys = ap (λ (s : AppState). s.keys) a ∙ k;
        running = ap (λ (s : AppState). s.agent_running) a ∙ (t ∙ ap is_some (sym (g ∙ e)));
        same_flags = f;
      }
  resume_lem event_name (r, err x) e = record {
    socket = refl;
    shown = inl e;
    same_pins = refl;
    same_paths = refl;
    same_keys = refl;
    running = ap is_some (sym e);
    same_flags = refl;
  }

  pub recover_agent_lem :
      (v : Recovery) (o : Option String) (r : RuntimeState)
      → r.agent_socket ≡ o
      → IsGiven (recover_agent v o r)
        × ((recover_agent v o r).0.app ≡ r.app)
        × ((recover_agent v o r).0.pins ≡ r.pins)
        × ((recover_agent v o r).0.lifecycle_flags ≡ r.lifecycle_flags)
        × ((recover_agent v o r).0.agent_socket ≡ recovered v o)
  recover_agent_lem v o r e = ground arith
