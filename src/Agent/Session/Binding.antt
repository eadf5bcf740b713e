-- ===== src/Agent/Session/Binding.antt =====
-- A connection that tries to bind fails closed (`extension` of src-tauri/src/agent/server.rs).
use keynoxis.Base.{
  true, false, ◌||◌, List, [], ◌∷◌, ◌++◌, ◌≡◌, refl, arith, Result, ok, err, Bytes, ◌⊎◌, inl, inr,
  String, append-nil, sym, append_assoc, list_eq_iff, ap, ◌∙◌, ◌==◌, List_eq, Nat_eq, not,
}
use keynoxis.Agent.Wire.{Reader, new_reader, read_string}
use keynoxis.Agent.Session.Cases.{record_binding_cases, bind_session_cases, extension_cases}
use keynoxis.Agent.Session.Invariant.{bind_all}
use keynoxis.Agent.Session.{
  SessionBinding, ConnectionContext, Crypto, BindRequest, binding_of, push_binding, extension,
  bind_session, verify_binding, lookup_binding, same_binding, session_bind_extension,
  ssh_agent_success,
}

-- `b` is one of the bindings.
abbrev pub Binds : List SessionBinding → Bytes → Bytes → Type 0
Binds [] host sid = ⊥
Binds (b ∷ bs) host sid = ((b.host_key ≡ host) × (b.session_id ≡ sid)) ⊎ Binds bs host sid

-- What a request on `c` may lead to: a success, whose binding was verified and is recorded, with
-- the flag clear; or an error that leaves the bindings alone, with the flag set.
abbrev pub FailsClosed : Crypto → ConnectionContext → ConnectionContext × Result Bytes → Type 0
FailsClosed x c (c', r) =
    ((r ≡ ok (ssh_agent_success ∷ []))
      × (c'.binding_failed ≡ false)
      × ((q : BindRequest) × (verify_binding x q ≡ ok tt)
          × Binds c'.bindings q.host_key q.session_id))
    ⊎ ((e : String) × (r ≡ err e) × (c'.binding_failed ≡ true) × (c'.bindings ≡ c.bindings))

Binds-concat :
    (bs : List SessionBinding) (b : SessionBinding) → Binds (bs ++ b ∷ []) b.host_key b.session_id
Binds-concat [] b = inl (refl, refl)
Binds-concat (c ∷ bs) b = inr (Binds-concat bs b)

lookup-same :
    (bs : List SessionBinding) (sid host : Bytes)
    → lookup_binding bs sid host ≡ same_binding
    → Binds bs host sid
unfolding lookup_binding
lookup-same [] sid host h = cc
lookup-same (b ∷ bs) sid host h =
    ground
      (arith, list_eq_iff b.session_id sid, list_eq_iff b.host_key host, lookup-same bs sid host)

-- Forwarding is not ended, and no binding is taken away.
abbrev pub Extends : ConnectionContext → ConnectionContext → Type 0
Extends c c' =
    (not c.forwarded || c'.forwarded ≡ true)
    × ((more : List SessionBinding) × (c'.bindings ≡ c.bindings ++ more))

module _ (x : Crypto) where
  bind_session-FailsClosed :
      (r : Reader) (c : ConnectionContext) → FailsClosed x c (bind_session x r c)
  unfolding push_binding
  bind_session-FailsClosed r c =
      bind_session_cases x (FailsClosed x c) r c (λ e. inr (e, refl, refl, refl))
        λ q _ v.
          record_binding_cases (FailsClosed x c) q _ (λ e. inr (e, refl, refl, refl))
            (λ same. inl (refl, refl, (q, v, lookup-same c.bindings q.session_id q.host_key same)))
            λ free room. inl (refl, refl, (q, v, pushed q))
    where
      pushed :
          (q : BindRequest)
          → Binds
              (push_binding q (record c { binding_failed = true })).bindings
              q.host_key
              q.session_id
      pushed q = Binds-concat c.bindings (binding_of q)

  -- After a session binding request, whatever the bytes behind its name, either the answer is a
  -- success, the flag `binding_failed` is clear, and a binding whose signature was verified is among
  -- the bindings; or the answer is an error, the flag is set, and the bindings are as before.
  pub extension-FailsClosed :
      (request : Bytes) (r : Reader) (c : ConnectionContext)
      → read_string (new_reader request) ≡ ok (session_bind_extension, r)
      → FailsClosed x c (extension x request c)
  extension-FailsClosed request r c h =
      extension_cases x (FailsClosed x c) request c (λ e k. absurd (clash e (rw h at k)))
        (λ name r' k other. absurd (other_name name r' (rw h at k) other))
        λ r' _. bind_session-FailsClosed r' c
    where
      clash :
          (e : String)
          → ◌≡◌ {A = Result (Bytes × Reader)} (ok (session_bind_extension, r)) (err e)
          → ⊥
      clash e p = cc

      other_name :
          (name : Bytes) (r' : Reader)
          → ◌≡◌ {A = Result (Bytes × Reader)} (ok (session_bind_extension, r)) (ok (name, r'))
          → (name == session_bind_extension) ≡ false
          → ⊥
      other_name name r' p other = ground (arith, list_eq_iff name session_bind_extension)

  pub extension-Extends :
      (request : Bytes) (c : ConnectionContext) → Extends c (extension x request c).0
  unfolding push_binding
  extension-Extends request c =
      extension_cases x (λ p. Extends c p.0) request c (λ _ _. same) (λ _ _ _ _. same)
        λ r _.
          bind_session_cases x (λ p. Extends c p.0) r c (λ _. same)
            λ q _ _.
              record_binding_cases (λ p. Extends c p.0) q _ (λ _. same) (λ _. same) λ _ _. pushed q
    where
      same :
          (not c.forwarded || c.forwarded ≡ true)
          × ((more : List SessionBinding) × (c.bindings ≡ c.bindings ++ more))
      same = (ground arith, ([], sym (append-nil c.bindings)))

      pushed : (q : BindRequest) → Extends c (push_binding q (record c { binding_failed = true }))
      pushed q = (ground arith, (binding_of q ∷ [], refl))

  -- Over any requests a forwarded connection stays forwarded, and the bindings only grow.
  bind_all-Extends : (rs : List Bytes) (c : ConnectionContext) → Extends c (bind_all x rs c)
  bind_all-Extends [] c = (ground arith, ([], sym (append-nil c.bindings)))
  bind_all-Extends (r ∷ rs) c =
      let (f, (m, e)) = extension-Extends r c in
      let (g, (n, k)) = bind_all-Extends rs (extension x r c).0 in
      (ground (arith, f, g), (m ++ n, k ∙ (ap (λ bs. bs ++ n) e ∙ append_assoc c.bindings m n)))
