-- ===== src/Agent/Session/Cases.antt =====
-- The branches of `extension`, as principles for the proofs about it.
use keynoxis.Base.{
  true, false, not, [], ◌∷◌, ◌≡◌, refl, Result, ok, err, Bytes, ◌==◌, List_eq, Nat_eq, list_eq_iff,
  Result-cases, inl, inr, String, Bool-cases, leb, length, ◌<◌, arith, if◌then◌else◌,
}
use keynoxis.Agent.Wire.{Reader, new_reader, read_string}
use keynoxis.Agent.Session.{
  ConnectionContext, Crypto, BindRequest, read_bind_request, record_binding, verify_binding,
  bind_session, extension, session_bind_extension, ssh_agent_failure, ssh_agent_success, Lookup,
  unbound, same_binding, conflict, lookup_binding, push_binding, max_session_bindings,
}

module _ {κ} (P : ConnectionContext × Result Bytes → Type κ) (q : BindRequest) where
  pub record_binding_cases :
      (c : ConnectionContext)
      → ((e : String) → P (c, err e))
      → (lookup_binding c.bindings q.session_id q.host_key ≡ same_binding
          → P (record c { binding_failed = false }, ok (ssh_agent_success ∷ [])))
      → (lookup_binding c.bindings q.session_id q.host_key ≡ unbound
          → length c.bindings < max_session_bindings
          → P (push_binding q c, ok (ssh_agent_success ∷ [])))
      → P (record_binding q c)
  unfolding record_binding
  record_binding_cases c refused again new =
      found (lookup_binding c.bindings q.session_id q.host_key) refl
    where
      found :
          (l : Lookup)
          → lookup_binding c.bindings q.session_id q.host_key ≡ l
          → P (record_binding q c)
      found same_binding e = rw (e, record_binding) (again e)
      found (conflict m) e = rw (e, record_binding) (refused m)
      found unbound e =
          rw (e, record_binding)
            (elim (Bool-cases (leb max_session_bindings (length c.bindings))) [
              | inl full ↦ rw full (refused "Too many SSH session bindings")
              | inr room ↦ rw room (new e (ground arith))
            ])

module _ {κ} (x : Crypto) (P : ConnectionContext × Result Bytes → Type κ) where
  pub bind_session_cases :
      (r : Reader) (c : ConnectionContext)
      → ((e : String) → P (record c { binding_failed = true }, err e))
      → ((q : BindRequest)
          → read_bind_request r ≡ ok q
          → verify_binding x q ≡ ok tt
          → P (record_binding q (record c { binding_failed = true })))
      → P (bind_session x r c)
  unfolding bind_session
  bind_session_cases r c refused bound = elim (Result-cases (read_bind_request r)) [
    | inr (e, h) ↦ rw (h, bind_session) (refused e)
    | inl (q, h) ↦ elim (Result-cases (verify_binding x q)) [
      | inr (e, k) ↦ rw (h, k, bind_session) (refused e)
      | inl (u, k) ↦ rw (h, k, bind_session) (bound q h k)
    ]
  ]

  pub extension_cases :
      (request : Bytes) (c : ConnectionContext)
      → ((e : String) → read_string (new_reader request) ≡ err e → P (c, err e))
      → ((name : Bytes) (r : Reader)
          → read_string (new_reader request) ≡ ok (name, r)
          → (name == session_bind_extension) ≡ false
          → P (c, ok (ssh_agent_failure ∷ [])))
      → ((r : Reader)
          → read_string (new_reader request) ≡ ok (session_bind_extension, r)
          → P (bind_session x r c))
      → P (extension x request c)
  unfolding extension
  extension_cases request c truncated unknown bind =
      elim (Result-cases (read_string (new_reader request))) [
        | inr (e, h) ↦ rw (h, extension) (truncated e h)
        | inl ((name, r), h) ↦ rw (h, extension) (named name r h)
      ]
    where
      named :
          (name : Bytes) (r : Reader)
          → read_string (new_reader request) ≡ ok (name, r)
          → P (
              if not (name == session_bind_extension)
              then (c, ok (ssh_agent_failure ∷ []))
              else bind_session x r c)
      named name r h = elim (Bool-cases (name == session_bind_extension)) [
        | inr other ↦ rw other (unknown name r h other)
        | inl same ↦ rw same (bind r (rw ((list_eq_iff name session_bind_extension).0 same) at h))
      ]
