-- ===== src/Agent/Session/Invariant.antt =====
-- What every connection keeps of its session bindings (`extension` of
-- src-tauri/src/agent/server.rs).
use keynoxis.Base.{
  ◌≤◌, ◌<◌, Bool, true, false, ◌||◌, List, [], ◌∷◌, ◌++◌, Option, none, some, ◌≡◌, ◌≢◌, refl, arith,
  Result, ok, err, Bytes, length, length-append, All, any, List_eq, Nat_eq, list_eq_iff,
  Result-cases, inl, inr, String, is_empty, subst,
}
use keynoxis.Agent.Wire.{read_byte, Reader, read_string}
use keynoxis.Agent.Session.Cases.{record_binding_cases, bind_session_cases, extension_cases}
use keynoxis.Agent.Session.{
  SessionBinding, ConnectionContext, default_context, Crypto, BindRequest, read_bind_request,
  unbound, lookup_binding, record_binding, session_host_key, verify_binding, extension,
  max_session_bindings, max_session_id, and_read, binding_of, push_binding, check_signature,
}

-- All but the last binding forward: nothing follows a binding for authentication.
abbrev pub Chain : List SessionBinding → Type 0
Chain [] = Unit
Chain (b ∷ []) = Unit
Chain (b ∷ c ∷ bs) = (b.forwarding ≡ true) × Chain (c ∷ bs)

-- No two bindings have the same session.
abbrev pub Distinct : List SessionBinding → Type 0
Distinct [] = Unit
Distinct (b ∷ bs) = All (λ (c : SessionBinding). b.session_id ≢ c.session_id) bs × Distinct bs

abbrev pub forwards : SessionBinding → Bool
forwards b = b.forwarding

module _ (x : Crypto) where
  -- The host key of a binding signed its session, which has 1 to 128 bytes.
  pub record IsAuthentic (b : SessionBinding) : Type 0 where
    pub key : x.KeyData
    pub signature : x.Signature
    pub key_of : session_host_key x b.host_key ≡ ok key
    pub verified : x.verify key b.session_id signature ≡ true
    pub nonempty : 0 < length b.session_id
    pub short : length b.session_id ≤ max_session_id

  pub record IsSound (c : ConnectionContext) : Type 0 where
    pub bounded : length c.bindings ≤ max_session_bindings
    pub chain : Chain c.bindings
    pub distinct : Distinct c.bindings
    pub authentic : All IsAuthentic c.bindings
    pub forwarded_is : c.forwarded ≡ any forwards c.bindings

pub lookup-unbound :
    (bs : List SessionBinding) (sid host : Bytes)
    → lookup_binding bs sid host ≡ unbound
    → All (λ b. (b.forwarding ≡ true) × (b.session_id ≢ sid)) bs
unfolding lookup_binding
lookup-unbound [] sid host h = tt
lookup-unbound (b ∷ bs) sid host h =
    ground (arith, list_eq_iff b.session_id sid, lookup-unbound bs sid host)

Chain-concat :
    (bs : List SessionBinding) (b : SessionBinding) (sid : Bytes)
    → All (λ b. (b.forwarding ≡ true) × (b.session_id ≢ sid)) bs
    → Chain (bs ++ b ∷ [])
Chain-concat [] b sid h = tt
Chain-concat (c ∷ []) b sid h = (h.0.0, tt)
Chain-concat (c ∷ d ∷ bs) b sid h = (h.0.0, Chain-concat (d ∷ bs) b sid h.1)

All-concat {κ} :
    {A : Type 0} (P : A → Type κ) (xs : List A) (y : A) → All P xs → P y → All P (xs ++ y ∷ [])
All-concat P [] y h k = (k, tt)
All-concat P (x ∷ xs) y h k = (h.0, All-concat P xs y h.1 k)

Distinct-concat :
    (bs : List SessionBinding) (b : SessionBinding)
    → Distinct bs
    → All (λ c. (c.forwarding ≡ true) × (c.session_id ≢ b.session_id)) bs
    → Distinct (bs ++ b ∷ [])
Distinct-concat [] b d h = (tt, tt)
Distinct-concat (c ∷ bs) b d h =
    (All-concat (λ e. c.session_id ≢ e.session_id) bs b d.0 h.0.1, Distinct-concat bs b d.1 h.1)

any-concat :
    {A : Type 0} (p : A → Bool) (xs : List A) (y : A) → any p (xs ++ y ∷ []) ≡ (any p xs || p y)
any-concat p [] y = ground arith
any-concat p (x ∷ xs) y = ground (arith, any-concat p xs y)

-- A request that passes the checks of `extension` names a session of 1 to 128 bytes.
abbrev Sized : Result BindRequest → Type 0
Sized (ok q) = (0 < length q.session_id) × (length q.session_id ≤ max_session_id)
Sized (err e) = Unit

nonempty-length : (s : Bytes) → is_empty s ≡ false → 0 < length s
nonempty-length [] h = cc
nonempty-length (b ∷ s) h = omega arith

and_read-Sized :
    {A B : Type 0} (m : Result (A × B)) (f : A → B → Result BindRequest)
    → ((a : A) (b : B) → Sized (f a b))
    → Sized (and_read m f)
and_read-Sized (ok (a, b)) f h = h a b
and_read-Sized (err e) f h = tt

read_bind_request-Sized : (r : Reader) → Sized (read_bind_request r)
unfolding read_bind_request
read_bind_request-Sized r = and_read-Sized (read_string r) _ λ host r1.
    and_read-Sized (read_string r1) _ λ sid r2.
      and_read-Sized (read_string r2) _
        λ sig r3. and_read-Sized (read_byte r3) _ λ fwd r4. ground (arith, nonempty-length sid)

module _ (x : Crypto) where
  pub verify_binding-ok :
      (q : BindRequest)
      → verify_binding x q ≡ ok tt
      → (k : x.KeyData) × (g : x.Signature) × (session_host_key x q.host_key ≡ ok k)
        × (x.verify k q.session_id g ≡ true)
  unfolding verify_binding
  verify_binding-ok q v = elim (Result-cases (session_host_key x q.host_key)) [
    | inr (e, h) ↦ absurd (refused e (rw h at v))
    | inl (k, h) ↦ signed k h (x.signature_from_bytes q.signature) (rw h at v)
  ]
    where
      refused : (e : String) → ◌≡◌ {A = Result (Unit {0})} (err e) (ok tt) → ⊥
      refused e p = cc

      signed :
          (k : x.KeyData)
          → session_host_key x q.host_key ≡ ok k
          → (o : Option x.Signature) → check_signature x q k o ≡ ok tt
          → (k : x.KeyData) × (g : x.Signature) × (session_host_key x q.host_key ≡ ok k)
            × (x.verify k q.session_id g ≡ true)
      signed k h none p = cc
      signed k h (some g) p = (k, g, h, ground arith)

  push_binding-IsSound :
      (q : BindRequest) (c : ConnectionContext)
      → IsSound x c
      → (0 < length q.session_id) × (length q.session_id ≤ max_session_id)
      → verify_binding x q ≡ ok tt
      → lookup_binding c.bindings q.session_id q.host_key ≡ unbound
      → length c.bindings < max_session_bindings
      → IsSound x (push_binding q c)
  unfolding push_binding
  push_binding-IsSound q c s size v free room =
      let (k, g, of_key, good) = verify_binding-ok q v in
      let b = binding_of q in
      let old = lookup-unbound c.bindings q.session_id q.host_key free in
      record {
        bounded = omega (arith, length-append c.bindings (b ∷ []));
        chain = Chain-concat c.bindings b q.session_id old;
        distinct = Distinct-concat c.bindings b s.distinct old;
        authentic = All-concat (IsAuthentic x) c.bindings b s.authentic (record {
          key = k;
          signature = g;
          key_of = of_key;
          verified = good;
          nonempty = size.0;
          short = size.1;
        });
        forwarded_is = ground (arith, any-concat forwards c.bindings b, s.forwarded_is);
      }

  record_binding-IsSound :
      (q : BindRequest) (c : ConnectionContext)
      → IsSound x c
      → (0 < length q.session_id) × (length q.session_id ≤ max_session_id)
      → verify_binding x q ≡ ok tt
      → IsSound x (record_binding q c).0
  record_binding-IsSound q c s size v =
      record_binding_cases (λ p. IsSound x p.0) q c (λ _. s)
        (λ _. record {
          bounded = s.bounded;
          chain = s.chain;
          distinct = s.distinct;
          authentic = s.authentic;
          forwarded_is = s.forwarded_is;
        })
        λ free room. push_binding-IsSound q c s size v free room

  -- Whatever request arrives, the context stays sound.
  pub extension-IsSound :
      (request : Bytes) (c : ConnectionContext) → IsSound x c → IsSound x (extension x request c).0
  extension-IsSound request c s =
      extension_cases x (λ p. IsSound x p.0) request c (λ e _. s) (λ _ _ _ _. s)
        λ r _.
          bind_session_cases x (λ p. IsSound x p.0) r c (λ e. failed)
            λ q h v. record_binding-IsSound q _ failed (subst Sized h (read_bind_request-Sized r)) v
    where
      failed : IsSound x (record c { binding_failed = true })
      failed = record {
        bounded = s.bounded;
        chain = s.chain;
        distinct = s.distinct;
        authentic = s.authentic;
        forwarded_is = s.forwarded_is;
      }

  -- The contexts of a connection over any requests.
  abbrev pub bind_all : List Bytes → ConnectionContext → ConnectionContext
  bind_all [] c = c
  bind_all (r ∷ rs) c = bind_all rs (extension x r c).0

  bind_all_keep :
      (rs : List Bytes) (c : ConnectionContext) → IsSound x c → IsSound x (bind_all rs c)
  bind_all_keep [] c s = s
  bind_all_keep (r ∷ rs) c s = bind_all_keep rs _ (extension-IsSound r c s)

  -- After any requests of a connection there are at most 16 bindings; all but the last forward; no
  -- session is bound twice; each session identifier has 1 to 128 bytes and was signed by its host
  -- key; and the connection counts as forwarded exactly if one of the bindings forwards.
  pub bind_all-IsSound : (rs : List Bytes) → IsSound x (bind_all rs default_context)
  bind_all-IsSound rs = bind_all_keep rs default_context (record {
    bounded = omega arith;
    chain = tt;
    distinct = tt;
    authentic = tt;
    forwarded_is = refl;
  })
