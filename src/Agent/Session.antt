-- ===== src/Agent/Session.antt =====
-- src-tauri/src/agent/server.rs: `ConnectionContext` and the `session-bind@openssh.com` extension.
-- The keys and signatures of the crates `ssh_key` and `signature` are parameters.
pub mod Cases
pub mod Invariant
pub mod Binding
use keynoxis.Base.{
  ℕ, suc, ◌+◌, Bool, true, false, not, ◌||◌, List, [], ◌∷◌, ◌++◌, Option, none, some, if◌then◌else◌,
  leb, ltb, Result, ok, err, Bytes, length, is_empty, ◌==◌, as_bytes, ◌≤◌, ◌≡◌, String, Nat_eq,
  List_eq,
}
use keynoxis.Agent.Wire.{Reader, new_reader, read_string, read_byte, at_end}

abbrev pub ssh_agent_failure : ℕ
ssh_agent_failure = 5

abbrev pub ssh_agent_success : ℕ
ssh_agent_success = 6

abbrev pub session_bind_extension : Bytes
session_bind_extension = as_bytes "session-bind@openssh.com"

abbrev pub max_session_bindings : ℕ
max_session_bindings = 16

abbrev pub max_session_id : ℕ
max_session_id = 128

pub record SessionBinding : Type 0 where
  pub host_key : Bytes
  pub session_id : Bytes
  pub forwarding : Bool

pub record ConnectionContext : Type 0 where
  pub bindings : List SessionBinding
  pub binding_failed : Bool
  pub forwarded : Bool

abbrev pub default_context : ConnectionContext
default_context = record { bindings = []; binding_failed = false; forwarded = false }

-- What the code calls of the crates: a public key and a certificate from their bytes, a signature
-- from its bytes, and the check of a signature over a message.
pub record Crypto : Type 1 where
  pub KeyData : Type 0
  pub Signature : Type 0
  pub public_key_from_bytes : Bytes → Option KeyData
  pub certificate_from_bytes : Bytes → Option KeyData
  pub signature_from_bytes : Bytes → Option Signature
  pub verify : KeyData → Bytes → Signature → Bool

-- A parsed request of the extension, behind its name.
pub record BindRequest : Type 0 where
  pub host_key : Bytes
  pub session_id : Bytes
  pub signature : Bytes
  pub forwarding : ℕ

infixl 5 ◌>>=◌
abbrev ◌>>=◌ {ℓ κ} : {A : Type ℓ} {B : Type κ} → Result A → (A → Result B) → Result B
ok a >>= f = f a
err e >>= f = err e

abbrev pub and_read {ℓ} :
    {A B : Type 0} {C : Type ℓ} → Result (A × B) → (A → B → Result C) → Result C
and_read (ok (a, b)) f = f a b
and_read (err e) f = err e

-- The reads of `extension` behind the name, up to the checks of the identifier.
unfoldable pub read_bind_request : Reader → Result BindRequest
read_bind_request r0 = and_read (read_string r0) λ host_key r1.
    and_read (read_string r1) λ session_id r2. and_read (read_string r2) λ signature r3.
      and_read (read_byte r3) λ forwarding r4.
        if not (at_end r4)
        then err "Trailing data in SSH session binding"
        else if is_empty session_id || ltb max_session_id (length session_id)
        then err "Invalid SSH session identifier"
        else ok (record {
          host_key = host_key;
          session_id = session_id;
          signature = signature;
          forwarding = forwarding;
        })

-- What the loop over the bindings finds.
pub data Lookup : Type 0 where
  unbound same_binding : Lookup
  conflict : String → Lookup

unfoldable pub lookup_binding : List SessionBinding → Bytes → Bytes → Lookup
lookup_binding [] session_id host_key = unbound
lookup_binding (b ∷ bs) session_id host_key =
    let rest = lookup_binding bs session_id host_key in
    if not b.forwarding
    then conflict "SSH connection was already bound for authentication"
    else if b.session_id == session_id
    then (if b.host_key == host_key
        then same_binding
        else conflict "SSH session identifier is bound to another host key")
    else rest

-- The binding that a request asks for.
abbrev pub binding_of : BindRequest → SessionBinding
binding_of q = record {
  host_key = q.host_key;
  session_id = q.session_id;
  forwarding = not (q.forwarding == 0);
}

unfoldable pub push_binding : BindRequest → ConnectionContext → ConnectionContext
push_binding q c = record c {
  bindings = c.bindings ++ binding_of q ∷ [];
  forwarded = c.forwarded || not (q.forwarding == 0);
  binding_failed = false;
}

-- The end of `extension`, on a request whose signature was verified.
unfoldable pub record_binding : BindRequest → ConnectionContext → ConnectionContext × Result Bytes
record_binding q c = elim (lookup_binding c.bindings q.session_id q.host_key) [
  | same_binding ↦ (record c { binding_failed = false }, ok (ssh_agent_success ∷ []))
  | conflict e ↦ (c, err e)
  | unbound ↦
      if leb max_session_bindings (length c.bindings)
      then (c, err "Too many SSH session bindings")
      else (push_binding q c, ok (ssh_agent_success ∷ []))
]

module _ (x : Crypto) where
  unfoldable pub session_host_key : Bytes → Result x.KeyData
  session_host_key host_key = elim (x.public_key_from_bytes host_key) [
    | some k ↦ ok k
    | none ↦ elim (x.certificate_from_bytes host_key) [
      | some k ↦ ok k
      | none ↦ err "Invalid SSH session host key"
    ]
  ]

  abbrev pub check_signature : BindRequest → x.KeyData → Option x.Signature → Result (Unit {0})
  check_signature q k none = err "Invalid SSH session signature"
  check_signature q k (some s) =
      if x.verify k q.session_id s then ok tt else err "SSH session signature verification failed"

  -- The host key signed the session identifier.
  unfoldable pub verify_binding : BindRequest → Result (Unit {0})
  verify_binding q =
      session_host_key q.host_key >>= λ k. check_signature q k (x.signature_from_bytes q.signature)

  -- `extension` behind the name: `binding_failed` is set first.
  unfoldable pub bind_session : Reader → ConnectionContext → ConnectionContext × Result Bytes
  bind_session r c =
      let failed = record c { binding_failed = true } in
      elim (read_bind_request r) [
        | err e ↦ (failed, err e)
        | ok q ↦ elim (verify_binding q) [
          | err e ↦ (failed, err e)
          | ok _ ↦ record_binding q failed
        ]
      ]

  unfoldable pub extension : Bytes → ConnectionContext → ConnectionContext × Result Bytes
  extension request c = elim (read_string (new_reader request)) [
    | err e ↦ (c, err e)
    | ok (name, r) ↦
        if not (name == session_bind_extension)
        then (c, ok (ssh_agent_failure ∷ []))
        else bind_session r c
  ]
