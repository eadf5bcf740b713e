-- ===== src/Enclave/Success.antt =====
-- What the operations of src-tauri/src/secure_enclave.rs have worked out when they succeed.
use keynoxis.Base.{
  Bool, true, false, List, [], ◌∷◌, ◌++◌, Option, none, some, String, if◌then◌else◌, ◌==◌, Nat_eq,
  List_eq, Result, ok, err, ok_or, Bytes, length, any, find, retain, ◌≡◌, refl, ap, ◌∙◌, sym,
}
use keynoxis.State.{SshKey, secure_enclave_of}
use keynoxis.Settings.{missing, unreadable, stored}
use keynoxis.Fido.Credentials.{Encoding}
use keynoxis.Enclave.{
  ◌>>=◌, refuse_if, validate_name, build_ssh_key, RegistryEntry, Registry, read_registry, created,
  renamed, deleted, is_named, is_key, is_other_key, clashes, rename_first,
}

-- A file that is missing or cannot be read has no entries.
abbrev pub entries_of : Registry → List RegistryEntry
entries_of missing = []
entries_of (unreadable e) = []
entries_of (stored entries) = entries

-- What succeeds as a whole has succeeded at its first step.
pub bind-eq-ok :
    {A B : Type 0} (step : Result A) (rest : A → Result B) {out : B}
    → (step >>= rest) ≡ ok out
    → (middle : A) × (step ≡ ok middle) × (rest middle ≡ ok out)
bind-eq-ok (err e) rest whole = cc
bind-eq-ok (ok middle) rest whole = (middle, refl, whole)

-- A test that was passed did not hold.
pub test-eq-ok :
    {A : Type 0} (b : Bool) (e : String) (next : Result A) {a : A}
    → (refuse_if b e >>= λ _. next) ≡ ok a
    → (b ≡ false) × (next ≡ ok a)
test-eq-ok true e next h = cc
test-eq-ok false e next h = (refl, h)

pub same-pair :
    {A : Type 0} {es es' : List RegistryEntry} {a a' : A}
    → ◌≡◌ {A = Result (List RegistryEntry × A)} (ok (es, a)) (ok (es', a'))
    → (es ≡ es') × (a ≡ a')
same-pair {es} {es'} {a} {a'} h =
    (ap (λ r. elim r [ ok p ↦ p.0 | err e ↦ es ]) h, ap (λ r. elim r [ ok p ↦ p.1 | err e ↦ a ]) h)

pub read-entries_of :
    (registry : Registry) {entries : List RegistryEntry}
    → read_registry registry ≡ ok entries
    → entries ≡ entries_of registry
read-entries_of missing {entries} h = ap (λ r. elim r [ ok es ↦ es | err e ↦ [] ]) (sym h)
read-entries_of (unreadable e) {entries} h = cc
read-entries_of (stored es) {entries} h = ap (λ r. elim r [ ok xs ↦ xs | err e ↦ [] ]) (sym h)

-- The entries that a successful creation leaves, and its key.
pub created-lem :
    (x : Encoding) (made : Result (Bytes × Bytes)) (name : String) (registry : Registry)
    {entries : List RegistryEntry} {k : SshKey}
    → created x made name registry ≡ ok (entries, k)
    → (new : RegistryEntry) × (made ≡ ok (new.encrypted_key, new.public_point))
      × (new.name ≡ name)
      × (any (is_named name) (entries_of registry) ≡ false)
      × (build_ssh_key x new ≡ ok k)
      × (entries ≡ entries_of registry ++ (new ∷ []))
created-lem x made name registry {entries} {k} h =
    let (u, v, h1) = bind-eq-ok (validate_name name) _ h in
    let (es, r, h2) = bind-eq-ok (read_registry registry) _ h1 in
    let (free, h3) = test-eq-ok (any (is_named name) es) _ _ h2 in
    let (p, m, h4) = bind-eq-ok made _ h3 in
    let new : RegistryEntry = record { name = name; public_point = p.1; encrypted_key = p.0 } in
    let (k', b, h5) = bind-eq-ok (build_ssh_key x new) _ h4 in
    let (e, i) = same-pair h5 in
    let q = read-entries_of registry r in
    (
      new,
      m,
      refl,
      ap (any (is_named name)) (sym q) ∙ free,
      b ∙ ap ok i,
      sym e ∙ ap (λ l. l ++ (new ∷ [])) q,
    )

pub renamed-lem :
    (x : Encoding) (k : SshKey) (name : String) (registry : Registry) {entries : List RegistryEntry}
    {updated : SshKey}
    → renamed x k name registry ≡ ok (entries, updated)
    → (id : Bytes) × (secure_enclave_of k ≡ ok (record { encrypted_key = id }))
      × (entry : RegistryEntry) × (any (clashes id name) (entries_of registry) ≡ false)
      × (find (is_key id) (entries_of registry) ≡ some entry)
      × (build_ssh_key x (record entry { name = name }) ≡ ok updated)
      × (entries ≡ rename_first id name (entries_of registry))
renamed-lem x k name registry {entries} {updated} h =
    let (u, v, h1) = bind-eq-ok (validate_name name) _ h in
    let (handle, g, h2) = bind-eq-ok (secure_enclave_of k) _ h1 in
    let (es, r, h3) = bind-eq-ok (read_registry registry) _ h2 in
    let id = handle.encrypted_key in
    let (free, h4) = test-eq-ok (any (clashes id name) es) _ _ h3 in
    let (entry, f, h5) =
      bind-eq-ok (ok_or (find (is_key id) es) "Secure Enclave key metadata was not found") _ h4 in
    let (updated', b, h6) = bind-eq-ok (build_ssh_key x (record entry { name = name })) _ h5 in
    let (e, i) = same-pair h6 in
    let q = read-entries_of registry r in
    (
      id,
      g,
      entry,
      ap (any (clashes id name)) (sym q) ∙ free,
      ap (find (is_key id)) (sym q) ∙ found (find (is_key id) es) f,
      b ∙ ap ok i,
      sym e ∙ ap (rename_first id name) q,
    )
  where
    found :
        (o : Option RegistryEntry) {entry : RegistryEntry}
        → ok_or o "Secure Enclave key metadata was not found" ≡ ok entry
        → o ≡ some entry
    found none h = cc
    found (some e) {entry} h = ap (λ r. elim r [ ok a ↦ some a | err x ↦ none ]) h

pub deleted-lem :
    (authorized : Result (Unit {0})) (k : SshKey) (registry : Registry)
    {entries : List RegistryEntry} {u : Unit {0}}
    → deleted authorized k registry ≡ ok (entries, u)
    → (authorized ≡ ok tt)
      × ((id : Bytes) × (entries ≡ retain (is_other_key id) (entries_of registry)))
deleted-lem authorized k registry {entries} h =
    let (t, a, h1) = bind-eq-ok authorized _ h in
    let (handle, g, h2) = bind-eq-ok (secure_enclave_of k) _ h1 in
    let (es, r, h3) = bind-eq-ok (read_registry registry) _ h2 in
    let id = handle.encrypted_key in
    let q = read-entries_of registry r in
    (
      a,
      (
        id,
        kept (length (retain (is_other_key id) es) == length es) _ h3
            ∙ ap (retain (is_other_key id)) q,
      ),
    )
  where
    kept :
        (b : Bool) (es : List RegistryEntry) {u : Unit {0}}
        → ◌≡◌ {A = Result (List RegistryEntry × Unit {0})}
            (if◌then◌else◌ {A = Result (List RegistryEntry × Unit {0})} b
              (err "Secure Enclave key metadata was not found")
              (ok (es, tt)))
            (ok (entries, u))
        → entries ≡ es
    kept true es h = cc
    kept false es {u} h = let (e, _) = same-pair {A = Unit {0}} {a = tt} {a' = u} h in sym e
