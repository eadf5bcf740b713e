-- ===== src/Enclave/Listing.antt =====
-- The keys that src-tauri/src/secure_enclave.rs lists after it has created, renamed or deleted one.
use keynoxis.Base.{
  Bool, true, false, List, [], ◌∷◌, ◌++◌, Option, none, some, String, if◌then◌else◌, ◌==◌, Nat_eq,
  List_eq, Result, ok, err, map_ok, Bytes, find, ◌≡◌, refl, ap, ◌∙◌, sym, Bool-cases, inl, inr,
  subst,
}
use keynoxis.State.{SshKey, SecureEnclaveKeyHandle, secure_enclave_of}
use keynoxis.Settings.{stored}
use keynoxis.Ssh.{ecdsa_public_blob}
use keynoxis.Fido.Credentials.{Encoding}
use keynoxis.Enclave.{
  RegistryEntry, Registry, read_registry, commit, created, create, renamed, rename, is_key,
  rename_first, build_ssh_key, build_all, list, key_of,
}
use keynoxis.Enclave.Success.{entries_of, read-entries_of, bind-eq-ok, created-lem, renamed-lem}

commit-ok :
    {A : Type 0} (write : Result (Unit {0})) (registry : Registry)
    (o : Result (List RegistryEntry × A)) {after : Registry} {a : A}
    → commit write registry o ≡ (after, ok a)
    → (entries : List RegistryEntry) × (o ≡ ok (entries, a)) × (after ≡ stored entries)
commit-ok (ok u) registry (ok (entries, b)) {after} {a} h = (
  entries,
  ap (λ p. elim p.1 [ ok c ↦ ok (entries, c) | err e ↦ err e ]) h,
  ap (λ p. p.0) (sym h),
)
commit-ok (err e) registry (ok (entries, b)) h = cc
commit-ok write registry (err e) h = cc

-- What holds of a result holds of its value.
of-ok : {A B : Type 0} (f : A → B) {a b : A} → ◌≡◌ {A = Result A} (ok a) (ok b) → f a ≡ f b
of-ok f {a} {b} h = ap (λ r. elim r [ ok c ↦ f c | err e ↦ f a ]) h

find-first :
    (b : Bool) (e entry : RegistryEntry) (o : Option RegistryEntry)
    → b ≡ true
    → (if b then some e else o) ≡ some entry
    → e ≡ entry
find-first true e entry o h k = ap (λ r. elim r [ some c ↦ c | none ↦ e ]) k
find-first false e entry o h k = cc

find-rest :
    (b : Bool) (e entry : RegistryEntry) (o : Option RegistryEntry)
    → b ≡ false
    → (if b then some e else o) ≡ some entry
    → o ≡ some entry
find-rest true e entry o h k = cc
find-rest false e entry o h k = k

rename-here :
    (id : Bytes) (name : String) (e : RegistryEntry) (es : List RegistryEntry)
    → (e.encrypted_key == id) ≡ true
    → rename_first id name (e ∷ es) ≡ record e { name = name } ∷ es
rename-here id name e es h = rw h refl

rename-there :
    (id : Bytes) (name : String) (e : RegistryEntry) (es : List RegistryEntry)
    → (e.encrypted_key == id) ≡ false
    → rename_first id name (e ∷ es) ≡ e ∷ rename_first id name es
rename-there id name e es h = rw h refl

module _ (x : Encoding) where
  build_all-cons :
      (e : RegistryEntry) (es : List RegistryEntry) {k : SshKey} {ks : List SshKey}
      → build_ssh_key x e ≡ ok k
      → build_all x es ≡ ok ks
      → build_all x (e ∷ es) ≡ ok (k ∷ ks)
  build_all-cons e es b l = rw (b, l) refl

  listed :
      (registry : Registry) {ks : List SshKey}
      → list x registry ≡ ok ks
      → build_all x (entries_of registry) ≡ ok ks
  unfolding list
  listed registry {ks} h =
      let (es, r, b) = bind-eq-ok (read_registry registry) _ h in
      ap (build_all x) (sym (read-entries_of registry r)) ∙ b

  build_all-append :
      (es : List RegistryEntry) (new : RegistryEntry) {ks : List SshKey} {k : SshKey}
      → build_all x es ≡ ok ks
      → build_ssh_key x new ≡ ok k
      → build_all x (es ++ (new ∷ [])) ≡ ok (ks ++ (k ∷ []))
  build_all-append [] new {ks} {k} h b = rw b (of-ok (λ l. ok (l ++ (k ∷ []))) h)
  build_all-append (e ∷ es) new {ks} {k} h b =
      let (k0, b0, h0) = bind-eq-ok (build_ssh_key x e) _ h in
      let (ks0, h1, h2) = bind-eq-ok (build_all x es) _ h0 in
      build_all-cons e (es ++ (new ∷ [])) b0 (build_all-append es new h1 b)
      ∙ of-ok (λ l. ok (l ++ (k ∷ []))) h2

  -- A key that was created is the last one that is listed from then on, and the others are as before.
  pub create-list :
      (made : Result (Bytes × Bytes)) (write : Result (Unit {0})) (name : String)
      (registry after : Registry) (k : SshKey) (ks : List SshKey)
      → create x made write name registry ≡ (after, ok k)
      → list x registry ≡ ok ks
      → list x after ≡ ok (ks ++ (k ∷ []))
  unfolding create list
  create-list made write name registry after k ks h l =
      let (entries, o, s) = commit-ok write registry (created x made name registry) h in
      let (new, _, _, _, b, e) = created-lem x made name registry o in
      ap (list x) s
      ∙ (ap (build_all x) e ∙ build_all-append (entries_of registry) new (listed registry l) b)

  -- What a renaming leaves of a key.
  abbrev pub SameKey : SshKey → SshKey → Type 0
  SameKey k k' =
      (k'.fingerprint ≡ k.fingerprint)
      × (k'.public_blob ≡ k.public_blob)
      × (k'.handle ≡ k.handle)
      × (k'.enabled ≡ k.enabled)

  -- One key of a list, the one with this handle, is another in the other list.
  pub record IsReplaced (handle : Result SecureEnclaveKeyHandle) (name : String) (updated : SshKey)
      (ks ks' : List SshKey) : Type 0 where
    pub before : List SshKey
    pub old : SshKey
    pub behind : List SshKey
    pub was : ks ≡ before ++ (old ∷ behind)
    pub is_now : ks' ≡ before ++ (updated ∷ behind)
    pub is_asked : secure_enclave_of old ≡ handle
    pub same : SameKey old updated
    pub named : updated.comment ≡ some name

  built-Same :
      (name : String) (entry : RegistryEntry) {old updated : SshKey}
      → build_ssh_key x entry ≡ ok old
      → build_ssh_key x (record entry { name = name }) ≡ ok updated
      → SameKey old updated × (updated.comment ≡ some name)
  unfolding build_ssh_key
  built-Same name entry {old} {updated} h k = go (ecdsa_public_blob entry.public_point) h k
    where
      go :
          (r : Result Bytes)
          → map_ok (key_of x entry) r ≡ ok old
          → map_ok (key_of x (record entry { name = name })) r ≡ ok updated
          → SameKey old updated × (updated.comment ≡ some name)
      go (ok blob) p q = (
        (
          of-ok (λ (s : SshKey). s.fingerprint) (sym q) ∙ of-ok (λ (s : SshKey). s.fingerprint) p,
          of-ok (λ (s : SshKey). s.public_blob) (sym q) ∙ of-ok (λ (s : SshKey). s.public_blob) p,
          of-ok (λ (s : SshKey). s.handle) (sym q) ∙ of-ok (λ (s : SshKey). s.handle) p,
          of-ok (λ (s : SshKey). s.enabled) (sym q) ∙ of-ok (λ (s : SshKey). s.enabled) p,
        ),
        of-ok (λ (s : SshKey). s.comment) (sym q),
      )
      go (err e) p q = cc

  built-handle :
      (entry : RegistryEntry) {k : SshKey}
      → build_ssh_key x entry ≡ ok k
      → secure_enclave_of k ≡ ok (record { encrypted_key = entry.encrypted_key })
  unfolding build_ssh_key
  built-handle entry {k} h = go (ecdsa_public_blob entry.public_point) h
    where
      go :
          (r : Result Bytes)
          → map_ok (key_of x entry) r ≡ ok k
          → secure_enclave_of k ≡ ok (record { encrypted_key = entry.encrypted_key })
      go (ok blob) p = of-ok secure_enclave_of (sym p)
      go (err e) p = cc

  build_all-rename_first :
      (id : Bytes) (name : String) (entry : RegistryEntry) (updated : SshKey)
      (es : List RegistryEntry) (ks : List SshKey)
      → find (is_key id) es ≡ some entry
      → build_ssh_key x (record entry { name = name }) ≡ ok updated
      → build_all x es ≡ ok ks
      → (ks' : List SshKey) × (build_all x (rename_first id name es) ≡ ok ks')
        × IsReplaced (ok (record { encrypted_key = id })) name updated ks ks'
  build_all-rename_first id name entry updated [] ks f b l = cc
  build_all-rename_first id name entry updated (e ∷ es) ks f b l =
      let (k0, b0, h0) = bind-eq-ok (build_ssh_key x e) _ l in
      let (ks0, h1, h2) = bind-eq-ok (build_all x es) _ h0 in
      elim (Bool-cases (e.encrypted_key == id)) [
        | inl here ↦
            let same : e ≡ entry = find-first _ e entry _ here f in
            let b1 =
              ap (λ (n : RegistryEntry). build_ssh_key x (record n { name = name })) same ∙ b in
            let (s, n) = built-Same name e b0 b1 in
            (
              updated ∷ ks0,
              ap (build_all x) (rename-here id name e es here)
                  ∙ build_all-cons (record e { name = name }) es b1 h1,
              record {
                before = [];
                old = k0;
                behind = ks0;
                was = of-ok (λ l. l) (sym h2);
                is_now = refl;
                is_asked =
                    built-handle e b0
                    ∙ ap (λ k. ok (record { encrypted_key = k }))
                        ((List_eq.test_iff e.encrypted_key id).0 here);
                same = s;
                named = n;
              },
            )
        | inr there ↦
            let (ks', l', r) =
              build_all-rename_first id name entry updated es ks0 (find-rest _ e entry _ there f) b
                h1 in
            (
              k0 ∷ ks',
              ap (build_all x) (rename-there id name e es there)
                  ∙ build_all-cons e (rename_first id name es) b0 l',
              record {
                before = k0 ∷ r.before;
                old = r.old;
                behind = r.behind;
                was = of-ok (λ l. l) (sym h2) ∙ ap (◌∷◌ k0) r.was;
                is_now = ap (◌∷◌ k0) r.is_now;
                is_asked = r.is_asked;
                same = r.same;
                named = r.named;
              },
            )
      ]

  -- After a renaming, one key of those that are listed, with the handle of the key that was asked for,
  -- is another: it has the new name, and the fingerprint, the public key and the handle that it had;
  -- and the others are as they were, in their places.
  pub rename-list :
      (write : Result (Unit {0})) (k : SshKey) (name : String) (registry after : Registry)
      (updated : SshKey) (ks : List SshKey)
      → rename x write k name registry ≡ (after, ok updated)
      → list x registry ≡ ok ks
      → (ks' : List SshKey) × (list x after ≡ ok ks')
        × IsReplaced (secure_enclave_of k) name updated ks ks'
  unfolding rename list
  rename-list write k name registry after updated ks h l =
      let (entries, o, s) = commit-ok write registry (renamed x k name registry) h in
      let (id, g, entry, _, f, b, e) = renamed-lem x k name registry o in
      let (ks', l', r) =
        build_all-rename_first id name entry updated (entries_of registry) ks f b
          (listed registry l) in
      (
        ks',
        ap (list x) s ∙ (ap (build_all x) e ∙ l'),
        subst (λ a. IsReplaced a name updated ks ks') (sym g) r,
      )
