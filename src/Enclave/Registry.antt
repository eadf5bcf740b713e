-- ===== src/Enclave/Registry.antt =====
-- What stays true of the registry of src-tauri/src/secure_enclave.rs.
use keynoxis.Base.{
  ℕ, Bool, true, false, not, ◌&&◌, List, [], ◌∷◌, ◌++◌, String, ◌==◌, Nat_eq, List_eq, Result, ok,
  err, Bytes, any, all, retain, eq_ignore_ascii_case, ◌≡◌, refl, arith, ap, ◌∙◌, sym, Bool-cases,
  inl, inr, map, chars, ascii_lower, eq_left,
}
use keynoxis.State.{SshKey}
use keynoxis.Settings.{missing}
use keynoxis.Fido.Credentials.{Encoding}
use keynoxis.Enclave.{
  RegistryEntry, Registry, commit, created, create, renamed, rename, deleted, delete, is_named,
  is_key, is_other_key, clashes, rename_first,
}
use keynoxis.Enclave.Success.{entries_of, created-lem, renamed-lem, deleted-lem}

-- No two entries have the same name but for the case of letters, and none the same key.
abbrev is_apart : RegistryEntry → RegistryEntry → Bool
is_apart a b = not (eq_ignore_ascii_case a.name b.name) && not (a.encrypted_key == b.encrypted_key)

abbrev are_distinct : List RegistryEntry → Bool
are_distinct [] = true
are_distinct (entry ∷ entries) = all (is_apart entry) entries && are_distinct entries

abbrev pub IsDistinct : Registry → Type 0
IsDistinct registry = are_distinct (entries_of registry) ≡ true

list_eq_sym : (a b : List ℕ) → (a == b) ≡ (b == a)
list_eq_sym [] [] = refl
list_eq_sym [] (y ∷ b) = refl
list_eq_sym (x ∷ a) [] = refl
list_eq_sym (x ∷ a) (y ∷ b) = ground (arith, list_eq_sym a b)

case_sym : (a b : String) → eq_ignore_ascii_case a b ≡ eq_ignore_ascii_case b a
case_sym a b = list_eq_sym (map ascii_lower (chars a)) (map ascii_lower (chars b))

distinct-append :
    (new : RegistryEntry) (es : List RegistryEntry)
    → are_distinct es ≡ true
    → any (is_named new.name) es ≡ false
    → any (is_key new.encrypted_key) es ≡ false
    → are_distinct (es ++ (new ∷ [])) ≡ true
distinct-append new [] h n k = refl
distinct-append new (e ∷ es) h n k = ground (arith, distinct-append new es, apart-append es)
  where
    apart-append :
        (xs : List RegistryEntry)
        → all (is_apart e) xs ≡ true
        → is_apart e new ≡ true
        → all (is_apart e) (xs ++ (new ∷ [])) ≡ true
    apart-append [] a b = ground (arith, b)
    apart-append (x ∷ xs) a b = ground (arith, apart-append xs)

distinct-retain :
    (keep : RegistryEntry → Bool) (es : List RegistryEntry)
    → are_distinct es ≡ true
    → are_distinct (retain keep es) ≡ true
distinct-retain keep [] h = refl
distinct-retain keep (e ∷ es) h = ground (arith, distinct-retain keep es, apart-retain es)
  where
    apart-retain :
        (xs : List RegistryEntry)
        → all (is_apart e) xs ≡ true
        → all (is_apart e) (retain keep xs) ≡ true
    apart-retain [] a = refl
    apart-retain (x ∷ xs) a = ground (arith, apart-retain xs)

module _ (k : Bytes) (name : String) where
  -- The renamed entry is apart from those behind it.
  behind_renamed :
      (e : RegistryEntry) (es : List RegistryEntry)
      → (e.encrypted_key == k) ≡ true
      → all (is_apart e) es ≡ true
      → any (clashes k name) es ≡ false
      → all (is_apart (record e { name = name })) es ≡ true
  behind_renamed e [] h a c = refl
  behind_renamed e (q ∷ es) h a c = ground (
    arith,
    behind_renamed e es h,
    eq_left e.encrypted_key k q.encrypted_key h,
    list_eq_sym k q.encrypted_key,
    case_sym name q.name,
  )

  -- And those before it are apart from it.
  before_renamed :
      (e : RegistryEntry) (es : List RegistryEntry)
      → eq_ignore_ascii_case e.name name ≡ false
      → all (is_apart e) es ≡ true
      → all (is_apart e) (rename_first k name es) ≡ true
  before_renamed e [] h a = refl
  before_renamed e (q ∷ es) h a = ground (arith, before_renamed e es h)

  distinct-rename_first :
      (es : List RegistryEntry)
      → are_distinct es ≡ true
      → any (clashes k name) es ≡ false
      → are_distinct (rename_first k name es) ≡ true
  distinct-rename_first [] h c = refl
  distinct-rename_first (e ∷ es) h c = elim (Bool-cases (e.encrypted_key == k)) [
    | inl here ↦ rw here (ground (arith, behind_renamed e es here))
    | inr there ↦ rw there (ground (arith, distinct-rename_first es, before_renamed e es))
  ]

commit-IsDistinct :
    {A : Type 0} (write : Result (Unit {0})) (registry : Registry)
    (o : Result (List RegistryEntry × A))
    → IsDistinct registry
    → ((entries : List RegistryEntry) (a : A) → o ≡ ok (entries, a) → are_distinct entries ≡ true)
    → IsDistinct (commit write registry o).0
commit-IsDistinct (ok u) registry (ok (entries, a)) h f = f entries a refl
commit-IsDistinct (err e) registry (ok (entries, a)) h f = h
commit-IsDistinct write registry (err e) h f = h

-- What the registry goes through: it is missing at first, and each key that the Secure Enclave makes is
-- none that is registered.
pub data Reached : Registry → Type 0 where
  begin : Reached missing
  creation :
      {registry : Registry} (x : Encoding) (id point : Bytes) (write : Result (Unit {0}))
      (name : String)
      → any (is_key id) (entries_of registry) ≡ false
      → Reached registry
      → Reached (create x (ok (id, point)) write name registry).0
  renaming :
      {registry : Registry} (x : Encoding) (write : Result (Unit {0})) (k : SshKey) (name : String)
      → Reached registry
      → Reached (rename x write k name registry).0
  deletion :
      {registry : Registry} (authorized write : Result (Unit {0})) (k : SshKey)
      → Reached registry
      → Reached (delete authorized write k registry).0

create-IsDistinct :
    (x : Encoding) (id point : Bytes) (write : Result (Unit {0})) (name : String)
    (registry : Registry)
    → any (is_key id) (entries_of registry) ≡ false
    → IsDistinct registry
    → IsDistinct (create x (ok (id, point)) write name registry).0
unfolding create
create-IsDistinct x id point write name registry fresh h =
    commit-IsDistinct write registry (created x (ok (id, point)) name registry) h λ entries k o.
      let (new, m, n, free, b, e) = created-lem x (ok (id, point)) name registry o in
      let same : id ≡ new.encrypted_key = ap (λ r. elim r [ ok p ↦ p.0 | err x ↦ id ]) m in
      ap are_distinct e
      ∙ distinct-append new (entries_of registry) h (rw n free)
          (ap (λ i. any (is_key i) (entries_of registry)) (sym same) ∙ fresh)

rename-IsDistinct :
    (x : Encoding) (write : Result (Unit {0})) (k : SshKey) (name : String) (registry : Registry)
    → IsDistinct registry
    → IsDistinct (rename x write k name registry).0
unfolding rename
rename-IsDistinct x write k name registry h =
    commit-IsDistinct write registry (renamed x k name registry) h λ entries updated o.
      let (id, _, entry, free, _, _, e) = renamed-lem x k name registry o in
      ap are_distinct e ∙ distinct-rename_first id name (entries_of registry) h free

delete-IsDistinct :
    (authorized write : Result (Unit {0})) (k : SshKey) (registry : Registry)
    → IsDistinct registry
    → IsDistinct (delete authorized write k registry).0
unfolding delete
delete-IsDistinct authorized write k registry h =
    commit-IsDistinct write registry (deleted authorized k registry) h λ entries u o.
      let (_, (id, e)) = deleted-lem authorized k registry o in
      ap are_distinct e ∙ distinct-retain (is_other_key id) (entries_of registry) h

-- Over any creations, renamings and deletions, those that fail included, no two entries of the
-- registry have the same name, but for the case of ASCII letters, and no two have the same key; where
-- each key that the Secure Enclave makes is none that is registered.
pub Reached-IsDistinct : (registry : Registry) → Reached registry → IsDistinct registry
Reached-IsDistinct registry begin = refl
Reached-IsDistinct registry (creation {registry = before} x id point write name fresh r) =
    create-IsDistinct x id point write name before fresh (Reached-IsDistinct before r)
Reached-IsDistinct registry (renaming {registry = before} x write k name r) =
    rename-IsDistinct x write k name before (Reached-IsDistinct before r)
Reached-IsDistinct registry (deletion {registry = before} authorized write k r) =
    delete-IsDistinct authorized write k before (Reached-IsDistinct before r)
