-- ===== src/Fido/Resident/Listed.antt =====
-- What each key is that src-tauri/src/fido/resident.rs lists.
use mathlib.Core.List.{Memᴰ}
use keynoxis.Base.{
  ℕ, ◌%◌, Bool, true, false, not, ◌||◌, List, [], ◌∷◌, ◌++◌, Option, none, some, String,
  if◌then◌else◌, ◌==◌, Nat_eq, Result, ok, err, map_ok, Bytes, is_empty, map, All, unwrap_or, ◌≡◌,
  refl, arith, subst,
}
use keynoxis.State.{SshKey, Fido2KeyHandle, fido2, fido2_of}
use keynoxis.Fido.Credentials.{Encoding, public_blob, finish}
use keynoxis.Fido.Ffi.{fido_ok, fido_err_no_credentials}
use keynoxis.Fido.Sign.{c_string}
use keynoxis.Fido.Device.{Credential, Answer, Authenticator}
use keynoxis.Fido.Resident.{
  ◌>>=◌, starts_with, algorithm_of, flags_of, listed_key, with_path, push, key_if, keys_of, append,
  of_answer, of_parties, of_list, enumerate, load,
}

-- The credentials that a security key answers with, by their application.
abbrev pub Held : Type 0
Held = String → List (Option Credential)

-- An SSH key of a security key: one of its credentials, for an SSH application and with an identifier;
-- its handle has the parts of that credential, it asks for presence, and its public key is that of
-- the credential.
pub record IsListed (x : Encoding) (held : Held) (k : SshKey) : Type 0 where
  pub handle : Fido2KeyHandle
  pub credential : Credential
  pub is_held : Memᴰ (some credential) (held handle.application)
  pub same_id : handle.credential_id ≡ credential.id
  pub same_user : handle.user_id ≡ credential.user_id
  pub same_key : handle.public_key_bytes ≡ credential.public_key
  pub same_algorithm : algorithm_of credential.cose_type ≡ some k.algorithm
  pub of_key : fido2_of k ≡ ok handle
  pub is_fido2_key : k.backend ≡ fido2
  pub is_enabled : k.enabled ≡ true
  pub application : starts_with "ssh:" handle.application ≡ true
  pub has_id : is_empty handle.credential_id ≡ false
  pub presence : handle.flags % 2 ≡ 1
  pub blob : public_blob k.algorithm credential.public_key handle.application ≡ ok k.public_blob
  pub fingerprint : k.fingerprint ≡ x.fingerprint k.public_blob

module _ (x : Encoding) (held : Held) where
  abbrev OneOk : Result SshKey → Type 0
  OneOk (ok k) = IsListed x held k
  OneOk (err e) = Unit {0}

  abbrev AllOk : Result (List SshKey) → Type 0
  AllOk (ok ks) = All (IsListed x held) ks
  AllOk (err e) = Unit {0}

  push-AllOk :
      (one : Result SshKey) (rest : Result (List SshKey))
      → OneOk one
      → AllOk rest
      → AllOk (push x one rest)
  push-AllOk (ok k) (ok ks) p q = (p, q)
  push-AllOk (ok k) (err e) p q = tt
  push-AllOk (err e) rest p q = tt

  All-append :
      (ks more : List SshKey)
      → All (IsListed x held) ks
      → All (IsListed x held) more
      → All (IsListed x held) (ks ++ more)
  All-append [] more p q = q
  All-append (k ∷ ks) more (h, p) q = (h, All-append ks more p q)

  if-AllOk :
      (b : Bool) (m n : Result (List SshKey))
      → AllOk m
      → (b ≡ false → AllOk n)
      → AllOk (if b then m else n)
  if-AllOk true m n p q = p
  if-AllOk false m n p q = q refl

  presence_lem : (flags : ℕ) → flags_of flags % 2 ≡ 1
  presence_lem flags = omega arith

  finished-OneOk :
      (application algorithm : String) (c : Credential)
      → starts_with "ssh:" application ≡ true
      → is_empty c.id ≡ false
      → Memᴰ (some c) (held application)
      → algorithm_of c.cose_type ≡ some algorithm
      → OneOk (finish x (listed_key application algorithm c))
  unfolding finish
  finished-OneOk application algorithm c a i member alg =
      go (public_blob algorithm c.public_key application) refl
    where
      go :
          (r : Result Bytes)
          → public_blob algorithm c.public_key application ≡ r
          → OneOk (
              map_ok
                (λ blob. record (listed_key application algorithm c) {
                  fingerprint = x.fingerprint blob;
                  public_key =
                      x.public_line algorithm blob (
                        unwrap_or
                          (listed_key application algorithm c).comment
                          "FIDO2 resident key");
                  public_blob = blob;
                })
                r)
      go (ok blob) e = record {
        handle = record {
          application = application;
          credential_id = c.id;
          user_id = c.user_id;
          public_key_bytes = c.public_key;
          flags = flags_of c.flags;
        };
        credential = c;
        is_held = member;
        same_id = refl;
        same_user = refl;
        same_key = refl;
        same_algorithm = alg;
        of_key = refl;
        is_fido2_key = refl;
        is_enabled = refl;
        application = a;
        has_id = i;
        presence = presence_lem c.flags;
        blob = e;
        fingerprint = refl;
      }
      go (err e) h = tt

  key_if-AllOk :
      (application : String) (c : Credential) (o : Option String) (rest : Result (List SshKey))
      → starts_with "ssh:" application ≡ true
      → Memᴰ (some c) (held application)
      → algorithm_of c.cose_type ≡ o
      → AllOk rest
      → AllOk (key_if x application c o rest)
  key_if-AllOk application c none rest a member alg p = p
  key_if-AllOk application c (some algorithm) rest a member alg p =
      if-AllOk (is_empty c.public_key || is_empty c.id) _ _ p λ h.
        push-AllOk (finish x (listed_key application algorithm c)) rest
          (finished-OneOk application algorithm c a (ground (arith, h)) member alg) p

  keys_of-AllOk :
      (application : String) (cs : List (Option Credential))
      → starts_with "ssh:" application ≡ true
      → ((c : Credential) → Memᴰ (some c) cs → Memᴰ (some c) (held application))
      → AllOk (keys_of x application cs)
  keys_of-AllOk application [] a f = tt
  keys_of-AllOk application (none ∷ cs) a f =
      keys_of-AllOk application cs a (λ c h. f c (Memᴰ.tail h))
  keys_of-AllOk application (some c ∷ cs) a f =
      key_if-AllOk application c (algorithm_of c.cose_type) (keys_of x application cs) a
        (f c (Memᴰ.head refl)) refl (keys_of-AllOk application cs a (λ c' h. f c' (Memᴰ.tail h)))

  then-AllOk :
      (o : Result (Unit {0})) (next : Result (List SshKey)) → AllOk next → AllOk (o >>= λ _. next)
  then-AllOk (ok u) next p = p
  then-AllOk (err e) next p = tt

  map-AllOk :
      (path : String) (m : Result (List SshKey)) → AllOk m → AllOk (map_ok (map (with_path path)) m)
  map-AllOk path (err e) p = tt
  map-AllOk path (ok ks) p = each ks p
    where
      each :
          (ks : List SshKey)
          → All (IsListed x held) ks
          → All (IsListed x held) (map (with_path path) ks)
      each [] p = tt
      each (k ∷ ks) (h, p) = (
        record {
          handle = h.handle;
          credential = h.credential;
          is_held = h.is_held;
          same_id = h.same_id;
          same_user = h.same_user;
          same_key = h.same_key;
          same_algorithm = h.same_algorithm;
          of_key = h.of_key;
          is_fido2_key = h.is_fido2_key;
          is_enabled = h.is_enabled;
          application = h.application;
          has_id = h.has_id;
          presence = h.presence;
          blob = h.blob;
          fingerprint = h.fingerprint;
        },
        each ks p,
      )

-- The credentials that a security key holds, with this PIN.
abbrev pub held_by : Authenticator → String → Held
held_by d pin application = (d.get_dev_rk application pin).1

module _ (x : Encoding) (d : Authenticator) (pin : String) where
  append-AllOk :
      (first rest : Result (List SshKey))
      → AllOk x (held_by d pin) first
      → AllOk x (held_by d pin) rest
      → AllOk x (held_by d pin) (append x d pin first rest)
  append-AllOk (ok ks) (ok more) p q = All-append x (held_by d pin) ks more p q
  append-AllOk (ok ks) (err e) p q = tt
  append-AllOk (err e) rest p q = tt

  of_answer-AllOk :
      (application : String) (a : Answer (List (Option Credential))) (rest : Result (List SshKey))
      → ((c : Credential) → Memᴰ (some c) a.1 → Memᴰ (some c) (held_by d pin application))
      → starts_with "ssh:" application ≡ true
      → AllOk x (held_by d pin) rest
      → AllOk x (held_by d pin) (of_answer x d pin application a rest)
  of_answer-AllOk application (code, cs) rest f a p =
      if-AllOk x (held_by d pin) (code == fido_err_no_credentials) _ _ p λ _.
        if-AllOk x (held_by d pin) (not (code == fido_ok)) _ _ tt λ _.
          append-AllOk (keys_of x application cs) rest
            (keys_of-AllOk x (held_by d pin) application cs a f) p

  of_parties-AllOk :
      (parties : List (Option String)) → AllOk x (held_by d pin) (of_parties x d pin parties)
  of_parties-AllOk [] = tt
  of_parties-AllOk (none ∷ rest) = of_parties-AllOk rest
  of_parties-AllOk (some application ∷ rest) =
      let p = of_parties-AllOk rest in
      if-AllOk x (held_by d pin) (not (starts_with "ssh:" application)) _ _ p λ a.
        then-AllOk x (held_by d pin) (c_string application "Invalid resident relying-party ID") _ (
          if-AllOk x (held_by d pin) (not (d.allocates_keys application)) _ _ p λ _.
            of_answer-AllOk application (d.get_dev_rk application pin) (of_parties x d pin rest)
              (λ c h. h) (ground (arith, a)) p)

  of_list-AllOk : (a : Answer (List (Option String))) → AllOk x (held_by d pin) (of_list x d pin a)
  of_list-AllOk (code, parties) =
      if-AllOk x (held_by d pin) (code == fido_err_no_credentials) _ _ tt
        λ _. if-AllOk x (held_by d pin) (not (code == fido_ok)) _ _ tt λ _. of_parties-AllOk parties

  load-AllOk : (path : String) → AllOk x (held_by d pin) (load x d pin path)
  unfolding load enumerate
  load-AllOk path = then-AllOk x (held_by d pin) (c_string path "Invalid device path") _ (
      then-AllOk x (held_by d pin) (c_string pin "Invalid PIN") _ (
        if-AllOk x (held_by d pin) (not d.allocates_device) _ _ tt λ _.
          if-AllOk x (held_by d pin) (not (d.open_code path == fido_ok)) _ _ tt λ _.
            if-AllOk x (held_by d pin) (not d.is_fido2 || not d.supports_credman) _ _ tt λ _.
              map-AllOk x (held_by d pin) path (enumerate x d pin) (
                if-AllOk x (held_by d pin) (not d.allocates_parties) _ _ tt
                  λ _. of_list-AllOk (d.get_dev_rp pin))))

  pub load-IsListed :
      (path : String) (ks : List SshKey)
      → load x d pin path ≡ ok ks
      → All (IsListed x (held_by d pin)) ks
  load-IsListed path ks h = subst (AllOk x (held_by d pin)) h (load-AllOk path)
