-- ===== src/Ipc/Keys/Disabled.antt =====
-- An identity that `set_key_enabled` (src-tauri/src/ipc/commands.rs) disables, now and when the keys
-- are loaded again by src-tauri/src/key_preferences.rs.
use keynoxis.Base.{
  ℕ, Bool, true, false, not, ◌&&◌, List, [], ◌∷◌, Option, none, some, String, ◌≡◌, refl, arith,
  if◌then◌else◌, ◌==◌, String_eq, Result, ok, err, is_ok, contains, retain, any, All, eq_left,
  eq_right, inl, inr, ap, ◌∙◌, map, eq_self, ◌⊎◌,
}
use keynoxis.State.{RuntimeState, AppState, SshKey}
use keynoxis.Activity.{record_activity}
use keynoxis.Settings.{Stored, stored}
use keynoxis.Provider.{is_same_key}
use keynoxis.Ipc.Operation.Finish.{apply_preferences}
use keynoxis.Ipc.Keys.{
  set_first, set_enabled, set_key_enabled, with_fingerprint, behind, is_other, read_preferences,
  mark, mark_if, change_preferences,
}

abbrev pub choose : String → Bool → SshKey → SshKey
choose fingerprint enabled k = record k {
  enabled = if fingerprint == k.fingerprint then enabled else k.enabled;
}

-- At most one key has the fingerprint.
abbrev pub IsUnique : String → List SshKey → Type 0
IsUnique fingerprint [] = Unit
IsUnique fingerprint (k ∷ ks) =
    ((k.fingerprint == fingerprint ≡ false)
      ⊎ All (λ (j : SshKey). j.fingerprint == fingerprint ≡ false) ks)
    × IsUnique fingerprint ks

contains-is_other :
    (path other : String) (l : List String)
    → contains (retain (is_other path) l) other ≡ (not (path == other) && contains l other)
contains-is_other path other [] = ground arith
contains-is_other path other (p ∷ l) =
    ground (arith, contains-is_other path other l, eq_left p path other, eq_right p path other)

-- Behind `set_enabled` the fingerprint is disabled or not as asked, and the others are as before.
contains-with_fingerprint :
    (fingerprint other : String) (enabled : Bool) (l : List String)
    → contains (with_fingerprint fingerprint enabled l) other
      ≡ (if fingerprint == other then not enabled else contains l other)
unfolding with_fingerprint
contains-with_fingerprint fingerprint other true l =
    ground (arith, contains-is_other fingerprint other l)
contains-with_fingerprint fingerprint other false l = ground (
  arith,
  λ (h : fingerprint == other ≡ true). ap (contains l) ((String_eq.test_iff fingerprint other).0 h),
)

no_same :
    (k : SshKey) (ks : List SshKey)
    → All (λ (j : SshKey). j.fingerprint == k.fingerprint ≡ false) ks
    → any (is_same_key k) ks ≡ false
no_same k [] h = refl
no_same k (j ∷ ks) h = ground (arith, no_same k ks h.1)

-- Among the keys that are left, if there are any, none may sign for the key.
abbrev AllOff : SshKey → Option (List SshKey) → Type 0
AllOff k none = Unit
AllOff k (some ks) = any (is_same_key k) ks ≡ false

behind-AllOff :
    (k j : SshKey) (o : Option (List SshKey))
    → j.fingerprint == k.fingerprint ≡ false
    → AllOff k o
    → AllOff k (behind j o)
behind-AllOff k j none d a = tt
behind-AllOff k j (some ks) d a = ground (arith, a)

step-AllOff :
    (b : Bool) (k j : SshKey) (ks : List SshKey) (rest : Option (List SshKey))
    → j.fingerprint == k.fingerprint ≡ b
    → (b ≡ false) ⊎ All (λ (j : SshKey). j.fingerprint == k.fingerprint ≡ false) ks
    → AllOff k rest
    → AllOff k (if b then some (record j { enabled = false } ∷ ks) else behind j rest)
step-AllOff true k j ks rest e (inl p) a = cc
step-AllOff true k j ks rest e (inr p) a = no_same k ks p
step-AllOff false k j ks rest e u a = behind-AllOff k j rest e a

set_first-AllOff :
    (k : SshKey) (ks : List SshKey)
    → IsUnique k.fingerprint ks
    → AllOff k (set_first k.fingerprint false ks)
unfolding set_first
set_first-AllOff k [] u = tt
set_first-AllOff k (j ∷ ks) u =
    step-AllOff (j.fingerprint == k.fingerprint) k j ks (set_first k.fingerprint false ks) refl u.0
      (set_first-AllOff k ks u.1)

-- After a call that returned, no key may sign for this one, and the file names its fingerprint.
abbrev pub IsOff : SshKey → Stored (List String) × (RuntimeState × Result AppState) → Type 0
IsOff k (p, (r, o)) =
    (any (is_same_key k) r.app.keys ≡ false)
    × (l : List String) × (p ≡ stored l)
    × (contains l k.fingerprint ≡ true)

mark-AllOff :
    (now : ℕ) (k : SshKey) (r : RuntimeState) (o : Option (List SshKey))
    → AllOff k o
    → is_ok (mark now k.fingerprint false r o).1 ≡ true
    → any (is_same_key k) (mark now k.fingerprint false r o).0.app.keys ≡ false
unfolding record_activity
mark-AllOff now k r none a h = cc
mark-AllOff now k r (some ks) a h = a

mark_if-AllOff :
    (now : ℕ) (k : SshKey) (r : RuntimeState) (o : Result (Unit {0}))
    → IsUnique k.fingerprint r.app.keys
    → is_ok (mark_if now k.fingerprint false r o).1 ≡ true
    → (any (is_same_key k) (mark_if now k.fingerprint false r o).0.app.keys ≡ false)
      × (is_ok o ≡ true)
mark_if-AllOff now k r (ok x) u h = (
  mark-AllOff now k r (set_first k.fingerprint false r.app.keys) (set_first-AllOff k r.app.keys u)
      h,
  refl,
)
mark_if-AllOff now k r (err e) u h = cc

change_preferences_lem :
    (write : Result (Unit {0})) (fingerprint : String) (p : Stored (List String))
    (o : Result (List String))
    → is_ok (change_preferences write fingerprint false p o).1 ≡ true
    → (l : List String) × ((change_preferences write fingerprint false p o).0 ≡ stored l)
      × (contains l fingerprint ≡ true)
change_preferences_lem write fingerprint p (err e) h = cc
change_preferences_lem (err e) fingerprint p (ok l) h = cc
change_preferences_lem (ok x) fingerprint p (ok l) h = (
  with_fingerprint fingerprint false l,
  refl,
  ground (arith, contains-with_fingerprint fingerprint fingerprint false l, eq_self fingerprint),
)

-- Where at most one key has its fingerprint, once a call that disables a key returned, no key that is
-- listed may sign for it, and the file of the preferences names its fingerprint as disabled.
pub set_key_enabled-IsOff :
    (now : ℕ) (write : Result (Unit {0})) (k : SshKey) (p : Stored (List String)) (r : RuntimeState)
    → IsUnique k.fingerprint r.app.keys
    → is_ok (set_key_enabled now write k.fingerprint false p r).1.1 ≡ true
    → IsOff k (set_key_enabled now write k.fingerprint false p r)
unfolding set_key_enabled set_enabled
set_key_enabled-IsOff now write k p r u h =
    let (off, done) = mark_if-AllOff now k r (set_enabled write k.fingerprint false p).1 u h in
    let (l, same, named) = change_preferences_lem write k.fingerprint p (read_preferences p) done in
    (off, l, same, named)

-- Behind a list of disabled fingerprints that was changed for one, keys that are loaded are enabled
-- as before, and those with that fingerprint as was asked.
apply_preferences-with_fingerprint :
    (fingerprint : String) (enabled : Bool) (l : List String) (ks : List SshKey)
    → apply_preferences (with_fingerprint fingerprint enabled l) ks
      ≡ map (choose fingerprint enabled) (apply_preferences l ks)
apply_preferences-with_fingerprint fingerprint enabled l [] = refl
apply_preferences-with_fingerprint fingerprint enabled l (k ∷ ks) =
    ap
      (λ v.
        record k { enabled = v } ∷ apply_preferences (with_fingerprint fingerprint enabled l) ks)
      (ap not (contains-with_fingerprint fingerprint k.fingerprint enabled l)
        ∙ turn (fingerprint == k.fingerprint) (contains l k.fingerprint))
    ∙ ap (◌∷◌ (choose fingerprint enabled (record k { enabled = not (contains l k.fingerprint) })))
        (apply_preferences-with_fingerprint fingerprint enabled l ks)
  where
    turn : (b c : Bool) → not (if b then not enabled else c) ≡ (if b then enabled else not c)
    turn b c = ground arith
