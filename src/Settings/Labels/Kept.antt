-- ===== src/Settings/Labels/Kept.antt =====
-- The names that src-tauri/src/settings.rs gives back.
use keynoxis.Base.{
  zero, suc, List, map, get_elem?, option_map, length, ℕ, Bool, true, false, [], ◌∷◌, ◌++◌, some,
  String, if◌then◌else◌, String_eq, Result, ok, err, Bytes, or_else, ◌≡◌, refl, arith, ap, ◌∙◌, sym,
  eq_self,
}
use keynoxis.State.{DeviceInfo}
use keynoxis.Settings.{Stored, missing, unreadable, stored, SecurityPolicy}
use keynoxis.Settings.Labels.{
  apply_device_labels, labelled, Labels, LabelStore, LabelWrites, get, insert, read_device_labels,
  extended, device_identity, fallback_device_identity, set_device_label, change_labels,
  commit_labels, after_write, trimmed, mirrored,
}

get-append-some :
    (identity label : String) (labels more : Labels)
    → get identity labels ≡ some label
    → get identity (labels ++ more) ≡ some label
get-append-some identity label [] more h = cc
get-append-some identity label ((i, l) ∷ labels) more h =
    ground (arith, get-append-some identity label labels more)

get-insert :
    (identity label : String) (labels : Labels)
    → get identity (insert identity label labels) ≡ some label
get-insert identity label labels = rw (eq_self identity) refl

-- A store that a change has written.
abbrev written : LabelWrites → LabelStore → Labels → LabelStore
written w store labels = record {
  labels_file = stored labels;
  policy_item = mirrored w.keychain_write labels store.policy_item;
}

module _ (w : LabelWrites) (store after : LabelStore) (identity label : String) where
  written_lem :
      (o : Result (Unit {0})) (new : LabelStore)
      → after_write store new o ≡ (after, ok tt)
      → after ≡ new
  written_lem (ok u) new h = ap (λ p. p.0) (sym h)
  written_lem (err e) new h = cc

  relabelled_lem :
      (b : Bool) (labels : Labels)
      → commit_labels w store (
          if b
          then err "Device name must be 64 characters or fewer and contain no control characters"
          else ok (insert identity label labels))
        ≡ (after, ok tt)
      → after ≡ written w store (insert identity label labels)
  relabelled_lem true labels h = cc
  relabelled_lem false labels h =
      written_lem w.file_write (written w store (insert identity label labels)) h

  change_lem :
      (o : Result Labels)
      → change_labels w store identity (some label) o ≡ (after, ok tt)
      → (labels : Labels) × (after ≡ written w store (insert identity label labels))
  change_lem (err e) h = cc
  change_lem (ok labels) h = (labels, relabelled_lem _ labels h)

-- With the policy, whatever it was, the new name is found.
get-extended :
    (identity label : String) (labels : Labels) (item : Stored SecurityPolicy)
    → get identity (
        extended
          (insert identity label labels)
          (mirrored (ok tt) (insert identity label labels) item))
      ≡ some label
get-extended identity label labels missing = rw (eq_self identity) refl
get-extended identity label labels (unreadable e) = rw (eq_self identity) refl
get-extended identity label labels (stored policy) = rw (eq_self identity) refl

get_elem?-map :
    {A B : Type 0} (f : A → B) (xs : List A) (i : ℕ) {x : A}
    → get_elem? xs i ≡ some x
    → get_elem? (map f xs) i ≡ some (f x)
get_elem?-map f [] i h = cc
get_elem?-map f (y ∷ xs) zero h = ap (option_map f) h
get_elem?-map f (y ∷ xs) (suc i) h = get_elem?-map f xs i h

length-map : {A B : Type 0} (f : A → B) (xs : List A) → length (map f xs) ≡ length xs
length-map f [] = refl
length-map f (x ∷ xs) = ap suc (length-map f xs)

module _ (digest : Bytes → String) (to_string : ℕ → String) (trim : String → String)
    (w : LabelWrites) (store after : LabelStore) (d e : DeviceInfo) (text label : String)
    (devices : List DeviceInfo) (i : ℕ) where
  -- A name that was set for a device, once trimmed, is the name of each device that is detected
  -- afterwards, wherever in the list, with the same serial number, or the same place where it has
  -- none, whatever names the file and the Keychain had before; if both writes succeed. The list has as
  -- many devices as were detected.
  pub apply_device_labels-set_device_label :
      trimmed trim (some text) ≡ some label
      → w.keychain_write ≡ ok tt
      → set_device_label digest to_string trim w store d (some text) ≡ (after, ok tt)
      → device_identity digest to_string e ≡ device_identity digest to_string d
      → get_elem? devices i ≡ some e
      → (named : List DeviceInfo) × (apply_device_labels digest to_string after devices ≡ ok named)
        × (get_elem? named i ≡ some (record e { label = some label }))
        × (length named ≡ length devices)
  unfolding set_device_label apply_device_labels
  apply_device_labels-set_device_label t k h same there =
      let id = device_identity digest to_string d in
      let (labels, s) =
        change_lem w store after id label (read_device_labels store.labels_file) (
          ap (λ o. change_labels w store id o (read_device_labels store.labels_file)) (sym t)
          ∙ h) in
      let new = insert id label labels in
      let names : Labels = extended new (mirrored w.keychain_write new store.policy_item) in
      let found : get (device_identity digest to_string e) names ≡ some label =
        ap (λ i. get i names) same
        ∙ (ap (λ o. get id (extended new (mirrored o new store.policy_item))) k
            ∙ get-extended id label labels store.policy_item) in
      let one = labelled digest to_string names in
      (
        map one devices,
        ap (λ st. apply_device_labels digest to_string st devices) s,
        get_elem?-map one devices i there
            ∙ ap
                (λ o. some (record e {
                  label = or_else o (get (fallback_device_identity digest to_string e) names);
                }))
                found,
        length-map one devices,
      )
