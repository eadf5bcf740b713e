-- ===== src/Device/Detect/Kept.antt =====
-- A detection of src-tauri/src/device/detect.rs keeps a key that is known, whatever it answers.
use mathlib.Core.List.{Memᴰ}
use keynoxis.Base.{
  List, [], ◌∷◌, Option, none, some, Nat_eq, String_eq, Result, ok, err, find, Mem-sort_by, ◌≡◌,
  refl, ap, ◌∙◌, sym, subst,
}
use keynoxis.State.{DeviceInfo}
use keynoxis.Device.Detect.{
  yubico_vendor, path_of_entry, at_path, renewed, detect_entry, detect_all, followed_by, path_le,
  sorted, yubikeys,
}
use keynoxis.Device.Details.{Manifest, Entry, as_u16}
use keynoxis.Device.Detect.Found.{yubikeys-sorted}

module _ (m : Manifest) where
  module _ (previous : List DeviceInfo) (e : Entry) (known : DeviceInfo)
      (is_known : find (at_path (path_of_entry m e)) previous ≡ some known)
      (is_yubico : as_u16 e.vendor ≡ yubico_vendor) where
    detect_entry-renewed : detect_entry m previous e ≡ ok (some (renewed e known))
    unfolding detect_entry
    detect_entry-renewed =
        rw ((Nat_eq.test_iff (as_u16 e.vendor) yubico_vendor).1 is_yubico, is_known) refl

    abbrev OnKept : Result (List DeviceInfo) → Type 0
    OnKept (ok ds) = Memᴰ (renewed e known) ds
    OnKept (err x) = Unit

    here-OnKept :
        (o : Result (Option DeviceInfo)) (rest : Result (List DeviceInfo))
        → o ≡ ok (some (renewed e known))
        → OnKept (followed_by m o rest)
    here-OnKept (err x) rest h = tt
    here-OnKept (ok o) (err x) h = tt
    here-OnKept (ok none) (ok ds) h = cc
    here-OnKept (ok (some d)) (ok ds) h =
        Memᴰ.head (ap (λ r. elim r [ ok o ↦ elim o [ some c ↦ c | none ↦ d ] | err x ↦ d ]) (sym h))

    further-OnKept :
        (o : Result (Option DeviceInfo)) (rest : Result (List DeviceInfo))
        → OnKept rest
        → OnKept (followed_by m o rest)
    further-OnKept (err x) rest h = tt
    further-OnKept (ok o) (err x) h = tt
    further-OnKept (ok none) (ok ds) h = h
    further-OnKept (ok (some d)) (ok ds) h = Memᴰ.tail h

    detect_all-OnKept :
        (es : List (Option Entry)) → Memᴰ (some e) es → OnKept (detect_all m previous es)
    unfolding detect_all
    detect_all-OnKept [] h = elim h [ ]
    detect_all-OnKept (none ∷ es) (Memᴰ.head p) = cc
    detect_all-OnKept (none ∷ es) (Memᴰ.tail h) = detect_all-OnKept es h
    detect_all-OnKept (some c ∷ es) (Memᴰ.head p) = here-OnKept (detect_entry m previous c) _ (
        ap (λ o. elim o [ some x ↦ detect_entry m previous x | none ↦ ok none ]) (sym p)
        ∙ detect_entry-renewed)
    detect_all-OnKept (some c ∷ es) (Memᴰ.tail h) =
        further-OnKept (detect_entry m previous c) _ (detect_all-OnKept es h)

    sorted-OnKept : (r : Result (List DeviceInfo)) → OnKept r → OnKept (sorted m r)
    sorted-OnKept (err x) h = tt
    sorted-OnKept (ok ds) h = Mem-sort_by (path_le) ds h

    -- A device of Yubico that is known and still in the list is detected again as it was known, but
    -- for its product and manufacturer, whatever it answers now: also while it is busy.
    pub yubikeys-known :
        (ds : List DeviceInfo)
        → Memᴰ (some e) m.entries.1
        → yubikeys m previous ≡ ok ds
        → Memᴰ (renewed e known) ds
    yubikeys-known ds h k =
        subst OnKept (yubikeys-sorted m previous k)
          (sorted-OnKept (detect_all m previous m.entries.1) (detect_all-OnKept m.entries.1 h))
