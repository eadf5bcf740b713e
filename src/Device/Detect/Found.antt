-- ===== src/Device/Detect/Found.antt =====
-- What a detection of src-tauri/src/device/detect.rs finds.
use mathlib.Core.List.{Memᴰ}
use keynoxis.Base.{
  ◌≤◌, Bool, true, false, not, List, [], ◌∷◌, Option, none, some, String, if◌then◌else◌, ◌==◌,
  Nat_eq, String_eq, Result, ok, err, length, find, find-All, find-OnSome, OnSome, All, Sorted,
  sort_by-Sorted, All-sort_by, length-sort_by, bytes_le_total, bytes_le_trans, as_bytes, ◌≡◌, refl,
  arith, ap, subst,
}
use keynoxis.State.{DeviceInfo}
use keynoxis.Fido.Ffi.{fido_ok}
use keynoxis.Device.Details.{Manifest, Entry, Answers, as_u16}
use keynoxis.Device.Detect.{
  yubico_vendor, max_devices, path_of_entry, at_path, detect_opened, detect_new, detect_yubico,
  detect_entry, detect_all, followed_by, path_le, sorted, yubikeys, is_yubikey, candidate,
  details_of,
}

abbrev pub IsYubico : DeviceInfo → Type 0
IsYubico d = d.vendor_id ≡ yubico_vendor

module _ (m : Manifest) where
  path_le_total : (a b : DeviceInfo) → path_le a b ≡ false → path_le b a ≡ true
  path_le_total a b h = ground (arith, bytes_le_total (as_bytes a.path) (as_bytes b.path))

  -- A device of Yubico, at the path of an entry of the list.
  pub record IsPresent (es : List (Option Entry)) (d : DeviceInfo) : Type 0 where
    pub entry : Entry
    pub is_listed : Memᴰ (some entry) es
    pub at_its_path : d.path ≡ path_of_entry m entry
    pub is_yubico : d.vendor_id ≡ yubico_vendor
    pub same_product : d.product ≡ entry.product_string
    pub same_manufacturer : d.manufacturer ≡ entry.manufacturer_string

  later :
      (o : Option Entry) (es : List (Option Entry)) (d : DeviceInfo)
      → IsPresent es d
      → IsPresent (o ∷ es) d
  later o es d p = record {
    entry = p.entry;
    is_listed = Memᴰ.tail p.is_listed;
    at_its_path = p.at_its_path;
    is_yubico = p.is_yubico;
    same_product = p.same_product;
    same_manufacturer = p.same_manufacturer;
  }

  all_later :
      (o : Option Entry) (es : List (Option Entry)) (ds : List DeviceInfo)
      → All (IsPresent es) ds
      → All (IsPresent (o ∷ es)) ds
  all_later o es [] h = tt
  all_later o es (d ∷ ds) (p, h) = (later o es d p, all_later o es ds h)

  -- What holds of the value of a result.
  abbrev OnFound : (DeviceInfo → Type 0) → Result (Option DeviceInfo) → Type 0
  OnFound P (ok o) = OnSome P o
  OnFound P (err e) = Unit

  abbrev OnAll : List (Option Entry) → Result (List DeviceInfo) → Type 0
  OnAll es (ok ds) = All (IsPresent es) ds × (length ds ≤ length es)
  OnAll es (err e) = Unit

  module _ (e : Entry) (es : List (Option Entry)) where
    abbrev Here : DeviceInfo → Type 0
    Here d = IsPresent (some e ∷ es) d

    detect_opened-Here :
        (a : Answers) → as_u16 e.vendor ≡ yubico_vendor → OnSome Here (detect_opened m e a)
    unfolding is_yubikey
    detect_opened-Here a v = go (a.open_code == fido_ok) _
      where
        go :
            (b c : Bool)
            → OnSome Here (
                if not b
                then none
                else if not c
                then none
                else some (candidate m e a (details_of m a)))
        go false c = tt
        go true false = tt
        go true true = record {
          entry = e;
          is_listed = Memᴰ.head refl;
          at_its_path = refl;
          is_yubico = v;
          same_product = refl;
          same_manufacturer = refl;
        }

    detect_yubico-Here :
        (o : Option DeviceInfo)
        → as_u16 e.vendor ≡ yubico_vendor
        → OnSome IsYubico o
        → OnSome (λ d. at_path (path_of_entry m e) d ≡ true) o
        → OnFound Here (detect_yubico m e o)
    detect_yubico-Here (some known) v y p = record {
      entry = e;
      is_listed = Memᴰ.head refl;
      at_its_path = (String_eq.test_iff known.path (path_of_entry m e)).0 p;
      is_yubico = y;
      same_product = refl;
      same_manufacturer = refl;
    }
    detect_yubico-Here none v y p = go e.answers
      where
        go : (o : Option Answers) → OnFound Here (detect_new m e o)
        go none = tt
        go (some a) = detect_opened-Here a v

    detect_entry-Here :
        (previous : List DeviceInfo)
        → All IsYubico previous
        → OnFound Here (detect_entry m previous e)
    unfolding detect_entry
    detect_entry-Here previous y = go (as_u16 e.vendor == yubico_vendor) refl
      where
        go :
            (b : Bool)
            → (as_u16 e.vendor == yubico_vendor) ≡ b
            → OnFound Here (
                if not b
                then ok none
                else detect_yubico m e (find (at_path (path_of_entry m e)) previous))
        go false h = tt
        go true h =
            detect_yubico-Here (find (at_path (path_of_entry m e)) previous)
              ((Nat_eq.test_iff (as_u16 e.vendor) yubico_vendor).0 h)
              (find-All IsYubico (at_path (path_of_entry m e)) previous y)
              (find-OnSome (at_path (path_of_entry m e)) previous)

    followed_by-OnAll :
        (o : Result (Option DeviceInfo)) (rest : Result (List DeviceInfo))
        → OnFound Here o
        → OnAll es rest
        → OnAll (some e ∷ es) (followed_by m o rest)
    followed_by-OnAll (err x) rest p q = tt
    followed_by-OnAll (ok o) (err x) p q = tt
    followed_by-OnAll (ok none) (ok ds) p (q, n) = (all_later (some e) es ds q, omega (arith, n))
    followed_by-OnAll (ok (some d)) (ok ds) p (q, n) =
        ((p, all_later (some e) es ds q), omega (arith, n))

  none_later :
      (es : List (Option Entry)) (r : Result (List DeviceInfo)) → OnAll es r → OnAll (none ∷ es) r
  none_later es (err x) q = tt
  none_later es (ok ds) (q, n) = (all_later none es ds q, omega (arith, n))

  detect_all-OnAll :
      (previous : List DeviceInfo) (es : List (Option Entry))
      → All IsYubico previous
      → OnAll es (detect_all m previous es)
  unfolding detect_all
  detect_all-OnAll previous [] y = (tt, omega arith)
  detect_all-OnAll previous (none ∷ es) y = none_later es _ (detect_all-OnAll previous es y)
  detect_all-OnAll previous (some e ∷ es) y =
      followed_by-OnAll e es (detect_entry m previous e) _ (detect_entry-Here e es previous y)
        (detect_all-OnAll previous es y)

  pub record IsDetection (ds : List DeviceInfo) : Type 0 where
    pub present : All (IsPresent m.entries.1) ds
    pub by_path : Sorted (path_le) ds
    pub bounded : length ds ≤ max_devices

  sorted-IsDetection :
      (r : Result (List DeviceInfo)) {ds : List DeviceInfo}
      → length m.entries.1 ≤ max_devices
      → OnAll m.entries.1 r
      → sorted m r ≡ ok ds
      → IsDetection ds
  sorted-IsDetection (err x) n q h = cc
  sorted-IsDetection (ok found) {ds} n (q, k) h = subst IsDetection (of_ok h) (record {
    present = All-sort_by (path_le) (IsPresent m.entries.1) found q;
    by_path =
        sort_by-Sorted (path_le) path_le_total
          (λ a b c. bytes_le_trans (as_bytes a.path) (as_bytes b.path) (as_bytes c.path)) found;
    bounded = omega (arith, n, k, length-sort_by (path_le) found);
  })
    where
      of_ok : {a b : List DeviceInfo} → ◌≡◌ {A = Result (List DeviceInfo)} (ok a) (ok b) → a ≡ b
      of_ok {a} h = ap (λ r. elim r [ ok c ↦ c | err e ↦ a ]) h

  checked_lem :
      {A : Type 0} (b : Bool) (e : String) (y : Result A) {a : A}
      → (if b then err e else y) ≡ ok a
      → y ≡ ok a
  checked_lem true e y h = cc
  checked_lem false e y h = h

  pub yubikeys-sorted :
      (previous : List DeviceInfo) {ds : List DeviceInfo}
      → yubikeys m previous ≡ ok ds
      → sorted m (detect_all m previous m.entries.1) ≡ ok ds
  unfolding yubikeys
  yubikeys-sorted previous h =
      checked_lem (not (m.entries.0 == fido_ok)) (m.error_message m.entries.0) _
        (checked_lem (not m.allocates_list) "Could not allocate a libfido2 device list" _ h)

  -- If libfido2 lists at most as many devices as it is asked for, and the known devices are Yubico's,
  -- then each device that a detection gives is Yubico's and is in the list, at its path and with its
  -- product and manufacturer; the devices are in the order of their paths, and at most sixteen.
  pub yubikeys-IsDetection :
      (previous ds : List DeviceInfo)
      → length m.entries.1 ≤ max_devices
      → All IsYubico previous
      → yubikeys m previous ≡ ok ds
      → IsDetection ds
  yubikeys-IsDetection previous ds n y h =
      sorted-IsDetection (detect_all m previous m.entries.1) n
        (detect_all-OnAll previous m.entries.1 y) (yubikeys-sorted previous h)
