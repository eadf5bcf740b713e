-- ===== src/Device/Detect.antt =====
-- src-tauri/src/device/detect.rs and info.rs: the security keys that libfido2 lists (`yubikeys`).
pub mod Found
pub mod Kept
use keynoxis.Base.{
  ℕ, Bool, not, List, [], ◌∷◌, Option, none, some, String, if◌then◌else◌, ◌==◌, Nat_eq, String_eq,
  Result, ok, err, find, unwrap_or, sort_by, text_le,
}
use keynoxis.State.{DeviceInfo}
use keynoxis.Fido.Ffi.{fido_ok}
use keynoxis.Fido.Device.{Answer}
use keynoxis.Device.Details.{
  as_u16, Answers, Entry, Manifest, DeviceDetails, default_details, yubikey_local_id,
  device_details,
}

-- Yubico's.
abbrev pub yubico_vendor : ℕ
yubico_vendor = 0x1050

abbrev pub max_devices : ℕ
max_devices = 16

module _ (m : Manifest) where
  abbrev pub path_of_entry : Entry → String
  path_of_entry e = unwrap_or e.path ""

  abbrev details_of : Answers → DeviceDetails
  details_of a = if a.is_fido2 then device_details m a else default_details

  abbrev pub candidate : Entry → Answers → DeviceDetails → DeviceInfo
  candidate e a details = record {
    label = none;
    serial_number = none;
    local_id = yubikey_local_id m.keynoxis_yubikey_local_id (path_of_entry e);
    product = e.product_string;
    manufacturer = e.manufacturer_string;
    path = path_of_entry e;
    vendor_id = as_u16 e.vendor;
    product_id = as_u16 e.product_code;
    is_fido2 = a.is_fido2;
    credential_management = details.credential_management;
    pin_configured = details.pin_configured;
    algorithms = details.algorithms;
    aaguid = details.aaguid;
    firmware = details.firmware;
    resident_credentials_remaining = details.resident_credentials_remaining;
    pin_retries = details.pin_retries;
  }

unfoldable pub is_yubikey : DeviceInfo → Bool
is_yubikey d = d.vendor_id == yubico_vendor

abbrev pub at_path : String → DeviceInfo → Bool
at_path path d = d.path == path

-- A device that is known is not opened again.
abbrev pub renewed : Entry → DeviceInfo → DeviceInfo
renewed e known = record known { product = e.product_string; manufacturer = e.manufacturer_string }

abbrev pub path_le : DeviceInfo → DeviceInfo → Bool
path_le a b = text_le a.path b.path

module _ (m : Manifest) where
  -- Another device that is busy is tried again in the next round.
  abbrev pub detect_opened : Entry → Answers → Option DeviceInfo
  detect_opened e a =
      let c = candidate m e a (details_of m a) in
      if not (a.open_code == fido_ok) then none else if not (is_yubikey c) then none else some c

  abbrev pub detect_new : Entry → Option Answers → Result (Option DeviceInfo)
  detect_new e none = err "Could not allocate a libfido2 device"
  detect_new e (some a) = ok (detect_opened e a)

  abbrev pub detect_yubico : Entry → Option DeviceInfo → Result (Option DeviceInfo)
  detect_yubico e (some known) = ok (some (renewed e known))
  detect_yubico e none = detect_new e e.answers

  unfoldable pub detect_entry : List DeviceInfo → Entry → Result (Option DeviceInfo)
  detect_entry previous e =
      if not (as_u16 e.vendor == yubico_vendor)
      then ok none
      else detect_yubico e (find (at_path (path_of_entry m e)) previous)

  abbrev pub pushed : Option DeviceInfo → List DeviceInfo → List DeviceInfo
  pushed none devices = devices
  pushed (some d) devices = d ∷ devices

  abbrev pub followed_by :
      Result (Option DeviceInfo) → Result (List DeviceInfo) → Result (List DeviceInfo)
  followed_by (err e) rest = err e
  followed_by (ok o) (err e) = err e
  followed_by (ok o) (ok devices) = ok (pushed o devices)

  unfoldable pub detect_all : List DeviceInfo → List (Option Entry) → Result (List DeviceInfo)
  detect_all previous [] = ok []
  detect_all previous (none ∷ es) = detect_all previous es
  detect_all previous (some e ∷ es) =
      let rest = detect_all previous es in followed_by (detect_entry previous e) rest

  abbrev pub sorted : Result (List DeviceInfo) → Result (List DeviceInfo)
  sorted (ok devices) = ok (sort_by path_le devices)
  sorted (err e) = err e

  abbrev listed : List DeviceInfo → Answer (List (Option Entry)) → Result (List DeviceInfo)
  listed previous (code, es) =
      if not (code == fido_ok) then err (m.error_message code) else sorted (detect_all previous es)

  unfoldable pub yubikeys : List DeviceInfo → Result (List DeviceInfo)
  yubikeys previous =
      if not m.allocates_list
      then err "Could not allocate a libfido2 device list"
      else listed previous m.entries
