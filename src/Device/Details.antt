-- ===== src/Device/Details.antt =====
-- src-tauri/src/device/detect.rs: what libfido2 answers, and what is read of a key that is there for
-- the first time (`device_details`, `yubikey_local_id`). A `CStr` is its text, or none for a null
-- pointer, and `%` by 256 is the mask 0xff.
use Prim.Native.String.{◌++◌ as concat}
use keynoxis.Base.{
  strip_prefix, ℕ, ◌+◌, ◌-◌, ◌*◌, ◌/◌, ◌%◌, ◌^◌, Bool, false, not, ◌&&◌, ◌||◌, List, [], ◌∷◌,
  Option, none, some, String, if◌then◌else◌, ltb, leb, ◌==◌, Nat_eq, String_eq, Bytes, chars,
  get_elem?, is_empty, unwrap_or, sort_by, text_le, dedup, join_texts, map,
}
use keynoxis.Fido.Ffi.{fido_ok}
use keynoxis.Fido.Device.{Answer, CoseType, eddsa, es256, other_type}

pub data ℤ : Type 0 where
  pos negsuc : ℕ → ℤ

-- `as u16`.
abbrev pub as_u16 : ℤ → ℕ
as_u16 (pos n) = n % 2 ^ 16
as_u16 (negsuc n) = 2 ^ 16 - 1 - n % 2 ^ 16

-- What `fido_dev_get_cbor_info` gives.
pub record CborInfo : Type 0 where
  pub cose_algorithms : List CoseType
  pub aaguid : Bytes
  pub fwversion : ℕ
  pub rk_remaining : ℤ

-- The answers of a device.
pub record Answers : Type 0 where
  pub open_code : ℕ
  pub is_fido2 : Bool
  pub supports_credman : Bool
  pub has_pin : Bool
  pub retry_count : Answer ℕ
  pub allocates_info : Bool
  pub cbor_info : Answer CborInfo

-- A device of the list; it has no answers if the object for it cannot be allocated.
pub record Entry : Type 0 where
  pub vendor : ℤ
  pub product_code : ℤ
  pub path : Option String
  pub product_string : Option String
  pub manufacturer_string : Option String
  pub answers : Option Answers

-- libfido2 and the system; and the printing of numbers, in decimal and with `{:x}`. The list of
-- `fido_dev_info_manifest` has an entry for each index below `found`.
pub record Manifest : Type 0 where
  pub error_message : ℕ → String
  pub allocates_list : Bool
  pub entries : Answer (List (Option Entry))
  pub keynoxis_yubikey_local_id : ℕ → ℕ
  pub to_string : ℕ → String
  pub to_hex : ℕ → String

pub record DeviceDetails : Type 0 where
  pub credential_management : Bool
  pub pin_configured : Bool
  pub algorithms : List String
  pub aaguid : Option String
  pub firmware : Option String
  pub resident_credentials_remaining : Option ℕ
  pub pin_retries : Option ℕ

abbrev pub default_details : DeviceDetails
default_details = record {
  credential_management = false;
  pin_configured = false;
  algorithms = [];
  aaguid = none;
  firmware = none;
  resident_credentials_remaining = none;
  pin_retries = none;
}

-- `str::parse::<u64>`.
abbrev checked : ℕ → Option ℕ
checked n = if ltb n (2 ^ 64) then some n else none

abbrev pub parse_digits : Option ℕ → List ℕ → Option ℕ
parse_digits none cs = none
parse_digits (some n) [] = some n
parse_digits (some n) (c ∷ cs) =
    parse_digits (if leb b'0' c && leb c b'9' then checked (10 * n + (c - b'0')) else none) cs

abbrev pub parse_u64 : List ℕ → Option ℕ
parse_u64 [] = none
parse_u64 (c ∷ cs) =
    if c == b'+' && not (is_empty cs)
    then parse_digits (some 0) cs
    else parse_digits (some 0) (c ∷ cs)

abbrev non_zero : ℕ → Option ℕ
non_zero n = if n == 0 then none else some n

abbrev local_id_at : (ℕ → ℕ) → Option ℕ → Option ℕ
local_id_at ask none = none
local_id_at ask (some registry_id) = non_zero (ask registry_id)

abbrev parsed : Option (List ℕ) → Option ℕ
parsed none = none
parsed (some text) = parse_u64 text

unfoldable pub yubikey_local_id : (ℕ → ℕ) → String → Option ℕ
yubikey_local_id ask path = local_id_at ask (parsed (strip_prefix (chars "ioreg://") (chars path)))

abbrev pub algorithm_names : List CoseType → List String
algorithm_names [] = []
algorithm_names (eddsa ∷ cs) = "ED25519-SK" ∷ algorithm_names cs
algorithm_names (es256 ∷ cs) = "ECDSA-SK" ∷ algorithm_names cs
algorithm_names (other_type ∷ cs) = algorithm_names cs

abbrev hex_digits : List String
hex_digits =
    "0" ∷ "1" ∷ "2" ∷ "3" ∷ "4" ∷ "5" ∷ "6" ∷ "7" ∷ "8" ∷ "9" ∷ "a" ∷ "b" ∷ "c" ∷ "d" ∷ "e" ∷ "f"
    ∷ []

abbrev pub hex_digit : ℕ → String
hex_digit n = unwrap_or (get_elem? hex_digits n) ""

-- `{:02x}` of a byte.
abbrev pub hex_byte : ℕ → String
hex_byte b = concat (hex_digit (b / 16)) (hex_digit (b % 16))

abbrev pub aaguid_text : Bytes → Option String
aaguid_text [] = none
aaguid_text (b ∷ bs) = some (join_texts "" (map hex_byte (b ∷ bs)))

abbrev pub non_negative : ℤ → Option ℕ
non_negative (pos n) = some n
non_negative (negsuc n) = none

abbrev answered : {A : Type 0} → Answer A → Option A
answered (code, a) = if code == fido_ok then some a else none

module _ (m : Manifest) where
  abbrev pub firmware_text : ℕ → Option String
  firmware_text firmware =
      if firmware == 0
      then none
      else if leb firmware 0x00ff_ffff
      then some (
          concat (m.to_string (firmware / 2 ^ 16 % 256)) (
            concat "." (
              concat (m.to_string (firmware / 2 ^ 8 % 256))
                (concat "." (m.to_string (firmware % 256))))))
      else some (concat "0x" (m.to_hex firmware))

  abbrev with_info : Bool → Answer CborInfo → DeviceDetails → DeviceDetails
  with_info allocates (code, info) details =
      if not allocates || not (code == fido_ok) then details else record details {
        algorithms = dedup (sort_by text_le (algorithm_names info.cose_algorithms));
        aaguid = aaguid_text info.aaguid;
        firmware = firmware_text info.fwversion;
        resident_credentials_remaining = non_negative info.rk_remaining;
      }

  unfoldable pub device_details : Answers → DeviceDetails
  device_details a = with_info a.allocates_info a.cbor_info (record default_details {
    credential_management = a.supports_credman;
    pin_configured = a.has_pin;
    pin_retries = answered a.retry_count;
  })
