-- ===== src/Swift.antt =====
-- The functions of src-tauri/native/SecureEnclaveBridge.swift that the program calls, but for the
-- lifecycle monitor. A buffer is handed over as a pointer, 0 for null, and a length; the heap of C
-- lists the allocated blocks. Parameters: malloc, and what Apple's frameworks answer.
use keynoxis.Base.{ℕ, Bool, true, false, List, [], ◌∷◌, Option, none, some, Nat_eq, Bytes, length}

abbrev pub Heap : Type 0
Heap = List (ℕ × Bytes)

-- A block of this size at a new address, or none.
abbrev pub Malloc : Type 0
Malloc = Heap → ℕ → Option ℕ

-- `*mut u8` and `usize`.
pub record Slot : Type 0 where
  pub pointer : ℕ
  pub length : ℕ

abbrev pub null : Slot
null = record { pointer = 0; length = 0 }

-- What a function of the library leaves behind: its status, up to two buffers, and an error.
pub record Reply : Type 0 where
  pub status : ℕ
  pub output : Slot
  pub public_key : Slot
  pub error : Slot
  pub heap : Heap

-- A call of the frameworks, which may throw an error with a description.
pub data Attempt (A : Type 0) : Type 0 where
  gave : A → Attempt A
  thrown : Bytes → Attempt A

-- `OSStatus`, as far as the functions tell one from another.
pub data KeychainStatus : Type 0 where
  success item_not_found missing_entitlement other_status : KeychainStatus

-- The item of the policy in the Keychain, with and without data protection.
pub record Keychain : Type 0 where
  pub copy_matching : Bool → KeychainStatus × Option Bytes
  pub update : Bool → Bytes → KeychainStatus
  pub add : Bool → Bytes → KeychainStatus
  pub message : KeychainStatus → Bytes

-- What a look-up of the policy comes to.
pub data Reading : Type 0 where
  found : Bytes → Reading
  not_found : Reading
  failed : Bytes → Reading

-- Without the entitlement, data protection is left out.
abbrev read_entitled : Keychain → KeychainStatus × Option Bytes → KeychainStatus × Option Bytes
read_entitled k (missing_entitlement, item) = k.copy_matching false
read_entitled k (status, item) = (status, item)

abbrev read_item : Keychain → KeychainStatus × Option Bytes → Reading
read_item k (item_not_found, item) = not_found
read_item k (success, some contents) = found contents
read_item k (status, item) = failed (k.message status)

abbrev pub reading : Keychain → Reading
reading k = read_item k (read_entitled k (k.copy_matching true))

abbrev update_or_add : Keychain → Bool → Bytes → KeychainStatus → KeychainStatus
update_or_add k protection contents item_not_found = k.add protection contents
update_or_add k protection contents status = status

-- `writeSecurityPolicy`.
abbrev write_item : Keychain → Bool → Bytes → KeychainStatus
write_item k protection contents =
    update_or_add k protection contents (k.update protection contents)

abbrev write_entitled : Keychain → Bytes → KeychainStatus → KeychainStatus
write_entitled k contents missing_entitlement = write_item k false contents
write_entitled k contents status = status

abbrev written_item : Keychain → KeychainStatus → Attempt (Unit {0})
written_item k success = gave tt
written_item k status = thrown (k.message status)

abbrev pub writing : Keychain → Bytes → Attempt (Unit {0})
writing k contents = written_item k (write_entitled k contents (write_item k true contents))

-- `SMAppService.Status`.
pub data LoginItem : Type 0 where
  is_enabled requires_approval not_registered not_in_bundle : LoginItem

abbrev pub autostart_change : Bool → LoginItem → (Bool → Attempt (Unit {0})) → Attempt (Unit {0})
autostart_change true is_enabled ask = gave tt
autostart_change false not_registered ask = gave tt
autostart_change enabled _ ask = ask enabled

-- The functions of the library.
module _ (malloc : Malloc) where
  abbrev pub allocated : Bytes → Heap → Option ℕ → Slot × Heap
  allocated contents heap none = (record { pointer = 0; length = length contents }, heap)
  allocated contents heap (some address) =
      (record { pointer = address; length = length contents }, (address, contents) ∷ heap)

  abbrev pub copy_bytes : Bytes → Heap → Slot × Heap
  copy_bytes [] heap = (null, heap)
  copy_bytes (b ∷ bs) heap = allocated (b ∷ bs) heap (malloc heap (length (b ∷ bs)))

  abbrev succeeded : Heap → Reply
  succeeded heap = record {
    status = 0;
    output = null;
    public_key = null;
    error = null;
    heap = heap;
  }

  abbrev copied_error : Bytes → Heap → Reply
  copied_error text heap = record {
    status = 1;
    output = null;
    public_key = null;
    error = (copy_bytes text heap).0;
    heap = (copy_bytes text heap).1;
  }

  abbrev copied_output : Bytes → Heap → Reply
  copied_output contents heap = record {
    status = 0;
    output = (copy_bytes contents heap).0;
    public_key = null;
    error = null;
    heap = (copy_bytes contents heap).1;
  }

  abbrev pub keynoxis_se_create : Attempt (Bytes × Bytes) → Heap → Reply
  keynoxis_se_create (gave (key, point)) heap = record {
    status = 0;
    output = (copy_bytes key heap).0;
    public_key = (copy_bytes point (copy_bytes key heap).1).0;
    error = null;
    heap = (copy_bytes point (copy_bytes key heap).1).1;
  }
  keynoxis_se_create (thrown text) heap = copied_error text heap

  abbrev pub keynoxis_se_sign : Attempt Bytes → Heap → Reply
  keynoxis_se_sign (gave signature) heap = copied_output signature heap
  keynoxis_se_sign (thrown text) heap = copied_error text heap

  -- `keynoxis_authorize_touch_id` and `keynoxis_authorize_security_settings_change`, by what they
  -- attempt.
  abbrev pub attempted : Attempt (Unit {0}) → Heap → Reply
  attempted (gave u) heap = succeeded heap
  attempted (thrown text) heap = copied_error text heap

  abbrev pub read_reply : Reading → Heap → Reply
  read_reply (found contents) heap = copied_output contents heap
  read_reply not_found heap = record (succeeded heap) { status = 2 }
  read_reply (failed text) heap = copied_error text heap

  abbrev pub keynoxis_security_policy_read : Keychain → Heap → Reply
  keynoxis_security_policy_read k heap = read_reply (reading k) heap

  abbrev pub keynoxis_security_policy_write : Keychain → Bytes → Heap → Reply
  keynoxis_security_policy_write k contents heap = attempted (writing k contents) heap

  abbrev pub keynoxis_autostart_set : Bool → LoginItem → (Bool → Attempt (Unit {0})) → Heap → Reply
  keynoxis_autostart_set enabled status ask heap =
      attempted (autostart_change enabled status ask) heap

abbrev keynoxis_autostart_status : LoginItem → ℕ
keynoxis_autostart_status is_enabled = 1
keynoxis_autostart_status requires_approval = 2
keynoxis_autostart_status not_registered = 0
keynoxis_autostart_status not_in_bundle = 0
