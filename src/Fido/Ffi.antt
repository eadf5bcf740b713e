-- ===== src/Fido/Ffi.antt =====
-- src-tauri/src/fido/ffi.rs: the codes of libfido2 and their messages.
use keynoxis.Base.{ℕ, ◌||◌, String, if◌then◌else◌, ◌==◌, Nat_eq}

abbrev pub fido_ok : ℕ
fido_ok = 0

abbrev pub fido_err_pin_invalid : ℕ
fido_err_pin_invalid = 0x31

abbrev pub fido_err_pin_blocked : ℕ
fido_err_pin_blocked = 0x32

abbrev pub fido_err_pin_auth_blocked : ℕ
fido_err_pin_auth_blocked = 0x34

abbrev pub fido_err_operation_denied : ℕ
fido_err_operation_denied = 0x27

abbrev pub fido_err_keepalive_cancel : ℕ
fido_err_keepalive_cancel = 0x2d

abbrev pub fido_err_no_credentials : ℕ
fido_err_no_credentials = 0x2e

-- The text of a code, `fido_strerr` with its fallback, is a parameter. The codes that the program
-- tells apart are not negative; of the others it uses only the text.
unfoldable pub signing_error_message : (ℕ → String) → ℕ → String
signing_error_message error_message code =
    if code == fido_err_operation_denied || code == fido_err_keepalive_cancel
    then "Touch timed out. No SSH signature was created."
    else error_message code
