-- ===== src/Agent/Identities/Order.antt =====
-- The order in which `identities` (src-tauri/src/agent/server.rs) offers the keys.
use mathlib.Core.List.{Perm}
use keynoxis.Base.{
  ℕ, true, false, List, String, Nat_eq, ◌≡◌, arith, Sorted, sort_by-perm, sort_by-Sorted,
  bytes_le_total, bytes_le_trans,
}
use keynoxis.State.{SshKey}
use keynoxis.Agent.Identities.{key_le, sort_keys, sort_name}

module _ (to_lowercase : String → String) (preferred : ℕ) where
  key_le_total :
      (a b : SshKey)
      → key_le to_lowercase preferred a b ≡ false
      → key_le to_lowercase preferred b a ≡ true
  unfolding key_le
  key_le_total a b h =
      ground (arith, bytes_le_total (sort_name to_lowercase a) (sort_name to_lowercase b))

  key_le_trans :
      (a b c : SshKey)
      → key_le to_lowercase preferred a b ≡ true
      → key_le to_lowercase preferred b c ≡ true
      → key_le to_lowercase preferred a c ≡ true
  unfolding key_le
  key_le_trans a b c h k = ground (
    arith,
    bytes_le_trans (sort_name to_lowercase a) (sort_name to_lowercase b) (sort_name to_lowercase c),
  )

  -- `sort_keys` gives the same keys, each as often, in the order of the backend's priority and, at
  -- one priority, of the lower case of the comment.
  sort_keys-Sorted :
      (ks : List SshKey)
      → Perm (sort_keys to_lowercase preferred ks) ks
        × Sorted (key_le to_lowercase preferred) (sort_keys to_lowercase preferred ks)
  unfolding sort_keys
  sort_keys-Sorted ks = (
    sort_by-perm (key_le to_lowercase preferred) ks,
    sort_by-Sorted (key_le to_lowercase preferred) key_le_total key_le_trans ks,
  )
