-- ===== src/Bridge/Answers.antt =====
-- What the calls across the bridge between the two languages return.
use keynoxis.Base.{
  ℕ, Bool, true, [], ◌∷◌, Option, none, some, String, Nat_eq, Result, ok, err, Bytes, length,
  unwrap_or, ◌≡◌, refl,
}
use keynoxis.Swift.{
  Heap, Malloc, Attempt, gave, thrown, Reading, Keychain, reading, writing, read_reply, LoginItem,
  allocated, copy_bytes, autostart_change, attempted,
}
use keynoxis.Bridge.{
  policy_answered, FromUtf8, completed, create, sign, authorize_touch_id, read_security_policy,
  write_security_policy, authorize_security_settings_change, set_autostart, login_answered,
}
use keynoxis.Bridge.Buffers.{
  IsFresh, FreshAt, requested, arrived, take_buffer_here, took_key-two, copy_bytes-allocated,
  requested-FreshAt, take_buffer-copy_bytes,
}

-- What a caller is told: the value, or the description of the error.
abbrev told : {A B : Type 0} → (A → B) → (Bytes → String) → Attempt A → Result B
told value description (gave a) = ok (value a)
told value description (thrown text) = err (description text)

module _ (from_utf8 : FromUtf8) (malloc : Malloc) (heap : Heap) where
  abbrev described : String → Bytes → String
  described fallback text = unwrap_or (from_utf8 (arrived malloc text heap)) fallback

  -- The login item has a text of its own when there is no buffer.
  abbrev described_login : Bytes → Option ℕ → String
  described_login text none = "macOS could not update the login item"
  described_login text (some a) = unwrap_or (from_utf8 text) "macOS rejected the login item"

  abbrev keys_told : Bytes × Bytes → Bytes × Bytes
  keys_told (key, point) =
      (arrived malloc key heap, arrived malloc point (copy_bytes malloc key heap).1)

  abbrev policy_told : Reading → Result (Option Bytes)
  policy_told (Reading.found contents) = ok (some (arrived malloc contents heap))
  policy_told Reading.not_found = ok none
  policy_told (Reading.failed text) = err (described "Could not read Keychain security policy" text)

  -- Each call gives what the other side made or threw, and leaves the heap as it was.
  pub record IsAnswered : Type 0 where
    pub create_answered :
        (a : Attempt (Bytes × Bytes))
        → create from_utf8 malloc true a heap
          ≡ some (told keys_told (described "Secure Enclave could not create the SSH key") a, heap)
    pub sign_answered :
        (a : Attempt Bytes)
        → sign from_utf8 malloc a heap
          ≡ some (
            told
                (λ s. arrived malloc s heap)
                (described "Secure Enclave refused the SSH signature")
                a,
            heap,
          )
    pub touch_answered :
        (a : Attempt (Unit {0}))
        → authorize_touch_id from_utf8 malloc a heap
          ≡ some (told (λ u. tt) (described "Touch ID authorization failed") a, heap)
    pub read_answered :
        (k : Keychain)
        → read_security_policy from_utf8 malloc k heap ≡ some (policy_told (reading k), heap)
    pub write_answered :
        (k : Keychain) (contents : Bytes)
        → write_security_policy from_utf8 malloc k contents heap
          ≡ some (
            told
                (λ u. tt)
                (described "Could not save Keychain security policy")
                (writing k contents),
            heap,
          )
    pub change_answered :
        (a : Attempt (Unit {0}))
        → authorize_security_settings_change from_utf8 malloc a heap
          ≡ some (told (λ u. tt) (described "Touch ID authorization failed") a, heap)
    pub autostart_answered :
        (enabled : Bool) (status : LoginItem) (ask : Bool → Attempt (Unit {0}))
        → set_autostart from_utf8 malloc enabled status ask heap
          ≡ some (
            told
                (λ u. tt)
                (λ text. described_login text (requested malloc text heap))
                (autostart_change enabled status ask),
            heap,
          )

  module _ (fresh : IsFresh malloc) where
    create_told :
        (a : Attempt (Bytes × Bytes))
        → create from_utf8 malloc true a heap
          ≡ some (told keys_told (described "Secure Enclave could not create the SSH key") a, heap)
    unfolding create
    create_told (gave (key, point)) =
        rw
          (
            copy_bytes-allocated malloc key heap,
            copy_bytes-allocated malloc point
                (allocated malloc key heap (requested malloc key heap)).1,
          )
          (took_key-two key point heap malloc (requested malloc key heap) _
            (requested-FreshAt malloc fresh key heap) (requested-FreshAt malloc fresh point _))
    create_told (thrown text) = rw (take_buffer-copy_bytes malloc fresh text heap) refl

    sign_told :
        (a : Attempt Bytes)
        → sign from_utf8 malloc a heap
          ≡ some (
            told
                (λ s. arrived malloc s heap)
                (described "Secure Enclave refused the SSH signature")
                a,
            heap,
          )
    unfolding sign
    sign_told (gave s) = rw (take_buffer-copy_bytes malloc fresh s heap) refl
    sign_told (thrown text) = rw (take_buffer-copy_bytes malloc fresh text heap) refl

    completed-attempted :
        (fallback : String) (a : Attempt (Unit {0}))
        → completed from_utf8 fallback (attempted malloc a heap)
          ≡ some (told (λ u. tt) (described fallback) a, heap)
    completed-attempted fallback (gave u) = refl
    completed-attempted fallback (thrown text) =
        rw (take_buffer-copy_bytes malloc fresh text heap) refl

    read_told :
        (r : Reading)
        → policy_answered from_utf8 (read_reply malloc r heap) ≡ some (policy_told r, heap)
    read_told (Reading.found contents) = rw (take_buffer-copy_bytes malloc fresh contents heap) refl
    read_told Reading.not_found = refl
    read_told (Reading.failed text) = rw (take_buffer-copy_bytes malloc fresh text heap) refl

    login_answered-thrown :
        (b : ℕ) (bs : Bytes) (o : Option ℕ)
        → malloc heap (length (b ∷ bs)) ≡ o
        → FreshAt heap o
        → login_answered from_utf8 (attempted malloc (thrown (b ∷ bs)) heap)
          ≡ some (err (described_login (b ∷ bs) o), heap)
    login_answered-thrown b bs none h k = rw h refl
    login_answered-thrown b bs (some a) h k =
        rw (h, take_buffer_here (b ∷ bs) heap (some a) malloc k, k.1) refl

    login_answered-attempted :
        (a : Attempt (Unit {0}))
        → login_answered from_utf8 (attempted malloc a heap)
          ≡ some
              (told (λ u. tt) (λ text. described_login text (requested malloc text heap)) a, heap)
    login_answered-attempted (gave u) = refl
    login_answered-attempted (thrown []) = refl
    login_answered-attempted (thrown (b ∷ bs)) =
        login_answered-thrown b bs _ refl (fresh heap (length (b ∷ bs)))

    -- On Apple silicon, if malloc gives fresh blocks, each call across the bridge returns what the
    -- frameworks gave, or the description of the error, neither reads nor frees what is not
    -- allocated, and leaves the heap as it was: each buffer is freed once. A buffer without memory
    -- arrives empty.
    pub platform-IsAnswered : IsAnswered
    unfolding authorize_touch_id read_security_policy write_security_policy
        authorize_security_settings_change set_autostart
    platform-IsAnswered = record {
      create_answered = create_told;
      sign_answered = sign_told;
      touch_answered = completed-attempted "Touch ID authorization failed";
      read_answered = λ k. read_told (reading k);
      write_answered = λ k contents.
          completed-attempted "Could not save Keychain security policy" (writing k contents);
      change_answered = completed-attempted "Touch ID authorization failed";
      autostart_answered =
          λ enabled status ask. login_answered-attempted (autostart_change enabled status ask);
    }
