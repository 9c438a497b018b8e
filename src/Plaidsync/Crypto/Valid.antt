-- ===== src/Plaidsync/Crypto/Valid.antt =====
-- When `NewKeyring` succeeds, and what its keyring holds.
use money_insighter.Prelude.{
  ==-refl, ◌||◌, ap, ap₂, ◌&&◌, ◌↔◌, ℕ, ◌≡◌, refl, sym, ◌∙◌, subst, Bool, All, true, false, Option,
  some, List, [], ◌∷◌, length, ◌==◌, ==-eq, if◌then◌else◌, if-elim,
}
use money_insighter.Plaidsync.Crypto.{
  nonce_size, tag_size, key_or_empty, unexpected_sizes, sizes_tested, gcm_made, Bytes, key_size,
  Attempt, failed, made, invalid_key_version, active_key_missing, invalid_key_size, Aead, Keyring,
  at, sorted_versions, has_key, keyring_of, cipher_made, new_aead, new_aeads, new_keyring,
}
use money_insighter.Plaidsync.Crypto.Ring.{
  contains, contains-sorted_versions, Ascending, Ascending-sorted_versions,
}
use money_insighter.Plaidsync.Crypto.Keys.{
  made_inj, Serves, serves, new_aeads-Serves, Makes, new_aeads-made,
}

module _ {Block : Type 0} (new_cipher : Bytes → Option Block) (new_gcm : Block → Option Aead) where
  -- The tests that `NewKeyring` passed.
  pub data Ready (active : ℕ) (keys : List (ℕ × Bytes)) (ring : Keyring) : Type 0 where
    ready :
        (m : List (ℕ × Aead))
        → (active == 0) ≡ false
        → has_key (at active keys) ≡ true
        → new_aeads new_cipher new_gcm (sorted_versions keys) keys ≡ made m
        → ring ≡ record { active = active; aeads = m; versions = sorted_versions keys }
        → Ready active keys ring

  keyring_of-Ready :
      (active : ℕ) (keys : List (ℕ × Bytes)) (ring : Keyring) (r : Attempt (List (ℕ × Aead)))
      → new_aeads new_cipher new_gcm (sorted_versions keys) keys ≡ r
      → (active == 0) ≡ false
      → has_key (at active keys) ≡ true
      → keyring_of active (sorted_versions keys) r ≡ made ring
      → Ready active keys ring
  keyring_of-Ready active keys ring (failed e) loop ok own h = cc
  keyring_of-Ready active keys ring (made m) loop ok own h = ready m ok own loop (sym (made_inj h))

  pub new_keyring-Ready :
      (active : ℕ) (keys : List (ℕ × Bytes)) (ring : Keyring)
      → new_keyring new_cipher new_gcm active keys ≡ made ring
      → Ready active keys ring
  unfolding new_keyring
  new_keyring-Ready active keys ring h =
      if-elim (λ r. r ≡ made ring → Ready active keys ring) (active == 0)
        (failed invalid_key_version)
        (if has_key (at active keys)
          then keyring_of active (sorted_versions keys)
              (new_aeads new_cipher new_gcm (sorted_versions keys) keys)
          else failed (active_key_missing active))
        (λ _ k. cc)
        (λ ok.
          if-elim (λ r. r ≡ made ring → Ready active keys ring) (has_key (at active keys))
            (keyring_of active (sorted_versions keys)
              (new_aeads new_cipher new_gcm (sorted_versions keys) keys))
            (failed (active_key_missing active))
            (λ own k. keyring_of-Ready active keys ring _ refl ok own k) (λ _ k. cc))
        h

  -- Every version of the ring is above 0 and has a cipher made from a key of 32 bytes.
  pub Ready-Serves :
      (active : ℕ) (keys : List (ℕ × Bytes)) (ring : Keyring) (v : ℕ)
      → Ready active keys ring
      → has_key (at v keys) ≡ true
      → Serves new_cipher new_gcm keys ring.aeads v
  Ready-Serves active keys ring v (ready m ok own loop same) there =
      subst (λ r. Serves new_cipher new_gcm keys r.aeads v) (sym same)
        (new_aeads-Serves new_cipher new_gcm v (sorted_versions keys) keys m loop
          (contains-sorted_versions v keys ∙ there))

  -- The size that `newAEAD` tests.
  pub new_aead_size :
      (key : Bytes) (a : Aead) → new_aead new_cipher new_gcm key ≡ made a → length key ≡ key_size
  unfolding new_aead
  new_aead_size key a h =
      if-elim (λ r. r ≡ made a → length key ≡ key_size) (length key == key_size)
        (cipher_made new_cipher new_gcm (new_cipher key)) (failed (invalid_key_size (length key)))
        (λ e k. ==-eq (length key) key_size e) (λ _ k. cc) h

-- What `NewKeyring` asks of its arguments.
abbrev pub IsUsable : ℕ → List (ℕ × Bytes) → Type 0
IsUsable active keys =
    ((active == 0) ≡ false)
    × (has_key (at active keys) ≡ true)
    × ((v : ℕ)
        → has_key (at v keys) ≡ true
        → ((v == 0) ≡ false) × (length (key_or_empty (at v keys)) ≡ key_size))

-- A ring with the active version and, in order, the versions of the keys.
abbrev pub IsRingOf : ℕ → List (ℕ × Bytes) → Keyring → Type 0
IsRingOf active keys ring =
    (ring.active ≡ active)
    × Ascending ring.versions
    × ((v : ℕ) → contains v ring.versions ≡ has_key (at v keys))

-- The sizes of AES-GCM.
abbrev pub IsGcm : Aead → Type 0
IsGcm a = (a.aead_nonce_size ≡ nonce_size) × (a.overhead ≡ tag_size)

All-contains : (P : ℕ → Type 0) (vs : List ℕ) → ((v : ℕ) → contains v vs ≡ true → P v) → All P vs
All-contains P [] h = tt
All-contains P (w ∷ vs) h = (
  h w (ap (λ b. b || contains w vs) (==-refl w)),
  All-contains P vs (λ v c. h v (ap (λ b. (w == v) || b) c ∙ or_true (w == v))),
)
  where
    or_true : (b : Bool) → (b || true) ≡ true
    or_true true = refl
    or_true false = refl

sizes_tested-made : (a : Aead) → IsGcm a → sizes_tested a ≡ made a
sizes_tested-made a (n, o) =
    ap₂ (λ x y. if (x == nonce_size) && (y == tag_size) then made a else failed unexpected_sizes) n
      o

module _ {Block : Type 0} (new_cipher : Bytes → Option Block) (new_gcm : Block → Option Aead)
    (cipher_works : (key : Bytes)
      → length key ≡ key_size
      → (block : Block) × (new_cipher key ≡ some block))
    (gcm_works : (block : Block) → (a : Aead) × (new_gcm block ≡ some a) × IsGcm a) where
  new_aead-made :
      (key : Bytes)
      → length key ≡ key_size
      → (a : Aead) × (new_aead new_cipher new_gcm key ≡ made a)
  unfolding new_aead
  new_aead-made key h =
      let (block, e) = cipher_works key h in
      let (a, f, sizes) = gcm_works block in
      (
        a,
        ap
              (λ n.
                if n == key_size
                then cipher_made new_cipher new_gcm (new_cipher key)
                else failed (invalid_key_size n))
              h
            ∙ ap (cipher_made new_cipher new_gcm) e
            ∙ ap (gcm_made new_cipher new_gcm) f
            ∙ sizes_tested-made a sizes,
      )

  every_version :
      (active : ℕ) (keys : List (ℕ × Bytes))
      → IsUsable active keys
      → All (Makes new_cipher new_gcm keys) (sorted_versions keys)
  every_version active keys (ok, own, each) =
      All-contains (Makes new_cipher new_gcm keys) (sorted_versions keys) (λ v c.
        let (above, size) = each v (sym (contains-sorted_versions v keys) ∙ c) in
        let (a, new) = new_aead-made (key_or_empty (at v keys)) size in (above, a, new))

  usable :
      (active : ℕ) (keys : List (ℕ × Bytes))
      → IsUsable active keys
      → (ring : Keyring) × (new_keyring new_cipher new_gcm active keys ≡ made ring)
        × IsRingOf active keys ring
  unfolding new_keyring
  usable active keys (ok, own, each) =
      let (m, loop) =
        new_aeads-made new_cipher new_gcm (sorted_versions keys) keys
          (every_version active keys (ok, own, each)) in
      (
        record { active = active; aeads = m; versions = sorted_versions keys },
        ap
              (λ b.
                if b
                then failed invalid_key_version
                else if has_key (at active keys)
                then keyring_of active (sorted_versions keys)
                    (new_aeads new_cipher new_gcm (sorted_versions keys) keys)
                else failed (active_key_missing active))
              ok
            ∙ ap
                (λ b.
                  if b
                  then keyring_of active (sorted_versions keys)
                      (new_aeads new_cipher new_gcm (sorted_versions keys) keys)
                  else failed (active_key_missing active))
                own
            ∙ ap (keyring_of active (sorted_versions keys)) loop,
        (refl, Ascending-sorted_versions keys, λ v. contains-sorted_versions v keys),
      )

  Ready-IsUsable :
      (active : ℕ) (keys : List (ℕ × Bytes)) (ring : Keyring)
      → Ready new_cipher new_gcm active keys ring
      → IsUsable active keys
  Ready-IsUsable active keys ring (ready m ok own loop same) = (
    ok,
    own,
    λ v there.
        of_served v
          (Ready-Serves new_cipher new_gcm active keys ring v (ready m ok own loop same) there),
  )
    where
      of_served :
          (v : ℕ)
          → Serves new_cipher new_gcm keys ring.aeads v
          → ((v == 0) ≡ false) × (length (key_or_empty (at v keys)) ≡ key_size)
      of_served v (serves a found new above) = (above, new_aead_size new_cipher new_gcm _ a new)

  -- Where AES makes a block cipher of every key of 32 bytes and GCM its mode of every block cipher
  -- with a nonce of 12 and a tag of 16 bytes: `NewKeyring` returns a ring exactly if the active
  -- version is above 0 and among the keys and every version of the keys is above 0 with a key of 32
  -- bytes; the ring then has the active version and in ascending order exactly the versions of the keys.
  pub new_keyring-made :
      (active : ℕ) (keys : List (ℕ × Bytes))
      → ((ring : Keyring) × (new_keyring new_cipher new_gcm active keys ≡ made ring)
          × IsRingOf active keys ring)
        ↔ IsUsable active keys
  new_keyring-made active keys = (
    λ r. Ready-IsUsable active keys r.0 (new_keyring-Ready new_cipher new_gcm active keys r.0 r.1),
    usable active keys,
  )
