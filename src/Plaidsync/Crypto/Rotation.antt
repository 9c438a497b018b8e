-- ===== src/Plaidsync/Crypto/Rotation.antt =====
-- `Encrypt` under one keyring and `Decrypt` under another that still has the key.
use money_insighter.Prelude.{
  ℕ, zero, suc, ◌≡◌, ◌+◌, refl, sym, ap, ap₂, ◌∙◌, subst, false, Option, none, some, List, [], ◌∷◌,
  ◌++◌, arith, length, ◌==◌, ◌&&◌, if◌then◌else◌, if-elim, take, drop, is_empty, ltb, length-append,
}
use money_insighter.Plaidsync.Crypto.{
  Bytes, nonce_size, key_size, tag_size, failed, made, invalid_key_size, unexpected_sizes,
  sizes_tested, Aead, Keyring, at, has_key, key_or_empty, gcm_made, cipher_made, new_aead,
  new_keyring, empty_plaintext, sealed, encrypt, opened, decrypt, ciphertext_too_short,
  unknown_key_version,
}
use money_insighter.Plaidsync.Crypto.Keys.{made_inj, Serves, serves}
use money_insighter.Plaidsync.Crypto.Valid.{Ready, ready, new_keyring-Ready, Ready-Serves}

-- What the source relies on of an AEAD: with a nonce of its size what it seals it opens, and the
-- sealed text is longer by the tag.
pub record IsAead (a : Aead) : Type 0 where
  pub opens :
      (nonce plaintext aad : Bytes)
      → length nonce ≡ nonce_size
      → a.open_sealed nonce (a.seal nonce plaintext aad) aad ≡ some plaintext
  pub sized :
      (nonce plaintext aad : Bytes)
      → length (a.seal nonce plaintext aad) ≡ length plaintext + tag_size

take-append : {A : Type 0} (n : ℕ) (xs ys : List A) → length xs ≡ n → take n (xs ++ ys) ≡ xs
take-append zero [] ys h = refl
take-append zero (x ∷ xs) ys h = absurd omega arith
take-append (suc n) [] ys h = absurd omega arith
take-append (suc n) (x ∷ xs) ys h = ap (λ l. x ∷ l) (take-append n xs ys (omega arith))

drop-append : {A : Type 0} (n : ℕ) (xs ys : List A) → length xs ≡ n → drop n (xs ++ ys) ≡ ys
drop-append zero [] ys h = refl
drop-append zero (x ∷ xs) ys h = absurd omega arith
drop-append (suc n) [] ys h = absurd omega arith
drop-append (suc n) (x ∷ xs) ys h = drop-append n xs ys (omega arith)

-- `Decrypt` with the AEAD that sealed the blob.
decrypt_own :
    (k : Keyring) (version : ℕ) (a : Aead) (nonce plaintext aad : Bytes)
    → at version k.aeads ≡ some a
    → IsAead a
    → length nonce ≡ nonce_size
    → decrypt k (nonce ++ a.seal nonce plaintext aad) version aad ≡ made plaintext
unfolding decrypt
decrypt_own k version a nonce plaintext aad found law n =
    let blob = nonce ++ a.seal nonce plaintext aad in
    let size = law.sized nonce plaintext aad in
    ap
      (λ o. elim o [
        | none ↦ failed (unknown_key_version version)
        | some a ↦
            if ltb (length blob) (nonce_size + tag_size)
            then failed (ciphertext_too_short (length blob))
            else opened version (a.open_sealed (take nonce_size blob) (drop nonce_size blob) aad)
      ])
      found
    ∙ ap
        (λ b.
          if b
          then failed (ciphertext_too_short (length blob))
          else opened version (a.open_sealed (take nonce_size blob) (drop nonce_size blob) aad))
        (long (length blob) (length plaintext) (length-append nonce _ ∙ ap₂ (λ x y. x + y) n size))
    ∙ ap₂ (λ x y. opened version (a.open_sealed x y aad)) (take-append nonce_size nonce _ n)
        (drop-append nonce_size nonce _ n)
    ∙ ap (opened version) (law.opens nonce plaintext aad n)
  where
    long : (l p : ℕ) → l ≡ nonce_size + (p + tag_size) → ltb l (nonce_size + tag_size) ≡ false
    long l p e = ground arith

encrypt_own :
    (k : Keyring) (a : Aead) (nonce plaintext aad : Bytes)
    → is_empty plaintext ≡ false
    → at k.active k.aeads ≡ some a
    → encrypt k (some nonce) plaintext aad
      ≡ some (made (nonce ++ a.seal nonce plaintext aad, k.active))
unfolding encrypt
encrypt_own k a nonce plaintext aad full found =
    ap
      (λ b.
        if b
        then some (failed empty_plaintext)
        else sealed k.active (at k.active k.aeads) nonce plaintext aad)
      full
    ∙ ap (λ o. sealed k.active o nonce plaintext aad) found

module _ {Block : Type 0} (new_cipher : Bytes → Option Block) (new_gcm : Block → Option Aead)
    (gcm_law : (block : Block) (a : Aead) → new_gcm block ≡ some a → IsAead a) where
  sizes_tested-IsAead :
      (block : Block) (a b : Aead) → new_gcm block ≡ some a → sizes_tested a ≡ made b → IsAead b
  sizes_tested-IsAead block a b e h =
      if-elim (λ r. r ≡ made b → IsAead b)
        ((a.aead_nonce_size == nonce_size) && (a.overhead == tag_size)) (made a)
        (failed unexpected_sizes) (λ _ k. subst IsAead (made_inj k) (gcm_law block a e)) (λ _ k. cc)
        h

  gcm_made-IsAead :
      (block : Block) (o : Option Aead) (b : Aead)
      → new_gcm block ≡ o
      → gcm_made new_cipher new_gcm o ≡ made b
      → IsAead b
  gcm_made-IsAead block none b e h = cc
  gcm_made-IsAead block (some a) b e h = sizes_tested-IsAead block a b e h

  cipher_made-IsAead :
      (o : Option Block) (b : Aead) → cipher_made new_cipher new_gcm o ≡ made b → IsAead b
  cipher_made-IsAead none b h = cc
  cipher_made-IsAead (some block) b h = gcm_made-IsAead block _ b refl h

  new_aead-IsAead : (key : Bytes) (b : Aead) → new_aead new_cipher new_gcm key ≡ made b → IsAead b
  unfolding new_aead
  new_aead-IsAead key b h =
      if-elim (λ r. r ≡ made b → IsAead b) (length key == key_size)
        (cipher_made new_cipher new_gcm (new_cipher key)) (failed (invalid_key_size (length key)))
        (λ _ k. cipher_made-IsAead (new_cipher key) b k) (λ _ k. cc) h

  -- The round trip for the cipher that each ring has for the version.
  between :
      (ring ring' : Keyring) (keys keys' : List (ℕ × Bytes)) (nonce plaintext aad : Bytes)
      → at ring.active keys' ≡ at ring.active keys
      → length nonce ≡ nonce_size
      → is_empty plaintext ≡ false
      → Serves new_cipher new_gcm keys ring.aeads ring.active
      → Serves new_cipher new_gcm keys' ring'.aeads ring.active
      → (blob : Bytes) × (encrypt ring (some nonce) plaintext aad ≡ some (made (blob, ring.active)))
        × (length blob ≡ nonce_size + length plaintext + tag_size)
        × (decrypt ring' blob ring.active aad ≡ made plaintext)
  between ring ring' keys keys' nonce plaintext aad kept n full (serves a found new _)
        (serves a' found' new' _) =
      let law = new_aead-IsAead (key_or_empty (at ring.active keys)) a new in
      let same : a' ≡ a =
        made_inj (sym new' ∙ ap (λ o. new_aead new_cipher new_gcm (key_or_empty o)) kept ∙ new) in
      (
        nonce ++ a.seal nonce plaintext aad,
        encrypt_own ring a nonce plaintext aad full found,
        total _ _ _ (length plaintext) (length-append nonce (a.seal nonce plaintext aad)) n
            (law.sized nonce plaintext aad),
        decrypt_own ring' ring.active a nonce plaintext aad (found' ∙ ap some same) law n,
      )
    where
      total :
          (l x y p : ℕ)
          → l ≡ x + y
          → x ≡ nonce_size
          → y ≡ p + tag_size
          → l ≡ nonce_size + p + tag_size
      total l x y p e f g = omega arith

  -- Where every AEAD of GCM opens what it seals under a nonce of 12 bytes and adds 16 bytes: a ring
  -- of `NewKeyring` with active version v encrypts a plaintext that is not empty under a nonce of 12
  -- bytes to a blob longer by 28 bytes, with the version v, and every ring of `NewKeyring` whose keys
  -- have the same entry for v, whatever its own active version and other keys, decrypts the blob for
  -- v and the same additional data to the plaintext.
  pub decrypt-encrypt :
      (active active' : ℕ) (keys keys' : List (ℕ × Bytes)) (ring ring' : Keyring)
      (nonce plaintext aad : Bytes)
      → new_keyring new_cipher new_gcm active keys ≡ made ring
      → new_keyring new_cipher new_gcm active' keys' ≡ made ring'
      → at active keys' ≡ at active keys
      → length nonce ≡ nonce_size
      → is_empty plaintext ≡ false
      → (blob : Bytes) × (encrypt ring (some nonce) plaintext aad ≡ some (made (blob, active)))
        × (length blob ≡ nonce_size + length plaintext + tag_size)
        × (decrypt ring' blob active aad ≡ made plaintext)
  decrypt-encrypt active active' keys keys' ring ring' nonce plaintext aad h h' kept n full =
      go (new_keyring-Ready new_cipher new_gcm active keys ring h)
    where
      go :
          Ready new_cipher new_gcm active keys ring
          → (blob : Bytes) × (encrypt ring (some nonce) plaintext aad ≡ some (made (blob, active)))
            × (length blob ≡ nonce_size + length plaintext + tag_size)
            × (decrypt ring' blob active aad ≡ made plaintext)
      go (ready m ok own loop same) =
          let first =
            Ready-Serves new_cipher new_gcm active keys ring active (ready m ok own loop same)
              own in
          let second =
            Ready-Serves new_cipher new_gcm active' keys' ring' active
              (new_keyring-Ready new_cipher new_gcm active' keys' ring' h')
              (ap has_key kept ∙ own) in
          subst
            (λ v.
              at v keys' ≡ at v keys
              → Serves new_cipher new_gcm keys ring.aeads v
              → Serves new_cipher new_gcm keys' ring'.aeads v
              → (blob : Bytes) × (encrypt ring (some nonce) plaintext aad ≡ some (made (blob, v)))
                × (length blob ≡ nonce_size + length plaintext + tag_size)
                × (decrypt ring' blob v aad ≡ made plaintext))
            (ap (λ r. r.active) same)
            (λ k s s'. between ring ring' keys keys' nonce plaintext aad k n full s s') kept first
            second
