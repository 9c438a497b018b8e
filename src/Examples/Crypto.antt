-- ===== src/Examples/Crypto.antt =====
-- Runs of the keyring (plaid-backend-golang/internal/crypto/keyring.go) with a toy cipher.
use money_insighter.Prelude.{
  ℕ, ◌≡◌, ◌+◌, refl, Option, some, List, [], ◌∷◌, ◌++◌, arith, length, drop, replicate, ◌↔◌, subst,
}
use money_insighter.Plaidsync.Crypto.{
  Bytes, nonce_size, tag_size, made, Aead, Keyring, new_aead, new_aeads, new_keyring, encrypt,
  decrypt,
}
use money_insighter.Plaidsync.Crypto.Valid.{IsUsable, IsRingOf, new_keyring-made}
use money_insighter.Plaidsync.Crypto.Rotation.{IsAead, decrypt-encrypt}

-- A tag of 16 bytes in front of the plaintext.
abbrev toy : Aead
toy = record {
  aead_nonce_size = 12;
  overhead = 16;
  seal = λ nonce plaintext aad. replicate 16 7 ++ plaintext;
  open_sealed = λ nonce text aad. some (drop 16 text);
}

abbrev toy_cipher : Bytes → Option Bytes
toy_cipher key = some key

abbrev toy_gcm : Bytes → Option Aead
toy_gcm block = some toy

toy-IsAead : IsAead toy
toy-IsAead = record {
  opens = λ nonce plaintext aad n. refl;
  sized = λ nonce plaintext aad. omega arith;
}

toy_law : (block : Bytes) (a : Aead) → toy_gcm block ≡ some a → IsAead a
toy_law block a h = subst IsAead (some_of h) toy-IsAead
  where
    some_of : some toy ≡ some a → toy ≡ a
    some_of e = cc

abbrev old_keys : List (ℕ × Bytes)
old_keys = (2, replicate 32 2) ∷ (1, replicate 32 1) ∷ []

-- Version 3 became active and version 1 was dropped.
abbrev new_keys : List (ℕ × Bytes)
new_keys = (2, replicate 32 2) ∷ (3, replicate 32 3) ∷ []

abbrev token : Bytes
token = 97 ∷ 98 ∷ []

abbrev old_ring : Keyring
old_ring = record { active = 2; aeads = (1, toy) ∷ (2, toy) ∷ []; versions = 1 ∷ 2 ∷ [] }

abbrev new_ring : Keyring
new_ring = record { active = 3; aeads = (2, toy) ∷ (3, toy) ∷ []; versions = 2 ∷ 3 ∷ [] }

old_made : new_keyring toy_cipher toy_gcm 2 old_keys ≡ made old_ring
unfolding new_keyring new_aeads new_aead
old_made = refl

new_made : new_keyring toy_cipher toy_gcm 3 new_keys ≡ made new_ring
unfolding new_keyring new_aeads new_aead
new_made = refl

decrypt-encrypt_example :
    (blob : Bytes) × (encrypt old_ring (some (replicate 12 9)) token (5 ∷ [])
      ≡ some (made (blob, 2)))
    × (length blob ≡ nonce_size + length token + tag_size)
    × (decrypt new_ring blob 2 (5 ∷ []) ≡ made token)
decrypt-encrypt_example =
    decrypt-encrypt toy_cipher toy_gcm toy_law 2 3 old_keys new_keys old_ring new_ring
      (replicate 12 9) token (5 ∷ []) old_made new_made refl refl refl

new_keyring-made_example :
    ((ring : Keyring) × (new_keyring toy_cipher toy_gcm 2 old_keys ≡ made ring)
      × IsRingOf 2 old_keys ring)
    ↔ IsUsable 2 old_keys
new_keyring-made_example =
    new_keyring-made toy_cipher toy_gcm (λ key _. (key, refl)) (λ block. (toy, refl, (refl, refl)))
      2 old_keys
