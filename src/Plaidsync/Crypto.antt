-- ===== src/Plaidsync/Crypto.antt =====
-- The keyring that encrypts access tokens: plaid-backend-golang/internal/crypto/keyring.go.
-- The block cipher, its GCM mode and the random source are parameters.
pub mod Ring
pub mod Keys
pub mod Valid
pub mod Rotation
use money_insighter.Prelude.{
  ℕ, ◌+◌, Bool, true, false, Option, none, some, List, [], ◌∷◌, ◌++◌, length, take, drop, is_empty,
  ◌==◌, ◌&&◌, ltb, leb, if◌then◌else◌,
}

abbrev pub nonce_size : ℕ
nonce_size = 12

abbrev pub key_size : ℕ
key_size = 32

abbrev pub tag_size : ℕ
tag_size = 16

-- A byte is a number below 256.
abbrev pub Bytes : Type 0
Bytes = List ℕ

pub data CryptoError : Type 0 where
  unknown_key_version : ℕ → CryptoError
  ciphertext_too_short : ℕ → CryptoError
  decrypt_failed : ℕ → CryptoError
  invalid_key_size : ℕ → CryptoError
  invalid_key_version : CryptoError
  active_key_missing : ℕ → CryptoError
  empty_plaintext : CryptoError
  no_cipher : CryptoError
  no_gcm : CryptoError
  unexpected_sizes : CryptoError
  no_nonce : CryptoError
  for_version : ℕ → CryptoError → CryptoError

pub data Attempt (A : Type 0) : Type 0 where
  failed : CryptoError → Attempt A
  made : A → Attempt A

-- cipher.AEAD: `seal` and `open_sealed` take the nonce, the text and the additional data.
pub record Aead : Type 0 where
  pub aead_nonce_size : ℕ
  pub overhead : ℕ
  pub seal : Bytes → Bytes → Bytes → Bytes
  pub open_sealed : Bytes → Bytes → Bytes → Option Bytes

pub record Keyring : Type 0 where
  pub active : ℕ
  pub aeads : List (ℕ × Aead)
  pub versions : List ℕ

-- A map by key version.
abbrev pub at : {A : Type 0} → ℕ → List (ℕ × A) → Option A
at v [] = none
at v ((w, a) ∷ m) = if w == v then some a else at v m

abbrev pub insert_version : ℕ → List ℕ → List ℕ
insert_version v [] = v ∷ []
insert_version v (w ∷ ws) = if leb v w then v ∷ w ∷ ws else w ∷ insert_version v ws

-- slices.Sorted(maps.Keys(keys))
abbrev pub sorted_versions : {A : Type 0} → List (ℕ × A) → List ℕ
sorted_versions [] = []
sorted_versions ((v, a) ∷ m) = insert_version v (sorted_versions m)

-- keys[v]: without an entry the zero value.
abbrev pub key_or_empty : Option Bytes → Bytes
key_or_empty none = []
key_or_empty (some key) = key

abbrev pub sizes_tested : Aead → Attempt Aead
sizes_tested a =
    if (a.aead_nonce_size == nonce_size) && (a.overhead == tag_size)
    then made a
    else failed unexpected_sizes

abbrev pub with_aead : ℕ → Attempt Aead → Attempt (List (ℕ × Aead)) → Attempt (List (ℕ × Aead))
with_aead v (failed e) rest = failed (for_version v e)
with_aead v (made a) (failed e) = failed e
with_aead v (made a) (made m) = made ((v, a) ∷ m)

abbrev pub keyring_of : ℕ → List ℕ → Attempt (List (ℕ × Aead)) → Attempt Keyring
keyring_of active vs (failed e) = failed e
keyring_of active vs (made m) = made (record { active = active; aeads = m; versions = vs })

-- _, ok := keys[v]
abbrev pub has_key : {A : Type 0} → Option A → Bool
has_key none = false
has_key (some key) = true

-- aes.NewCipher and cipher.NewGCM; `none` is an error.
module _ {Block : Type 0} (new_cipher : Bytes → Option Block) (new_gcm : Block → Option Aead) where
  abbrev gcm_made : Option Aead → Attempt Aead
  gcm_made none = failed no_gcm
  gcm_made (some a) = sizes_tested a

  abbrev cipher_made : Option Block → Attempt Aead
  cipher_made none = failed no_cipher
  cipher_made (some block) = gcm_made (new_gcm block)

  unfoldable pub new_aead : Bytes → Attempt Aead
  new_aead key =
      if length key == key_size
      then cipher_made (new_cipher key)
      else failed (invalid_key_size (length key))

  -- The loop of `NewKeyring` over the versions; the first problem is the error.
  unfoldable pub new_aeads : List ℕ → List (ℕ × Bytes) → Attempt (List (ℕ × Aead))
  new_aeads [] keys = made []
  new_aeads (v ∷ vs) keys =
      let rest = new_aeads vs keys in
      if v == 0
      then failed invalid_key_version
      else with_aead v (new_aead (key_or_empty (at v keys))) rest

  unfoldable pub new_keyring : ℕ → List (ℕ × Bytes) → Attempt Keyring
  unfolding new_aeads
  new_keyring active keys =
      if active == 0
      then failed invalid_key_version
      else if has_key (at active keys)
      then keyring_of active (sorted_versions keys) (new_aeads (sorted_versions keys) keys)
      else failed (active_key_missing active)

-- The nil AEAD of a missing map entry panics in the source: `none`.
abbrev pub sealed : ℕ → Option Aead → Bytes → Bytes → Bytes → Option (Attempt (Bytes × ℕ))
sealed active none nonce plaintext aad = none
sealed active (some a) nonce plaintext aad =
    some (made (nonce ++ a.seal nonce plaintext aad, active))

-- `nonce` is what rand.Read fills in; `none` is its error.
unfoldable pub encrypt : Keyring → Option Bytes → Bytes → Bytes → Option (Attempt (Bytes × ℕ))
encrypt k nonce plaintext aad =
    if is_empty plaintext then some (failed empty_plaintext) else elim nonce [
      | none ↦ some (failed no_nonce)
      | some n ↦ sealed k.active (at k.active k.aeads) n plaintext aad
    ]

abbrev pub opened : ℕ → Option Bytes → Attempt Bytes
opened version none = failed (decrypt_failed version)
opened version (some plaintext) = made plaintext

unfoldable pub decrypt : Keyring → Bytes → ℕ → Bytes → Attempt Bytes
decrypt k blob version aad = elim (at version k.aeads) [
  | none ↦ failed (unknown_key_version version)
  | some a ↦
      if ltb (length blob) (nonce_size + tag_size)
      then failed (ciphertext_too_short (length blob))
      else opened version (a.open_sealed (take nonce_size blob) (drop nonce_size blob) aad)
]
