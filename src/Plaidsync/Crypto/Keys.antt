-- ===== src/Plaidsync/Crypto/Keys.antt =====
-- The loop of `NewKeyring`: the cipher that it makes for each version.
use money_insighter.Prelude.{
  ℕ, ◌≡◌, refl, sym, ap, ap₂, All, ◌∙◌, subst, true, false, Option, some, List, [], ◌∷◌, arith,
  ◌==◌, ==-eq, ◌||◌, if◌then◌else◌, if-elim, Bool-cases, inl, inr, ◌⊎◌,
}
use money_insighter.Plaidsync.Crypto.{
  Bytes, Attempt, failed, made, invalid_key_version, Aead, at, key_or_empty, new_aead, with_aead,
  new_aeads,
}
use money_insighter.Plaidsync.Crypto.Ring.{contains}

pub made_inj : {A : Type 0} {a b : A} → made a ≡ made b → a ≡ b
made_inj h = cc

-- What `with_aead` needs to succeed, and what it then makes.
data Added (v : ℕ) (here : Attempt Aead) (rest : Attempt (List (ℕ × Aead))) (m : List (ℕ × Aead))
    : Type 0 where
  added :
      (a : Aead) (m' : List (ℕ × Aead))
      → here ≡ made a
      → rest ≡ made m'
      → m ≡ (v, a) ∷ m'
      → Added v here rest m

with_aead-Added :
    (v : ℕ) (here : Attempt Aead) (rest : Attempt (List (ℕ × Aead))) (m : List (ℕ × Aead))
    → with_aead v here rest ≡ made m
    → Added v here rest m
with_aead-Added v (failed e) rest m h = cc
with_aead-Added v (made a) (failed e) m h = cc
with_aead-Added v (made a) (made m') m h = added a m' refl refl (sym (made_inj h))

module _ {Block : Type 0} (new_cipher : Bytes → Option Block) (new_gcm : Block → Option Aead) where
  -- A version whose cipher is in the map, made from its key.
  pub data Serves (keys : List (ℕ × Bytes)) (m : List (ℕ × Aead)) (v : ℕ) : Type 0 where
    serves :
        (a : Aead)
        → at v m ≡ some a
        → new_aead new_cipher new_gcm (key_or_empty (at v keys)) ≡ made a
        → (v == 0) ≡ false
        → Serves keys m v

  data Looped (v : ℕ) (vs : List ℕ) (keys : List (ℕ × Bytes)) (m : List (ℕ × Aead)) : Type 0 where
    looped :
        (v == 0) ≡ false
        → Added v
            (new_aead new_cipher new_gcm (key_or_empty (at v keys)))
            (new_aeads new_cipher new_gcm vs keys)
            m
        → Looped v vs keys m

  new_aeads-Looped :
      (v : ℕ) (vs : List ℕ) (keys : List (ℕ × Bytes)) (m : List (ℕ × Aead))
      → new_aeads new_cipher new_gcm (v ∷ vs) keys ≡ made m
      → Looped v vs keys m
  unfolding new_aeads
  new_aeads-Looped v vs keys m h =
      if-elim (λ r. r ≡ made m → Looped v vs keys m) (v == 0) (failed invalid_key_version)
        (with_aead v (new_aead new_cipher new_gcm (key_or_empty (at v keys)))
          (new_aeads new_cipher new_gcm vs keys))
        (λ _ k. cc) (λ e k. looped e (with_aead-Added v _ _ m k)) h

  Serves-later :
      (keys : List (ℕ × Bytes)) (m : List (ℕ × Aead)) (v w : ℕ) (a : Aead)
      → (w == v) ≡ false
      → Serves keys m v
      → Serves keys ((w, a) ∷ m) v
  Serves-later keys m v w a e (serves b found new ok) =
      serves b (ap (λ t. if t then some a else at v m) e ∙ found) new ok

  Serves-here :
      (keys : List (ℕ × Bytes)) (m : List (ℕ × Aead)) (v w : ℕ) (a : Aead)
      → w ≡ v
      → new_aead new_cipher new_gcm (key_or_empty (at w keys)) ≡ made a
      → (w == 0) ≡ false
      → Serves keys ((w, a) ∷ m) v
  Serves-here keys m v w a e new ok =
      subst (λ u. Serves keys ((w, a) ∷ m) u) e (serves a found new ok)
    where
      found : at w ((w, a) ∷ m) ≡ some a
      found = ground arith

  pub new_aeads-Serves :
      (v : ℕ) (vs : List ℕ) (keys : List (ℕ × Bytes)) (m : List (ℕ × Aead))
      → new_aeads new_cipher new_gcm vs keys ≡ made m
      → contains v vs ≡ true
      → Serves keys m v
  new_aeads-Serves v [] keys m h c = cc
  new_aeads-Serves v (w ∷ vs) keys m h c =
      go (new_aeads-Looped w vs keys m h) (Bool-cases (w == v))
        (λ m' more e. new_aeads-Serves v vs keys m' more (ap (λ b. b || contains v vs) (sym e) ∙ c))
    where
      go :
          Looped w vs keys m
          → ((w == v) ≡ true) ⊎ ((w == v) ≡ false)
          → ((m' : List (ℕ × Aead))
              → new_aeads new_cipher new_gcm vs keys ≡ made m'
              → (w == v) ≡ false
              → Serves keys m' v)
          → Serves keys m v
      go (looped ok (added a m' new more same)) (inl e) rest =
          subst (λ t. Serves keys t v) (sym same) (Serves-here keys m' v w a (==-eq w v e) new ok)
      go (looped ok (added a m' new more same)) (inr e) rest =
          subst (λ t. Serves keys t v) (sym same) (Serves-later keys m' v w a e (rest m' more e))

  -- The loop succeeds if every version is above 0 and its key makes a cipher.
  abbrev pub Makes : List (ℕ × Bytes) → ℕ → Type 0
  Makes keys v =
      ((v == 0) ≡ false)
      × (a : Aead) × (new_aead new_cipher new_gcm (key_or_empty (at v keys)) ≡ made a)

  pub new_aeads-made :
      (vs : List ℕ) (keys : List (ℕ × Bytes))
      → All (Makes keys) vs
      → (m : List (ℕ × Aead)) × (new_aeads new_cipher new_gcm vs keys ≡ made m)
  unfolding new_aeads
  new_aeads-made [] keys all = ([], refl)
  new_aeads-made (v ∷ vs) keys ((ok, a, new), all) =
      let (m, e) = new_aeads-made vs keys all in
      (
        (v, a) ∷ m,
        ap
              (λ b.
                if b
                then failed invalid_key_version
                else with_aead v (new_aead new_cipher new_gcm (key_or_empty (at v keys)))
                    (new_aeads new_cipher new_gcm vs keys))
              ok
            ∙ ap₂ (with_aead v) new e,
      )
