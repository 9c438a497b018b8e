-- ===== src/Plaidsync/Crypto/Ring.antt =====
-- What `NewKeyring` returns: its versions, its keys and its ciphers.
use money_insighter.Prelude.{
  ℕ, ◌≡◌, refl, ◌∙◌, ◌≤◌, Bool, true, false, List, [], ◌∷◌, arith, ◌==◌, ◌||◌, leb, any, if-elim,
  All,
}
use money_insighter.Plaidsync.Crypto.{has_key, at, insert_version, sorted_versions}

abbrev pub contains : ℕ → List ℕ → Bool
contains v vs = any (λ w. w == v) vs

contains-insert_version :
    (v w : ℕ) (vs : List ℕ) → contains v (insert_version w vs) ≡ ((w == v) || contains v vs)
contains-insert_version v w [] = refl
contains-insert_version v w (x ∷ vs) = ground (arith, contains-insert_version v w vs)

pub contains-sorted_versions :
    {A : Type 0} (v : ℕ) (m : List (ℕ × A)) → contains v (sorted_versions m) ≡ has_key (at v m)
contains-sorted_versions v [] = refl
contains-sorted_versions v ((w, a) ∷ m) =
    contains-insert_version v w (sorted_versions m) ∙ ground (arith, contains-sorted_versions v m)

leb→le : (a b : ℕ) → leb a b ≡ true → a ≤ b
leb→le a b e = ground arith

leb→ge : (a b : ℕ) → leb a b ≡ false → b ≤ a
leb→ge a b e = ground arith

-- Ascending: each is at most the next.
abbrev pub Ascending : List ℕ → Type 0
Ascending [] = Unit
Ascending (v ∷ vs) = All (λ w. v ≤ w) vs × Ascending vs

All-insert_version :
    (u v : ℕ) (vs : List ℕ) → u ≤ v → All (λ w. u ≤ w) vs → All (λ w. u ≤ w) (insert_version v vs)
All-insert_version u v [] h all = (h, tt)
All-insert_version u v (w ∷ vs) h all =
    if-elim (λ r. All (λ x. u ≤ x) r) (leb v w) (v ∷ w ∷ vs) (w ∷ insert_version v vs)
      (λ _. (h, all)) (λ _. (all.0, All-insert_version u v vs h all.1))

All-le_trans : (u v : ℕ) (vs : List ℕ) → u ≤ v → All (λ w. v ≤ w) vs → All (λ w. u ≤ w) vs
All-le_trans u v [] h all = tt
All-le_trans u v (w ∷ vs) h all =
    let here : v ≤ w = all.0 in (omega arith, All-le_trans u v vs h all.1)

Ascending-insert_version : (v : ℕ) (vs : List ℕ) → Ascending vs → Ascending (insert_version v vs)
Ascending-insert_version v [] h = (tt, tt)
Ascending-insert_version v (w ∷ vs) h =
    if-elim Ascending (leb v w) (v ∷ w ∷ vs) (w ∷ insert_version v vs)
      (λ e. ((leb→le v w e, All-le_trans v w vs (leb→le v w e) h.0), h))
      (λ e. (All-insert_version w v vs (leb→ge v w e) h.0, Ascending-insert_version v vs h.1))

pub Ascending-sorted_versions : {A : Type 0} (m : List (ℕ × A)) → Ascending (sorted_versions m)
Ascending-sorted_versions [] = tt
Ascending-sorted_versions ((v, a) ∷ m) =
    Ascending-insert_version v (sorted_versions m) (Ascending-sorted_versions m)
