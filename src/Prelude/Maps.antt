-- ===== src/Prelude/Maps.antt =====
-- Go maps with string keys, as association lists: `m[k]`, `m[k] = v`, `delete(m, k)`.
use Prim.Native.Nat.{suc, ◌≤◌}
use mathlib.Core.List.{List, [], ◌∷◌}
use mathlib.Core.Option.{Option, none, some}
use mathlib.Core.Path.{◌≡◌, refl, subst}
use native.Mathlib.Omega.{arith}
use money_insighter.Prelude.Tests.{if◌then◌else◌, if-elim}
use money_insighter.Prelude.Lists.{length, All}
use money_insighter.Prelude.Texts.{Text, text_eq, text_eq_refl, text_eq-eq}

some_inj {ℓ} : {A : Type ℓ} {a b : A} → some a ≡ some b → a ≡ b
some_inj h = cc

module _ {ℓ} {V : Type ℓ} where
  unfoldable pub lookup : Text → List (Text × V) → Option V
  lookup k [] = none
  lookup k ((j, v) ∷ m) = if text_eq j k then some v else lookup k m

  unfoldable pub assign : Text → V → List (Text × V) → List (Text × V)
  assign k v [] = (k, v) ∷ []
  assign k v ((j, w) ∷ m) = if text_eq j k then (k, v) ∷ m else (j, w) ∷ assign k v m

  unfoldable pub delete : Text → List (Text × V) → List (Text × V)
  delete k [] = []
  delete k ((j, w) ∷ m) = let rest = delete k m in if text_eq j k then rest else (j, w) ∷ rest

  pub lookup-assign :
      (k j : Text) (v : V) (m : List (Text × V))
      → lookup j (assign k v m) ≡ (if text_eq k j then some v else lookup j m)
  unfolding lookup assign
  lookup-assign k j v [] = refl
  lookup-assign k j v ((i, w) ∷ m) = ground (
    arith,
    lookup-assign k j v m,
    text_eq-eq k j,
    text_eq-eq i k,
    text_eq-eq i j,
    text_eq_refl k,
    text_eq_refl j,
  )

  pub lookup-delete :
      (k j : Text) (m : List (Text × V))
      → lookup j (delete k m) ≡ (if text_eq k j then none else lookup j m)
  unfolding lookup delete
  lookup-delete k j [] = ground arith
  lookup-delete k j ((i, w) ∷ m) = ground (
    arith,
    lookup-delete k j m,
    text_eq-eq k j,
    text_eq-eq i k,
    text_eq-eq i j,
    text_eq_refl k,
    text_eq_refl j,
  )

  -- A write to a fresh key adds one entry, a write to an old key none.
  pub length-assign_fresh :
      (k : Text) (v : V) (m : List (Text × V))
      → lookup k m ≡ none
      → length (assign k v m) ≡ suc (length m)
  unfolding lookup assign
  length-assign_fresh k v [] h = refl
  length-assign_fresh k v ((i, w) ∷ m) h = ground (arith, length-assign_fresh k v m)

  pub length-assign_old :
      (k : Text) (v w : V) (m : List (Text × V))
      → lookup k m ≡ some w
      → length (assign k v m) ≡ length m
  unfolding lookup assign
  length-assign_old k v w [] h = cc
  length-assign_old k v w ((i, x) ∷ m) h = ground (arith, length-assign_old k v w m)

  pub length-assign-le :
      (k : Text) (v : V) (m : List (Text × V)) → length (assign k v m) ≤ suc (length m)
  unfolding assign
  length-assign-le k v [] = omega arith
  length-assign-le k v ((i, x) ∷ m) = ground (arith, length-assign-le k v m)

  pub length-delete-le : (k : Text) (m : List (Text × V)) → length (delete k m) ≤ length m
  unfolding delete
  length-delete-le k [] = omega arith
  length-delete-le k ((i, x) ∷ m) = ground (arith, length-delete-le k m)

-- A write keeps what holds of every entry.
pub All-assign {ℓ κ} :
    {V : Type ℓ} (P : Text × V → Type κ) (k : Text) (v : V) (m : List (Text × V))
    → P (k, v)
    → All P m
    → All P (assign k v m)
unfolding assign
All-assign P k v [] p h = (p, tt)
All-assign P k v ((j, w) ∷ m) p (q, h) =
    if-elim (All P) (text_eq j k) ((k, v) ∷ m) ((j, w) ∷ assign k v m) (λ _. (p, h))
      (λ _. (q, All-assign P k v m p h))

-- What holds of every value holds of the one that is found.
pub All-lookup {ℓ κ} :
    {V : Type ℓ} (P : V → Type κ) (k : Text) (v : V) (m : List (Text × V))
    → All (λ e. P e.1) m
    → lookup k m ≡ some v
    → P v
unfolding lookup
All-lookup P k v [] h e = cc
All-lookup P k v ((j, w) ∷ m) (p, h) e =
    if-elim (λ o. o ≡ some v → P v) (text_eq j k) (some w) (lookup k m)
      (λ _ same. subst P (some_inj same) p) (λ _ later. All-lookup P k v m h later) e
