-- ===== src/Topper/Auth/Ring.antt =====
-- The loop of `Lookup` over the keys: postgres-topper/internal/auth/keyring.go.
use money_insighter.Prelude.{
  All, ◌≡◌, refl, Bool, true, false, Option, none, some, List, [], ◌∷◌, ◌⊎◌, inl, inr, Text,
  text_eq, text_eq-eq, subst, sym, ap, ◌∙◌, if◌then◌else◌,
}
use money_insighter.Topper.Auth.{Caller, ApiKey, caller_of, lookup_from}

-- A key of the ring for this hash, which makes this caller.
pub data Holds (h : Text) (c : Caller) : List ApiKey → Type 0 where
  here :
      (k : ApiKey) (keys : List ApiKey)
      → text_eq h k.hash ≡ true
      → caller_of k ≡ c
      → Holds h c (k ∷ keys)
  there : (k : ApiKey) {keys : List ApiKey} → Holds h c keys → Holds h c (k ∷ keys)

-- What the loop's result says, where `found` is the match so far.
abbrev pub Known : Text → Option Caller → List ApiKey → Option Caller → Type 0
Known h found keys none = (found ≡ none) × All (λ k. text_eq h k.hash ≡ false) keys
Known h found keys (some c) = (found ≡ some c) ⊎ Holds h c keys

pub Known-step :
    (h : Text) (k : ApiKey) (keys : List ApiKey) (found : Option Caller) (b : Bool)
    (r : Option Caller)
    → text_eq h k.hash ≡ b
    → Known h (if b then some (caller_of k) else found) keys r
    → Known h found (k ∷ keys) r
Known-step h k keys found true none e (none_found, rest) = cc
Known-step h k keys found false none e (none_found, rest) = (none_found, (e, rest))
Known-step h k keys found true (some c) e (inl same) = inr (here k keys e (cc same))
Known-step h k keys found true (some c) e (inr held) = inr (there k held)
Known-step h k keys found false (some c) e (inl same) = inl same
Known-step h k keys found false (some c) e (inr held) = inr (there k held)

pub lookup_from-Known :
    (h : Text) (keys : List ApiKey) (found : Option Caller)
    → Known h found keys (lookup_from h keys found)
unfolding lookup_from
lookup_from-Known h [] none = (refl, tt)
lookup_from-Known h [] (some c) = inl refl
lookup_from-Known h (k ∷ keys) found =
    Known-step h k keys found (text_eq h k.hash)
      (lookup_from h keys (if text_eq h k.hash then some (caller_of k) else found)) refl
      (lookup_from-Known h keys (if text_eq h k.hash then some (caller_of k) else found))

-- No two keys have one hash, which `config.Load` sees to.
abbrev pub DistinctHashes : List ApiKey → Type 0
DistinctHashes [] = Unit
DistinctHashes (k ∷ keys) = All (λ j. text_eq k.hash j.hash ≡ false) keys × DistinctHashes keys

All-other :
    (h h' : Text) (keys : List ApiKey)
    → h ≡ h'
    → All (λ j. text_eq h' j.hash ≡ false) keys
    → All (λ j. text_eq h j.hash ≡ false) keys
All-other h h' keys e = subst (λ g. All (λ j. text_eq g j.hash ≡ false) keys) (sym e)

lookup_from-none :
    (h : Text) (keys : List ApiKey) (found : Option Caller)
    → All (λ j. text_eq h j.hash ≡ false) keys
    → lookup_from h keys found ≡ found
unfolding lookup_from
lookup_from-none h [] found none_left = refl
lookup_from-none h (k ∷ keys) found (off, rest) =
    ap (λ b. lookup_from h keys (if b then some (caller_of k) else found)) off
    ∙ lookup_from-none h keys found rest

-- With distinct hashes the loop finds the one key that matches.
pub lookup_from-Holds :
    (h : Text) (c : Caller) (keys : List ApiKey) (found : Option Caller)
    → DistinctHashes keys
    → Holds h c keys
    → lookup_from h keys found ≡ some c
unfolding lookup_from
lookup_from-Holds h c keys found distinct (here k rest match made) =
    ap (λ b. lookup_from h rest (if b then some (caller_of k) else found)) match
    ∙ lookup_from-none h rest (some (caller_of k))
        (All-other h k.hash rest (text_eq-eq h k.hash match) distinct.0)
    ∙ ap some made
lookup_from-Holds h c keys found distinct (there k {keys = rest} later) =
    lookup_from-Holds h c rest (if text_eq h k.hash then some (caller_of k) else found) distinct.1
      later
