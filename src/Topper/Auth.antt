-- ===== src/Topper/Auth.antt =====
-- Bearer tokens and scopes: postgres-topper/internal/auth/keyring.go and middleware.go. SHA-256 is
-- a parameter.
pub mod Ring
pub mod Verdict
use money_insighter.Prelude.{
  All, ℕ, ◌≡◌, refl, Bool, true, false, ◌||◌, Option, none, some, List, [], ◌∷◌, ◌++◌, ◌⊎◌, inl,
  inr, arith, Text, codes, text_eq, cut, trim_space, to_lower, if◌then◌else◌, if-elim,
}

-- `config.Scope` is a text; another text than these two permits nothing.
pub data Scope : Type 0 where
  read read_write : Scope
  unknown : Text → Scope

pub record Caller : Type 0 where
  pub name : Text
  pub scope : Scope

pub record ApiKey : Type 0 where
  pub name : Text
  pub scope : Scope
  pub hash : Text

abbrev pub is_safe_method : Text → Bool
is_safe_method m =
    text_eq m (codes "GET") || text_eq m (codes "HEAD") || text_eq m (codes "OPTIONS")

unfoldable pub allows : Scope → Text → Bool
unfolding text_eq
allows read_write m = true
allows read m = is_safe_method m
allows (unknown s) m = false

abbrev pub caller_of : ApiKey → Caller
caller_of k = record { name = k.name; scope = k.scope }

-- The loop compares with every key, also after a match.
unfoldable pub lookup_from : Text → List ApiKey → Option Caller → Option Caller
unfolding text_eq
lookup_from h [] found = found
lookup_from h (k ∷ keys) found =
    lookup_from h keys (if text_eq h k.hash then some (caller_of k) else found)

unfoldable pub lookup_caller : (Text → Text) → List ApiKey → Text → Option Caller
unfolding lookup_from
lookup_caller sha256 keys [] = none
lookup_caller sha256 keys (c ∷ token) = lookup_from (sha256 (c ∷ token)) keys none

-- strings.EqualFold, on ASCII letters
abbrev equal_fold : Text → Text → Bool
equal_fold s t = text_eq (to_lower s) (to_lower t)

abbrev pub filled : Text → Option Text
filled [] = none
filled (c ∷ s) = some (c ∷ s)

abbrev pub of_scheme : Option (Text × Text) → Option Text
of_scheme none = none
of_scheme (some (scheme, rest)) =
    if equal_fold scheme (codes "Bearer") then filled (trim_space rest) else none

-- The token of the Authorization header, "" when there is none.
unfoldable pub bearer_token : Text → Option Text
unfolding cut trim_space to_lower text_eq
bearer_token [] = none
bearer_token (c ∷ h) = of_scheme (cut b' ' (c ∷ h))

abbrev pub scope_text : Scope → Text
scope_text read = codes "read"
scope_text read_write = codes "readwrite"
scope_text (unknown s) = s

-- What the middleware does with a request: it answers, or the handler runs for a caller.
pub data Outcome : Type 0 where
  answer : ℕ → Text → Outcome
  serve : Caller → Outcome

abbrev pub authorize : Text → Option Caller → Outcome
authorize method none = answer 401 (codes "invalid token")
authorize method (some c) =
    if allows c.scope method
    then serve c
    else answer 403 (codes "scope " ++ (scope_text c.scope ++ (codes " does not allow " ++ method)))

abbrev pub authenticate : (Text → Text) → List ApiKey → Text → Option Text → Outcome
authenticate sha256 keys method none = answer 401 (codes "missing bearer token")
authenticate sha256 keys method (some token) = authorize method (lookup_caller sha256 keys token)

-- The middleware on the method and the Authorization header.
unfoldable pub middleware : (Text → Text) → List ApiKey → Text → Text → Outcome
unfolding bearer_token lookup_caller allows
middleware sha256 keys method header = authenticate sha256 keys method (bearer_token header)
