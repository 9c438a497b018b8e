-- ===== src/Plaidsync/Errors.antt =====
-- Plaid errors and their classes: plaid-backend-golang/internal/plaid/errors.go.
pub mod Classes
use money_insighter.Prelude.{
  ℕ, Bool, true, false, ◌||◌, Option, none, some, List, [], ◌∷◌, ◌++◌, Text, codes, one_of,
  is_empty, itoa, leb, ◌==◌, if◌then◌else◌,
}
use money_insighter.Plaidsync.Types.{ItemStatus, SyncOutcome}

pub record PlaidError : Type 0 where
  pub endpoint : Text
  pub kind : Text
  pub code : Text
  pub message : Text
  pub display_message : Text
  pub request_id : Text
  pub http_status : ℕ

-- The errors that reach the engine. `wrap` is `fmt.Errorf("…: %w", err)`.
pub data GoError : Type 0 where
  plaid : PlaidError → GoError
  context_canceled deadline_exceeded network : GoError
  item_locked not_found item_removed : GoError
  other : Text → GoError
  wrap : Text → GoError → GoError

unfoldable pub as_error : GoError → Option PlaidError
as_error (plaid e) = some e
as_error (wrap t e) = as_error e
as_error _ = none

-- What `errors.Is` and `errors.As` compare with: the innermost error.
unfoldable pub root : GoError → GoError
root (wrap t e) = root e
root (plaid e) = plaid e
root e = e

abbrev kind_code : Text → Text → ℕ → Text
kind_code [] [] status = codes "HTTP " ++ itoa status
kind_code [] (c ∷ code) status = c ∷ code
kind_code (k ∷ kind) [] status = k ∷ kind
kind_code (k ∷ kind) (c ∷ code) status = (k ∷ kind) ++ (b'/' ∷ c ∷ code)

-- `e.Error()`
unfoldable pub error_text : PlaidError → Text
error_text e =
    codes "plaid: "
    ++ ((if is_empty e.endpoint then [] else e.endpoint ++ codes ": ")
        ++ (kind_code e.kind e.code e.http_status
            ++ ((if is_empty e.message then [] else codes ": " ++ e.message)
                ++ (if is_empty e.request_id
                    then []
                    else codes " (request_id " ++ (e.request_id ++ codes ")")))))

pub data Class : Type 0 where
  unclassified retryable needs_reauth fatal canceled : Class

unfoldable pub outcome : Class → SyncOutcome
outcome retryable = SyncOutcome.retryable_error
outcome needs_reauth = SyncOutcome.needs_reauth
outcome fatal = SyncOutcome.fatal
outcome canceled = SyncOutcome.canceled
outcome unclassified = SyncOutcome.failure

abbrev pub retryable_codes : List Text
retryable_codes =
    codes "TRANSACTIONS_SYNC_LIMIT"
    ∷ codes "TRANSACTIONS_SYNC_MUTATION_DURING_PAGINATION"
    ∷ codes "PRODUCT_NOT_READY"
    ∷ codes "INSTITUTION_DOWN"
    ∷ codes "INSTITUTION_NOT_RESPONDING"
    ∷ codes "INSTITUTION_NOT_AVAILABLE"
    ∷ codes "INTERNAL_SERVER_ERROR"
    ∷ codes "PLANNED_MAINTENANCE"
    ∷ []

abbrev pub reauth_codes : List Text
reauth_codes =
    codes "ITEM_LOGIN_REQUIRED"
    ∷ codes "PENDING_EXPIRATION"
    ∷ codes "PENDING_DISCONNECT"
    ∷ codes "USER_PERMISSION_REVOKED"
    ∷ codes "ACCESS_NOT_GRANTED"
    ∷ codes "ADDITIONAL_CONSENT_REQUIRED"
    ∷ codes "INVALID_CREDENTIALS"
    ∷ codes "INVALID_MFA"
    ∷ codes "INSUFFICIENT_CREDENTIALS"
    ∷ codes "ITEM_LOCKED"
    ∷ codes "USER_SETUP_REQUIRED"
    ∷ codes "MFA_NOT_SUPPORTED"
    ∷ codes "USER_INPUT_TIMEOUT"
    ∷ []

abbrev pub fatal_codes : List Text
fatal_codes =
    codes "TRIAL_CONNECTION_LIMIT"
    ∷ codes "ITEM_NOT_FOUND"
    ∷ codes "INVALID_ACCESS_TOKEN"
    ∷ codes "INVALID_PUBLIC_TOKEN"
    ∷ codes "INVALID_LINK_TOKEN"
    ∷ codes "INVALID_API_KEYS"
    ∷ codes "INVALID_PRODUCT"
    ∷ codes "INVALID_PRODUCTS"
    ∷ codes "UNAUTHORIZED_ENVIRONMENT"
    ∷ codes "INSTITUTION_NO_LONGER_SUPPORTED"
    ∷ codes "PRODUCTS_NOT_SUPPORTED"
    ∷ codes "ITEM_NOT_SUPPORTED"
    ∷ codes "NO_ACCOUNTS"
    ∷ codes "INSTITUTION_REGISTRATION_REQUIRED"
    ∷ []

-- The switch on the type.
unfoldable pub class_of_kind : Text → ℕ → Class
class_of_kind kind status =
    if one_of kind
      (codes "RATE_LIMIT_EXCEEDED" ∷ codes "API_ERROR" ∷ codes "INSTITUTION_ERROR" ∷ [])
    then retryable
    else if one_of kind
        (codes "INVALID_REQUEST" ∷ codes "INVALID_INPUT" ∷ codes "INVALID_RESULT" ∷ [])
    then fatal
    else if is_empty kind
    then (if leb 500 status || (status == 429) then retryable else unclassified)
    else unclassified

unfoldable pub class : PlaidError → Class
class e =
    if one_of e.code retryable_codes
    then retryable
    else if one_of e.code reauth_codes
    then needs_reauth
    else if one_of e.code fatal_codes
    then fatal
    else class_of_kind e.kind e.http_status

abbrev reauth_status : Class → ItemStatus
reauth_status needs_reauth = ItemStatus.login_required
reauth_status _ = ItemStatus.error

unfoldable pub item_status : PlaidError → ItemStatus
item_status e =
    if one_of e.code (codes "PENDING_EXPIRATION" ∷ codes "PENDING_DISCONNECT" ∷ [])
    then ItemStatus.pending_expiration
    else if one_of e.code (codes "USER_PERMISSION_REVOKED" ∷ codes "ACCESS_NOT_GRANTED" ∷ [])
    then ItemStatus.permission_revoked
    else reauth_status (class e)

unfoldable pub classify : GoError → Class
classify (plaid e) = class e
classify (wrap t e) = classify e
classify context_canceled = canceled
classify deadline_exceeded = retryable
classify network = retryable
classify _ = unclassified
