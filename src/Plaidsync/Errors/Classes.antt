-- ===== src/Plaidsync/Errors/Classes.antt =====
-- The classes of Plaid errors, the item status that they imply, and wrapping.
use money_insighter.Prelude.{
  ◌≡◌, ◌≢◌, refl, sym, arith, true, false, Bool-cases, inl, inr, ◌⊎◌, some, List, [], ◌∷◌, Text,
  codes, one_of, text_eq, text_eq-eq, All, subst,
}
use money_insighter.Plaidsync.Types.{ItemStatus}
use money_insighter.Plaidsync.Errors.{
  PlaidError, GoError, plaid, wrap, as_error, Class, unclassified, retryable, needs_reauth, fatal,
  canceled, class, item_status, reauth_status, classify, reauth_codes, retryable_codes,
}

-- A text that is one of a list has what every text of the list has.
one_of-elim : (P : Text → Type 0) (s : Text) (ts : List Text) → one_of s ts ≡ true → All P ts → P s
unfolding one_of
one_of-elim P s [] h all = cc h
one_of-elim P s (t ∷ ts) h all = elim (Bool-cases (text_eq s t)) [
  | inl e ↦ subst P (sym (text_eq-eq s t e)) all.0
  | inr e ↦ one_of-elim P s ts (ground arith) all.1
]

-- The status of a re-auth state, by code.
abbrev pending : List Text
pending = codes "PENDING_EXPIRATION" ∷ codes "PENDING_DISCONNECT" ∷ []

abbrev revoked : List Text
revoked = codes "USER_PERMISSION_REVOKED" ∷ codes "ACCESS_NOT_GRANTED" ∷ []

abbrev IsReauth : Text → Type 0
IsReauth code = (one_of code retryable_codes ≡ false) × (one_of code reauth_codes ≡ true)

pending-IsReauth : All IsReauth pending
unfolding one_of text_eq
pending-IsReauth = ((refl, refl), ((refl, refl), tt))

revoked-IsReauth : All IsReauth revoked
unfolding one_of text_eq
revoked-IsReauth = ((refl, refl), ((refl, refl), tt))

class_reauth : (e : PlaidError) → IsReauth e.code → class e ≡ needs_reauth
unfolding class
class_reauth e (a, b) = rw (a, b)

classify-as_error :
    (err : GoError) (e : PlaidError) → as_error err ≡ some e → classify err ≡ class e
unfolding classify as_error
classify-as_error (plaid d) e h = cc h
classify-as_error (wrap t err) e h = classify-as_error err e h
classify-as_error _ e h = cc h

-- The status of the other errors.
reauth_status-cases :
    (c : Class)
    → ((c ≡ needs_reauth) × (reauth_status c ≡ ItemStatus.login_required))
      ⊎ ((c ≢ needs_reauth) × (reauth_status c ≡ ItemStatus.error))
reauth_status-cases needs_reauth = inl (refl, refl)
reauth_status-cases unclassified = inr (λ e. cc, refl)
reauth_status-cases retryable = inr (λ e. cc, refl)
reauth_status-cases fatal = inr (λ e. cc, refl)
reauth_status-cases canceled = inr (λ e. cc, refl)

-- An error puts the item into one of the three re-auth states when its class is needs_reauth, and
-- into the status error when it is not.
pub item_status-class :
    (e : PlaidError)
    → ((class e ≡ needs_reauth)
        × (item_status e ≢ ItemStatus.error)
        × (item_status e ≢ ItemStatus.removed)
        × (item_status e ≢ ItemStatus.active))
      ⊎ ((class e ≢ needs_reauth) × (item_status e ≡ ItemStatus.error))
unfolding item_status
item_status-class e = elim (Bool-cases (one_of e.code pending)) [
  | inl p ↦
      let reauth = class_reauth e (one_of-elim IsReauth e.code pending p pending-IsReauth) in
      inl (reauth, rw p (λ h. cc), rw p (λ h. cc), rw p (λ h. cc))
  | inr np ↦ elim (Bool-cases (one_of e.code revoked)) [
    | inl r ↦
        let reauth = class_reauth e (one_of-elim IsReauth e.code revoked r revoked-IsReauth) in
        inl (reauth, rw (np, r) (λ h. cc), rw (np, r) (λ h. cc), rw (np, r) (λ h. cc))
    | inr nr ↦ elim (reauth_status-cases (class e)) [
      | inl (c, s) ↦
          inl (c, rw (np, nr, s) (λ h. cc), rw (np, nr, s) (λ h. cc), rw (np, nr, s) (λ h. cc))
      | inr (c, s) ↦ inr (c, rw (np, nr, s))
    ]
  ]
]

-- An error that holds a Plaid error, however often it is wrapped with context, yields that Plaid
-- error and has its class.
pub classify-wrap :
    (t : Text) (err : GoError) (e : PlaidError)
    → as_error err ≡ some e
    → (as_error (wrap t err) ≡ some e) × (classify (wrap t err) ≡ class e)
unfolding classify as_error
classify-wrap t err e h = (h, classify-as_error err e h)
