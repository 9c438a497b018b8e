-- ===== src/Topper/Auth/Verdict.antt =====
-- What the middleware does with a request: postgres-topper/internal/auth/middleware.go.
use money_insighter.Prelude.{
  sym, Bool, ◌||◌, ◌⊎◌, text_eq, text_eq-eq, All, ◌≡◌, refl, true, false, Option, none, some, List,
  [], ◌∷◌, ◌++◌, inl, inr, arith, Text, codes, text_eq, subst, ap, ◌∙◌, ◌↔◌, cut, trim_space,
  if◌then◌else◌, if-elim,
}
use money_insighter.Topper.Auth.{
  Scope, read, read_write, unknown, is_safe_method, Caller, ApiKey, allows, lookup_from,
  lookup_caller, filled, of_scheme, bearer_token, scope_text, Outcome, answer, serve, authorize,
  authenticate, middleware,
}
use money_insighter.Topper.Auth.Ring.{
  Holds, Known, lookup_from-Known, DistinctHashes, lookup_from-Holds,
}

filled_never_empty : (s : Text) → ¬ (filled s ≡ some [])
filled_never_empty [] h = cc h
filled_never_empty (c ∷ s) h = cc h

of_scheme_filled : (parts : Option (Text × Text)) → ¬ (of_scheme parts ≡ some [])
of_scheme_filled none h = cc h
of_scheme_filled (some (scheme, rest)) h = ground (arith, filled_never_empty (trim_space rest))

bearer_token_filled : (header : Text) → ¬ (bearer_token header ≡ some [])
unfolding bearer_token
bearer_token_filled [] h = cc h
bearer_token_filled (c ∷ header) h = of_scheme_filled (cut b' ' (c ∷ header)) h

-- What a scope permits: everything, or the three safe methods; an unknown scope nothing.
pub data Permits : Scope → Text → Type 0 where
  all_methods : (m : Text) → Permits read_write m
  get : Permits read (codes "GET")
  head : Permits read (codes "HEAD")
  options : Permits read (codes "OPTIONS")

or_cases : (a b : Bool) → (a || b) ≡ true → (a ≡ true) ⊎ (b ≡ true)
or_cases true b h = inl refl
or_cases false b h = inr h

safe-Permits : (m : Text) → is_safe_method m ≡ true → Permits read m
safe-Permits m h =
    elim (or_cases (text_eq m (codes "GET") || text_eq m (codes "HEAD"))
      (text_eq m (codes "OPTIONS")) h) [
        | inr g ↦ subst (Permits read) (sym (text_eq-eq m (codes "OPTIONS") g)) options
        | inl r ↦ elim (or_cases (text_eq m (codes "GET")) (text_eq m (codes "HEAD")) r) [
          | inl g ↦ subst (Permits read) (sym (text_eq-eq m (codes "GET") g)) get
          | inr g ↦ subst (Permits read) (sym (text_eq-eq m (codes "HEAD") g)) head
        ]
      ]

allows-Permits : (s : Scope) (m : Text) → allows s m ≡ true → Permits s m
unfolding allows
allows-Permits read_write m h = all_methods m
allows-Permits read m h = safe-Permits m h
allows-Permits (unknown s) m h = cc

Permits-allows : (s : Scope) (m : Text) → Permits s m → allows s m ≡ true
unfolding allows text_eq
Permits-allows s m (all_methods n) = refl
Permits-allows s m get = refl
Permits-allows s m head = refl
Permits-allows s m options = refl

module _ (sha256 : Text → Text) (keys : List ApiKey) (method header : Text) where
  -- The four ends of a request, each with what the header and the keys say then.
  pub data Verdict : Outcome → Type 0 where
    no_token : bearer_token header ≡ none → Verdict (answer 401 (codes "missing bearer token"))
    no_key :
        (token : Text)
        → bearer_token header ≡ some token
        → All (λ k. text_eq (sha256 token) k.hash ≡ false) keys
        → Verdict (answer 401 (codes "invalid token"))
    forbidden :
        (token : Text) (c : Caller) (text : Text)
        → bearer_token header ≡ some token
        → Holds (sha256 token) c keys
        → ¬ Permits c.scope method
        → Verdict (answer 403 text)
    served :
        (token : Text) (c : Caller)
        → bearer_token header ≡ some token
        → Holds (sha256 token) c keys
        → Permits c.scope method
        → Verdict (serve c)

  authorize-Verdict :
      (token : Text)
      → bearer_token header ≡ some token
      → (found : Option Caller) → Known (sha256 token) none keys found
      → Verdict (authorize method found)
  authorize-Verdict token e none (start, absent) = no_key token e absent
  authorize-Verdict token e (some c) (inl bad) = cc
  authorize-Verdict token e (some c) (inr held) =
      if-elim Verdict (allows c.scope method) (serve c) _
        (λ may. served token c e held (allows-Permits c.scope method may))
        (λ not_may.
          forbidden token c _ e held (λ p. cc (sym (Permits-allows c.scope method p) ∙ not_may)))

  authenticate-Verdict :
      (token : Option Text)
      → bearer_token header ≡ token
      → Verdict (authenticate sha256 keys method token)
  unfolding lookup_caller
  authenticate-Verdict none e = no_token e
  authenticate-Verdict (some []) e = absurd (bearer_token_filled header e)
  authenticate-Verdict (some (c ∷ token)) e =
      authorize-Verdict (c ∷ token) e (lookup_from (sha256 (c ∷ token)) keys none)
        (lookup_from-Known (sha256 (c ∷ token)) keys none)

  -- A token of the header that hashes to a configured key of this caller, whose scope permits the
  -- method.
  pub record IsPermitted (c : Caller) : Type 0 where
    pub token : Text
    pub sent : bearer_token header ≡ some token
    pub held : Holds (sha256 token) c keys
    pub may : Permits c.scope method

  Verdict-IsPermitted : (o : Outcome) (c : Caller) → Verdict o → o ≡ serve c → IsPermitted c
  Verdict-IsPermitted o c (no_token e) h = cc
  Verdict-IsPermitted o c (no_key token e absent) h = cc
  Verdict-IsPermitted o c (forbidden token d text e held refused) h = cc
  Verdict-IsPermitted o c (served token d e held may) h =
      subst IsPermitted (serve_inj h) (record { token = token; sent = e; held = held; may = may })
    where
      serve_inj : {a b : Caller} → serve a ≡ serve b → a ≡ b
      serve_inj g = cc

  lookup_caller-Holds :
      (token : Text) (c : Caller)
      → DistinctHashes keys
      → ¬ (token ≡ [])
      → Holds (sha256 token) c keys
      → lookup_caller sha256 keys token ≡ some c
  unfolding lookup_caller
  lookup_caller-Holds [] c distinct filled_token held = absurd (filled_token refl)
  lookup_caller-Holds (x ∷ token) c distinct filled_token held =
      lookup_from-Holds (sha256 (x ∷ token)) c keys none distinct held

  IsPermitted-serve :
      (c : Caller)
      → DistinctHashes keys
      → IsPermitted c
      → middleware sha256 keys method header ≡ serve c
  unfolding middleware
  IsPermitted-serve c distinct p =
      ap (authenticate sha256 keys method) p.sent
      ∙ ap (authorize method) (
          lookup_caller-Holds p.token c distinct
            (λ e. bearer_token_filled header (p.sent ∙ ap some e)) p.held)
      ∙ ap
          (λ b.
            if b
            then serve c
            else answer 403
                (codes "scope " ++ (scope_text c.scope ++ (codes " does not allow " ++ method))))
          (Permits-allows c.scope method p.may)

  -- Where no two configured keys have the same hash, the handler runs for a caller exactly if the
  -- header has a bearer token that hashes to a key of the caller whose scope permits the method.
  -- Otherwise the answer is 401 without a token, 401 with a token that no key matches, and 403 with
  -- a key whose scope does not permit the method.
  pub middleware-Verdict :
      DistinctHashes keys
      → ((c : Caller) → (middleware sha256 keys method header ≡ serve c) ↔ IsPermitted c)
        × Verdict (middleware sha256 keys method header)
  unfolding middleware
  middleware-Verdict distinct =
      let verdict = authenticate-Verdict (bearer_token header) refl in
      (λ c. (Verdict-IsPermitted _ c verdict, IsPermitted-serve c distinct), verdict)
