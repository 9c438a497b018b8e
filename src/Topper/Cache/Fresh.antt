-- ===== src/Topper/Cache/Fresh.antt =====
-- What `Do` serves: postgres-topper/internal/cache/cache.go.
use money_insighter.Prelude.{
  ℕ, ◌<◌, ◌≡◌, ◌⊎◌, inl, inr, refl, sym, ap, subst, ltb→lt, ◌∙◌, Bool, true, Option, none, some,
  Text, ltb, if◌then◌else◌, if-elim, arith, lookup, delete, lookup-assign, text_eq_refl,
}
use money_insighter.Topper.Cache.{
  Entry, Cache, enabled, load, load_at, store, make_room, Clock, after_fill, after_first,
  after_second, entity_tag, fetch, uncached,
}

load-live :
    (now : ℕ) (key : Text) (c : Cache) (e : Entry)
    → (load now key c).0 ≡ some e
    → (lookup key c.m ≡ some e) × (now < e.expires)
unfolding load
load-live now key c e = go (lookup key c.m) refl
  where
    go :
        (r : Option Entry)
        → lookup key c.m ≡ r
        → (load_at now key c r).0 ≡ some e
        → (lookup key c.m ≡ some e) × (now < e.expires)
    go none found h = absurd (cc)
    go (some x) found h =
        if-elim
          (λ (o : Option Entry × Cache).
            o.0 ≡ some e → (lookup key c.m ≡ some e) × (now < e.expires))
          (ltb now x.expires) _ _
          (λ live same.
            let p : x ≡ e = cc in
            (found ∙ same, subst (λ y. now < y.expires) p (ltb→lt now x.expires live)))
          (λ _ same. absurd (cc)) h

-- The entry is a live one of the map, at one of the two loads, or the body that was filled.
abbrev pub Served : Clock → Text → Option Text → (Cache → Cache) → Cache → Entry → Type 0
Served clock key fill others c e =
    ((lookup key c.m ≡ some e) × (clock.first < e.expires))
    ⊎ (((lookup key (others (load clock.first key c).1).m ≡ some e) × (clock.second < e.expires))
        ⊎ ((body : Text) × (fill ≡ some body) × (e.body ≡ body) × (e.etag ≡ entity_tag body)))

abbrev Filled : Option Text → Entry → Type 0
Filled fill e = (body : Text) × (fill ≡ some body) × (e.body ≡ body) × (e.etag ≡ entity_tag body)

some_eq : {a b : Entry} → ◌≡◌ {A = Option Entry} (some a) (some b) → a ≡ b
some_eq h = cc

after_fill-Filled :
    (clock : Clock) (key : Text) (c : Cache) (fill f : Option Text) (e : Entry)
    → fill ≡ f
    → (after_fill clock key c f).0 ≡ some e
    → Filled fill e
after_fill-Filled clock key c fill none e same h = absurd (cc)
after_fill-Filled clock key c fill (some body) e same h = (
  body,
  same,
  ap (λ (x : Entry). x.body) (sym (some_eq h)),
  ap (λ (x : Entry). x.etag) (sym (some_eq h)),
)

uncached-Filled :
    (fill f : Option Text) (e : Entry) → fill ≡ f → uncached f ≡ some e → Filled fill e
uncached-Filled fill none e same h = absurd (cc)
uncached-Filled fill (some body) e same h = (
  body,
  same,
  ap (λ (x : Entry). x.body) (sym (some_eq h)),
  ap (λ (x : Entry). x.etag) (sym (some_eq h)),
)

module _ (clock : Clock) (key : Text) (fill : Option Text) (others : Cache → Cache) (c : Cache)
    (e : Entry) where
  second-Served :
      (r : Option Entry × Cache)
      → load clock.second key (others (load clock.first key c).1) ≡ r
      → (after_second clock key fill r).0 ≡ some e
      → Served clock key fill others c e
  second-Served (some x, c') same h =
      inr (inl (load-live clock.second key _ e (ap (λ r. r.0) same ∙ h)))
  second-Served (none, c') same h = inr (inr (after_fill-Filled clock key c' fill fill e refl h))

  first-Served :
      (r : Option Entry × Cache)
      → load clock.first key c ≡ r
      → (after_first clock key fill others r).0 ≡ some e
      → Served clock key fill others c e
  first-Served (some x, c') same h = inl (load-live clock.first key c e (ap (λ r. r.0) same ∙ h))
  first-Served (none, c') same h =
      second-Served (load clock.second key (others c'))
        (ap (λ (r : Option Entry × Cache). load clock.second key (others r.1)) same) h

  -- The entry that a request gets was live in the map at one of its two loads, or it holds the body
  -- that was just filled, with that body's tag. An expired entry is never served.
  pub fetch-Served : (fetch clock key fill others c).0 ≡ some e → Served clock key fill others c e
  unfolding fetch
  fetch-Served =
      if-elim (λ (r : Option Entry × Cache). r.0 ≡ some e → Served clock key fill others c e)
        (enabled c) (after_first clock key fill others (load clock.first key c)) (uncached fill, c)
        (λ _. first-Served (load clock.first key c) refl)
        (λ _ h. inr (inr (uncached-Filled fill fill e refl h)))

stored-lookup :
    (now : ℕ) (key : Text) (e : Entry) (c : Cache) → lookup key (store now key e c).m ≡ some e
unfolding store
stored-lookup now key e c =
    lookup-assign key key e (make_room now c.cap c.m)
    ∙ ap (λ (b : Bool). if b then some e else lookup key (make_room now c.cap c.m))
        (text_eq_refl key)

live-load :
    (now : ℕ) (key : Text) (c : Cache) (e : Entry)
    → lookup key c.m ≡ some e
    → now < e.expires
    → load now key c ≡ (some e, c)
unfolding load
live-load now key c e found live =
    ap (load_at now key c) found
    ∙ if-elim (λ (r : Option Entry × Cache). r ≡ (some e, c)) (ltb now e.expires) (some e, c)
        (none, record c { m = delete key c.m }) (λ _. refl)
        (λ late. absurd (ground (arith, late, live)))

-- An entry that was stored is served, without a fill, until it expires, whatever else was evicted
-- to make room for it.
pub fetch-store :
    (clock : Clock) (now : ℕ) (key : Text) (fill : Option Text) (others : Cache → Cache) (c : Cache)
    (e : Entry)
    → enabled c ≡ true
    → clock.first < e.expires
    → fetch clock key fill others (store now key e c) ≡ (some e, store now key e c)
unfolding fetch
fetch-store clock now key fill others c e on live =
    let s = store now key e c in
    if-elim (λ (r : Option Entry × Cache). r ≡ (some e, s)) (enabled c)
      (after_first clock key fill others (load clock.first key s)) (uncached fill, s)
      (λ _.
        ap (after_first clock key fill others)
          (live-load clock.first key s e (stored-lookup now key e c) live))
      (λ off. absurd (ground (arith, on, off)))
