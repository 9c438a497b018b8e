-- ===== src/Topper/Cache/Bounds.antt =====
-- The size of the cache: postgres-topper/internal/cache/cache.go.
use money_insighter.Prelude.{
  ℕ, ◌≤◌, ◌<◌, Option, none, some, [], ◌∷◌, Text, length, ltb, leb, if-elim, arith, keep_if, lookup,
  length-assign-le, length-delete-le,
}
use money_insighter.Topper.Cache.{
  Entry, Entries, Cache, new_cache, enabled, is_live, load, load_at, evict, make_room, store, Clock,
  after_fill, after_first, after_second, fetch,
}

pub record IsBounded (c : Cache) : Type 0 where
  pub room : 1 ≤ c.cap
  pub fits : length c.m ≤ c.cap

-- A new cache is bounded, whatever capacity it is asked for.
pub new_cache-IsBounded : (ttl capacity : ℕ) → IsBounded (new_cache ttl capacity)
unfolding new_cache
new_cache-IsBounded ttl capacity = record { room = ground arith; fits = omega arith }

evict-lt : (most : ℕ) (m : Entries) → 1 ≤ most → length (evict most m) < most
unfolding evict
evict-lt most [] h = h
evict-lt most (x ∷ m) h = ground (arith, evict-lt most m h)

make_room-lt : (now most : ℕ) (m : Entries) → 1 ≤ most → length (make_room now most m) < most
unfolding make_room
make_room-lt now most m h =
    if-elim (λ r. length r < most) (leb most (length m)) (evict most (keep_if (is_live now) m)) m
      (λ _. evict-lt most (keep_if (is_live now) m) h) (λ small. ground arith)

store-IsBounded :
    (now : ℕ) (key : Text) (e : Entry) (c : Cache) → IsBounded c → IsBounded (store now key e c)
unfolding store
store-IsBounded now key e c h = record {
  room = h.room;
  fits =
      omega (
        arith,
        length-assign-le key e (make_room now c.cap c.m),
        make_room-lt now c.cap c.m h.room,
      );
}

load-IsBounded : (now : ℕ) (key : Text) (c : Cache) → IsBounded c → IsBounded (load now key c).1
unfolding load
load-IsBounded now key c h = go (lookup key c.m)
  where
    go : (r : Option Entry) → IsBounded (load_at now key c r).1
    go none = h
    go (some e) =
        if-elim (λ (r : Option Entry × Cache). IsBounded r.1) (ltb now e.expires) _ _ (λ _. h)
          (λ _. record { room = h.room; fits = omega (arith, length-delete-le key c.m, h.fits) })

module _ (clock : Clock) (key : Text) (fill : Option Text) (others : Cache → Cache)
    (kept : (c : Cache) → IsBounded c → IsBounded (others c)) where
  filled-IsBounded :
      (c : Cache) (f : Option Text) → IsBounded c → IsBounded (after_fill clock key c f).1
  filled-IsBounded c none h = h
  filled-IsBounded c (some body) h = store-IsBounded clock.stored key _ c h

  second-IsBounded :
      (r : Option Entry × Cache) → IsBounded r.1 → IsBounded (after_second clock key fill r).1
  second-IsBounded (some e, c) h = h
  second-IsBounded (none, c) h = filled-IsBounded c fill h

  first-IsBounded :
      (r : Option Entry × Cache) → IsBounded r.1 → IsBounded (after_first clock key fill others r).1
  first-IsBounded (some e, c) h = h
  first-IsBounded (none, c) h =
      second-IsBounded (load clock.second key (others c))
        (load-IsBounded clock.second key (others c) (kept c h))

  -- However a request ends, the cache holds at most as many entries as its capacity, when it did
  -- before and the requests in between keep to that.
  pub fetch-IsBounded : (c : Cache) → IsBounded c → IsBounded (fetch clock key fill others c).1
  unfolding fetch
  fetch-IsBounded c h =
      if-elim (λ (r : Option Entry × Cache). IsBounded r.1) (enabled c) _ _
        (λ _. first-IsBounded (load clock.first key c) (load-IsBounded clock.first key c h))
        (λ _. h)
