-- ===== src/Topper/Cache.antt =====
-- The response cache: postgres-topper/internal/cache/cache.go. The map's iteration order is the order
-- of the list, and the clock's readings and what other callers do in between are parameters.
pub mod Bounds
pub mod Fresh
use money_insighter.Prelude.{
  ℕ, zero, suc, ◌+◌, ◌-◌, ◌*◌, ◌/◌, ◌%◌, ◌^◌, Bool, true, false, ◌||◌, Option, none, some, List, [],
  ◌∷◌, ◌++◌, Text, codes, length, ltb, leb, if◌then◌else◌, keep_if, lookup, assign, delete,
  is_empty, text_eq, has_prefix, drop, split, trim_space,
}

pub record Entry : Type 0 where
  pub body : Text
  pub etag : Text
  pub expires : ℕ

abbrev pub Entries : Type 0
Entries = List (Text × Entry)

-- `m` holds at most `cap` entries; a `ttl` of 0 disables the cache.
pub record Cache : Type 0 where
  pub ttl : ℕ
  pub cap : ℕ
  pub m : Entries

unfoldable pub new_cache : ℕ → ℕ → Cache
new_cache ttl capacity = record { ttl = ttl; cap = if ltb capacity 1 then 1 else capacity; m = [] }

abbrev pub enabled : Cache → Bool
enabled c = ltb 0 c.ttl

-- now.Before(e.Expires)
abbrev pub is_live : ℕ → Text × Entry → Bool
is_live now (k, e) = ltb now e.expires

abbrev pub load_at : ℕ → Text → Cache → Option Entry → Option Entry × Cache
load_at now key c none = (none, c)
load_at now key c (some e) =
    if ltb now e.expires then (some e, c) else (none, record c { m = delete key c.m })

-- `load`: an expired entry is dropped.
unfoldable pub load : ℕ → Text → Cache → Option Entry × Cache
load now key c = load_at now key c (lookup key c.m)

-- The second loop of `store`: entries go until the rest fits.
unfoldable pub evict : ℕ → Entries → Entries
evict most [] = []
evict most (x ∷ m) = let rest = evict most m in if ltb (suc (length m)) most then x ∷ m else rest

unfoldable pub make_room : ℕ → ℕ → Entries → Entries
unfolding evict
make_room now most m = if leb most (length m) then evict most (keep_if (is_live now) m) else m

unfoldable pub store : ℕ → Text → Entry → Cache → Cache
unfolding make_room
store now key e c = record c { m = assign key e (make_room now c.cap c.m) }

-- The bits of two numbers below 2 ^ w, one or the other.
unfoldable pub xor_bits : ℕ → ℕ → ℕ → ℕ
xor_bits zero a b = 0
xor_bits (suc w) a b = (a + b) % 2 + 2 * xor_bits w (a / 2) (b / 2)

-- FNV-1a on 64 bits
unfoldable pub fnv : ℕ → Text → ℕ
unfolding xor_bits
fnv h [] = h
fnv h (b ∷ body) = fnv (xor_bits 64 h b * 1099511628211 % 2 ^ 64) body

abbrev hex_digit : ℕ → ℕ
hex_digit d = if ltb d 10 then b'0' + d else b'a' + (d - 10)

-- The last w hexadecimal digits, in front of `out`.
unfoldable pub hex : ℕ → ℕ → Text → Text
hex zero n out = out
hex (suc w) n out = hex w (n / 16) (hex_digit (n % 16) ∷ out)

unfoldable pub entity_tag : Text → Text
unfolding fnv hex
entity_tag body = codes "W/\"" ++ hex 16 (fnv 14695981039346656037 body) (b'"' ∷ [])

-- The readings of the clock in one `Do`: at the two loads, after the fill and in `store`.
pub record Clock : Type 0 where
  pub first : ℕ
  pub second : ℕ
  pub filled : ℕ
  pub stored : ℕ

abbrev pub entry_of : ℕ → Text → Entry
entry_of expires body = record { body = body; etag = entity_tag body; expires = expires }

abbrev pub after_fill : Clock → Text → Cache → Option Text → Option Entry × Cache
after_fill clock key c none = (none, c)
after_fill clock key c (some body) =
    let e = entry_of (clock.filled + c.ttl) body in (some e, store clock.stored key e c)

abbrev pub after_second : Clock → Text → Option Text → Option Entry × Cache → Option Entry × Cache
after_second clock key fill (some e, c) = (some e, c)
after_second clock key fill (none, c) = after_fill clock key c fill

abbrev pub after_first :
    Clock → Text → Option Text → (Cache → Cache) → Option Entry × Cache → Option Entry × Cache
after_first clock key fill others (some e, c) = (some e, c)
after_first clock key fill others (none, c) =
    after_second clock key fill (load clock.second key (others c))

abbrev pub uncached : Option Text → Option Entry
uncached none = none
uncached (some body) = some (entry_of 0 body)

-- `Do`; `fill` is none when it fails, and `none` is its error.
unfoldable pub fetch : Clock → Text → Option Text → (Cache → Cache) → Cache → Option Entry × Cache
unfolding load store
fetch clock key fill others c =
    if enabled c
    then after_first clock key fill others (load clock.first key c)
    else (uncached fill, c)

abbrev pub trim_weak : Text → Text
trim_weak s = if has_prefix s (codes "W/") then drop 2 s else s

unfoldable pub matches_any : Text → List Text → Bool
matches_any want [] = false
matches_any want (raw ∷ raws) =
    let candidate = trim_space raw in
    text_eq candidate (codes "*") || (text_eq (trim_weak candidate) want || matches_any want raws)

unfoldable pub matches : Text → Text → Bool
unfolding matches_any
matches if_none_match etag =
    if is_empty if_none_match
    then false
    else matches_any (trim_weak etag) (split b',' if_none_match)
