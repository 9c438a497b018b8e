-- ===== src/Examples/Cache.antt =====
-- Runs of postgres-topper's response cache.
use money_insighter.Prelude.{refl, arith, some, [], ◌∷◌, codes, lookup, text_eq, delete}
use money_insighter.Topper.Cache
use money_insighter.Topper.Cache.{Entry, Cache, new_cache, entry_of, store, Clock, fetch}
use money_insighter.Topper.Cache.Bounds.{IsBounded, fetch-IsBounded}
use money_insighter.Topper.Cache.Fresh.{Served, fetch-Served}

abbrev clock : Clock
clock = record { first = 10; second = 11; filled = 12; stored = 13 }

abbrev alone : Cache → Cache
alone c = c

abbrev one : Cache
one = record { ttl = 60; cap = 1; m = (codes "/a", entry_of 9 (codes "old")) ∷ [] }

fetch-IsBounded_example : IsBounded (fetch clock (codes "/a") (some (codes "new")) alone one).1
fetch-IsBounded_example =
    fetch-IsBounded clock (codes "/a") (some (codes "new")) alone (λ c h. h) one
      (record { room = omega arith; fits = omega arith })

fetch-Served_example :
    Served clock (codes "/a") (some (codes "new")) alone one (entry_of 72 (codes "new"))
unfolding Cache.fetch lookup text_eq delete
fetch-Served_example =
    fetch-Served clock (codes "/a") (some (codes "new")) alone one (entry_of 72 (codes "new")) refl
