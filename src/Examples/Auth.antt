-- ===== src/Examples/Auth.antt =====
-- Runs of postgres-topper's authentication.
use money_insighter.Prelude.{text_eq, ◌↔◌, ◌≡◌, refl, ◌∷◌, [], List, Text, codes}
use money_insighter.Topper.Auth.{Caller, ApiKey, serve, answer, read, read_write, middleware}
use money_insighter.Topper.Auth.Ring.{DistinctHashes}
use money_insighter.Topper.Auth.Verdict.{Verdict, IsPermitted, middleware-Verdict}

abbrev hash : Text → Text
hash token = b'#' ∷ token

abbrev ring : List ApiKey
ring =
    record { name = codes "reader"; scope = read; hash = codes "#abc" }
    ∷ record { name = codes "writer"; scope = read_write; hash = codes "#xyz" }
    ∷ []

reads :
    middleware hash ring (codes "GET") (codes "bearer abc ")
    ≡ serve (record { name = codes "reader"; scope = read })
unfolding middleware
reads = refl

posts :
    middleware hash ring (codes "POST") (codes "Bearer abc")
    ≡ answer 403 (codes "scope read does not allow POST")
unfolding middleware
posts = refl

distinct : DistinctHashes ring
unfolding text_eq
distinct = ((refl, tt), (tt, tt))

middleware-Verdict_example :
    ((c : Caller)
      → (middleware hash ring (codes "GET") (codes "bearer abc ") ≡ serve c)
        ↔ IsPermitted hash ring (codes "GET") (codes "bearer abc ") c)
    × Verdict hash ring
        (codes "GET")
        (codes "bearer abc ")
        (middleware hash ring (codes "GET") (codes "bearer abc "))
middleware-Verdict_example =
    middleware-Verdict hash ring (codes "GET") (codes "bearer abc ") distinct
