-- ===== src/Plaidsync/Rows/Rerun.antt =====
-- Chains of statements whose parts are known to succeed.
use money_insighter.Prelude.{◌≡◌, refl, ap, Bool, true, false, Text}
use money_insighter.Plaidsync.Errors.{GoError}
use money_insighter.Plaidsync.Rows.{Outcome, good, bad, ◌>>=◌, ◌>>◌, context, good_inj, raise_if}

-- What passed once passes again, whatever follows.
pub rerun :
    {A B : Type 0} (m : Outcome (Unit {0})) (f : Outcome A) (g : Outcome B) {a : A}
    → (m >> f) ≡ good a
    → (m >> g) ≡ g
rerun (good _) f g h = refl
rerun (bad e) f g h = absurd cc

pub after :
    {A B : Type 0} (m : Outcome A) (f : A → Outcome B) {a : A} → m ≡ good a → (m >>= f) ≡ f a
after (good a) f h = ap f (good_inj h)
after (bad e) f h = absurd cc

pub context_good :
    {A : Type 0} (t : Text) (m : Outcome A) {a : A} → m ≡ good a → context t m ≡ good a
context_good t m h = ap (context t) h

pub allowed :
    {B : Type 0} (c : Bool) (e : GoError) (k : Outcome B) → c ≡ false → (raise_if c e >> k) ≡ k
allowed true e k h = absurd cc
allowed false e k h = refl
