-- ===== src/Plaidsync/Jobs/Claim.antt =====
-- The choice of `ClaimJob` of plaid-backend-golang/internal/store/queue.go, with one claimer at a time.
use money_insighter.Prelude.{
  ◌≡◌, ◌⊎◌, inl, inr, refl, Bool, true, false, ◌||◌, not, Option, none, some, [], ◌∷◌, Text,
  if-elim, arith, text_le, All, All-impl,
}
use money_insighter.Plaidsync.Jobs.{Job, Jobs, earlier, first_of, oldest}

text_le_refl : (s : Text) → text_le s s ≡ true
unfolding text_le
text_le_refl [] = refl
text_le_refl (c ∷ s) = ground (arith, text_le_refl s)

text_le_total : (s t : Text) → text_le s t ≡ false → text_le t s ≡ true
unfolding text_le
text_le_total [] t h = absurd (cc)
text_le_total (c ∷ s) [] h = refl
text_le_total (c ∷ s) (d ∷ t) h = ground (arith, text_le_total s t)

text_le_trans : (s t u : Text) → text_le s t ≡ true → text_le t u ≡ true → text_le s u ≡ true
unfolding text_le
text_le_trans [] t u h k = refl
text_le_trans (c ∷ s) [] u h k = absurd (cc)
text_le_trans (c ∷ s) (d ∷ t) [] h k = absurd (cc)
text_le_trans (c ∷ s) (d ∷ t) (e ∷ u) h k = ground (arith, text_le_trans s t u)

earlier_refl : (a : Job) → earlier a a ≡ true
earlier_refl a = ground (arith, text_le_refl a.job_id)

earlier_total : (a b : Job) → earlier a b ≡ false → earlier b a ≡ true
earlier_total a b h = ground (arith, text_le_total a.job_id b.job_id)

earlier_trans : (a b c : Job) → earlier a b ≡ true → earlier b c ≡ true → earlier a c ≡ true
earlier_trans a b c h k = ground (arith, text_le_trans a.job_id b.job_id c.job_id)

-- `q` passes the test, stands in the table, and comes before all others that pass it.
abbrev pub Among : Job → Jobs → Type 0
Among q [] = ⊥
Among q (j ∷ jobs) = (q ≡ j) ⊎ Among q jobs

abbrev pub Before : (Job → Bool) → Job → Job → Type 0
Before p q j = not (p j) || earlier q j ≡ true

pub record IsOldest (p : Job → Bool) (jobs : Jobs) (q : Job) : Type 0 where
  pub passes : p q ≡ true
  pub among : Among q jobs
  pub least : All (Before p q) jobs

-- What a search for the oldest finds.
abbrev pub Searched : (Job → Bool) → Jobs → Option Job → Type 0
Searched p jobs none = All (λ j. p j ≡ false) jobs
Searched p jobs (some q) = IsOldest p jobs q

chosen :
    (p : Job → Bool) (j : Job) (jobs : Jobs) (o : Option Job)
    → p j ≡ true
    → Searched p jobs o
    → Searched p (j ∷ jobs) (some (first_of j o))
chosen p j jobs none on h = record {
  passes = on;
  among = inl refl;
  least = (
    ground (arith, earlier_refl j),
    All-impl (λ x. p x ≡ false) (Before p j) (λ x off. ground arith) jobs h,
  );
}
chosen p j jobs (some k) on h =
    if-elim (IsOldest p (j ∷ jobs)) (earlier j k) j k
      (λ first. record {
        passes = on;
        among = inl refl;
        least = (
          ground (arith, earlier_refl j),
          All-impl (Before p k) (Before p j) (λ x after. ground (arith, earlier_trans j k x first))
              jobs h.least,
        );
      })
      (λ later. record {
        passes = h.passes;
        among = inr h.among;
        least = (ground (arith, earlier_total j k later), h.least);
      })

skipped :
    (p : Job → Bool) (j : Job) (jobs : Jobs) (o : Option Job)
    → p j ≡ false
    → Searched p jobs o
    → Searched p (j ∷ jobs) o
skipped p j jobs none off h = (off, h)
skipped p j jobs (some q) off h = record {
  passes = h.passes;
  among = inr h.among;
  least = (ground arith, h.least);
}

pub oldest-Searched : (p : Job → Bool) (jobs : Jobs) → Searched p jobs (oldest p jobs)
unfolding oldest
oldest-Searched p [] = tt
oldest-Searched p (j ∷ jobs) =
    if-elim (Searched p (j ∷ jobs)) (p j) (some (first_of j (oldest p jobs))) (oldest p jobs)
      (λ on. chosen p j jobs (oldest p jobs) on (oldest-Searched p jobs))
      (λ off. skipped p j jobs (oldest p jobs) off (oldest-Searched p jobs))
