-- ===== src/Plaidsync/Paginate/Delay.antt =====
-- The wait before the next attempt.
use money_insighter.Prelude.{ℕ, zero, suc, ◌+◌, ◌-◌, ◌*◌, ◌^◌, ◌≤◌, ◌<◌, ◌≡◌, ap, arith}
use Prim.Native.Nat.{min}
use native.Mathlib.Nat.{pow-suc}
use money_insighter.Plaidsync.Paginate.{SyncConfig, double_until, capped, backoff}

pow_pos : (i : ℕ) → 1 ≤ 2 ^ i
pow_pos zero = omega arith
pow_pos (suc i) = omega (arith, pow_pos i, pow-suc 2 i)

le-scaled : (d i : ℕ) → d ≤ d * 2 ^ i
le-scaled d i = grind (arith, pow_pos i)

double_until_lem : (i max d : ℕ) → capped max (double_until i max d) ≡ min (d * 2 ^ i) max
unfolding double_until
double_until_lem zero max d = ground arith
double_until_lem (suc i) max d =
    let shift : d * 2 ^ suc i ≡ d * 2 * 2 ^ i =
      omega (arith, ap (λ (t : ℕ). d * t) (pow-suc 2 i)) in
    rw shift (ground (arith, double_until_lem i max (d * 2), le-scaled (d * 2) i))

double_until-lt : (i max d : ℕ) → d < max + max → double_until i max d < max + max
unfolding double_until
double_until-lt zero max d h = h
double_until-lt (suc i) max d h = ground (arith, double_until-lt i max (d * 2))

-- Whatever the jitter gives, the wait is at most RetryMax; and what is jittered is RetryBase doubled
-- once for each earlier attempt, or RetryMax if that is less.
pub backoff_lem :
    (cfg : SyncConfig) (jitter : ℕ → ℕ) (attempt : ℕ)
    → (backoff cfg jitter attempt ≤ cfg.retry_max)
      × (backoff cfg jitter attempt
          ≡ capped cfg.retry_max (jitter (min (cfg.retry_base * 2 ^ (attempt - 1)) cfg.retry_max)))
unfolding backoff
backoff_lem cfg jitter attempt = (
  ground arith,
  ap (λ d. capped cfg.retry_max (jitter d))
      (double_until_lem (attempt - 1) cfg.retry_max cfg.retry_base),
)

-- While RetryBase is below twice RetryMax, and RetryMax at most 2^62, the doubling never leaves the
-- positive int64, however many attempts there were.
pub double_until-fits :
    (cfg : SyncConfig) (i : ℕ)
    → cfg.retry_base < cfg.retry_max + cfg.retry_max
    → cfg.retry_max ≤ 2 ^ 62
    → double_until i cfg.retry_max cfg.retry_base < 2 ^ 63
double_until-fits cfg i small room =
    omega (arith, double_until-lt i cfg.retry_max cfg.retry_base small)
