-- ===== src/Plaidsync/Paginate/Drain.antt =====
-- The pages of a drained pagination: `paginate` of plaid-backend-golang/internal/sync/engine.go.
use money_insighter.Prelude.{
  ℕ, zero, suc, ◌+◌, ◌≤◌, ◌≡◌, refl, sym, ap, ◌∙◌, arith, true, false, ◌||◌, not, Option, none,
  some, List, [], ◌∷◌, ◌++◌, Text, length, is_empty, ◌==◌, if-elim, append_assoc, append-nil, subst,
}
use native.Mathlib.Nat.{zero-add}
use native.Mathlib.Numerals.{add-one}
use money_insighter.Plaidsync.Types.{Transaction}
use money_insighter.Plaidsync.Errors.{GoError, classify}
use money_insighter.Plaidsync.Paginate.{
  Page, Reply, answer, fails, Client, Pagination, fresh, add_page, done, broke, Attempt, after_page,
  after_reply, run_pages, SyncConfig, drained, Sleep, Paged, after_sleep, after_attempt, attempts,
  paginate, backoff, is_retryable,
}

-- The pages that the calls from `n` on bring, each at the cursor of the one before it, up to the
-- first with no more behind it.
pub data Chain (cl : Client) : ℕ → Text → List Page → Type 0 where
  final :
      {n : ℕ} {c : Text} {p : Page} → cl n c ≡ answer p → p.has_more ≡ false → Chain cl n c (p ∷ [])
  further :
      {n : ℕ} {c : Text} {p : Page} {ps : List Page}
      → cl n c ≡ answer p
      → p.has_more ≡ true
      → is_empty p.next_cursor ≡ false
      → Chain cl (suc n) p.next_cursor ps
      → Chain cl n c (p ∷ ps)

unfoldable pub collect : Pagination → List Page → Pagination
collect pg [] = pg
collect pg (p ∷ ps) = collect (add_page pg p) ps

abbrev Sound : Client → ℕ → Text → Pagination → Option Attempt → Type 0
Sound cl n c pg r =
    (pg' : Pagination) (n' : ℕ)
    → r ≡ some (done, pg', n')
    → (ps : List Page) × Chain cl n c ps × (pg' ≡ collect pg ps) × (n' ≡ n + length ps)

fetched :
    (cl : Client) (n : ℕ) (c : Text) (pg : Pagination) (go_on : Text → Pagination → Option Attempt)
    → ((c' : Text) (pg' : Pagination) → Sound cl (suc n) c' pg' (go_on c' pg'))
    → (p : Page) → cl n c ≡ answer p
    → Sound cl n c pg (after_page go_on (add_page pg p) (suc n) p)
unfolding collect
fetched cl n c pg go_on ih p e =
    if-elim (Sound cl n c pg) (not p.has_more) _ _
      (λ last pg' n' h. (p ∷ [], final e (ground arith), cc h, ground arith))
      (λ more.
        if-elim (Sound cl n c pg) (is_empty p.next_cursor) _ _ (λ _ pg' n' h. cc h)
          (λ cursor pg' n' h.
            let (ps, chain, same, calls) = ih p.next_cursor (add_page pg p) pg' n' h in
            (p ∷ ps, further e (ground arith) cursor chain, same, omega arith)))

replied :
    (cl : Client) (n : ℕ) (c : Text) (pg : Pagination) (go_on : Text → Pagination → Option Attempt)
    → ((c' : Text) (pg' : Pagination) → Sound cl (suc n) c' pg' (go_on c' pg'))
    → (r : Reply) → cl n c ≡ r
    → Sound cl n c pg (after_reply go_on pg (suc n) r)
replied cl n c pg go_on ih (fails err) e = λ pg' n' h. cc h
replied cl n c pg go_on ih (answer p) e = fetched cl n c pg go_on ih p e

run_pages-Sound :
    (cl : Client) (f n : ℕ) (c : Text) (pg : Pagination) → Sound cl n c pg (run_pages cl f n c pg)
unfolding run_pages
run_pages-Sound cl zero n c pg = λ pg' n' h. cc h
run_pages-Sound cl (suc f) n c pg =
    replied cl n c pg (run_pages cl f (suc n)) (run_pages-Sound cl f (suc n)) (cl n c) refl

-- Enough fuel drains every chain.
run_pages_complete :
    (cl : Client) (f n : ℕ) (c : Text) (pg : Pagination) (ps : List Page)
    → Chain cl n c ps
    → length ps ≤ f
    → run_pages cl f n c pg ≡ some (done, collect pg ps, n + length ps)
unfolding run_pages collect
run_pages_complete cl zero n c pg (p ∷ ps) chain fuel = absurd (omega arith)
run_pages_complete cl zero n c pg [] chain fuel = absurd (no_empty chain)
  where
    no_empty : Chain cl n c [] → ⊥
    no_empty h = elim h [ ]
run_pages_complete cl (suc f) n c pg ps (final e last) fuel = rw (e, after_reply, last, add-one n)
run_pages_complete cl (suc f) n c pg ps (further {p = p} {ps = qs} e more cursor chain) fuel =
    rw (e, after_reply, more, cursor)
      (run_pages_complete cl f (suc n) p.next_cursor (add_page pg p) qs chain (omega arith)
        ∙ ap (λ (k : ℕ). some (done, collect (add_page pg p) qs, k)) (omega arith))

-- What a list of pages adds up to, field by field.
abbrev pub all_upserts : List Page → List Transaction
all_upserts [] = []
all_upserts (p ∷ ps) = p.added ++ p.modified ++ all_upserts ps

abbrev pub all_removed : List Page → List Text
all_removed [] = []
all_removed (p ∷ ps) = p.removed ++ all_removed ps

abbrev pub last_cursor : Text → List Page → Text
last_cursor c [] = c
last_cursor c (p ∷ ps) = last_cursor p.next_cursor ps

abbrev pub total : (Page → ℕ) → List Page → ℕ
total f [] = 0
total f (p ∷ ps) = f p + total f ps

pub record AddsUp (pg : Pagination) (ps : List Page) (r : Pagination) : Type 0 where
  pub accounts : r.batch.accounts ≡ pg.batch.accounts
  pub upserts : r.batch.upserts ≡ pg.batch.upserts ++ all_upserts ps
  pub removed_ids : r.batch.removed ≡ pg.batch.removed ++ all_removed ps
  pub cursor : r.batch.next_cursor ≡ last_cursor pg.batch.next_cursor ps
  pub added : r.batch.added ≡ pg.batch.added + total (λ p. length p.added) ps
  pub modified : r.batch.modified ≡ pg.batch.modified + total (λ p. length p.modified) ps
  pub removed : r.removed ≡ pg.removed + total (λ p. length p.removed) ps
  pub pages : r.pages ≡ pg.pages + length ps

collect-AddsUp : (pg : Pagination) (ps : List Page) → AddsUp pg ps (collect pg ps)
unfolding collect add_page
collect-AddsUp pg [] = record {
  accounts = refl;
  upserts = simp append-nil;
  removed_ids = simp append-nil;
  cursor = refl;
  added = omega arith;
  modified = omega arith;
  removed = omega arith;
  pages = omega arith;
}
collect-AddsUp pg (p ∷ ps) =
    let ih = collect-AddsUp (add_page pg p) ps in
    record {
      accounts = ih.accounts;
      upserts = ih.upserts ∙ simp append_assoc;
      removed_ids = ih.removed_ids ∙ simp append_assoc;
      cursor = ih.cursor;
      added = omega (arith, ih.added);
      modified = omega (arith, ih.modified);
      removed = omega (arith, ih.removed);
      pages = omega (arith, ih.pages);
    }

-- The result of a drained pagination: a chain from the original cursor, and its sums.
pub record Complete (cl : Client) (orig : Text) (pg : Pagination) : Type 0 where
  pub start : ℕ
  pub chain_pages : List Page
  pub chain : Chain cl start orig chain_pages
  pub sums : AddsUp fresh chain_pages pg

abbrev Drains : Client → Text → Option Paged → Type 0
Drains cl orig r = (pg : Pagination) (a n' : ℕ) → r ≡ some (drained pg, a, n') → Complete cl orig pg

module _ (cfg : SyncConfig) (cl : Client) (sleep : Sleep) (jitter : ℕ → ℕ) (orig : Text) where
  after_attempt-Drains :
      (fuel n attempt : ℕ) (again : ℕ → Option Paged) (r : Option Attempt)
      → run_pages cl fuel n orig fresh ≡ r
      → ((m : ℕ) → Drains cl orig (again m))
      → Drains cl orig (after_attempt cfg sleep jitter again attempt r)
  after_attempt-Drains fuel n attempt again none e ih = λ pg a n' h. cc h
  after_attempt-Drains fuel n attempt again (some (done, pg0, m)) e ih = λ pg a n' h.
      let (ps, chain, same, calls) = run_pages-Sound cl fuel n orig fresh pg0 m e in
      record {
        start = n;
        chain_pages = ps;
        chain = chain;
        sums = subst (AddsUp fresh ps) (sym same ∙ (cc h)) (collect-AddsUp fresh ps);
      }
  after_attempt-Drains fuel n attempt again (some (broke err, pg0, m)) e ih =
      if-elim (Drains cl orig) (not (is_retryable (classify err)) || (attempt == cfg.max_attempts))
        _ _ (λ _ pg a n' h. cc h) (λ _. slept (sleep attempt (backoff cfg jitter attempt)))
    where
      slept : (o : Option GoError) → Drains cl orig (after_sleep again pg0 attempt m o)
      slept none = ih m
      slept (some err') = λ pg a n' h. cc h

  attempts-Drains :
      (fuel left attempt n : ℕ)
      → Drains cl orig (attempts cfg cl sleep jitter fuel orig left attempt n)
  unfolding attempts
  attempts-Drains fuel zero attempt n = λ pg a n' h. cc h
  attempts-Drains fuel (suc left) attempt n =
      after_attempt-Drains fuel n attempt
        (attempts cfg cl sleep jitter fuel orig left (suc attempt)) (run_pages cl fuel n orig fresh)
        refl (attempts-Drains fuel left (suc attempt))

  -- When `paginate` returns a batch, the batch is the sum of one unbroken chain of pages that starts
  -- at the original cursor and ends at a page with no more behind it: all added and modified rows
  -- in the order received, all removed ids, the counts, and the last page's cursor. Nothing of a
  -- failed attempt is in it.
  pub paginate-Complete :
      (fuel : ℕ) (pg : Pagination) (a n' : ℕ)
      → paginate cfg cl sleep jitter fuel orig ≡ some (drained pg, a, n')
      → Complete cl orig pg
  unfolding paginate
  paginate-Complete fuel = attempts-Drains fuel cfg.max_attempts 1 0

  -- With a chain of pages from the original cursor and fuel for its pages, the first attempt drains it.
  pub paginate-total :
      (fuel : ℕ) (ps : List Page)
      → 1 ≤ cfg.max_attempts
      → Chain cl 0 orig ps
      → length ps ≤ fuel
      → paginate cfg cl sleep jitter fuel orig ≡ some (drained (collect fresh ps), 1, length ps)
  unfolding paginate
  paginate-total fuel ps some_left chain enough = go cfg.max_attempts some_left
    where
      go :
          (left : ℕ)
          → 1 ≤ left
          → attempts cfg cl sleep jitter fuel orig left 1 0
            ≡ some (drained (collect fresh ps), 1, length ps)
      go zero h = absurd (omega arith)
      go (suc left) h = rw (run_pages_complete cl fuel 0 orig fresh ps chain enough) (rw zero-add)
