-- ===== src/Plaidsync/Rows/Replay.antt =====
-- `ApplySyncBatch`, called a second time with the batch that it has just applied.
use money_insighter.Prelude.{
  false, length, ◌≡◌, refl, sym, ap, ◌∙◌, true, Option, none, some, List, [], ◌∷◌, Text, text_eq,
  text_eq_refl, text_eq-eq, lookup, All, All-impl, if◌then◌else◌, Bool-cases, inl, inr,
}
use money_insighter.Plaidsync.Types.{ItemStatus, SyncBatch}
use money_insighter.Plaidsync.World.{Item, move_cursor}
use money_insighter.Plaidsync.Rows.{Tables, Server, good}
use money_insighter.Plaidsync.Rows.Dedupe.{dedupe_transactions, dedupe_accounts}
use money_insighter.Plaidsync.Rows.Latest.{find, Distinct, dedupe-Distinct}
use money_insighter.Plaidsync.Rows.Upserts.{transaction_key}
use money_insighter.Plaidsync.Rows.Rerun.{allowed, after, context_good}
use money_insighter.Plaidsync.Rows.Again.{
  Matches, upsert_accounts_again, mark_if_listed_again, upsert_transactions_again,
  soft_delete_transactions_again, link_pending_transactions_again,
}
use money_insighter.Plaidsync.Rows.Removed.{apply_sync_batch-IsGone}
use money_insighter.Plaidsync.Rows.Apply.{
  Applied, Stages, apply_sync_batch, finish_batch, apply_sync_batch-Stages, is_removed,
}
use money_insighter.Plaidsync.Rows.Written.{Matches-found}

not_both : {A : Type 0} {o : Option A} {a : A} → o ≡ none → o ≡ some a → ⊥
not_both e h = cc (sym e ∙ h)

-- Every element of a list without repetitions is the one that its id finds.
found-Distinct :
    {A : Type 0} (key : A → Text) (xs : List A)
    → Distinct key xs
    → All (λ a. find key (key a) xs ≡ some a) xs
unfolding Distinct find
found-Distinct key [] once = tt
found-Distinct key (x ∷ xs) (fresh, once) = (
  rw (text_eq_refl (key x)) refl,
  All-impl (λ a. find key (key a) xs ≡ some a)
      (λ a. (if text_eq (key x) (key a) then some x else find key (key a) xs) ≡ some a)
      (λ a h. elim (Bool-cases (text_eq (key x) (key a))) [
        | inr apart ↦ rw apart h
        | inl same ↦
            absurd
              (not_both (sym (ap (λ k. find key k xs) (text_eq-eq (key x) (key a) same)) ∙ fresh) h)
      ])
      xs (found-Distinct key xs once),
)

-- What the batch wrote still matches when it is done.
Matches-done :
    (srv : Server) (raw_refl : (x : Text) → srv.same_raw x x ≡ true) (item_id : Text) (item : Item)
    (b : SyncBatch) (t : Tables) (done : Applied)
    → Stages srv item_id item b t done
    → All
        (λ tr. Matches srv tr (lookup tr.transaction_id done.tables.transactions))
        (dedupe_transactions b.upserts)
unfolding dedupe_transactions
Matches-done srv raw_refl item_id item b t done s =
    All-impl
      (λ tr. find transaction_key tr.transaction_id (dedupe_transactions b.upserts) ≡ some tr)
      (λ tr. Matches srv tr (lookup tr.transaction_id done.tables.transactions))
      (λ tr found. Matches-found srv raw_refl item_id item b t done s tr.transaction_id tr found)
      (dedupe_transactions b.upserts)
      (found-Distinct transaction_key (dedupe_transactions b.upserts)
        (dedupe-Distinct transaction_key b.upserts))

is_removed-move_cursor :
    (status : ItemStatus) (next : Text) (row : Item)
    → is_removed status ≡ false
    → is_removed (move_cursor status next row).status ≡ false
is_removed-move_cursor ItemStatus.removed next row h = cc
is_removed-move_cursor ItemStatus.active next row h = refl
is_removed-move_cursor ItemStatus.login_required next row h = refl
is_removed-move_cursor ItemStatus.pending_expiration next row h = refl
is_removed-move_cursor ItemStatus.permission_revoked next row h = refl
is_removed-move_cursor ItemStatus.error next row h = refl

-- Where JSONB equality is reflexive, a batch that was applied can be applied again to what it left:
-- the second call succeeds, inserts and updates no transaction, counts each of them once as
-- unchanged, and removes none.
pub apply_sync_batch-replay :
    (srv : Server) (item_id : Text) (item : Item) (b : SyncBatch) (t : Tables) (done : Applied)
    → ((x : Text) → srv.same_raw x x ≡ true)
    → apply_sync_batch srv item_id item b t ≡ good done
    → (again : Applied) × (apply_sync_batch srv item_id done.item b done.tables ≡ good again)
      × (again.result.inserted ≡ 0)
      × (again.result.updated ≡ 0)
      × (again.result.unchanged ≡ length (dedupe_transactions b.upserts))
      × (again.result.removed ≡ 0)
unfolding apply_sync_batch finish_batch
apply_sync_batch-replay srv item_id item b t done raw_refl h =
    let s = apply_sync_batch-Stages srv item_id item b t done h in
    let trs = dedupe_transactions b.upserts in
    let accounts = dedupe_accounts b.accounts in
    let live =
      ap (λ d. is_removed d.item.status) s.is_done
      ∙ is_removed-move_cursor item.status b.next_cursor item s.is_live in
    let (listed, e) =
      upsert_accounts_again srv item_id accounts t.accounts done.tables.accounts s.listed
        s.listing in
    let (missing, e1) =
      mark_if_listed_again srv item_id accounts s.listed.1 listed.1 s.missing s.marking in
    let e2 =
      upsert_transactions_again srv item_id s.missing.1 missing.1 trs t.transactions
        done.tables.transactions s.written s.writing
        (Matches-done srv raw_refl item_id item b t done s) in
    let e3 =
      soft_delete_transactions_again srv item_id b.removed s.written.1 done.tables.transactions
        s.removed s.removing (apply_sync_batch-IsGone srv item_id item b t done h) in
    let (linked, e4) =
      link_pending_transactions_again srv item_id trs s.removed.1 done.tables.transactions s.linked
        s.linking in
    (
      _,
      allowed _ _ _ live
          ∙ allowed _ _ _ s.has_cursor
          ∙ after _ _ (context_good _ _ e)
          ∙ after _ _ (context_good _ _ e1)
          ∙ after _ _ (context_good _ _ e2)
          ∙ after _ _ (context_good _ _ e3)
          ∙ after _ _ (context_good _ _ e4)
          ∙ after _ _ (context_good _ _ s.hooked)
          ∙ after _ _ (context_good _ _ s.saved),
      refl,
      refl,
      refl,
      refl,
    )
