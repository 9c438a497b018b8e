-- ===== src/Examples/Plaidsync.antt =====
-- Runs of plaid-backend-golang's dates, pagination and sync engine.
use money_insighter.Prelude.{
  ℕ, zero, suc, ◌≡◌, refl, arith, true, false, Option, none, some, [], ◌∷◌, codes, length, one_of,
  text_eq,
}
use money_insighter.Plaidsync.Civil.{Date}
use money_insighter.Plaidsync.Civil
use money_insighter.Plaidsync.Civil.RoundTrip.{parse-string}
use money_insighter.Plaidsync.Civil.Strict.{parse-Accepts}
use money_insighter.Plaidsync.Types.{Transaction, Account}
use money_insighter.Plaidsync.Errors.{
  PlaidError, GoError, wrap, other, plaid, as_error, class, classify, item_status, needs_reauth,
}
use money_insighter.Plaidsync.Errors
use money_insighter.Plaidsync.Paginate.{
  Page, Reply, answer, fails, Client, SyncConfig, Pagination, fresh, paginate, drained, gave_up,
  backoff, double_until, capped,
}
use money_insighter.Plaidsync.Paginate
use money_insighter.Plaidsync.Paginate.Drain.{
  Chain, final, further, collect, Complete, paginate-Complete, paginate-total,
}
use money_insighter.Plaidsync.Paginate.Attempts.{GaveUp, paginate-GaveUp}

abbrev pub coffee : Transaction
coffee = record {
  transaction_id = codes "t1";
  account_id = codes "a1";
  item_id = codes "i1";
  amount = record { s = codes "4.5" };
  date = record { year = 2024; month = 1; day = 2 };
  pending = false;
  pending_transaction_id = none;
  details = [];
  raw = [];
  superseded_by = none;
  superseded_at = none;
  removed_at = none;
  first_seen_at = 0;
}

abbrev pub checking : Account
checking = record {
  account_id = codes "a1";
  item_id = codes "i1";
  details = [];
  raw = [];
  current_balance = some (record { s = codes "10" });
  available_balance = none;
  credit_limit = none;
  first_seen_at = 0;
  last_seen_at = 0;
  missing_since = none;
}

abbrev pub first_page : Page
first_page = record {
  added = coffee ∷ [];
  modified = [];
  removed = [];
  next_cursor = codes "c1";
  has_more = true;
  update_status = [];
  request_id = codes "r1";
}

abbrev pub last_page : Page
last_page = record {
  added = [];
  modified = [];
  removed = codes "t0" ∷ [];
  next_cursor = codes "c2";
  has_more = false;
  update_status = codes "HISTORICAL_UPDATE_COMPLETE";
  request_id = codes "r2";
}

abbrev pub two_pages : Client
two_pages zero cursor = answer first_page
two_pages (suc n) cursor = answer last_page

abbrev pub cfg : SyncConfig
cfg = record { max_attempts = 3; retry_base = 2; retry_max = 30 }

abbrev pub no_jitter : ℕ → ℕ
no_jitter d = d

abbrev pub no_wait : ℕ → ℕ → Option GoError
no_wait attempt d = none

abbrev pub two_pages-Chain : Chain two_pages 0 [] (first_page ∷ last_page ∷ [])
two_pages-Chain = further refl refl refl (final refl refl)

paginate-total_example :
    paginate cfg two_pages no_wait no_jitter 5 []
    ≡ some (
      drained (collect fresh (first_page ∷ last_page ∷ [])),
      1,
      length (first_page ∷ last_page ∷ []),
    )
paginate-total_example =
    paginate-total cfg two_pages no_wait no_jitter [] 5 (first_page ∷ last_page ∷ []) (omega arith)
      two_pages-Chain (omega arith)

paginate-Complete_example : Complete two_pages [] (collect fresh (first_page ∷ last_page ∷ []))
unfolding Paginate.paginate Paginate.attempts Paginate.run_pages collect Paginate.add_page
paginate-Complete_example =
    paginate-Complete cfg two_pages no_wait no_jitter [] 5
      (collect fresh (first_page ∷ last_page ∷ [])) 1 2 refl

abbrev reauth_error : PlaidError
reauth_error = record {
  endpoint = codes "/transactions/sync";
  kind = codes "ITEM_ERROR";
  code = codes "ITEM_LOGIN_REQUIRED";
  message = codes "the login details have changed";
  display_message = [];
  request_id = codes "r3";
  http_status = 400;
}

abbrev no_login : Client
no_login n cursor = fails (plaid reauth_error)

paginate-GaveUp_example : GaveUp cfg no_wait no_jitter (plaid reauth_error) 1
unfolding Paginate.paginate Paginate.attempts Paginate.run_pages Errors.classify Errors.class one_of
    text_eq
paginate-GaveUp_example =
    paginate-GaveUp cfg no_login no_wait no_jitter [] 5 fresh (plaid reauth_error) 1 1 refl

abbrev leap_day : Date
leap_day = record { year = 2024; month = 2; day = 29 }

abbrev new_year : Date
new_year = record { year = 2025; month = 1; day = 1 }

abbrev old_year : Date
old_year = record { year = 2023; month = 12; day = 31 }

parse-string_example : Civil.parse (Civil.string leap_day) ≡ some leap_day
unfolding Civil.valid
parse-string_example = parse-string leap_day refl

parse-Accepts_example : (Civil.valid leap_day ≡ true) × (Civil.string leap_day ≡ codes "2024-02-29")
unfolding Civil.parse
parse-Accepts_example = parse-Accepts (codes "2024-02-29") leap_day refl
