-- ===== src/Tests/Entities.antt =====
-- Tests of balances and limits.
use transaction_api.Prelude.{◌+ℤ◌, ◌≡◌, refl, pos, none, some, true}
use transaction_api.Domain.Base.{insufficient_balance}
use transaction_api.Domain.Balance.{Balance, subtract}
use transaction_api.Domain.Balance.Currency.{usd}
use transaction_api.Domain.Limit.{TransactionLimit, check_daily_limit, update_daily_usage}

abbrev balance : Balance
balance = record {
  id = 11;
  user_id = 1;
  amount = pos 10;
  currency = "TRY";
  created_at = 0;
  updated_at = 0;
}

refused_posting : subtract 6 (pos 50) balance ≡ (some insufficient_balance, balance)
unfolding subtract
refused_posting = refl

abbrev limit : TransactionLimit
limit = record {
  id = 50;
  user_id = 1;
  currency = usd;
  daily_limit = pos 100;
  weekly_limit = pos 500;
  monthly_limit = pos 1000;
  single_limit = pos 60;
  daily_count = pos 1;
  weekly_count = pos 0;
  monthly_count = pos 0;
  daily_amount = pos 50;
  weekly_amount = pos 0;
  monthly_amount = pos 0;
  last_reset_date = 0;
  is_active = true;
  created_at = 0;
  updated_at = 0;
}

-- A check before the usage of another payment is recorded passes, and the day's limit of 100 is
-- exceeded.
checked_early :
    (check_daily_limit 5 5 (pos 40) limit ≡ (none, limit))
    × ((update_daily_usage 7 (pos 40) (update_daily_usage 6 (pos 40) limit)).daily_amount ≡ pos 130)
unfolding check_daily_limit update_daily_usage ◌+ℤ◌
checked_early = (refl, refl)
