-- ===== src/Domain/Limit.antt =====
-- `TransactionLimit` of pkg/domain/advanced_transaction.go.
use transaction_api.Prelude.{
  ℕ, ◌+◌, pos, ℤ, ◌+ℤ◌, leb_ℤ, ltb_ℤ, leb, Option, none, some, Result, ok, err, if◌then◌else◌, Bool,
  true, not, ◌||◌,
}
use transaction_api.Domain.Base.{
  Uuid, Amount, Time, DomainError, invalid_limit, transaction_limit_exceeded, daily_limit_exceeded,
  daily_count_exceeded,
}
use transaction_api.Domain.Balance.Currency.{Currency}

pub record TransactionLimit : Type 0 where
  pub id : Uuid
  pub user_id : Uuid
  pub currency : Currency
  pub daily_limit : Amount
  pub weekly_limit : Amount
  pub monthly_limit : Amount
  pub single_limit : Amount
  pub daily_count : ℤ
  pub weekly_count : ℤ
  pub monthly_count : ℤ
  pub daily_amount : Amount
  pub weekly_amount : Amount
  pub monthly_amount : Amount
  pub last_reset_date : Time
  pub is_active : Bool
  pub created_at : Time
  pub updated_at : Time

pub record TransactionLimitRequest : Type 0 where
  pub currency : Currency
  pub daily_limit : Amount
  pub weekly_limit : Amount
  pub monthly_limit : Amount
  pub single_limit : Amount

unfoldable pub new_transaction_limit :
    Uuid → Time → Time → Time → Uuid → TransactionLimitRequest → Result DomainError TransactionLimit
new_transaction_limit id reset created updated user req =
    if leb_ℤ req.daily_limit (pos 0)
      || leb_ℤ req.weekly_limit (pos 0)
      || leb_ℤ req.monthly_limit (pos 0)
      || leb_ℤ req.single_limit (pos 0)
    then err invalid_limit
    else ok (record {
      id = id;
      user_id = user;
      currency = req.currency;
      daily_limit = req.daily_limit;
      weekly_limit = req.weekly_limit;
      monthly_limit = req.monthly_limit;
      single_limit = req.single_limit;
      daily_count = pos 0;
      weekly_count = pos 0;
      monthly_count = pos 0;
      daily_amount = pos 0;
      weekly_amount = pos 0;
      monthly_amount = pos 0;
      last_reset_date = reset;
      is_active = true;
      created_at = created;
      updated_at = updated;
    })

unfoldable pub check_single_limit : Amount → TransactionLimit → Option DomainError
check_single_limit amount tl =
    if not tl.is_active
    then none
    else if ltb_ℤ tl.single_limit amount
    then some transaction_limit_exceeded
    else none

unfoldable pub reset_daily_limits : Time → TransactionLimit → TransactionLimit
reset_daily_limits now tl = record tl {
  daily_amount = pos 0;
  daily_count = pos 0;
  last_reset_date = now;
}

-- `24*time.Hour`
abbrev pub day : ℕ
day = 86400000000000

-- `CheckDailyLimit` before its two tests: the counters start anew when a day has passed.
abbrev roll_over : Time → Time → TransactionLimit → TransactionLimit
roll_over since now tl =
    if leb (tl.last_reset_date + day) since then reset_daily_limits now tl else tl

abbrev daily_error : Amount → TransactionLimit → Option DomainError
daily_error amount tl =
    if ltb_ℤ tl.daily_limit (tl.daily_amount +ℤ amount)
    then some daily_limit_exceeded
    else if leb_ℤ (pos 100) tl.daily_count
    then some daily_count_exceeded
    else none

unfoldable pub check_daily_limit :
    Time → Time → Amount → TransactionLimit → Option DomainError × TransactionLimit
unfolding reset_daily_limits
check_daily_limit since now amount tl =
    if not tl.is_active
    then (none, tl)
    else let tl' = roll_over since now tl in (daily_error amount tl', tl')

unfoldable pub update_daily_usage : Time → Amount → TransactionLimit → TransactionLimit
update_daily_usage now amount tl = record tl {
  daily_amount = tl.daily_amount +ℤ amount;
  daily_count = tl.daily_count +ℤ pos 1;
  updated_at = now;
}
