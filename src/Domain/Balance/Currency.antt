-- ===== src/Domain/Balance/Currency.antt =====
-- `MultiCurrencyBalance` of pkg/domain/advanced_transaction.go.
use transaction_api.Prelude.{
  pos, ◌+ℤ◌, ◌-ℤ◌, ltb_ℤ, leb_ℤ, Option, none, some, Result, ok, err, if◌then◌else◌, String,
}
use transaction_api.Domain.Base.{
  Uuid, Amount, Time, DomainError, invalid_amount, insufficient_balance,
}

-- The four constants; `other_currency` is any other text.
pub data Currency : Type 0 where
  usd eur try gbp : Currency
  other_currency : String → Currency

pub record MultiCurrencyBalance : Type 0 where
  pub id : Uuid
  pub user_id : Uuid
  pub currency : Currency
  pub amount : Amount
  pub created_at : Time
  pub updated_at : Time

unfoldable pub new_multi_currency_balance :
    Uuid → Time → Time → Uuid → Currency → Amount → Result DomainError MultiCurrencyBalance
new_multi_currency_balance id created updated user currency initial =
    if ltb_ℤ initial (pos 0)
    then err invalid_amount
    else ok (record {
      id = id;
      user_id = user;
      currency = currency;
      amount = initial;
      created_at = created;
      updated_at = updated;
    })

unfoldable pub add_currency :
    Time → Amount → MultiCurrencyBalance → Option DomainError × MultiCurrencyBalance
add_currency now amount b =
    if leb_ℤ amount (pos 0)
    then (some invalid_amount, b)
    else (none, record b { amount = b.amount +ℤ amount; updated_at = now })

unfoldable pub subtract_currency :
    Time → Amount → MultiCurrencyBalance → Option DomainError × MultiCurrencyBalance
subtract_currency now amount b =
    if leb_ℤ amount (pos 0)
    then (some invalid_amount, b)
    else if ltb_ℤ b.amount amount
    then (some insufficient_balance, b)
    else (none, record b { amount = b.amount -ℤ amount; updated_at = now })
