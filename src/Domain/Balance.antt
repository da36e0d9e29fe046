-- ===== src/Domain/Balance.antt =====
-- pkg/domain/balance.go, and the balance in one currency of pkg/domain/advanced_transaction.go.
pub mod Laws
pub mod Currency
use transaction_api.Prelude.{
  pos, ◌+ℤ◌, ◌-ℤ◌, ltb_ℤ, leb_ℤ, Option, none, some, String, Result, ok, err, if◌then◌else◌,
}
use transaction_api.Domain.Base.{
  Uuid, Amount, Time, DomainError, invalid_amount, insufficient_balance,
}

pub record Balance : Type 0 where
  pub id : Uuid
  pub user_id : Uuid
  pub amount : Amount
  pub currency : String
  pub created_at : Time
  pub updated_at : Time

unfoldable pub new_balance :
    Uuid → Time → Time → Uuid → Amount → String → Result DomainError Balance
new_balance id created updated user initial currency =
    if ltb_ℤ initial (pos 0)
    then err invalid_amount
    else ok (record {
      id = id;
      user_id = user;
      amount = initial;
      currency = currency;
      created_at = created;
      updated_at = updated;
    })

-- `Add` at the reading `now` of the clock: the error, and the balance after the call.
unfoldable pub add : Time → Amount → Balance → Option DomainError × Balance
add now amount b =
    if leb_ℤ amount (pos 0)
    then (some invalid_amount, b)
    else (none, record b { amount = b.amount +ℤ amount; updated_at = now })

unfoldable pub subtract : Time → Amount → Balance → Option DomainError × Balance
subtract now amount b =
    if leb_ℤ amount (pos 0)
    then (some invalid_amount, b)
    else if ltb_ℤ b.amount amount
    then (some insufficient_balance, b)
    else (none, record b { amount = b.amount -ℤ amount; updated_at = now })

unfoldable pub get_amount : Balance → Amount
get_amount b = b.amount
