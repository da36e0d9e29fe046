-- ===== src/Domain/Transaction.antt =====
-- pkg/domain/transaction.go.
pub mod Laws
use transaction_api.Prelude.{
  pos, leb_ℤ, Option, none, some, String, Result, ok, err, if◌then◌else◌, Bool, true, false, not,
  ◌&&◌,
}
use transaction_api.Domain.Base.{
  Uuid, Amount, Time, DomainError, invalid_amount, invalid_state, Status, pending, completed,
  failed, cancelled, rolled_back, TransactionType, transfer,
}

pub record Transaction : Type 0 where
  pub id : Uuid
  pub user_id : Uuid
  pub type_ : TransactionType
  pub amount : Amount
  pub description : String
  pub reference_id : String
  pub balance_after : Amount
  pub status : Status
  pub created_at : Time
  pub updated_at : Time

-- The fields that Go leaves out of the literal are zero values.
unfoldable pub new_transaction :
    Uuid → Time → Time → Uuid → Amount → String → Result DomainError Transaction
new_transaction id created updated user amount description =
    if leb_ℤ amount (pos 0)
    then err invalid_amount
    else ok (record {
      id = id;
      user_id = user;
      type_ = transfer;
      amount = amount;
      description = description;
      reference_id = "";
      balance_after = pos 0;
      status = pending;
      created_at = created;
      updated_at = updated;
    })

-- `newState` is one of the three states that may follow "pending".
abbrev pub is_final : Status → Bool
is_final completed = true
is_final failed = true
is_final cancelled = true
is_final _ = false

-- The `switch` of `UpdateState` on the status: whether it returns `ErrInvalidState`. It has no case
-- for "cancelled".
refuses : Status → Status → Bool
refuses pending to = not (is_final to)
refuses completed to = true
refuses failed to = true
refuses rolled_back to = true
refuses _ to = false

unfoldable pub update_state : Time → Status → Transaction → Option DomainError × Transaction
unfolding refuses
update_state now to t =
    if refuses t.status to
    then (some invalid_state, t)
    else (none, record t { status = to; updated_at = now })
