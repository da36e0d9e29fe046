-- ===== src/Repository/Queries.antt =====
-- The queries of pkg/repository/transaction.go and balance.go that only read, the other writes of
-- transactions, and the calls of pkg/service/transaction.go that are made of them.
use transaction_api.Prelude.{ℕ, Option, none, some, String, Result, ok, err, List}
use transaction_api.Domain.Base.{Uuid, Amount, Time}
use transaction_api.Domain.Transaction.{Transaction}
use transaction_api.Repository.{RepoError, write_error, create_transaction}
use transaction_api.Repository.Store.{Database, DbError, record_not_found, db_failure}

pub record BalanceHistory : Type 0 where
  pub id : Uuid
  pub user_id : Uuid
  pub amount : Amount
  pub timestamp : Time
  pub created_at : Time

-- The other statements of gorm: `First` of a transaction by its key, the transactions of a user,
-- `Save` and `Delete` of a transaction, the history of a user, the latest first, and the latest
-- entry of a user up to a time.
pub record Queries (S : Type 0) : Type 0 where
  pub first_transaction : ℕ → S → Result DbError Transaction
  pub transactions_of : ℕ → S → Result DbError (List Transaction)
  pub save_transaction : Transaction → S → Option DbError × S
  pub delete_transaction : ℕ → S → Option DbError × S
  pub history_of : String → S → Result DbError (List BalanceHistory)
  pub latest_until : String → Time → S → Result DbError BalanceHistory

-- "işlem bulunamadı", "belirtilen zamanda bakiye kaydı bulunamadı", or the database's own.
pub data QueryError : Type 0 where
  transaction_not_found no_balance_at_time : QueryError
  failed_query : String → QueryError

-- An error of a query, where a missing row has an error of its own; or has none.
abbrev named : QueryError → DbError → QueryError
named missing record_not_found = missing
named missing (db_failure e) = failed_query e

abbrev answer : {A : Type 0} → QueryError → Result DbError A → Result QueryError A
answer missing (ok a) = ok a
answer missing (err e) = err (named missing e)

module _ {S : Type 0} (queries : Queries S) where
  unfoldable pub get_by_id : ℕ → S → Result QueryError Transaction
  get_by_id id s = answer transaction_not_found (queries.first_transaction id s)

  unfoldable pub get_transactions_by_user_id : ℕ → S → Result QueryError (List Transaction)
  get_transactions_by_user_id user s =
      answer (failed_query "record not found") (queries.transactions_of user s)

  abbrev pub update_transaction : Transaction → S → Option RepoError × S
  update_transaction t s = let (e, s') = queries.save_transaction t s in (write_error e, s')

  abbrev pub delete_transaction : ℕ → S → Option RepoError × S
  delete_transaction id s = let (e, s') = queries.delete_transaction id s in (write_error e, s')

  unfoldable pub get_history : String → S → Result QueryError (List BalanceHistory)
  get_history user s = answer (failed_query "record not found") (queries.history_of user s)

  unfoldable pub get_balance_at_time : String → Time → S → Result QueryError BalanceHistory
  get_balance_at_time user time s = answer no_balance_at_time (queries.latest_until user time s)

  abbrev outcome : Result QueryError Transaction → Option QueryError
  outcome (ok t) = none
  outcome (err e) = some e

  -- `TransactionService.ProcessTransaction`: the row is read and not written; the rest is metrics.
  unfoldable pub process_transaction : ℕ → S → Option QueryError × S
  unfolding get_by_id
  process_transaction id s = (outcome (get_by_id id s), s)

-- `TransactionService.GetHistory`, `GetByID` and `CreateTransaction`.
module _ {S : Type 0} (db : Database S) (queries : Queries S) where
  unfoldable pub get_transaction_history : ℕ → S → Result QueryError (List Transaction)
  unfolding get_transactions_by_user_id
  get_transaction_history user s = get_transactions_by_user_id queries user s

  unfoldable pub get_transaction_by_id : ℕ → S → Result QueryError Transaction
  unfolding get_by_id
  get_transaction_by_id id s = get_by_id queries id s

  unfoldable pub create_service_transaction : Transaction → S → Option RepoError × S
  create_service_transaction t s = create_transaction db t s
