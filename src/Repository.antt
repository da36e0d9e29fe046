-- ===== src/Repository.antt =====
-- The repositories of balances and transactions (pkg/repository/balance.go, transaction.go) over the
-- database, which the program reaches through gorm and does not implement.
pub mod Store
pub mod Queries
use transaction_api.Prelude.{Option, none, some, String, Result, ok, err}
use transaction_api.Domain.Balance.{Balance}
use transaction_api.Domain.Transaction.{Transaction}
use transaction_api.Repository.Store.{Database, DbError, record_not_found, db_failure}

-- The errors of these repositories: "hesap bulunamadı", or the database's own.
pub data RepoError : Type 0 where
  account_not_found : RepoError
  database : String → RepoError

abbrev pub repo_error : DbError → RepoError
repo_error record_not_found = account_not_found
repo_error (db_failure e) = database e

abbrev pub write_error : Option DbError → Option RepoError
write_error none = none
write_error (some record_not_found) = some (database "record not found")
write_error (some (db_failure e)) = some (database e)

module _ {S : Type 0} (db : Database S) where
  -- `GetByUserID`
  abbrev pub get_by_user_id : String → S → Result RepoError Balance
  get_by_user_id user s = elim (db.first_balance user s) [
    | ok b ↦ ok b
    | err e ↦ err (repo_error e)
  ]

  -- `Create` and `Update` of a balance, and `Create` of a transaction.
  abbrev pub create_balance : Balance → S → Option RepoError × S
  create_balance b s = let (e, s') = db.create_balance b s in (write_error e, s')

  abbrev pub update_balance : Balance → S → Option RepoError × S
  update_balance b s = let (e, s') = db.save_balance b s in (write_error e, s')

  abbrev pub create_transaction : Transaction → S → Option RepoError × S
  create_transaction t s = let (e, s') = db.create_transaction t s in (write_error e, s')
