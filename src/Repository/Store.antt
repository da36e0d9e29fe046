-- ===== src/Repository/Store.antt =====
-- The database as the program sees it through gorm: a state with the operations that the services
-- call, and what their documentation says of them.
use transaction_api.Prelude.{◌≡◌, refl, ◌≢◌, Option, none, some, String, Result, ok, err}
use transaction_api.Domain.Base.{Uuid, Amount}
use transaction_api.Domain.Balance.{Balance}
use transaction_api.Domain.Transaction.{Transaction}

pub data DbError : Type 0 where
  record_not_found : DbError
  db_failure : String → DbError

-- `parse_uuid` is `uuid.Parse`; the other four are `Where("user_id = ?", u).First`, `Create` and
-- `Save` of a balance, and `Create` of a transaction.
pub record Database (S : Type 0) : Type 0 where
  pub parse_uuid : String → Option Uuid
  pub first_balance : String → S → Result DbError Balance
  pub create_balance : Balance → S → Option DbError × S
  pub save_balance : Balance → S → Option DbError × S
  pub create_transaction : Transaction → S → Option DbError × S

-- The key, the owner and the amount of the row that a user's text finds.
abbrev pub owned : {S : Type 0} → Database S → S → String → Option (Uuid × Uuid × Amount)
owned db s user = elim (db.first_balance user s) [
  | ok b ↦ some (b.id, b.user_id, b.amount)
  | err _ ↦ none
]

abbrev without_owner : Option (Uuid × Uuid × Amount) → Option (Uuid × Amount)
without_owner none = none
without_owner (some (key, owner, amount)) = some (key, amount)

-- The key and the amount of that row.
abbrev pub row : {S : Type 0} → Database S → S → String → Option (Uuid × Amount)
row db s user = without_owner (owned db s user)

pub owned_of :
    {S : Type 0} (db : Database S) (user : String) (s : S) (b : Balance)
    → db.first_balance user s ≡ ok b
    → owned db s user ≡ some (b.id, b.user_id, b.amount)
owned_of db user s b e = rw (owned, e) refl

-- `Save` of a row that is stored, with its owner unchanged, writes that row and no other; a write
-- that reports an error has not been made; the tables are separate.
pub record IsDatabase {S : Type 0} (db : Database S) : Type 0 where
  pub save_own :
      (b : Balance) (s : S) (user : String) (a : Amount)
      → owned db s user ≡ some (b.id, b.user_id, a)
      → (db.save_balance b s).0 ≡ none
      → owned db (db.save_balance b s).1 user ≡ some (b.id, b.user_id, b.amount)
  pub save_other :
      (b : Balance) (s : S) (saved user : String) (key owner : Uuid) (old a : Amount)
      → owned db s saved ≡ some (b.id, b.user_id, old)
      → owned db s user ≡ some (key, owner, a)
      → key ≢ b.id
      → owned db (db.save_balance b s).1 user ≡ some (key, owner, a)
  pub save_error :
      (b : Balance) (s : S) → (db.save_balance b s).0 ≢ none → (db.save_balance b s).1 ≡ s
  pub create_own :
      (b : Balance) (s : S) (user : String)
      → db.parse_uuid user ≡ some b.user_id
      → (db.create_balance b s).0 ≡ none
      → owned db (db.create_balance b s).1 user ≡ some (b.id, b.user_id, b.amount)
  pub create_transaction_row :
      (t : Transaction) (s : S) (user : String)
      → owned db (db.create_transaction t s).1 user ≡ owned db s user
