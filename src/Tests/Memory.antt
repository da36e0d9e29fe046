-- ===== src/Tests/Memory.antt =====
-- A database in memory, which the tests of the services run on: each user's key and amount.
use transaction_api.Prelude.{
  ℕ, ◌==◌, if◌then◌else◌, Option, none, some, String, Result, ok, err, [], arith, pos,
}
use transaction_api.Domain.Base.{Uuid, Amount, completed, credit}
use transaction_api.Domain.Balance.{Balance}
use transaction_api.Domain.Balance.Currency.{usd}
use transaction_api.Domain.Scheduled.{BatchTransaction}
use transaction_api.Repository.Store.{DbError, record_not_found, Database, IsDatabase}
use transaction_api.Service.Ports.{Ports, IsStorage}
use text.Mathlib.Text.{◌==◌ as str_eq}

abbrev pub Accounts : Type 0
Accounts = ℕ → Option (Uuid × Amount)

abbrev balance_at : Uuid → Uuid × Amount → Balance
balance_at user (key, amount) = record {
  id = key;
  user_id = user;
  amount = amount;
  currency = "TRY";
  created_at = 0;
  updated_at = 0;
}

abbrev pub user_number : String → Option Uuid
user_number user =
    if str_eq user "alice"
    then some 1
    else if str_eq user "bob"
    then some 2
    else if str_eq user "carol"
    then some 3
    else none

abbrev first_of : Uuid → Option (Uuid × Amount) → Result DbError Balance
first_of user none = err record_not_found
first_of user (some r) = ok (balance_at user r)

abbrev first_if : Option Uuid → Accounts → Result DbError Balance
first_if none s = err record_not_found
first_if (some u) s = first_of u (s u)

abbrev written_row : Balance → Option (Uuid × Amount) → Option (Uuid × Amount)
written_row b none = none
written_row b (some (key, amount)) = some (key, if key == b.id then b.amount else amount)

abbrev pub memory : Database Accounts
memory = record {
  parse_uuid = user_number;
  first_balance = λ user s. first_if (user_number user) s;
  create_balance = λ b s. (none, λ u. if u == b.user_id then some (b.id, b.amount) else s u);
  save_balance = λ b s. (none, λ u. written_row b (s u));
  create_transaction = λ t s. (none, s);
}

pub memory-IsDatabase : IsDatabase memory
memory-IsDatabase = ground arith

abbrev number_of : Uuid → Option (Uuid × Amount) → Result String Balance
number_of n none = err "record not found"
number_of n (some r) = ok (balance_at n r)

abbrev pub paid_batch : BatchTransaction
paid_batch = record {
  id = 9;
  user_id = 1;
  type_ = credit;
  currency = usd;
  description = "salaries";
  status = completed;
  total_amount = pos 5;
  item_count = 1;
  processed_at = some 4;
  created_at = 1;
  updated_at = 4;
}

abbrev pub storage_ports : Ports Accounts
storage_ports = record {
  uuid_id = λ u. u;
  get_balance = λ n s. number_of n (s n);
  update_balance = λ b s. (none, λ u. written_row b (s u));
  create_transaction = λ t s. (none, s);
  create_scheduled = λ t s. (none, s);
  get_scheduled = λ i s. err "record not found";
  pending_scheduled = λ s. ok [];
  update_scheduled = λ t s. (none, s);
  create_batch = λ t s. (none, s);
  create_item = λ t s. (none, s);
  get_batch = λ i s. ok paid_batch;
  update_batch = λ t s. (none, s);
  items_of_batch = λ i s. ok [];
  update_item = λ t s. (none, s);
  error_text = λ e. "failed";
}

pub storage_ports-IsStorage : IsStorage storage_ports
storage_ports-IsStorage = ground arith

-- Alice holds 10 under key 11 and Bob 4 under key 12; Carol has no account.
abbrev pub accounts : Accounts
accounts u = if u == 1 then some (11, pos 10) else if u == 2 then some (12, pos 4) else none

abbrev pub alice : Balance
alice = balance_at 1 (11, pos 10)

abbrev pub bob : Balance
bob = balance_at 2 (12, pos 4)

abbrev pub with_carol : Accounts
with_carol u = if u == 3 then some (13, pos 1) else accounts u

abbrev pub carol : Balance
carol = balance_at 3 (13, pos 1)
