-- ===== src/Tests/Orders.antt =====
-- Tests of the services of scheduled and batch transactions on the storage in memory.
use transaction_api.Prelude.{refl, pos, ok, none, some, [], ◌∷◌, arith}
use transaction_api.Domain.Base.{pending, transfer}
use transaction_api.Domain.Transaction.{Transaction}
use transaction_api.Domain.Balance.Currency.{usd}
use transaction_api.Domain.Scheduled.{ScheduledTransaction}
use transaction_api.Service.Ports.{
  Ports, MoveTimes, BatchTransactionItem, process_transfer_transaction,
}
use transaction_api.Service.Ports.Moves.{Moves, process_transfer_transaction-Moves}
use transaction_api.Service.Scheduled.{Execution, execute_scheduled_transaction}
use transaction_api.Service.Scheduled.Laws.{Executed, execute_scheduled_transaction-Executed}
use transaction_api.Service.Batch.{ItemRun, BatchRun, process_batch_transaction}
use transaction_api.Service.Batch.Ending.{Ends, process_batch_transaction-Ends}
use transaction_api.Tests.Memory.{
  storage_ports, storage_ports-IsStorage, paid_batch, Accounts, accounts, alice, bob,
}

abbrev times : MoveTimes
times = record { subtracted = 5; added = 6; stated = 7 }

abbrev rent : Transaction
rent = record {
  id = 20;
  user_id = 1;
  type_ = transfer;
  amount = pos 3;
  description = "rent";
  reference_id = "";
  balance_after = pos 0;
  status = pending;
  created_at = 4;
  updated_at = 4;
}

process_transfer_transaction-Moves_example :
    Moves storage_ports storage_ports-IsStorage 1 2 11 12
      (pos 10)
      (pos 4)
      (pos 3)
      accounts
      (process_transfer_transaction storage_ports times rent 2 accounts)
process_transfer_transaction-Moves_example =
    process_transfer_transaction-Moves storage_ports storage_ports-IsStorage times rent 2 accounts
      alice bob refl refl (λ e. omega arith)

abbrev execution : Execution
execution = record {
  transaction_id = 20;
  created = 4;
  updated = 4;
  moves = times;
  retried = 8;
  retry_updated = 8;
  status_updated = 9;
}

-- It asks for more than Alice holds.
abbrev too_much : ScheduledTransaction
too_much = record {
  id = 30;
  user_id = 1;
  type_ = transfer;
  amount = pos 50;
  currency = usd;
  description = "car";
  reference_id = "";
  to_user_id = some 2;
  scheduled_at = 3;
  status = pending;
  recurring_type = none;
  recurring_config = none;
  max_retries = pos 3;
  retry_count = pos 0;
  last_retry_at = none;
  next_retry_at = none;
  created_at = 1;
  updated_at = 1;
}

execute_scheduled_transaction-Executed_example :
    Executed storage_ports execution too_much accounts
      (execute_scheduled_transaction storage_ports execution too_much accounts)
execute_scheduled_transaction-Executed_example =
    execute_scheduled_transaction-Executed storage_ports execution too_much accounts refl

abbrev item : BatchTransactionItem
item = record {
  id = 40;
  batch_id = 9;
  transaction_id = 0;
  amount = pos 5;
  description = "salary";
  reference_id = "";
  status = pending;
  error_message = none;
  processed_at = none;
  created_at = 1;
  updated_at = 1;
}

abbrev item_run : ItemRun
item_run = record {
  transaction_id = 41;
  created = 4;
  updated = 4;
  moves = times;
  processed = 8;
  item_updated = 8;
}

abbrev batch_run : BatchRun
batch_run = record { started = 4; ended = 9; processed = 9 }

-- The storage with a batch that is pending, and its item.
abbrev batch_ports : Ports Accounts
batch_ports = record storage_ports {
  get_batch = λ i s. ok (record paid_batch { status = pending; processed_at = none });
  items_of_batch = λ i s. ok (item ∷ []);
}

process_batch_transaction-Ends_example :
    Ends batch_ports batch_run
      (λ _. item_run)
      9
      accounts
      (process_batch_transaction batch_ports batch_run (λ _. item_run) 9 accounts)
process_batch_transaction-Ends_example =
    process_batch_transaction-Ends batch_ports batch_run (λ _. item_run) 9 accounts
