-- ===== src/Tests/Histories.antt =====
-- Tests of the aggregates and of their event store.
use transaction_api.Prelude.{
  take, drop, ◌≡◌, refl, ◌≢◌, pos, none, some, ok, err, String, [], ◌∷◌, arith,
}
use transaction_api.Domain.Base.{pending, completed, transfer}
use transaction_api.Domain.Transaction.{Transaction}
use transaction_api.Domain.Balance.{Balance}
use transaction_api.Sourcing.Events.{
  Json, IsJson, Event, new_transaction_created_event, transaction_created, transaction_completed,
  created_transaction, plain, new_transaction_state_changed_event,
}
use transaction_api.Sourcing.Aggregate.{
  add_event, EventSourcedTransaction, zero_transaction, new_event_sourced_transaction, updated,
  update_state, load_from_history,
}
use transaction_api.Sourcing.Aggregate.Laws.{load_from_history-update_state}
use transaction_api.Sourcing.Balance.{EventSourcedBalance, Stamp}
use transaction_api.Sourcing.Balance.Laws.{
  adding, subtracting, make_all, IsRecorded, start, make_all-IsRecorded,
}
use transaction_api.Sourcing.Store.{save_events, save}
use transaction_api.Sourcing.Store.Versions.{Saves, save_events-Saves}
use transaction_api.Sourcing.Store.Null.{IsRefused, save-update_state}
use transaction_api.Sourcing.Store.Finding.{IsFound, save-IsFound}
use transaction_api.Sourcing.Replay.{EventStore, replay_from}
use transaction_api.Sourcing.Replay.Laws.{Covers, replay_from-Covers}
use transaction_api.Tests.Tables.{table, table-IsEventTable, table-RequiresData, no_rows}

abbrev first : Transaction
first = record {
  id = 20;
  user_id = 1;
  type_ = transfer;
  amount = pos 3;
  description = "rent";
  reference_id = "";
  balance_after = pos 0;
  status = pending;
  created_at = 4;
  updated_at = 4;
}

abbrev first_balance : Balance
first_balance = record {
  id = 11;
  user_id = 1;
  amount = pos 10;
  currency = "TRY";
  created_at = 0;
  updated_at = 0;
}

abbrev empty : String
empty = "unexpected end of JSON input"

-- Its texts stand for one transaction and one balance.
abbrev json : Json
json = record {
  marshal_transaction = λ _. "transaction";
  marshal_balance = λ _. "balance";
  unmarshal_transaction = λ p. elim p [ none ↦ err empty | some _ ↦ ok first ];
  unmarshal_balance = λ p. elim p [ none ↦ err empty | some _ ↦ ok first_balance ];
  unmarshal_state_change = λ _. err empty;
  unmarshal_balance_update = λ _. err empty;
  unmarshal_event = λ _ _. ok plain;
}

json-IsJson : IsJson json
json-IsJson = record { empty_state_change = refl; empty_balance_update = refl }

abbrev created : Event
created = record {
  base = record {
    id = 60;
    type_ = transaction_created;
    aggregate_id = 20;
    version = 1;
    timestamp = 5;
    payload = some "transaction";
  };
  detail = created_transaction first;
}

abbrev made : EventSourcedTransaction
made = record {
  root = record { id = 20; version = 0; uncommitted_events = created ∷ [] };
  user_id = 1;
  type_ = transfer;
  amount = pos 3;
  description = "rent";
  reference_id = "";
  balance_after = pos 0;
  status = pending;
  created_at = 4;
  updated_at = 4;
}

made_new : new_event_sourced_transaction json 20 4 4 60 5 1 (pos 3) "rent" ≡ ok made
unfolding new_event_sourced_transaction new_transaction_created_event add_event
made_new = refl

abbrev change : Event
change = new_transaction_state_changed_event 61 6 20 transaction_completed pending completed "paid"

abbrev settled : EventSourcedTransaction
settled = record made {
  root = record { id = 20; version = 0; uncommitted_events = created ∷ change ∷ [] };
  status = completed;
  updated_at = 5;
}

settled_update : update_state 61 5 6 completed "paid" made ≡ updated settled
unfolding update_state
settled_update = refl

load_from_history-update_state_example :
    (load_from_history json (created ∷ change ∷ []) zero_transaction).0 ≢ none
load_from_history-update_state_example =
    load_from_history-update_state json 61 5 6 completed "paid" made settled zero_transaction
      json-IsJson settled_update

abbrev balance : EventSourcedBalance
balance = record {
  root = record { id = 11; version = 0; uncommitted_events = [] };
  user_id = 1;
  amount = pos 10;
  currency = "TRY";
  created_at = 0;
  updated_at = 0;
}

abbrev stamp : Stamp
stamp = record { now = 5; event_id = 62; event_now = 5 }

make_all-IsRecorded_example :
    IsRecorded
      (pos 10)
      (make_all (adding stamp (pos 3) 20 ∷ subtracting stamp (pos 50) 21 ∷ []) balance)
make_all-IsRecorded_example =
    make_all-IsRecorded (pos 10) (adding stamp (pos 3) 20 ∷ subtracting stamp (pos 50) 21 ∷ [])
      balance (start, omega arith)

save_events-Saves_example :
    Saves table table-IsEventTable 7 20 0 0 []
      (created ∷ [])
      no_rows
      (save_events table 7 20 (created ∷ []) 0 no_rows)
save_events-Saves_example =
    save_events-Saves table table-IsEventTable 7 20 0 0 [] (created ∷ []) no_rows (refl, tt)
      (refl, refl)

save-IsFound_example : IsFound table json 7 60 5 made (save table 7 made.root no_rows)
save-IsFound_example =
    save-IsFound table json 20 4 4 60 5 7 1 (pos 3) "rent" made plain no_rows table-IsEventTable
      made_new refl refl (refl, refl)

save-update_state_example : IsRefused table table-RequiresData 7 settled.root no_rows
save-update_state_example =
    save-update_state table table-RequiresData 7 61 5 6 completed "paid" made settled no_rows
      settled_update

abbrev store : EventStore
store = record {
  get_events = λ id. ok (created ∷ change ∷ []);
  get_all_events = λ limit offset. ok (take limit (drop offset (created ∷ change ∷ [])));
}

replay_from-Covers_example :
    Covers store json (created ∷ change ∷ []) (replay_from store json 3 1 0)
replay_from-Covers_example =
    replay_from-Covers store json (created ∷ change ∷ []) 3 1 0 (λ limit offset. refl) (omega arith)
      (omega arith)
